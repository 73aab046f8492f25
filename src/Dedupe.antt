-- ===== src/Dedupe.antt =====
-- The dedupe of bootstraps across the parts: Submit of internal/migration/service.go puts a message on the queue and then
-- marks the account pending, while the worker of internal/worker/worker.go takes messages and marks accounts, and
-- Service Bus drops a message when its time to live is over. These happen in any order, each as one step, and one clock
-- tells the time to all of them. A message that is abandoned stays where it is, and one that could not be completed can
-- be delivered again. A message is given up when the dead-letter queue has its entry: the worker then completes it whether
-- MarkFailed succeeds or not, and where it fails the account is left unmarked. A message counts as written for good once
-- the processor has taken its password.
pub mod Consistent
pub mod Moved
pub mod Marked
pub mod Invariant
pub mod Skips
pub mod Outlived
use password_hook_service.Prelude.{
  ℕ, ◌+◌, ◌≤◌, Bool, true, false, Option, none, some, ◌≡◌, ◌≢◌, if◌then◌else◌, ◌==◌, Text, Unicode,
  List, [], ◌∷◌, ℤ, pos, Result, ok, err,
}
use password_hook_service.Migration.Service.{Call, get_status, Collaborators, Service, new_service}
use password_hook_service.SyncStatus.{
  Record, zero_record, Store, empty_store, get, mark_pending, mark_synced, mark_failed,
}

pub data Place : Type 0 where
  in_queue written given_up given_up_unmarked expired : Place

-- Where a message is after it was given up, by whether MarkFailed succeeded.
abbrev pub after_give_up : (marks : Bool) → Place → Place
after_give_up marks written = written
after_give_up marks given_up = given_up
after_give_up true _ = given_up
after_give_up false _ = given_up_unmarked

-- A message: its account, its enqueuedAt, and when the broker took it.
pub record Entry : Type 0 where
  pub upn : Text
  pub source : ℕ
  pub sent : ℕ
  pub place : Place

-- `entry` has the messages by the number of their submission, and `unmarked` tells whether its MarkPending is to come.
pub record System : Type 0 where
  pub now : ℕ
  pub entry : ℕ → Option Entry
  pub unmarked : ℕ → Bool
  pub store : Store

abbrev pub started : System
started = record { now = 0; entry = λ i. none; unmarked = λ i. false; store = empty_store }

abbrev pub moved : ℕ → Entry → Place → System → System
moved i e place s = record s {
  entry = λ j. if i == j then some (record e { place = place }) else s.entry j;
}

-- `ttl` is the time to live of a message, and `delay` bounds the time from the broker's taking a message to its
-- MarkPending.
pub data Step (u : Unicode) (ttl delay : ℕ) (s : System) : System → Type 0 where
  passes : (t : ℕ) → s.now ≤ t → Step u ttl delay s (record s { now = t })
  enqueues :
      (i : ℕ) (upn : Text) (source : ℕ)
      → s.entry i ≡ none
      → Step u ttl delay s (record s {
        entry = λ j.
            if i == j
            then some (record { upn = upn; source = source; sent = s.now; place = in_queue })
            else s.entry j;
        unmarked = λ j. if i == j then true else s.unmarked j;
      })
  marks_pending :
      (i : ℕ) (e : Entry)
      → s.entry i ≡ some e
      → s.unmarked i ≡ true
      → s.now ≤ e.sent + delay
      → Step u ttl delay s (record s {
        unmarked = λ j. if i == j then false else s.unmarked j;
        store = (mark_pending u none e.upn e.source s.now s.store).1;
      })
  -- The processor has taken the password. The mark may fail, or come in a later step.
  writes :
      (i : ℕ) (e : Entry) (marks : Bool)
      → s.entry i ≡ some e
      → e.place ≢ expired
      → Step u ttl delay s (record (moved i e written s) {
        store = if marks then (mark_synced u none e.upn e.source s.now s.store).1 else s.store;
      })
  -- The dead-letter queue has taken the entry. The worker completes the message although the mark may fail.
  gives_up :
      (i : ℕ) (e : Entry) (marks : Bool)
      → s.entry i ≡ some e
      → e.place ≢ expired
      → Step u ttl delay s (record (moved i e (after_give_up marks e.place) s) {
        store = if marks then (mark_failed u none e.upn e.source s.now s.store).1 else s.store;
      })
  expires :
      (i : ℕ) (e : Entry)
      → s.entry i ≡ some e
      → e.place ≡ in_queue
      → e.sent + ttl ≤ s.now
      → Step u ttl delay s (moved i e expired s)

pub data Reach (u : Unicode) (ttl delay : ℕ) : System → Type 0 where
  start : Reach u ttl delay started
  later : {s t : System} → Reach u ttl delay s → Step u ttl delay s t → Reach u ttl delay t

-- What the store's Get answers.
answer : Unicode → Store → List Call → Result Text Record
unfolding get
answer u store (get_status upn ∷ h) = ok (get u none upn store).1
answer u store _ = ok zero_record

-- The service over the store, with the time to live of the messages as its PendingTTL.
unfoldable pub service_over : Unicode → ℕ → Text → Collaborators → System → Service
unfolding new_service answer
service_over u ttl primary_domain c s =
    new_service primary_domain
      (record c {
        has_store = true;
        get_status_result = answer u s.store;
        clock_result = λ h. s.now;
      })
      (pos ttl)
