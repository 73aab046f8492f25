-- ===== src/Migration/Service/Laws.antt =====
-- What a submission does on every path.
use password_hook_service.Prelude.{
  ℕ, suc, ◌+◌, ◌≤◌, ◌<◌, Bool, true, false, none, some, List, ◌∷◌, ◌≡◌, ◌≢◌, ◌⊎◌, ◌↔◌, refl, arith,
  Text, Unicode, Result, ok, err, tally,
}
use password_hook_service.SyncStatus.{Status, unsynced, pending, synced, Record}
use password_hook_service.Migration.Event.{login_bootstrap, valid_event_type}
use password_hook_service.Migration.Identity.{unknown, external_email, classify_cn, build_upn}
use password_hook_service.Migration.Identity.Laws.{build_upn_ok}
use password_hook_service.Migration.Service.{
  Request, Call, get_status, read_clock, enqueue, zero_password, Service, skip_by_status, skip_for,
  skip_login_bootstrap, Outcome, submit,
}

abbrev pub is_enqueue : Call → Bool
is_enqueue (enqueue m) = true
is_enqueue _ = false

-- An outcome is an enqueued message, a skip, or an error, and no two of them.
abbrev pub IsCoherent : Outcome → Type 0
IsCoherent (d, some e) = (d.enqueued ≡ false) × (d.skipped ≡ false)
IsCoherent (d, none) =
    ((d.enqueued ≡ true) × (d.skipped ≡ false) × (d.reason ≡ none))
    ⊎ ((d.enqueued ≡ false) × (d.skipped ≡ true) × (d.reason ≢ none))

-- When a bootstrap of an account with this record is suppressed.
abbrev pub IsSuppressed : Service → Record → ℕ → Type 0
IsSuppressed s rec now =
    (rec.status ≡ synced)
    ⊎ ((rec.status ≡ pending) × (rec.updated_at ≤ now) × (now < rec.updated_at + s.pending_ttl))

skip_by_status_iff :
    (s : Service) (rec : Record) (h : List Call) (status : Status)
    → ((skip_by_status s rec status h).0 ≢ none) ↔ (
        (status ≡ synced)
        ⊎ ((status ≡ pending)
            × (rec.updated_at ≤ s.collaborators.clock_result (read_clock ∷ h))
            × (s.collaborators.clock_result (read_clock ∷ h) < rec.updated_at + s.pending_ttl)))
unfolding skip_by_status
skip_by_status_iff s rec h unsynced = ground arith
skip_by_status_iff s rec h pending = ground arith
skip_by_status_iff s rec h _ = ground arith

same_record :
    (s : Service) (now : ℕ) (rec rec' : Record)
    → ◌≡◌ {A = Result Text Record} (ok rec) (ok rec')
    → IsSuppressed s rec' now
    → IsSuppressed s rec now
same_record s now rec rec' e h = let same : rec ≡ rec' = cc in rw same h

skip_for_iff :
    (s : Service) (r : Result Text Record) (h : List Call)
    → ((skip_for s r h).0 ≢ none) ↔ (
        (rec : Record) × (r ≡ ok rec)
        × IsSuppressed s rec (s.collaborators.clock_result (read_clock ∷ h)))
skip_for_iff s (err e) h = unfold skip_for in (λ n. absurd (n refl), λ w _. cc (w.1))
skip_for_iff s (ok rec) h =
    let (to, from) = skip_by_status_iff s rec h rec.status in
    unfold skip_for in
    (
      λ n. (rec, refl, to n),
      λ w. from (same_record s (s.collaborators.clock_result (read_clock ∷ h)) rec w.0 w.1 w.2),
    )

-- A bootstrap is skipped exactly if the store answers with a record that says synced, or pending
-- with an age below the TTL and not in the future. An error of the store skips nothing.
pub skip_login_bootstrap_iff :
    (s : Service) (upn : Text) (h : List Call)
    → ((skip_login_bootstrap s upn h).0 ≢ none) ↔ (
        (rec : Record) × (s.collaborators.get_status_result (get_status upn ∷ h) ≡ ok rec)
        × IsSuppressed s rec (s.collaborators.clock_result (read_clock ∷ get_status upn ∷ h)))
skip_login_bootstrap_iff s upn h =
    unfold skip_login_bootstrap in
    skip_for_iff s (s.collaborators.get_status_result (get_status upn ∷ h)) (get_status upn ∷ h)

module _ (u : Unicode) (s : Service) (trace_id : Text) (req : Request) (h : List Call) where
  -- The password buffer is zeroed at the very end, whatever happened before.
  pub submit-zeroes : (t : List Call) × ((submit u s trace_id req h).1 ≡ zero_password ∷ t)
  unfolding submit
  submit-zeroes = (_, refl)

  -- A submission ends with an error, with a message that it enqueued, or with a skip for a reason,
  -- and with no two of them.
  pub submit-IsCoherent : IsCoherent (submit u s trace_id req h).0
  unfolding submit
  submit-IsCoherent = ground arith

  -- A submission calls the queue at most once.
  submit-enqueue_once : tally is_enqueue (submit u s trace_id req h).1 ≤ suc (tally is_enqueue h)
  unfolding submit
  submit-enqueue_once = ground arith

  -- If the event is not valid, or the CN is an external address or of no known class, no
  -- collaborator is called: all that happens is that the password is zeroed. Nothing is enqueued.
  submit-calls_nothing :
      (valid_event_type req.event_type ≡ false)
        ⊎ ((classify_cn u req.cn ≡ external_email) ⊎ (classify_cn u req.cn ≡ unknown))
      → ((submit u s trace_id req h).1 ≡ zero_password ∷ h)
        × ((submit u s trace_id req h).0.0.enqueued ≡ false)
  unfolding submit
  submit-calls_nothing c = ground arith

  -- For a valid event other than a bootstrap, and a CN that has a principal name under the domain
  -- of the service, the submission is not skipped.
  submit-never_skipped :
      {upn : Text}
      → valid_event_type req.event_type ≡ true
      → req.event_type ≢ login_bootstrap
      → build_upn u req.cn s.primary_domain ≡ ok upn
      → (submit u s trace_id req h).0.0.skipped ≡ false
  unfolding submit
  submit-never_skipped v n b = ground (arith, build_upn_ok u req.cn s.primary_domain b)
