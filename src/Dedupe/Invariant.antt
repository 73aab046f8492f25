-- ===== src/Dedupe/Invariant.antt =====
-- Every step of the system keeps the store and the messages consistent.
use password_hook_service.Prelude.{
  ℕ, Bool, true, false, Option, none, some, ◌≡◌, ◌≢◌, refl, arith, if◌then◌else◌, ==_iff, Unicode,
}
use password_hook_service.SyncStatus.{
  pending, synced, failed, Store, status_precedence, normalize_upn, mark_pending, mark_synced,
  mark_failed,
}
use password_hook_service.SyncStatus.Order.{Write, write}
use password_hook_service.Dedupe.{
  Place, after_give_up, in_queue, written, given_up, given_up_unmarked, expired, Entry, System,
  Step, passes, enqueues, marks_pending, writes, gives_up, expires, Reach, start, later,
}
use password_hook_service.Dedupe.Consistent.{Inv, IsConsistent}
use password_hook_service.Dedupe.Moved.{at_place, with_new, moved-Inv, with_new-Inv}
use password_hook_service.Dedupe.Marked.{rank-write, write-Inv}

-- Whether or not MarkSynced succeeds after the message counts as written.
writes-Inv :
    {u : Unicode} {ttl delay now : ℕ} {store : Store} (entries : ℕ → Option Entry) (i : ℕ)
    (e : Entry) (marks : Bool)
    → Inv u ttl delay now (at_place i e written entries) store
    → Inv u ttl delay now
        (at_place i e written entries)
        (if marks then (mark_synced u none e.upn e.source now store).1 else store)
unfolding write mark_synced at_place
writes-Inv entries i e false inv = inv
writes-Inv {now = now} entries i e true inv =
    write-Inv (record { upn = e.upn; status = synced; source = e.source; now = now }) inv
      (record {
        number = i;
        entry = record e { place = written };
        found = rw ((==_iff i i).1 refl) refl;
        same_upn = refl;
        same_source = refl;
        in_time = λ h. cc h;
        wrote = λ h. refl;
      })

still_written : (marks : Bool) (p : Place) → p ≡ written → after_give_up marks p ≡ written
still_written marks p h = rw h refl

not_expired : (marks : Bool) (p : Place) → after_give_up marks p ≢ expired
not_expired marks written h = cc h
not_expired marks given_up h = cc h
not_expired true in_queue h = cc h
not_expired true given_up_unmarked h = cc h
not_expired true expired h = cc h
not_expired false in_queue h = cc h
not_expired false given_up_unmarked h = cc h
not_expired false expired h = cc h

-- Without a mark, only a message that was given up before, with a mark, counts as given up.
unmarked_give_up : (p : Place) → after_give_up false p ≡ given_up → p ≡ given_up
unmarked_give_up given_up h = refl
unmarked_give_up written h = cc h
unmarked_give_up in_queue h = cc h
unmarked_give_up given_up_unmarked h = cc h
unmarked_give_up expired h = cc h

gives_up-Inv :
    {u : Unicode} {ttl delay now : ℕ} {store : Store} (entries : ℕ → Option Entry) (i : ℕ)
    (e : Entry) (marks : Bool)
    → Inv u ttl delay now entries store
    → entries i ≡ some e
    → Inv u ttl delay now
        (at_place i e (after_give_up marks e.place) entries)
        (if marks then (mark_failed u none e.upn e.source now store).1 else store)
unfolding write mark_failed status_precedence
gives_up-Inv entries i e false inv found =
    moved-Inv i e (after_give_up false e.place) inv found (still_written false e.place)
      (λ h. inv.given_up_marked i e found (unmarked_give_up e.place h))
      (λ h. absurd (not_expired false e.place h))
gives_up-Inv {u} {now = now} {store = store} entries i e true inv found =
    let w : Write = record { upn = e.upn; status = failed; source = e.source; now = now } in
    let marked = write-Inv w inv (record {
      number = i;
      entry = e;
      found = found;
      same_upn = refl;
      same_source = refl;
      in_time = λ h. cc h;
      wrote = λ h. cc h;
    }) in
    let (_, high) = rank-write u w store (normalize_upn u e.upn) in
    moved-Inv i e (after_give_up true e.place) marked found (still_written true e.place)
      (λ h. omega (arith, high refl)) (λ h. absurd (not_expired true e.place h))

-- Each step keeps the state consistent.
Step-Inv :
    {u : Unicode} {ttl delay : ℕ} {s t : System}
    → IsConsistent u ttl delay s
    → Step u ttl delay s t
    → IsConsistent u ttl delay t
unfolding with_new at_place write mark_pending mark_failed
Step-Inv inv (passes t ahead) = record {
  pending_backed = inv.pending_backed;
  synced_backed = inv.synced_backed;
  given_up_marked = inv.given_up_marked;
  expired_late = λ j x at gone. omega (arith, inv.expired_late j x at gone, ahead);
}
Step-Inv inv (enqueues i upn source unused) = with_new-Inv i _ inv unused refl
Step-Inv {s = s} inv (marks_pending i e found due in_time) =
    write-Inv (record { upn = e.upn; status = pending; source = e.source; now = s.now }) inv
      (record {
        number = i;
        entry = e;
        found = found;
        same_upn = refl;
        same_source = refl;
        in_time = λ h. in_time;
        wrote = λ h. cc h;
      })
Step-Inv {s = s} inv (writes i e marks found present) =
    writes-Inv s.entry i e marks
      (moved-Inv i e written inv found (λ h. refl) (λ h. cc h) (λ h. cc h))
Step-Inv {s = s} inv (gives_up i e marks found present) = gives_up-Inv s.entry i e marks inv found
Step-Inv inv (expires i e found queued late) =
    moved-Inv i e expired inv found (λ h. cc (h, queued)) (λ h. cc h) (λ h. late)

pub Reach-IsConsistent :
    {u : Unicode} {ttl delay : ℕ} {s : System} → Reach u ttl delay s → IsConsistent u ttl delay s
Reach-IsConsistent start = record {
  pending_backed = λ key rec at. cc at;
  synced_backed = λ key rec at. cc at;
  given_up_marked = λ i e at. cc at;
  expired_late = λ i e at. cc at;
}
Reach-IsConsistent (later before step) = Step-Inv (Reach-IsConsistent before) step
