-- ===== src/Dedupe/Skips.antt =====
-- When a bootstrap is skipped, and where the message is that it relies on.
use password_hook_service.Prelude.{
  ℕ, ◌+◌, ◌≤◌, ◌<◌, Option, none, some, List, ◌≡◌, ◌≢◌, ◌⊎◌, inl, inr, refl, sym, ap, arith, Text,
  Unicode, Result, ok, pos, positive_or,
}
use password_hook_service.SyncStatus.{
  unsynced, pending, Record, zero_record, or_zero, normalize_upn, get,
}
use password_hook_service.Migration.Service.{
  Call, default_pending_ttl, Collaborators, new_service, skip_login_bootstrap,
}
use password_hook_service.Migration.Service.Laws.{skip_login_bootstrap_iff}
use password_hook_service.Dedupe.{
  Place, in_queue, written, given_up, given_up_unmarked, expired, Entry, System, Reach, answer,
  service_over,
}
use password_hook_service.Dedupe.Consistent.{IsConsistent}
use password_hook_service.Dedupe.Invariant.{Reach-IsConsistent}

-- A message of the account whose password was written, or one that is in the queue, has expired, or was given up with
-- the account left unmarked; in these cases the bound on the delay of its MarkPending and the time to live are not both
-- over since the broker took it.
abbrev pub IsAwaited : Unicode → (ttl delay : ℕ) → System → Text → Type 0
IsAwaited u ttl delay s upn =
    (i : ℕ) × (e : Entry) × (s.entry i ≡ some e)
    × (normalize_upn u e.upn ≡ normalize_upn u upn)
    × ((e.place ≡ written)
        ⊎ (((e.place ≡ in_queue)
              ⊎ ((e.place ≡ given_up_unmarked) ⊎ ((e.place ≡ expired) × (e.sent + ttl ≤ s.now))))
            × (s.now < e.sent + delay + ttl)))

-- A record with a status was found under the account's key.
found_in :
    (o : Option Record) (rec : Record)
    → ◌≡◌ {A = Result Text Record} (ok (or_zero o)) (ok rec)
    → rec.status ≢ unsynced
    → o ≡ some rec
found_in none rec e n =
    let same : zero_record ≡ rec = cc e in absurd (n (sym (ap (λ r. r.status) same)))
found_in (some r) rec e n = cc e

ttl_of : (ttl : ℕ) → 0 < ttl → positive_or default_pending_ttl (pos ttl) ≡ ttl
ttl_of ttl h = ground arith

where_else :
    (p : Place)
    → p ≢ given_up
    → (p ≡ written) ⊎ ((p ≡ in_queue) ⊎ ((p ≡ given_up_unmarked) ⊎ (p ≡ expired)))
where_else in_queue n = inr (inl refl)
where_else written n = inl refl
where_else given_up n = absurd (n refl)
where_else given_up_unmarked n = inr (inr (inl refl))
where_else expired n = inr (inr (inr refl))

from_pending :
    {u : Unicode} {ttl delay : ℕ} (s : System) (upn : Text) (rec : Record)
    → IsConsistent u ttl delay s
    → s.store (normalize_upn u upn) ≡ some rec
    → rec.status ≡ pending
    → s.now < rec.updated_at + ttl
    → IsAwaited u ttl delay s upn
from_pending {u} {ttl} {delay} s upn rec inv at pend fresh =
    let (b, in_time, alive) = inv.pending_backed (normalize_upn u upn) rec at pend in
    (
      b.number,
      b.entry,
      b.found,
      b.same_key,
      elim (where_else b.entry.place alive) [
        | inl wrote ↦ inl wrote
        | inr (inl queued) ↦ inr (inl queued, omega (arith, fresh, in_time))
        | inr (inr (inl unmarked)) ↦ inr (inr (inl unmarked), omega (arith, fresh, in_time))
        | inr (inr (inr gone)) ↦ inr (
          inr (inr (gone, inv.expired_late b.number b.entry b.found gone)),
          omega (arith, fresh, in_time),
        )
      ],
    )

-- If a bootstrap is skipped in a state that the steps reach, with a positive time to live, then there is a message of the
-- account whose password was written, or no more time has passed since the broker took one than its time to live and
-- the bound on the delay of its MarkPending, and it is in the queue, has expired, or was given up with a MarkFailed that
-- failed.
pub Reach-IsAwaited :
    {u : Unicode} {ttl delay : ℕ} (s : System) (primary_domain : Text) (c : Collaborators)
    (upn : Text) (h : List Call)
    → Reach u ttl delay s
    → 0 < ttl
    → (skip_login_bootstrap (service_over u ttl primary_domain c s) upn h).0 ≢ none
    → IsAwaited u ttl delay s upn
unfolding service_over new_service answer get
Reach-IsAwaited {u} {ttl} {delay} s primary_domain c upn h reach positive skipped =
    let inv = Reach-IsConsistent reach in
    let (rec, got, why) =
      (skip_login_bootstrap_iff (service_over u ttl primary_domain c s) upn h).0 skipped in
    let now_ttl = ttl_of ttl positive in
    elim why [
      | inl done ↦
          let at =
            found_in (s.store (normalize_upn u upn)) rec got (λ none_yet. cc (done, none_yet)) in
          let (b, wrote) = inv.synced_backed (normalize_upn u upn) rec at done in
          (b.number, b.entry, b.found, b.same_key, inl wrote)
      | inr (pend, early, fresh) ↦
          let at =
            found_in (s.store (normalize_upn u upn)) rec got (λ none_yet. cc (pend, none_yet)) in
          from_pending s upn rec inv at pend (omega (arith, fresh, now_ttl))
    ]
