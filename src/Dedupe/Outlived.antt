-- ===== src/Dedupe/Outlived.antt =====
-- A pending record that outlives its message: MarkPending of internal/migration/service.go comes after the broker of
-- internal/servicebusqueue/queue.go has taken the message, and both count the same time to live from then on.
use mathlib.Core.Path.{fun_ext}
use password_hook_service.Prelude.{
  ℕ, ◌≤◌, ◌<◌, Option, none, some, List, ◌≡◌, ◌≢◌, inl, inr, refl, ap, ◌∙◌, arith, Text, Unicode,
  ok, if◌then◌else◌, ◌==◌, Bool-cases, same_text_refl,
}
use password_hook_service.SyncStatus.{
  pending, empty_store, mark_pending, or_zero, normalize_upn, get, is_stale, put,
}
use password_hook_service.Migration.Service.{Call, Collaborators, new_service, skip_login_bootstrap}
use password_hook_service.Migration.Service.Laws.{skip_login_bootstrap_iff}
use password_hook_service.Dedupe.{
  in_queue, expired, Entry, System, Reach, start, later, enqueues, passes, marks_pending, expires,
  answer, service_over,
}

-- The message that the broker took at the start, and no other.
abbrev pub only : Entry → ℕ → Option Entry
only e j = if 0 == j then some e else none

lost : Text → ℕ → Entry
lost upn source = record { upn = upn; source = source; sent = 0; place = expired }

outlived-Reach :
    (u : Unicode) (ttl delay late : ℕ) (upn : Text) (source : ℕ)
    → late ≤ ttl
    → late ≤ delay
    → (s : System) × Reach u ttl delay s
      × (s.now ≡ ttl)
      × (s.entry ≡ only (lost upn source))
      × (s.store ≡ (mark_pending u none upn source late empty_store).1)
unfolding lost
outlived-Reach u ttl delay late upn source early in_time = (
  _,
  later
      (later
        (later (later (later start (enqueues 0 upn source refl)) (passes late (omega arith))) (
          marks_pending 0 (record { upn = upn; source = source; sent = 0; place = in_queue }) refl
            refl (omega (arith, in_time))))
        (passes ttl early))
      (expires 0 (record { upn = upn; source = source; sent = 0; place = in_queue }) refl refl
        (omega arith)),
  refl,
  fun_ext alone,
  refl,
)
  where
    alone :
        (j : ℕ)
        → (if 0 == j
            then some (lost upn source)
            else if 0 == j
            then some (record { upn = upn; source = source; sent = 0; place = in_queue })
            else none)
          ≡ only (lost upn source) j
    alone j = elim (Bool-cases (0 == j)) [ inl same ↦ rw same refl | inr other ↦ rw other refl ]

marked :
    (u : Unicode) (upn : Text) (source now : ℕ)
    → (mark_pending u none upn source now empty_store).1 (normalize_upn u upn)
      ≡ some (record { status = pending; updated_at = now; source_enqueued_at = source })
unfolding mark_pending is_stale put
marked u upn source now = rw (same_text_refl (normalize_upn u upn)) refl

-- If MarkPending comes later than the broker took the message, at most the time to live later, then a state
-- is reachable in which a bootstrap of the account is skipped although its only message has expired.
pub skip_login_bootstrap_unbacked :
    (u : Unicode) (ttl delay late : ℕ) (upn : Text) (source : ℕ) (primary_domain : Text)
    (c : Collaborators) (h : List Call)
    → 0 < late
    → late ≤ ttl
    → late ≤ delay
    → (s : System) × Reach u ttl delay s
      × (e : Entry) × (s.entry ≡ only e)
      × (e.place ≡ expired)
      × ((skip_login_bootstrap (service_over u ttl primary_domain c s) upn h).0 ≢ none)
unfolding lost service_over new_service answer get
skip_login_bootstrap_unbacked u ttl delay late upn source primary_domain c h positive early
      in_time =
    let (s, reach, now, entries, store) =
      outlived-Reach u ttl delay late upn source early in_time in
    (
      s,
      reach,
      lost upn source,
      entries,
      refl,
      (skip_login_bootstrap_iff (service_over u ttl primary_domain c s) upn h).1 (
        record { status = pending; updated_at = late; source_enqueued_at = source },
        ap (λ o. ok (or_zero o))
            (ap (λ f. f (normalize_upn u upn)) store ∙ marked u upn source late),
        inr (refl, omega (arith, now), ground arith),
      ),
    )
