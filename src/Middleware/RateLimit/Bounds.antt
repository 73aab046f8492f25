-- ===== src/Middleware/RateLimit/Bounds.antt =====
-- Sequences of calls of RateLimiter.allow in internal/middleware/ratelimit.go.
use password_hook_service.Prelude.{
  ℕ, suc, ◌+◌, ◌-◌, ◌*◌, ◌≤◌, ◌<◌, ◌≡◌, Bool, true, false, List, [], ◌∷◌, arith, ap, ◌∙◌, leb,
  if◌then◌else◌, Text, same_text, same_text_iff, same_text_refl, All, min, Bool-cases, inl, inr,
}
use password_hook_service.Middleware.RateLimit.{
  RateWindow, Counts, RateLimiter, zero_window, allow_window, allow,
}

-- A sequence of requests: the key of each, and the reading of the clock.
abbrev pub Requests : Type 0
Requests = List (Text × ℕ)

abbrev pub one_if : Bool → ℕ
one_if true = 1
one_if false = 0

module _ (l : RateLimiter) where
  -- How many of the requests with the given key pass, and the state afterwards.
  unfoldable pub passed : Text → Requests → Counts → ℕ
  passed key [] counts = 0
  passed key ((k, now) ∷ rs) counts =
      let (ok, counts') = allow l k now counts in
      (if same_text k key then one_if ok else 0) + passed key rs counts'

  -- Another key's request leaves the window alone.
  allow-other :
      (k key : Text) (now : ℕ) (counts : Counts)
      → same_text k key ≡ false
      → (allow l k now counts).1 key ≡ counts key
  unfolding allow
  allow-other k key now counts h = ground arith

  allow-own :
      (key : Text) (now : ℕ) (counts : Counts)
      → ((allow l key now counts).0 ≡ (allow_window l now (counts key)).0)
        × ((allow l key now counts).1 key ≡ (allow_window l now (counts key)).1)
  unfolding allow
  allow-own key now counts = ground (arith, same_text_refl key)

  -- What a window can still let through before `since + window`.
  abbrev room : ℕ → RateWindow → ℕ
  room since w =
      if leb since w.start
      then l.limit_per_ip - w.count
      else (l.limit_per_ip - w.count) + l.limit_per_ip

  room-allow_window :
      (since now : ℕ) (w : RateWindow)
      → 0 < l.limit_per_ip
      → 0 < since
      → since ≤ now
      → now < since + l.window
      → one_if (allow_window l now w).0 + room since (allow_window l now w).1 ≤ room since w
  unfolding allow_window
  room-allow_window since now w p z a b = ground arith

  passed-room :
      (key : Text) (since : ℕ) (rs : Requests) (counts : Counts)
      → 0 < l.limit_per_ip
      → 0 < since
      → All (λ r. (since ≤ r.1) × (r.1 < since + l.window)) rs
      → passed key rs counts ≤ room since (counts key)
  unfolding passed
  passed-room key since [] counts p z h = omega arith
  passed-room key since ((k, now) ∷ rs) counts p z (h, hs) =
      let ih = passed-room key since rs (allow l k now counts).1 p z hs in
      elim (Bool-cases (same_text k key)) [
        | inl same ↦
            let e = (same_text_iff k key).0 same in
            let (a, b) = allow-own key now counts in
            let spent = room-allow_window since now (counts key) p z h.0 h.1 in
            rw (same, e, a) (omega (arith, spent, rw (e, b) at ih))
        | inr other ↦
            let kept : (allow l k now counts).1 key ≡ counts key =
              allow-other k key now counts other in
            rw other (omega (arith, rw kept at ih))
      ]

  -- With a positive limit, in any span of time that is no longer than the window at most twice the
  -- limit of a key's requests pass.
  passed-le_twice :
      (key : Text) (since : ℕ) (rs : Requests) (counts : Counts)
      → 0 < l.limit_per_ip
      → 0 < since
      → All (λ r. (since ≤ r.1) × (r.1 < since + l.window)) rs
      → passed key rs counts ≤ 2 * l.limit_per_ip
  passed-le_twice key since rs counts p z h = grind (arith, passed-room key since rs counts p z h)

  -- The requests of a key.
  abbrev pub of_key : Text → Requests → ℕ
  of_key key [] = 0
  of_key key ((k, now) ∷ rs) = (if same_text k key then 1 else 0) + of_key key rs

  opens :
      (now : ℕ) (w : RateWindow)
      → w ≡ zero_window
      → allow_window l now w ≡ (true, record { start = now; count = 1 })
  unfolding allow_window
  opens now w e = rw e

  counts_on :
      (first c now : ℕ) (w : RateWindow)
      → w ≡ record { start = first; count = c }
      → 0 < first
      → 0 < l.window
      → now < first + l.window
      → allow_window l now w ≡ (
          if leb l.limit_per_ip c
          then (false, record { start = first; count = c })
          else (true, record { start = first; count = c + 1 }))
  unfolding allow_window
  counts_on first c now w e z v h = rw e (ground arith)

  passed-counting :
      (key : Text) (first c : ℕ) (rs : Requests) (counts : Counts)
      → 0 < first
      → 0 < l.window
      → counts key ≡ record { start = first; count = c }
      → All (λ r. r.1 < first + l.window) rs
      → passed key rs counts ≡ min (of_key key rs) (l.limit_per_ip - c)
  unfolding passed
  passed-counting key first c [] counts z v w h = omega arith
  passed-counting key first c ((k, now) ∷ rs) counts z v w (h, hs) =
      elim (Bool-cases (same_text k key)) [
        | inl same ↦
            let e = (same_text_iff k key).0 same in
            let (a, b) = allow-own key now counts in
            let step = counts_on first c now (counts key) w z v h in
            let after = b ∙ ap (λ x. x.1) step in
            elim (Bool-cases (leb l.limit_per_ip c)) [
              | inl full ↦
                  let ih =
                    passed-counting key first c rs (allow l key now counts).1 z v (rw full at after)
                      hs in
                  rw (same, e, a, step, full) (ground (arith, ih))
              | inr free ↦
                  let ih =
                    passed-counting key first (c + 1) rs (allow l key now counts).1 z v
                      (rw free at after) hs in
                  rw (same, e, a, step, free) (ground (arith, ih))
            ]
        | inr other ↦
            let kept = allow-other k key now counts other ∙ w in
            rw other
              (omega (arith, passed-counting key first c rs (allow l k now counts).1 z v kept hs))
      ]

  -- For a positive limit and window, from a key's first request on and until the window is over,
  -- as many of the key's requests pass as the limit says, or all of them if they are fewer,
  -- whatever other keys ask in between.
  pub passed-exact :
      (key : Text) (first : ℕ) (rs : Requests) (counts : Counts)
      → 0 < first
      → 0 < l.window
      → 0 < l.limit_per_ip
      → counts key ≡ zero_window
      → All (λ r. r.1 < first + l.window) rs
      → passed key ((key, first) ∷ rs) counts ≡ min (suc (of_key key rs)) l.limit_per_ip
  unfolding passed
  passed-exact key first rs counts z v p fresh h =
      let (a, b) = allow-own key first counts in
      let opened = opens first (counts key) fresh in
      let rest =
        passed-counting key first 1 rs (allow l key first counts).1 z v (b ∙ ap (λ x. x.1) opened)
          h in
      rw (same_text_refl key, a, opened) (omega (arith, rest))
