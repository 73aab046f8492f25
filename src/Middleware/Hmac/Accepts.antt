-- ===== src/Middleware/Hmac/Accepts.antt =====
-- Which requests HMAC.Wrap of internal/middleware/hmac.go forwards, and what comes of a second one.
use mathlib.Core.Path.{subst}
use password_hook_service.Prelude.{
  ℕ, ◌+◌, ◌*◌, ◌^◌, ◌≤◌, ◌<◌, ◌≡◌, ◌≢◌, true, false, Option, none, some, [], ◌∷◌, arith, refl, sym,
  ap, ltb, is_empty, length, length-take, All, ℤ, pos, negsuc, Text, Bool-cases, inl, inr, ◌⊎◌,
}
use password_hook_service.Middleware.Clock.{
  within_skew, within_skew_iff, unix, IsNear, IsFarAhead, max_duration,
}
use password_hook_service.Middleware.Nonce.{SeenAt, use_nonce}
use password_hook_service.Middleware.Nonce.Replay.{
  Uses, use_all, use_nonce-no_replay, use_nonce_iff, taken_at,
}
use password_hook_service.Middleware.Hmac.{
  forward, Hmac, Request, read_limit, read_limited, parse_int, valid_signature, check_headers,
  check_body, wrap,
}

-- Everything that a forwarded request has passed, with the body that the next handler reads.
pub record IsChecked (mac : Text → Text → Text) (m : Hmac) (r : Request) (seen : SeenAt)
    (body : Text) : Type 0 where
  pub timestamp : ℤ
  pub fits : length body ≤ m.max_body_bytes
  pub dated : parse_int r.timestamp ≡ some timestamp
  pub timely : within_skew m.skew r.checked_at timestamp ≡ true
  pub signed : valid_signature mac m.secret r.timestamp r.nonce body r.signature ≡ true
  pub named : is_empty r.nonce ≡ false
  pub fresh : (m.has_nonces ≡ false) ⊎ ((use_nonce m.nonce_ttl r.nonce r.used_at seen).0 ≡ true)

-- The body that the next handler reads is the whole body of the request, and has been checked.
pub record IsAccepted (mac : Text → Text → Text) (m : Hmac) (r : Request) (seen : SeenAt)
    (body : Text) : Type 0 where
  pub whole : body ≡ r.body
  pub checked : IsChecked mac m r seen body

module _ (mac : Text → Text → Text) (m : Hmac) (r : Request) (seen : SeenAt) where
  headers-IsChecked :
      (body : Text) (parsed : Option ℤ) {b : Text}
      → length body ≤ m.max_body_bytes
      → parse_int r.timestamp ≡ parsed
      → (check_headers mac m r body parsed seen).0 ≡ forward b
      → (b ≡ body) × IsChecked mac m r seen body
  unfolding check_headers
  headers-IsChecked body none k e h = cc h
  headers-IsChecked body (some t) k e h = (
    ground arith,
    record {
      timestamp = t;
      fits = k;
      dated = e;
      timely = ground arith;
      signed = ground arith;
      named = ground arith;
      fresh = ground arith;
    },
  )

  body-IsChecked :
      (read : Option Text) {b : Text}
      → (check_body mac m r read seen).0 ≡ forward b
      → (read ≡ some b) × IsChecked mac m r seen b
  unfolding check_body
  body-IsChecked none h = cc h
  body-IsChecked (some body) h = elim (Bool-cases (ltb m.max_body_bytes (length body))) [
    | inl long ↦ ground arith
    | inr short ↦
        let (same, checked) =
          headers-IsChecked body (parse_int r.timestamp) (ground arith) refl (rw short at h) in
        (ap some (sym same), subst (λ x. IsChecked mac m r seen x) (sym same) checked)
  ]

  forwarded :
      {b : Text}
      → (wrap mac m r seen).0 ≡ forward b
      → (read_limited (read_limit m.max_body_bytes) r.body r.body_fails ≡ some b)
        × IsChecked mac m r seen b
  unfolding wrap
  forwarded h = body-IsChecked _ h

  -- What a forwarded request has passed, whatever part of its body was read.
  pub wrap-IsChecked : {b : Text} → (wrap mac m r seen).0 ≡ forward b → IsChecked mac m r seen b
  wrap-IsChecked h = (forwarded h).1

  limit_of : m.max_body_bytes + 1 < 2 ^ 63 → read_limit m.max_body_bytes ≡ m.max_body_bytes + 1
  unfolding read_limit
  limit_of k = ground arith

  read_limited-whole :
      {body : Text}
      → read_limited (m.max_body_bytes + 1) r.body r.body_fails ≡ some body
      → length body ≤ m.max_body_bytes
      → body ≡ r.body
  unfolding read_limited
  read_limited-whole {body} h k = ground (arith, length-take (m.max_body_bytes + 1) r.body)

  -- If one more than the limit is an int64, a request that is forwarded has passed everything: its whole body is what
  -- the next handler reads, is within the limit and is what was signed, its timestamp is a number and near the clock,
  -- it has a nonce, and with a nonce store the nonce is taken for it.
  pub wrap-IsAccepted :
      {b : Text}
      → m.max_body_bytes + 1 < 2 ^ 63
      → (wrap mac m r seen).0 ≡ forward b
      → IsAccepted mac m r seen b
  wrap-IsAccepted k h =
      let (read, checked) = forwarded h in
      record {
        whole = read_limited-whole (rw (limit_of k) at read) checked.fits;
        checked = checked;
      }

was_fresh :
    (mac : Text → Text → Text) (m : Hmac) (r : Request) (seen : SeenAt) {b : Text}
    → IsChecked mac m r seen b
    → m.has_nonces ≡ true
    → (use_nonce m.nonce_ttl r.nonce r.used_at seen).0 ≡ true
was_fresh mac m r seen a n = let f = a.fresh in ground (arith, f, n)

-- The state that a forwarded request leaves.
wrap-seen :
    (mac : Text → Text → Text) (m : Hmac) (r : Request) (seen : SeenAt) {b : Text}
    → m.has_nonces ≡ true
    → (wrap mac m r seen).0 ≡ forward b
    → (wrap mac m r seen).1 ≡ (use_nonce m.nonce_ttl r.nonce r.used_at seen).1
unfolding wrap
wrap-seen mac m r seen n h = ground arith

-- Two instants near one timestamp are near each other.
near-near : (skew c c' : ℕ) (t : ℤ) → IsNear skew c t → IsNear skew c' t → c' ≤ c + 2 * skew
near-near skew c c' (pos t) p q = omega arith
near-near skew c c' (negsuc t) p q = omega arith

IsNear-within_skew :
    (skew c c' : ℕ) (t : ℤ)
    → skew < max_duration
    → c ≤ c'
    → ¬ IsFarAhead c (unix t)
    → within_skew skew c' t ≡ true
    → IsNear skew c' (unix t)
IsNear-within_skew skew c c' t k le near h = elim ((within_skew_iff skew c' t k).0 h) [
  | inl p ↦ p
  | inr far ↦ absurd (near (far_before c c' (unix t) le far))
]
  where
    far_before : (c c' : ℕ) (v : ℤ) → c ≤ c' → IsFarAhead c' v → IsFarAhead c v
    far_before c c' (pos v) le far = omega arith
    far_before c c' (negsuc v) le far = far

up_to : (a b : ℕ) (xs : Uses) → a ≤ b → All (λ x. x.1 ≤ a) xs → All (λ x. x.1 ≤ b) xs
up_to a b [] le h = tt
up_to a b (x ∷ xs) le (h, hs) = (omega arith, up_to a b xs le hs)

-- The same message at two times.
abbrev pub IsReplay : Request → Request → Type 0
IsReplay r r' = (r'.timestamp ≡ r.timestamp) × (r'.nonce ≡ r.nonce)

module _ (mac : Text → Text → Text) (m : Hmac) (r r' : Request) (seen : SeenAt)
    (others : Uses) where
  -- With a nonce store, and a skew below the largest duration: a message that was forwarded once
  -- is not forwarded again later, after any requests in between whose readings of the clock are
  -- not later than its own. The TTL has to cover twice the skew, and with it the time between the
  -- two readings of the clock, and the timestamp must not be so far ahead that a duration cannot
  -- hold the difference.
  pub wrap-no_replay :
      {b b' : Text} {t : ℤ}
      → m.has_nonces ≡ true
      → m.skew < max_duration
      → IsReplay r r'
      → parse_int r.timestamp ≡ some t
      → ¬ IsFarAhead r.checked_at (unix t)
      → r.checked_at ≤ r'.checked_at
      → r'.used_at + r.checked_at + 2 * m.skew ≤ r'.checked_at + r.used_at + m.nonce_ttl
      → All (λ x. x.1 ≤ r'.used_at) others
      → (wrap mac m r seen).0 ≡ forward b
      → (wrap mac m r' (use_all m.nonce_ttl others (wrap mac m r seen).1)).0 ≢ forward b'
  wrap-no_replay {t} n k same dated near later delay times first again =
      let a = wrap-IsChecked mac m r seen first in
      let a' = wrap-IsChecked mac m r' (use_all m.nonce_ttl others (wrap mac m r seen).1) again in
      let e : a.timestamp ≡ t = cc (a.dated) in
      let e' : a'.timestamp ≡ t = cc (a'.dated, same.0) in
      let p =
        IsNear-within_skew m.skew r.checked_at r.checked_at t k (omega arith) near
          (rw e at a.timely) in
      let q =
        IsNear-within_skew m.skew r.checked_at r'.checked_at t k later near (rw e' at a'.timely) in
      let gap = near-near m.skew r.checked_at r'.checked_at (unix t) p q in
      let soon : r'.used_at ≤ r.used_at + m.nonce_ttl = omega arith in
      let refused =
        use_nonce-no_replay m.nonce_ttl r.nonce r.used_at r'.used_at others seen
          (was_fresh mac m r seen a n)
          (up_to r'.used_at (r.used_at + m.nonce_ttl) others soon times) soon in
      cc (
        was_fresh mac m r' (use_all m.nonce_ttl others (wrap mac m r seen).1) a' n,
        refused,
        same.1,
        wrap-seen mac m r seen n first,
      )

abbrev pub resent : Request → ℕ → ℕ → Request
resent r checked used = record r { checked_at = checked; used_at = used }

module _ (mac : Text → Text → Text) (m : Hmac) (r : Request) (seen : SeenAt)
    (checked used : ℕ) where
  resent-fresh :
      (use_nonce m.nonce_ttl r.nonce r.used_at seen).0 ≡ true
      → r.used_at + m.nonce_ttl < used
      → (use_nonce m.nonce_ttl r.nonce used (use_nonce m.nonce_ttl r.nonce r.used_at seen).1).0
        ≡ true
  resent-fresh taken after =
      let at = taken_at m.nonce_ttl r.nonce r.used_at seen taken in
      (use_nonce_iff m.nonce_ttl r.nonce used (use_nonce m.nonce_ttl r.nonce r.used_at seen).1).1
        (λ since h. let same : r.used_at ≡ since = cc (at, h) in omega (arith, same))

  wrap-resent :
      (s : SeenAt) {b : Text} {t : ℤ}
      → m.has_nonces ≡ true
      → parse_int r.timestamp ≡ some t
      → within_skew m.skew checked t ≡ true
      → (use_nonce m.nonce_ttl r.nonce used s).0 ≡ true
      → (wrap mac m r seen).0 ≡ forward b
      → (wrap mac m (resent r checked used) s).0 ≡ forward b
  unfolding wrap
  wrap-resent s n dated timely fresh first = ground arith

  -- With a nonce store, and a skew below the largest duration: a message that was forwarded once
  -- is forwarded again at any time when its nonce has expired and its timestamp is still so far
  -- ahead that a duration cannot hold the difference.
  pub wrap-replay_far_ahead :
      {b : Text} {t : ℤ}
      → m.has_nonces ≡ true
      → m.skew < max_duration
      → parse_int r.timestamp ≡ some t
      → IsFarAhead checked (unix t)
      → r.used_at + m.nonce_ttl < used
      → (wrap mac m r seen).0 ≡ forward b
      → (wrap mac m (resent r checked used) (wrap mac m r seen).1).0 ≡ forward b
  wrap-replay_far_ahead {t} n k dated far after first =
      let a = wrap-IsChecked mac m r seen first in
      wrap-resent (wrap mac m r seen).1 n dated ((within_skew_iff m.skew checked t k).1 (inr far))
        (rw (wrap-seen mac m r seen n first) (resent-fresh (was_fresh mac m r seen a n) after))
        first
