-- ===== src/Middleware/Clock.antt =====
-- time.Duration is an int64 of nanoseconds, and Time.Sub stops at its ends. An instant is a number of
-- nanoseconds since the Unix epoch. absDuration is that of internal/middleware/hmac.go.
use password_hook_service.Prelude.{
  ℕ, suc, ◌+◌, ◌-◌, ◌*◌, ◌^◌, ◌≤◌, ◌<◌, ◌≡◌, ◌↔◌, ◌⊎◌, Bool, true, arith, ltb, leb, if◌then◌else◌,
  ℤ, pos, negsuc, ◌-ℤ◌, lebℤ, sub_ℕ,
}

-- The largest duration; the smallest is -(max_duration + 1).
abbrev pub max_duration : ℕ
max_duration = 2 ^ 63 - 1

unfoldable pub saturate : ℤ → ℤ
saturate (pos n) = if leb n max_duration then pos n else pos max_duration
saturate (negsuc n) = if leb n max_duration then negsuc n else negsuc max_duration

-- t.Sub(u)
unfoldable pub sub_time : ℤ → ℤ → ℤ
unfolding saturate ◌-ℤ◌
sub_time t u = saturate (t -ℤ u)

-- -d, which wraps at the smallest duration.
unfoldable pub negate : ℤ → ℤ
negate (pos n) = sub_ℕ 0 n
negate (negsuc n) = if ltb n max_duration then pos (suc n) else negsuc max_duration

unfoldable pub abs_duration : ℤ → ℤ
unfolding negate
abs_duration (pos n) = pos n
abs_duration (negsuc n) = negate (negsuc n)

-- The seconds from year 1 to the Unix epoch, which time.Unix adds in an int64.
abbrev pub unix_to_internal : ℕ
unix_to_internal = 62135596800

-- time.Unix(seconds, 0), for an int64: the addition wraps where the seconds are too many.
unfoldable pub unix : ℤ → ℤ
unix (pos s) =
    if ltb (s + unix_to_internal) (2 ^ 63)
    then pos (s * 1000000000)
    else sub_ℕ (s * 1000000000) (2 ^ 64 * 1000000000)
unix (negsuc s) = negsuc (s * 1000000000 + 999999999)

-- !(absDuration(time.Since(time.Unix(timestamp, 0))) > m.skew)
unfoldable pub within_skew : ℕ → ℕ → ℤ → Bool
unfolding abs_duration sub_time
within_skew skew now timestamp =
    lebℤ (abs_duration (sub_time (pos now) (unix timestamp))) (pos skew)

-- The instant is at most the skew away from the clock.
abbrev pub IsNear : ℕ → ℕ → ℤ → Type 0
IsNear skew now (pos t) = (t ≤ now + skew) × (now ≤ t + skew)
IsNear skew now (negsuc t) = now + suc t ≤ skew

-- The instant is ahead of the clock by more than a duration can hold.
abbrev pub IsFarAhead : ℕ → ℤ → Type 0
IsFarAhead now (pos t) = now + max_duration < t
IsFarAhead now (negsuc t) = ⊥

within_skew_at :
    (skew now : ℕ) (t : ℤ)
    → skew < max_duration
    → (lebℤ (abs_duration (sub_time (pos now) t)) (pos skew) ≡ true)
      ↔ (IsNear skew now t ⊎ IsFarAhead now t)
unfolding within_skew
within_skew_at skew now (pos t) h = ground arith
within_skew_at skew now (negsuc t) h = ground arith

-- For a skew below the largest duration, a timestamp passes exactly if it is at most the skew away
-- from the clock, or so far ahead that the difference is the smallest duration, whose negation
-- wraps to itself and is below every skew.
pub within_skew_iff :
    (skew now : ℕ) (timestamp : ℤ)
    → skew < max_duration
    → (within_skew skew now timestamp ≡ true)
      ↔ (IsNear skew now (unix timestamp) ⊎ IsFarAhead now (unix timestamp))
within_skew_iff skew now timestamp h =
    unfold within_skew in within_skew_at skew now (unix timestamp) h
