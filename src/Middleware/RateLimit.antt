-- ===== src/Middleware/RateLimit.antt =====
-- The counter of internal/middleware/ratelimit.go. An instant is a number of nanoseconds since the
-- zero `time.Time`; the map is a function, with the zero window where there is no entry. `allow` holds
-- the mutex throughout, so it is one step.
pub mod Bounds
use password_hook_service.Prelude.{
  ℕ, ◌+◌, ◌-◌, ◌*◌, Bool, true, false, ◌||◌, leb, ◌==◌, if◌then◌else◌, ℤ, positive_or, Text,
  same_text,
}

pub record RateWindow : Type 0 where
  pub start : ℕ
  pub count : ℕ

abbrev pub zero_window : RateWindow
zero_window = record { start = 0; count = 0 }

abbrev pub Counts : Type 0
Counts = Text → RateWindow

pub record RateLimiter : Type 0 where
  pub limit_per_ip : ℕ
  pub window : ℕ

abbrev pub second : ℕ
second = 1000000000

-- NewRateLimiter, as far as the counter goes.
unfoldable pub new_rate_limiter : (limit window : ℤ) → RateLimiter
new_rate_limiter limit window = record {
  limit_per_ip = positive_or 500 limit;
  window = positive_or second window;
}

-- The window of one key: the answer, and the window that is stored.
unfoldable pub allow_window : RateLimiter → ℕ → RateWindow → Bool × RateWindow
allow_window l now current =
    if current.start == 0 || leb l.window (now - current.start)
    then (true, record { start = now; count = 1 })
    else if leb l.limit_per_ip current.count
    then (false, current)
    else (true, record current { count = current.count + 1 })

unfoldable pub allow : RateLimiter → Text → ℕ → Counts → Bool × Counts
unfolding allow_window
allow l key now counts =
    let (ok, w) = allow_window l now (counts key) in
    (ok, if ok then (λ k. if same_text key k then w else counts k) else counts)
