-- ===== src/App/Flusher.antt =====
-- periodicMetricFlusher of internal/app/app.go: the routine of `run`, and any calls of `Close`. The ticker may fire at
-- any time, and where both channels are ready the select takes either.
pub mod Last
use password_hook_service.Prelude.{ℕ, suc, Bool, true, false, List, [], ◌∷◌, ◌++◌, ◌≡◌}

pub record Flusher : Type 0 where
  -- Is `stop` closed, and is `done`?
  pub stopped : Bool
  pub done : Bool
  -- The calls of Close that wait for `done`.
  pub waiting : ℕ

-- Who called Flush.
pub data Flush : Type 0 where
  by_period by_close : Flush

-- A step, with the flushes that it makes.
pub data Step (s : Flusher) : List Flush → Flusher → Type 0 where
  ticks : s.done ≡ false → Step s (by_period ∷ []) s
  -- `run` returns.
  leaves : s.stopped ≡ true → s.done ≡ false → Step s [] (record s { done = true })
  -- Close, up to the read of `done`; only the first call closes `stop`.
  closes : Step s [] (record s { stopped = true; waiting = suc s.waiting })
  finishes :
      {n : ℕ}
      → s.waiting ≡ suc n
      → s.done ≡ true
      → Step s (by_close ∷ []) (record s { waiting = n })

-- newPeriodicMetricFlusher
abbrev pub started : Flusher
started = record { stopped = false; done = false; waiting = 0 }

-- The states that are reached, with the flushes that were made, the newest first.
pub data Reach : List Flush → Flusher → Type 0 where
  start : Reach [] started
  later :
      {made more : List Flush} {s t : Flusher}
      → Reach made s
      → Step s more t
      → Reach (more ++ made) t
