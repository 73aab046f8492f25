-- ===== src/App/Runtime.antt =====
-- runServerAndWorker of internal/app/app.go: the server and the worker run on their own, and return in any order; each
-- sends its error to a channel that has room for both, and the function reads the channel twice.
pub mod Shutdown
use password_hook_service.Prelude.{
  ℕ, suc, ◌<◌, Bool, true, false, Option, none, some, List, [], ◌∷◌, ◌++◌, ◌≡◌, Text,
}

pub record Runtime : Type 0 where
  pub server_running : Bool
  pub worker_running : Bool
  -- errCh
  pub channel : List (Option Text)
  -- is runCtx done?
  pub canceled : Bool
  pub completed : ℕ
  pub runtime_err : Option Text

-- `if err != nil && runtimeErr == nil { runtimeErr = err }`
unfoldable pub keep_first : Option Text → Option Text → Option Text
keep_first none e = e
keep_first (some first) e = some first

abbrev pub collected : Runtime → Option Text → List (Option Text) → Runtime
collected s e rest = record s {
  channel = rest;
  canceled = true;
  completed = suc s.completed;
  runtime_err = keep_first s.runtime_err e;
}

-- A step, with what a routine returned in it.
pub data Step (s : Runtime) : List (Option Text) → Runtime → Type 0 where
  server_returns :
      (e : Option Text)
      → s.server_running ≡ true
      → Step s (e ∷ []) (record s { server_running = false; channel = s.channel ++ e ∷ [] })
  worker_returns :
      (e : Option Text)
      → s.worker_running ≡ true
      → Step s (e ∷ []) (record s { worker_running = false; channel = s.channel ++ e ∷ [] })
  collect :
      {e : Option Text} {rest : List (Option Text)}
      → s.channel ≡ e ∷ rest
      → s.completed < 2
      → Step s [] (collected s e rest)

abbrev pub started : Runtime
started = record {
  server_running = true;
  worker_running = true;
  channel = [];
  canceled = false;
  completed = 0;
  runtime_err = none;
}

-- The states that are reached in a number of steps, with what was returned, the first at the head.
pub data Reach : ℕ → List (Option Text) → Runtime → Type 0 where
  start : Reach 0 [] started
  later :
      {n : ℕ} {returned more : List (Option Text)} {s t : Runtime}
      → Reach n returned s
      → Step s more t
      → Reach (suc n) (returned ++ more) t
