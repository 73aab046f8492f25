-- ===== src/App.antt =====
-- internal/app/app.go: how the parts are put together (`Wiring`), and how they run (`Runtime`). Here: the resources
-- that must be closed, and closeAppResources. Every call is recorded, newest first, and its outcome
-- is a function of the history.
pub mod Wiring
pub mod Chain
pub mod Flusher
pub mod Runtime
use password_hook_service.Prelude.{
  Bool, true, false, Option, none, some, List, [], ◌∷◌, ◌++◌, map, Text, Result, ok, err,
}
use password_hook_service.Prelude.Effects.{Exec, call, pure, ◌>>=◌}

-- What has a Close: the shutdown of the exporter, the periodic flusher, the two senders and the receiver
-- of Service Bus, and the Redis store.
pub data Resource : Type 0 where
  exporter metric_flusher queue receiver dead_letter_queue redis_store : Resource

-- What is built and has nothing to close.
pub data Component : Type 0 where
  metric_credential service_bus_credential graph_credential graph_client : Component
  graph_processor password_codec hmac_gate password_worker : Component

-- `start` cannot fail.
pub data AppCall : Type 0 where
  build : Component → AppCall
  open_resource start close : Resource → AppCall

pub data AppError : Type 0 where
  invalid_config : Text → AppError
  failed runtime_failed : Text → AppError
  close_failed : Resource → Text → AppError
  unsupported_store unsupported_auth_mode store_required codec_required encrypter_required :
      AppError
  queue_required : AppError

-- What the packages and the Azure libraries return after a given history.
pub record Answers : Type 0 where
  pub build_result : List AppCall → Option Text
  pub open_result : List AppCall → Option Text
  pub close_result : List AppCall → Option Text

-- The errors that errors.Join joins, in their order; no error is the nil error.
abbrev pub Errors : Type 0
Errors = List AppError

with_close_error : Resource → Option Text → Errors → Errors
with_close_error r none errors = errors
with_close_error r (some e) errors = close_failed r e ∷ errors

-- A nil closer is skipped; an error does not keep the others from being closed.
unfoldable pub close_app_resources : Answers → List (Option Resource) → Exec AppCall Errors
unfolding with_close_error
close_app_resources a [] = pure []
close_app_resources a (none ∷ closers) = close_app_resources a closers
close_app_resources a (some r ∷ closers) = do
  failure ← call (close r) a.close_result
  errors ← close_app_resources a closers
  pure (with_close_error r failure errors)

unfoldable pub close_after_wiring_error :
    {A : Type 0} → Answers → Errors → List Resource → Exec AppCall (Result Errors A)
close_after_wiring_error a e closers = do
  errors ← close_app_resources a (map (λ r. some r) closers)
  pure (err (e ++ errors))

unfoldable pub closing_rest :
    {A B : Type 0}
    → Answers
    → List Resource
    → Result Errors A
    → (A → Exec AppCall (Result Errors B))
    → Exec AppCall (Result Errors B)
closing_rest a closers (err e) rest = close_after_wiring_error a e closers
closing_rest a closers (ok x) rest = rest x

-- `if err != nil { return nil, closeAfterWiringError(err, closers) }`, and then the rest.
unfoldable pub or_close :
    {A B : Type 0}
    → Answers
    → List Resource
    → Exec AppCall (Result Errors A)
    → (A → Exec AppCall (Result Errors B))
    → Exec AppCall (Result Errors B)
unfolding closing_rest
or_close a closers m rest = do r ← m; closing_rest a closers r rest

unfoldable pub built : {A : Type 0} → A → Option Text → Result Errors A
built x none = ok x
built x (some e) = err (failed e ∷ [])

unfoldable pub build_component : Answers → Component → Exec AppCall (Result Errors Component)
unfolding built
build_component a c = do failure ← call (build c) a.build_result; pure (built c failure)

unfoldable pub open_closer : Answers → Resource → Exec AppCall (Result Errors Resource)
unfolding built
open_closer a r = do failure ← call (open_resource r) a.open_result; pure (built r failure)
