-- ===== src/App/Wiring.antt =====
-- New, NewWithQueue and the constructors they call, of internal/app/app.go. A runtime is the list of its closers:
-- the parts themselves have no state here.
pub mod Acquired
pub mod Steps
pub mod Parts
pub mod Leaks
use password_hook_service.Prelude.{
  Bool, true, false, not, ◌||◌, Option, none, some, List, [], ◌∷◌, ◌++◌, map, if◌then◌else◌, Text,
  codes, is_empty, same_text, Unicode, Result, ok, err,
}
use password_hook_service.Prelude.Effects.{Exec, call, tell, pure, ◌>>=◌}
use password_hook_service.Config
use password_hook_service.Config.Defs.{Config, Parsers}
use password_hook_service.Config.Http.{validate_http}
use password_hook_service.App.{
  Resource, exporter, metric_flusher, queue, receiver, dead_letter_queue, redis_store,
  metric_credential, service_bus_credential, graph_credential, graph_client, graph_processor,
  password_codec, hmac_gate, password_worker, AppCall, start, AppError, invalid_config,
  unsupported_store, unsupported_auth_mode, store_required, codec_required, encrypter_required,
  queue_required, runtime_failed, close_app_resources, Answers, Errors, close_after_wiring_error,
  or_close, build_component, open_closer,
}

pub record App : Type 0 where
  pub has_worker : Bool
  pub closers : List Resource

pub record SyncStatusRuntime : Type 0 where
  pub has_store : Bool
  pub closer : Option Resource

abbrev pub Build : Type 0 → Type 0
Build A = Exec AppCall (Result Errors A)

unfoldable pub succeed : {A : Type 0} → A → Build A
succeed x = pure (ok x)

unfoldable pub fail_with : {A : Type 0} → AppError → Build A
fail_with e = pure (err (e ∷ []))

unfoldable pub returning_rest : {A B : Type 0} → Result Errors A → (A → Build B) → Build B
returning_rest (err e) rest = pure (err e)
returning_rest (ok x) rest = rest x

-- `if err != nil { return nil, err }`, and then the rest.
unfoldable pub or_return : {A B : Type 0} → Build A → (A → Build B) → Build B
unfolding returning_rest
or_return m rest = do r ← m; returning_rest r rest

unfoldable pub closers_with : List Resource → Option Resource → List Resource
closers_with closers none = closers
closers_with closers (some r) = closers ++ r ∷ []

module _ (a : Answers) where
  -- With the metric credential failing, the exporter that was set up is shut down.
  unfoldable pub new_observability_runtime : Config → Build (List Resource)
  unfolding succeed or_return
  new_observability_runtime c =
      if not (same_text c.observability_exporter (codes "azure_monitor"))
      then succeed []
      else or_return (open_closer a exporter) (λ _.
        or_close a (exporter ∷ []) (build_component a metric_credential)
          (λ _. do _ ← tell (start metric_flusher); succeed (exporter ∷ metric_flusher ∷ [])))

  -- The queue, the receiver and the dead-letter queue, as both modes open them.
  unfoldable pub open_service_bus : Build (List Resource)
  unfolding succeed or_return
  open_service_bus = or_return (open_closer a queue) (λ _.
      or_close a (queue ∷ []) (open_closer a receiver) (λ _.
        or_close a (queue ∷ receiver ∷ []) (open_closer a dead_letter_queue)
          (λ _. succeed (queue ∷ receiver ∷ dead_letter_queue ∷ []))))

  unfoldable pub new_connection_string_service_bus_runtime : Build (List Resource)
  unfolding open_service_bus
  new_connection_string_service_bus_runtime = open_service_bus

  unfoldable pub new_managed_identity_service_bus_runtime : Build (List Resource)
  unfolding open_service_bus or_return
  new_managed_identity_service_bus_runtime =
      or_return (build_component a service_bus_credential) (λ _. open_service_bus)

  unfoldable pub new_service_bus_runtime : Config → Build (List Resource)
  unfolding new_connection_string_service_bus_runtime new_managed_identity_service_bus_runtime
      fail_with
  new_service_bus_runtime c =
      if is_empty c.service_bus_auth_mode
        || same_text c.service_bus_auth_mode (codes "connection_string")
      then new_connection_string_service_bus_runtime
      else if same_text c.service_bus_auth_mode (codes "managed_identity")
      then new_managed_identity_service_bus_runtime
      else fail_with unsupported_auth_mode

  unfoldable pub new_sync_status_runtime : Config → Build SyncStatusRuntime
  unfolding succeed or_return fail_with
  new_sync_status_runtime c =
      if same_text c.sync_status_store (codes "memory")
      then succeed (record { has_store = true; closer = none })
      else if same_text c.sync_status_store (codes "redis")
      then or_return (open_closer a redis_store)
          (λ _. succeed (record { has_store = true; closer = some redis_store }))
      else fail_with unsupported_store

  -- newWithQueueWithRecorder; the application has no worker yet.
  unfoldable pub new_with_queue_with_recorder : (has_encrypter : Bool) → List Resource → Build App
  unfolding succeed
  new_with_queue_with_recorder false closers =
      close_after_wiring_error a (encrypter_required ∷ []) closers
  new_with_queue_with_recorder true closers =
      or_close a closers (build_component a hmac_gate)
        (λ _. succeed (record { has_worker = false; closers = closers }))

  -- newWithWorkerDependenciesWithSyncStatusAndRecorder
  unfoldable pub new_with_worker_dependencies :
      (has_codec has_store : Bool) → List Resource → Build App
  unfolding succeed or_return
  new_with_worker_dependencies false has_store closers =
      close_after_wiring_error a (codec_required ∷ []) closers
  new_with_worker_dependencies true false closers =
      close_after_wiring_error a (store_required ∷ []) closers
  new_with_worker_dependencies true true closers =
      or_return (new_with_queue_with_recorder true closers) (λ application.
        or_close a closers (build_component a password_worker)
          (λ _. succeed (record application { has_worker = true })))

  -- The part of New from the credential of Graph on.
  unfoldable pub new_with_resources : List Resource → Build App
  new_with_resources closers = or_close a closers (build_component a graph_credential) (λ _.
      or_close a closers (build_component a graph_client) (λ _.
        or_close a closers (build_component a graph_processor) (λ _.
          or_close a closers (build_component a password_codec)
            (λ _. new_with_worker_dependencies true true closers))))

  unfoldable pub new_with_store : Bool → List Resource → Build App
  unfolding new_with_resources
  new_with_store false closers = close_after_wiring_error a (store_required ∷ []) closers
  new_with_store true closers = new_with_resources closers

  unfoldable pub new_validated : Config → Build App
  unfolding new_with_store closers_with or_return
  new_validated c = or_return (new_observability_runtime c) (λ monitors.
      or_close a monitors (new_service_bus_runtime c) (λ bus.
        or_close a (monitors ++ bus) (new_sync_status_runtime c) (λ status.
          new_with_store status.has_store (closers_with (monitors ++ bus) status.closer))))

  unfoldable pub unless_invalid : {A : Type 0} → Option Text → Build A → Build A
  unfolding fail_with
  unless_invalid (some e) rest = fail_with (invalid_config e)
  unless_invalid none rest = rest

  unfoldable pub new : Unicode → Parsers → Config → Build App
  unfolding new_validated unless_invalid
  new u p c = unless_invalid (Config.validate u p c) (new_validated c)

  unfoldable pub validate_password_encryption_config : Config → Option Text
  validate_password_encryption_config c =
      if is_empty c.password_encryption_key_b64
      then some (codes "PASSWORD_ENCRYPTION_KEY_B64 is required")
      else if is_empty c.password_encryption_key_id
      then some (codes "PASSWORD_ENCRYPTION_KEY_ID is required")
      else none

  with_queue : Bool → Build App
  unfolding or_return fail_with
  with_queue false = fail_with queue_required
  with_queue true =
      or_return (build_component a password_codec) (λ _. new_with_queue_with_recorder true [])

  unfoldable pub new_with_queue : Parsers → Config → (has_queue : Bool) → Build App
  unfolding with_queue unless_invalid
  new_with_queue p c has_queue =
      unless_invalid (validate_http p c)
        (unless_invalid (validate_password_encryption_config c) (with_queue has_queue))

  ended_with : Option Text → Errors
  ended_with none = []
  ended_with (some e) = runtime_failed e ∷ []

  -- Run, where `failure` is what the server, or runServerAndWorker, returns.
  unfoldable pub run : App → (failure : Option Text) → Exec AppCall Errors
  unfolding ended_with
  run x failure = do
    errors ← close_app_resources a (map (λ r. some r) x.closers)
    pure (ended_with failure ++ errors)
