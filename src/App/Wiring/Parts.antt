-- ===== src/App/Wiring/Parts.antt =====
-- The constructors of the runtimes of internal/app/app.go hold what they return, or release what they took.
use password_hook_service.Prelude.{
  true, none, some, List, [], ◌∷◌, ◌++◌, append-nil, ap, codes, not, ◌||◌, same_text, is_empty,
  if◌then◌else◌,
}
use password_hook_service.Config.Defs.{Config}
use password_hook_service.App.{
  Resource, exporter, metric_flusher, queue, receiver, dead_letter_queue, redis_store,
  metric_credential, service_bus_credential, AppCall, start, Answers, build_component, open_closer,
  unsupported_auth_mode, unsupported_store,
}
use password_hook_service.App.Wiring.{
  SyncStatusRuntime, Build, succeed, fail_with, or_return, new_observability_runtime,
  open_service_bus, new_connection_string_service_bus_runtime,
  new_managed_identity_service_bus_runtime, new_service_bus_runtime, new_sync_status_runtime,
  closers_with,
}
use password_hook_service.App.Wiring.Acquired.{acquired, closed, IsHeld, Sound}
use password_hook_service.App.Wiring.Steps.{
  build-Sound, open-Sound, build_or_close, open_or_close, or_return-Sound, themselves, if-Sound,
  succeed-Sound, fail_with-Sound,
}

abbrev pub status_closers : SyncStatusRuntime → List Resource
status_closers r = closers_with [] r.closer

module _ (a : Answers) where
  pub open_service_bus-Sound :
      (held : List Resource) (h : List AppCall)
      → IsHeld a held h
      → Sound a themselves held (open_service_bus a h)
  unfolding open_service_bus
  open_service_bus-Sound held h i =
      or_return-Sound a themselves (λ _. queue ∷ []) held (open_closer a queue) _ h
        (open-Sound a queue held h i)
        (λ _ t1 i1. open_or_close a themselves receiver held (queue ∷ []) _ t1 i1 (λ _ t2 i2.
          open_or_close a themselves dead_letter_queue held (queue ∷ receiver ∷ []) _ t2 i2
            (λ _ t3 i3. succeed-Sound a themselves held _ t3 i3)))

  managed_identity-Sound :
      (held : List Resource) (h : List AppCall)
      → IsHeld a held h
      → Sound a themselves held (new_managed_identity_service_bus_runtime a h)
  unfolding new_managed_identity_service_bus_runtime
  managed_identity-Sound held h i =
      or_return-Sound a themselves (λ _. []) held (build_component a service_bus_credential) _ h
        (build-Sound a service_bus_credential held h i)
        (λ _ t j. open_service_bus-Sound held t (rw (append-nil held) at j))

  abbrev managed_or_unsupported : Config → Build (List Resource)
  managed_or_unsupported c =
      if same_text c.service_bus_auth_mode (codes "managed_identity")
      then new_managed_identity_service_bus_runtime a
      else fail_with unsupported_auth_mode

  pub service_bus-Sound :
      (c : Config) (held : List Resource) (h : List AppCall)
      → IsHeld a held h
      → Sound a themselves held (new_service_bus_runtime a c h)
  unfolding new_service_bus_runtime new_connection_string_service_bus_runtime
  service_bus-Sound c held h i =
      if-Sound a themselves
        (is_empty c.service_bus_auth_mode
          || same_text c.service_bus_auth_mode (codes "connection_string"))
        (new_connection_string_service_bus_runtime a) (managed_or_unsupported c) held h
        (open_service_bus-Sound held h i)
        (if-Sound a themselves (same_text c.service_bus_auth_mode (codes "managed_identity"))
          (new_managed_identity_service_bus_runtime a) (fail_with unsupported_auth_mode) held h
          (managed_identity-Sound held h i)
          (fail_with-Sound a themselves unsupported_auth_mode held h i))

  started-IsHeld :
      (r : Resource) (held : List Resource) (h : List AppCall)
      → IsHeld a held h
      → IsHeld a (held ++ r ∷ []) (start r ∷ h)
  unfolding acquired closed
  started-IsHeld r held h i = record {
    acquired_all = ap (λ q. q ++ r ∷ []) i.acquired_all;
    none_closed = i.none_closed;
  }

  pub observability-Sound :
      (c : Config) (h : List AppCall)
      → IsHeld a [] h
      → Sound a themselves [] (new_observability_runtime a c h)
  unfolding new_observability_runtime
  observability-Sound c h i =
      if-Sound a themselves (not (same_text c.observability_exporter (codes "azure_monitor")))
        (succeed []) _ [] h (succeed-Sound a themselves [] [] h i)
        (or_return-Sound a themselves (λ _. exporter ∷ []) [] (open_closer a exporter) _ h
          (open-Sound a exporter [] h i)
          (λ _ t1 i1.
            build_or_close a themselves metric_credential [] (exporter ∷ []) _ t1 i1
              (λ _ t2 i2. started-IsHeld metric_flusher (exporter ∷ []) t2 i2)))

  abbrev in_memory : SyncStatusRuntime
  in_memory = record { has_store = true; closer = none }

  abbrev in_redis : SyncStatusRuntime
  in_redis = record { has_store = true; closer = some redis_store }

  abbrev redis_runtime : Build SyncStatusRuntime
  redis_runtime = or_return (open_closer a redis_store) (λ _. succeed in_redis)

  redis_runtime-Sound :
      (held : List Resource) (h : List AppCall)
      → IsHeld a held h
      → Sound a status_closers held (redis_runtime h)
  unfolding closers_with
  redis_runtime-Sound held h i =
      or_return-Sound a status_closers (λ _. redis_store ∷ []) held (open_closer a redis_store) _ h
        (open-Sound a redis_store held h i)
        (λ _ t j. succeed-Sound a status_closers held in_redis t j)

  abbrev redis_or_unsupported : Config → Build SyncStatusRuntime
  redis_or_unsupported c =
      if same_text c.sync_status_store (codes "redis")
      then redis_runtime
      else fail_with unsupported_store

  pub sync_status-Sound :
      (c : Config) (held : List Resource) (h : List AppCall)
      → IsHeld a held h
      → Sound a status_closers held (new_sync_status_runtime a c h)
  unfolding new_sync_status_runtime closers_with
  sync_status-Sound c held h i =
      if-Sound a status_closers (same_text c.sync_status_store (codes "memory")) (succeed in_memory)
        (redis_or_unsupported c) held h
        (succeed-Sound a status_closers held in_memory h (rw (append-nil held) i))
        (if-Sound a status_closers (same_text c.sync_status_store (codes "redis")) redis_runtime
          (fail_with unsupported_store) held h (redis_runtime-Sound held h i)
          (fail_with-Sound a status_closers unsupported_store held h i))
