-- ===== src/Tests/Clients.antt =====
-- Runs of the constructors of clients, of the depth probe, and of what is reported.
use password_hook_service.Prelude.{
  ℤ, true, none, some, List, [], ◌∷◌, ◌≡◌, refl, Text, codes, All, Result, ok, pos, is_blank,
}
use password_hook_service.Prelude.Resources.{Use, opens, closes, asks, Results}
use password_hook_service.Config.Texts.{contains, has_prefix}
use password_hook_service.Queue.Clients
use password_hook_service.Queue.Clients.{Constructor, receiver_of_namespace, construct}
use password_hook_service.Queue.Clients.Held
use password_hook_service.Queue.Clients.Held.{construct-IsClean}
use password_hook_service.SyncStatus.Opening as Opening
use password_hook_service.SyncStatus.Opening.{new_managed_identity_redis_store}
use password_hook_service.SyncStatus.Opening.Held as Redis
use password_hook_service.SyncStatus.Opening.Held.{new_store-IsClean}
use password_hook_service.SyncStatus.Connection.{RedisOptions, validate_redis_options}
use password_hook_service.Queue.Depth.{DepthCall, new_queue_depth_probe, probe}
use password_hook_service.Queue.Depth.Gauged.{IsGauged, probe-IsGauged}
use password_hook_service.Worker.Defs.{worker_failed, dead_lettered, permanent_processor_error}
use password_hook_service.Middleware.Source.{source_ip_not_allowed}
use password_hook_service.App.Chain.{refused}
use password_hook_service.Observability.{sprint}
use password_hook_service.Observability.Reports.{answer_signals, panic_signals, worker_signals}
use password_hook_service.Observability.Kept.{IsKept, reports-IsKept}
use password_hook_service.Tests.Settings.{parsers}
use password_hook_service.Tests.Delivery.{queued}

three_digits : sprint 405 ≡ codes "405"
unfolding sprint
three_digits = refl

-- The client opens, and its receiver does not.
no_receiver : Results Clients.Part
no_receiver (opens Clients.receiver ∷ h) = some (codes "gone")
no_receiver _ = none

abbrev named : Constructor
named = receiver_of_namespace (codes "ns") true (codes "q")

construct-IsClean_example : Held.IsClean no_receiver [] (construct no_receiver named [])
construct-IsClean_example = construct-IsClean no_receiver named []

-- Everything opens, but the ping fails.
no_ping : Results Opening.Part
no_ping (asks Opening.ping ∷ h) = some (codes "timeout")
no_ping _ = none

client_opens : (h : List (Use Opening.Part)) → no_ping (opens Opening.cluster_client ∷ h) ≡ none
unfolding no_ping
client_opens h = refl

abbrev redis_of_tests : RedisOptions
redis_of_tests = record {
  host = codes "cache.redis.azure.net";
  port = pos 10000;
  key_prefix = codes "sync";
  pending_ttl = pos 300000000000;
  terminal_ttl = pos 300000000000;
  managed_identity_client_id = codes "id";
  ping_timeout = pos 5000000000;
}

-- After the ping has failed, the client and the provider are closed.
ping_fails :
    (new_managed_identity_redis_store parsers no_ping redis_of_tests []).1
    ≡ closes Opening.provider
      ∷ closes Opening.cluster_client
      ∷ asks Opening.ping
      ∷ opens Opening.cluster_client
      ∷ opens Opening.provider
      ∷ asks Opening.token_manager
      ∷ asks Opening.credential
      ∷ []
unfolding new_managed_identity_redis_store validate_redis_options is_blank contains has_prefix
    no_ping
ping_fails = refl

new_store-IsClean_example :
    Redis.IsClean parsers no_ping []
      (new_managed_identity_redis_store parsers no_ping redis_of_tests [])
new_store-IsClean_example = new_store-IsClean parsers no_ping client_opens redis_of_tests []

abbrev seven : List DepthCall → Result Text ℤ
seven h = ok (pos 7)

probe-IsGauged_example :
    IsGauged
      (new_queue_depth_probe true (codes " q ") [])
      []
      (probe seven (some (new_queue_depth_probe true (codes " q ") [])) [])
probe-IsGauged_example = probe-IsGauged seven true (codes " q ") [] []

reports-IsKept_example :
    All IsKept (answer_signals (codes "t") [] (refused source_ip_not_allowed))
    × All IsKept (panic_signals (codes "t"))
    × All IsKept (worker_signals worker_failed queued (dead_lettered permanent_processor_error) 3)
reports-IsKept_example =
    reports-IsKept (codes "t") [] (refused source_ip_not_allowed) worker_failed queued
      (dead_lettered permanent_processor_error) 3
