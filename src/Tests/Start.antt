-- ===== src/Tests/Start.antt =====
-- The start of the program at concrete inputs: the environment, the secrets and the wiring.
use password_hook_service.Prelude.{
  Bool, true, false, Option, none, some, List, [], ◌∷◌, ◌≡◌, refl, Text, codes, ok, err, ascii,
  tally, trim_space, is_blank, same_text, pos, if◌then◌else◌,
}
use password_hook_service.Config.Texts.{has_prefix, contains}
use password_hook_service.Config.Defs.{Config}
use password_hook_service.Config.Services.{validate_sync_status, validate_secret_loading_inputs}
use password_hook_service.Config.Load.{Environment, load}
use password_hook_service.Config.Load.Trimmed.{load-accepted}
use password_hook_service.SyncStatus.Connection.{validate_redis_options, redis_options_of}
use password_hook_service.Secrets.{Vault, resolve, get_required_secret, resolve_key_vault}
use password_hook_service.Secrets.Loaded.{IsLoaded, resolve-IsLoaded}
use password_hook_service.App.{
  or_close, closing_rest, open_closer, build_component, built, close_app_resources,
  close_after_wiring_error, close_failed, dead_letter_queue, receiver, AppCall, build, graph_client,
  queue, Answers, failed,
}
use password_hook_service.App.Wiring.{
  App, new_observability_runtime, new_service_bus_runtime, new_sync_status_runtime,
  new_with_worker_dependencies, new_with_queue_with_recorder, new, run,
}
use password_hook_service.App.Wiring.Acquired.{acquired, closed}
use password_hook_service.App.Wiring.Leaks.{new-releases, run-closes}
use password_hook_service.Tests.Settings.{direct, direct_valid, parsers}

abbrev redis_variable : Text → Text
redis_variable key =
    if same_text key (codes "SYNC_STATUS_STORE")
    then codes " redis"
    else if same_text key (codes "REDIS_HOST")
    then codes "cache "
    else if same_text key (codes "REDIS_PORT")
    then codes "6380"
    else if same_text key (codes "AZURE_CLIENT_ID")
    then codes " id "
    else []

abbrev on_redis : Environment
on_redis = record {
  getenv = redis_variable;
  parse_bool = λ t. none;
  parse_int = λ t. some (pos 6380);
  parse_duration = λ t. none;
}

redis_chosen : same_text (load on_redis).sync_status_store (codes "memory") ≡ false
unfolding load trim_space same_text
redis_chosen = refl

redis_valid : validate_sync_status parsers (load on_redis) ≡ none
unfolding validate_sync_status load trim_space same_text is_blank contains has_prefix
redis_valid = refl

load-accepted_example : validate_redis_options parsers (redis_options_of (load on_redis)) ≡ none
load-accepted_example = load-accepted on_redis parsers redis_chosen redis_valid

-- Every secret is there, with a space at its end.
abbrev vault : Vault
vault = record {
  status_text = λ n. [];
  getter_result = λ h. none;
  secret_result = λ h. ok (some (codes "s "));
  context_result = λ h. none;
}

abbrev in_vault : Config
in_vault = record direct {
  secrets_source = codes "keyvault";
  key_vault_url = codes "https://v.tw";
  key_vault_secret_names = record {
    hmac_secret = codes "h";
    service_bus_connection_string = codes "b";
    graph_client_secret = codes "g";
    password_encryption_key = codes "k";
  };
}

abbrev from_vault : Config
from_vault = record in_vault {
  hmac_secret = codes "s";
  service_bus_connection_string = codes "s";
  graph_client_secret = codes "s";
  password_encryption_key_b64 = codes "s";
}

vault_read : (resolve vault in_vault false []).0 ≡ ok from_vault
unfolding resolve resolve_key_vault get_required_secret validate_secret_loading_inputs trim_space
    same_text is_blank has_prefix
vault_read = refl

resolve-IsLoaded_example : IsLoaded in_vault from_vault
resolve-IsLoaded_example =
    resolve-IsLoaded vault in_vault false [] (unfold same_text in refl) vault_read

is_failing : AppCall → Bool
is_failing (build graph_client) = true
is_failing _ = false

abbrev fails_at_graph : List AppCall → Option Text
fails_at_graph [] = none
fails_at_graph (op ∷ h) = if is_failing op then some (codes "x") else none

abbrev answers : (List AppCall → Option Text) → Answers
answers builds = record {
  build_result = builds;
  open_result = λ h. none;
  close_result = λ h. some (codes "late");
}

graph_fails :
    (new (answers fails_at_graph) ascii parsers direct []).0
    ≡ err (
        failed (codes "x")
        ∷ close_failed queue (codes "late")
        ∷ close_failed receiver (codes "late")
        ∷ close_failed dead_letter_queue (codes "late")
        ∷ [])
unfolding new new_observability_runtime new_service_bus_runtime new_sync_status_runtime or_close
    closing_rest open_closer build_component built close_app_resources close_after_wiring_error
    is_failing same_text
graph_fails = rw direct_valid refl

new-releases_example :
    tally (λ r. true) (closed (new (answers fails_at_graph) ascii parsers direct []).1)
    ≡ tally
        (λ r. true)
        (acquired (answers fails_at_graph) (new (answers fails_at_graph) ascii parsers direct []).1)
new-releases_example =
    new-releases (answers fails_at_graph) ascii parsers direct graph_fails (λ r. true)

abbrev service_app : App
service_app = record { has_worker = true; closers = queue ∷ receiver ∷ dead_letter_queue ∷ [] }

all_built : (new (answers (λ h. none)) ascii parsers direct []).0 ≡ ok service_app
unfolding new new_observability_runtime new_service_bus_runtime new_sync_status_runtime
    new_with_worker_dependencies new_with_queue_with_recorder or_close closing_rest open_closer
    build_component built same_text
all_built = rw direct_valid refl

run-closes_example :
    closed
      (run
        (answers (λ h. none))
        service_app
        none
        (new (answers (λ h. none)) ascii parsers direct []).1).1
    ≡ acquired
        (answers (λ h. none))
        (run
          (answers (λ h. none))
          service_app
          none
          (new (answers (λ h. none)) ascii parsers direct []).1).1
run-closes_example = run-closes (answers (λ h. none)) ascii parsers direct none all_built
