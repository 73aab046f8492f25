-- ===== src/Config/Load.antt =====
-- Load of internal/config/config.go. os.Getenv is a function, empty where a variable is not set; strconv and
-- time.ParseDuration are parameters.
pub mod Trimmed
use password_hook_service.Prelude.{
  ℕ, ◌*◌, Bool, true, false, ◌&&◌, Option, none, some, List, [], ◌∷◌, ◌++◌, ◌==◌, if◌then◌else◌,
  is_empty, Text, codes, trim_space, ℤ, pos,
}
use password_hook_service.Middleware.Source.{split_commas}
use password_hook_service.Config.Defs.{SecretNames, Config}

pub record Environment : Type 0 where
  pub getenv : Text → Text
  pub parse_bool : Text → Option Bool
  pub parse_int : Text → Option ℤ
  pub parse_duration : Text → Option ℤ

-- A value, and the error of a variable that has no valid one.
abbrev pub Strict : Type 0 → Type 0
Strict A = A × Option Text

parsed_or : {A : Type 0} → A → Option Text → Option A → Strict A
parsed_or fallback e none = (fallback, e)
parsed_or fallback e (some v) = (v, none)

value_or : {A : Type 0} → A → Option A → A
value_or fallback none = fallback
value_or fallback (some v) = v

-- strings.TrimRight(s, "/")
unfoldable pub trim_slashes : Text → Text
trim_slashes [] = []
trim_slashes (b ∷ s) =
    let rest = trim_slashes s in if b == b'/' && is_empty rest then [] else b ∷ rest

unfoldable pub trimmed_values : List Text → List Text
trimmed_values [] = []
trimmed_values (v ∷ vs) =
    let rest = trimmed_values vs in if is_empty (trim_space v) then rest else trim_space v ∷ rest

abbrev pub minutes : ℕ → ℤ
minutes n = pos (n * 60000000000)

module _ (e : Environment) where
  -- strings.TrimSpace(os.Getenv(key))
  abbrev pub raw : Text → Text
  raw key = trim_space (e.getenv key)

  unfoldable pub bool_env : Text → Strict Bool
  unfolding parsed_or
  bool_env key =
      if is_empty (raw key)
      then (false, none)
      else parsed_or false (some (key ++ codes " must be a boolean")) (e.parse_bool (raw key))

  unfoldable pub strict_int_env : Text → Strict ℤ
  unfolding parsed_or
  strict_int_env key =
      if is_empty (raw key)
      then (pos 0, none)
      else parsed_or (pos 0) (some (key ++ codes " must be an integer")) (e.parse_int (raw key))

  unfoldable pub strict_duration_env : Text → ℤ → Strict ℤ
  unfolding parsed_or
  strict_duration_env key fallback =
      if is_empty (raw key)
      then (fallback, none)
      else parsed_or (pos 0) (some (key ++ codes " must be a valid duration"))
          (e.parse_duration (raw key))

  unfoldable pub env : Text → (fallback : Text) → Text
  env key fallback = if is_empty (raw key) then fallback else raw key

  unfoldable pub csv_env : Text → List Text
  unfolding trimmed_values
  csv_env key = if is_empty (raw key) then [] else trimmed_values (split_commas (raw key))

  -- intEnv and int64Env
  unfoldable pub int_env : Text → ℤ → ℤ
  unfolding value_or
  int_env key fallback =
      if is_empty (raw key) then fallback else value_or fallback (e.parse_int (raw key))

  unfoldable pub duration_env : Text → ℤ → ℤ
  unfolding value_or
  duration_env key fallback =
      if is_empty (raw key) then fallback else value_or fallback (e.parse_duration (raw key))

  unfoldable pub load : Config
  unfolding bool_env strict_int_env strict_duration_env env csv_env int_env duration_env
      trim_slashes
  load =
      let (direct_client_mode, direct_client_mode_err) = bool_env (codes "DIRECT_CLIENT_MODE") in
      let (redis_port, redis_port_err) = strict_int_env (codes "REDIS_PORT") in
      let (password_message_ttl, password_message_ttl_err) =
        strict_duration_env (codes "PASSWORD_MESSAGE_TTL") (minutes 5) in
      let (sync_status_terminal_ttl, sync_status_terminal_ttl_err) =
        strict_duration_env (codes "SYNC_STATUS_TERMINAL_TTL") (minutes (90 * 24 * 60)) in
      record {
        secrets_source = raw (codes "SECRETS_SOURCE");
        key_vault_url = raw (codes "KEY_VAULT_URL");
        key_vault_secret_names = record {
          hmac_secret = env (codes "KEY_VAULT_HMAC_SECRET_NAME") (codes "hook-hmac-secret");
          service_bus_connection_string =
              env (codes "KEY_VAULT_SERVICEBUS_CONNECTION_STRING_NAME")
                (codes "servicebus-conn-str");
          graph_client_secret =
              env (codes "KEY_VAULT_GRAPH_CLIENT_SECRET_NAME") (codes "graph-client-secret");
          password_encryption_key =
              env (codes "KEY_VAULT_PASSWORD_ENCRYPTION_KEY_NAME")
                (codes "password-payload-encryption-key");
        };
        http_addr = env (codes "HTTP_ADDR") (codes ":8080");
        hmac_secret = e.getenv (codes "HOOK_HMAC_SECRET");
        entra_primary_domain = env (codes "ENTRA_PRIMARY_DOMAIN") (codes "nycu.edu.tw");
        entra_fallback_domain = raw (codes "ENTRA_FALLBACK_DOMAIN");
        problem_base_url =
            trim_slashes (env (codes "PROBLEM_BASE_URL") (codes "https://nycu.edu.tw/problems"));
        hmac_clock_skew = pos 30000000000;
        nonce_ttl = pos 60000000000;
        portal_allowed_cidrs = csv_env (codes "PORTAL_ALLOWED_CIDRS");
        trusted_proxy_cidrs = csv_env (codes "TRUSTED_PROXY_CIDRS");
        direct_client_mode = direct_client_mode;
        rate_limit_per_ip = int_env (codes "RATE_LIMIT_PER_IP") (pos 500);
        rate_limit_window = duration_env (codes "RATE_LIMIT_WINDOW") (pos 1000000000);
        hook_max_body_bytes = int_env (codes "HOOK_MAX_BODY_BYTES") (pos 65536);
        service_bus_auth_mode = env (codes "SERVICEBUS_AUTH_MODE") (codes "connection_string");
        service_bus_namespace_fqdn = raw (codes "SERVICEBUS_NAMESPACE_FQDN");
        service_bus_connection_string = raw (codes "SERVICEBUS_CONNECTION_STRING");
        service_bus_queue_name = env (codes "SERVICEBUS_QUEUE_NAME") (codes "password-sync");
        service_bus_dead_letter_queue_name =
            env (codes "SERVICEBUS_DEADLETTER_QUEUE_NAME") (codes "password-sync-dlq");
        password_message_ttl = password_message_ttl;
        sync_status_store = raw (codes "SYNC_STATUS_STORE");
        redis_host = raw (codes "REDIS_HOST");
        redis_port = redis_port;
        redis_key_prefix = env (codes "REDIS_KEY_PREFIX") (codes "password-hook:sync-status:");
        sync_status_terminal_ttl = sync_status_terminal_ttl;
        azure_client_id = raw (codes "AZURE_CLIENT_ID");
        password_encryption_key_b64 = raw (codes "PASSWORD_ENCRYPTION_KEY_B64");
        password_encryption_key_id =
            env (codes "PASSWORD_ENCRYPTION_KEY_ID") (codes "password-payload-key-v1");
        graph_tenant_id = raw (codes "GRAPH_TENANT_ID");
        graph_client_id = raw (codes "GRAPH_CLIENT_ID");
        graph_client_secret = raw (codes "GRAPH_CLIENT_SECRET");
        observability_exporter = env (codes "OBSERVABILITY_EXPORTER") (codes "none");
        otlp_exporter_endpoint = raw (codes "OTEL_EXPORTER_OTLP_ENDPOINT");
        azure_monitor_metric_resource_id = raw (codes "AZURE_MONITOR_METRIC_RESOURCE_ID");
        azure_monitor_metric_region = raw (codes "AZURE_MONITOR_METRIC_REGION");
        azure_monitor_metric_namespace =
            env (codes "AZURE_MONITOR_METRIC_NAMESPACE") (codes "password-hook-service");
        direct_client_mode_err = direct_client_mode_err;
        redis_port_err = redis_port_err;
        password_message_ttl_err = password_message_ttl_err;
        sync_status_terminal_ttl_err = sync_status_terminal_ttl_err;
      }
