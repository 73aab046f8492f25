-- ===== src/Config/Defs.antt =====
-- internal/config/config.go: the fields that its validation reads, and the shape of a chain of tests. An error
-- is its text, without the value that some texts quote. A duration is a number of nanoseconds, and
-- net.ParseCIDR and uuid.Validate are parameters.
use password_hook_service.Prelude.{
  ℕ, Bool, not, Option, none, some, List, if◌then◌else◌, Text, ℤ, pos, lebℤ,
}
use password_hook_service.Middleware.Source.{Ip}

-- (*net.IPNet): the base address, the number of leading ones of the mask, and Contains.
pub record Network : Type 0 where
  pub ip : Ip
  pub ones : ℕ
  pub holds : Ip → Bool

pub record Parsers : Type 0 where
  pub parse_cidr : Text → Option Network
  pub is_uuid : Text → Bool

pub record SecretNames : Type 0 where
  pub hmac_secret : Text
  pub service_bus_connection_string : Text
  pub graph_client_secret : Text
  pub password_encryption_key : Text

-- The fields that Validate reads. The four errors are those of Load.
pub record Config : Type 0 where
  pub secrets_source : Text
  pub key_vault_url : Text
  pub key_vault_secret_names : SecretNames
  pub http_addr : Text
  pub hmac_secret : Text
  pub entra_primary_domain : Text
  pub entra_fallback_domain : Text
  pub problem_base_url : Text
  pub hmac_clock_skew : ℤ
  pub nonce_ttl : ℤ
  pub portal_allowed_cidrs : List Text
  pub trusted_proxy_cidrs : List Text
  pub direct_client_mode : Bool
  pub rate_limit_per_ip : ℤ
  pub rate_limit_window : ℤ
  pub hook_max_body_bytes : ℤ
  pub service_bus_auth_mode : Text
  pub service_bus_namespace_fqdn : Text
  pub service_bus_connection_string : Text
  pub service_bus_queue_name : Text
  pub service_bus_dead_letter_queue_name : Text
  pub password_message_ttl : ℤ
  pub sync_status_store : Text
  pub redis_host : Text
  pub redis_port : ℤ
  pub redis_key_prefix : Text
  pub sync_status_terminal_ttl : ℤ
  pub azure_client_id : Text
  pub password_encryption_key_b64 : Text
  pub password_encryption_key_id : Text
  pub graph_tenant_id : Text
  pub graph_client_id : Text
  pub graph_client_secret : Text
  pub observability_exporter : Text
  pub otlp_exporter_endpoint : Text
  pub azure_monitor_metric_resource_id : Text
  pub azure_monitor_metric_region : Text
  pub azure_monitor_metric_namespace : Text
  pub direct_client_mode_err : Option Text
  pub redis_port_err : Option Text
  pub password_message_ttl_err : Option Text
  pub sync_status_terminal_ttl_err : Option Text

-- `if err := first; err != nil { return err }`, and then the rest.
abbrev pub and_then : Option Text → Option Text → Option Text
and_then (some e) rest = some e
and_then none rest = rest

-- A `case` that returns an error, and the cases after it.
abbrev pub reject_if : Bool → Text → Option Text → Option Text
reject_if test message rest = if test then some message else rest

abbrev pub is_positive : ℤ → Bool
is_positive d = not (lebℤ d (pos 0))
