-- ===== src/Config.antt =====
-- Validate of internal/config/config.go.
pub mod Texts
pub mod Defs
pub mod Http
pub mod Services
pub mod TrustBoundary
pub mod Load
use password_hook_service.Prelude.{
  ℕ, Bool, true, false, not, ◌&&◌, ◌||◌, Option, none, some, List, [], ◌∷◌, if◌then◌else◌, ltb,
  ◌==◌, any, is_empty, Text, codes, same_text, trim_space, is_blank, ℤ, pos, lebℤ, Unicode, lower,
}
use password_hook_service.Config.Texts.{has_prefix, has_suffix, contains}
use password_hook_service.Config.Defs.{
  Network, Parsers, SecretNames, Config, and_then, reject_if, is_positive,
}
use password_hook_service.Config.Http.{validate_http}
use password_hook_service.Config.Services.{
  validate_service_bus, validate_sync_status, validate_observability,
  validate_secret_loading_inputs,
}

unfoldable pub validate : Unicode → Parsers → Config → Option Text
validate u p c = and_then (validate_secret_loading_inputs c) (
    and_then (validate_http p c) (
      and_then (validate_service_bus u c) (
        and_then (validate_sync_status p c) (
          and_then (validate_observability c) (
            reject_if (is_blank c.password_encryption_key_b64)
              (codes "PASSWORD_ENCRYPTION_KEY_B64 is required")
              (reject_if (is_blank c.password_encryption_key_id)
                (codes "PASSWORD_ENCRYPTION_KEY_ID is required")
                (reject_if (is_blank c.graph_tenant_id) (codes "GRAPH_TENANT_ID is required") (
                  reject_if (is_blank c.graph_client_id) (codes "GRAPH_CLIENT_ID is required") (
                    reject_if (is_blank c.graph_client_secret)
                      (codes "GRAPH_CLIENT_SECRET is required") none)))))))))
