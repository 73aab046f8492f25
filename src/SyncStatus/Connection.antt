-- ===== src/SyncStatus/Connection.antt =====
-- The options of NewManagedIdentityRedisStore of internal/syncstatus/redis.go, how they are validated there, and
-- how newSyncStatusRuntime of internal/app/app.go sets them. Durations are in nanoseconds.
pub mod Accepts
use password_hook_service.Prelude.{
  ℕ, Bool, not, ◌||◌, Option, none, some, ◌==◌, any, Text, codes, trim_space, is_blank, ℤ, pos,
  lebℤ,
}
use password_hook_service.Config.Texts.{contains}
use password_hook_service.Config.Defs.{Parsers, Config, and_then, reject_if}

pub record RedisOptions : Type 0 where
  pub host : Text
  pub port : ℤ
  pub key_prefix : Text
  pub pending_ttl : ℤ
  pub terminal_ttl : ℤ
  pub managed_identity_client_id : Text
  pub ping_timeout : ℤ

unfoldable pub validate_redis_store_options :
    (key_prefix : Text) (pending_ttl terminal_ttl : ℤ) → Option Text
validate_redis_store_options key_prefix pending_ttl terminal_ttl =
    reject_if (is_blank key_prefix) (codes "redis key prefix is required") (
      reject_if (not (lebℤ (pos 1000000) pending_ttl)) (codes "pending TTL must be at least 1ms") (
        reject_if (not (lebℤ (pos 1000000) terminal_ttl))
          (codes "terminal TTL must be at least 1ms") none))

module _ (p : Parsers) where
  -- The `switch` of validateRedisOptions.
  validate_connection : RedisOptions → Option Text
  validate_connection o = reject_if (is_blank o.host) (codes "Redis host is required") (
      reject_if (contains (codes "://") o.host) (codes "Redis host must not include a URL scheme") (
        reject_if (any (λ b. b == b'/' || b == b'@' || b == b':') o.host)
          (codes "Redis host must not include a path, user info, or port")
          (reject_if (lebℤ o.port (pos 0) || not (lebℤ o.port (pos 65535)))
            (codes "Redis port must be between 1 and 65535")
            (reject_if (is_blank o.managed_identity_client_id)
              (codes "Redis managed identity client ID is required")
              (reject_if (not (p.is_uuid (trim_space o.managed_identity_client_id)))
                (codes "Redis managed identity client ID must be a valid UUID")
                (reject_if (lebℤ o.ping_timeout (pos 0))
                  (codes "Redis ping timeout must be positive") none))))))

  unfoldable pub validate_redis_options : RedisOptions → Option Text
  unfolding validate_redis_store_options validate_connection
  validate_redis_options o =
      and_then (validate_redis_store_options o.key_prefix o.pending_ttl o.terminal_ttl)
        (validate_connection o)

-- The options of newSyncStatusRuntime; redisPingTimeout is five seconds.
abbrev pub redis_options_of : Config → RedisOptions
redis_options_of c = record {
  host = c.redis_host;
  port = c.redis_port;
  key_prefix = c.redis_key_prefix;
  pending_ttl = c.password_message_ttl;
  terminal_ttl = c.sync_status_terminal_ttl;
  managed_identity_client_id = c.azure_client_id;
  ping_timeout = pos 5000000000;
}
