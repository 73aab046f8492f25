-- ===== src/SyncStatus/Connection/Accepts.antt =====
-- What Validate of internal/config/config.go accepts, validateRedisOptions of internal/syncstatus/redis.go accepts.
use password_hook_service.Prelude.{false, none, ◌≡◌, arith, codes, same_text, trim_space}
use password_hook_service.Config.Defs.{Parsers, Config}
use password_hook_service.Config.Services.{validate_store, validate_sync_status}
use password_hook_service.SyncStatus.Connection.{
  validate_redis_store_options, validate_connection, validate_redis_options, redis_options_of,
}

-- A configuration that Validate accepts with the Redis store gives options that the store accepts.
pub validate_redis_options-accepts :
    (p : Parsers) (c : Config)
    → trim_space c.azure_client_id ≡ c.azure_client_id
    → same_text c.sync_status_store (codes "memory") ≡ false
    → validate_sync_status p c ≡ none
    → validate_redis_options p (redis_options_of c) ≡ none
unfolding validate_redis_options validate_redis_store_options validate_connection
    validate_sync_status validate_store
validate_redis_options-accepts p c trimmed store valid = ground (arith, trimmed)
