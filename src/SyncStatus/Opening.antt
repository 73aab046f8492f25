-- ===== src/SyncStatus/Opening.antt =====
-- NewManagedIdentityRedisStore, NewRedisStore, newStreamingCredentialsProvider and Close of internal/syncstatus/redis.go. The
-- calls of azidentity and go-redis are recorded, newest first, and each returns what the history says.
pub mod Held
use password_hook_service.Prelude.{
  Bool, true, false, Option, none, some, List, [], ◌∷◌, ◌++◌, Text, ℤ, Result, ok, err,
}
use password_hook_service.Prelude.Effects.{Exec, call, pure, ◌>>=◌, ◌>>◌}
use password_hook_service.Prelude.Resources.{Use, opens, closes, asks, Results, close_all}
use password_hook_service.Config.Defs.{Parsers}
use password_hook_service.SyncStatus.Connection.{
  RedisOptions, validate_redis_options, validate_redis_store_options,
}

-- The provider is open from the start of its token manager to its stop. The others are only asked for.
pub data Part : Type 0 where
  credential token_manager provider cluster_client ping : Part

unfoldable pub same_part : Part → Part → Bool
same_part provider provider = true
same_part cluster_client cluster_client = true
same_part _ _ = false

pub record RedisStore : Type 0 where
  pub key_prefix : Text
  pub pending_ttl : ℤ
  pub terminal_ttl : ℤ
  pub has_credentials : Bool

pub data OpenError : Type 0 where
  client_required : OpenError
  invalid credential_failed provider_failed : Text → OpenError
  -- With the errors of closing what was open.
  store_failed : OpenError → List Text → OpenError
  ping_failed : Text → List Text → OpenError

invalid_or : Option Text → RedisStore → Result OpenError RedisStore
invalid_or (some e) store = err (invalid e)
invalid_or none store = ok store

unfoldable pub new_redis_store :
    (has_client : Bool) (key_prefix : Text) (pending_ttl terminal_ttl : ℤ)
    → Result OpenError RedisStore
unfolding invalid_or
new_redis_store false key_prefix pending_ttl terminal_ttl = err client_required
new_redis_store true key_prefix pending_ttl terminal_ttl =
    invalid_or (validate_redis_store_options key_prefix pending_ttl terminal_ttl) (record {
      key_prefix = key_prefix;
      pending_ttl = pending_ttl;
      terminal_ttl = terminal_ttl;
      has_credentials = false;
    })

unfoldable pub close_parts : Results Part → (has_credentials : Bool) → Exec (Use Part) (List Text)
close_parts redis true = close_all redis (cluster_client ∷ provider ∷ []) []
close_parts redis false = close_all redis (cluster_client ∷ []) []

-- RedisStore.Close
unfoldable pub close_store : Results Part → RedisStore → Exec (Use Part) (List Text)
unfolding close_parts
close_store redis store = close_parts redis store.has_credentials

abbrev pub Opened : Type 0
Opened = Result OpenError RedisStore

module _ (p : Parsers) (redis : Results Part) where
  pinged : RedisStore → Option Text → Exec (Use Part) Opened
  unfolding close_store
  pinged store none = pure (ok store)
  pinged store (some e) = do errors ← close_store redis store; pure (err (ping_failed e errors))

  with_store : Result OpenError RedisStore → Exec (Use Part) Opened
  unfolding pinged
  with_store (err e) = do
    errors ← close_all redis (cluster_client ∷ provider ∷ []) []
    pure (err (store_failed e errors))
  with_store (ok store) = do
    failure ← call (asks ping) redis
    pinged (record store { has_credentials = true }) failure

  -- From redis.NewClusterClient on, which returns no error.
  with_provider : RedisOptions → Option Text → Exec (Use Part) Opened
  unfolding with_store new_redis_store
  with_provider o (some e) = pure (err (provider_failed e))
  with_provider o none = do
    _ ← call (opens cluster_client) redis
    with_store (new_redis_store true o.key_prefix o.pending_ttl o.terminal_ttl)

  start_provider : Option Text → Exec (Use Part) (Option Text)
  start_provider (some e) = pure (some e)
  start_provider none = call (opens provider) redis

  -- newStreamingCredentialsProvider, whose token manager is not nil.
  unfoldable pub new_streaming_credentials_provider : Exec (Use Part) (Option Text)
  unfolding start_provider
  new_streaming_credentials_provider = do
    failure ← call (asks token_manager) redis
    start_provider failure

  with_credential : RedisOptions → Option Text → Exec (Use Part) Opened
  unfolding with_provider new_streaming_credentials_provider
  with_credential o (some e) = pure (err (credential_failed e))
  with_credential o none = do failure ← new_streaming_credentials_provider; with_provider o failure

  unless_invalid : RedisOptions → Option Text → Exec (Use Part) Opened
  unfolding with_credential
  unless_invalid o (some e) = pure (err (invalid e))
  unless_invalid o none = do failure ← call (asks credential) redis; with_credential o failure

  unfoldable pub new_managed_identity_redis_store : RedisOptions → Exec (Use Part) Opened
  unfolding unless_invalid
  new_managed_identity_redis_store o = unless_invalid o (validate_redis_options p o)
