-- ===== src/Secrets.antt =====
-- internal/secretloader/loader.go: the secrets of a configuration that are read from Key Vault. The calls of the vault
-- and the looks at the context are recorded, newest first.
pub mod Loaded
use password_hook_service.Prelude.{
  ℕ, Bool, true, false, not, Option, none, some, List, [], ◌∷◌, if◌then◌else◌, is_empty, Text,
  codes, same_text, trim_space, Result, ok, err,
}
use password_hook_service.Prelude.Effects.{Exec, call, pure, ◌>>=◌}
use password_hook_service.SyncStatus.{ContextError}
use password_hook_service.Config.Defs.{Config}
use password_hook_service.Config.Services.{validate_secret_loading_inputs}

-- What GetSecret of the Azure client fails with: an *azcore.ResponseError in its chain, or an error of
-- another type. The detail may quote what the vault answered.
pub data VaultError : Type 0 where
  response_error : (status : ℕ) (code detail : Text) → VaultError
  other_error : (type_name detail : Text) → VaultError

-- What is said of it.
pub data ReadError : Type 0 where
  failed_status : (status : ℕ) (status_text : Text) → ReadError
  failed_with_code : (status : ℕ) (status_text code : Text) → ReadError
  failed_type : (type_name : Text) → ReadError

pub data SecretsError : Type 0 where
  invalid_inputs : Text → SecretsError
  unsupported_source : SecretsError
  getter_failed : Text → SecretsError
  context : ContextError → SecretsError
  read_failed : (name : Text) → ReadError → SecretsError
  empty_secret : (name : Text) → SecretsError

pub data Call : Type 0 where
  new_getter : (vault_url : Text) → Call
  get_secret : (name : Text) → Call
  check_context : Call

-- `status_text` is http.StatusText; a secret without a value is `none`.
pub record Vault : Type 0 where
  pub status_text : ℕ → Text
  pub getter_result : List Call → Option Text
  pub secret_result : List Call → Result VaultError (Option Text)
  pub context_result : List Call → Option ContextError

status_or_unknown : Text → Text
status_or_unknown t = if is_empty t then codes "unknown status" else t

unfoldable pub sanitize_secret_error : (ℕ → Text) → VaultError → ReadError
unfolding status_or_unknown
sanitize_secret_error status_text (response_error status code detail) =
    let shown = status_or_unknown (status_text status) in
    if is_empty code then failed_status status shown else failed_with_code status shown code
sanitize_secret_error status_text (other_error type_name detail) = failed_type type_name

-- The error for a secret without a value has the type of fmt.Errorf without a %w.
value_of : Result VaultError (Option Text) → Result VaultError Text
value_of (err e) = err e
value_of (ok none) = err (other_error (codes "*errors.errorString") [])
value_of (ok (some value)) = ok value

required : (name value : Text) → Result SecretsError Text
required name value = if is_empty value then err (empty_secret name) else ok value

failure_of : Text → ReadError → Option ContextError → SecretsError
failure_of name e none = read_failed name e
failure_of name e (some c) = context c

module _ (v : Vault) where
  checked : Text → Result VaultError Text → Exec Call (Result SecretsError Text)
  unfolding required failure_of sanitize_secret_error
  checked name (ok value) = pure (required name (trim_space value))
  checked name (err e) = do
    canceled ← call check_context v.context_result
    pure (err (failure_of name (sanitize_secret_error v.status_text e) canceled))

  unfoldable pub get_required_secret : (name : Text) → Exec Call (Result SecretsError Text)
  unfolding checked value_of
  get_required_secret name = do
    value ← call (get_secret name) v.secret_result
    checked name (value_of value)

  with_connection_string : Config → Result SecretsError Text → Result SecretsError Config
  with_connection_string c (err e) = err e
  with_connection_string c (ok value) = ok (record c { service_bus_connection_string = value })

  load_service_bus_unless : (managed : Bool) → Config → Exec Call (Result SecretsError Config)
  unfolding get_required_secret with_connection_string
  load_service_bus_unless true c = pure (ok c)
  load_service_bus_unless false c = do
    value ← get_required_secret c.key_vault_secret_names.service_bus_connection_string
    pure (with_connection_string c value)

  load_service_bus : Config → Exec Call (Result SecretsError Config)
  unfolding load_service_bus_unless
  load_service_bus c =
      load_service_bus_unless (same_text c.service_bus_auth_mode (codes "managed_identity")) c

  with_secrets :
      Config → (hmac graph : Text) → Result SecretsError Text → Result SecretsError Config
  with_secrets c hmac graph (err e) = err e
  with_secrets c hmac graph (ok key) = ok (record c {
    hmac_secret = hmac;
    graph_client_secret = graph;
    password_encryption_key_b64 = key;
  })

  load_key :
      Config → (hmac : Text) → Result SecretsError Text → Exec Call (Result SecretsError Config)
  unfolding get_required_secret with_secrets
  load_key c hmac (err e) = pure (err e)
  load_key c hmac (ok graph) = do
    key ← get_required_secret c.key_vault_secret_names.password_encryption_key
    pure (with_secrets c hmac graph key)

  load_graph : (hmac : Text) → Result SecretsError Config → Exec Call (Result SecretsError Config)
  unfolding get_required_secret load_key
  load_graph hmac (err e) = pure (err e)
  load_graph hmac (ok c) = do
    graph ← get_required_secret c.key_vault_secret_names.graph_client_secret
    load_key c hmac graph

  load_others : Config → Result SecretsError Text → Exec Call (Result SecretsError Config)
  unfolding load_service_bus load_graph
  load_others c (err e) = pure (err e)
  load_others c (ok hmac) = do with_bus ← load_service_bus c; load_graph hmac with_bus

  unfoldable pub resolve_key_vault : Config → Exec Call (Result SecretsError Config)
  unfolding get_required_secret load_others
  resolve_key_vault c = do
    hmac ← get_required_secret c.key_vault_secret_names.hmac_secret
    load_others c hmac

  after_getter : Config → Option Text → Exec Call (Result SecretsError Config)
  unfolding resolve_key_vault
  after_getter c (some e) = pure (err (getter_failed e))
  after_getter c none = resolve_key_vault c

  with_getter : Config → (has_getter : Bool) → Exec Call (Result SecretsError Config)
  unfolding resolve_key_vault after_getter
  with_getter c true = resolve_key_vault c
  with_getter c false = do
    failure ← call (new_getter c.key_vault_url) v.getter_result
    after_getter c failure

  resolve_checked :
      Config → (has_getter : Bool) → Option Text → Exec Call (Result SecretsError Config)
  unfolding with_getter
  resolve_checked c has_getter (some e) = pure (err (invalid_inputs e))
  resolve_checked c has_getter none =
      if same_text c.secrets_source (codes "env")
      then pure (ok c)
      else if same_text c.secrets_source (codes "keyvault")
      then with_getter c has_getter
      else pure (err unsupported_source)

  unfoldable pub resolve : Config → (has_getter : Bool) → Exec Call (Result SecretsError Config)
  unfolding resolve_checked
  resolve c has_getter = resolve_checked c has_getter (validate_secret_loading_inputs c)
