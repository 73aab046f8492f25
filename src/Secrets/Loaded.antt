-- ===== src/Secrets/Loaded.antt =====
-- What Resolve of internal/secretloader/loader.go returns.
use password_hook_service.Prelude.{
  ℕ, Bool, true, false, not, Option, none, some, List, if◌then◌else◌, is_blank, is_blank-trim_space,
  ◌≡◌, refl, ap, sym, ◌∙◌, arith, Text, codes, same_text, trim_space, Result, ok, err,
}
use password_hook_service.Prelude.Effects.{Exec, pure}
use password_hook_service.Config.Defs.{Config}
use password_hook_service.Secrets.{
  VaultError, response_error, other_error, sanitize_secret_error, Call, Vault, SecretsError,
  required, checked, get_required_secret, with_connection_string, load_service_bus_unless,
  after_getter, with_getter, resolve_checked, unsupported_source, load_service_bus, with_secrets,
  load_key, load_graph, load_others, resolve_key_vault, resolve,
}

pub record IsBusLoaded (c bus : Config) : Type 0 where
  pub connection_string :
      (if same_text c.service_bus_auth_mode (codes "managed_identity")
        then true
        else not (is_blank bus.service_bus_connection_string))
      ≡ true
  pub others : bus ≡ record c { service_bus_connection_string = bus.service_bus_connection_string }

-- The secrets are there, and the rest is as it was.
pub record IsLoaded (c loaded : Config) : Type 0 where
  pub hmac_secret : is_blank loaded.hmac_secret ≡ false
  pub graph_client_secret : is_blank loaded.graph_client_secret ≡ false
  pub encryption_key : is_blank loaded.password_encryption_key_b64 ≡ false
  pub connection_string :
      (if same_text c.service_bus_auth_mode (codes "managed_identity")
        then true
        else not (is_blank loaded.service_bus_connection_string))
      ≡ true
  pub others : loaded ≡ record c {
    hmac_secret = loaded.hmac_secret;
    graph_client_secret = loaded.graph_client_secret;
    password_encryption_key_b64 = loaded.password_encryption_key_b64;
    service_bus_connection_string = loaded.service_bus_connection_string;
  }

abbrev NotBlank : Result SecretsError Text → Type 0
NotBlank r = (x : Text) → r ≡ ok x → is_blank x ≡ false

module _ (v : Vault) where
  required-not_blank :
      (name value : Text) {x : Text} → required name (trim_space value) ≡ ok x → is_blank x ≡ false
  unfolding required
  required-not_blank name value e = ground (arith, is_blank-trim_space value)

  checked-not_blank :
      (name : Text) (answer : Result VaultError Text) (h : List Call) {x : Text}
      → (checked v name answer h).0 ≡ ok x
      → is_blank x ≡ false
  unfolding checked
  checked-not_blank name (ok value) h e = required-not_blank name value e
  checked-not_blank name (err x) h e = cc e

  get_required_secret-NotBlank :
      (name : Text) (h : List Call) → NotBlank (get_required_secret v name h).0
  unfolding get_required_secret
  get_required_secret-NotBlank name h x e = checked-not_blank name _ _ e

  abbrev bus_config : Config → Text → Config
  bus_config c value = record c { service_bus_connection_string = value }

  connection_string-IsLoaded :
      (c : Config) (r : Result SecretsError Text) {loaded : Config}
      → NotBlank r
      → with_connection_string v c r ≡ ok loaded
      → IsBusLoaded c loaded
  unfolding with_connection_string
  connection_string-IsLoaded c (err e) b q = cc q
  connection_string-IsLoaded c (ok value) {loaded} b q =
      let same : bus_config c value ≡ loaded = cc q in
      let there = b value refl in
      let all : IsBusLoaded c (bus_config c value) = record {
        connection_string = ground (arith, there);
        others = refl;
      } in
      rw same at all

  unless-IsLoaded :
      (managed : Bool) (c : Config) (h : List Call) {loaded : Config}
      → same_text c.service_bus_auth_mode (codes "managed_identity") ≡ managed
      → (load_service_bus_unless v managed c h).0 ≡ ok loaded
      → IsBusLoaded c loaded
  unfolding load_service_bus_unless
  unless-IsLoaded true c h {loaded} m q =
      let same : c ≡ loaded = cc q in
      record {
        connection_string = rw m refl;
        others = sym same ∙ ap (λ d. bus_config c d.service_bus_connection_string) same;
      }
  unless-IsLoaded false c h m q =
      connection_string-IsLoaded c _
        (get_required_secret-NotBlank c.key_vault_secret_names.service_bus_connection_string h) q

  load_service_bus-IsLoaded :
      (c : Config) (h : List Call) {loaded : Config}
      → (load_service_bus v c h).0 ≡ ok loaded
      → IsBusLoaded c loaded
  unfolding load_service_bus
  load_service_bus-IsLoaded c h q = unless-IsLoaded _ c h refl q

  abbrev full_config : Config → (hmac graph key : Text) → Config
  full_config c hmac graph key = record c {
    hmac_secret = hmac;
    graph_client_secret = graph;
    password_encryption_key_b64 = key;
  }

  with_secrets-IsLoaded :
      (c bus : Config) (hmac graph : Text) (key : Result SecretsError Text) {loaded : Config}
      → IsBusLoaded c bus
      → is_blank hmac ≡ false
      → is_blank graph ≡ false
      → NotBlank key
      → with_secrets v bus hmac graph key ≡ ok loaded
      → IsLoaded c loaded
  unfolding with_secrets
  with_secrets-IsLoaded c bus hmac graph (err e) i b1 b2 b3 q = cc q
  with_secrets-IsLoaded c bus hmac graph (ok key) {loaded} i b1 b2 b3 q =
      let same : full_config bus hmac graph key ≡ loaded = cc q in
      let all : IsLoaded c (full_config bus hmac graph key) = record {
        hmac_secret = b1;
        graph_client_secret = b2;
        encryption_key = b3 key refl;
        connection_string = i.connection_string;
        others = ap (λ d. full_config d hmac graph key) i.others;
      } in
      rw same at all

  load_key-IsLoaded :
      (c bus : Config) (hmac : Text) (graph : Result SecretsError Text) (h : List Call)
      {loaded : Config}
      → IsBusLoaded c bus
      → is_blank hmac ≡ false
      → NotBlank graph
      → (load_key v bus hmac graph h).0 ≡ ok loaded
      → IsLoaded c loaded
  unfolding load_key
  load_key-IsLoaded c bus hmac (err e) h i b1 b2 q = cc q
  load_key-IsLoaded c bus hmac (ok graph) h i b1 b2 q =
      with_secrets-IsLoaded c bus hmac graph _ i b1 (b2 graph refl)
        (get_required_secret-NotBlank bus.key_vault_secret_names.password_encryption_key h) q

  load_graph-IsLoaded :
      (c : Config) (hmac : Text) (r : Result SecretsError Config) (h : List Call) {loaded : Config}
      → ((bus : Config) → r ≡ ok bus → IsBusLoaded c bus)
      → is_blank hmac ≡ false
      → (load_graph v hmac r h).0 ≡ ok loaded
      → IsLoaded c loaded
  unfolding load_graph
  load_graph-IsLoaded c hmac (err e) h i b1 q = cc q
  load_graph-IsLoaded c hmac (ok bus) h i b1 q =
      load_key-IsLoaded c bus hmac _ _ (i bus refl) b1
        (get_required_secret-NotBlank bus.key_vault_secret_names.graph_client_secret h) q

  load_others-IsLoaded :
      (c : Config) (hmac : Result SecretsError Text) (h : List Call) {loaded : Config}
      → NotBlank hmac
      → (load_others v c hmac h).0 ≡ ok loaded
      → IsLoaded c loaded
  unfolding load_others
  load_others-IsLoaded c (err e) h b1 q = cc q
  load_others-IsLoaded c (ok hmac) h b1 q =
      let (bus, t) = load_service_bus v c h in
      load_graph-IsLoaded c hmac bus t (λ x e. load_service_bus-IsLoaded c h e) (b1 hmac refl) q

  resolve_key_vault-IsLoaded :
      (c : Config) (h : List Call) {loaded : Config}
      → (resolve_key_vault v c h).0 ≡ ok loaded
      → IsLoaded c loaded
  unfolding resolve_key_vault
  resolve_key_vault-IsLoaded c h q =
      load_others-IsLoaded c _ _
        (get_required_secret-NotBlank c.key_vault_secret_names.hmac_secret h) q

  made-IsLoaded :
      (c : Config) (failure : Option Text) (h : List Call) {loaded : Config}
      → (after_getter v c failure h).0 ≡ ok loaded
      → IsLoaded c loaded
  unfolding after_getter
  made-IsLoaded c none h q = resolve_key_vault-IsLoaded c h q
  made-IsLoaded c (some e) h q = cc q

  getter-IsLoaded :
      (c : Config) (has_getter : Bool) (h : List Call) {loaded : Config}
      → (with_getter v c has_getter h).0 ≡ ok loaded
      → IsLoaded c loaded
  unfolding with_getter
  getter-IsLoaded c true h q = resolve_key_vault-IsLoaded c h q
  getter-IsLoaded c false h q = made-IsLoaded c _ _ q

  abbrev selected : Config → (has_getter chosen : Bool) → Exec Call (Result SecretsError Config)
  selected c has_getter chosen =
      if chosen then with_getter v c has_getter else pure (err unsupported_source)

  selected-IsLoaded :
      (c : Config) (has_getter chosen : Bool) (h : List Call) {loaded : Config}
      → (selected c has_getter chosen h).0 ≡ ok loaded
      → IsLoaded c loaded
  selected-IsLoaded c has_getter true h q = getter-IsLoaded c has_getter h q
  selected-IsLoaded c has_getter false h q = cc q

  source-IsLoaded :
      (c : Config) (has_getter : Bool) (invalid : Option Text) (h : List Call) {loaded : Config}
      → same_text c.secrets_source (codes "env") ≡ false
      → (resolve_checked v c has_getter invalid h).0 ≡ ok loaded
      → IsLoaded c loaded
  unfolding resolve_checked
  source-IsLoaded c has_getter (some e) h s q = cc q
  source-IsLoaded c has_getter none h s q = selected-IsLoaded c has_getter _ h (rw s at q)

  -- A configuration that Resolve takes from the vault is complete: no secret of it is blank (the connection string of
  -- Service Bus is needed only without a managed identity), and all other fields are as they were.
  pub resolve-IsLoaded :
      (c : Config) (has_getter : Bool) (h : List Call) {loaded : Config}
      → same_text c.secrets_source (codes "env") ≡ false
      → (resolve v c has_getter h).0 ≡ ok loaded
      → IsLoaded c loaded
  unfolding resolve
  resolve-IsLoaded c has_getter h s q = source-IsLoaded c has_getter _ h s q

-- An error of the vault is reported without its detail: what is said of it depends on the status, the
-- code and the type alone.
sanitize-ignores_detail :
    (status_text : ℕ → Text) (status : ℕ) (code type_name detail other : Text)
    → (sanitize_secret_error status_text (response_error status code detail)
        ≡ sanitize_secret_error status_text (response_error status code other))
      × (sanitize_secret_error status_text (other_error type_name detail)
          ≡ sanitize_secret_error status_text (other_error type_name other))
unfolding sanitize_secret_error
sanitize-ignores_detail status_text status code type_name detail other = (refl, refl)
