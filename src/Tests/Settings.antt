-- ===== src/Tests/Settings.antt =====
-- The configuration at a concrete input.
use password_hook_service.Prelude.{
  ℕ, Bool, true, false, Option, none, some, [], ◌∷◌, ◌≡◌, ◌≢◌, ◌||◌, refl, arith, Text, codes, ◌==◌,
  pos, ascii, same_text, trim_space, is_blank,
}
use password_hook_service.Config.Texts.{has_prefix, contains}
use password_hook_service.Config.Defs.{Network, Parsers, Config}
use password_hook_service.Config.Http.{
  has_non_blank, validate_cidrs, reject_unrestricted_cidrs, reject_overlap,
  reject_overlapping_cidrs, validate_http_cidrs, validate_http,
}
use password_hook_service.Config.Services.{
  validate_service_bus, validate_sync_status, validate_observability,
  validate_secret_loading_inputs,
}
use password_hook_service.Config.{validate}
use password_hook_service.Config.TrustBoundary.{test_of, IsNested, validate-apart}
use password_hook_service.Middleware.Source.{Ip, Net, contains_ip, parse_cidrs}

-- Networks that are told by the first byte of an address, each written as that byte.
abbrev pub starts_with : ℕ → Ip → Bool
starts_with n [] = false
starts_with n (b ∷ rest) = b == n

abbrev pub block : ℕ → Network
block n = record { ip = n ∷ []; ones = 8; holds = starts_with n }

abbrev pub parse_block : Text → Option Network
parse_block [] = none
parse_block (c ∷ []) = some (block c)
parse_block (c ∷ d ∷ t) = none

abbrev pub parsers : Parsers
parsers = record { parse_cidr = parse_block; is_uuid = λ t. true }

abbrev pub net : Net
net = record {
  parse_addr = λ t. some ([], t);
  split_host_port = λ t. none;
  parse_port = λ t. none;
  parse_cidr = λ t. test_of (parse_block t);
  ip_string = λ ip. [];
}

blocks-nested :
    (m n : ℕ) (ip : Ip) → starts_with m ip ≡ true → starts_with n ip ≡ true → (n == m) ≡ true
blocks-nested m n [] h k = cc h
blocks-nested m n (b ∷ rest) h k = ground arith

blocks_meet :
    (m n : ℕ) (ip : Ip)
    → (block m).holds ip ≡ true
    → (block n).holds ip ≡ true
    → ((block m).holds (block n).ip || (block n).holds (block m).ip) ≡ true
blocks_meet m n ip h k = rw (blocks-nested m n ip h k)

pub parsers-IsNested : IsNested parsers
parsers-IsNested [] t a b ip e f h k = cc e
parsers-IsNested (c ∷ d ∷ s) t a b ip e f h k = cc e
parsers-IsNested (c ∷ []) [] a b ip e f h k = cc f
parsers-IsNested (c ∷ []) (d ∷ x ∷ t) a b ip e f h k = cc f
parsers-IsNested (c ∷ []) (d ∷ []) a b ip e f h k =
    let a_is : a ≡ block c = cc e in
    let b_is : b ≡ block d = cc f in
    rw (a_is, b_is) (blocks_meet c d ip (rw a_is at h) (rw b_is at k))

abbrev pub direct : Config
direct = record {
  secrets_source = codes "env";
  key_vault_url = [];
  key_vault_secret_names = record {
    hmac_secret = [];
    service_bus_connection_string = [];
    graph_client_secret = [];
    password_encryption_key = [];
  };
  http_addr = codes ":8080";
  hmac_secret = codes "s";
  entra_primary_domain = codes "n.tw";
  entra_fallback_domain = [];
  problem_base_url = codes "https://n.tw";
  hmac_clock_skew = pos 30;
  nonce_ttl = pos 60;
  portal_allowed_cidrs = (b'p' ∷ []) ∷ [];
  trusted_proxy_cidrs = (b't' ∷ []) ∷ [];
  direct_client_mode = false;
  rate_limit_per_ip = pos 500;
  rate_limit_window = pos 1;
  hook_max_body_bytes = pos 65536;
  service_bus_auth_mode = [];
  service_bus_namespace_fqdn = [];
  service_bus_connection_string = codes "c";
  service_bus_queue_name = codes "q";
  service_bus_dead_letter_queue_name = codes "d";
  password_message_ttl = pos 300;
  sync_status_store = codes "memory";
  redis_host = [];
  redis_port = pos 0;
  redis_key_prefix = [];
  sync_status_terminal_ttl = pos 0;
  azure_client_id = [];
  password_encryption_key_b64 = codes "k";
  password_encryption_key_id = codes "k1";
  graph_tenant_id = codes "t";
  graph_client_id = codes "g";
  graph_client_secret = codes "s";
  observability_exporter = [];
  otlp_exporter_endpoint = [];
  azure_monitor_metric_resource_id = [];
  azure_monitor_metric_region = [];
  azure_monitor_metric_namespace = [];
  direct_client_mode_err = none;
  redis_port_err = none;
  password_message_ttl_err = none;
  sync_status_terminal_ttl_err = none;
}

pub direct_valid : validate ascii parsers direct ≡ none
unfolding validate validate_http validate_http_cidrs validate_cidrs reject_unrestricted_cidrs
    reject_overlap reject_overlapping_cidrs has_non_blank validate_service_bus validate_sync_status
    validate_observability validate_secret_loading_inputs has_prefix contains same_text trim_space
    is_blank
direct_valid = refl

proxy_held : contains_ip (parse_cidrs net direct.trusted_proxy_cidrs) (b't' ∷ 1 ∷ []) ≡ true
unfolding contains_ip parse_cidrs trim_space
proxy_held = refl

validate-apart_example :
    contains_ip (parse_cidrs net direct.portal_allowed_cidrs) (b't' ∷ 1 ∷ []) ≢ true
validate-apart_example =
    validate-apart parsers net (λ t. refl) refl parsers-IsNested ascii direct (b't' ∷ 1 ∷ [])
      direct_valid proxy_held
