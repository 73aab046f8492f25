-- ===== src/Tests/Sources.antt =====
-- The source address at concrete inputs.
use password_hook_service.Prelude.{
  true, false, Option, none, some, List, [], ◌∷◌, ◌≡◌, refl, Text, codes, same_text, trim_space,
  is_blank,
}
use password_hook_service.Middleware.RateLimit.{zero_window, allow}
use password_hook_service.Middleware.Source.{
  Ip, Network, Net, SourceGuard, contains_ip, split_commas, single_value,
  parse_ip_with_optional_port, parse_hops, last_untrusted, resolve_source_ip, forwarded_client,
  source_allowed, wrap,
}
use password_hook_service.Middleware.Source.Trust.{resolve_source_ip-forwarded}

abbrev text_of : Option Ip → Text
text_of none = []
text_of (some ip) = ip

-- A network of one address, and addresses that are their texts.
abbrev net : Net
net = record {
  parse_addr = λ t. some ([], t);
  split_host_port = λ t. none;
  parse_port = λ t. none;
  parse_cidr = λ t. some (same_text t);
  ip_string = text_of;
}

abbrev proxy : Ip
proxy = codes "10.0.0.1"

abbrev trusted : List Network
trusted = same_text proxy ∷ []

abbrev header : Text
header = codes "6.6.6.6, 2.2.2.2 ,10.0.0.1"

parse_proxy : parse_ip_with_optional_port net proxy ≡ some proxy
unfolding parse_ip_with_optional_port trim_space
parse_proxy = refl

parse_client : parse_ip_with_optional_port net (codes "2.2.2.2") ≡ some (codes "2.2.2.2")
unfolding parse_ip_with_optional_port trim_space
parse_client = refl

proxy_trusted : contains_ip trusted proxy ≡ true
unfolding contains_ip same_text
proxy_trusted = refl

client_not_trusted : contains_ip trusted (codes "2.2.2.2") ≡ false
unfolding contains_ip same_text
client_not_trusted = refl

header_single : single_value (header ∷ []) ≡ some header
unfolding single_value trim_space is_blank
header_single = refl

header_hops :
    parse_hops net (split_commas header) ≡ some (codes "6.6.6.6" ∷ codes "2.2.2.2" ∷ proxy ∷ [])
unfolding parse_hops split_commas parse_ip_with_optional_port trim_space
header_hops = refl

resolve_source_ip-forwarded_example :
    (resolve_source_ip net trusted proxy (header ∷ [])).resolved_client_ip ≡ some (codes "2.2.2.2")
resolve_source_ip-forwarded_example =
    resolve_source_ip-forwarded net trusted proxy (header ∷ []) (codes "6.6.6.6" ∷ [])
      (codes "2.2.2.2") (proxy ∷ []) parse_proxy proxy_trusted header_single header_hops
      client_not_trusted (proxy_trusted, tt)

client_resolved :
    (resolve_source_ip net trusted proxy (header ∷ [])).resolved_client_ip ≡ some (codes "2.2.2.2")
unfolding resolve_source_ip forwarded_client single_value split_commas parse_hops
    parse_ip_with_optional_port last_untrusted contains_ip same_text trim_space is_blank
client_resolved = refl

abbrev guard : SourceGuard
guard = record {
  limiter = record { limit_per_ip = 2; window = 10 };
  allowed = same_text (codes "2.2.2.2") ∷ [];
  trusted = trusted;
}

guard_passes : (wrap net guard proxy (header ∷ []) 5 (λ k. zero_window)).0 ≡ none
unfolding wrap resolve_source_ip forwarded_client single_value split_commas parse_hops
    parse_ip_with_optional_port last_untrusted contains_ip source_allowed allow same_text trim_space
    is_blank
guard_passes = refl
