-- ===== src/Middleware/Source.antt =====
-- The source address of internal/middleware/ratelimit.go, and RateLimiter.Wrap. An address is its
-- bytes; a network is its test of membership. The parsers of net and net/netip are parameters.
pub mod Trust
use password_hook_service.Prelude.{
  ℕ, zero, suc, ◌+◌, Bool, true, false, not, ◌&&◌, ◌||◌, Option, none, some, List, [], ◌∷◌, ◌++◌,
  ◌==◌, if◌then◌else◌, any, is_empty, length, Text, trim_space, is_blank,
}
use password_hook_service.Middleware.RateLimit.{RateLimiter, Counts, allow}

abbrev pub Ip : Type 0
Ip = List ℕ

-- (*net.IPNet).Contains
abbrev pub Network : Type 0
Network = Ip → Bool

-- netip.ParseAddr with the zone and the unmapped bytes, net.SplitHostPort, strconv.ParseUint(_, 10,
-- 16), net.ParseCIDR, and net.IP.String.
pub record Net : Type 0 where
  pub parse_addr : Text → Option (Text × Ip)
  pub split_host_port : Text → Option (Text × Text)
  pub parse_port : Text → Option ℕ
  pub parse_cidr : Text → Option Network
  pub ip_string : Option Ip → Text

pub data Resolution : Type 0 where
  invalid_peer direct_peer trusted_forwarded invalid_forwarded_chain : Resolution

pub record SourceIp : Type 0 where
  pub peer_ip : Option Ip
  pub resolved_client_ip : Option Ip
  pub peer_trusted : Bool
  pub forwarded_header_count : ℕ
  pub forwarded_hop_count : ℕ
  pub source_resolution : Resolution

unfoldable pub contains_ip : List Network → Ip → Bool
contains_ip cidrs ip = any (λ cidr. cidr ip) cidrs

-- strings.Split(s, ",")
split_from : Text → Text → List Text
split_from cur [] = cur ∷ []
split_from cur (c ∷ s) =
    let closed = split_from [] s in
    let longer = split_from (cur ++ c ∷ []) s in if c == b',' then cur ∷ closed else longer

unfoldable pub split_commas : Text → List Text
unfolding split_from
split_commas s = split_from [] s

-- X-Forwarded-For occurs once and is not blank.
unfoldable pub single_value : List Text → Option Text
single_value [] = none
single_value (v ∷ []) = if is_blank v then none else some v
single_value (v ∷ w ∷ vs) = none

hop_count : Option Text → ℕ
hop_count none = 0
hop_count (some v) = length (split_commas v)

-- The second loop, from the last hop back: the first that is no trusted proxy.
unfoldable pub last_untrusted : List Network → List Ip → Option Ip
last_untrusted trusted [] = none
last_untrusted trusted (hop ∷ hops) = elim (last_untrusted trusted hops) [
  | some ip ↦ some ip
  | none ↦ if contains_ip trusted hop then none else some hop
]

resolution_of : Option Ip → Resolution
resolution_of none = invalid_forwarded_chain
resolution_of (some ip) = trusted_forwarded

unfoldable pub source_allowed : List Network → Option Ip → Bool
source_allowed allowed none = false
source_allowed allowed (some ip) = not (is_empty allowed) && contains_ip allowed ip

module _ (n : Net) where
  without_zone : Option (Text × Ip) → Option Ip
  without_zone none = none
  without_zone (some (zone, ip)) = if is_empty zone then some ip else none

  parse_host : Option (Text × Text) → Option Ip
  unfolding without_zone
  parse_host none = none
  parse_host (some (host, port)) =
      if is_empty host || is_empty port
      then none
      else elim (n.parse_port port) [ none ↦ none | some p ↦ without_zone (n.parse_addr host) ]

  -- `none` stands for (nil, false).
  unfoldable pub parse_ip_with_optional_port : Text → Option Ip
  unfolding without_zone parse_host
  parse_ip_with_optional_port value = elim (without_zone (n.parse_addr (trim_space value))) [
    | some ip ↦ some ip
    | none ↦ parse_host (n.split_host_port (trim_space value))
  ]

  parse_one : Option Network → List Network → List Network
  parse_one none rest = rest
  parse_one (some cidr) rest = cidr ∷ rest

  -- A value that does not parse is dropped.
  unfoldable pub parse_cidrs : List Text → List Network
  unfolding parse_one
  parse_cidrs [] = []
  parse_cidrs (v ∷ vs) = parse_one (n.parse_cidr (trim_space v)) (parse_cidrs vs)

  cons_hop : Option Ip → Option (List Ip) → Option (List Ip)
  cons_hop (some ip) (some hops) = some (ip ∷ hops)
  cons_hop _ _ = none

  -- The first loop: every hop must be an address.
  unfoldable pub parse_hops : List Text → Option (List Ip)
  unfolding cons_hop
  parse_hops [] = some []
  parse_hops (v ∷ vs) = cons_hop (parse_ip_with_optional_port v) (parse_hops vs)

  unfoldable pub forwarded_client : List Network → Option Text → Option Ip
  forwarded_client trusted none = none
  forwarded_client trusted (some value) = elim (parse_hops (split_commas value)) [
    | none ↦ none
    | some hops ↦ last_untrusted trusted hops
  ]

  resolve_peer : List Network → List Text → Option Ip → SourceIp
  unfolding resolution_of hop_count
  resolve_peer trusted values none = record {
    peer_ip = none;
    resolved_client_ip = none;
    peer_trusted = false;
    forwarded_header_count = 0;
    forwarded_hop_count = 0;
    source_resolution = invalid_peer;
  }
  resolve_peer trusted values (some peer) =
      let trusted_peer = not (is_empty trusted) && contains_ip trusted peer in
      let client = forwarded_client trusted (single_value values) in
      record {
        peer_ip = some peer;
        resolved_client_ip = if trusted_peer then client else some peer;
        peer_trusted = trusted_peer;
        forwarded_header_count = length values;
        forwarded_hop_count = hop_count (single_value values);
        source_resolution = if trusted_peer then resolution_of client else direct_peer;
      }

  -- `remote` is r.RemoteAddr, and `values` the values of X-Forwarded-For.
  unfoldable pub resolve_source_ip : List Network → Text → List Text → SourceIp
  unfolding resolve_peer
  resolve_source_ip trusted remote values =
      resolve_peer trusted values (parse_ip_with_optional_port remote)

pub data Refusal : Type 0 where
  source_ip_not_allowed request_rate_exceeded : Refusal

-- The middleware: its limits and its two sets of networks.
pub record SourceGuard : Type 0 where
  pub limiter : RateLimiter
  pub allowed : List Network
  pub trusted : List Network

-- RateLimiter.Wrap: `none` if the next handler is called.
unfoldable pub wrap : Net → SourceGuard → Text → List Text → ℕ → Counts → Option Refusal × Counts
wrap n g remote values now counts =
    let source = (resolve_source_ip n g.trusted remote values).resolved_client_ip in
    if not (source_allowed g.allowed source)
    then (some source_ip_not_allowed, counts)
    else (let (ok, counts') = allow g.limiter (n.ip_string source) now counts in
        (if ok then none else some request_rate_exceeded, counts'))
