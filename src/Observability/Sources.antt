-- ===== src/Observability/Sources.antt =====
-- sourceIPResolutionAttrs of internal/middleware/ratelimit.go: what is logged of a source that was not allowed.
use password_hook_service.Prelude.{
  Bool, true, false, Option, none, some, [], ◌∷◌, ◌++◌, Text, codes,
}
use password_hook_service.Middleware.Source.{
  Ip, Net, Resolution, invalid_peer, direct_peer, trusted_forwarded, invalid_forwarded_chain,
  SourceIp,
}
use password_hook_service.Observability.{LogAttrs, sprint}

abbrev pub bool_text : Bool → Text
bool_text true = codes "true"
bool_text false = codes "false"

abbrev pub resolution_text : Resolution → Text
resolution_text invalid_peer = codes "invalid_peer"
resolution_text direct_peer = codes "direct_peer"
resolution_text trusted_forwarded = codes "trusted_forwarded"
resolution_text invalid_forwarded_chain = codes "invalid_forwarded_chain"

-- `if ip != nil { … }`
abbrev pub unless_nil : Net → Text → Option Ip → LogAttrs
unless_nil n key none = []
unless_nil n key (some ip) = (key, n.ip_string (some ip)) ∷ []

unfoldable pub source_ip_resolution_attrs : Net → SourceIp → LogAttrs
unfolding sprint
source_ip_resolution_attrs n r =
    (codes "peerTrusted", bool_text r.peer_trusted)
      ∷ (codes "forwardedHeaderCount", sprint r.forwarded_header_count)
      ∷ (codes "forwardedHopCount", sprint r.forwarded_hop_count)
      ∷ (codes "sourceResolution", resolution_text r.source_resolution)
      ∷ unless_nil n (codes "peerIp") r.peer_ip
    ++ unless_nil n (codes "resolvedClientIp") r.resolved_client_ip
