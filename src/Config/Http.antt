-- ===== src/Config/Http.antt =====
-- ValidateHTTP of internal/config/config.go, with the tests of the lists of networks.
use password_hook_service.Prelude.{
  Bool, not, ◌&&◌, ◌||◌, Option, none, some, List, [], ◌∷◌, if◌then◌else◌, ◌==◌, any, Text, codes,
  trim_space, is_blank,
}
use password_hook_service.Config.Texts.{has_prefix, contains}
use password_hook_service.Config.Defs.{Network, Parsers, Config, and_then, reject_if, is_positive}

unfoldable pub has_non_blank : List Text → Bool
has_non_blank values = any (λ value. not (is_blank value)) values

module _ (p : Parsers) where
  unfoldable pub validate_cidrs : List Text → Option Text
  validate_cidrs [] = none
  validate_cidrs (value ∷ values) =
      let rest = validate_cidrs values in
      if is_blank value then rest else elim (p.parse_cidr (trim_space value)) [
        | none ↦ some (codes "invalid CIDR")
        | some n ↦ rest
      ]

  -- (ones, _ := network.Mask.Size(); ones == 0)
  unfoldable pub reject_unrestricted_cidrs : List Text → Option Text
  reject_unrestricted_cidrs [] = none
  reject_unrestricted_cidrs (value ∷ values) =
      let rest = reject_unrestricted_cidrs values in
      if is_blank value then rest else elim (p.parse_cidr (trim_space value)) [
        | none ↦ some (codes "invalid CIDR")
        | some n ↦ reject_if (n.ones == 0) (codes "unrestricted CIDR") rest
      ]

  -- The inner loop, for one trusted network.
  unfoldable pub reject_overlap : Network → List Text → Option Text
  reject_overlap t [] = none
  reject_overlap t (value ∷ values) =
      let rest = reject_overlap t values in
      if is_blank value then rest else elim (p.parse_cidr (trim_space value)) [
        | none ↦ some (codes "invalid CIDR")
        | some n ↦ reject_if (t.holds n.ip || n.holds t.ip) (codes "must not overlap") rest
      ]

  unfoldable pub reject_overlapping_cidrs : List Text → List Text → Option Text
  reject_overlapping_cidrs [] portal = none
  reject_overlapping_cidrs (value ∷ values) portal =
      let rest = reject_overlapping_cidrs values portal in
      if is_blank value then rest else elim (p.parse_cidr (trim_space value)) [
        | none ↦ some (codes "invalid CIDR")
        | some t ↦ and_then (reject_overlap t portal) rest
      ]

  -- The `default` of ValidateHTTP.
  unfoldable pub validate_http_cidrs : Config → Option Text
  validate_http_cidrs c = and_then (validate_cidrs c.portal_allowed_cidrs) (
      and_then (validate_cidrs c.trusted_proxy_cidrs) (
        and_then (reject_unrestricted_cidrs c.trusted_proxy_cidrs)
          (reject_overlapping_cidrs c.trusted_proxy_cidrs c.portal_allowed_cidrs)))

  unfoldable pub validate_http : Config → Option Text
  unfolding has_non_blank
  validate_http c = and_then c.direct_client_mode_err (
      reject_if (is_blank c.http_addr) (codes "HTTP_ADDR is required") (
        reject_if (is_blank c.hmac_secret) (codes "HOOK_HMAC_SECRET is required") (
          reject_if (is_blank c.entra_primary_domain) (codes "ENTRA_PRIMARY_DOMAIN is required") (
            reject_if (contains (codes "@") c.entra_primary_domain)
              (codes "ENTRA_PRIMARY_DOMAIN must be a domain")
              (reject_if (contains (codes "@") c.entra_fallback_domain)
                (codes "ENTRA_FALLBACK_DOMAIN must be a domain")
                (reject_if (not (has_prefix (codes "https://") c.problem_base_url))
                  (codes "PROBLEM_BASE_URL must start with https://")
                  (reject_if (not (is_positive c.hmac_clock_skew))
                    (codes "HMACClockSkew must be positive")
                    (reject_if (not (is_positive c.nonce_ttl)) (codes "NonceTTL must be positive") (
                      reject_if (not (has_non_blank c.portal_allowed_cidrs))
                        (codes "PORTAL_ALLOWED_CIDRS is required")
                        (reject_if (c.direct_client_mode && has_non_blank c.trusted_proxy_cidrs)
                          (codes "TRUSTED_PROXY_CIDRS must be empty when DIRECT_CLIENT_MODE=true")
                          (reject_if
                            (not c.direct_client_mode && not (has_non_blank c.trusted_proxy_cidrs))
                            (codes "TRUSTED_PROXY_CIDRS is required when DIRECT_CLIENT_MODE=false")
                            (reject_if (not (is_positive c.rate_limit_per_ip))
                              (codes "RateLimitPerIP must be positive")
                              (reject_if (not (is_positive c.rate_limit_window))
                                (codes "RateLimitWindow must be positive")
                                (reject_if (not (is_positive c.hook_max_body_bytes))
                                  (codes "HookMaxBodyBytes must be positive")
                                  (validate_http_cidrs c)))))))))))))))
