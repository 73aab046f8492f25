-- ===== src/Config/TrustBoundary.antt =====
-- ValidateHTTP of internal/config/config.go, and the networks that internal/middleware then reads.
use password_hook_service.Prelude.{
  Bool, true, false, ◌||◌, Option, none, some, List, [], ◌∷◌, Text, trim_space, is_blank, ◌≡◌, ◌≢◌,
  arith, Unicode, Bool-cases, Option-cases, inl, inr, ◌⊎◌,
}
use password_hook_service.Config.Defs.{Network, Parsers, Config, and_then}
use password_hook_service.Config.Http.{
  reject_overlap, reject_overlapping_cidrs, validate_http_cidrs, validate_http,
}
use password_hook_service.Config.{validate}
use password_hook_service.Middleware.Source.{Ip, Net, contains_ip, parse_cidrs}

-- The membership test of what ParseCIDR returns.
abbrev pub test_of : Option Network → Option (Ip → Bool)
test_of none = none
test_of (some n) = some n.holds

-- Two networks that share an address are nested: one holds the base of the other. This is what
-- CIDR blocks of ParseCIDR are like.
abbrev pub IsNested : Parsers → Type 0
IsNested p =
    (s t : Text) (a b : Network) (ip : Ip)
    → p.parse_cidr s ≡ some a
    → p.parse_cidr t ≡ some b
    → a.holds ip ≡ true
    → b.holds ip ≡ true
    → (a.holds b.ip || b.holds a.ip) ≡ true

and_then-none : (o rest : Option Text) → and_then o rest ≡ none → (o ≡ none) × (rest ≡ none)
and_then-none o rest h = ground arith

-- The tests of ValidateHTTP before its `default` have all passed.
validate_http-cidrs :
    (p : Parsers) (c : Config) → validate_http p c ≡ none → validate_http_cidrs p c ≡ none
unfolding validate_http
validate_http-cidrs p c v = ground arith

validate-http :
    (u : Unicode) (p : Parsers) (c : Config) → validate u p c ≡ none → validate_http p c ≡ none
unfolding validate
validate-http u p c v = (and_then-none _ _ (and_then-none _ _ v).1).0

validate_http_cidrs-overlapping :
    (p : Parsers) (c : Config)
    → validate_http_cidrs p c ≡ none
    → reject_overlapping_cidrs p c.trusted_proxy_cidrs c.portal_allowed_cidrs ≡ none
unfolding validate_http_cidrs
validate_http_cidrs-overlapping p c v = ground arith

blank-trim_space : (s : Text) → is_blank s ≡ true → trim_space s ≡ []
unfolding is_blank
blank-trim_space s h = ground arith

-- The middleware reads with the same ParseCIDR as the validation, and an empty text is no network.
module _ (p : Parsers) (n : Net) (same : (t : Text) → n.parse_cidr t ≡ test_of (p.parse_cidr t))
    (empty : p.parse_cidr [] ≡ none) (nested : IsNested p) where
  not_blank :
      (value : Text) (a : Network)
      → p.parse_cidr (trim_space value) ≡ some a
      → is_blank value ≡ false
  not_blank value a e = elim (Bool-cases (is_blank value)) [
    | inl b ↦
        let blank : p.parse_cidr (trim_space value) ≡ none = rw (blank-trim_space value b) empty in
        cc (e, blank)
    | inr b ↦ b
  ]

  -- An address that a list of networks holds is held by the first or by the rest.
  contains-cases :
      (value : Text) (values : List Text) (ip : Ip)
      → contains_ip (parse_cidrs n (value ∷ values)) ip ≡ true
      → ((a : Network) × (p.parse_cidr (trim_space value) ≡ some a) × (a.holds ip ≡ true))
        ⊎ (contains_ip (parse_cidrs n values) ip ≡ true)
  unfolding parse_cidrs contains_ip
  contains-cases value values ip h = elim (Option-cases (p.parse_cidr (trim_space value))) [
    | inl e ↦ inr (rw (same (trim_space value), e) at h)
    | inr (a, e) ↦ elim (Bool-cases (a.holds ip)) [
      | inl t ↦ inl (a, e, t)
      | inr f ↦ inr (rw (same (trim_space value), e, f) at h)
    ]
  ]

  overlap-step :
      (t : Network) (value : Text) (values : List Text)
      → reject_overlap p t (value ∷ values) ≡ none
      → (reject_overlap p t values ≡ none)
        × ((a : Network)
            → p.parse_cidr (trim_space value) ≡ some a
            → (t.holds a.ip || a.holds t.ip) ≡ false)
  unfolding reject_overlap
  overlap-step t value values r = (
    ground arith,
    λ a e. let b = not_blank value a e in let r' = rw (b, e) at r in ground (arith, r'),
  )

  overlap-apart :
      (s : Text) (t : Network) (portal : List Text) (ip : Ip)
      → p.parse_cidr s ≡ some t
      → reject_overlap p t portal ≡ none
      → t.holds ip ≡ true
      → contains_ip (parse_cidrs n portal) ip ≢ true
  unfolding parse_cidrs contains_ip
  overlap-apart s t [] ip e r held h = cc h
  overlap-apart s t (value ∷ values) ip e r held h =
      let (later, here) = overlap-step t value values r in
      elim (contains-cases value values ip h) [
        | inl (a, f, k) ↦ cc (here a f, nested s (trim_space value) t a ip e f held k)
        | inr k ↦ overlap-apart s t values ip e later held k
      ]

  overlapping-step :
      (value : Text) (values portal : List Text)
      → reject_overlapping_cidrs p (value ∷ values) portal ≡ none
      → (reject_overlapping_cidrs p values portal ≡ none)
        × ((a : Network)
            → p.parse_cidr (trim_space value) ≡ some a
            → reject_overlap p a portal ≡ none)
  unfolding reject_overlapping_cidrs
  overlapping-step value values portal r = (
    ground arith,
    λ a e. let b = not_blank value a e in let r' = rw (b, e) at r in ground (arith, r'),
  )

  lists-apart :
      (trusted portal : List Text) (ip : Ip)
      → reject_overlapping_cidrs p trusted portal ≡ none
      → contains_ip (parse_cidrs n trusted) ip ≡ true
      → contains_ip (parse_cidrs n portal) ip ≢ true
  unfolding parse_cidrs contains_ip
  lists-apart [] portal ip r h k = cc h
  lists-apart (value ∷ values) portal ip r h k =
      let (later, here) = overlapping-step value values portal r in
      elim (contains-cases value values ip h) [
        | inl (a, e, held) ↦ overlap-apart (trim_space value) a portal ip e (here a e) held k
        | inr held ↦ lists-apart values portal ip later held k
      ]

  -- If a configuration is valid, and the middleware reads its networks with the same ParseCIDR,
  -- whose blocks are nested and which takes no empty text, no address is both a trusted proxy and
  -- a client of the portal.
  pub validate-apart :
      (u : Unicode) (c : Config) (ip : Ip)
      → validate u p c ≡ none
      → contains_ip (parse_cidrs n c.trusted_proxy_cidrs) ip ≡ true
      → contains_ip (parse_cidrs n c.portal_allowed_cidrs) ip ≢ true
  validate-apart u c ip v =
      lists-apart c.trusted_proxy_cidrs c.portal_allowed_cidrs ip
        (validate_http_cidrs-overlapping p c (validate_http-cidrs p c (validate-http u p c v)))
