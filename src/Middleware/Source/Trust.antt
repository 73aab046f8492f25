-- ===== src/Middleware/Source/Trust.antt =====
-- Which address RateLimiter.Wrap of internal/middleware/ratelimit.go takes a request to come from.
use password_hook_service.Prelude.{
  ℕ, true, false, Option, none, some, List, [], ◌∷◌, ◌++◌, ◌≡◌, arith, refl, ◌∙◌, is_empty, Text,
  All, Option-cases, Bool-cases, inl, inr,
}
use password_hook_service.Middleware.RateLimit.{Counts, allow}
use password_hook_service.Middleware.Source.{
  Ip, Network, Net, contains_ip, split_commas, single_value, parse_ip_with_optional_port,
  parse_hops, last_untrusted, forwarded_client, resolve_peer, resolve_source_ip, source_allowed,
  SourceGuard, wrap,
}

module _ (trusted : List Network) where
  last_untrusted-trusted :
      (hops : List Ip)
      → All (λ ip. contains_ip trusted ip ≡ true) hops
      → last_untrusted trusted hops ≡ none
  unfolding last_untrusted
  last_untrusted-trusted [] h = refl
  last_untrusted-trusted (hop ∷ hops) (h, hs) = rw (last_untrusted-trusted hops hs, h)

  last_untrusted-append :
      (front : List Ip) (ip : Ip) (back : List Ip)
      → last_untrusted trusted back ≡ some ip
      → last_untrusted trusted (front ++ back) ≡ some ip
  unfolding last_untrusted
  last_untrusted-append [] ip back h = h
  last_untrusted-append (f ∷ front) ip back h = rw (last_untrusted-append front ip back h)

  last_untrusted-client :
      (front : List Ip) (client : Ip) (proxies : List Ip)
      → contains_ip trusted client ≡ false
      → All (λ ip. contains_ip trusted ip ≡ true) proxies
      → last_untrusted trusted (front ++ client ∷ proxies) ≡ some client
  last_untrusted-client front client proxies u h =
      last_untrusted-append front client (client ∷ proxies)
        (unfold last_untrusted in rw (last_untrusted-trusted proxies h, u))

  last_untrusted-not_trusted :
      (hops : List Ip) {ip : Ip}
      → last_untrusted trusted hops ≡ some ip
      → contains_ip trusted ip ≡ false
  unfolding last_untrusted
  last_untrusted-not_trusted [] h = cc
  last_untrusted-not_trusted (hop ∷ hops) h = elim (Option-cases (last_untrusted trusted hops)) [
    | inl e ↦ let k = rw e at h in ground (arith, k)
    | inr (later, e) ↦ last_untrusted-not_trusted hops (e ∙ (rw e at h))
  ]

  not_empty : (ip : Ip) → contains_ip trusted ip ≡ true → is_empty trusted ≡ false
  unfolding contains_ip
  not_empty ip h = ground arith

module _ (n : Net) (trusted : List Network) (remote : Text) (values : List Text) where
  -- From a peer that is no trusted proxy the header is not read: the peer is the source.
  pub resolve_source_ip-direct :
      {peer : Ip}
      → parse_ip_with_optional_port n remote ≡ some peer
      → contains_ip trusted peer ≡ false
      → (resolve_source_ip n trusted remote values).resolved_client_ip ≡ some peer
  unfolding resolve_source_ip
  resolve_source_ip-direct p u = rw (p, u) (ground arith)

  -- Behind a trusted proxy the source is the last hop that is no trusted proxy: what a caller puts
  -- in front of the addresses that the proxies add changes nothing.
  pub resolve_source_ip-forwarded :
      {peer : Ip} {value : Text} (front : List Ip) (client : Ip) (proxies : List Ip)
      → parse_ip_with_optional_port n remote ≡ some peer
      → contains_ip trusted peer ≡ true
      → single_value values ≡ some value
      → parse_hops n (split_commas value) ≡ some (front ++ client ∷ proxies)
      → contains_ip trusted client ≡ false
      → All (λ ip. contains_ip trusted ip ≡ true) proxies
      → (resolve_source_ip n trusted remote values).resolved_client_ip ≡ some client
  unfolding resolve_source_ip
  resolve_source_ip-forwarded {peer} front client proxies p t v h u ps =
      rw (p, t, not_empty trusted peer t, v)
        (unfold forwarded_client in
          rw (h, forwarded_client) (last_untrusted-client trusted front client proxies u ps))

  forwarded_client-not_trusted :
      (value : Option Text) {ip : Ip}
      → forwarded_client n trusted value ≡ some ip
      → contains_ip trusted ip ≡ false
  unfolding forwarded_client
  forwarded_client-not_trusted none h = cc
  forwarded_client-not_trusted (some v) {ip} h =
      elim (Option-cases (parse_hops n (split_commas v))) [
        | inl e ↦ cc (e, h)
        | inr (hops, e) ↦ last_untrusted-not_trusted trusted hops (rw (e, forwarded_client) at h)
      ]

  peer-not_trusted :
      (peer : Option Ip) {ip : Ip}
      → (resolve_peer n trusted values peer).resolved_client_ip ≡ some ip
      → is_empty trusted ≡ false
      → contains_ip trusted ip ≡ false
  peer-not_trusted none h ne = unfold resolve_peer in cc h
  peer-not_trusted (some p) {ip} h ne = elim (Bool-cases (contains_ip trusted p)) [
    | inl t ↦
        forwarded_client-not_trusted (single_value values) (unfold resolve_peer in rw (ne, t) at h)
    | inr u ↦ let e : p ≡ ip = unfold resolve_peer in ground (arith, ne, u, h) in rw (← e) u
  ]

  -- Where proxies are configured, no request is taken to come from one of them.
  resolve_source_ip-not_trusted :
      {ip : Ip}
      → (resolve_source_ip n trusted remote values).resolved_client_ip ≡ some ip
      → is_empty trusted ≡ false
      → contains_ip trusted ip ≡ false
  resolve_source_ip-not_trusted h ne =
      peer-not_trusted (parse_ip_with_optional_port n remote) (unfold resolve_source_ip in h) ne

-- The source is an address of an allowed network, and its counter lets the request through.
abbrev pub HasPassed : Net → SourceGuard → Text → List Text → ℕ → Counts → Type 0
HasPassed n g remote values now counts =
    (ip : Ip) × ((resolve_source_ip n g.trusted remote values).resolved_client_ip ≡ some ip)
    × (contains_ip g.allowed ip ≡ true)
    × ((allow g.limiter (n.ip_string (some ip)) now counts).0 ≡ true)

-- A request is passed on only if its source is resolved to an address of an allowed network and the
-- counter of that address lets it through.
pub wrap-passes :
    (n : Net) (g : SourceGuard) (remote : Text) (values : List Text) (now : ℕ) (counts : Counts)
    → (wrap n g remote values now counts).0 ≡ none
    → HasPassed n g remote values now counts
unfolding wrap source_allowed
wrap-passes n g remote values now counts h =
    elim (Option-cases (resolve_source_ip n g.trusted remote values).resolved_client_ip) [
      | inl e ↦ cc (rw e at h)
      | inr (ip, e) ↦ let k = rw e at h in (ip, e, ground (arith, k), ground (arith, k))
    ]
