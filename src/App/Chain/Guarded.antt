-- ===== src/App/Chain/Guarded.antt =====
-- What stands between the network and the collaborators of the service, in the chain of internal/app/app.go.
use password_hook_service.Prelude.{
  Bool, true, false, Option, none, some, [], ◌≡◌, ◌≢◌, refl, sym, ap, Text, Unicode, Result, ok,
  err,
}
use password_hook_service.Config.Defs.{Config, Parsers}
use password_hook_service.Config.{validate}
use password_hook_service.Config.TrustBoundary.{test_of, IsNested, validate-apart}
use password_hook_service.Migration.Service.{Collaborators}
use password_hook_service.Middleware.Source
use password_hook_service.Middleware.Source.{
  Net, Ip, Refusal, resolve_source_ip, contains_ip, parse_cidrs,
}
use password_hook_service.Middleware.Source.Trust.{HasPassed, wrap-passes}
use password_hook_service.Middleware.Hmac
use password_hook_service.Middleware.Hmac.{Hmac, HmacError, Verdict, forward, reject}
use password_hook_service.Middleware.Hmac.Accepts.{IsChecked, wrap-IsChecked}
use password_hook_service.Handler.Hook.{PasswordHookRequest, serve_http}
use password_hook_service.App.Chain.{
  Handlers, guard_of, behind, with_gate, handlers_of, HttpRequest, ServerState, serve_verified,
  serve_allowed, trace_id_of, hook_handler,
}

-- The source of the request is allowed and within its rate, the gate has accepted the body, and the
-- request is a POST.
pub record IsGuarded (n : Net) (mac : (secret message : Text) → Text) (hs : Handlers)
    (r : HttpRequest) (s : ServerState) : Type 0 where
  pub passed : HasPassed n hs.guard r.remote r.forwarded r.received_at s.counts
  pub body : Text
  pub accepted : IsChecked mac hs.gate r.signed s.seen body
  pub posted : r.is_post ≡ true

module _ (n : Net) (mac : (secret message : Text) → Text) (u : Unicode)
    (unmarshal : Text → Option PasswordHookRequest) where
  verified-forward :
      (hs : Handlers) (trace_id : Text) (is_post : Bool) (s : ServerState) (verdict : Verdict)
      → (serve_verified n mac u unmarshal hs.service trace_id is_post s verdict).1.calls ≢ s.calls
      → (body : Text) × (verdict ≡ forward body) × (is_post ≡ true)
  unfolding serve_verified serve_http
  verified-forward hs trace_id is_post s (reject e) called = elim (called refl) [ ]
  verified-forward hs trace_id true s (forward body) called = (body, refl, refl)
  verified-forward hs trace_id false s (forward body) called = elim (called refl) [ ]

  allowed-forward :
      (hs : Handlers) (trace_id : Text) (r : HttpRequest) (s : ServerState)
      (refusal : Option Refusal)
      → (serve_allowed n mac u unmarshal hs trace_id r s refusal).1.calls ≢ s.calls
      → (refusal ≡ none)
        × ((body : Text) × ((Hmac.wrap mac hs.gate r.signed s.seen).0 ≡ forward body)
            × (r.is_post ≡ true))
  unfolding serve_allowed
  allowed-forward hs trace_id r s (some e) called = elim (called refl) [ ]
  allowed-forward hs trace_id r s none called =
      let (verdict, seen) = Hmac.wrap mac hs.gate r.signed s.seen in
      (refl, verified-forward hs trace_id r.is_post (record s { seen = seen }) verdict called)

  -- No collaborator of the service is called for a request unless it passed every guard: its source is in an allowed
  -- network and within its rate, it was signed, timely and fresh, and it is a POST.
  hook_handler-IsGuarded :
      (hs : Handlers) (drawn : Text) (r : HttpRequest) (s : ServerState)
      → (hook_handler n mac u unmarshal hs drawn r s).1.calls ≢ s.calls
      → IsGuarded n mac hs r s
  unfolding hook_handler
  hook_handler-IsGuarded hs drawn r s called =
      let (refusal, counts) = Source.wrap n hs.guard r.remote r.forwarded r.received_at s.counts in
      let (clear, (body, forwarded, posted)) =
        allowed-forward hs (trace_id_of r.request_id drawn) r (record s { counts = counts }) refusal
          called in
      record {
        passed = wrap-passes n hs.guard r.remote r.forwarded r.received_at s.counts clear;
        body = body;
        accepted = wrap-IsChecked mac hs.gate r.signed s.seen forwarded;
        posted = posted;
      }

-- The source is a client of the portal, and no trusted proxy.
pub record IsClient (n : Net) (c : Config) (r : HttpRequest) : Type 0 where
  pub ip : Ip
  pub resolved :
      (resolve_source_ip n
        (parse_cidrs n c.trusted_proxy_cidrs)
        r.remote
        r.forwarded).resolved_client_ip
      ≡ some ip
  pub of_portal : contains_ip (parse_cidrs n c.portal_allowed_cidrs) ip ≡ true
  pub not_proxy : contains_ip (parse_cidrs n c.trusted_proxy_cidrs) ip ≢ true

guard_is :
    (n : Net) (c : Config) (k : Collaborators) (gate : Result HmacError Hmac) {hs : Handlers}
    → with_gate n c k gate ≡ ok hs
    → hs.guard ≡ guard_of n c
unfolding with_gate
guard_is n c k (err e) made = cc made
guard_is n c k (ok gate) {hs} made =
    let same : behind n c k gate ≡ hs = cc made in ap (λ x. x.guard) (sym same)

module _ (p : Parsers) (n : Net) (same : (t : Text) → n.parse_cidr t ≡ test_of (p.parse_cidr t))
    (empty : p.parse_cidr [] ≡ none) (nested : IsNested p) (mac : (secret message : Text) → Text)
    (u : Unicode) (unmarshal : Text → Option PasswordHookRequest) where
  -- Under a valid configuration, a collaborator is called only for a request whose source is a client of the
  -- portal and no trusted proxy, if the middleware reads the networks as Validate does and blocks are nested.
  pub hook_handler-IsClient :
      (c : Config) (k : Collaborators) (hs : Handlers) (drawn : Text) (r : HttpRequest)
      (s : ServerState)
      → validate u p c ≡ none
      → handlers_of n c k ≡ ok hs
      → (hook_handler n mac u unmarshal hs drawn r s).1.calls ≢ s.calls
      → IsClient n c r
  unfolding handlers_of guard_of
  hook_handler-IsClient c k hs drawn r s valid made called =
      let guard = guard_is n c k _ made in
      let (ip, e, allowed, within) =
        rw guard at (hook_handler-IsGuarded n mac u unmarshal hs drawn r s called).passed in
      record {
        ip = ip;
        resolved = e;
        of_portal = allowed;
        not_proxy = λ q. validate-apart p n same empty nested u c ip valid q allowed;
      }
