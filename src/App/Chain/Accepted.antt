-- ===== src/App/Chain/Accepted.antt =====
-- What stands behind a request that the chain of internal/app/app.go accepts.
use password_hook_service.Prelude.{
  Bool, true, Option, none, some, ◌≡◌, refl, ap, ◌∙◌, Text, Unicode, ok,
}
use password_hook_service.Migration.Service.{Service}
use password_hook_service.Middleware.Source
use password_hook_service.Middleware.Source.{Net, Refusal}
use password_hook_service.Middleware.Source.Trust.{wrap-passes}
use password_hook_service.Middleware.Hmac
use password_hook_service.Middleware.Hmac.{Verdict, forward, reject}
use password_hook_service.Middleware.Hmac.Accepts.{wrap-IsChecked}
use password_hook_service.Handler.Hook.{PasswordHookRequest, Reply, accepted, serve_http}
use password_hook_service.Handler.Hook.Laws.{IsDecided, serve_http-IsDecided}
use password_hook_service.App.Chain.{
  Handlers, HttpRequest, ServerState, handled, serve_verified, serve_allowed, trace_id_of,
  hook_handler,
}
use password_hook_service.App.Chain.Guarded.{IsGuarded}

module _ (n : Net) (mac : (secret message : Text) → Text) (u : Unicode)
    (unmarshal : Text → Option PasswordHookRequest) where
  verified-accepted :
      (v : Service) (trace_id : Text) (is_post : Bool) (s : ServerState) (verdict : Verdict)
      (reply : Reply)
      → (serve_verified n mac u unmarshal v trace_id is_post s verdict).0 ≡ handled reply
      → reply.response ≡ accepted
      → (body : Text) × (verdict ≡ forward body)
        × (is_post ≡ true)
        × IsDecided u v trace_id unmarshal body s.calls
  unfolding serve_verified
  verified-accepted v trace_id is_post s (reject r) reply e h = cc e
  verified-accepted v trace_id is_post s (forward body) reply e h =
      let (answer, calls) = serve_http u v trace_id is_post unmarshal (ok body) s.calls in
      let same : answer ≡ reply = cc e in
      let (posted, decision) =
        serve_http-IsDecided u v trace_id unmarshal is_post body s.calls
          (ap (λ x. x.response) same ∙ h) in
      (body, refl, posted, decision)

  allowed-accepted :
      (hs : Handlers) (trace_id : Text) (r : HttpRequest) (s : ServerState)
      (refusal : Option Refusal) (reply : Reply)
      → (serve_allowed n mac u unmarshal hs trace_id r s refusal).0 ≡ handled reply
      → reply.response ≡ accepted
      → (refusal ≡ none)
        × ((body : Text) × ((Hmac.wrap mac hs.gate r.signed s.seen).0 ≡ forward body)
            × (r.is_post ≡ true)
            × IsDecided u hs.service trace_id unmarshal body s.calls)
  unfolding serve_allowed
  allowed-accepted hs trace_id r s (some x) reply e h = cc e
  allowed-accepted hs trace_id r s none reply e h =
      let (verdict, seen) = Hmac.wrap mac hs.gate r.signed s.seen in
      (
        refl,
        verified-accepted hs.service trace_id r.is_post (record s { seen = seen }) verdict reply e
            h,
      )

  -- A request that is answered as accepted passed every guard, and the service has decided on the body that the gate
  -- forwarded.
  pub hook_handler-accepted :
      (hs : Handlers) (drawn : Text) (r : HttpRequest) (s : ServerState) (reply : Reply)
      → (hook_handler n mac u unmarshal hs drawn r s).0 ≡ handled reply
      → reply.response ≡ accepted
      → (guarded : IsGuarded n mac hs r s) × IsDecided u hs.service
          (trace_id_of r.request_id drawn)
          unmarshal
          guarded.body
          s.calls
  unfolding hook_handler
  hook_handler-accepted hs drawn r s reply e h =
      let (refusal, counts) = Source.wrap n hs.guard r.remote r.forwarded r.received_at s.counts in
      let (clear, (body, forwarded, posted, decision)) =
        allowed-accepted hs (trace_id_of r.request_id drawn) r (record s { counts = counts })
          refusal reply e h in
      (
        record {
          passed = wrap-passes n hs.guard r.remote r.forwarded r.received_at s.counts clear;
          body = body;
          accepted = wrap-IsChecked mac hs.gate r.signed s.seen forwarded;
          posted = posted;
        },
        decision,
      )
