-- ===== src/Http/Server/Accepted.antt =====
-- What the server answers to a request of the hook.
use password_hook_service.Prelude.{
  true, Option, none, some, ◌∷◌, ◌≡◌, refl, Text, codes, same_text, All, Unicode,
}
use password_hook_service.Middleware.Source.{Net}
use password_hook_service.Handler.Hook.{PasswordHookRequest}
use password_hook_service.App.Chain.{
  Handlers, HttpRequest, ServerState, Answer, trace_id_of, hook_handler,
}
use password_hook_service.App.Chain.Guarded.{IsGuarded}
use password_hook_service.Handler.Hook.Laws.{IsDecided}
use password_hook_service.Http.Writer.{set_header, sent_status}
use password_hook_service.Http.Problem.{Info, Calls}
use password_hook_service.Http.Logged.{logged_status-sent}
use password_hook_service.Http.Answers.{recovered}
use password_hook_service.Http.Answers.Consistent.{
  IsTold, IsAnswer, answer-IsAnswer, panic-IsAnswer,
}
use password_hook_service.Http.Server.{
  hook_password, post, hook_path, route, Exchange, recovery_calls, exchange_of, serve_hook,
  serve_route, serve,
}

-- The log line has the status that is sent, each body is a problem document of that status, and all three carry the
-- trace identifier, which the client gets in a header.
pub record IsConsistent (trace_id method path : Text) (e : Exchange) : Type 0 where
  pub logged :
      e.logged
      ≡ some (record {
        trace_id = trace_id;
        method = method;
        path = path;
        status = sent_status e.calls;
      })
  pub told : All (IsTold (sent_status e.calls) path trace_id) e.calls
  pub rest : Calls
  pub identified : e.calls ≡ set_header (codes "X-Request-ID") trace_id ∷ rest

recovery-IsAnswer :
    (base_url path trace_id : Text) (answer : Option Answer)
    → IsAnswer path trace_id (recovery_calls base_url path trace_id answer)
unfolding recovery_calls
recovery-IsAnswer base_url path trace_id none = panic-IsAnswer base_url path trace_id
recovery-IsAnswer base_url path trace_id (some a) =
    unfold recovered in answer-IsAnswer base_url path trace_id a

exchange_of-IsConsistent :
    (base_url method path trace_id : Text) (answer : Option Answer)
    → IsConsistent trace_id method path (exchange_of base_url method path trace_id answer)
unfolding exchange_of sent_status
exchange_of-IsConsistent base_url method path trace_id answer =
    let i = recovery-IsAnswer base_url path trace_id answer in
    let calls = recovery_calls base_url path trace_id answer in
    record {
      logged = rw (logged_status-sent calls i.orderly) refl;
      told = (tt, i.told);
      rest = calls;
      identified = refl;
    }

-- The request was a POST of the hook's path, no handler panicked, it passed every guard, and the service decided on the
-- body that the gate forwarded.
pub record IsServed (n : Net) (mac : (secret message : Text) → Text) (u : Unicode)
    (unmarshal : Text → Option PasswordHookRequest) (hs : Handlers) (drawn method path : Text)
    (r : HttpRequest) (panic : Option ServerState) (s : ServerState) : Type 0 where
  pub is_post : method ≡ post
  pub is_hook : path ≡ hook_path
  pub calm : panic ≡ none
  pub guarded : IsGuarded n mac hs (record r { is_post = same_text method post }) s
  pub decided :
      IsDecided u hs.service (trace_id_of r.request_id drawn) unmarshal guarded.body s.calls

module _ (n : Net) (mac : (secret message : Text) → Text) (u : Unicode)
    (unmarshal : Text → Option PasswordHookRequest) (base_url : Text) (info : Info) where
  -- A request that is routed to the hook is answered consistently, whatever the chain answers, and also when a
  -- handler panics: the log line has the status that is sent, each body is a problem document of that status
  -- and path, and the line, the body and a header carry the identifier of the request.
  pub serve-IsConsistent :
      (hs : Handlers) (drawn method path : Text) (r : HttpRequest) (panic : Option ServerState)
      (s : ServerState)
      → route true method path ≡ hook_password
      → IsConsistent
          (trace_id_of r.request_id drawn)
          method
          path
          (serve n mac u unmarshal base_url info hs drawn method path r panic s).0
  unfolding serve serve_route serve_hook
  serve-IsConsistent hs drawn method path r none s routed =
      let sent = record r { is_post = same_text method post } in
      let (answer, s') = hook_handler n mac u unmarshal hs drawn sent s in
      rw routed (
        exchange_of-IsConsistent base_url method path (trace_id_of r.request_id drawn)
          (some answer))
  serve-IsConsistent hs drawn method path r (some left) s routed =
      rw routed
        (exchange_of-IsConsistent base_url method path (trace_id_of r.request_id drawn) none)
