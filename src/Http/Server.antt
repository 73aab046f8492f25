-- ===== src/Http/Server.antt =====
-- NewMux and Run of internal/httpserver/server.go, and the handler that newWithQueueWithRecorder of internal/app/app.go
-- registers: request identifier, access log, recovery and the chain of App/Chain.
pub mod Accepted
use password_hook_service.Prelude.{
  ℕ, Bool, true, false, ◌&&◌, ◌||◌, Option, none, some, List, [], ◌∷◌, ◌++◌, if◌then◌else◌, Text,
  codes, same_text, Unicode,
}
use password_hook_service.Middleware.Source.{Net}
use password_hook_service.Handler.Hook.{PasswordHookRequest}
use password_hook_service.App.Chain.{
  Handlers, HttpRequest, ServerState, Answer, trace_id_of, hook_handler,
}
use password_hook_service.Http.Writer.{
  WriterCall, set_header, write_header, write_body, logged_status,
}
use password_hook_service.Http.Problem.{Body, Info, health_status, build_info, Calls}
use password_hook_service.Http.Answers.{answer_calls, recovered}

pub data Route : Type 0 where
  healthz version hook_password wrong_method not_found : Route

abbrev pub post : Text
post = codes "POST"

abbrev pub hook_path : Text
hook_path = codes "/api/v1/hook/password"

-- http.ServeMux takes HEAD for GET.
abbrev is_get : Text → Bool
is_get method = same_text method (codes "GET") || same_text method (codes "HEAD")

-- NewMux, for a clean path.
unfoldable pub route : (has_hook : Bool) → (method path : Text) → Route
route has_hook method path =
    if same_text path (codes "/healthz")
    then (if is_get method then healthz else wrong_method)
    else if same_text path (codes "/version")
    then (if is_get method then version else wrong_method)
    else if has_hook && same_text path hook_path
    then (if same_text method post then hook_password else wrong_method)
    else not_found

-- A line of AccessLog, but for the duration.
pub record AccessLine : Type 0 where
  pub trace_id : Text
  pub method : Text
  pub path : Text
  pub status : ℕ

pub record Exchange : Type 0 where
  pub calls : Calls
  pub logged : Option AccessLine

abbrev json_header : WriterCall Body
json_header = set_header (codes "Content-Type") (codes "application/json")

-- RecoveryWithOptions and what it wraps. A handler of the chain writes at its end, so a panic comes before it
-- has written; `none` is a panic.
unfoldable pub recovery_calls : (base_url path trace_id : Text) → Option Answer → Calls
unfolding answer_calls recovered
recovery_calls base_url path trace_id none = recovered base_url path trace_id [] true
recovery_calls base_url path trace_id (some answer) =
    recovered base_url path trace_id (answer_calls base_url path trace_id answer) false

-- requestid.Middleware and AccessLog, around the recovery.
unfoldable pub exchange_of : (base_url method path trace_id : Text) → Option Answer → Exchange
unfolding recovery_calls
exchange_of base_url method path trace_id answer =
    let calls = recovery_calls base_url path trace_id answer in
    record {
      calls = set_header (codes "X-Request-ID") trace_id ∷ calls;
      logged = some (record {
        trace_id = trace_id;
        method = method;
        path = path;
        status = logged_status calls;
      });
    }

module _ (n : Net) (mac : (secret message : Text) → Text) (u : Unicode)
    (unmarshal : Text → Option PasswordHookRequest) (base_url : Text) (info : Info) where
  -- `panic` is the state that a panic leaves, if the chain panics.
  unfoldable pub serve_hook :
      Handlers
      → (drawn method path : Text) → HttpRequest
      → (panic : Option ServerState) → ServerState
      → Exchange × ServerState
  unfolding exchange_of
  serve_hook hs drawn method path r (some left) s =
      (exchange_of base_url method path (trace_id_of r.request_id drawn) none, left)
  serve_hook hs drawn method path r none s =
      let (answer, s') = hook_handler n mac u unmarshal hs drawn r s in
      (exchange_of base_url method path (trace_id_of r.request_id drawn) (some answer), s')

  serve_route :
      Route
      → Handlers
      → (drawn method path : Text) → HttpRequest
      → (panic : Option ServerState) → ServerState
      → Exchange × ServerState
  unfolding serve_hook
  serve_route healthz hs drawn method path r panic s =
      (record { calls = json_header ∷ write_body health_status ∷ []; logged = none }, s)
  serve_route version hs drawn method path r panic s =
      (record { calls = json_header ∷ write_body (build_info info) ∷ []; logged = none }, s)
  serve_route hook_password hs drawn method path r panic s =
      serve_hook hs drawn method path r panic s
  serve_route wrong_method hs drawn method path r panic s =
      (record { calls = write_header 405 ∷ []; logged = none }, s)
  serve_route not_found hs drawn method path r panic s =
      (record { calls = write_header 404 ∷ []; logged = none }, s)

  -- The server of the application, which has a hook.
  unfoldable pub serve :
      Handlers
      → (drawn method path : Text) → HttpRequest
      → (panic : Option ServerState) → ServerState
      → Exchange × ServerState
  unfolding serve_route route
  serve hs drawn method path r panic s =
      serve_route (route true method path) hs drawn method path
        (record r { is_post = same_text method post }) panic s

-- The error of ListenAndServe, which is never nil.
pub data ListenError : Type 0 where
  server_closed : ListenError
  listen_failed : Text → ListenError

-- Which of its two cases the select of Run takes; Shutdown is called in the first.
pub data RunEvent : Type 0 where
  context_done : (shutdown : Option Text) → ListenError → RunEvent
  listen_returned : ListenError → RunEvent

after_listen : ListenError → Option Text
after_listen server_closed = none
after_listen (listen_failed e) = some e

-- Server.Run
unfoldable pub run : RunEvent → Option Text
unfolding after_listen
run (context_done (some e) listen) = some e
run (context_done none listen) = after_listen listen
run (listen_returned listen) = after_listen listen
