-- ===== src/App/Chain.antt =====
-- The chain of handlers that newWithQueueWithRecorder of internal/app/app.go puts around the hook: the request
-- identifier, the rate limiter, the HMAC gate and the hook, with the settings that each takes from the configuration.
-- The access log and the recovery from a panic, which lie between them, pass a request on as it is.
pub mod Guarded
pub mod Accepted
use password_hook_service.Prelude.{
  ℕ, Bool, true, false, Option, none, some, List, [], if◌then◌else◌, is_empty, Text, trim_space,
  Unicode, Result, ok, err,
}
use password_hook_service.Config.Defs.{Config}
use password_hook_service.Migration.Service
use password_hook_service.Migration.Service.{Service, Collaborators, new_service}
use password_hook_service.Middleware.Nonce.{SeenAt, new_memory_nonce_store}
use password_hook_service.Middleware.RateLimit.{Counts, new_rate_limiter}
use password_hook_service.Middleware.Source
use password_hook_service.Middleware.Source.{Net, SourceGuard, Refusal, parse_cidrs}
use password_hook_service.Middleware.Hmac
use password_hook_service.Middleware.Hmac.{
  Hmac, HmacError, Rejection, Verdict, forward, reject, new_hmac_with_options,
}
use password_hook_service.Handler.Hook.{PasswordHookRequest, Reply, serve_http}

pub record Handlers : Type 0 where
  pub service : Service
  pub gate : Hmac
  pub guard : SourceGuard

unfoldable pub guard_of : Net → Config → SourceGuard
guard_of n c = record {
  limiter = new_rate_limiter c.rate_limit_per_ip c.rate_limit_window;
  allowed = parse_cidrs n c.portal_allowed_cidrs;
  trusted = parse_cidrs n c.trusted_proxy_cidrs;
}

abbrev pub behind : Net → Config → Collaborators → Hmac → Handlers
behind n c k gate = record {
  service = new_service c.entra_primary_domain k c.password_message_ttl;
  gate = gate;
  guard = guard_of n c;
}

with_gate : Net → Config → Collaborators → Result HmacError Hmac → Result HmacError Handlers
with_gate n c k (err e) = err e
with_gate n c k (ok gate) = ok (behind n c k gate)

-- The settings of the service, the gate and the rate limiter.
unfoldable pub handlers_of : Net → Config → Collaborators → Result HmacError Handlers
unfolding with_gate
handlers_of n c k = with_gate n c k (
    new_hmac_with_options c.hmac_secret (new_memory_nonce_store c.nonce_ttl) c.hmac_clock_skew
      c.hook_max_body_bytes)

-- A request of POST /api/v1/hook/password, with the readings of the clock.
pub record HttpRequest : Type 0 where
  pub is_post : Bool
  pub remote : Text
  pub forwarded : List Text
  pub request_id : Text
  pub received_at : ℕ
  pub signed : Hmac.Request

-- What the handlers keep between requests: the counters, the nonces, and the calls that were made.
pub record ServerState : Type 0 where
  pub counts : Counts
  pub seen : SeenAt
  pub calls : List Service.Call

pub data Answer : Type 0 where
  refused : Refusal → Answer
  rejected : Rejection → Answer
  handled : Reply → Answer

-- requestid.Middleware; `drawn` is what New returns.
unfoldable pub trace_id_of : (header drawn : Text) → Text
trace_id_of header drawn = if is_empty (trim_space header) then drawn else trim_space header

module _ (n : Net) (mac : (secret message : Text) → Text) (u : Unicode)
    (unmarshal : Text → Option PasswordHookRequest) where
  -- The body that the gate has read is the body that the hook reads.
  serve_verified : Service → (trace_id : Text) → Bool → ServerState → Verdict → Answer × ServerState
  serve_verified v trace_id is_post s (reject e) = (rejected e, s)
  serve_verified v trace_id is_post s (forward body) =
      let (reply, calls) = serve_http u v trace_id is_post unmarshal (ok body) s.calls in
      (handled reply, record s { calls = calls })

  serve_allowed :
      Handlers
      → (trace_id : Text) → HttpRequest
      → ServerState
      → Option Refusal
      → Answer × ServerState
  unfolding serve_verified
  serve_allowed hs trace_id r s (some e) = (refused e, s)
  serve_allowed hs trace_id r s none =
      let (verdict, seen) = Hmac.wrap mac hs.gate r.signed s.seen in
      serve_verified hs.service trace_id r.is_post (record s { seen = seen }) verdict

  unfoldable pub hook_handler :
      Handlers → (drawn : Text) → HttpRequest → ServerState → Answer × ServerState
  unfolding serve_allowed
  hook_handler hs drawn r s =
      let (refusal, counts) = Source.wrap n hs.guard r.remote r.forwarded r.received_at s.counts in
      serve_allowed hs (trace_id_of r.request_id drawn) r (record s { counts = counts }) refusal
