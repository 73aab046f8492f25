-- ===== src/Http/Answers.antt =====
-- What each handler of the chain writes: writeUnauthorized and writePayloadTooLarge of internal/middleware/hmac.go, Wrap of
-- ratelimit.go, ServeHTTP of internal/handler/hook.go, and the recovery from a panic of recovery.go.
pub mod Consistent
use password_hook_service.Prelude.{
  ℕ, Bool, true, false, Option, List, [], ◌∷◌, ◌++◌, if◌then◌else◌, is_blank, Text, codes,
  trim_slashes,
}
use password_hook_service.Migration.Identity.{
  Error, external_identity, unknown_identity, domain_required,
}
use password_hook_service.Middleware.Source.{Refusal, source_ip_not_allowed, request_rate_exceeded}
use password_hook_service.Middleware.Hmac
use password_hook_service.Middleware.Hmac.{Rejection, request_body_too_large}
use password_hook_service.Handler.Hook
use password_hook_service.Handler.Hook.{
  Detail, cn_required, password_required, display_name_required, mail_required, event_type_required,
  event_type_invalid, body_unreadable, body_not_json, invalid_field, identity_refused, Response,
  accepted, method_not_allowed, internal_error, validation_problem,
}
use password_hook_service.App.Chain.{Answer, refused, rejected, handled}
use password_hook_service.Http.Writer.{WriterCall, write_header}
use password_hook_service.Http.Problem.{
  Problem, default_base_url, validation, unauthorized, too_many_requests, payload_too_large,
  internal, Calls, write,
}

unfoldable pub detail_text : Detail → Text
detail_text cn_required = codes "Field 'cn' is required"
detail_text password_required = codes "Field 'password' is required"
detail_text display_name_required = codes "Field 'displayName' is required"
detail_text mail_required = codes "Field 'mail' is required"
detail_text event_type_required = codes "Field 'eventType' is required"
detail_text event_type_invalid =
    codes "Field 'eventType' must be one of login_bootstrap, password_change, password_recovery"

-- err.Error() of an error of Submit.
unfoldable pub error_text : Error → Text
error_text external_identity = codes "external email identities are not migrated in phase 1"
error_text unknown_identity = codes "cn is not a supported phase 1 identity"
error_text domain_required = codes "entra primary domain is required"

unfoldable pub validation_text : Hook.Problem → Text
unfolding detail_text error_text
validation_text body_unreadable = codes "request body must be readable"
validation_text body_not_json = codes "request body must be valid json"
validation_text (invalid_field d) = detail_text d
validation_text (identity_refused e) = error_text e

-- The base of the gate and of the recovery, which replace a blank one.
unfoldable pub base_or_default : Text → Text
base_or_default base_url = if is_blank base_url then default_base_url else base_url

module _ (base_url path trace_id : Text) where
  unfoldable pub refusal_calls : Refusal → Calls
  unfolding write
  refusal_calls source_ip_not_allowed =
      write (unauthorized base_url path trace_id (codes "source ip is not allowed"))
  refusal_calls request_rate_exceeded =
      write (too_many_requests base_url path trace_id (codes "request rate exceeded"))

  unfoldable pub rejection_calls : Rejection → Calls
  unfolding write
  rejection_calls request_body_too_large = write (
      payload_too_large (base_or_default base_url) path trace_id
        (codes "request body is too large"))
  rejection_calls _ = write (
      unauthorized (base_or_default base_url) path trace_id (codes "request authentication failed"))

  unfoldable pub response_calls : Response → Calls
  unfolding write
  response_calls accepted = write_header 202 ∷ []
  response_calls method_not_allowed = write_header 405 ∷ []
  response_calls internal_error = write (
      internal (trim_slashes base_url) path trace_id
        (codes "failed to accept password sync request"))
  response_calls (validation_problem p) =
      write (validation (trim_slashes base_url) path trace_id (validation_text p))

  -- The calls that an answer of the chain makes.
  unfoldable pub answer_calls : Answer → Calls
  unfolding refusal_calls rejection_calls response_calls
  answer_calls (refused e) = refusal_calls e
  answer_calls (rejected e) = rejection_calls e
  answer_calls (handled reply) = response_calls reply.response

  -- RecoveryWithOptions, on a `next` that made the calls and then perhaps panicked.
  unfoldable pub recovered : Calls → (panicked : Bool) → Calls
  unfolding write
  recovered calls panicked =
      let document =
        internal (base_or_default base_url) path trace_id (codes "unexpected server error") in
      if panicked then calls ++ write document else calls
