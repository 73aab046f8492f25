-- ===== src/Handler/Hook.antt =====
-- ServeHTTP and validate of internal/handler/hook.go. The histories are those of the migration
-- service, which the handler calls; its own effects are the fields of the reply. The reading of the
-- body and json.Unmarshal are parameters.
pub mod Laws
use password_hook_service.Prelude.{
  ℕ, Bool, true, false, not, Option, none, some, List, [], ◌∷◌, if◌then◌else◌, is_empty, Text,
  is_blank, Unicode, Result, ok, err, ◌≡◌, ◌≢◌, ◌↔◌, ◌⊎◌, inl, inr, refl, arith,
}
use password_hook_service.Prelude.Effects.{Exec, pure, ◌>>=◌}
use password_hook_service.Migration.Event.{EventType, valid_event_type, is_blank_event}
use password_hook_service.Migration.Identity.{
  Error, external_identity, unknown_identity, domain_required,
}
use password_hook_service.Migration.Service.{
  Request, Decision, SubmitError, identity, Call, Service, Outcome, submit,
}

pub record PasswordHookRequest : Type 0 where
  pub cn : Text
  pub event_type : EventType
  pub password : Text
  pub display_name : Text
  pub mail : Text

-- The texts that validate returns are constants of the source.
pub data Detail : Type 0 where
  cn_required password_required display_name_required mail_required event_type_required : Detail
  event_type_invalid : Detail

unfoldable pub validate : PasswordHookRequest → Option Detail
validate r =
    if is_blank r.cn
    then some cn_required
    else if is_empty r.password
    then some password_required
    else if is_blank r.display_name
    then some display_name_required
    else if is_blank r.mail
    then some mail_required
    else if is_blank_event r.event_type
    then some event_type_required
    else if not (valid_event_type r.event_type)
    then some event_type_invalid
    else none

-- The detail of a problem with status 400.
pub data Problem : Type 0 where
  body_unreadable body_not_json : Problem
  invalid_field : Detail → Problem
  identity_refused : Error → Problem

pub data Response : Type 0 where
  accepted method_not_allowed internal_error : Response
  validation_problem : Problem → Response

unfoldable pub status_code : Response → ℕ
status_code accepted = 202
status_code method_not_allowed = 405
status_code internal_error = 500
status_code (validation_problem p) = 400

-- What recordDecision and recordRejected are given; `none` is the empty event type.
pub data Recorded : Type 0 where
  decided : EventType → Decision → Recorded
  rejected : (status : ℕ) → Option EventType → Recorded

pub data Buffer : Type 0 where
  raw_body decoded_password : Buffer

-- `zeroed` lists the buffers that the deferred calls zero, in their order.
pub record Reply : Type 0 where
  pub response : Response
  pub recorded : Recorded
  pub zeroed : List Buffer

abbrev reject : Response → Option EventType → List Buffer → Reply
reject r e zeroed = record { response = r; recorded = rejected (status_code r) e; zeroed = zeroed }

abbrev both : List Buffer
both = decoded_password ∷ raw_body ∷ []

-- errors.Is of ErrUnknownIdentity or ErrExternalIdentity.
response_of_error : SubmitError → Response
response_of_error (identity unknown_identity) =
    validation_problem (identity_refused unknown_identity)
response_of_error (identity external_identity) =
    validation_problem (identity_refused external_identity)
response_of_error e = internal_error

reply_of : EventType → Outcome → Reply
unfolding response_of_error
reply_of event (d, none) = record { response = accepted; recorded = decided event d; zeroed = both }
reply_of event (d, some e) = reject (response_of_error e) (some event) both

abbrev pub request_of : PasswordHookRequest → Request
request_of body = record {
  cn = body.cn;
  event_type = body.event_type;
  password = body.password;
  display_name = body.display_name;
  mail = body.mail;
}

module _ (u : Unicode) (s : Service) (trace_id : Text) where
  unfoldable pub serve_validated : PasswordHookRequest → Option Detail → Exec Call Reply
  unfolding reply_of status_code
  serve_validated body (some detail) =
      pure (reject (validation_problem (invalid_field detail)) (some body.event_type) both)
  serve_validated body none = do
    outcome ← submit u s trace_id (request_of body)
    pure (reply_of body.event_type outcome)

  serve_decoded : Option PasswordHookRequest → Exec Call Reply
  unfolding serve_validated
  serve_decoded none = pure (reject (validation_problem body_not_json) none both)
  serve_decoded (some body) = serve_validated body (validate body)

  -- `raw` is what sensitiveio.ReadAll returns, and `unmarshal` json.Unmarshal into the request.
  serve_post : (Text → Option PasswordHookRequest) → Result Text Text → Exec Call Reply
  unfolding serve_decoded
  serve_post unmarshal (err e) =
      pure (reject (validation_problem body_unreadable) none (raw_body ∷ []))
  serve_post unmarshal (ok raw) = serve_decoded (unmarshal raw)

  unfoldable pub serve_http :
      (is_post : Bool) → (Text → Option PasswordHookRequest) → Result Text Text → Exec Call Reply
  unfolding serve_post status_code
  serve_http false unmarshal raw = pure (reject method_not_allowed none [])
  serve_http true unmarshal raw = serve_post unmarshal raw
