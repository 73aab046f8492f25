-- ===== src/Migration/Service.antt =====
-- internal/migration/service.go. A method's calls of its collaborators are recorded, newest first.
pub mod Laws
pub mod Delivery
use password_hook_service.Prelude.{
  ℕ, ◌+◌, ◌*◌, Bool, true, false, not, ◌&&◌, Option, none, some, List, [], ◌∷◌, ltb, if◌then◌else◌,
  ℤ, positive_or, Text, trim_space, Unicode, Result, ok, err,
}
use password_hook_service.Prelude.Effects.{Exec, call, pure, tell, ◌>>=◌, ◌>>◌}
use password_hook_service.SyncStatus.{Status, unsynced, pending, synced, failed, Record}
use password_hook_service.Migration.Event.{
  EventType, login_bootstrap, password_change, password_recovery, other, valid_event_type,
}
use password_hook_service.Migration.Identity.{
  IdentityType, unknown, student_id, employee_id, external_email, Error, unknown_identity,
  classify_cn, build_upn,
}
use password_hook_service.Migration.Message.{Envelope, PasswordSyncMessage, password_aad}

pub data Reason : Type 0 where
  cn_is_external_email already_synced sync_pending : Reason

pub record Request : Type 0 where
  pub cn : Text
  pub event_type : EventType
  pub password : Text
  pub display_name : Text
  pub mail : Text

pub record Decision : Type 0 where
  pub identity_type : Option IdentityType
  pub upn : Text
  pub enqueued : Bool
  pub skipped : Bool
  pub reason : Option Reason

pub data SubmitError : Type 0 where
  invalid_event_type : SubmitError
  identity : Error → SubmitError
  queue_not_configured : SubmitError
  encrypter_not_configured : SubmitError
  encrypt_failed : Text → SubmitError
  enqueue_failed : Text → SubmitError

pub data Call : Type 0 where
  get_status : (upn : Text) → Call
  read_clock : Call
  encrypt : (password aad : Text) → Call
  enqueue : PasswordSyncMessage → Call
  mark_pending : (upn : Text) → (source : ℕ) → Call
  zero_password : Call

-- The collaborators: which of them are nil, and what each call returns after a given history.
pub record Collaborators : Type 0 where
  pub has_queue : Bool
  pub has_encrypter : Bool
  pub has_store : Bool
  pub get_status_result : List Call → Result Text Record
  pub clock_result : List Call → ℕ
  pub encrypt_result : List Call → Result Text Envelope
  pub enqueue_result : List Call → Option Text
  pub mark_pending_result : List Call → Option Text
  pub format_time : ℕ → Text

pub record Service : Type 0 where
  pub primary_domain : Text
  pub collaborators : Collaborators
  pub pending_ttl : ℕ

-- 300 * time.Second
abbrev pub default_pending_ttl : ℕ
default_pending_ttl = 300 * 1000000000

unfoldable pub new_service : Text → Collaborators → ℤ → Service
new_service primary_domain c ttl = record {
  primary_domain = primary_domain;
  collaborators = c;
  pending_ttl = positive_or default_pending_ttl ttl;
}

-- Decision{}: the identity type is the empty string.
abbrev pub no_decision : Decision
no_decision = record {
  identity_type = none;
  upn = [];
  enqueued = false;
  skipped = false;
  reason = none;
}

-- The `switch` on the record's status.
skip_by_status : Service → Record → Status → Exec Call (Option Reason)
skip_by_status s rec synced = pure (some already_synced)
skip_by_status s rec pending = do
  now ← call read_clock s.collaborators.clock_result
  pure (
      if ltb now rec.updated_at
      then none
      else if ltb now (rec.updated_at + s.pending_ttl)
      then some sync_pending
      else none)
skip_by_status s rec unsynced = pure none
skip_by_status s rec failed = pure none

-- A store error fails open.
skip_for : Service → Result Text Record → Exec Call (Option Reason)
unfolding skip_by_status
skip_for s (err e) = pure none
skip_for s (ok rec) = skip_by_status s rec rec.status

unfoldable pub skip_login_bootstrap : Service → Text → Exec Call (Option Reason)
unfolding skip_for
skip_login_bootstrap s upn = do
  found ← call (get_status upn) s.collaborators.get_status_result
  skip_for s found

-- The guard of the dedupe: only a bootstrap, and only with a store, asks for the status.
unfoldable pub dedupe : Service → EventType → Text → Exec Call (Option Reason)
unfolding skip_login_bootstrap
dedupe s login_bootstrap upn =
    if s.collaborators.has_store then skip_login_bootstrap s upn else pure none
dedupe s password_change upn = pure none
dedupe s password_recovery upn = pure none
dedupe s (other t) upn = pure none

-- The message before its payload is encrypted.
abbrev pub message_of : Text → Request → Text → Envelope → ℕ → PasswordSyncMessage
message_of trace_id req upn env enqueued_at = record {
  cn = trim_space req.cn;
  upn = upn;
  event_type = req.event_type;
  trace_id = trace_id;
  password = [];
  envelope = env;
  display_name = trim_space req.display_name;
  mail = trim_space req.mail;
  enqueued_at = enqueued_at;
}

abbrev pub Outcome : Type 0
Outcome = Decision × Option SubmitError

-- After the queue took the message; the result of MarkPending is dropped.
mark_enqueued : Service → Decision → Text → ℕ → Exec Call Outcome
mark_enqueued s d upn enqueued_at =
    if s.collaborators.has_store
    then (do
      _ ← call (mark_pending upn enqueued_at) s.collaborators.mark_pending_result
      pure (record d { enqueued = true }, none))
    else pure (record d { enqueued = true }, none)

send : Service → Decision → Text → Request → Text → ℕ → Result Text Envelope → Exec Call Outcome
unfolding mark_enqueued
send s d trace_id req upn enqueued_at (err e) = pure (d, some (encrypt_failed e))
send s d trace_id req upn enqueued_at (ok env) = do
  failure ←
      call (enqueue (message_of trace_id req upn env enqueued_at)) s.collaborators.enqueue_result
  elim failure [
    | some e ↦ pure (d, some (enqueue_failed e))
    | none ↦ mark_enqueued s d upn enqueued_at
  ]

deliver : Service → Decision → Text → Request → Text → Exec Call Outcome
unfolding send password_aad
deliver s d trace_id req upn =
    if not s.collaborators.has_queue
    then pure (d, some queue_not_configured)
    else if not s.collaborators.has_encrypter
    then pure (d, some encrypter_not_configured)
    else (do
      enqueued_at ← call read_clock s.collaborators.clock_result
      sealed ←
          call
            (encrypt req.password
              (password_aad s.collaborators.format_time (trim_space req.cn) upn enqueued_at))
            s.collaborators.encrypt_result
      send s d trace_id req upn enqueued_at sealed)

submit_eligible : Service → Decision → Text → Request → Result Error Text → Exec Call Outcome
unfolding dedupe deliver
submit_eligible s d trace_id req (err e) = pure (d, some (identity e))
submit_eligible s d trace_id req (ok upn) = do
  let named : Decision = record d { upn = upn }
  skip ← dedupe s req.event_type upn
  elim skip [
    | some reason ↦ pure (record named { skipped = true; reason = some reason }, none)
    | none ↦ deliver s named trace_id req upn
  ]

module _ (u : Unicode) where
  submit_classified : Service → Text → Request → IdentityType → Exec Call Outcome
  unfolding submit_eligible
  submit_classified s trace_id req external_email = pure (
    record no_decision {
      identity_type = some external_email;
      skipped = true;
      reason = some cn_is_external_email;
    },
    none,
  )
  submit_classified s trace_id req unknown =
      pure (record no_decision { identity_type = some unknown }, some (identity unknown_identity))
  submit_classified s trace_id req student_id =
      submit_eligible s (record no_decision { identity_type = some student_id }) trace_id req
        (build_upn u req.cn s.primary_domain)
  submit_classified s trace_id req employee_id =
      submit_eligible s (record no_decision { identity_type = some employee_id }) trace_id req
        (build_upn u req.cn s.primary_domain)

  -- `trace_id` is requestid.From(ctx). The deferred ZeroBytes runs on every path.
  unfoldable pub submit : Service → Text → Request → Exec Call Outcome
  unfolding submit_classified
  submit s trace_id req = do
    outcome ←
        (if not (valid_event_type req.event_type)
          then pure (no_decision, some invalid_event_type)
          else submit_classified s trace_id req (classify_cn u req.cn))
    _ ← tell zero_password
    pure outcome
