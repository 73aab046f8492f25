-- ===== src/Graph/Processor.antt =====
-- ProcessPasswordSync of internal/graphprocessor/processor.go: a command of the worker becomes an
-- upsert. The label of the duration's observation is kept; the duration and the log line are not.
use password_hook_service.Prelude.{ℕ, Option, none, some, List, ◌≡◌, ◌↔◌, Text, refl}
use password_hook_service.Prelude.Effects.{Exec, pure, ◌>>=◌}
use password_hook_service.Graph.Body.{User}
use password_hook_service.Graph.Client.{
  GraphError, permanent_error, transient_error, Call, Client, upsert_user_password,
}
use password_hook_service.Worker.Defs.{PasswordSyncCommand, ProcessError}

pub data Outcome : Type 0 where
  success transient permanent : Outcome

abbrev pub user_of : PasswordSyncCommand → User
user_of msg = record { upn = msg.upn; display_name = msg.display_name; mail = msg.mail }

outcome_of : Option GraphError → Outcome
outcome_of none = success
outcome_of (some (permanent_error status op)) = permanent
outcome_of (some (transient_error status op)) = transient

-- A permanent error of Graph is wrapped as one of the worker; any other is passed on.
worker_error : (GraphError → Text) → Option GraphError → Option ProcessError
worker_error describe none = none
worker_error describe (some (permanent_error status op)) =
    some (ProcessError.permanent_error (describe (permanent_error status op)))
worker_error describe (some (transient_error status op)) =
    some (ProcessError.transient_error (describe (transient_error status op)))

unfoldable pub process_password_sync :
    Client → (GraphError → Text) → PasswordSyncCommand → Exec Call (Outcome × Option ProcessError)
unfolding outcome_of worker_error
process_password_sync c describe msg = do
  e ← upsert_user_password c (user_of msg) msg.password
  pure (outcome_of e, worker_error describe e)

result-permanent_iff :
    (describe : GraphError → Text) (o : Option GraphError)
    → ((t : Text) × (worker_error describe o ≡ some (ProcessError.permanent_error t)))
      ↔ ((status : ℕ) × (op : _) × (o ≡ some (permanent_error status op)))
unfolding worker_error
result-permanent_iff describe none = (λ (t, e). cc e, λ (s, op, e). cc e)
result-permanent_iff describe (some (permanent_error status op)) =
    (λ _. (status, op, refl), λ _. (_, refl))
result-permanent_iff describe (some (transient_error status op)) =
    (λ (t, e). cc e, λ (s, op, e). cc e)

-- The worker gives up on a command, instead of retrying it, exactly if the upsert that the command
-- asks for ends with a permanent error.
process-permanent_iff :
    (c : Client) (describe : GraphError → Text) (msg : PasswordSyncCommand) (h : List Call)
    → ((t : Text) × ((process_password_sync c describe msg h).0.1
          ≡ some (ProcessError.permanent_error t)))
      ↔ ((status : ℕ) × (op : _) × ((upsert_user_password c (user_of msg) msg.password h).0
            ≡ some (permanent_error status op)))
unfolding process_password_sync
process-permanent_iff c describe msg h =
    result-permanent_iff describe (upsert_user_password c (user_of msg) msg.password h).0
