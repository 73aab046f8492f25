-- ===== src/Queue/Clients.antt =====
-- The constructors of internal/servicebusqueue/queue.go and deadletter.go that open Azure clients, and how what they build is
-- closed. The calls of azservicebus are recorded, newest first, and each returns what the history says.
pub mod Held
use password_hook_service.Prelude.{
  ℕ, Bool, true, false, not, Option, none, some, List, [], ◌∷◌, if◌then◌else◌, Text, is_blank,
  Result, ok, err,
}
use password_hook_service.Prelude.Effects.{Exec, call, pure, ◌>>=◌, ◌>>◌}
use password_hook_service.Prelude.Resources.{Use, opens, closes, Results, close_all}

pub data Part : Type 0 where
  client sender receiver : Part

unfoldable pub same_part : Part → Part → Bool
same_part client client = true
same_part sender sender = true
same_part receiver receiver = true
same_part _ _ = false

pub data OpenError : Type 0 where
  queue_name_required namespace_required credential_required : OpenError
  client_failed : Text → OpenError
  -- With what closing the client returned.
  part_failed : Part → Text → Option Text → OpenError

-- What is built holds a client and the part.
abbrev pub Opened : Type 0
Opened = Result OpenError Part

module _ (azure : Results Part) where
  -- On an error the client is closed, by closeWithTimeout.
  part_opened : Part → Option Text → Exec (Use Part) Opened
  part_opened p none = pure (ok p)
  part_opened p (some e) = do
    closing ← call (closes client) azure
    pure (err (part_failed p e closing))

  unfoldable pub with_client : Part → Option OpenError → Exec (Use Part) Opened
  unfolding part_opened
  with_client p (some e) = pure (err e)
  with_client p none = do failure ← call (opens p) azure; part_opened p failure

  unfoldable pub client_error : Option Text → Option OpenError
  client_error none = none
  client_error (some e) = some (client_failed e)

  unfoldable pub new_client : Exec (Use Part) (Option OpenError)
  unfolding client_error
  new_client = do failure ← call (opens client) azure; pure (client_error failure)

  -- NewFromConnectionString
  unfoldable pub new_from_connection_string : Exec (Use Part) Opened
  unfolding new_client with_client
  new_from_connection_string = do failure ← new_client; with_client sender failure

  unfoldable pub new_receiver_from_connection_string : Exec (Use Part) Opened
  unfolding new_client with_client
  new_receiver_from_connection_string = do failure ← new_client; with_client receiver failure

  unfoldable pub new_dead_letter_queue_from_connection_string : Exec (Use Part) Opened
  unfolding new_client with_client
  new_dead_letter_queue_from_connection_string = do failure ← new_client; with_client sender failure

  unfoldable pub new_client_from_namespace :
      (namespace_fqdn : Text) (has_credential : Bool) → Exec (Use Part) (Option OpenError)
  unfolding new_client
  new_client_from_namespace namespace_fqdn has_credential =
      if is_blank namespace_fqdn
      then pure (some namespace_required)
      else if not has_credential
      then pure (some credential_required)
      else new_client

  unfoldable pub new_from_namespace :
      (namespace_fqdn : Text) (has_credential : Bool) (queue_name : Text) → Exec (Use Part) Opened
  unfolding new_client_from_namespace with_client
  new_from_namespace namespace_fqdn has_credential queue_name =
      if is_blank queue_name then pure (err queue_name_required) else (do
        failure ← new_client_from_namespace namespace_fqdn has_credential
        with_client sender failure)

  unfoldable pub new_receiver_from_namespace :
      (namespace_fqdn : Text) (has_credential : Bool) (queue_name : Text) → Exec (Use Part) Opened
  unfolding new_client_from_namespace with_client
  new_receiver_from_namespace namespace_fqdn has_credential queue_name =
      if is_blank queue_name then pure (err queue_name_required) else (do
        failure ← new_client_from_namespace namespace_fqdn has_credential
        with_client receiver failure)

  unfoldable pub new_dead_letter_queue_from_namespace :
      (namespace_fqdn : Text) (has_credential : Bool) (queue_name : Text) → Exec (Use Part) Opened
  unfolding new_client_from_namespace with_client
  new_dead_letter_queue_from_namespace namespace_fqdn has_credential queue_name =
      if is_blank queue_name then pure (err queue_name_required) else (do
        failure ← new_client_from_namespace namespace_fqdn has_credential
        with_client sender failure)

  -- Close of what these constructors build, which has both its part and its client.
  unfoldable pub close_opened : Part → Exec (Use Part) (List Text)
  close_opened p = close_all azure (p ∷ client ∷ []) []

-- A call of one of the constructors.
pub data Constructor : Type 0 where
  queue_of_connection_string receiver_of_connection_string dead_letter_of_connection_string :
      Constructor
  queue_of_namespace receiver_of_namespace dead_letter_of_namespace :
      (namespace_fqdn : Text) (has_credential : Bool) (queue_name : Text) → Constructor

unfoldable pub construct : Results Part → Constructor → Exec (Use Part) Opened
unfolding new_from_connection_string new_receiver_from_connection_string
    new_dead_letter_queue_from_connection_string new_from_namespace new_receiver_from_namespace
    new_dead_letter_queue_from_namespace
construct azure queue_of_connection_string = new_from_connection_string azure
construct azure receiver_of_connection_string = new_receiver_from_connection_string azure
construct azure dead_letter_of_connection_string =
    new_dead_letter_queue_from_connection_string azure
construct azure (queue_of_namespace fqdn has_credential name) =
    new_from_namespace azure fqdn has_credential name
construct azure (receiver_of_namespace fqdn has_credential name) =
    new_receiver_from_namespace azure fqdn has_credential name
construct azure (dead_letter_of_namespace fqdn has_credential name) =
    new_dead_letter_queue_from_namespace azure fqdn has_credential name
