-- ===== src/Graph/Client/Laws.antt =====
-- The requests and the errors of UpsertUserPassword of internal/graphclient/client.go.
use password_hook_service.Prelude.{
  ◌≤◌, ◌≡◌, ◌≢◌, ◌⊎◌, Bool, true, false, some, List, [], arith, Text, tally,
}
use password_hook_service.Graph.Body.{User}
use password_hook_service.Graph.Client.{
  GraphError, permanent_error, transient_error, patch, post, Call, send, Client,
  upsert_user_password, validate_user, validate_password,
}

abbrev pub is_write : Call → Bool
is_write (send patch u t b) = true
is_write (send post u t b) = true
is_write _ = false

abbrev pub is_send : Call → Bool
is_send (send m u t b) = true
is_send _ = false

-- A permanent error is one that no retry mends: the input is missing, or Graph said 400 or 403.
abbrev pub IsHopeless : GraphError → Type 0
IsHopeless (permanent_error status op) =
    (op ≡ validate_user) ⊎ ((op ≡ validate_password) ⊎ ((status ≡ 400) ⊎ (status ≡ 403)))
IsHopeless (transient_error status op) = (status ≢ 400) × (status ≢ 403)

module _ (c : Client) (user : User) (password : Text) where
  -- An error of an upsert is permanent for missing input or with the status 400 or 403, or it is
  -- transient with another status.
  upsert-IsHopeless :
      (h : List Call) {e : GraphError}
      → (upsert_user_password c user password h).0 ≡ some e
      → IsHopeless e
  unfolding upsert_user_password
  upsert-IsHopeless h q = ground arith

  -- An upsert sends at most two requests, and at most one of them writes.
  upsert-sends :
      (tally is_send (upsert_user_password c user password []).1 ≤ 2)
      × (tally is_write (upsert_user_password c user password []).1 ≤ 1)
  unfolding upsert_user_password
  upsert-sends = ground arith
