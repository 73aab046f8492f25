-- ===== src/Graph/Client.antt =====
-- UpsertUserPassword of internal/graphclient/client.go. Calls are recorded, newest first; a status is
-- a number. The token, the transport and url.PathEscape are parameters.
pub mod Laws
pub mod Setup
pub mod Requests
use password_hook_service.Prelude.{
  ℕ, Bool, true, false, not, ◌&&◌, ◌||◌, Option, none, some, List, [], ◌∷◌, ◌++◌, ltb, leb, ◌==◌,
  if◌then◌else◌, is_empty, Text, codes, trim_space, Result, ok, err,
}
use password_hook_service.Prelude.Effects.{Exec, call, pure, tell, ◌>>=◌, ◌>>◌}
use password_hook_service.Graph.Body.{User, build_patch_body, build_create_body}

pub data Operation : Type 0 where
  validate_user validate_password lookup_user patch_user create_user : Operation

-- The error types of the client: the status is 0 where there was no response.
pub data GraphError : Type 0 where
  permanent_error transient_error : (status : ℕ) → Operation → GraphError

pub data Method : Type 0 where
  get patch post : Method

pub data Call : Type 0 where
  get_token : Operation → Call
  send : Method → (url : Text) → (token : Text) → (body : Text) → Call
  zero_body : Call

pub record Client : Type 0 where
  pub base_url : Text
  pub path_escape : Text → Text
  pub token_result : List Call → Result Text Text
  pub is_valid_request : Method → Text → Bool
  pub send_result : List Call → Result Text ℕ

-- strings.ReplaceAll(s, "@", "%40")
escape_at : Text → Text
escape_at [] = []
escape_at (c ∷ s) =
    let rest = escape_at s in if c == b'@' then b'%' ∷ b'4' ∷ b'0' ∷ rest else c ∷ rest

unfoldable pub user_path : Client → Text → Text
unfolding escape_at
user_path c upn = codes "/v1.0/users/" ++ escape_at (c.path_escape upn)

sent : Operation → Result Text ℕ → Result GraphError ℕ
sent op (ok status) = ok status
sent op (err e) = err (transient_error 0 op)

send_with_token :
    Client → Operation → Method → Text → Text → Result Text Text → Exec Call (Result GraphError ℕ)
unfolding sent
send_with_token c op method url body (err e) = pure (err (transient_error 0 op))
send_with_token c op method url body (ok token) =
    if not (c.is_valid_request method url)
    then pure (err (transient_error 0 op))
    else (do response ← call (send method url token body) c.send_result; pure (sent op response))

-- `base_url` has no query, no fragment and no slash at its end, as `client_over` makes it.
unfoldable pub do_graph_request :
    Client → Operation → Method → Text → Text → Exec Call (Result GraphError ℕ)
unfolding send_with_token
do_graph_request c op method path body = do
  token ← call (get_token op) c.token_result
  send_with_token c op method (c.base_url ++ path) body token

unfoldable pub classify_graph_response : Operation → ℕ → GraphError
classify_graph_response op status =
    if status == 400 || status == 403 then permanent_error status op else transient_error status op

-- The end of a write: any status of the 2xx is a success.
written : Operation → Result GraphError ℕ → Option GraphError
unfolding classify_graph_response
written op (err e) = some e
written op (ok status) =
    if ltb status 200 || ltb 299 status then some (classify_graph_response op status) else none

-- The body is zeroed when the function returns.
unfoldable pub patch_user_password : Client → Text → Text → Exec Call (Option GraphError)
unfolding written do_graph_request
patch_user_password c upn password = do
  response ← do_graph_request c patch_user patch (user_path c upn) (build_patch_body password)
  _ ← tell zero_body
  pure (written patch_user response)

unfoldable pub create_graph_user : Client → User → Text → Exec Call (Option GraphError)
unfolding written do_graph_request
create_graph_user c user password = do
  response ←
      do_graph_request c create_user post (codes "/v1.0/users") (build_create_body user password)
  _ ← tell zero_body
  pure (written create_user response)

by_lookup : Client → User → Text → Text → Result GraphError ℕ → Exec Call (Option GraphError)
unfolding patch_user_password create_graph_user classify_graph_response
by_lookup c user upn password (err e) = pure (some e)
by_lookup c user upn password (ok status) =
    if status == 200
    then patch_user_password c upn password
    else if status == 404
    then create_graph_user c (record user { upn = upn }) password
    else pure (some (classify_graph_response lookup_user status))

unfoldable pub upsert_user_password : Client → User → Text → Exec Call (Option GraphError)
unfolding by_lookup do_graph_request
upsert_user_password c user password =
    let upn : Text = trim_space user.upn in
    if is_empty upn
    then pure (some (permanent_error 0 validate_user))
    else if is_empty password
    then pure (some (permanent_error 0 validate_password))
    else (do
      status ← do_graph_request c lookup_user get (user_path c upn) []
      by_lookup c user upn password status)
