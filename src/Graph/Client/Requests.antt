-- ===== src/Graph/Client/Requests.antt =====
-- Where the requests of internal/graphclient/client.go go, and what they carry.
use password_hook_service.Prelude.{
  Bool, true, false, [], ◌≡◌, arith, Text, codes, trim_space, Result, ok, err, is_empty, All,
}
use password_hook_service.Graph.Body.{User, build_patch_body, build_create_body}
use password_hook_service.Graph.Client.{
  Call, get_token, send, zero_body, get, patch, post, Client, user_path, upsert_user_password,
}
use password_hook_service.Graph.Client.Setup.{
  BaseUrl, Options, Settings, trimmed_or, default_base_url, checked_url, new_http_client, graph_url,
  client_over,
}

-- A lookup and a change go to the user's path, with no body and with the password; a creation goes to the
-- collection with the user of the trimmed name.
abbrev pub IsHome : Settings → Client → User → Text → Call → Type 0
IsHome s c user password (send get url token body) =
    (url ≡ graph_url s (user_path c (trim_space user.upn))) × (body ≡ [])
IsHome s c user password (send patch url token body) =
    (url ≡ graph_url s (user_path c (trim_space user.upn))) × (body ≡ build_patch_body password)
IsHome s c user password (send post url token body) =
    (url ≡ graph_url s (codes "/v1.0/users"))
    × (body ≡ build_create_body (record user { upn = trim_space user.upn }) password)
IsHome s c user password (get_token op) = Unit
IsHome s c user password zero_body = Unit

upsert-IsHome :
    (s : Settings) (c : Client) (user : User) (password : Text)
    → All (IsHome s c user password) (upsert_user_password (client_over s c) user password []).1
unfolding upsert_user_password graph_url client_over user_path
upsert-IsHome s c user password = ground arith

-- What a client has that NewHTTPClient made.
abbrev pub IsAbsolute : (parse : Text → Result Text BaseUrl) → Options → Settings → Type 0
IsAbsolute parse o s =
    (parse (trimmed_or default_base_url o.base_url) ≡ ok s.base_url)
    × (is_empty s.base_url.scheme ≡ false)
    × (is_empty s.base_url.host ≡ false)

checked_url-IsAbsolute :
    (found : Result Text BaseUrl) (o : Options) (s : Settings)
    → checked_url found o ≡ ok s
    → (found ≡ ok s.base_url)
      × (is_empty s.base_url.scheme ≡ false)
      × (is_empty s.base_url.host ≡ false)
unfolding checked_url
checked_url-IsAbsolute (err e) o s h = cc h
checked_url-IsAbsolute (ok u) o s h = ground arith

new_http_client-IsAbsolute :
    (parse : Text → Result Text BaseUrl) (has_credential : Bool) (o : Options) (s : Settings)
    → new_http_client parse has_credential o ≡ ok s
    → IsAbsolute parse o s
unfolding new_http_client
new_http_client-IsAbsolute parse false o s h = cc h
new_http_client-IsAbsolute parse true o s h =
    checked_url-IsAbsolute (parse (trimmed_or default_base_url o.base_url)) o s h

-- If NewHTTPClient returns a client, then its base URL is what url.Parse makes of the configured text, or of the
-- default for a blank one, and has a scheme and a host; and every request of an upsert by it goes to the path of
-- the user below that URL, with no body or with the body of a change, or to the collection of users with the body
-- of a creation.
pub upsert-IsDirected :
    (parse : Text → Result Text BaseUrl) (has_credential : Bool) (o : Options) {s : Settings}
    (c : Client) (user : User) (password : Text)
    → new_http_client parse has_credential o ≡ ok s
    → IsAbsolute parse o s
      × All (IsHome s c user password) (upsert_user_password (client_over s c) user password []).1
upsert-IsDirected parse has_credential o {s} c user password h =
    (new_http_client-IsAbsolute parse has_credential o s h, upsert-IsHome s c user password)
