-- ===== src/Graph/Client/Setup.antt =====
-- NewHTTPClient, graphURL and the texts of errors of internal/graphclient/client.go. url.Parse is a parameter.
use password_hook_service.Prelude.{
  ℕ, Bool, true, false, ◌||◌, Option, none, some, [], ◌++◌, ◌==◌, ◌*◌, if◌then◌else◌, is_empty,
  Text, codes, trim_space, trim_slashes, Result, ok, err,
}
use password_hook_service.Observability.{sprint}
use password_hook_service.Graph.Client.{Client}

abbrev pub default_base_url : Text
default_base_url = codes "https://graph.microsoft.com"

abbrev pub default_scope : Text
default_scope = codes "https://graph.microsoft.com/.default"

-- 15 * time.Second
abbrev pub default_http_timeout : ℕ
default_http_timeout = 15 * 1000000000

-- What url.Parse answers; `bare` is the text of the URL without its query and its fragment.
pub record BaseUrl : Type 0 where
  pub scheme : Text
  pub host : Text
  pub bare : Text

pub record Options : Type 0 where
  pub base_url : Text
  pub has_http_client : Bool
  pub scope : Text

pub data NewError : Type 0 where
  credential_required : NewError
  base_url_invalid : Text → NewError

-- The timeout is `none` where the HTTP client was given.
pub record Settings : Type 0 where
  pub base_url : BaseUrl
  pub timeout : Option ℕ
  pub scope : Text

-- strings.TrimSpace, and the default for a blank text
abbrev pub trimmed_or : Text → Text → Text
trimmed_or fallback s = let t = trim_space s in if is_empty t then fallback else t

abbrev pub settings_of : BaseUrl → Options → Settings
settings_of u o = record {
  base_url = u;
  timeout = if o.has_http_client then none else some default_http_timeout;
  scope = trimmed_or default_scope o.scope;
}

unfoldable pub checked_url : Result Text BaseUrl → Options → Result NewError Settings
checked_url (err e) o = err (base_url_invalid e)
checked_url (ok u) o =
    if is_empty u.scheme || is_empty u.host
    then err (base_url_invalid (codes "missing scheme or host"))
    else ok (settings_of u o)

unfoldable pub new_http_client :
    (parse : Text → Result Text BaseUrl) → Bool → Options → Result NewError Settings
unfolding checked_url
new_http_client parse false o = err credential_required
new_http_client parse true o = checked_url (parse (trimmed_or default_base_url o.base_url)) o

unfoldable pub graph_url : Settings → Text → Text
graph_url s path = trim_slashes s.base_url.bare ++ path

-- The client with these settings, over what its collaborators answer.
unfoldable pub client_over : Settings → Client → Client
client_over s c = record c { base_url = trim_slashes s.base_url.bare }

unfoldable pub graph_error_string : (prefix : Text) → ℕ → (operation : Text) → Option Text → Text
graph_error_string prefix status operation e =
    prefix
    ++ (if is_empty operation then [] else codes " during " ++ operation)
    ++ (if status == 0 then [] else codes ": status " ++ sprint status)
    ++ elim e [ none ↦ [] | some text ↦ codes ": " ++ text ]
