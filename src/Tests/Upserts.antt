-- ===== src/Tests/Upserts.antt =====
-- A client of Microsoft Graph with the default settings, and its requests.
use password_hook_service.Prelude.{
  true, false, none, [], ◌≡◌, refl, Text, codes, trim_space, trim_slashes, ok, err, All,
}
use password_hook_service.Observability.{sprint}
use password_hook_service.Graph.Client.{upsert_user_password}
use password_hook_service.Graph.Client.Setup.{
  BaseUrl, Options, credential_required, base_url_invalid, settings_of, checked_url,
  new_http_client, graph_url, client_over, graph_error_string,
}
use password_hook_service.Graph.Client.Requests.{IsHome, IsAbsolute, upsert-IsDirected}
use password_hook_service.Graph.Processor.{user_of}
use password_hook_service.Tests.Delivery.{answering, command}

abbrev blank : Options
blank = record { base_url = codes " "; has_http_client = false; scope = [] }

abbrev graph : Text → BaseUrl
graph t = record { scheme = codes "https"; host = codes "graph.microsoft.com"; bare = t }

abbrev default_graph : BaseUrl
default_graph = graph (codes "https://graph.microsoft.com")

opens : new_http_client (λ t. ok (graph t)) true blank ≡ ok (settings_of default_graph blank)
unfolding new_http_client checked_url trim_space
opens = refl

needs_credential : new_http_client (λ t. ok (graph t)) false blank ≡ err credential_required
unfolding new_http_client
needs_credential = refl

needs_host :
    new_http_client (λ t. ok (record (graph t) { host = [] })) true blank
    ≡ err (base_url_invalid (codes "missing scheme or host"))
unfolding new_http_client checked_url
needs_host = refl

users_url :
    graph_url (settings_of (graph (codes "https://g//")) blank) (codes "/v1.0/users")
    ≡ codes "https://g/v1.0/users"
unfolding graph_url trim_slashes
users_url = refl

error_text :
    graph_error_string (codes "transient graph error") 503 (codes "lookup user") none
    ≡ codes "transient graph error during lookup user: status 503"
unfolding graph_error_string sprint
error_text = refl

upsert-IsDirected_example :
    IsAbsolute (λ t. ok (graph t)) blank (settings_of default_graph blank)
    × All
        (IsHome (settings_of default_graph blank) (answering 200) (user_of command) (codes "p@ss"))
        (upsert_user_password
          (client_over (settings_of default_graph blank) (answering 200))
          (user_of command)
          (codes "p@ss")
          []).1
upsert-IsDirected_example =
    upsert-IsDirected (λ t. ok (graph t)) true blank (answering 200) (user_of command)
      (codes "p@ss") opens
