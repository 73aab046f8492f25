-- ===== src/Tests/Web.antt =====
-- Requests to the server, from the access log to the hook.
use password_hook_service.Prelude.{
  true, some, ◌≡◌, refl, Text, codes, ascii, same_text, trim_slashes,
}
use password_hook_service.Middleware.Source
use password_hook_service.Middleware.Hmac
use password_hook_service.App.Chain.{trace_id_of}
use password_hook_service.Http.Problem.{Info, type_url}
use password_hook_service.Http.Server.{post, hook_path, hook_password, route, serve}
use password_hook_service.Http.Server.Accepted.{IsConsistent, serve-IsConsistent}
use password_hook_service.Tests.Gate.{mac}
use password_hook_service.Tests.Settings.{net}
use password_hook_service.Tests.Served.{chain, posting, idle, read_as_good}

abbrev problems : Text
problems = codes "https://p/"

abbrev build : Info
build = record { version = codes "1"; commit = codes "c"; build_time = codes "now" }

trimmed_url : type_url problems (codes "unauthorized") ≡ codes "https://p/unauthorized"
unfolding type_url trim_slashes
trimmed_url = refl

hook_is_routed : route true post hook_path ≡ hook_password
unfolding route same_text
hook_is_routed = refl

-- The chain panics.
serve-IsConsistent_example :
    IsConsistent
      (trace_id_of posting.request_id (codes "t"))
      post
      hook_path
      (serve net mac ascii read_as_good problems build chain
        (codes "t")
        post
        hook_path
        posting
        (some idle)
        idle).0
serve-IsConsistent_example =
    serve-IsConsistent net mac ascii read_as_good problems build chain (codes "t") post hook_path
      posting (some idle) idle hook_is_routed
