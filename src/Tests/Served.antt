-- ===== src/Tests/Served.antt =====
-- A request through the chain of handlers, with the settings of a valid configuration.
use password_hook_service.Prelude.{
  true, false, some, [], ◌≡◌, ◌≢◌, refl, Option, Text, codes, ok, ascii, is_empty, same_text,
  trim_space, normalize, is_blank,
}
use password_hook_service.SyncStatus.{zero_record}
use password_hook_service.Migration.Event.{valid_event_type, is_blank_event}
use password_hook_service.Migration.Identity.{classify_cn, build_upn}
use password_hook_service.Migration.Service.{submit}
use password_hook_service.Middleware.Clock.{unix, within_skew}
use password_hook_service.Middleware.Nonce.{use_nonce, new_memory_nonce_store, nonce_ttl}
use password_hook_service.Middleware.RateLimit.{zero_window, new_rate_limiter, allow}
use password_hook_service.Middleware.Source
use password_hook_service.Middleware.Source.{
  resolve_source_ip, parse_ip_with_optional_port, contains_ip, source_allowed, parse_cidrs,
}
use password_hook_service.Middleware.Hmac
use password_hook_service.Middleware.Hmac.{
  Hmac, parse_int, valid_signature, decode_hex, new_hmac_with_options,
}
use password_hook_service.Handler.Hook.{PasswordHookRequest, validate, serve_http}
use password_hook_service.App.Chain.{
  Handlers, HttpRequest, ServerState, guard_of, behind, handlers_of, hook_handler,
}
use password_hook_service.App.Chain.Guarded.{IsClient, hook_handler-IsClient}
use password_hook_service.Tests.Accounts.{helpful}
use password_hook_service.Tests.Gate.{mac, signed_at, unseen}
use password_hook_service.Tests.Hook.{good}
use password_hook_service.Tests.Settings.{net, parsers, parsers-IsNested, direct, direct_valid}

abbrev pub gate : Hmac
gate = record {
  secret = codes "s";
  has_nonces = true;
  skew = 30;
  nonce_ttl = 60;
  max_body_bytes = 65536;
}

abbrev pub chain : Handlers
chain = behind net direct (helpful zero_record) gate

chain_built : handlers_of net direct (helpful zero_record) ≡ ok chain
unfolding handlers_of new_hmac_with_options new_memory_nonce_store nonce_ttl is_blank guard_of
chain_built = refl

abbrev pub posting : HttpRequest
posting = record {
  is_post = true;
  remote = codes "p1";
  forwarded = [];
  request_id = [];
  received_at = 5;
  signed = signed_at (codes "99") 99000000000;
}

abbrev pub idle : ServerState
idle = record { counts = λ k. zero_window; seen = unseen; calls = [] }

abbrev pub read_as_good : Text → Option PasswordHookRequest
read_as_good t = some good

posting_calls :
    is_empty (hook_handler net mac ascii read_as_good chain (codes "t") posting idle).1.calls
    ≡ false
unfolding hook_handler Source.wrap Hmac.wrap serve_http submit build_upn classify_cn trim_space
    normalize valid_event_type unix within_skew use_nonce new_rate_limiter allow resolve_source_ip
    parse_ip_with_optional_port contains_ip source_allowed parse_cidrs parse_int valid_signature
    decode_hex validate same_text is_blank is_blank_event guard_of
posting_calls = refl

posting_called :
    (hook_handler net mac ascii read_as_good chain (codes "t") posting idle).1.calls ≢ idle.calls
posting_called q = cc (q, posting_calls)

hook_handler-IsClient_example : IsClient net direct posting
hook_handler-IsClient_example =
    hook_handler-IsClient parsers net (λ t. refl) refl parsers-IsNested mac ascii read_as_good
      direct (helpful zero_record) chain (codes "t") posting idle direct_valid chain_built
      posting_called
