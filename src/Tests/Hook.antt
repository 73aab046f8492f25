-- ===== src/Tests/Hook.antt =====
-- The hook handler at concrete inputs.
use password_hook_service.Prelude.{
  Option, none, some, [], ◌∷◌, ◌++◌, ◌≡◌, ◌≢◌, refl, Text, codes, ok, trim_space, is_blank, ◌==◌,
  if◌then◌else◌,
}
use password_hook_service.Prelude.Utf8.{decode_rune, encode_rune}
use password_hook_service.Migration.Event.{password_change}
use password_hook_service.Handler.PasswordJson.{
  decode_json_string_bytes, decode_from, until_last, unquote, decode_inner, round,
  decode_unicode_escape,
}
use password_hook_service.Handler.PasswordJson.Strict.{IsClear, decode_json_string_bytes-IsClear}
use password_hook_service.Handler.Hook.{PasswordHookRequest, display_name_required, validate}

abbrev pub good : PasswordHookRequest
good = record {
  cn = codes "0812345";
  event_type = password_change;
  password = codes "p@ss";
  display_name = codes "Ann";
  mail = codes "a@b.c";
}

abbrev nameless : PasswordHookRequest
nameless = record good { display_name = codes " " }

-- A decoder that knows two bodies.
abbrev unmarshal : Text → Option PasswordHookRequest
unmarshal [] = none
unmarshal (c ∷ t) = if c == b'1' then some good else some nameless

nameless_refused : validate nameless ≡ some display_name_required
unfolding validate trim_space is_blank
nameless_refused = refl

nameless_invalid : validate nameless ≢ none
nameless_invalid h = cc (h, nameless_refused)

decode_escapes : decode_json_string_bytes (codes "\"p\\u0040s\\n\"") ≡ ok (codes "p@s\n")
unfolding decode_json_string_bytes unquote until_last decode_inner decode_from round decode_rune
    encode_rune decode_unicode_escape
decode_escapes = refl

decode_json_string_bytes-IsClear_example :
    (inner : Text) × (codes "\"p\\u0040s\\n\"" ≡ b'"' ∷ (inner ++ b'"' ∷ [])) × IsClear inner
decode_json_string_bytes-IsClear_example =
    decode_json_string_bytes-IsClear (codes "\"p\\u0040s\\n\"") decode_escapes
