-- ===== src/Graph/Body.antt =====
-- The request bodies of internal/graphclient/client.go, over bytes.
pub mod RoundTrip
use mathlib.Core.Option
use password_hook_service.Prelude.{
  ℕ, ◌+◌, ◌-◌, ◌/◌, ◌%◌, Bool, true, false, ◌||◌, List, [], ◌∷◌, ◌++◌, ltb, ◌==◌, if◌then◌else◌,
  Text, codes, trim_space, is_empty, is_blank, Option, none, some,
}

-- hexDigit(b), which looks at the low four bits
unfoldable pub hex_digit : ℕ → ℕ
hex_digit b = if ltb (b % 16) 10 then b'0' + b % 16 else b'a' + (b % 16 - 10)

-- What one byte of the value appends.
unfoldable pub json_byte : ℕ → Text
json_byte b =
    if b == b'\\' || b == b'"'
    then b'\\' ∷ b ∷ []
    else if b == 10
    then b'\\' ∷ b'n' ∷ []
    else if b == 13
    then b'\\' ∷ b'r' ∷ []
    else if b == 9
    then b'\\' ∷ b't' ∷ []
    else if ltb b 0x20
    then b'\\' ∷ b'u' ∷ b'0' ∷ b'0' ∷ hex_digit (b / 16) ∷ hex_digit b ∷ []
    else b ∷ []

unfoldable pub json_bytes : Text → Text
json_bytes [] = []
json_bytes (b ∷ s) = json_byte b ++ json_bytes s

unfoldable pub append_json_string : (dst value : Text) → Text
append_json_string dst value = dst ++ b'"' ∷ (json_bytes value ++ b'"' ∷ [])

-- strings.Cut(upn, "@"), where an `@` is found: what stands before it.
before_at : Text → Option Text
before_at [] = none
before_at (c ∷ s) =
    let later = before_at s in if c == b'@' then some [] else Option.map (λ t. c ∷ t) later

unfoldable pub mail_nickname : Text → Text
unfolding before_at
mail_nickname upn = elim (before_at upn) [
  | none ↦ upn
  | some local ↦ if is_blank local then upn else local
]

abbrev pub password_profile : Text
password_profile = codes "\"passwordProfile\":{\"password\":"

abbrev pub body_end : Text
body_end = codes ",\"forceChangePasswordNextSignIn\":false}}"

unfoldable pub build_patch_body : Text → Text
build_patch_body password = append_json_string (b'{' ∷ password_profile) password ++ body_end

-- The user that is written; a copy of the worker's command.
pub record User : Type 0 where
  pub upn : Text
  pub display_name : Text
  pub mail : Text

-- Nothing for a blank address.
mail_fields : Text → Text
mail_fields mail =
    if is_empty mail
    then []
    else append_json_string (codes ",\"mail\":") mail
      ++ (append_json_string (codes ",\"otherMails\":[") mail ++ codes "]")

unfoldable pub build_create_body : User → Text → Text
unfolding mail_fields
build_create_body user password =
    append_json_string (codes "{\"accountEnabled\":true,\"displayName\":") user.display_name
    ++ (append_json_string (codes ",\"mailNickname\":") (mail_nickname user.upn)
        ++ (append_json_string (codes ",\"userPrincipalName\":") user.upn
            ++ (mail_fields (trim_space user.mail)
                ++ (append_json_string (b',' ∷ password_profile) password ++ body_end))))
