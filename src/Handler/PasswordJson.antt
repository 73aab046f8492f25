-- ===== src/Handler/PasswordJson.antt =====
-- decodeJSONStringBytes, decodeUnicodeEscape and hex4 of internal/handler/hook.go, over bytes. The
-- `for` loop over an index is a recursion on fuel over the bytes that are left.
pub mod Steps
pub mod Fuel
pub mod Strict
use password_hook_service.Prelude.{
  ℕ, zero, suc, ◌+◌, ◌-◌, ◌*◌, Bool, true, false, not, ◌&&◌, ◌||◌, Option, none, some, List, [],
  ◌∷◌, ◌++◌, ltb, leb, ◌==◌, if◌then◌else◌, length, drop, Text, codes, same_text, Result, ok, err,
}
use password_hook_service.Prelude.Utf8.{rune_error, between, encode_rune, decode_rune}

pub data JsonError : Type 0 where
  not_a_json_string unescaped_terminator control_character incomplete_escape : JsonError
  short_unicode_escape invalid_unicode_escape_byte invalid_escape : JsonError
  out_of_fuel : JsonError

unfoldable pub hex_nibble : ℕ → Option ℕ
hex_nibble b =
    if between b'0' b'9' b
    then some (b - b'0')
    else if between b'a' b'f' b
    then some (b - b'a' + 10)
    else if between b'A' b'F' b
    then some (b - b'A' + 10)
    else none

join4 : Option ℕ → Option ℕ → Option ℕ → Option ℕ → Option ℕ
join4 (some a) (some b) (some c) (some d) = some (((a * 16 + b) * 16 + c) * 16 + d)
join4 _ _ _ _ = none

-- hex4 of four bytes, `none` for its error
unfoldable pub hex4 : ℕ → ℕ → ℕ → ℕ → Option ℕ
unfolding hex_nibble join4
hex4 a b c d = join4 (hex_nibble a) (hex_nibble b) (hex_nibble c) (hex_nibble d)

-- utf16.DecodeRune of a high surrogate and the second code unit, and how much is consumed.
pair_rune : ℕ → Option ℕ → ℕ × ℕ
pair_rune r none = (rune_error, 4)
pair_rune r (some low) =
    if between 0xDC00 0xDFFF low
    then ((r - 0xD800) * 1024 + (low - 0xDC00) + 0x10000, 10)
    else (rune_error, 4)

low_surrogate : ℕ → Text → ℕ × ℕ
unfolding pair_rune hex4
low_surrogate r (x ∷ y ∷ a ∷ b ∷ c ∷ d ∷ rest) =
    if x == b'\\' && y == b'u' then pair_rune r (hex4 a b c d) else (rune_error, 4)
low_surrogate r _ = (rune_error, 4)

unescaped : Option ℕ → Text → Result JsonError (ℕ × ℕ)
unfolding low_surrogate
unescaped none rest = err invalid_unicode_escape_byte
unescaped (some r) rest =
    if not (between 0xD800 0xDFFF r)
    then ok (r, 4)
    else if ltb 0xDBFF r
    then ok (rune_error, 4)
    else ok (low_surrogate r rest)

-- The rune, and the number of bytes that it takes behind the `u`.
unfoldable pub decode_unicode_escape : Text → Result JsonError (ℕ × ℕ)
unfolding unescaped hex4
decode_unicode_escape (a ∷ b ∷ c ∷ d ∷ rest) = unescaped (hex4 a b c d) rest
decode_unicode_escape _ = err short_unicode_escape

unicode_bytes : Result JsonError (ℕ × ℕ) → Result JsonError (Text × ℕ)
unicode_bytes (err e) = err e
unicode_bytes (ok (r, consumed)) = ok (encode_rune r, suc consumed)

-- The `switch` behind a backslash: what is appended, and how many bytes are passed over.
escape : ℕ → Text → Result JsonError (Text × ℕ)
unfolding unicode_bytes
escape c rest =
    if c == b'"' || c == b'\\' || c == b'/'
    then ok (c ∷ [], 1)
    else if c == b'b'
    then ok (8 ∷ [], 1)
    else if c == b'f'
    then ok (12 ∷ [], 1)
    else if c == b'n'
    then ok (10 ∷ [], 1)
    else if c == b'r'
    then ok (13 ∷ [], 1)
    else if c == b't'
    then ok (9 ∷ [], 1)
    else if c == b'u'
    then unicode_bytes (decode_unicode_escape rest)
    else err invalid_escape

escape_first : Text → Result JsonError (Text × ℕ)
unfolding escape
escape_first [] = err incomplete_escape
escape_first (c ∷ rest) = escape c rest

plain_rune : ℕ × ℕ → Text × ℕ
plain_rune (r, size) = (encode_rune r, size - 1)

-- One round at the byte `b`: what is appended, and how many of the bytes behind it are passed over.
unfoldable pub round : ℕ → Text → Result JsonError (Text × ℕ)
unfolding escape_first plain_rune
round b rest =
    if b == b'\\'
    then escape_first rest
    else if b == b'"'
    then err unescaped_terminator
    else if ltb b 0x20
    then err control_character
    else if ltb b 0x80
    then ok (b ∷ [], 0)
    else ok (plain_rune (decode_rune b rest))

abbrev pub prepend : Text → Result JsonError Text → Result JsonError Text
prepend out (ok later) = ok (out ++ later)
prepend out (err e) = err e

unfoldable pub decode_from : ℕ → Text → Result JsonError Text
decode_from zero s = err out_of_fuel
decode_from (suc fuel) [] = ok []
decode_from (suc fuel) (b ∷ rest) = elim (round b rest) [
  | err e ↦ err e
  | ok (out, skip) ↦ prepend out (decode_from fuel (drop skip rest))
]

-- The bytes between the first and the last, where both are quotation marks.
unfoldable pub until_last : Text → Option Text
until_last [] = none
until_last (c ∷ []) = if c == b'"' then some [] else none
until_last (c ∷ d ∷ s) = elim (until_last (d ∷ s)) [ none ↦ none | some t ↦ some (c ∷ t) ]

unfoldable pub unquote : Text → Option Text
unfolding until_last
unquote [] = none
unquote (c ∷ s) = if c == b'"' then until_last s else none

unfoldable pub decode_inner : Option Text → Result JsonError Text
decode_inner none = err not_a_json_string
decode_inner (some inner) = decode_from (suc (length inner)) inner

unfoldable pub decode_json_string_bytes : Text → Result JsonError Text
decode_json_string_bytes s = decode_inner (unquote s)

-- passwordBytes.UnmarshalJSON: null leaves the password nil.
unfoldable pub unmarshal_password : Text → Result JsonError Text
unmarshal_password s = if same_text s (codes "null") then ok [] else decode_json_string_bytes s
