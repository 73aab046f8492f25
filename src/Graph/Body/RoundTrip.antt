-- ===== src/Graph/Body/RoundTrip.antt =====
-- appendJSONString of internal/graphclient/client.go and the decoder of internal/handler/hook.go.
use password_hook_service.Prelude.{
  ℕ, zero, suc, ◌/◌, ◌%◌, ◌≤◌, ◌<◌, ◌≡◌, List, [], ◌∷◌, ◌++◌, arith, refl, ap, ◌∙◌, append_assoc,
  append-nil, some, length, length-append, drop-append, ◌-◌, All, Text, ok, Bool-cases, inl, inr,
  ltb,
}
use password_hook_service.Prelude.Utf8.{
  IsRune, encode_rune-ascii, first_byte, later_bytes, encode_rune-bytes, encode_rune, decode_rune,
  decode_rune-encode_rune, encode_rune-cons, encode_rune-first,
}
use password_hook_service.Handler.PasswordJson.{
  round, prepend, decode_from, decode_inner, decode_json_string_bytes, hex_nibble,
  decode_unicode_escape,
}
use password_hook_service.Handler.PasswordJson.Steps.{decode_from-ok, decode-quoted}
use password_hook_service.Graph.Body.{hex_digit, json_byte, json_bytes, append_json_string}

-- The bytes of a text.
unfoldable pub utf8 : List ℕ → Text
utf8 [] = []
utf8 (r ∷ rs) = encode_rune r ++ utf8 rs

utf8-cons : (r : ℕ) (rs : List ℕ) → utf8 (r ∷ rs) ≡ encode_rune r ++ utf8 rs
unfolding utf8
utf8-cons r rs = refl

json_bytes-one : (b : ℕ) → json_bytes (b ∷ []) ≡ json_byte b
unfolding json_bytes
json_bytes-one b = append-nil (json_byte b)

-- the two digits of a control character
hex_nibble-hex_digit : (b : ℕ) → hex_nibble (hex_digit b) ≡ some (b % 16)
unfolding hex_nibble hex_digit
hex_nibble-hex_digit b = ground arith

hex_nibble-zero : hex_nibble b'0' ≡ some 0
unfolding hex_nibble
hex_nibble-zero = refl

control_escape :
    (b : ℕ) (rest : Text)
    → b < 0x20
    → decode_unicode_escape (b'0' ∷ b'0' ∷ hex_digit (b / 16) ∷ hex_digit b ∷ rest) ≡ ok (b, 4)
unfolding decode_unicode_escape
control_escape b rest h =
    ground (arith, hex_nibble-hex_digit (b / 16), hex_nibble-hex_digit b, hex_nibble-zero)

round-control :
    (b : ℕ) (rest : Text)
    → b < 0x20
    → round b'\\' (b'u' ∷ b'0' ∷ b'0' ∷ hex_digit (b / 16) ∷ hex_digit b ∷ rest) ≡ ok (b ∷ [], 5)
unfolding round
round-control b rest h = rw (control_escape b rest h, encode_rune-ascii b (omega arith))

-- One byte of ASCII, however it is written, is read back by one round.
round-json_byte :
    (r : ℕ) (rest : Text)
    → r < 0x80
    → round (first_byte (json_byte r)) (later_bytes (json_byte r) ++ rest)
      ≡ ok (r ∷ [], length (later_bytes (json_byte r)))
unfolding round json_byte
round-json_byte r rest h = ground (arith, round-control r rest)

json_bytes-append : (s t : Text) → json_bytes (s ++ t) ≡ json_bytes s ++ json_bytes t
unfolding json_bytes
json_bytes-append [] t = refl
json_bytes-append (b ∷ s) t = rw (json_bytes-append s t, append_assoc)

-- Bytes beyond ASCII are written as they are.
json_bytes-high : (s : Text) → All (λ b. 0x80 ≤ b) s → json_bytes s ≡ s
unfolding json_bytes json_byte
json_bytes-high [] h = refl
json_bytes-high (b ∷ s) (h, hs) = ground (arith, json_bytes-high s hs)

abbrev written : ℕ → Text
written r = json_bytes (encode_rune r)

round-beyond :
    (b : ℕ) (rest : Text)
    → 0x80 ≤ b
    → round b rest ≡ ok (encode_rune (decode_rune b rest).0, (decode_rune b rest).1 - 1)
unfolding round
round-beyond b rest h = ground arith

round-high :
    (r : ℕ) (rest : Text)
    → IsRune r
    → 0x80 ≤ r
    → round (first_byte (encode_rune r)) (later_bytes (encode_rune r) ++ rest)
      ≡ ok (encode_rune r, length (later_bytes (encode_rune r)))
round-high r rest v h =
    let b = first_byte (encode_rune r) in
    let s = later_bytes (encode_rune r) in
    let size : length (encode_rune r) ≡ suc (length s) = ap length (encode_rune-cons r) in
    rw (round-beyond b (s ++ rest) (encode_rune-first r v h), decode_rune-encode_rune r rest v)
      (ground (arith, size))

-- One rune, however it is written, is read back by one round.
round-written :
    (r : ℕ) (rest : Text)
    → IsRune r
    → round (first_byte (written r)) (later_bytes (written r) ++ rest)
      ≡ ok (encode_rune r, length (later_bytes (written r)))
round-written r rest v = elim (Bool-cases (ltb r 0x80)) [
  | inl low ↦
      let small : r < 0x80 = ground arith in
      let e = encode_rune-ascii r small in rw (e, json_bytes-one) (round-json_byte r rest small)
  | inr high ↦
      let big : 0x80 ≤ r = ground arith in
      rw (json_bytes-high (encode_rune r) (encode_rune-bytes r v big)) (round-high r rest v big)
]

json_byte-cons : (r : ℕ) → json_byte r ≡ first_byte (json_byte r) ∷ later_bytes (json_byte r)
unfolding json_byte
json_byte-cons r = ground arith

written-cons : (r : ℕ) → IsRune r → written r ≡ first_byte (written r) ∷ later_bytes (written r)
written-cons r v = elim (Bool-cases (ltb r 0x80)) [
  | inl low ↦ rw (encode_rune-ascii r (ground arith), json_bytes-one) (json_byte-cons r)
  | inr high ↦
      rw (json_bytes-high (encode_rune r) (encode_rune-bytes r v (ground arith)))
        (encode_rune-cons r)
]

length-utf8 : (rs : List ℕ) → All IsRune rs → length rs ≤ length (json_bytes (utf8 rs))
length-utf8 [] v = omega arith
length-utf8 (r ∷ rs) (v, vs) =
    rw (utf8-cons r rs, json_bytes-append)
      (omega (
        arith,
        length-append (written r) (json_bytes (utf8 rs)),
        length-utf8 rs vs,
        ap length (written-cons r v),
      ))

-- What one rune adds to the input costs one round and adds the rune's bytes to the output.
decode_from-written :
    (fuel r : ℕ) (rest : Text)
    → IsRune r
    → decode_from (suc fuel) (written r ++ rest) ≡ prepend (encode_rune r) (decode_from fuel rest)
decode_from-written fuel r rest v =
    let b = first_byte (written r) in
    let s = later_bytes (written r) in
    rw (written-cons r v)
      (rw (decode_from-ok fuel b (s ++ rest) (round-written r rest v), drop-append s rest) refl)

decode_from-utf8 :
    (fuel : ℕ) (rs : List ℕ)
    → All IsRune rs
    → length rs < fuel
    → decode_from fuel (json_bytes (utf8 rs)) ≡ ok (utf8 rs)
decode_from-utf8 zero rs v k = elim k [ ]
decode_from-utf8 (suc fuel) [] v k = unfold decode_from json_bytes utf8 in refl
decode_from-utf8 (suc fuel) (r ∷ rs) (v, vs) k =
    rw
      (
        utf8-cons r rs,
        json_bytes-append,
        decode_from-written fuel r (json_bytes (utf8 rs)) v,
        decode_from-utf8 fuel rs vs (omega arith),
      )
      refl

-- For every sequence of Unicode scalar values, the JSON string that the Graph client writes of its
-- UTF-8 bytes is decoded to those bytes by the decoder of the hook.
pub decode-append_json_string :
    (rs : List ℕ)
    → All IsRune rs
    → decode_json_string_bytes (append_json_string [] (utf8 rs)) ≡ ok (utf8 rs)
unfolding append_json_string
decode-append_json_string rs v =
    decode-quoted (json_bytes (utf8 rs))
    ∙ (unfold decode_inner in
        decode_from-utf8 (suc (length (json_bytes (utf8 rs)))) rs v
          (omega (arith, length-utf8 rs v)))
