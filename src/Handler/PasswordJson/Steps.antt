-- ===== src/Handler/PasswordJson/Steps.antt =====
-- One round of the loop of decodeJSONStringBytes in internal/handler/hook.go, as an equation.
use password_hook_service.Prelude.{ℕ, suc, ◌≡◌, refl, ◌∷◌, ◌++◌, [], some, drop, Text, ok, err}
use password_hook_service.Handler.PasswordJson.{
  JsonError, round, prepend, decode_from, until_last, unquote, decode_inner,
  decode_json_string_bytes,
}

module _ (fuel b : ℕ) (rest : Text) where
  pub decode_from-ok :
      {out : Text} {skip : ℕ}
      → round b rest ≡ ok (out, skip)
      → decode_from (suc fuel) (b ∷ rest) ≡ prepend out (decode_from fuel (drop skip rest))
  unfolding decode_from
  decode_from-ok e = rw (e, decode_from)

  pub decode_from-err :
      {x : JsonError} → round b rest ≡ err x → decode_from (suc fuel) (b ∷ rest) ≡ err x
  unfolding decode_from
  decode_from-err e = rw (e, decode_from)

until_last-quoted : (s : Text) → until_last (s ++ b'"' ∷ []) ≡ some s
unfolding until_last
until_last-quoted [] = refl
until_last-quoted (c ∷ []) = refl
until_last-quoted (c ∷ d ∷ s) = rw (until_last-quoted (d ∷ s), until_last)

-- The loop sees what stands between the quotation marks.
pub decode-quoted :
    (s : Text) → decode_json_string_bytes (b'"' ∷ (s ++ b'"' ∷ [])) ≡ decode_inner (some s)
unfolding decode_json_string_bytes unquote
decode-quoted s = rw until_last-quoted
