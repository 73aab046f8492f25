-- ===== src/Handler/PasswordJson/Fuel.antt =====
-- The fuel of the loop of decodeJSONStringBytes in internal/handler/hook.go.
use password_hook_service.Prelude.{
  ℕ, zero, suc, ◌<◌, ◌≢◌, Option, none, some, [], ◌∷◌, arith, length, drop, length-drop, Text,
  Result, ok, err, Result-cases, inl, inr,
}
use password_hook_service.Handler.PasswordJson.{
  JsonError, out_of_fuel, unescaped, decode_unicode_escape, hex4, unicode_bytes, escape,
  escape_first, round, prepend, decode_from, decode_inner, decode_json_string_bytes, unquote,
}
use password_hook_service.Handler.PasswordJson.Steps.{decode_from-ok, decode_from-err}

unescaped-fuel : (o : Option ℕ) (rest : Text) → unescaped o rest ≢ err out_of_fuel
unfolding unescaped
unescaped-fuel none rest h = cc h
unescaped-fuel (some r) rest h = ground arith

decode_unicode_escape-fuel : (s : Text) → decode_unicode_escape s ≢ err out_of_fuel
unfolding decode_unicode_escape
decode_unicode_escape-fuel (a ∷ b ∷ c ∷ d ∷ rest) h = unescaped-fuel (hex4 a b c d) rest h
decode_unicode_escape-fuel [] h = cc h
decode_unicode_escape-fuel (a ∷ []) h = cc h
decode_unicode_escape-fuel (a ∷ b ∷ []) h = cc h
decode_unicode_escape-fuel (a ∷ b ∷ c ∷ []) h = cc h

unicode_bytes-fuel :
    (r : Result JsonError (ℕ × ℕ)) → r ≢ err out_of_fuel → unicode_bytes r ≢ err out_of_fuel
unfolding unicode_bytes
unicode_bytes-fuel (ok v) n h = cc h
unicode_bytes-fuel (err e) n h = n (cc h)

escape-fuel : (c : ℕ) (rest : Text) → escape c rest ≢ err out_of_fuel
unfolding escape
escape-fuel c rest h =
    ground
      (arith, unicode_bytes-fuel (decode_unicode_escape rest) (decode_unicode_escape-fuel rest))

escape_first-fuel : (rest : Text) → escape_first rest ≢ err out_of_fuel
escape_first-fuel [] h = unfold escape_first in cc h
escape_first-fuel (c ∷ rest) h = unfold escape_first in escape-fuel c rest h

round-fuel : (b : ℕ) (rest : Text) → round b rest ≢ err out_of_fuel
unfolding round
round-fuel b rest h = ground (arith, escape_first-fuel rest)

prepend-fuel :
    (out : Text) (r : Result JsonError Text) → r ≢ err out_of_fuel → prepend out r ≢ err out_of_fuel
prepend-fuel out (ok t) n h = cc h
prepend-fuel out (err e) n h = n (cc h)

decode_from-fuel : (fuel : ℕ) (s : Text) → length s < fuel → decode_from fuel s ≢ err out_of_fuel
decode_from-fuel zero s k = elim k [ ]
decode_from-fuel (suc fuel) [] k = unfold decode_from in λ h. cc h
decode_from-fuel (suc fuel) (b ∷ rest) k = elim (Result-cases (round b rest)) [
  | inl ((out, skip), e) ↦ rw (decode_from-ok fuel b rest e) (
      prepend-fuel out _
        (decode_from-fuel fuel (drop skip rest) (omega (arith, length-drop skip rest))))
  | inr (x, e) ↦ rw (decode_from-err fuel b rest e) (λ h. round-fuel b rest (cc (e, h)))
]

decode_inner-fuel : (o : Option Text) → decode_inner o ≢ err out_of_fuel
decode_inner-fuel none h = unfold decode_inner in cc h
decode_inner-fuel (some inner) h =
    unfold decode_inner in decode_from-fuel (suc (length inner)) inner (omega arith) h

-- The fuel given to the loop, one more than there are bytes, is enough for every input.
decode_json_string_bytes-total : (s : Text) → decode_json_string_bytes s ≢ err out_of_fuel
unfolding decode_json_string_bytes
decode_json_string_bytes-total s = decode_inner-fuel (unquote s)
