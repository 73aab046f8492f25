-- ===== src/Handler/PasswordJson/Strict.antt =====
-- What an accepted JSON string of internal/handler/hook.go holds.
use mathlib.Core.Path.{subst}
use password_hook_service.Prelude.{
  ℕ, zero, suc, ◌-◌, ◌≤◌, Option, none, some, [], ◌∷◌, ◌≡◌, refl, sym, ◌∙◌, arith, take, drop,
  length, Text, Result, ok, err, All, Result-cases, inl, inr, Option-cases, Bool-cases, ◌==◌,
  ==_iff, ◌++◌, ◌⊎◌,
}
use password_hook_service.Prelude.Utf8.{decode_rune, decode_rune-continues}
use password_hook_service.Handler.PasswordJson.{
  JsonError, hex_nibble, join4, hex4, pair_rune, low_surrogate, unescaped, decode_unicode_escape,
  unicode_bytes, escape, escape_first, plain_rune, prepend, round, decode_from, decode_inner,
  unquote, until_last, decode_json_string_bytes,
}
use password_hook_service.Handler.PasswordJson.Steps.{decode_from-ok, decode_from-err}

-- No byte is a control character.
abbrev pub IsClear : Text → Type 0
IsClear s = All (λ b. 0x20 ≤ b) s

hex_nibble-clear : (b : ℕ) {n : ℕ} → hex_nibble b ≡ some n → 0x20 ≤ b
unfolding hex_nibble
hex_nibble-clear b h = ground arith

join4-each :
    (a b c d : Option ℕ) {n : ℕ}
    → join4 a b c d ≡ some n
    → (x : ℕ) × (y : ℕ) × (z : ℕ) × (w : ℕ) × (a ≡ some x)
      × (b ≡ some y)
      × (c ≡ some z)
      × (d ≡ some w)
unfolding join4
join4-each (some a) (some b) (some c) (some d) h = (a, b, c, d, refl, refl, refl, refl)
join4-each none b c d h = cc h
join4-each (some a) none c d h = cc h
join4-each (some a) (some b) none d h = cc h
join4-each (some a) (some b) (some c) none h = cc h

hex4-IsClear : (a b c d : ℕ) {n : ℕ} → hex4 a b c d ≡ some n → IsClear (a ∷ b ∷ c ∷ d ∷ [])
unfolding hex4
hex4-IsClear a b c d h =
    let (x, y, z, w, ea, eb, ec, ed) =
      join4-each (hex_nibble a) (hex_nibble b) (hex_nibble c) (hex_nibble d) h in
    (
      hex_nibble-clear a ea,
      (hex_nibble-clear b eb, (hex_nibble-clear c ec, (hex_nibble-clear d ed, tt))),
    )

low_surrogate-IsClear :
    (r : ℕ) (rest : Text)
    → ((low_surrogate r rest).1 ≡ 4) ⊎ (((low_surrogate r rest).1 ≡ 10) × IsClear (take 6 rest))
unfolding low_surrogate pair_rune
low_surrogate-IsClear r (x ∷ y ∷ a ∷ b ∷ c ∷ d ∷ rest) = elim (Option-cases (hex4 a b c d)) [
  | inl e ↦ rw e (ground arith)
  | inr (n, e) ↦ rw e (ground (arith, hex4-IsClear a b c d e))
]
low_surrogate-IsClear r [] = inl refl
low_surrogate-IsClear r (_ ∷ []) = inl refl
low_surrogate-IsClear r (_ ∷ _ ∷ []) = inl refl
low_surrogate-IsClear r (_ ∷ _ ∷ _ ∷ []) = inl refl
low_surrogate-IsClear r (_ ∷ _ ∷ _ ∷ _ ∷ []) = inl refl
low_surrogate-IsClear r (_ ∷ _ ∷ _ ∷ _ ∷ _ ∷ []) = inl refl

All-above : (s : Text) → All (λ c. 0x80 ≤ c) s → IsClear s
All-above [] h = tt
All-above (c ∷ s) (h, hs) = (omega (arith, h), All-above s hs)

unescaped-IsClear :
    (o : Option ℕ) (rest : Text) {r consumed : ℕ}
    → unescaped o rest ≡ ok (r, consumed)
    → (consumed ≡ 4) ⊎ ((consumed ≡ 10) × IsClear (take 6 rest))
unfolding unescaped
unescaped-IsClear none rest h = cc h
unescaped-IsClear (some n) rest h = ground (arith, low_surrogate-IsClear n rest)

decode_unicode_escape-IsClear :
    (s : Text) {r consumed : ℕ}
    → decode_unicode_escape s ≡ ok (r, consumed)
    → IsClear (take consumed s)
unfolding decode_unicode_escape unescaped
decode_unicode_escape-IsClear (a ∷ b ∷ c ∷ d ∷ rest) h = elim (Option-cases (hex4 a b c d)) [
  | inl e ↦ cc (rw e at h)
  | inr (n, e) ↦
      let (ca, (cb, (cc', (cd, _)))) = hex4-IsClear a b c d e in
      elim (unescaped-IsClear (hex4 a b c d) rest h) [
        | inl four ↦ rw four (ca, (cb, (cc', (cd, tt))))
        | inr (ten, more) ↦ rw ten (ca, (cb, (cc', (cd, more))))
      ]
]
decode_unicode_escape-IsClear [] h = cc h
decode_unicode_escape-IsClear (a ∷ []) h = cc h
decode_unicode_escape-IsClear (a ∷ b ∷ []) h = cc h
decode_unicode_escape-IsClear (a ∷ b ∷ c ∷ []) h = cc h

-- The bytes that a round passes over are clear, if it goes on.
abbrev IsTaken : Text → Result JsonError (Text × ℕ) → Type 0
IsTaken s (err e) = Unit
IsTaken s (ok (out, skip)) = IsClear (take skip s)

unicode_bytes-IsTaken :
    (c : ℕ) (s : Text) (r : Result JsonError (ℕ × ℕ))
    → decode_unicode_escape s ≡ r
    → 0x20 ≤ c
    → IsTaken (c ∷ s) (unicode_bytes r)
unfolding unicode_bytes
unicode_bytes-IsTaken c s (err x) e h = tt
unicode_bytes-IsTaken c s (ok (r, consumed)) e h = (h, decode_unicode_escape-IsClear s e)

escape-IsTaken : (c : ℕ) (rest : Text) → IsTaken (c ∷ rest) (escape c rest)
unfolding escape
escape-IsTaken c rest =
    ground (arith, unicode_bytes-IsTaken c rest (decode_unicode_escape rest) refl)

escape_first-IsTaken : (s : Text) → IsTaken s (escape_first s)
unfolding escape_first
escape_first-IsTaken [] = tt
escape_first-IsTaken (c ∷ s) = escape-IsTaken c s

-- A round that goes on has begun at a clear byte, too.
abbrev IsRound : ℕ → Text → Result JsonError (Text × ℕ) → Type 0
IsRound b rest (err e) = Unit
IsRound b rest (ok (out, skip)) = (0x20 ≤ b) × IsClear (take skip rest)

taken-IsRound :
    (b : ℕ) (rest : Text) (r : Result JsonError (Text × ℕ))
    → 0x20 ≤ b
    → IsTaken rest r
    → IsRound b rest r
taken-IsRound b rest (err e) k h = tt
taken-IsRound b rest (ok (out, skip)) k h = (k, h)

round-IsRound : (b : ℕ) (rest : Text) → IsRound b rest (round b rest)
unfolding round plain_rune
round-IsRound b rest = ground (
  arith,
  taken-IsRound b rest (escape_first rest),
  escape_first-IsTaken rest,
  All-above (take ((decode_rune b rest).1 - 1) rest) (decode_rune-continues b rest),
)

prepend-ok :
    (out : Text) (r : Result JsonError Text) {t : Text}
    → prepend out r ≡ ok t
    → (t' : Text) × (r ≡ ok t')
prepend-ok out (ok t') h = (t', refl)
prepend-ok out (err e) h = cc h

take-drop-IsClear : (n : ℕ) (s : Text) → IsClear (take n s) → IsClear (drop n s) → IsClear s
take-drop-IsClear zero s h k = k
take-drop-IsClear (suc n) [] h k = tt
take-drop-IsClear (suc n) (b ∷ s) (h, hs) k = (h, take-drop-IsClear n s hs k)

decode_from-IsClear : (fuel : ℕ) (s : Text) {out : Text} → decode_from fuel s ≡ ok out → IsClear s
decode_from-IsClear zero s h = unfold decode_from in cc h
decode_from-IsClear (suc fuel) [] h = tt
decode_from-IsClear (suc fuel) (b ∷ rest) h = elim (Result-cases (round b rest)) [
  | inl ((out, skip), e) ↦
      let (k, taken) = subst (IsRound b rest) e (round-IsRound b rest) in
      let (later, rest_ok) =
        prepend-ok out (decode_from fuel (drop skip rest))
          (sym (decode_from-ok fuel b rest e) ∙ h) in
      (k, take-drop-IsClear skip rest taken (decode_from-IsClear fuel (drop skip rest) rest_ok))
  | inr (x, e) ↦ let failed = decode_from-err fuel b rest e in cc (failed, h)
]

until_last-some : (s : Text) {inner : Text} → until_last s ≡ some inner → s ≡ inner ++ b'"' ∷ []
unfolding until_last
until_last-some [] h = cc h
until_last-some (c ∷ []) h = ground (arith, ==_iff c b'"')
until_last-some (c ∷ d ∷ s) h = elim (Option-cases (until_last (d ∷ s))) [
  | inl e ↦ cc (rw e at h)
  | inr (t, e) ↦ let deeper = until_last-some (d ∷ s) e in let same = rw e at h in cc (deeper, same)
]

unquote-some : (s : Text) {inner : Text} → unquote s ≡ some inner → s ≡ b'"' ∷ (inner ++ b'"' ∷ [])
unfolding unquote
unquote-some [] h = cc h
unquote-some (c ∷ s) h = elim (Bool-cases (c == b'"')) [
  | inl same ↦
      let first = (==_iff c b'"').0 same in
      let last = until_last-some s (rw same at h) in cc (first, last)
  | inr other ↦ cc (rw other at h)
]

inner-IsClear :
    (o : Option Text) {out : Text}
    → decode_inner o ≡ ok out
    → (inner : Text) × (o ≡ some inner) × IsClear inner
unfolding decode_inner
inner-IsClear none h = cc h
inner-IsClear (some inner) h = (inner, refl, decode_from-IsClear (suc (length inner)) inner h)

-- A JSON string that is decoded is quotation marks around bytes none of which is a control character, wherever in it
-- they stand: also where an escape or a rune of several bytes passes over them.
pub decode_json_string_bytes-IsClear :
    (s : Text) {out : Text}
    → decode_json_string_bytes s ≡ ok out
    → (inner : Text) × (s ≡ b'"' ∷ (inner ++ b'"' ∷ [])) × IsClear inner
unfolding decode_json_string_bytes
decode_json_string_bytes-IsClear s h =
    let (inner, e, clear) = inner-IsClear (unquote s) h in (inner, unquote-some s e, clear)
