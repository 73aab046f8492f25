-- ===== src/Prelude/Strings.antt =====
-- Go strings as lists of code points, and the functions of the packages strings and unicode
-- that the service calls. The letter, digit and case tables of unicode enter as a record.
use Prim.Native.Nat.{ℕ, ◌+◌}
use Prim.Native.Char.{code}
use Prim.Native.String.{String}
use mathlib.Core.Path.{◌≡◌, refl, ap}
use mathlib.Core.Logic.{◌↔◌, inl, inr}
use mathlib.Core.Bool.{Bool, true, false, ◌&&◌, ◌||◌}
use mathlib.Core.List.{List, [], ◌∷◌, ◌++◌, map}
use native.Mathlib.Omega.{arith}
use password_hook_service.Prelude.Tests.{Bool-cases, leb, ◌==◌, if◌then◌else◌}
use password_hook_service.Prelude.Lists.{is_empty}

abbrev pub Text : Type 0
Text = List ℕ

abbrev pub codes : String → Text
codes String.[] = []
codes (String.◌∷◌ c s) = code c ∷ codes s

unfoldable pub same_text : Text → Text → Bool
same_text [] [] = true
same_text (a ∷ s) (b ∷ t) = a == b && same_text s t
same_text _ _ = false

pub same_text_iff : (s t : Text) → (same_text s t ≡ true) ↔ (s ≡ t)
unfolding same_text
same_text_iff [] [] = ground arith
same_text_iff [] (b ∷ t) = ground arith
same_text_iff (a ∷ s) [] = ground arith
same_text_iff (a ∷ s) (b ∷ t) = ground (arith, same_text_iff s t)

pub same_text_refl : (s : Text) → same_text s s ≡ true
same_text_refl s = (same_text_iff s s).1 refl

-- unicode.IsSpace
unfoldable pub is_space : ℕ → Bool
is_space c =
    (leb 9 c && leb c 13)
    || c == 0x20
    || c == 0x85
    || c == 0xA0
    || c == 0x1680
    || (leb 0x2000 c && leb c 0x200a)
    || c == 0x2028
    || c == 0x2029
    || c == 0x202f
    || c == 0x205f
    || c == 0x3000

trim_left : Text → Text
trim_left [] = []
trim_left (c ∷ s) = let rest = trim_left s in if is_space c then rest else c ∷ s

trim_right : Text → Text
trim_right [] = []
trim_right (c ∷ s) = let rest = trim_right s in if is_space c && is_empty rest then [] else c ∷ rest

-- strings.TrimSpace
unfoldable pub trim_space : Text → Text
unfolding trim_left trim_right is_space
trim_space s = trim_right (trim_left s)

-- strings.TrimSpace(s) == ""
unfoldable pub is_blank : Text → Bool
unfolding trim_space
is_blank s = is_empty (trim_space s)

-- strings.TrimRight(s, "/")
unfoldable pub trim_slashes : Text → Text
trim_slashes [] = []
trim_slashes (c ∷ s) =
    let rest = trim_slashes s in if c == b'/' && is_empty rest then [] else c ∷ rest

trim_right_idem : (s : Text) → trim_right (trim_right s) ≡ trim_right s
unfolding trim_right
trim_right_idem [] = refl
trim_right_idem (c ∷ s) = ground (arith, trim_right_idem s)

trim_left-trim_right : (s : Text) → trim_left (trim_right (trim_left s)) ≡ trim_right (trim_left s)
unfolding trim_left trim_right
trim_left-trim_right [] = refl
trim_left-trim_right (c ∷ s) = ground (arith, trim_left-trim_right s)

pub trim_space-trim_space : (s : Text) → trim_space (trim_space s) ≡ trim_space s
unfolding trim_space
trim_space-trim_space s = rw trim_left-trim_right (trim_right_idem (trim_left s))

module _ (c : ℕ) (t : Text) (solid : is_space c ≡ false) where
  trim_right-append : (s : Text) → is_empty (trim_right (s ++ c ∷ t)) ≡ false
  unfolding trim_right
  trim_right-append [] = ground arith
  trim_right-append (a ∷ s) = ground (arith, trim_right-append s)

  -- A text with a character that is no space is not blank.
  pub is_blank-append : (s : Text) → is_blank (s ++ c ∷ t) ≡ false
  unfolding is_blank trim_left
  is_blank-append [] = rw solid (trim_right-append [])
  is_blank-append (a ∷ s) = elim (Bool-cases (is_space a)) [
    | inl space ↦ rw space (is_blank-append s)
    | inr other ↦ rw other (trim_right-append (a ∷ s))
  ]

pub is_blank-trim_space : (s : Text) → is_blank (trim_space s) ≡ is_empty (trim_space s)
unfolding is_blank
is_blank-trim_space s = ap is_empty (trim_space-trim_space s)

-- unicode.IsLetter, unicode.IsDigit and unicode.ToLower, with what the tables guarantee.
pub record Unicode : Type 0 where
  pub is_letter : ℕ → Bool
  pub is_digit : ℕ → Bool
  pub to_lower : ℕ → ℕ
  pub to_lower_idem : (c : ℕ) → to_lower (to_lower c) ≡ to_lower c
  pub is_space-to_lower : (c : ℕ) → is_space (to_lower c) ≡ is_space c
  pub letter_not_at : is_letter b'@' ≡ false
  pub digit_not_at : is_digit b'@' ≡ false

module _ (u : Unicode) where
  -- strings.ToLower
  unfoldable pub lower : Text → Text
  lower s = map u.to_lower s

  lower-lower : (s : Text) → lower (lower s) ≡ lower s
  unfolding lower
  lower-lower [] = refl
  lower-lower (c ∷ s) = cc (u.to_lower_idem c, lower-lower s)

  trim_left-lower : (s : Text) → trim_left (lower s) ≡ lower (trim_left s)
  unfolding trim_left lower
  trim_left-lower [] = refl
  trim_left-lower (c ∷ s) = ground (arith, u.is_space-to_lower c, trim_left-lower s)

  is_empty-lower : (s : Text) → is_empty (lower s) ≡ is_empty s
  unfolding lower
  is_empty-lower [] = refl
  is_empty-lower (c ∷ s) = refl

  trim_right-lower : (s : Text) → trim_right (lower s) ≡ lower (trim_right s)
  unfolding trim_right lower
  trim_right-lower [] = refl
  trim_right-lower (c ∷ s) =
      ground (arith, u.is_space-to_lower c, trim_right-lower s, is_empty-lower (trim_right s))

  pub trim_space-lower : (s : Text) → trim_space (lower s) ≡ lower (trim_space s)
  unfolding trim_space
  trim_space-lower s = rw trim_left-lower (trim_right-lower (trim_left s))

  -- strings.ToLower(strings.TrimSpace(s))
  unfoldable pub normalize : Text → Text
  unfolding lower
  normalize s = lower (trim_space s)

  pub normalize_idem : (s : Text) → normalize (normalize s) ≡ normalize s
  unfolding normalize
  normalize_idem s = rw (trim_space-lower, trim_space-trim_space) (lower-lower (trim_space s))

-- The tables cut down to ASCII.
abbrev pub ascii_lower : ℕ → ℕ
ascii_lower c = if leb b'A' c && leb c b'Z' then c + 32 else c

pub ascii_lower_idem : (c : ℕ) → ascii_lower (ascii_lower c) ≡ ascii_lower c
ascii_lower_idem c = ground arith

pub is_space-ascii_lower : (c : ℕ) → is_space (ascii_lower c) ≡ is_space c
unfolding is_space
is_space-ascii_lower c = ground arith

abbrev pub ascii : Unicode
ascii = record {
  is_letter = λ c. (leb b'A' c && leb c b'Z') || (leb b'a' c && leb c b'z');
  is_digit = λ c. leb b'0' c && leb c b'9';
  to_lower = ascii_lower;
  to_lower_idem = ascii_lower_idem;
  is_space-to_lower = is_space-ascii_lower;
  letter_not_at = refl;
  digit_not_at = refl;
}
