-- ===== src/Prelude/Utf8.antt =====
-- utf8.AppendRune and utf8.DecodeRune of the package unicode/utf8.
use Prim.Native.Nat.{◌-◌, ℕ, ◌+◌, ◌*◌, ◌/◌, ◌%◌, ◌≤◌, ◌<◌}
use mathlib.Core.Path.{◌≡◌}
use mathlib.Core.Logic.{◌⊎◌}
use mathlib.Core.Bool.{Bool, ◌&&◌, ◌||◌}
use mathlib.Core.List.{List, [], ◌∷◌, ◌++◌}
use native.Mathlib.Omega.{arith}
use password_hook_service.Prelude.Lists.{length, take, All}
use password_hook_service.Prelude.Tests.{ltb, leb, if◌then◌else◌}

-- utf8.RuneError
abbrev pub rune_error : ℕ
rune_error = 0xFFFD

abbrev pub between : ℕ → ℕ → ℕ → Bool
between lo hi c = leb lo c && leb c hi

abbrev pub IsRune : ℕ → Type 0
IsRune r = (r < 0xD800) ⊎ ((0xE000 ≤ r) × (r ≤ 0x10FFFF))

encode3 : ℕ → List ℕ
encode3 r = (0xE0 + r / 4096) ∷ (0x80 + r / 64 % 64) ∷ (0x80 + r % 64) ∷ []

-- utf8.AppendRune(nil, r)
unfoldable pub encode_rune : ℕ → List ℕ
unfolding encode3
encode_rune r =
    if ltb r 0x80
    then r ∷ []
    else if ltb r 0x800
    then (0xC0 + r / 64) ∷ (0x80 + r % 64) ∷ []
    else if between 0xD800 0xDFFF r || ltb 0x10FFFF r
    then encode3 rune_error
    else if ltb r 0x10000
    then encode3 r
    else (0xF0 + r / 262144) ∷ (0x80 + r / 4096 % 64) ∷ (0x80 + r / 64 % 64) ∷ (0x80 + r % 64) ∷ []

-- The range of the second byte after a given first byte.
second_low : ℕ → ℕ
second_low b =
    if leb b 0xE0 && leb 0xE0 b then 0xA0 else if leb b 0xF0 && leb 0xF0 b then 0x90 else 0x80

second_high : ℕ → ℕ
second_high b =
    if leb b 0xED && leb 0xED b then 0x9F else if leb b 0xF4 && leb 0xF4 b then 0x8F else 0xBF

decode2 : ℕ → List ℕ → ℕ × ℕ
decode2 b (c ∷ s) = if between 0x80 0xBF c then (b % 32 * 64 + c % 64, 2) else (rune_error, 1)
decode2 b [] = (rune_error, 1)

decode3 : ℕ → List ℕ → ℕ × ℕ
unfolding second_low second_high
decode3 b (c ∷ d ∷ s) =
    if between (second_low b) (second_high b) c && between 0x80 0xBF d
    then (b % 16 * 4096 + c % 64 * 64 + d % 64, 3)
    else (rune_error, 1)
decode3 b _ = (rune_error, 1)

decode4 : ℕ → List ℕ → ℕ × ℕ
unfolding second_low second_high
decode4 b (c ∷ d ∷ e ∷ s) =
    if between (second_low b) (second_high b) c && (between 0x80 0xBF d && between 0x80 0xBF e)
    then (b % 8 * 262144 + c % 64 * 4096 + d % 64 * 64 + e % 64, 4)
    else (rune_error, 1)
decode4 b _ = (rune_error, 1)

-- The rune and its size, of bytes that are not empty: the first, and the others.
unfoldable pub decode_rune : ℕ → List ℕ → ℕ × ℕ
unfolding decode2 decode3 decode4
decode_rune b s =
    if ltb b 0x80
    then (b, 1)
    else if between 0xC2 0xDF b
    then decode2 b s
    else if between 0xE0 0xEF b
    then decode3 b s
    else if between 0xF0 0xF4 b
    then decode4 b s
    else (rune_error, 1)

decode1-encode : (r : ℕ) (rest : List ℕ) → r < 0x80 → decode_rune r rest ≡ (r, 1)
unfolding decode_rune
decode1-encode r rest h = ground arith

decode2-encode :
    (r : ℕ) (rest : List ℕ)
    → 0x80 ≤ r
    → r < 0x800
    → decode_rune (0xC0 + r / 64) ((0x80 + r % 64) ∷ rest) ≡ (r, 2)
unfolding decode_rune
decode2-encode r rest h k = ground arith

decode3-encode :
    (r : ℕ) (rest : List ℕ)
    → 0x800 ≤ r
    → r < 0x10000
    → IsRune r
    → decode_rune (0xE0 + r / 4096) ((0x80 + r / 64 % 64) ∷ (0x80 + r % 64) ∷ rest) ≡ (r, 3)
unfolding decode_rune
decode3-encode r rest h k v = ground arith

decode4-encode :
    (r : ℕ) (rest : List ℕ)
    → 0x10000 ≤ r
    → r ≤ 0x10FFFF
    → decode_rune
        (0xF0 + r / 262144)
        ((0x80 + r / 4096 % 64) ∷ (0x80 + r / 64 % 64) ∷ (0x80 + r % 64) ∷ rest)
      ≡ (r, 4)
unfolding decode_rune
decode4-encode r rest h k = ground arith

pub encode_rune-ascii : (r : ℕ) → r < 0x80 → encode_rune r ≡ r ∷ []
unfolding encode_rune
encode_rune-ascii r h = ground arith

-- The first byte of a rune, and the others.
abbrev pub first_byte : List ℕ → ℕ
first_byte [] = 0
first_byte (b ∷ s) = b

abbrev pub later_bytes : List ℕ → List ℕ
later_bytes [] = []
later_bytes (b ∷ s) = s

-- Of the bytes of a rune, with anything behind them, the rune and their number come back.
pub decode_rune-encode_rune :
    (r : ℕ) (rest : List ℕ)
    → IsRune r
    → decode_rune (first_byte (encode_rune r)) (later_bytes (encode_rune r) ++ rest)
      ≡ (r, length (encode_rune r))
unfolding encode_rune
decode_rune-encode_rune r rest v = ground (
  arith,
  decode2-encode r rest,
  decode3-encode r rest,
  decode4-encode r rest,
  decode1-encode r rest,
)

-- The first byte of a rune beyond ASCII is not ASCII, and there are others behind it.
pub encode_rune-bytes : (r : ℕ) → IsRune r → 0x80 ≤ r → All (λ b. 0x80 ≤ b) (encode_rune r)
unfolding encode_rune
encode_rune-bytes r v h = ground arith

pub encode_rune-cons :
    (r : ℕ) → encode_rune r ≡ first_byte (encode_rune r) ∷ later_bytes (encode_rune r)
unfolding encode_rune
encode_rune-cons r = ground arith

pub encode_rune-first : (r : ℕ) → IsRune r → 0x80 ≤ r → 0x80 ≤ first_byte (encode_rune r)
unfolding encode_rune
encode_rune-first r v h = ground arith

-- decode_rune takes a byte at least.
decode_rune-advances : (b : ℕ) (s : List ℕ) → 1 ≤ (decode_rune b s).1
unfolding decode_rune
decode_rune-advances b s = ground arith

decode2-continues : (b : ℕ) (s : List ℕ) → All (λ c. 0x80 ≤ c) (take ((decode2 b s).1 - 1) s)
unfolding decode2
decode2-continues b [] = tt
decode2-continues b (c ∷ s) = ground arith

decode3-continues : (b : ℕ) (s : List ℕ) → All (λ c. 0x80 ≤ c) (take ((decode3 b s).1 - 1) s)
unfolding decode3
decode3-continues b [] = tt
decode3-continues b (_ ∷ []) = tt
decode3-continues b (c ∷ d ∷ s) = ground arith

decode4-continues : (b : ℕ) (s : List ℕ) → All (λ c. 0x80 ≤ c) (take ((decode4 b s).1 - 1) s)
unfolding decode4
decode4-continues b [] = tt
decode4-continues b (_ ∷ []) = tt
decode4-continues b (_ ∷ _ ∷ []) = tt
decode4-continues b (c ∷ d ∷ e ∷ s) = ground arith

-- The bytes that decode_rune takes behind the first are continuation bytes.
pub decode_rune-continues :
    (b : ℕ) (s : List ℕ) → All (λ c. 0x80 ≤ c) (take ((decode_rune b s).1 - 1) s)
unfolding decode_rune
decode_rune-continues b s =
    ground (arith, decode2-continues b s, decode3-continues b s, decode4-continues b s)
