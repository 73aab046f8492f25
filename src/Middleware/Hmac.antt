-- ===== src/Middleware/Hmac.antt =====
-- NewHMACWithOptions and HMAC.Wrap of internal/middleware/hmac.go. Headers and bodies are bytes. SHA-256 HMAC is a parameter;
-- hex and decimal decoding are those of encoding/hex and strconv.
pub mod Accepts
use password_hook_service.Prelude.{
  ℕ, suc, ◌+◌, ◌-◌, ◌*◌, ◌%◌, ◌^◌, Bool, true, false, not, ◌&&◌, ◌||◌, Option, none, some, List, [],
  ◌∷◌, ◌++◌, ltb, leb, ◌==◌, if◌then◌else◌, is_empty, length, take, ℤ, pos, negsuc, Text, codes,
  same_text, is_blank, lebℤ, positive_or, Result, ok, err,
}
use password_hook_service.Middleware.Clock.{within_skew}
use password_hook_service.Middleware.Nonce.{MemoryNonceStore, SeenAt, use_nonce, nonce_ttl}

pub data Rejection : Type 0 where
  failed_to_read_request_body request_body_too_large missing_or_invalid_signature_headers :
      Rejection
  timestamp_outside_allowed_skew signature_mismatch nonce_replay : Rejection

-- What the next handler gets to read, or why it is not called.
pub data Verdict : Type 0 where
  forward : (body : Text) → Verdict
  reject : Rejection → Verdict

-- The nonce store may be nil.
pub record Hmac : Type 0 where
  pub secret : Text
  pub has_nonces : Bool
  pub skew : ℕ
  pub nonce_ttl : ℕ
  pub max_body_bytes : ℕ

pub data HmacError : Type 0 where
  secret_required skew_not_positive max_body_bytes_negative : HmacError

-- NewHMACWithOptions, with the nonce store of the application.
unfoldable pub new_hmac_with_options :
    Text → MemoryNonceStore → (skew max_body_bytes : ℤ) → Result HmacError Hmac
new_hmac_with_options secret store skew max_body_bytes =
    if is_blank secret
    then err secret_required
    else if lebℤ skew (pos 0)
    then err skew_not_positive
    else if not (lebℤ (pos 0) max_body_bytes)
    then err max_body_bytes_negative
    else ok (record {
      secret = secret;
      has_nonces = true;
      skew = positive_or 0 skew;
      nonce_ttl = nonce_ttl store;
      max_body_bytes = positive_or (64 * 1024) max_body_bytes;
    })

-- A request: the bytes that its body yields, whether reading then fails, the headers, and the
-- readings of the clock at the skew test and in the nonce store.
pub record Request : Type 0 where
  pub body : Text
  pub body_fails : Bool
  pub timestamp : Text
  pub nonce : Text
  pub signature : Text
  pub checked_at : ℕ
  pub used_at : ℕ

-- m.maxBodyBytes+1 in int64, where the sum wraps, and the bytes that a LimitReader with it reads at most: it takes a
-- negative limit for the end.
unfoldable pub read_limit : ℕ → ℕ
read_limit max_body_bytes =
    let sum = (max_body_bytes + 1) % 2 ^ 64 in if ltb sum (2 ^ 63) then sum else 0

-- sensitiveio.ReadAll(io.LimitReader(body, limit)): behind the limit the reader is not asked.
read_limited : ℕ → Text → Bool → Option Text
read_limited limit body fails =
    if leb limit (length body) then some (take limit body) else if fails then none else some body

digit_value : ℕ → Option ℕ
digit_value c = if leb b'0' c && leb c b'9' then some (c - b'0') else none

decimal : Text → ℕ → Option ℕ
decimal [] n = some n
decimal (c ∷ s) n = elim (digit_value c) [ none ↦ none | some d ↦ decimal s (n * 10 + d) ]

magnitude : Text → Option ℕ
magnitude [] = none
magnitude (c ∷ s) = decimal (c ∷ s) 0

negative : ℕ → Option ℤ
negative n = if n == 0 then some (pos 0) else if leb n (2 ^ 63) then some (negsuc (n - 1)) else none

positive : ℕ → Option ℤ
positive n = if ltb n (2 ^ 63) then some (pos n) else none

-- strconv.ParseInt(s, 10, 64), `none` for an error
unfoldable pub parse_int : Text → Option ℤ
unfolding magnitude decimal digit_value negative positive
parse_int [] = none
parse_int (c ∷ s) =
    if c == b'-'
    then elim (magnitude s) [ none ↦ none | some n ↦ negative n ]
    else elim (magnitude (if c == b'+' then s else c ∷ s)) [ none ↦ none | some n ↦ positive n ]

hex_value : ℕ → Option ℕ
hex_value c =
    if leb b'0' c && leb c b'9'
    then some (c - b'0')
    else if leb b'a' c && leb c b'f'
    then some (c - b'a' + 10)
    else if leb b'A' c && leb c b'F'
    then some (c - b'A' + 10)
    else none

hex_pair : Option ℕ → Option ℕ → Option Text → Option Text
hex_pair (some hi) (some lo) (some rest) = some ((hi * 16 + lo) ∷ rest)
hex_pair _ _ _ = none

-- hex.DecodeString, `none` for an error
unfoldable pub decode_hex : Text → Option Text
unfolding hex_value hex_pair
decode_hex [] = some []
decode_hex (c ∷ []) = none
decode_hex (c ∷ d ∷ s) = hex_pair (hex_value c) (hex_value d) (decode_hex s)

strip_prefix : Text → Text → Option Text
strip_prefix [] s = some s
strip_prefix (c ∷ p) [] = none
strip_prefix (c ∷ p) (d ∷ s) = if c == d then strip_prefix p s else none

abbrev pub signature_prefix : Text
signature_prefix = codes "sha256="

-- What is signed: the timestamp header, the nonce and the body.
abbrev pub signed_bytes : Text → Text → Text → Text
signed_bytes timestamp nonce body = timestamp ++ (b'.' ∷ (nonce ++ (b'.' ∷ body)))

module _ (hmac_sha256 : (secret message : Text) → Text) where
  unfoldable pub valid_signature : Text → Text → Text → Text → Text → Bool
  unfolding strip_prefix
  valid_signature secret timestamp nonce body header = elim (strip_prefix signature_prefix header) [
    | none ↦ false
    | some digits ↦ elim (decode_hex digits) [
      | none ↦ false
      | some got ↦ same_text got (hmac_sha256 secret (signed_bytes timestamp nonce body))
    ]
  ]

  -- From the skew test on.
  check_signed : Hmac → Request → Text → ℤ → SeenAt → Verdict × SeenAt
  check_signed m r body timestamp seen =
      if not (within_skew m.skew r.checked_at timestamp)
      then (reject timestamp_outside_allowed_skew, seen)
      else if not (valid_signature m.secret r.timestamp r.nonce body r.signature)
      then (reject signature_mismatch, seen)
      else if m.has_nonces
      then (let (fresh, seen') = use_nonce m.nonce_ttl r.nonce r.used_at seen in
          (if fresh then forward body else reject nonce_replay, seen'))
      else (forward body, seen)

  check_headers : Hmac → Request → Text → Option ℤ → SeenAt → Verdict × SeenAt
  unfolding check_signed
  check_headers m r body none seen = (reject missing_or_invalid_signature_headers, seen)
  check_headers m r body (some timestamp) seen =
      if is_empty r.nonce || is_empty r.signature
      then (reject missing_or_invalid_signature_headers, seen)
      else check_signed m r body timestamp seen

  check_body : Hmac → Request → Option Text → SeenAt → Verdict × SeenAt
  unfolding check_headers
  check_body m r none seen = (reject failed_to_read_request_body, seen)
  check_body m r (some body) seen =
      if ltb m.max_body_bytes (length body)
      then (reject request_body_too_large, seen)
      else check_headers m r body (parse_int r.timestamp) seen

  unfoldable pub wrap : Hmac → Request → SeenAt → Verdict × SeenAt
  unfolding check_body read_limited read_limit
  wrap m r seen =
      check_body m r (read_limited (read_limit m.max_body_bytes) r.body r.body_fails) seen
