-- ===== src/Tests/Gate.antt =====
-- The HMAC gate, the nonces and the rate limit at concrete inputs.
use password_hook_service.Prelude.{
  ℕ, suc, min, true, false, none, some, [], ◌∷◌, ◌≡◌, ◌≢◌, ◌-◌, ◌^◌, refl, arith, Text, codes, pos,
  same_text,
}
use password_hook_service.Middleware.Clock.{unix, within_skew, IsFarAhead}
use password_hook_service.Middleware.Nonce.{SeenAt, use_nonce}
use password_hook_service.Middleware.Nonce.Replay.{use_all}
use password_hook_service.Middleware.Hmac.{
  forward, Hmac, Request, read_limit, parse_int, wrap, valid_signature, decode_hex,
}
use password_hook_service.Middleware.Hmac.Accepts.{
  IsAccepted, resent, wrap-IsAccepted, wrap-no_replay, wrap-replay_far_ahead,
}
use password_hook_service.Middleware.RateLimit.{RateLimiter, Counts, zero_window, allow}
use password_hook_service.Middleware.RateLimit.Bounds.{Requests, passed, of_key, passed-exact}

-- A stand-in for HMAC-SHA256: one byte, the same for every message.
abbrev pub mac : Text → Text → Text
mac secret message = 171 ∷ []

abbrev gate : Hmac
gate = record {
  secret = codes "s";
  has_nonces = true;
  skew = 30000000000;
  nonce_ttl = 60000000000;
  max_body_bytes = 100;
}

abbrev pub signed_at : Text → ℕ → Request
signed_at timestamp now = record {
  body = codes "{}";
  body_fails = false;
  timestamp = timestamp;
  nonce = codes "n1";
  signature = codes "sha256=ab";
  checked_at = now;
  used_at = now;
}

abbrev pub unseen : SeenAt
unseen nonce = none

-- A request at 100 s after the epoch, with the timestamp 99.
abbrev first : Request
first = signed_at (codes "99") 100000000000

abbrev again : Request
again = signed_at (codes "99") 120000000000

first_forwarded : (wrap mac gate first unseen).0 ≡ forward (codes "{}")
unfolding wrap valid_signature decode_hex within_skew unix parse_int use_nonce same_text
first_forwarded = refl

first_dated : parse_int (codes "99") ≡ some (pos 99)
unfolding parse_int
first_dated = refl

wrap-IsAccepted_example : IsAccepted mac gate first unseen (codes "{}")
wrap-IsAccepted_example = wrap-IsAccepted mac gate first unseen (omega arith) first_forwarded

-- With the largest int64 as the limit, no byte of a body is read.
read_limit_wraps : read_limit (2 ^ 63 - 1) ≡ 0
unfolding read_limit
read_limit_wraps = refl

first_not_far : ¬ IsFarAhead 100000000000 (unix (pos 99))
unfolding unix
first_not_far h = omega arith

wrap-no_replay_example :
    (wrap mac gate again (use_all gate.nonce_ttl [] (wrap mac gate first unseen).1)).0
    ≢ forward (codes "{}")
wrap-no_replay_example =
    wrap-no_replay mac gate first again unseen [] refl (omega arith) (refl, refl) first_dated
      first_not_far (omega arith) (omega arith) tt first_forwarded

-- A timestamp in seconds where milliseconds were meant, some 300 centuries ahead.
abbrev ahead : Request
ahead = signed_at (codes "1000000000000") 100000000000

ahead_forwarded : (wrap mac gate ahead unseen).0 ≡ forward (codes "{}")
unfolding wrap valid_signature decode_hex within_skew unix parse_int use_nonce same_text
ahead_forwarded = refl

ahead_dated : parse_int (codes "1000000000000") ≡ some (pos 1000000000000)
unfolding parse_int
ahead_dated = refl

ahead_is_far : IsFarAhead 200000000000 (unix (pos 1000000000000))
unfolding unix
ahead_is_far = omega arith

wrap-replay_far_ahead_example :
    (wrap mac gate (resent ahead 200000000000 200000000000) (wrap mac gate ahead unseen).1).0
    ≡ forward (codes "{}")
wrap-replay_far_ahead_example =
    wrap-replay_far_ahead mac gate ahead unseen 200000000000 200000000000 refl (omega arith)
      ahead_dated ahead_is_far (omega arith) ahead_forwarded

n1_taken : (use_nonce 60 (codes "n1") 5 unseen).0 ≡ true
unfolding use_nonce
n1_taken = refl

abbrev limiter : RateLimiter
limiter = record { limit_per_ip = 2; window = 10 }

abbrev quiet : Counts
quiet k = zero_window

abbrev burst : Requests
burst = (codes "a", 6) ∷ (codes "b", 6) ∷ (codes "a", 7) ∷ (codes "a", 8) ∷ []

burst_passes : passed limiter (codes "a") ((codes "a", 5) ∷ burst) quiet ≡ 2
unfolding passed allow same_text
burst_passes = refl

passed-exact_example :
    passed limiter (codes "a") ((codes "a", 5) ∷ burst) quiet
    ≡ min (suc (of_key limiter (codes "a") burst)) 2
passed-exact_example =
    passed-exact limiter (codes "a") 5 burst quiet (omega arith) (omega arith) (omega arith) refl
      (omega arith, (omega arith, (omega arith, (omega arith, tt))))
