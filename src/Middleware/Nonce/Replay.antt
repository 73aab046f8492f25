-- ===== src/Middleware/Nonce/Replay.antt =====
-- Sequences of calls of MemoryNonceStore.Use in internal/middleware/hmac.go.
use password_hook_service.Prelude.{
  ℕ, ◌+◌, ◌≤◌, ◌≡◌, true, false, some, List, [], ◌∷◌, arith, refl, Text, same_text_iff,
  same_text_refl, ◌↔◌, ◌<◌, Option-cases, inl, inr, All,
}
use password_hook_service.Middleware.Nonce.{SeenAt, use_nonce}

-- A call of Use: the nonce, and the reading of the clock.
abbrev pub Uses : Type 0
Uses = List (Text × ℕ)

unfoldable pub use_all : ℕ → Uses → SeenAt → SeenAt
use_all ttl [] seen = seen
use_all ttl ((nonce, now) ∷ uses) seen = use_all ttl uses (use_nonce ttl nonce now seen).1

use_nonce-keeps :
    (ttl : ℕ) (nonce key : Text) (now since : ℕ) (seen : SeenAt)
    → now ≤ since + ttl
    → seen key ≡ some since
    → (use_nonce ttl nonce now seen).1 key ≡ some since
unfolding use_nonce
use_nonce-keeps ttl nonce key now since seen h e = ground (arith, same_text_iff nonce key)

use_all-keeps :
    (ttl : ℕ) (key : Text) (since : ℕ) (uses : Uses) (seen : SeenAt)
    → All (λ use'. use'.1 ≤ since + ttl) uses
    → seen key ≡ some since
    → use_all ttl uses seen key ≡ some since
unfolding use_all
use_all-keeps ttl key since [] seen h e = e
use_all-keeps ttl key since ((nonce, now) ∷ uses) seen (h, hs) e =
    use_all-keeps ttl key since uses (use_nonce ttl nonce now seen).1 hs
      (use_nonce-keeps ttl nonce key now since seen h e)

pub taken_at :
    (ttl : ℕ) (nonce : Text) (now : ℕ) (seen : SeenAt)
    → (use_nonce ttl nonce now seen).0 ≡ true
    → (use_nonce ttl nonce now seen).1 nonce ≡ some now
unfolding use_nonce
taken_at ttl nonce now seen h = ground (arith, same_text_refl nonce)

refused :
    (ttl : ℕ) (nonce : Text) (first again : ℕ) (seen : SeenAt)
    → again ≤ first + ttl
    → seen nonce ≡ some first
    → (use_nonce ttl nonce again seen).0 ≡ false
unfolding use_nonce
refused ttl nonce first again seen h e = ground arith

-- After a nonce is taken, and after any other calls within the TTL, the same nonce is refused.
pub use_nonce-no_replay :
    (ttl : ℕ) (nonce : Text) (first again : ℕ) (uses : Uses) (seen : SeenAt)
    → (use_nonce ttl nonce first seen).0 ≡ true
    → All (λ use'. use'.1 ≤ first + ttl) uses
    → again ≤ first + ttl
    → (use_nonce ttl nonce again (use_all ttl uses (use_nonce ttl nonce first seen).1)).0 ≡ false
use_nonce-no_replay ttl nonce first again uses seen taken during h =
    refused ttl nonce first again _ h (
      use_all-keeps ttl nonce first uses (use_nonce ttl nonce first seen).1 during
        (taken_at ttl nonce first seen taken))

-- A nonce is taken exactly if it was not used before, or if its last use is older than the TTL.
pub use_nonce_iff :
    (ttl : ℕ) (nonce : Text) (now : ℕ) (seen : SeenAt)
    → ((use_nonce ttl nonce now seen).0 ≡ true)
      ↔ ((since : ℕ) → seen nonce ≡ some since → since + ttl < now)
unfolding use_nonce
use_nonce_iff ttl nonce now seen = elim (Option-cases (seen nonce)) [
  | inl e ↦ rw e (λ _ since h. cc, λ _. refl)
  | inr (t, e) ↦ rw e (λ a since h. ground arith, λ old. ground (arith, old t refl))
]
