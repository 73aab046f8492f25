-- ===== src/Middleware/Nonce.antt =====
-- The nonce store of internal/middleware/hmac.go. The map is a function; each call of Use holds the
-- mutex from its first read to its last write, so it is one step.
pub mod Replay
use password_hook_service.Prelude.{
  ℕ, ◌-◌, ◌*◌, Bool, true, false, Option, none, some, ltb, leb, if◌then◌else◌, ℤ, positive_or, Text,
  same_text,
}

-- 60 * time.Second
abbrev pub default_nonce_ttl : ℕ
default_nonce_ttl = 60 * 1000000000

abbrev pub SeenAt : Type 0
SeenAt = Text → Option ℕ

pub record MemoryNonceStore : Type 0 where
  pub ttl : ℕ
  pub seen_at : SeenAt

unfoldable pub new_memory_nonce_store : ℤ → MemoryNonceStore
new_memory_nonce_store ttl = record {
  ttl = positive_or default_nonce_ttl ttl;
  seen_at = λ nonce. none;
}

-- What the sweep over the map leaves of an entry. The clock is monotonic: a difference below zero
-- is not above the TTL either.
unfoldable pub sweep : ℕ → ℕ → Option ℕ → Option ℕ
sweep ttl now none = none
sweep ttl now (some seen) = if ltb ttl (now - seen) then none else some seen

abbrev pub is_some : Option ℕ → Bool
is_some none = false
is_some (some t) = true

-- The result of Use and the map it leaves; `now` is the reading of the clock.
unfoldable pub use_nonce : ℕ → Text → ℕ → SeenAt → Bool × SeenAt
unfolding sweep
use_nonce ttl nonce now seen =
    let swept : SeenAt = λ key. sweep ttl now (seen key) in
    if is_some (swept nonce)
    then (false, swept)
    else (true, λ key. if same_text nonce key then some now else swept key)

-- nonceTTL for a store that has a TTL method.
unfoldable pub nonce_ttl : MemoryNonceStore → ℕ
nonce_ttl store = if ltb 0 store.ttl then store.ttl else default_nonce_ttl
