-- ===== src/Body.antt =====
-- ReadAll of internal/sensitiveio/readall.go: the body of a request is read into a buffer that grows, and each buffer that
-- is left behind is zeroed. The loop runs on fuel; `none` says that the reader has not ended yet.
pub mod Laws
use password_hook_service.Prelude.{
  ℕ, zero, suc, ◌+◌, ◌-◌, ◌*◌, ◌/◌, ◌≤◌, max, Bool, true, false, Option, none, some, List, [], ◌∷◌,
  ◌++◌, if◌then◌else◌, ◌==◌, ltb, length, Text,
}
use password_hook_service.Prelude.Effects.{Exec, call, tell, pure, ◌>>=◌}

pub data IoCall : Type 0 where
  read : (room : ℕ) → IoCall
  zero_bytes : (size : ℕ) → IoCall

pub data ReadEnd : Type 0 where
  eof : ReadEnd
  read_failed : Text → ReadEnd

-- io.Reader: what Read puts into the buffer, and its error. It reads no more than there is room for.
pub record Reader : Type 0 where
  pub read_result : List IoCall → Text × Option ReadEnd
  pub read_fits : (room : ℕ) (h : List IoCall) → length (read_result (read room ∷ h)).0 ≤ room

-- buf, with its contents and its capacity.
pub record Buffer : Type 0 where
  pub contents : Text
  pub capacity : ℕ

abbrev pub with_default : ℕ → ℕ
with_default n = if n == 0 then 512 else n

-- growZeroing
unfoldable pub grow_zeroing : Buffer → (min_capacity : ℕ) → Exec IoCall Buffer
grow_zeroing buf min_capacity = do
  _ ← tell (zero_bytes buf.capacity)
  pure (record buf { capacity = with_default (max (buf.capacity + buf.capacity / 2) min_capacity) })

abbrev grow_if : Bool → Buffer → Exec IoCall Buffer
grow_if test buf = if test then grow_zeroing buf (suc (length buf.contents)) else pure buf

abbrev pub appended : Buffer → Text → Buffer
appended buf bytes = record buf { contents = buf.contents ++ bytes }

error_of : ReadEnd → Option Text
error_of eof = none
error_of (read_failed e) = some e

-- What ReadAll returns: the bytes and an error.
abbrev pub Answer : Type 0
Answer = Text × Option Text

after_read :
    (Buffer → Exec IoCall (Option Answer)) → Buffer → Option ReadEnd → Exec IoCall (Option Answer)
unfolding error_of grow_zeroing
after_read loop buf (some e) = pure (some (buf.contents, error_of e))
after_read loop buf none = do
  buf' ← grow_if (ltb (buf.capacity - length buf.contents) (buf.capacity / 16)) buf
  loop buf'

unfoldable pub read_from : ℕ → Reader → Buffer → Exec IoCall (Option Answer)
unfolding after_read grow_zeroing
read_from zero r buf = pure none
read_from (suc fuel) r buf = do
  roomy ← grow_if (length buf.contents == buf.capacity) buf
  got ← call (read (roomy.capacity - length roomy.contents)) r.read_result
  let (bytes, ended) = got in after_read (read_from fuel r) (appended roomy bytes) ended

unfoldable pub read_all : ℕ → Reader → Exec IoCall (Option Answer)
unfolding read_from
read_all fuel r = read_from fuel r (record { contents = []; capacity = 512 })
