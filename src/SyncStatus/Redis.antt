-- ===== src/SyncStatus/Redis.antt =====
-- RedisStore of internal/syncstatus/redis.go: the transition script, set and Get. A hash of Redis
-- is its three fields and the instant in milliseconds at which it expires. The layout of an instant
-- as text and the digest of a principal name are parameters.
pub mod Refines
use password_hook_service.Prelude.{
  ℕ, ◌+◌, ◌<◌, ◌/◌, Bool, true, false, ◌&&◌, ◌||◌, Option, none, some, List, [], ◌∷◌, ◌++◌, ltb,
  leb, ◌==◌, if◌then◌else◌, Text, codes, same_text, Unicode, ◌≡◌, Result, ok, err,
}
use password_hook_service.SyncStatus.{
  Status, unsynced, pending, synced, failed, Record, zero_record, status_precedence, normalize_upn,
}

pub record Fields : Type 0 where
  pub status : Text
  pub updated_at : Text
  pub source_enqueued_at : Text
  pub expires_at : ℕ

abbrev pub Database : Type 0
Database = Text → Option Fields

-- The order of Lua on strings, byte by byte.
unfoldable pub text_lt : Text → Text → Bool
text_lt s [] = false
text_lt [] (b ∷ t) = true
text_lt (a ∷ s) (b ∷ t) = ltb a b || (a == b && text_lt s t)

-- time.Format and time.Parse with redisTimeLayout: below `limit` (the year 10000) the layout has a
-- fixed width, so that it is read back and its texts are ordered as the instants are.
pub record Layout : Type 0 where
  pub limit : ℕ
  pub format_time : ℕ → Text
  pub parse_time : Text → Option ℕ
  pub parse-format : (n : ℕ) → n < limit → parse_time (format_time n) ≡ some n
  pub format-order :
      (m n : ℕ) → m < limit → n < limit → text_lt (format_time m) (format_time n) ≡ ltb m n
  pub format-same :
      (m n : ℕ) → m < limit → n < limit → same_text (format_time m) (format_time n) ≡ (m == n)

unfoldable pub status_text : Status → Text
status_text unsynced = []
status_text pending = codes "sync_pending"
status_text synced = codes "synced"
status_text failed = codes "sync_failed"

-- Status(fields["status"]), where every text that is no status counts as none.
unfoldable pub status_of : Text → Status
unfolding status_text
status_of t =
    if same_text t (status_text pending)
    then pending
    else if same_text t (status_text failed)
    then failed
    else if same_text t (status_text synced)
    then synced
    else unsynced

-- A hash that has expired is not there.
unfoldable pub live : ℕ → Option Fields → Option Fields
live now none = none
live now (some f) = if ltb now f.expires_at then some f else none

-- The script's two guards: ARGV[1] is `status`, ARGV[3] is `source`. `precedence[...] or 0` is
-- status_precedence at the status of the text.
unfoldable pub keeps : Option Fields → Text → Text → Bool
unfolding text_lt status_of
keeps none status source = false
keeps (some f) status source =
    text_lt source f.source_enqueued_at
    || (same_text source f.source_enqueued_at
        && leb (status_precedence (status_of status)) (status_precedence (status_of f.status)))

-- The script: the reply 0 and no change, or the reply 1 with the fields set and the expiry renewed.
unfoldable pub transition : Text → Text → Text → Text → ℕ → ℕ → Database → ℕ × Database
unfolding keeps live
transition key status updated source ttl now db =
    if keeps (live now (db key)) status source then (0, db) else (
      1,
      λ k.
          if same_text key k
          then some (record {
            status = status;
            updated_at = updated;
            source_enqueued_at = source;
            expires_at = now + ttl;
          })
          else db k,
    )

pub data GetError : Type 0 where
  client_failed : Text → GetError
  invalid_status : Text → GetError
  invalid_updated_at invalid_source_enqueued_at : GetError

module _ (l : Layout) where
  parse_source : Status → ℕ → Option ℕ → Result GetError Record
  parse_source status updated none = err invalid_source_enqueued_at
  parse_source status updated (some source) =
      ok (record { status = status; updated_at = updated; source_enqueued_at = source })

  parse_updated : Fields → Option ℕ → Result GetError Record
  unfolding parse_source
  parse_updated f none = err invalid_updated_at
  parse_updated f (some updated) =
      parse_source (status_of f.status) updated (l.parse_time f.source_enqueued_at)

  -- The end of Get, after HGETALL: no field at all is the zero record.
  unfoldable pub decode_fields : Option Fields → Result GetError Record
  unfolding parse_updated
  decode_fields none = ok zero_record
  decode_fields (some f) =
      if status_precedence (status_of f.status) == 0
      then err (invalid_status f.status)
      else parse_updated f (l.parse_time f.updated_at)

  module _ (u : Unicode) (digest : Text → Text) (key_prefix : Text) where
    -- `digest` is the SHA-256 in hexadecimal.
    unfoldable pub key : Text → Text
    key upn = key_prefix ++ digest (normalize_upn u upn)

    -- `failure` is the error of the client, after which the database is as it was; `server` is the
    -- clock of Redis.
    unfoldable pub get : Option Text → Text → ℕ → Database → Result GetError Record
    unfolding key decode_fields live
    get (some e) upn server db = err (client_failed e)
    get none upn server db = decode_fields (live server (db (key upn)))

    -- `now` is the clock of the service, and `ttl` in nanoseconds as there.
    unfoldable pub set :
        Option Text → Text → Status → ℕ → ℕ → ℕ → ℕ → Database → Option Text × Database
    unfolding transition key
    set (some e) upn status source ttl now server db = (some e, db)
    set none upn status source ttl now server db = (
      none,
      (transition (key upn) (status_text status) (l.format_time now) (l.format_time source)
          (ttl / 1000000) server db).1,
    )
