-- ===== src/SyncStatus.antt =====
-- internal/syncstatus/status.go: the status of each account, and the store in memory.
-- An instant is a number of nanoseconds since the zero `time.Time`, which is 0. The map is a
-- function of the normalised key, `none` where there is no entry. The mutex makes each method one step.
pub mod Order
pub mod Redis
pub mod Connection
pub mod Credentials
pub mod Opening
use password_hook_service.Prelude.{
  ℕ, Bool, true, false, ◌&&◌, ◌||◌, Option, none, some, List, [], ◌∷◌, ltb, leb, ◌==◌,
  if◌then◌else◌, Text, same_text, Unicode, normalize,
}

pub data Status : Type 0 where
  unsynced pending synced failed : Status

pub record Record : Type 0 where
  pub status : Status
  pub updated_at : ℕ
  pub source_enqueued_at : ℕ

abbrev pub zero_record : Record
zero_record = record { status = unsynced; updated_at = 0; source_enqueued_at = 0 }

-- What ctx.Err() returns of a context that is done.
pub data ContextError : Type 0 where
  canceled deadline_exceeded : ContextError

abbrev pub Store : Type 0
Store = Text → Option Record

abbrev pub empty_store : Store
empty_store key = none

unfoldable pub status_precedence : Status → ℕ
status_precedence pending = 1
status_precedence failed = 2
status_precedence synced = 3
status_precedence unsynced = 0

-- The two cases in which `set` drops a write.
unfoldable pub is_stale : Option Record → Status → ℕ → Bool
unfolding status_precedence
is_stale none status source = false
is_stale (some existing) status source =
    ltb source existing.source_enqueued_at
    || (source == existing.source_enqueued_at
        && leb (status_precedence status) (status_precedence existing.status))

unfoldable pub put : Text → Record → Store → Store
put key r records k = if same_text key k then some r else records k

abbrev pub or_zero : Option Record → Record
or_zero none = zero_record
or_zero (some r) = r

module _ (u : Unicode) where
  unfoldable pub normalize_upn : Text → Text
  unfolding normalize
  normalize_upn upn = normalize u upn

  -- The result is an error, or the record and no error.
  unfoldable pub get : Option ContextError → Text → Store → Option ContextError × Record
  unfolding normalize_upn
  get none upn records = (none, or_zero (records (normalize_upn upn)))
  get (some e) upn records = (some e, zero_record)

  -- `now` is what the store's clock returns, if it is read.
  unfoldable pub set :
      Option ContextError → Text → Status → ℕ → ℕ → Store → Option ContextError × Store
  unfolding is_stale put normalize_upn
  set (some e) upn status source now records = (some e, records)
  set none upn status source now records =
      let key = normalize_upn upn in
      if is_stale (records key) status source then (none, records) else (
        none,
        put key (record { status = status; updated_at = now; source_enqueued_at = source }) records,
      )

  unfoldable pub mark_pending :
      Option ContextError → Text → ℕ → ℕ → Store → Option ContextError × Store
  unfolding set
  mark_pending ctx upn source now records = set ctx upn pending source now records

  unfoldable pub mark_synced :
      Option ContextError → Text → ℕ → ℕ → Store → Option ContextError × Store
  unfolding set
  mark_synced ctx upn source now records = set ctx upn synced source now records

  unfoldable pub mark_failed :
      Option ContextError → Text → ℕ → ℕ → Store → Option ContextError × Store
  unfolding set
  mark_failed ctx upn source now records = set ctx upn failed source now records
