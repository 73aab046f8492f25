-- ===== src/Dedupe/Consistent.antt =====
-- What the store says of an account, and where its messages are.
use password_hook_service.Prelude.{ℕ, ◌+◌, ◌*◌, ◌≤◌, Option, some, ◌≡◌, ◌≢◌, Text, Unicode}
use password_hook_service.SyncStatus.{pending, synced, Record, Store, normalize_upn}
use password_hook_service.SyncStatus.Order.{rank}
use password_hook_service.Dedupe
use password_hook_service.Dedupe.{
  Place, in_queue, given_up, expired, Entry, System, Step, passes, enqueues, marks_pending, writes,
  gives_up, expires, Reach, start, later,
}

-- A message of the account with the source of the record.
pub record Backs (u : Unicode) (entries : ℕ → Option Entry) (key : Text) (rec : Record)
    : Type 0 where
  pub number : ℕ
  pub entry : Entry
  pub found : entries number ≡ some entry
  pub same_key : normalize_upn u entry.upn ≡ key
  pub same_source : entry.source ≡ rec.source_enqueued_at

pub record Inv (u : Unicode) (ttl delay now : ℕ) (entries : ℕ → Option Entry) (store : Store)
    : Type 0 where
  pub pending_backed :
      (key : Text) (rec : Record)
      → store key ≡ some rec
      → rec.status ≡ pending
      → (b : Backs u entries key rec) × (rec.updated_at ≤ b.entry.sent + delay)
        × (b.entry.place ≢ given_up)
  pub synced_backed :
      (key : Text) (rec : Record)
      → store key ≡ some rec
      → rec.status ≡ synced
      → (b : Backs u entries key rec) × (b.entry.place ≡ Dedupe.written)
  pub given_up_marked :
      (i : ℕ) (e : Entry)
      → entries i ≡ some e
      → e.place ≡ given_up
      → 4 * e.source + 3 ≤ rank (store (normalize_upn u e.upn))
  pub expired_late :
      (i : ℕ) (e : Entry) → entries i ≡ some e → e.place ≡ expired → e.sent + ttl ≤ now

abbrev pub IsConsistent : (u : Unicode) (ttl delay : ℕ) → System → Type 0
IsConsistent u ttl delay s = Inv u ttl delay s.now s.entry s.store
