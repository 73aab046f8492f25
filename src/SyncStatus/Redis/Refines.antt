-- ===== src/SyncStatus/Redis/Refines.antt =====
-- internal/syncstatus/redis.go against internal/syncstatus/status.go.
use password_hook_service.Prelude.{
  ℕ, ◌+◌, ◌<◌, ◌≤◌, ◌/◌, true, false, Option, none, some, ◌≡◌, ◌≢◌, refl, ap, ◌∙◌, arith, Text,
  same_text, same_text_refl, Unicode, ok, ltb, ◌==◌, Bool-cases, inl, inr,
}
use password_hook_service.SyncStatus.{
  Status, unsynced, pending, synced, failed, Record, Store, zero_record, status_precedence,
  is_stale, normalize_upn, put, or_zero,
}
use password_hook_service.SyncStatus
use password_hook_service.SyncStatus.Redis.{
  Fields, Database, Layout, status_text, status_of, live, keeps, transition, decode_fields, key,
  set,
}

-- The hash holds the record's fields as text.
abbrev pub Represents : Layout → Option Fields → Option Record → Type 0
Represents l none none = Unit {0}
Represents l (some f) (some r) =
    (r.status ≢ unsynced)
    × (r.updated_at < l.limit)
    × (r.source_enqueued_at < l.limit)
    × (f.status ≡ status_text r.status)
    × (f.updated_at ≡ l.format_time r.updated_at)
    × (f.source_enqueued_at ≡ l.format_time r.source_enqueued_at)
Represents l _ _ = ⊥

status_of-text : (s : Status) → status_of (status_text s) ≡ s
unfolding status_of status_text same_text
status_of-text unsynced = refl
status_of-text pending = refl
status_of-text synced = refl
status_of-text failed = refl

precedence-positive : (s : Status) → s ≢ unsynced → (status_precedence s == 0) ≡ false
unfolding status_precedence
precedence-positive unsynced n = absurd (n refl)
precedence-positive pending n = refl
precedence-positive synced n = refl
precedence-positive failed n = refl

-- An expiry of at least a millisecond lies ahead.
expires_later : (server ttl : ℕ) → 1000000 ≤ ttl → ltb server (server + ttl / 1000000) ≡ true
expires_later server ttl k = let positive : 1 ≤ ttl / 1000000 = omega arith in ground arith

module _ (l : Layout) where
  -- The script keeps an entry exactly if the store in memory finds the write stale.
  keeps-is_stale :
      (f : Option Fields) (r : Option Record) (status : Status) (source : ℕ)
      → source < l.limit
      → Represents l f r
      → keeps f (status_text status) (l.format_time source) ≡ is_stale r status source
  unfolding keeps is_stale
  keeps-is_stale none none status source b rep = refl
  keeps-is_stale (some f) (some r) status source b (n, u, s, es, eu, eo) =
      rw
        (
          es,
          eo,
          status_of-text status,
          status_of-text r.status,
          l.format-order source r.source_enqueued_at b s,
          l.format-same source r.source_enqueued_at b s,
        )
        refl
  keeps-is_stale none (some r) status source b rep = absurd rep
  keeps-is_stale (some f) none status source b rep = absurd rep

  -- A hash that represents an entry in memory is decoded to what Get in memory makes of that
  -- entry.
  decode-Represents :
      (f : Option Fields) (r : Option Record)
      → Represents l f r
      → decode_fields l f ≡ ok (or_zero r)
  unfolding decode_fields
  decode-Represents none none rep = refl
  decode-Represents (some f) (some r) (n, u, s, es, eu, eo) =
      let same : status_of f.status ≡ r.status = ap status_of es ∙ status_of-text r.status in
      simp (
        same,
        eu,
        eo,
        precedence-positive r.status n,
        l.parse-format r.updated_at u,
        l.parse-format r.source_enqueued_at s,
      )
  decode-Represents none (some r) rep = absurd rep
  decode-Represents (some f) none rep = absurd rep

  module _ (u : Unicode) (digest : Text → Text) (key_prefix : Text) where
    -- One write of a status to an account whose hash, as far as it has not expired, represents its
    -- entry in memory: afterwards the hash represents the entry that the same write leaves in
    -- memory. The status is not the empty one, the instants are below the limit of the layout, and
    -- the TTL is at least a millisecond.
    pub set-Represents :
        (db : Database) (records : Store) (upn : Text) (status : Status) (source ttl now server : ℕ)
        → status ≢ unsynced
        → source < l.limit
        → now < l.limit
        → 1000000 ≤ ttl
        → Represents l
            (live server (db (key l u digest key_prefix upn)))
            (records (normalize_upn u upn))
        → Represents l
            (live server (
              (set l u digest key_prefix none upn status source ttl now server db).1
                (key l u digest key_prefix upn)))
            ((SyncStatus.set u none upn status source now records).1 (normalize_upn u upn))
    unfolding set transition live SyncStatus.set put
    set-Represents db records upn status source ttl now server n b c k rep =
        let entry = live server (db (key l u digest key_prefix upn)) in
        let same = keeps-is_stale entry (records (normalize_upn u upn)) status source b rep in
        elim (Bool-cases (is_stale (records (normalize_upn u upn)) status source)) [
          | inl stale ↦ rw (same ∙ stale, stale) rep
          | inr fresh ↦
              rw
                (
                  same ∙ fresh,
                  fresh,
                  same_text_refl (key l u digest key_prefix upn),
                  same_text_refl (normalize_upn u upn),
                  expires_later server ttl k,
                )
                (n, c, b, refl, refl, refl)
        ]
