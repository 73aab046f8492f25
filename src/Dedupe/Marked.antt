-- ===== src/Dedupe/Marked.antt =====
-- A write to the store that a message backs.
use password_hook_service.Prelude.{
  ℕ, ◌+◌, ◌*◌, ◌≤◌, ◌<◌, false, Option, none, some, ◌≡◌, ◌⊎◌, inl, inr, sym, ap, ◌∙◌, arith,
  if◌then◌else◌, Text, same_text, same_text_iff, Unicode, Bool-cases,
}
use password_hook_service.SyncStatus.{
  pending, synced, Record, Store, is_stale, status_precedence, normalize_upn,
}
use password_hook_service.SyncStatus.Order.{Write, write, write-key, written, rank, rank-written}
use password_hook_service.Dedupe
use password_hook_service.Dedupe.{
  Place, in_queue, given_up, expired, Entry, System, Step, passes, enqueues, marks_pending, writes,
  gives_up, expires, Reach, start, later,
}
use password_hook_service.Dedupe.Consistent.{Backs, Inv}

some-injective : {r r' : Record} → some r ≡ some r' → r ≡ r'
some-injective e = cc e

-- What a record is after a write that changed it.
record IsNew (u : Unicode) (w : Write) (store : Store) (key : Text) (rec : Record) : Type 0 where
  same_key : normalize_upn u w.upn ≡ key
  status : rec.status ≡ w.status
  source : rec.source_enqueued_at ≡ w.source
  updated : rec.updated_at ≡ w.now
  accepted : is_stale (store key) w.status w.source ≡ false

-- A write leaves the record of a key as it was, or it is new.
write-at :
    (u : Unicode) (w : Write) (store : Store) (key : Text) (rec : Record)
    → write u w store key ≡ some rec
    → (store key ≡ some rec) ⊎ IsNew u w store key rec
write-at u w store key rec e =
    let same = same_text (normalize_upn u w.upn) key in
    let at : (if same then written (store key) w else store key) ≡ some rec =
      sym (write-key u w store key) ∙ e in
    elim (Bool-cases same) [
      | inr other ↦ inl (rw other at at)
      | inl here ↦ elim (Bool-cases (is_stale (store key) w.status w.source)) [
        | inl stale ↦ inl (rw (here, stale) at at)
        | inr fresh ↦
            let made = some-injective (rw (here, fresh) at at) in
            inr (record {
              same_key = (same_text_iff _ key).0 here;
              status = sym (ap (λ r. r.status) made);
              source = sym (ap (λ r. r.source_enqueued_at) made);
              updated = sym (ap (λ r. r.updated_at) made);
              accepted = fresh;
            })
      ]
    ]

-- The rank of a key never falls, and a write lifts that of its own key to its worth.
pub rank-write :
    (u : Unicode) (w : Write) (store : Store) (key : Text)
    → (rank (store key) ≤ rank (write u w store key))
      × (normalize_upn u w.upn ≡ key
          → 4 * w.source + status_precedence w.status + 1 ≤ rank (write u w store key))
rank-write u w store key =
    let same = same_text (normalize_upn u w.upn) key in
    let at = write-key u w store key in
    let lifted = rank-written (store key) w in
    elim (Bool-cases same) [
      | inl here ↦
          let e : write u w store key ≡ written (store key) w = rw here at at in
          rw e (omega (arith, lifted), λ h. omega (arith, lifted))
      | inr other ↦
          let e : write u w store key ≡ store key = rw other at at in
          rw e (
            omega arith,
            λ h.
                absurd (
                  let same' = (same_text_iff (normalize_upn u w.upn) key).1 h in cc (same', other)),
          )
    ]

-- What a write needs of the messages, by its status.
pub record IsBacked (u : Unicode) (delay now : ℕ) (entries : ℕ → Option Entry) (w : Write)
    : Type 0 where
  pub number : ℕ
  pub entry : Entry
  pub found : entries number ≡ some entry
  pub same_upn : entry.upn ≡ w.upn
  pub same_source : entry.source ≡ w.source
  pub in_time : w.status ≡ pending → w.now ≤ entry.sent + delay
  pub wrote : w.status ≡ synced → entry.place ≡ Dedupe.written

backs :
    {u : Unicode} {delay now : ℕ} {entries : ℕ → Option Entry} (w : Write) (store : Store)
    (key : Text) (rec : Record)
    → IsBacked u delay now entries w
    → IsNew u w store key rec
    → Backs u entries key rec
backs {u} w store key rec b new = record {
  number = b.number;
  entry = b.entry;
  found = b.found;
  same_key = ap (λ x. normalize_upn u x) b.same_upn ∙ new.same_key;
  same_source = b.same_source ∙ sym new.source;
}

-- A pending write is accepted above the place of the key only.
accepted-rank :
    (o : Option Record) (source : ℕ) → is_stale o pending source ≡ false → rank o < 4 * source + 2
unfolding is_stale status_precedence
accepted-rank none source h = omega arith
accepted-rank (some r) source h = ground arith

-- A write that a message backs keeps the state consistent.
pub write-Inv :
    {u : Unicode} {ttl delay now : ℕ} {entries : ℕ → Option Entry} {store : Store} (w : Write)
    → Inv u ttl delay now entries store
    → IsBacked u delay now entries w
    → Inv u ttl delay now entries (write u w store)
unfolding backs
write-Inv {u} {ttl} {delay} {now} {entries} {store} w inv b = record {
  pending_backed = λ key rec at pend. elim (write-at u w store key rec at) [
    | inl old ↦ inv.pending_backed key rec old pend
    | inr new ↦ (
      backs w store key rec b new,
      omega (arith, b.in_time (sym new.status ∙ pend), new.updated),
      λ gone.
          let given_up_at = inv.given_up_marked b.number b.entry b.found gone in
          let here : normalize_upn u b.entry.upn ≡ key = (backs w store key rec b new).same_key in
          let low =
            accepted-rank (store key) w.source (rw (sym new.status ∙ pend) at new.accepted) in
          omega (arith, given_up_at, low, b.same_source, ap (λ k. rank (store k)) here),
    )
  ];
  synced_backed = λ key rec at done. elim (write-at u w store key rec at) [
    | inl old ↦ inv.synced_backed key rec old done
    | inr new ↦ (backs w store key rec b new, b.wrote (sym new.status ∙ done))
  ];
  given_up_marked = λ j x at gone.
      let (up, _) = rank-write u w store (normalize_upn u x.upn) in
      omega (arith, up, inv.given_up_marked j x at gone);
  expired_late = inv.expired_late;
}
