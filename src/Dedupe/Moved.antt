-- ===== src/Dedupe/Moved.antt =====
-- A message that comes, or moves to another place.
use password_hook_service.Prelude.{
  ℕ, ◌+◌, ◌*◌, ◌≤◌, Option, none, some, ◌≡◌, ◌≢◌, ◌⊎◌, inl, inr, refl, sym, ap, ◌∙◌, arith,
  if◌then◌else◌, ◌==◌, ==_iff, Text, Unicode, Bool-cases,
}
use password_hook_service.SyncStatus.{pending, Record, Store, status_precedence, normalize_upn}
use password_hook_service.SyncStatus.Order.{rank}
use password_hook_service.Dedupe
use password_hook_service.Dedupe.{
  Place, in_queue, given_up, expired, Entry, System, Step, passes, enqueues, marks_pending, writes,
  gives_up, expires, Reach, start, later,
}
use password_hook_service.Dedupe.Consistent.{Backs, Inv}

some_entry : {e e' : Entry} → some e ≡ some e' → e ≡ e'
some_entry e = cc e

unfoldable pub at_place : ℕ → Entry → Place → (ℕ → Option Entry) → ℕ → Option Entry
at_place i e p entries j = if i == j then some (record e { place = p }) else entries j

-- What backs a record still does after a message has moved.
carried :
    (u : Unicode) (entries : ℕ → Option Entry) (i : ℕ) (e : Entry) (p : Place) (key : Text)
    (rec : Record)
    → entries i ≡ some e
    → (b : Backs u entries key rec)
    → (b' : Backs u (at_place i e p entries) key rec) × (b'.entry.sent ≡ b.entry.sent)
      × ((b'.entry.place ≡ b.entry.place) ⊎ ((b.entry ≡ e) × (b'.entry.place ≡ p)))
unfolding at_place
carried u entries i e p key rec found b = elim (Bool-cases (i == b.number)) [
  | inr other ↦ (
    record {
      number = b.number;
      entry = b.entry;
      found = rw other b.found;
      same_key = b.same_key;
      same_source = b.same_source;
    },
    refl,
    inl refl,
  )
  | inl same ↦
      let here : i ≡ b.number = (==_iff i b.number).0 same in
      let it : b.entry ≡ e = some_entry (sym b.found ∙ sym (ap entries here) ∙ found) in
      (
        record {
          number = b.number;
          entry = record e { place = p };
          found = rw same refl;
          same_key = sym (ap (λ x. normalize_upn u x.upn) it) ∙ b.same_key;
          same_source = sym (ap (λ x. x.source) it) ∙ b.same_source;
        },
        sym (ap (λ x. x.sent) it),
        inr (it, refl),
      )
]

-- An entry after a message has moved is the one that moved, or it was there before.
at_place-cases :
    (entries : ℕ → Option Entry) (i : ℕ) (e : Entry) (p : Place) (j : ℕ) (x : Entry)
    → at_place i e p entries j ≡ some x
    → (entries j ≡ some x) ⊎ (record e { place = p } ≡ x)
unfolding at_place
at_place-cases entries i e p j x at = elim (Bool-cases (i == j)) [
  | inr other ↦ inl (rw other at at)
  | inl same ↦ inr (some_entry (rw same at at))
]

-- A pending record stands below the give-up of its own message.
pending-rank :
    (rec : Record)
    → rec.status ≡ pending
    → (o : Option Record) → o ≡ some rec
    → {n : ℕ} → 4 * n + 3 ≤ rank o
    → rec.source_enqueued_at ≢ n
unfolding status_precedence
pending-rank rec pend o at high same =
    let low : rank o ≡ 4 * rec.source_enqueued_at + 2 = rw (at, pend) (omega arith) in
    omega (arith, low, high, same)

outranked :
    (u : Unicode) (store : Store) (e e' : Entry) (key : Text)
    → e' ≡ e
    → normalize_upn u e'.upn ≡ key
    → 4 * e.source + 3 ≤ rank (store (normalize_upn u e.upn))
    → 4 * e.source + 3 ≤ rank (store key)
outranked u store e e' key it same h =
    let at : normalize_upn u e.upn ≡ key = sym (ap (λ x. normalize_upn u x.upn) it) ∙ same in
    omega (arith, h, ap (λ k. rank (store k)) at)

-- A message may move to a place that the rest of the state admits.
pub moved-Inv :
    {u : Unicode} {ttl delay now : ℕ} {entries : ℕ → Option Entry} {store : Store} (i : ℕ)
    (e : Entry) (p : Place)
    → Inv u ttl delay now entries store
    → entries i ≡ some e
    → (e.place ≡ Dedupe.written → p ≡ Dedupe.written)
    → (p ≡ given_up → 4 * e.source + 3 ≤ rank (store (normalize_upn u e.upn)))
    → (p ≡ expired → e.sent + ttl ≤ now)
    → Inv u ttl delay now (at_place i e p entries) store
moved-Inv {u} {ttl} {delay} {now} {entries} {store} i e p inv found stays marked late = record {
  pending_backed = λ key rec at pend.
      let (b, fresh, alive) = inv.pending_backed key rec at pend in
      let (b', sent, where_to) = carried u entries i e p key rec found b in
      (
        b',
        omega (arith, fresh, sent),
        λ gone. elim where_to [
          | inl same ↦ alive (sym same ∙ gone)
          | inr (it, to) ↦
              pending-rank rec pend (store key) at
                (outranked u store e b.entry key it b.same_key (marked (sym to ∙ gone)))
                (sym b.same_source ∙ ap (λ x. x.source) it)
        ],
      );
  synced_backed = λ key rec at done.
      let (b, wrote) = inv.synced_backed key rec at done in
      let (b', sent, where_to) = carried u entries i e p key rec found b in
      (
        b',
        elim where_to [
          | inl same ↦ same ∙ wrote
          | inr (it, to) ↦ to ∙ stays (sym (ap (λ x. x.place) it) ∙ wrote)
        ],
      );
  given_up_marked = λ j x at gone. elim (at_place-cases entries i e p j x at) [
    | inl old ↦ inv.given_up_marked j x old gone
    | inr new ↦
        let from = marked (ap (λ y. y.place) new ∙ gone) in
        let src : e.source ≡ x.source = ap (λ y. y.source) new in
        let key : normalize_upn u e.upn ≡ normalize_upn u x.upn =
          ap (λ y. normalize_upn u y.upn) new in
        omega (arith, from, src, ap (λ k. rank (store k)) key)
  ];
  expired_late = λ j x at gone. elim (at_place-cases entries i e p j x at) [
    | inl old ↦ inv.expired_late j x old gone
    | inr new ↦
        let from = late (ap (λ y. y.place) new ∙ gone) in
        let sent : e.sent ≡ x.sent = ap (λ y. y.sent) new in omega (arith, from, sent)
  ];
}

unfoldable pub with_new : ℕ → Entry → (ℕ → Option Entry) → ℕ → Option Entry
with_new i e entries j = if i == j then some e else entries j

-- A new message backs nothing less.
kept :
    (u : Unicode) (entries : ℕ → Option Entry) (i : ℕ) (e : Entry) (key : Text) (rec : Record)
    → entries i ≡ none
    → (b : Backs u entries key rec)
    → (b' : Backs u (with_new i e entries) key rec) × (b'.entry ≡ b.entry)
unfolding with_new
kept u entries i e key rec unused b =
    let found : with_new i e entries b.number ≡ some b.entry = elim (Bool-cases (i == b.number)) [
      | inr other ↦ rw other b.found
      | inl same ↦
          let here : i ≡ b.number = (==_iff i b.number).0 same in
          absurd (some_none (sym b.found ∙ sym (ap entries here) ∙ unused))
    ] in
    (
      record {
        number = b.number;
        entry = b.entry;
        found = found;
        same_key = b.same_key;
        same_source = b.same_source;
      },
      refl,
    )
  where
    some_none : {x : Entry} → some x ≢ none
    some_none h = cc h

with_new-cases :
    (entries : ℕ → Option Entry) (i : ℕ) (e : Entry) (j : ℕ) (x : Entry)
    → with_new i e entries j ≡ some x
    → (entries j ≡ some x) ⊎ (e ≡ x)
unfolding with_new
with_new-cases entries i e j x at = elim (Bool-cases (i == j)) [
  | inr other ↦ inl (rw other at at)
  | inl same ↦ inr (some_entry (rw same at at))
]

-- A new message, at a number that no message has.
pub with_new-Inv :
    {u : Unicode} {ttl delay now : ℕ} {entries : ℕ → Option Entry} {store : Store} (i : ℕ)
    (e : Entry)
    → Inv u ttl delay now entries store
    → entries i ≡ none
    → e.place ≡ in_queue
    → Inv u ttl delay now (with_new i e entries) store
with_new-Inv {u} {delay = delay} {entries = entries} i e inv unused queued = record {
  pending_backed = λ key rec at pend.
      let (b, fresh, alive) = inv.pending_backed key rec at pend in
      let (b', same) = kept u entries i e key rec unused b in
      (
        b',
        omega (arith, fresh, ap (λ x. x.sent) same),
        λ gone. alive (sym (ap (λ x. x.place) same) ∙ gone),
      );
  synced_backed = λ key rec at done.
      let (b, wrote) = inv.synced_backed key rec at done in
      let (b', same) = kept u entries i e key rec unused b in (b', ap (λ x. x.place) same ∙ wrote);
  given_up_marked = λ j x at gone. elim (with_new-cases entries i e j x at) [
    | inl old ↦ inv.given_up_marked j x old gone
    | inr new ↦ cc (sym queued ∙ ap (λ y. y.place) new ∙ gone)
  ];
  expired_late = λ j x at gone. elim (with_new-cases entries i e j x at) [
    | inl old ↦ inv.expired_late j x old gone
    | inr new ↦ cc (sym queued ∙ ap (λ y. y.place) new ∙ gone)
  ];
}
