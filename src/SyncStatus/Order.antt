-- ===== src/SyncStatus/Order.antt =====
-- Sequences of writes to the store of internal/syncstatus/status.go, and the order of its entries.
use mathlib.Core.List.{Perm, Permᴰ}
use mathlib.Core.Logic.{∥∥₁_elim}
use native.Mathlib.Nat.{ℕ_set}
use password_hook_service.Prelude.{
  ℕ, ◌+◌, ◌*◌, ◌≤◌, max, Option, none, some, List, [], ◌∷◌, ◌≡◌, refl, ◌∙◌, arith, if◌then◌else◌,
  Text, same_text, same_text_iff, same_text_refl, ◌++◌, Unicode, Bool-cases, inl, inr,
}
use password_hook_service.SyncStatus.{
  Status, Record, Store, status_precedence, is_stale, put, normalize_upn, set,
}

-- One call of a Mark method, with the reading of the clock.
pub record Write : Type 0 where
  pub upn : Text
  pub status : Status
  pub source : ℕ
  pub now : ℕ

-- The place of an entry in the order: by source, then by precedence, above no entry at all.
abbrev pub rank : Option Record → ℕ
rank none = 0
rank (some r) = 4 * r.source_enqueued_at + status_precedence r.status + 1

-- What a client's decision depends on.
abbrev pub view : Option Record → Option (Status × ℕ)
view none = none
view (some r) = some (r.status, r.source_enqueued_at)

pub rank-injective : (a b : Option Record) → rank a ≡ rank b → view a ≡ view b
unfolding status_precedence
rank-injective a b h = ground arith

rank-tie :
    (r : Record) (status : Status) (source now : ℕ)
    → rank (
        if is_stale (some r) status source
        then some r
        else some (record { status = status; updated_at = now; source_enqueued_at = source }))
      ≡ max (rank (some r)) (4 * source + status_precedence status + 1)
unfolding is_stale status_precedence
rank-tie r status source now = ground arith

-- What a write makes of the entry of its own key.
abbrev pub written : Option Record → Write → Option Record
written o w =
    if is_stale o w.status w.source
    then o
    else some (record { status = w.status; updated_at = w.now; source_enqueued_at = w.source })

pub rank-written :
    (o : Option Record) (w : Write)
    → rank (written o w) ≡ max (rank o) (4 * w.source + status_precedence w.status + 1)
unfolding is_stale status_precedence
rank-written none w = omega arith
rank-written (some r) w = rank-tie r w.status w.source w.now

module _ (u : Unicode) where
  unfoldable pub write : Write → Store → Store
  unfolding set
  write w s = (set u none w.upn w.status w.source w.now s).1

  unfoldable pub write_all : List Write → Store → Store
  unfolding write
  write_all [] s = s
  write_all (w ∷ ws) s = write_all ws (write w s)

  -- What a write is worth to a key.
  abbrev pub worth : Text → Write → ℕ
  worth key w =
      if same_text (normalize_upn u w.upn) key
      then 4 * w.source + status_precedence w.status + 1
      else 0

  pub write-key :
      (w : Write) (s : Store) (key : Text)
      → write w s key ≡ (if same_text (normalize_upn u w.upn) key then written (s key) w else s key)
  unfolding write put
  write-key w s key = let k = normalize_upn u w.upn in ground (arith, same_text_iff k key)

  rank-write :
      (w : Write) (s : Store) (key : Text) → rank (write w s key) ≡ max (rank (s key)) (worth key w)
  unfolding write put
  rank-write w s key = elim (Bool-cases (same_text (normalize_upn u w.upn) key)) [
    | inl same ↦ rw (write-key w s key, same) (rank-written (s key) w)
    | inr other ↦ rw (write-key w s key, other) (omega arith)
  ]

  -- The greatest worth of the writes.
  abbrev pub top : Text → List Write → ℕ
  top key [] = 0
  top key (w ∷ ws) = max (worth key w) (top key ws)

  rank-write_all :
      (ws : List Write) (s : Store) (key : Text)
      → rank (write_all ws s key) ≡ max (rank (s key)) (top key ws)
  unfolding write_all
  rank-write_all [] s key = omega arith
  rank-write_all (w ∷ ws) s key =
      omega (arith, rank-write_all ws (write w s) key, rank-write w s key)

  top-Permᴰ : (key : Text) {ws ws' : List Write} → Permᴰ ws ws' → top key ws ≡ top key ws'
  top-Permᴰ key Permᴰ.nil = refl
  top-Permᴰ key (Permᴰ.cons e p) = rw e (rw (top-Permᴰ key p))
  top-Permᴰ key (Permᴰ.swap e f) = rw (e, f) (omega arith)
  top-Permᴰ key (Permᴰ.trans p q) = top-Permᴰ key p ∙ top-Permᴰ key q

  top-middle :
      (key : Text) (before after : List Write) (w : Write)
      → worth key w ≤ top key (before ++ w ∷ after)
  top-middle key [] after w = omega arith
  top-middle key (b ∷ before) after w = omega (arith, top-middle key before after w)

  -- Whatever the order in which the writes arrive, a key ends with the same status and source.
  pub write_all-perm :
      (ws ws' : List Write) (s : Store) (key : Text)
      → Perm ws ws'
      → view (write_all ws s key) ≡ view (write_all ws' s key)
  write_all-perm ws ws' s key p =
      let same : top key ws ≡ top key ws' =
        ∥∥₁_elim p (ℕ_set (top key ws) (top key ws')) (λ d. top-Permᴰ key d) in
      rank-injective (write_all ws s key) (write_all ws' s key)
        (omega (arith, rank-write_all ws s key, rank-write_all ws' s key))

  -- After any writes, among them one to the key, the place of the key's entry in the order is no
  -- lower than before the writes, and no lower than that of the write to it.
  write_all-newest :
      (before after : List Write) (w : Write) (s : Store)
      → (rank (s (normalize_upn u w.upn))
          ≤ rank (write_all (before ++ w ∷ after) s (normalize_upn u w.upn)))
        × (4 * w.source + status_precedence w.status + 1
            ≤ rank (write_all (before ++ w ∷ after) s (normalize_upn u w.upn)))
  write_all-newest before after w s =
      let key = normalize_upn u w.upn in
      let counted : worth key w ≤ top key (before ++ w ∷ after) = top-middle key before after w in
      let own : worth key w ≡ 4 * w.source + status_precedence w.status + 1 =
        rw (same_text_refl key) in
      omega (arith, rank-write_all (before ++ w ∷ after) s key)
