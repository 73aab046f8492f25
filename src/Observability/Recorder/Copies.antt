-- ===== src/Observability/Recorder/Copies.antt =====
-- The copies of samples and of maps of labels, of internal/observability/recorder.go.
use password_hook_service.Prelude.{
  ℕ, suc, ◌≤◌, ◌<◌, Bool, true, false, List, [], ◌∷◌, ◌++◌, ◌≡◌, refl, ap, ◌∙◌, arith,
  if◌then◌else◌, ◌==◌, ==_iff, any, Text, same_text, ℤ, All, All-append, Bool-cases, inl, inr,
}
use password_hook_service.Observability.Recorder.{
  LabelMap, Heap, Sample, Kind, same_kind, CaptureRecorder, copy_samples, append_to, Recorded,
}

-- The samples as values: the labels that are in the map now.
unfoldable pub values : Heap → List Sample → List (LabelMap × ℤ × ℤ)
values h [] = []
values h (s ∷ samples) = (h.at s.labels, s.duration, s.value) ∷ values h samples

pub values-agree :
    (h h' : Heap) (samples : List Sample)
    → All (λ s. h'.at s.labels ≡ h.at s.labels) samples
    → values h' samples ≡ values h samples
unfolding values
values-agree h h' [] _ = refl
values-agree h h' (s ∷ samples) (e, es) = rw (e, values-agree h h' samples es) refl

pub All-map :
    {P Q : Sample → Type 0} (samples : List Sample)
    → ((s : Sample) → P s → Q s)
    → All P samples
    → All Q samples
All-map [] f _ = tt
All-map (s ∷ samples) f (p, ps) = (f s p, All-map samples f ps)

values-append :
    (h : Heap) (s : Sample) (samples : List Sample)
    → values h (samples ++ s ∷ []) ≡ values h samples ++ (h.at s.labels, s.duration, s.value) ∷ []
unfolding values
values-append h s [] = refl
values-append h s (x ∷ samples) = rw (values-append h s samples) refl

pub fresh_apart : (next a : ℕ) → a < next → (next == a) ≡ false
fresh_apart next a h = ground (arith, ==_iff next a)

-- Copies are new, equal to the originals, and change no map that was there.
pub record IsCopied (h : Heap) (samples out : List Sample) (h' : Heap) : Type 0 where
  pub grown : h.next ≤ h'.next
  pub kept : (a : ℕ) → a < h.next → h'.at a ≡ h.at a
  pub new : All (λ s. (h.next ≤ s.labels) × (s.labels < h'.next)) out
  pub same : values h' out ≡ values h samples

pub copy_samples-IsCopied :
    (samples : List Sample) (h : Heap)
    → All (λ s. s.labels < h.next) samples
    → IsCopied h samples (copy_samples samples h).0 (copy_samples samples h).1
unfolding copy_samples values
copy_samples-IsCopied [] h _ = record {
  grown = omega arith;
  kept = λ a _. refl;
  new = tt;
  same = refl;
}
copy_samples-IsCopied (s ∷ samples) h (here, there) =
    let h1 : Heap = record {
      next = suc h.next;
      at = λ a. if h.next == a then h.at s.labels else h.at a;
    } in
    let rest = copy_samples-IsCopied samples h1 (All-map samples (λ x p. omega (arith, p)) there) in
    let up = rest.grown in
    record {
      grown = omega (arith, up);
      kept = λ a below. rest.kept a (omega (arith, below)) ∙ rw (fresh_apart h.next a below) refl;
      new = (
        (omega arith, omega (arith, up)),
        All-map _ (λ x p. let low = p.0 in (omega (arith, low), p.1)) rest.new,
      );
      same =
          rw
            (
              rest.kept h.next (omega arith),
              rest.same,
              values-agree h h1 samples
                  (All-map samples (λ x p. rw (fresh_apart h.next x.labels p) refl) there),
              (==_iff h.next h.next).1 refl,
            )
            refl;
    }

-- A heap that keeps the maps below an address keeps the values of samples there.
pub values-kept :
    (h h' : Heap) (held : ℕ → Bool) (samples : List Sample)
    → ((a : ℕ) → a < h.next → h'.at a ≡ h.at a)
    → All (λ s. (s.labels < h.next) × (held s.labels ≡ false)) samples
    → values h' samples ≡ values h samples
values-kept h h' held samples kept apart =
    values-agree h h' samples (All-map samples (λ s p. kept s.labels p.0) apart)

pub any_labels :
    (samples : List Sample) (low high a : ℕ)
    → All (λ s. (low ≤ s.labels) × (s.labels < high)) samples
    → any (λ s. s.labels == a) samples ≡ true
    → (low ≤ a) × (a < high)
any_labels [] low high a _ e = cc e
any_labels (s ∷ samples) low high a (p, ps) e =
    ground (arith, ==_iff s.labels a, any_labels samples low high a ps)

pub All-append_to :
    (P : Sample → Type 0) (kind : Kind) (name : Text) (s : Sample) (r : CaptureRecorder)
    → P s
    → ((k : Kind) (n : Text) → All P (r k n))
    → (k : Kind) (n : Text) → All P (append_to kind name s r k n)
unfolding append_to
All-append_to P kind name s r p ps k n = elim (Bool-cases (same_kind kind k)) [
  | inr other ↦ rw other (ps k n)
  | inl same ↦ elim (Bool-cases (same_text name n)) [
    | inr other ↦ rw (same, other) (ps k n)
    | inl here ↦ rw (same, here) (All-append P (r k n) (s ∷ []) (ps k n) (p, tt))
  ]
]

pub values-append_to :
    (h : Heap) (kind : Kind) (name : Text) (s : Sample) (r : CaptureRecorder) (log : Recorded)
    → ((k : Kind) (n : Text) → values h (r k n) ≡ log k n)
    → (k : Kind) (n : Text)
    → values h (append_to kind name s r k n)
      ≡ append_to kind name (h.at s.labels, s.duration, s.value) log k n
unfolding append_to
values-append_to h kind name s r log e k n = elim (Bool-cases (same_kind kind k)) [
  | inr other ↦ rw other (e k n)
  | inl same ↦ elim (Bool-cases (same_text name n)) [
    | inr other ↦ rw (same, other) (e k n)
    | inl here ↦
        rw (same, here)
          (values-append h s (r k n)
            ∙ ap (λ l. l ++ (h.at s.labels, s.duration, s.value) ∷ []) (e k n))
  ]
]
