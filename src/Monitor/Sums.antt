-- ===== src/Monitor/Sums.antt =====
-- What the points of the metric recorder of internal/azuremonitor/metrics.go hold after any calls of `add`.
use password_hook_service.Prelude.{
  ℕ, ◌+◌, true, List, [], ◌∷◌, ◌≡◌, refl, ◌∙◌, ap, arith, if◌then◌else◌, length, is_empty, Text,
  same_text, same_text_iff, trim_space, Bool-cases, inl, inr,
}
use password_hook_service.Monitor.{
  Labels, Arithmetic, Point, Points, zero_point, point_at, put_point, absorb, add, allowed_labels,
  metric_key,
}

-- One call of `add`.
pub record Sample (F : Type 0) : Type 0 where
  pub name : Text
  pub labels : Labels
  pub value : F

abbrev key_of : {F : Type 0} → Sample F → Text
key_of s = metric_key (trim_space s.name) (allowed_labels s.labels)

module _ {F : Type 0} (a : Arithmetic F) where
  unfoldable pub add_all : List (Sample F) → Points F → Points F
  add_all [] points = points
  add_all (s ∷ samples) points = add_all samples (add a s.name s.labels s.value points)

  point_at-put_point :
      (k key : Text) (p : Point F) (points : Points F)
      → point_at a k (put_point key p points) ≡ (if same_text key k then p else point_at a k points)
  unfolding point_at put_point
  point_at-put_point k key p [] = refl
  point_at-put_point k key p ((k', q) ∷ points) = ground (
    arith,
    same_text_iff k' key,
    same_text_iff k' k,
    same_text_iff key k,
    point_at-put_point k key p points,
  )

  -- The samples that a key is for, in their order.
  unfoldable pub of_key : Text → List (Sample F) → List (Sample F)
  of_key k [] = []
  of_key k (s ∷ samples) =
      let rest = of_key k samples in
      if is_empty (trim_space s.name)
      then rest
      else if same_text (key_of s) k
      then s ∷ rest
      else rest

  unfoldable absorb_all : List (Sample F) → Point F → Point F
  absorb_all [] p = p
  absorb_all (s ∷ samples) p =
      absorb_all samples (absorb a (trim_space s.name) (allowed_labels s.labels) s.value p)

  point_at-add :
      (k : Text) (s : Sample F) (points : Points F)
      → point_at a k (add a s.name s.labels s.value points) ≡ (
          if is_empty (trim_space s.name)
          then point_at a k points
          else if same_text (key_of s) k
          then absorb a
              (trim_space s.name)
              (allowed_labels s.labels)
              s.value
              (point_at a (key_of s) points)
          else point_at a k points)
  unfolding add
  point_at-add k s points = elim (Bool-cases (is_empty (trim_space s.name))) [
    | inl blank ↦ rw blank refl
    | inr named ↦
        let key = key_of s in
        let q =
          absorb a (trim_space s.name) (allowed_labels s.labels) s.value (point_at a key points) in
        rw named (point_at-put_point k key q points)
  ]

  point_at-add_all :
      (k : Text) (samples : List (Sample F)) (points : Points F)
      → point_at a k (add_all samples points) ≡ absorb_all (of_key k samples) (point_at a k points)
  unfolding add_all of_key absorb_all
  point_at-add_all k [] points = refl
  point_at-add_all k (s ∷ samples) points =
      let here = point_at-add k s points in
      let rest = point_at-add_all k samples (add a s.name s.labels s.value points) in
      elim (Bool-cases (is_empty (trim_space s.name))) [
        | inl blank ↦ rw blank (rest ∙ ap (absorb_all (of_key k samples)) (rw blank at here))
        | inr named ↦ elim (Bool-cases (same_text (key_of s) k)) [
          | inl same ↦
              let e : key_of s ≡ k = (same_text_iff (key_of s) k).0 same in
              rw (named, same)
                (rest
                  ∙ ap (absorb_all (of_key k samples)) (
                      rw (named, same) at here
                      ∙ ap
                          (λ key.
                            absorb a (trim_space s.name) (allowed_labels s.labels) s.value
                              (point_at a key points))
                          e))
          | inr other ↦
              rw (named, other)
                (rest ∙ ap (absorb_all (of_key k samples)) (rw (named, other) at here))
        ]
      ]

  -- The least value from `m` on, the greatest, and the sum.
  unfoldable pub lowest : F → List (Sample F) → F
  lowest m [] = m
  lowest m (s ∷ samples) = lowest (if a.less s.value m then s.value else m) samples

  unfoldable pub highest : F → List (Sample F) → F
  highest m [] = m
  highest m (s ∷ samples) = highest (if a.less m s.value then s.value else m) samples

  unfoldable pub total : F → List (Sample F) → F
  total m [] = m
  total m (s ∷ samples) = total (a.plus m s.value) samples

  unfoldable pub summary : List (Sample F) → Point F
  unfolding lowest highest total
  summary [] = zero_point a
  summary (s ∷ samples) = record {
    name = trim_space s.name;
    labels = allowed_labels s.labels;
    min = lowest s.value samples;
    max = highest s.value samples;
    sum = total (a.plus a.zero s.value) samples;
    count = length (s ∷ samples);
    observed = true;
  }

  abbrev held : Text → Labels → (least greatest sum : F) → ℕ → Point F
  held name labels least greatest sum count = record {
    name = name;
    labels = labels;
    min = least;
    max = greatest;
    sum = sum;
    count = count;
    observed = true;
  }

  absorb_all-held :
      (samples : List (Sample F)) (name : Text) (labels : Labels) (least greatest sum : F)
      (count : ℕ)
      → absorb_all samples (held name labels least greatest sum count)
        ≡ held name labels
            (lowest least samples)
            (highest greatest samples)
            (total sum samples)
            (count + length samples)
  unfolding absorb_all lowest highest total absorb
  absorb_all-held [] name labels least greatest sum count =
      ap (held name labels least greatest sum) (omega arith)
  absorb_all-held (s ∷ samples) name labels least greatest sum count =
      let m = if a.less s.value least then s.value else least in
      let x = if a.less greatest s.value then s.value else greatest in
      absorb_all-held samples name labels m x (a.plus sum s.value) (count + 1)
      ∙ ap
          (held name labels (lowest m samples) (highest x samples)
            (total (a.plus sum s.value) samples))
          (omega arith)

  absorb-zero :
      (name : Text) (labels : Labels) (value : F)
      → absorb a name labels value (zero_point a)
        ≡ held name labels value value (a.plus a.zero value) 1
  unfolding absorb
  absorb-zero name labels value = elim (Bool-cases (a.less value value)) [
    | inl h ↦ rw h refl
    | inr h ↦ rw h refl
  ]

  absorb_all-zero :
      (samples : List (Sample F)) → absorb_all samples (zero_point a) ≡ summary samples
  unfolding absorb_all summary
  absorb_all-zero [] = refl
  absorb_all-zero (s ∷ samples) =
      let name = trim_space s.name in
      let labels = allowed_labels s.labels in
      ap (absorb_all samples) (absorb-zero name labels s.value)
      ∙ absorb_all-held samples name labels s.value s.value (a.plus a.zero s.value) 1
      ∙ ap
          (held name labels (lowest s.value samples) (highest s.value samples)
            (total (a.plus a.zero s.value) samples))
          (omega arith)

  -- After any calls of `add`, the point of a key is the summary of the values that were added under it: the name
  -- and the labels of the first, the least and the greatest value, the sum in their order, and how many there are.
  pub add_all-is_summary :
      (k : Text) (samples : List (Sample F))
      → point_at a k (add_all samples []) ≡ summary (of_key k samples)
  unfolding point_at
  add_all-is_summary k samples = point_at-add_all k samples [] ∙ absorb_all-zero (of_key k samples)
