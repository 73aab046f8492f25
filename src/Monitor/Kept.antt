-- ===== src/Monitor/Kept.antt =====
-- Which labels allowedLabels of internal/azuremonitor/metrics.go keeps.
use password_hook_service.Prelude.{
  suc, ◌+◌, ◌≤◌, true, not, ◌&&◌, [], ◌∷◌, ◌++◌, ◌≡◌, refl, sym, ◌∙◌, arith, if◌then◌else◌, ◌==◌,
  any, length, length-append, is_empty, Text, same_text, trim_space, Bool-cases, inl, inr,
  append_assoc, append-nil,
}
use password_hook_service.Monitor.{Labels, allowed_names, keep_label, allowed_from, allowed_labels}
use password_hook_service.Monitor.Allowed.{AllowedName, AllowedLabels}

-- The labels but for the blank ones, with their values trimmed.
unfoldable pub without_blanks : Labels → Labels
without_blanks [] = []
without_blanks ((key, value) ∷ labels) =
    let rest = without_blanks labels in
    if is_empty (trim_space value) then rest else (key, trim_space value) ∷ rest

keep_label-without_blanks :
    (out : Labels) (key value : Text) (rest : Labels)
    → AllowedName key
    → keep_label out key value ++ rest
      ≡ out ++ (if is_empty (trim_space value) then rest else (key, trim_space value) ∷ rest)
unfolding keep_label AllowedName
keep_label-without_blanks out key value rest known =
    elim (Bool-cases (is_empty (trim_space value))) [
      | inl blank ↦ rw (known, blank) refl
      | inr solid ↦ rw (known, solid) (append_assoc out ((key, trim_space value) ∷ []) rest)
    ]

length-keep_label :
    (out : Labels) (key value : Text) → length (keep_label out key value) ≤ suc (length out)
unfolding keep_label
length-keep_label out key value =
    elim (Bool-cases (any (same_text key) allowed_names && not (is_empty (trim_space value)))) [
      | inl kept ↦ rw kept (omega (arith, length-append out ((key, trim_space value) ∷ [])))
      | inr dropped ↦ rw dropped (omega arith)
    ]

full-without_blanks :
    (kept labels : Labels)
    → (length kept == 9) ≡ true
    → length kept + length labels ≤ 9
    → kept ≡ kept ++ without_blanks labels
unfolding without_blanks
full-without_blanks kept [] full n = sym (append-nil kept)
full-without_blanks kept (l ∷ labels) full n = absurd (ground (arith, full, n))

allowed_from-without_blanks :
    (out labels : Labels)
    → AllowedLabels labels
    → length out + length labels ≤ 9
    → allowed_from out labels ≡ out ++ without_blanks labels
unfolding allowed_from without_blanks
allowed_from-without_blanks out [] h n = sym (append-nil out)
allowed_from-without_blanks out ((key, value) ∷ labels) (known, h) n =
    let kept = keep_label out key value in
    let within : length kept + length labels ≤ 9 = omega (arith, length-keep_label out key value) in
    let same = keep_label-without_blanks out key value (without_blanks labels) known in
    elim (Bool-cases (length kept == 9)) [
      | inl full ↦ rw full (full-without_blanks kept labels full within ∙ same)
      | inr more ↦ rw more (allowed_from-without_blanks kept labels h within ∙ same)
    ]

pub allowed_labels-without_blanks :
    (labels : Labels)
    → AllowedLabels labels
    → length labels ≤ 9
    → allowed_labels labels ≡ without_blanks labels
unfolding allowed_labels
allowed_labels-without_blanks labels h l =
    allowed_from-without_blanks [] labels h (omega (arith, l))
