-- ===== src/Migration/Identity/Laws.antt =====
-- The classes of a CN, and the principal names built from it.
use password_hook_service.Prelude.{
  Bool, false, [], ◌∷◌, ◌++◌, ◌≡◌, ◌≢◌, refl, sym, ◌∙◌, ◌==◌, any, Text, trim_space,
  trim_space-trim_space, normalize, Unicode, ok, arith, ◌⊎◌, ◌↔◌,
}
use password_hook_service.Migration.Identity.{
  unknown, student_id, employee_id, classify_cn, build_upn,
}

abbrev pub has_at : Text → Bool
has_at s = any (λ r. r == b'@') s

-- Two names that end at their first `@` are equal if what they begin is.
at-split :
    (s t d e : Text) → has_at s ≡ false → has_at t ≡ false → s ++ b'@' ∷ d ≡ t ++ b'@' ∷ e → s ≡ t
at-split [] [] d e hs ht h = refl
at-split [] (b ∷ t) d e hs ht h = ground arith
at-split (a ∷ s) [] d e hs ht h = ground arith
at-split (a ∷ s) (b ∷ t) d e hs ht h = ground (arith, at-split s t d e)

module _ (u : Unicode) where
  -- A CN and the same CN with spaces around it are of one class.
  pub classify_cn-trim_space : (cn : Text) → classify_cn u (trim_space cn) ≡ classify_cn u cn
  unfolding classify_cn
  classify_cn-trim_space cn = rw trim_space-trim_space

  class_of_blank : (cn : Text) → trim_space cn ≡ [] → classify_cn u cn ≡ unknown
  unfolding classify_cn
  class_of_blank cn h = rw h

  -- What the two accepted classes exclude.
  classified :
      (cn : Text)
      → (classify_cn u cn ≡ student_id) ⊎ (classify_cn u cn ≡ employee_id)
      → has_at (trim_space cn) ≡ false
  unfolding classify_cn
  classified cn h = ground arith

  pub build_upn_ok :
      (cn domain : Text) {upn : Text}
      → build_upn u cn domain ≡ ok upn
      → (upn ≡ trim_space cn ++ b'@' ∷ normalize u domain)
        × (has_at (trim_space cn) ≡ false)
        × (normalize u domain ≢ [])
        × ((classify_cn u cn ≡ student_id) ⊎ (classify_cn u cn ≡ employee_id))
  unfolding build_upn normalize
  build_upn_ok cn domain h =
      ground
        (arith, classify_cn-trim_space cn, classified (trim_space cn), trim_space-trim_space cn)

  build_upn_of_class :
      (cn domain : Text)
      → (((classify_cn u cn ≡ student_id) ⊎ (classify_cn u cn ≡ employee_id))
          × (normalize u domain ≢ []))
      → build_upn u cn domain ≡ ok (trim_space cn ++ b'@' ∷ normalize u domain)
  unfolding build_upn normalize
  build_upn_of_class cn domain h = ground (arith, classify_cn-trim_space cn, class_of_blank cn)

  -- The principal name of a CN is built, as the CN without outer spaces at the normalised domain,
  -- exactly if the CN is of a student or an employee and the domain is not blank.
  build_upn_iff :
      (cn domain : Text)
      → (build_upn u cn domain ≡ ok (trim_space cn ++ b'@' ∷ normalize u domain)) ↔ (
          ((classify_cn u cn ≡ student_id) ⊎ (classify_cn u cn ≡ employee_id))
          × (normalize u domain ≢ []))
  build_upn_iff cn domain =
      (λ h. let (_, _, d, c) = build_upn_ok cn domain h in (c, d), build_upn_of_class cn domain)

  -- Under one domain, two CNs with the same principal name are the same but for outer spaces.
  build_upn-injective :
      (cn cn' domain : Text) {upn : Text}
      → build_upn u cn domain ≡ ok upn
      → build_upn u cn' domain ≡ ok upn
      → trim_space cn ≡ trim_space cn'
  build_upn-injective cn cn' domain h h' =
      let (e, at, _, _) = build_upn_ok cn domain h in
      let (e', at', _, _) = build_upn_ok cn' domain h' in
      at-split (trim_space cn) (trim_space cn') (normalize u domain) (normalize u domain) at at'
        (sym e ∙ e')
