-- ===== src/Migration/Identity.antt =====
-- internal/migration/classifier.go and upn.go
pub mod Laws
use password_hook_service.Prelude.{
  Bool, true, false, ◌&&◌, ◌||◌, List, [], ◌∷◌, ◌++◌, ◌==◌, if◌then◌else◌, all, any, is_empty, Text,
  trim_space, lower, Unicode, Result, ok, err,
}

pub data IdentityType : Type 0 where
  unknown student_id employee_id external_email : IdentityType

pub data Error : Type 0 where
  external_identity unknown_identity domain_required : Error

module _ (u : Unicode) where
  all_digits : Text → Bool
  all_digits value = all u.is_digit value

  starts_with_letter : Text → Bool
  starts_with_letter [] = false
  starts_with_letter (r ∷ _) = u.is_letter r

  all_letters_digits_or_hyphen : Text → Bool
  all_letters_digits_or_hyphen value = all (λ r. r == b'-' || u.is_letter r || u.is_digit r) value

  unfoldable pub classify_cn : Text → IdentityType
  unfolding all_digits starts_with_letter all_letters_digits_or_hyphen
  classify_cn cn =
      let normalized = trim_space cn in
      if is_empty normalized
      then unknown
      else if any (λ r. r == b'@') normalized
      then external_email
      else if all_digits normalized
      then student_id
      else if starts_with_letter normalized && all_letters_digits_or_hyphen normalized
      then employee_id
      else unknown

  -- The `switch` of BuildUPN.
  upn_of : IdentityType → Text → Text → Result Error Text
  upn_of student_id cn domain = ok (cn ++ b'@' ∷ domain)
  upn_of employee_id cn domain = ok (cn ++ b'@' ∷ domain)
  upn_of external_email cn domain = err external_identity
  upn_of unknown cn domain = err unknown_identity

  unfoldable pub build_upn : Text → Text → Result Error Text
  unfolding upn_of
  build_upn cn primary_domain =
      let normalized_cn = trim_space cn in
      let domain = lower u (trim_space primary_domain) in
      if is_empty normalized_cn
      then err unknown_identity
      else if is_empty domain
      then err domain_required
      else upn_of (classify_cn normalized_cn) normalized_cn domain
