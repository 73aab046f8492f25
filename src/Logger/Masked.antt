-- ===== src/Logger/Masked.antt =====
-- What the masking of pkg/logger/logger.go leaves in the attributes.
use password_hook_service.Prelude.{
  Bool, true, false, ◌&&◌, if◌then◌else◌, ◌≡◌, refl, ap, arith, Text, codes, Unicode, same_text,
  same_text_refl, same_text_iff, sym,
}
use password_hook_service.Logger.{
  Value, text, group, Attrs, no_attrs, attr, is_sensitive_key, stars, mask_value, mask_attrs,
  HandlerCall, handle, with_attrs, with_group, passed_on,
}

is_stars : Value → Bool
is_stars (text t) = same_text t (codes "****")
is_stars (group attrs) = false

unfoldable mutual
  unfolding is_stars

  -- No attribute of the value with a sensitive key, at any depth, has another value than the stars.
  pub is_masked_value : Unicode → Value → Bool
  is_masked_value u (text t) = true
  is_masked_value u (group attrs) = is_masked u attrs

  pub is_masked : Unicode → Attrs → Bool
  is_masked u no_attrs = true
  is_masked u (attr key v attrs) =
      (if is_sensitive_key u key then is_stars v else is_masked_value u v) && is_masked u attrs

abbrev mask_one : Unicode → Text → Value → Value
mask_one u key v = if is_sensitive_key u key then stars else mask_value u v

abbrev is_masked_one : Unicode → Text → Value → Bool
is_masked_one u key v = if is_sensitive_key u key then is_stars v else is_masked_value u v

mutual
  unfolding is_masked_value mask_value is_stars

  mask_value-is_masked : (u : Unicode) (v : Value) → is_masked_value u (mask_value u v) ≡ true
  mask_value-is_masked u (text t) = refl
  mask_value-is_masked u (group attrs) = mask_attrs-is_masked u attrs

  mask_attrs-is_masked : (u : Unicode) (attrs : Attrs) → is_masked u (mask_attrs u attrs) ≡ true
  mask_attrs-is_masked u no_attrs = refl
  mask_attrs-is_masked u (attr key v attrs) =
      ground (
        arith,
        mask_value-is_masked u v,
        mask_attrs-is_masked u attrs,
        same_text_refl (codes "****"),
      )

stars-same : (v : Value) → is_stars v ≡ true → stars ≡ v
unfolding is_stars
stars-same (text t) e = ap (λ x. text x) (sym ((same_text_iff t (codes "****")).0 e))
stars-same (group attrs) e = cc e

mutual
  unfolding is_masked_value mask_value is_stars

  mask_value-same : (u : Unicode) (v : Value) → is_masked_value u v ≡ true → mask_value u v ≡ v
  mask_value-same u (text t) m = refl
  mask_value-same u (group attrs) m = ap (λ x. group x) (mask_attrs-same u attrs m)

  mask_attrs-same :
      (u : Unicode) (attrs : Attrs) → is_masked u attrs ≡ true → mask_attrs u attrs ≡ attrs
  mask_attrs-same u no_attrs m = refl
  mask_attrs-same u (attr key v attrs) m =
      let same = mask_value-same u v in
      let others = mask_attrs-same u attrs in
      let starred = stars-same v in ground (arith, m, same, others, starred)

unfoldable pub is_masked_call : Unicode → HandlerCall → Bool
is_masked_call u (handle message attrs) = is_masked u attrs
is_masked_call u (with_attrs attrs) = is_masked u attrs
is_masked_call u (with_group name) = true

-- In every call that the masking handler makes of the next handler, in a record or in the attributes of a logger, an
-- attribute whose key is sensitive has the stars for its value, at any depth of the groups.
pub passed_on-is_masked :
    (u : Unicode) (op : HandlerCall) → is_masked_call u (passed_on u op) ≡ true
unfolding passed_on is_masked_call
passed_on-is_masked u (handle message attrs) = mask_attrs-is_masked u attrs
passed_on-is_masked u (with_attrs attrs) = mask_attrs-is_masked u attrs
passed_on-is_masked u (with_group name) = refl

-- The masking handler changes nothing else: a call in which every attribute with a sensitive key has the stars for its
-- value already is passed on as it is.
passed_on-same : (u : Unicode) (op : HandlerCall) → is_masked_call u op ≡ true → passed_on u op ≡ op
unfolding passed_on is_masked_call
passed_on-same u (handle message attrs) m = ap (λ x. handle message x) (mask_attrs-same u attrs m)
passed_on-same u (with_attrs attrs) m = ap (λ x. with_attrs x) (mask_attrs-same u attrs m)
passed_on-same u (with_group name) m = refl
