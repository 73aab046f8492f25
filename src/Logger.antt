-- ===== src/Logger.antt =====
-- pkg/logger/logger.go: the handler that masks attributes before they are logged. A value stands for what its
-- Resolve returns; one that is no group is its text.
pub mod Masked
use password_hook_service.Prelude.{
  ℕ, Bool, true, false, ◌||◌, List, [], ◌∷◌, if◌then◌else◌, ◌==◌, Text, codes, Unicode, lower,
}
use password_hook_service.Config.Texts.{contains}

mutual
  pub data Value : Type 0 where
    text : Text → Value
    group : Attrs → Value

  pub data Attrs : Type 0 where
    no_attrs : Attrs
    attr : (key : Text) → Value → Attrs → Attrs

-- keyNormalizer: the separators are left out.
unfoldable pub without_separators : Text → Text
without_separators [] = []
without_separators (c ∷ cs) =
    let rest = without_separators cs in
    if c == b'_' || c == b'-' || c == b'.' then rest else c ∷ rest

unfoldable pub is_sensitive_key : Unicode → Text → Bool
is_sensitive_key u key =
    let normalized = without_separators (lower u key) in
    contains (codes "password") normalized
    || contains (codes "passwd") normalized
    || contains (codes "secret") normalized
    || contains (codes "token") normalized

abbrev pub stars : Value
stars = text (codes "****")

unfoldable mutual
  -- maskAttr, at the value of an attribute.
  pub mask_value : Unicode → Value → Value
  mask_value u (text t) = text t
  mask_value u (group attrs) = group (mask_attrs u attrs)

  pub mask_attrs : Unicode → Attrs → Attrs
  mask_attrs u no_attrs = no_attrs
  mask_attrs u (attr key v attrs) =
      attr key (if is_sensitive_key u key then stars else mask_value u v) (mask_attrs u attrs)

-- What a handler is asked to do.
pub data HandlerCall : Type 0 where
  handle : (message : Text) → Attrs → HandlerCall
  with_attrs : Attrs → HandlerCall
  with_group : (name : Text) → HandlerCall

-- MaskingHandler: what its `next` is asked to do.
unfoldable pub passed_on : Unicode → HandlerCall → HandlerCall
passed_on u (handle message attrs) = handle message (mask_attrs u attrs)
passed_on u (with_attrs attrs) = with_attrs (mask_attrs u attrs)
passed_on u (with_group name) = with_group name
