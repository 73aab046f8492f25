-- ===== src/Config/Texts.antt =====
-- strings.HasPrefix, strings.HasSuffix and strings.Contains, which internal/config/config.go calls.
use password_hook_service.Prelude.{Bool, true, false, ◌&&◌, ◌||◌, ◌==◌, [], ◌∷◌, Text, same_text}

unfoldable pub has_prefix : Text → Text → Bool
has_prefix [] s = true
has_prefix (a ∷ t) [] = false
has_prefix (a ∷ t) (b ∷ s) = a == b && has_prefix t s

unfoldable pub has_suffix : Text → Text → Bool
has_suffix t [] = same_text t []
has_suffix t (b ∷ s) = same_text t (b ∷ s) || has_suffix t s

unfoldable pub contains : Text → Text → Bool
contains t [] = has_prefix t []
contains t (b ∷ s) = has_prefix t (b ∷ s) || contains t s
