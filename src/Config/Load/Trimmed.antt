-- ===== src/Config/Load/Trimmed.antt =====
-- What Load of internal/config/config.go reads, and that the Redis store takes it.
use password_hook_service.Prelude.{
  ℕ, Bool, true, false, not, ◌&&◌, none, List, [], ◌∷◌, all, is_empty, is_blank, if◌then◌else◌,
  ◌==◌, ◌≡◌, refl, arith, Text, codes, same_text, same_text_refl, trim_space, trim_space-trim_space,
}
use password_hook_service.Middleware.Source.{split_commas}
use password_hook_service.Config.Defs.{Parsers, Config}
use password_hook_service.Config.Services.{validate_sync_status}
use password_hook_service.SyncStatus.Connection.{validate_redis_options, redis_options_of}
use password_hook_service.SyncStatus.Connection.Accepts.{validate_redis_options-accepts}
use password_hook_service.Config.Load.{
  Environment, trimmed_values, csv_env, env, trim_slashes, load,
}

-- Is the value there, without a space around it?
abbrev pub is_tidy : Text → Bool
is_tidy v = not (is_blank v) && same_text (trim_space v) v

trimmed_values-is_tidy : (vs : List Text) → all is_tidy (trimmed_values vs) ≡ true
unfolding trimmed_values is_blank
trimmed_values-is_tidy [] = refl
trimmed_values-is_tidy (v ∷ vs) =
    ground
      (arith, trimmed_values-is_tidy vs, trim_space-trim_space v, same_text_refl (trim_space v))

csv_env-is_tidy : (e : Environment) (key : Text) → all is_tidy (csv_env e key) ≡ true
unfolding csv_env
csv_env-is_tidy e key =
    ground (arith, trimmed_values-is_tidy (split_commas (trim_space (e.getenv key))))

unfoldable pub ends_in_slash : Text → Bool
ends_in_slash [] = false
ends_in_slash (b ∷ []) = b == b'/'
ends_in_slash (b ∷ c ∷ s) = ends_in_slash (c ∷ s)

ends-kept :
    (b : ℕ) (rest : Text)
    → ends_in_slash rest ≡ false
    → ends_in_slash (if b == b'/' && is_empty rest then [] else b ∷ rest) ≡ false
unfolding ends_in_slash
ends-kept b [] n = ground arith
ends-kept b (c ∷ rest) n = ground (arith, n)

trim_slashes-ends : (s : Text) → ends_in_slash (trim_slashes s) ≡ false
unfolding trim_slashes ends_in_slash
trim_slashes-ends [] = refl
trim_slashes-ends (b ∷ s) = ends-kept b (trim_slashes s) (trim_slashes-ends s)

pub record IsTidy (c : Config) : Type 0 where
  pub portal : all is_tidy c.portal_allowed_cidrs ≡ true
  pub proxies : all is_tidy c.trusted_proxy_cidrs ≡ true
  pub base : ends_in_slash c.problem_base_url ≡ false

-- Whatever the environment says, the lists of networks that Load returns have no blank entry and none with a space
-- around it, and the base of the problem types does not end in a slash.
load-IsTidy : (e : Environment) → IsTidy (load e)
unfolding load
load-IsTidy e = record {
  portal = csv_env-is_tidy e _;
  proxies = csv_env-is_tidy e _;
  base =
      trim_slashes-ends (env e (codes "PROBLEM_BASE_URL") (codes "https://nycu.edu.tw/problems"));
}

-- If the environment selects the Redis store and Validate accepts what Load made of it, the options that
-- the wiring hands to the Redis store are accepted there too: the start does not fail at them.
pub load-accepted :
    (e : Environment) (p : Parsers)
    → same_text (load e).sync_status_store (codes "memory") ≡ false
    → validate_sync_status p (load e) ≡ none
    → validate_redis_options p (redis_options_of (load e)) ≡ none
unfolding load
load-accepted e p store valid =
    validate_redis_options-accepts p (load e)
      (trim_space-trim_space (e.getenv (codes "AZURE_CLIENT_ID"))) store valid
