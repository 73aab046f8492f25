-- ===== src/Prelude/Resources.antt =====
-- Code that opens and closes clients: its calls, and how many of a kind a history leaves open.
use Prim.Native.Nat.{ℕ, suc, ◌-◌}
use mathlib.Core.Bool.{Bool}
use mathlib.Core.Option.{Option, none, some}
use mathlib.Core.List.{List, [], ◌∷◌, ◌++◌}
use password_hook_service.Prelude.Tests.{if◌then◌else◌}
use password_hook_service.Prelude.Strings.{Text}
use password_hook_service.Prelude.Effects.{Exec, call, pure, ◌>>=◌}

-- `asks` is any other call.
pub data Use (R : Type 0) : Type 0 where
  opens closes asks : R → Use R

-- What the calls return after a given history: an error, or none.
abbrev pub Results : Type 0 → Type 0
Results R = List (Use R) → Option Text

module _ {R : Type 0} (same : R → R → Bool) (result : Results R) where
  -- A call of Close gives the resource up, also if it returns an error.
  unfoldable pub held : R → List (Use R) → ℕ
  held r [] = 0
  held r (opens r' ∷ h) =
      let before = held r h in
      if same r r'
      then elim (result (opens r' ∷ h)) [ none ↦ suc before | some e ↦ before ]
      else before
  held r (closes r' ∷ h) = let before = held r h in if same r r' then before - 1 else before
  held r (asks r' ∷ h) = held r h

-- `if err != nil { errs = append(errs, err) }`
abbrev pub joined : List Text → Option Text → List Text
joined errors none = errors
joined errors (some e) = errors ++ e ∷ []

-- The errors of closing each of the resources, in their order.
abbrev pub close_all : {R : Type 0} → Results R → List R → List Text → Exec (Use R) (List Text)
close_all result [] errors = pure errors
close_all result (r ∷ rs) errors = do
  failure ← call (closes r) result
  close_all result rs (joined errors failure)
