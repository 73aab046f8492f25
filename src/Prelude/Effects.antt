-- ===== src/Prelude/Effects.antt =====
-- Code that calls its collaborators. A call is recorded, newest first, and its outcome is a function
-- of the whole history: so a collaborator may answer each call in any way.
use mathlib.Core.List.{List, ◌∷◌}

abbrev pub Exec : Type 0 → Type 0 → Type 0
Exec C A = List C → A × List C

module _ {C A : Type 0} where
  -- Make a call, and read its outcome off the history that it ends.
  abbrev pub call : C → (List C → A) → Exec C A
  call c answer h = (answer (c ∷ h), c ∷ h)

  abbrev pub pure : A → Exec C A
  pure a h = (a, h)

-- A call whose outcome the code ignores.
abbrev pub tell : {C : Type 0} → C → Exec C (Unit {0})
tell c h = (tt, c ∷ h)

module _ {C A B : Type 0} where
  infixl 5 ◌>>=◌ ◌>>◌
  abbrev pub ◌>>=◌ : Exec C A → (A → Exec C B) → Exec C B
  ◌>>=◌ m f h = let (a, h') = m h in f a h'

  abbrev pub ◌>>◌ : Exec C A → Exec C B → Exec C B
  ◌>>◌ m n h = let (a, h') = m h in n h'
