-- ===== src/App/Wiring/Steps.antt =====
-- The steps of the constructors of internal/app/app.go: each keeps what is held, or releases what it took.
use password_hook_service.Prelude.{
  Bool, true, false, Option, none, some, List, [], ◌∷◌, ◌++◌, append_assoc, append-nil, ◌≡◌, refl,
  arith, Text, Result, ok, err, if◌then◌else◌,
}
use password_hook_service.App.{
  Resource, AppCall, open_resource, build, Answers, Errors, or_close, Component, build_component,
  open_closer, AppError, built,
}
use password_hook_service.App.Wiring.{Build, succeed, fail_with, or_return, returning_rest}
use password_hook_service.App.Wiring.Acquired.{
  acquired, closed, opened_by, IsHeld, IsReleased, Sound, or_close-Sound,
}

-- The list of a runtime's closers is the runtime.
abbrev pub themselves : List Resource → List Resource
themselves closers = closers

module _ (a : Answers) where
  -- With nothing closed, what is held is what is open.
  pub held-IsReleased :
      (held : List Resource) (h : List AppCall) → IsHeld a held h → IsReleased a held h
  held-IsReleased held h i p = rw (i.acquired_all, i.none_closed) (omega arith)

  built-Sound :
      {A : Type 0} (closers_of : A → List Resource) (held : List Resource) (x : A)
      (failure : Option Text) (h : List AppCall)
      → (failure ≡ none → IsHeld a (held ++ closers_of x) h)
      → ((e : Text) → failure ≡ some e → IsHeld a held h)
      → Sound a closers_of held (built x failure, h)
  unfolding built
  built-Sound closers_of held x none h opened failed = opened refl
  built-Sound closers_of held x (some e) h opened failed = held-IsReleased held h (failed e refl)

  pub build-Sound :
      (c : Component) (held : List Resource) (h : List AppCall)
      → IsHeld a held h
      → Sound a (λ _. []) held (build_component a c h)
  unfolding build_component acquired closed
  build-Sound c held h i =
      let same : IsHeld a held (build c ∷ h) = record {
        acquired_all = i.acquired_all;
        none_closed = i.none_closed;
      } in
      built-Sound (λ _. []) held c (a.build_result (build c ∷ h)) (build c ∷ h)
        (λ _. rw (append-nil held) same) (λ e _. same)

  pub open-Sound :
      (r : Resource) (held : List Resource) (h : List AppCall)
      → IsHeld a held h
      → Sound a (λ _. r ∷ []) held (open_closer a r h)
  unfolding open_closer acquired closed opened_by
  open-Sound r held h i =
      let t : List AppCall = open_resource r ∷ h in
      built-Sound (λ _. r ∷ []) held r (a.open_result t) t
        (λ e. record { acquired_all = rw (e, i.acquired_all); none_closed = i.none_closed })
        (λ x e. record {
          acquired_all = rw (e, i.acquired_all) (append-nil held);
          none_closed = i.none_closed;
        })

  module _ {B : Type 0} (closers_of : B → List Resource) where
    -- The two ways in which a step is followed by the rest of a constructor whose own closers are `own`.
    pub build_or_close :
        (c : Component) (held own : List Resource) (rest : Component → Build B) (h : List AppCall)
        → IsHeld a (held ++ own) h
        → ((x : Component) (t : List AppCall)
            → IsHeld a (held ++ own) t
            → Sound a closers_of held (rest x t))
        → Sound a closers_of held (or_close a own (build_component a c) rest h)
    build_or_close c held own rest h i more =
        or_close-Sound a closers_of (λ _. []) held own (build_component a c) rest h
          (build-Sound c (held ++ own) h i) (λ x t j. more x t (rw (append-nil (held ++ own)) at j))

    pub open_or_close :
        (r : Resource) (held own : List Resource) (rest : Resource → Build B) (h : List AppCall)
        → IsHeld a (held ++ own) h
        → ((x : Resource) (t : List AppCall)
            → IsHeld a (held ++ (own ++ r ∷ [])) t
            → Sound a closers_of held (rest x t))
        → Sound a closers_of held (or_close a own (open_closer a r) rest h)
    open_or_close r held own rest h i more =
        or_close-Sound a closers_of (λ _. r ∷ []) held own (open_closer a r) rest h
          (open-Sound r (held ++ own) h i)
          (λ x t j. more x t (rw (append_assoc held own (r ∷ [])) at j))

    returning-Sound :
        {A : Type 0} (closers_of_a : A → List Resource) (held : List Resource) (r : Result Errors A)
        (rest : A → Build B) (t : List AppCall)
        → Sound a closers_of_a held (r, t)
        → ((x : A) (t : List AppCall)
            → IsHeld a (held ++ closers_of_a x) t
            → Sound a closers_of held (rest x t))
        → Sound a closers_of held (returning_rest r rest t)
    unfolding returning_rest
    returning-Sound closers_of_a held (err e) rest t s more = s
    returning-Sound closers_of_a held (ok x) rest t s more = more x t s

    pub or_return-Sound :
        {A : Type 0} (closers_of_a : A → List Resource) (held : List Resource) (m : Build A)
        (rest : A → Build B) (h : List AppCall)
        → Sound a closers_of_a held (m h)
        → ((x : A) (t : List AppCall)
            → IsHeld a (held ++ closers_of_a x) t
            → Sound a closers_of held (rest x t))
        → Sound a closers_of held (or_return m rest h)
    unfolding or_return
    or_return-Sound closers_of_a held m rest h s more =
        let (r, t) = m h in returning-Sound closers_of_a held r rest t s more

  pub if-Sound :
      {B : Type 0} (closers_of : B → List Resource) (test : Bool) (m n : Build B)
      (held : List Resource) (h : List AppCall)
      → Sound a closers_of held (m h)
      → Sound a closers_of held (n h)
      → Sound a closers_of held ((if test then m else n) h)
  if-Sound closers_of true m n held h s t = s
  if-Sound closers_of false m n held h s t = t

  pub succeed-Sound :
      {B : Type 0} (closers_of : B → List Resource) (held : List Resource) (x : B)
      (h : List AppCall)
      → IsHeld a (held ++ closers_of x) h
      → Sound a closers_of held (succeed x h)
  unfolding succeed
  succeed-Sound closers_of held x h i = i

  pub fail_with-Sound :
      {B : Type 0} (closers_of : B → List Resource) (e : AppError) (held : List Resource)
      (h : List AppCall)
      → IsHeld a held h
      → Sound a closers_of held (fail_with e h)
  unfolding fail_with
  fail_with-Sound closers_of e held h i = held-IsReleased held h i
