-- ===== src/App/Wiring/Acquired.antt =====
-- What the wiring of internal/app/app.go holds: the resources that were opened, and those that were closed.
use password_hook_service.Prelude.{
  ◌+◌, Bool, Option, none, some, List, [], ◌∷◌, ◌++◌, map, append_assoc, append-nil, tally, ◌≡◌,
  refl, sym, ◌∙◌, arith, Text, Result, ok, err,
}
use password_hook_service.Prelude.Effects.{Exec}
use password_hook_service.App.{
  Resource, AppCall, open_resource, start, close, Answers, Errors, close_app_resources,
  close_after_wiring_error, closing_rest, or_close,
}

unfoldable pub opened_by : Resource → Option Text → List Resource
opened_by r none = r ∷ []
opened_by r (some e) = []

-- What was opened or started, the oldest first.
unfoldable pub acquired : Answers → List AppCall → List Resource
unfolding opened_by
acquired a [] = []
acquired a (open_resource r ∷ h) = acquired a h ++ opened_by r (a.open_result (open_resource r ∷ h))
acquired a (start r ∷ h) = acquired a h ++ r ∷ []
acquired a (_ ∷ h) = acquired a h

-- What was closed, the oldest first.
unfoldable pub closed : List AppCall → List Resource
closed [] = []
closed (close r ∷ h) = closed h ++ r ∷ []
closed (_ ∷ h) = closed h

module _ {A : Type 0} where
  pub tally-append : (p : A → Bool) (xs ys : List A) → tally p (xs ++ ys) ≡ tally p xs + tally p ys
  tally-append p [] ys = omega arith
  tally-append p (x ∷ xs) ys = ground (arith, tally-append p xs ys)

-- `held` is what was acquired before and is not this computation's to close. A computation that succeeds has
-- closed nothing, and returns what it acquired; one that fails has closed what it acquired, each once.
pub record IsHeld (a : Answers) (held : List Resource) (h : List AppCall) : Type 0 where
  pub acquired_all : acquired a h ≡ held
  pub none_closed : closed h ≡ []

abbrev pub IsReleased : Answers → List Resource → List AppCall → Type 0
IsReleased a held h =
    (p : Resource → Bool) → tally p (acquired a h) ≡ tally p held + tally p (closed h)

abbrev pub Sound :
    {A : Type 0}
    → Answers
    → (A → List Resource)
    → List Resource
    → Result Errors A × List AppCall
    → Type 0
Sound a closers held (err e, h) = IsReleased a held h
Sound a closers held (ok x, h) = IsHeld a (held ++ closers x) h

module _ (a : Answers) where
  pub close-acquired :
      (closers : List Resource) (h : List AppCall)
      → acquired a (close_app_resources a (map (λ r. some r) closers) h).1 ≡ acquired a h
  unfolding close_app_resources acquired
  close-acquired [] h = refl
  close-acquired (r ∷ closers) h = close-acquired closers (close r ∷ h)

  -- Closing closes each closer once, in its order.
  pub closed-close_app_resources :
      (closers : List Resource) (h : List AppCall)
      → closed (close_app_resources a (map (λ r. some r) closers) h).1 ≡ closed h ++ closers
  unfolding close_app_resources closed
  closed-close_app_resources [] h = sym (append-nil (closed h))
  closed-close_app_resources (r ∷ closers) h =
      closed-close_app_resources closers (close r ∷ h) ∙ append_assoc (closed h) (r ∷ []) closers

  module _ {B : Type 0} (closers_of : B → List Resource) where
    pub close_after-Sound :
        (held own : List Resource) (e : Errors) (h : List AppCall)
        → IsReleased a (held ++ own) h
        → Sound a closers_of held (close_after_wiring_error {A = B} a e own h)
    unfolding close_after_wiring_error
    close_after-Sound held own e h released p =
        let left = close-acquired own h in
        let shut = closed-close_app_resources own h in
        let all = released p in
        let split = tally-append p held own in
        let joined = tally-append p (closed h) own in
        rw (left, shut) (omega (arith, all, split, joined))

  module _ {A B : Type 0} (closers_of : B → List Resource) where
    after-Sound :
        (closers_of_a : A → List Resource) (held own : List Resource) (r : Result Errors A)
        (rest : A → Exec AppCall (Result Errors B)) (t : List AppCall)
        → Sound a closers_of_a (held ++ own) (r, t)
        → ((x : A) (t : List AppCall)
            → IsHeld a ((held ++ own) ++ closers_of_a x) t
            → Sound a closers_of held (rest x t))
        → Sound a closers_of held (closing_rest a own r rest t)
    unfolding closing_rest
    after-Sound closers_of_a held own (err e) rest t s more =
        close_after-Sound closers_of held own e t s
    after-Sound closers_of_a held own (ok x) rest t s more = more x t s

    pub or_close-Sound :
        (closers_of_a : A → List Resource) (held own : List Resource)
        (m : Exec AppCall (Result Errors A)) (rest : A → Exec AppCall (Result Errors B))
        (h : List AppCall)
        → Sound a closers_of_a (held ++ own) (m h)
        → ((x : A) (t : List AppCall)
            → IsHeld a ((held ++ own) ++ closers_of_a x) t
            → Sound a closers_of held (rest x t))
        → Sound a closers_of held (or_close a own m rest h)
    unfolding or_close
    or_close-Sound closers_of_a held own m rest h s more =
        let (r, t) = m h in after-Sound closers_of_a held own r rest t s more
