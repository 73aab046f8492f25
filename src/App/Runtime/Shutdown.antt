-- ===== src/App/Runtime/Shutdown.antt =====
-- runServerAndWorker of internal/app/app.go stops both of its routines, and returns the first error.
use password_hook_service.Prelude.{
  ℕ, suc, ◌+◌, ◌≤◌, ◌<◌, ltb, Bool, true, false, Option, none, some, List, [], ◌∷◌, ◌++◌,
  append_assoc, append-nil, length, length-append, ◌≡◌, refl, ap, sym, ◌∙◌, arith, Text,
}
use password_hook_service.App.Runtime.{
  Runtime, keep_first, Step, server_returns, worker_returns, collect, Reach, start, later,
}

abbrev count : Bool → ℕ
count true = 1
count false = 0

-- The first error of those returned.
unfoldable pub first_error : List (Option Text) → Option Text
first_error [] = none
first_error (none ∷ es) = first_error es
first_error (some e ∷ es) = some e

first_error-append :
    (es : List (Option Text)) (e : Option Text)
    → first_error (es ++ e ∷ []) ≡ keep_first (first_error es) e
unfolding first_error keep_first
first_error-append [] none = refl
first_error-append [] (some e) = refl
first_error-append (none ∷ es) e = first_error-append es e
first_error-append (some x ∷ es) e = refl

-- `taken` was read from the channel.
record Inv (n : ℕ) (returned : List (Option Text)) (s : Runtime) : Type 0 where
  taken : List (Option Text)
  split : returned ≡ taken ++ s.channel
  taken_all : length taken ≡ s.completed
  first : s.runtime_err ≡ first_error taken
  balanced : length returned + count s.server_running + count s.worker_running ≡ 2
  steps : n ≡ length returned + s.completed
  canceled_once : s.canceled ≡ ltb 0 s.completed

Step-Inv :
    {n : ℕ} {returned more : List (Option Text)} {s t : Runtime}
    → Inv n returned s
    → Step s more t
    → Inv (suc n) (returned ++ more) t
Step-Inv {n} {returned} {s} i (server_returns e running) = record {
  taken = i.taken;
  split = ap (λ q. q ++ e ∷ []) i.split ∙ append_assoc i.taken s.channel (e ∷ []);
  taken_all = i.taken_all;
  first = i.first;
  balanced = ground (arith, running, i.balanced, length-append returned (e ∷ []));
  steps = omega (arith, i.steps, length-append returned (e ∷ []));
  canceled_once = i.canceled_once;
}
Step-Inv {n} {returned} {s} i (worker_returns e running) = record {
  taken = i.taken;
  split = ap (λ q. q ++ e ∷ []) i.split ∙ append_assoc i.taken s.channel (e ∷ []);
  taken_all = i.taken_all;
  first = i.first;
  balanced = ground (arith, running, i.balanced, length-append returned (e ∷ []));
  steps = omega (arith, i.steps, length-append returned (e ∷ []));
  canceled_once = i.canceled_once;
}
Step-Inv {n} {returned} {s} i (collect {e} {rest} full more_to_come) = record {
  taken = i.taken ++ e ∷ [];
  split =
      append-nil returned
      ∙ i.split
      ∙ ap (λ q. i.taken ++ q) full
      ∙ sym (append_assoc i.taken (e ∷ []) rest);
  taken_all = omega (arith, i.taken_all, length-append i.taken (e ∷ []));
  first = ap (λ x. keep_first x e) i.first ∙ sym (first_error-append i.taken e);
  balanced = rw (append-nil returned) i.balanced;
  steps = rw (append-nil returned) (omega (arith, i.steps));
  canceled_once = ground arith;
}

Reach-Inv :
    {n : ℕ} {returned : List (Option Text)} {s : Runtime} → Reach n returned s → Inv n returned s
Reach-Inv start = record {
  taken = [];
  split = refl;
  taken_all = refl;
  first = unfold first_error in refl;
  balanced = refl;
  steps = refl;
  canceled_once = refl;
}
Reach-Inv (later r step) = Step-Inv (Reach-Inv r) step

-- How many results were read, and are still to be read.
Reach-counted :
    {n : ℕ} {returned : List (Option Text)} {s : Runtime}
    → (i : Inv n returned s) → length returned ≡ s.completed + length s.channel
Reach-counted {s} i =
    ap length i.split ∙ length-append i.taken s.channel ∙ ap (λ k. k + length s.channel) i.taken_all

abbrev pub CanStep : Runtime → Type 0
CanStep s = (more : List (Option Text)) × (t : Runtime) × Step s more t

running-CanStep :
    (s : Runtime) (server worker : Bool)
    → s.server_running ≡ server
    → s.worker_running ≡ worker
    → 0 < count server + count worker
    → CanStep s
running-CanStep s true worker e f some_run = (_, _, server_returns none e)
running-CanStep s false true e f some_run = (_, _, worker_returns none f)
running-CanStep s false false e f some_run = elim some_run [ ]

waiting-CanStep :
    {n : ℕ} {returned : List (Option Text)} (s : Runtime) (channel : List (Option Text))
    → Inv n returned s
    → s.channel ≡ channel
    → s.completed < 2
    → CanStep s
waiting-CanStep s (e ∷ rest) i full more_to_come = (_, _, collect full more_to_come)
waiting-CanStep s [] i empty more_to_come =
    running-CanStep s s.server_running s.worker_running refl refl
      (omega (arith, Reach-counted i, ap length empty, i.balanced, more_to_come))

count-none : (running : Bool) → count running ≡ 0 → running ≡ false
count-none true e = ground arith
count-none false e = refl

length-none : (xs : List (Option Text)) → length xs ≡ 0 → xs ≡ []
length-none [] e = refl
length-none (x ∷ xs) e = ground arith

-- Every run of the two routines ends: no more than four steps are made, whatever their order.
Reach-le_four : {n : ℕ} {returned : List (Option Text)} {s : Runtime} → Reach n returned s → n ≤ 4
Reach-le_four r = let i = Reach-Inv r in omega (arith, Reach-counted i, i.balanced, i.steps)

-- It never hangs: until both results are read, a step can be made, and once one of them is read, the
-- context of the routine that still runs is canceled.
Reach-progress :
    {n : ℕ} {returned : List (Option Text)} {s : Runtime}
    → Reach n returned s
    → s.completed < 2
    → CanStep s × (s.canceled ≡ ltb 0 s.completed)
Reach-progress {s} r more_to_come =
    let i = Reach-Inv r in (waiting-CanStep s s.channel i refl more_to_come, i.canceled_once)

-- When both results are read, both routines have returned, the context is canceled, and the error is
-- the first that was returned.
pub Reach-first_error :
    {n : ℕ} {returned : List (Option Text)} {s : Runtime}
    → Reach n returned s
    → s.completed ≡ 2
    → (s.server_running ≡ false)
      × (s.worker_running ≡ false)
      × (s.canceled ≡ true)
      × (s.runtime_err ≡ first_error returned)
Reach-first_error {s} r finished =
    let i = Reach-Inv r in
    let counted = Reach-counted i in
    let empty = length-none s.channel (omega (arith, counted, i.balanced, finished)) in
    (
      count-none s.server_running (omega (arith, counted, i.balanced, finished)),
      count-none s.worker_running (omega (arith, counted, i.balanced, finished)),
      i.canceled_once ∙ rw finished refl,
      i.first ∙ ap first_error (sym (i.split ∙ ap (λ q. i.taken ++ q) empty ∙ append-nil i.taken)),
    )
