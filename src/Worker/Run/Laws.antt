-- ===== src/Worker/Run/Laws.antt =====
-- The loop of Run in internal/worker/worker.go ends when its context is done.
use password_hook_service.Prelude.{
  ℕ, zero, suc, ◌≤◌, ◌<◌, ◌+◌, true, Option, none, some, List, [], ◌∷◌, ◌≡◌, ◌≢◌, arith, length,
  Text, Result, ok, err,
}
use password_hook_service.Worker.Run.{
  RunCall, check_context, Surroundings, stopped, process_one, process_batch, after_receive, round,
  run,
}
use password_hook_service.Worker.Defs.{Message}

module _ (s : Surroundings) where
  length-process_batch :
      (msgs : List (Option Message)) (h : List RunCall)
      → length h ≤ length (process_batch s msgs h).1
  unfolding process_batch process_one
  length-process_batch [] h = omega arith
  length-process_batch (msg ∷ msgs) h =
      ground (arith, length-process_batch msgs (process_one s msg (check_context ∷ h)).1)

  length-after_receive :
      (batch : Result Text (List (Option Message))) (h : List RunCall)
      → length h ≤ length (after_receive s batch h).1
  unfolding after_receive
  length-after_receive (err e) h = omega arith
  length-after_receive (ok []) h = omega arith
  length-after_receive (ok (msg ∷ msgs)) h = length-process_batch (msg ∷ msgs) h

  length-round : (h : List RunCall) → length h < length (round s h).1
  unfolding round
  length-round h = grind (arith, length-after_receive)

  round-canceled :
      (h : List RunCall) → s.is_canceled (check_context ∷ h) ≡ true → (round s h).0 ≡ some stopped
  unfolding round
  round-canceled h e = simp (e)

  -- Run ends when its context does: if the context is done from some number of calls on, then one round more
  -- than that number, past the calls made already, is enough for the loop to return.
  pub run-returns :
      (rounds : ℕ) (h : List RunCall)
      → ((t : List RunCall) → rounds + length h < length t → s.is_canceled t ≡ true)
      → (run (suc rounds) s h).0 ≢ none
  unfolding run
  run-returns zero h canceled =
      let now = round-canceled h (canceled (check_context ∷ h) (omega arith)) in rw now (λ e. cc e)
  run-returns (suc rounds) h canceled =
      let rest =
        run-returns rounds (round s h).1
          (λ t longer. canceled t (omega (arith, length-round h, longer))) in
      ground (arith)
