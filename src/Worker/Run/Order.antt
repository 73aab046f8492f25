-- ===== src/Worker/Run/Order.antt =====
-- In which order Run of internal/worker/worker.go handles what it received.
use password_hook_service.Prelude.{
  ℕ, zero, suc, Bool, true, false, Option, none, some, List, [], ◌∷◌, ◌++◌, append_assoc,
  append-nil, ◌≡◌, refl, ap, sym, ◌∙◌, Text, Result, ok, err,
}
use password_hook_service.Prelude.Effects.{Exec}
use password_hook_service.Worker.Defs.{Message}
use password_hook_service.Worker.Run.{
  RunCall, check_context, receive, processed, Surroundings, RunEnd, process_one, process_batch,
  after_receive, round, run, unless_canceled, unless_ended,
}

-- What was handed to processMessage, the oldest first.
abbrev pub handled : List RunCall → List (Option Message)
handled [] = []
handled (processed msg calls ∷ h) = handled h ++ msg ∷ []
handled (_ ∷ h) = handled h

abbrev messages_of : Result Text (List (Option Message)) → List (Option Message)
messages_of (err e) = []
messages_of (ok msgs) = msgs

-- What the receiver handed over, the oldest first.
abbrev pub delivered : Surroundings → List RunCall → List (Option Message)
delivered s [] = []
delivered s (receive ∷ h) = delivered s h ++ messages_of (s.receive_result (receive ∷ h))
delivered s (_ ∷ h) = delivered s h

-- Everything delivered was handled, in its order, but for a rest; there is no rest while Run goes on.
pub record IsInOrder (s : Surroundings) (ended : Option RunEnd) (h : List RunCall) : Type 0 where
  pub rest : List (Option Message)
  pub split : delivered s h ≡ handled h ++ rest
  pub none_left : ended ≡ none → rest ≡ []

abbrev InOrder : Surroundings → Option RunEnd × List RunCall → Type 0
InOrder s (ended, h) = IsInOrder s ended h

unless_canceled-IsInOrder :
    (s : Surroundings) (canceled : Bool) (next : Exec RunCall (Option RunEnd))
    (msgs : List (Option Message)) (h : List RunCall)
    → delivered s h ≡ handled h ++ msgs
    → InOrder s (next h)
    → InOrder s (unless_canceled canceled next h)
unfolding unless_canceled
unless_canceled-IsInOrder s true next msgs h e o = record {
  rest = msgs;
  split = e;
  none_left = λ r. cc r;
}
unless_canceled-IsInOrder s false next msgs h e o = o

unless_ended-IsInOrder :
    (s : Surroundings) (ended : Option RunEnd) (next : Exec RunCall (Option RunEnd))
    (h : List RunCall)
    → IsInOrder s ended h
    → (delivered s h ≡ handled h → InOrder s (next h))
    → InOrder s (unless_ended ended next h)
unfolding unless_ended
unless_ended-IsInOrder s (some e) next h o more = o
unless_ended-IsInOrder s none next h o more =
    more (o.split ∙ ap (λ rest. handled h ++ rest) (o.none_left refl) ∙ append-nil (handled h))

left_over :
    (s : Surroundings) (ended : Option RunEnd) (next : Exec RunCall (Option RunEnd))
    (msgs : List (Option Message)) (h : List RunCall)
    → delivered s h ≡ handled h ++ msgs
    → InOrder s (next h)
    → InOrder s (unless_ended ended next h)
unfolding unless_ended
left_over s none next msgs h e o = o
left_over s (some x) next msgs h e o = record { rest = msgs; split = e; none_left = λ r. cc r }

one_handled :
    (s : Surroundings) (msg : Option Message) (msgs : List (Option Message)) (h : List RunCall)
    → delivered s h ≡ handled h ++ msg ∷ msgs
    → delivered s (process_one s msg h).1 ≡ handled (process_one s msg h).1 ++ msgs
unfolding process_one
one_handled s msg msgs h e = e ∙ sym (append_assoc (handled h) (msg ∷ []) msgs)

module _ (s : Surroundings) where
  -- In the batch, `msgs` are left.
  batch-IsInOrder :
      (msgs : List (Option Message)) (h : List RunCall)
      → delivered s h ≡ handled h ++ msgs
      → InOrder s (process_batch s msgs h)
  unfolding process_batch
  batch-IsInOrder [] h e = record { rest = []; split = e; none_left = λ r. refl }
  batch-IsInOrder (msg ∷ msgs) h e =
      let checked : List RunCall = check_context ∷ h in
      let (ended, t) = process_one s msg checked in
      let next = one_handled s msg msgs checked e in
      unless_canceled-IsInOrder s (s.is_canceled checked)
        (λ g. let (x, g') = process_one s msg g in unless_ended x (process_batch s msgs) g')
        (msg ∷ msgs) checked e
        (left_over s ended (process_batch s msgs) msgs t next (batch-IsInOrder msgs t next))

  after_receive-IsInOrder :
      (batch : Result Text (List (Option Message))) (h : List RunCall)
      → delivered s h ≡ handled h ++ messages_of batch
      → InOrder s (after_receive s batch h)
  unfolding after_receive
  after_receive-IsInOrder (err x) h e = record { rest = []; split = e; none_left = λ r. refl }
  after_receive-IsInOrder (ok []) h e = record { rest = []; split = e; none_left = λ r. refl }
  after_receive-IsInOrder (ok (msg ∷ msgs)) h e = batch-IsInOrder (msg ∷ msgs) h e

  round-IsInOrder : (h : List RunCall) → delivered s h ≡ handled h → InOrder s (round s h)
  unfolding round
  round-IsInOrder h e =
      let checked : List RunCall = check_context ∷ h in
      let batch = s.receive_result (receive ∷ checked) in
      unless_canceled-IsInOrder s (s.is_canceled checked)
        (λ g. after_receive s (s.receive_result (receive ∷ g)) (receive ∷ g)) [] checked
        (e ∙ sym (append-nil (handled h)))
        (after_receive-IsInOrder batch (receive ∷ checked) (ap (λ q. q ++ messages_of batch) e))

  run-IsInOrder_from :
      (rounds : ℕ) (h : List RunCall) → delivered s h ≡ handled h → InOrder s (run rounds s h)
  unfolding run
  run-IsInOrder_from zero h e = record {
    rest = [];
    split = e ∙ sym (append-nil (handled h));
    none_left = λ r. refl;
  }
  run-IsInOrder_from (suc rounds) h e =
      let (ended, t) = round s h in
      unless_ended-IsInOrder s ended (run rounds s) t (round-IsInOrder h e)
        (run-IsInOrder_from rounds t)

  -- Run handles what it receives in the order of the receiver, each message once and none left out: what
  -- was delivered is what was handled and a rest, and there is no rest while the loop goes on.
  pub run-IsInOrder : (rounds : ℕ) → IsInOrder s (run rounds s []).0 (run rounds s []).1
  run-IsInOrder rounds = run-IsInOrder_from rounds [] refl
