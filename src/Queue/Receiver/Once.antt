-- ===== src/Queue/Receiver/Once.antt =====
-- Sequences of calls of Receiver in internal/servicebusqueue/queue.go for one message.
use password_hook_service.Prelude.{
  ℕ, suc, ◌≤◌, ◌<◌, true, Option, none, some, List, [], ◌∷◌, ◌≡◌, refl, ◌∙◌, arith, All, Text,
}
use password_hook_service.Worker.Defs.{Message}
use password_hook_service.Queue.Receiver.{
  message_kind, wiped, Received, Receiver, ReceiverError, unknown_message, Call, Answers,
  put_native, register, complete_message, abandon_message,
}

-- The answer to a message that is not known, and no call at all.
abbrev pub IsRefused : (Option ReceiverError × Receiver) × List Call → Receiver → List Call → Type 0
IsRefused answer r h = answer ≡ ((some unknown_message, r), h)

module _ (a : Answers) (r : Receiver) (message : ℕ) (h : List Call) where
  unknown-IsRefused :
      r.native message ≡ none
      → r.has_receiver ≡ true
      → IsRefused (complete_message a r message h) r h
        × IsRefused (abandon_message a r message h) r h
  unfolding complete_message abandon_message
  unknown-IsRefused n k = rw (k, n) (refl, refl)

  complete_message-forgets :
      (complete_message a r message h).0.0 ≡ none
      → ((complete_message a r message h).0.1.native message ≡ none)
        × ((complete_message a r message h).0.1.has_receiver ≡ true)
  unfolding complete_message
  complete_message-forgets e = ground arith

module _ (a : Answers) (r : Receiver) (message : ℕ) (h : List Call) where
  -- A message that was completed is unknown from then on: to complete or to abandon it again is
  -- refused, without a call.
  complete_message-once :
      (again : List Call)
      → (complete_message a r message h).0.0 ≡ none
      → IsRefused
          (complete_message a (complete_message a r message h).0.1 message again)
          (complete_message a r message h).0.1
          again
        × IsRefused
            (abandon_message a (complete_message a r message h).0.1 message again)
            (complete_message a r message h).0.1
            again
  complete_message-once again e =
      let (gone, there) = complete_message-forgets a r message h e in
      unknown-IsRefused a (complete_message a r message h).0.1 message again gone there

  -- A message whose completion failed is still known, so that it can be settled later, but its body
  -- is zeroed.
  complete_message-keeps :
      {e : Text} {msg : Received}
      → r.native message ≡ some msg
      → (complete_message a r message h).0.0 ≡ some (ReceiverError.receiver_failed e)
      → (complete_message a r message h).0.1.native message ≡ some (wiped msg)
  unfolding complete_message
  complete_message-keeps known e = ground arith

register-next : (msgs : List Received) (r : Receiver) → r.next ≤ (register msgs r).1.next
unfolding register
register-next [] r = omega arith
register-next (m ∷ msgs) r =
    omega (arith, register-next msgs (record (put_native r.next (some m) r) { next = suc r.next }))

put_native-other :
    (k message : ℕ) (entry : Option Received) (r : Receiver)
    → message < k
    → (put_native k entry r).native message ≡ r.native message
unfolding put_native
put_native-other k message entry r less = ground arith

-- Registering changes no entry of a message that was allocated before.
pub register-older :
    (msgs : List Received) (r : Receiver) (message : ℕ)
    → message < r.next
    → (register msgs r).1.native message ≡ r.native message
unfolding register
register-older [] r message k = refl
register-older (m ∷ msgs) r message k =
    register-older msgs (record (put_native r.next (some m) r) { next = suc r.next }) message
      (omega arith)
    ∙ put_native-other r.next message (some m) r k

put_native-same :
    (k : ℕ) (entry : Option Received) (r : Receiver) → (put_native k entry r).native k ≡ entry
unfolding put_native
put_native-same k entry r = ground arith

-- The message is known to the receiver, and is a copy of what was received.
abbrev pub IsKnown : Receiver → ℕ × Message → Type 0
IsKnown r (message, copy) =
    (msg : Received) × (r.native message ≡ some msg)
    × (copy.body ≡ msg.body)
    × (copy.kind ≡ message_kind msg)

-- After ReceiveMessages has registered what was received, each message that it returns is known, and
-- is a copy of what it is registered with.
register-IsKnown :
    (msgs : List Received) (r : Receiver) → All (IsKnown (register msgs r).1) (register msgs r).0
unfolding register
register-IsKnown [] r = tt
register-IsKnown (m ∷ msgs) r =
    let next_r : Receiver = record (put_native r.next (some m) r) { next = suc r.next } in
    (
      (
        m,
        register-older msgs next_r r.next (omega arith) ∙ put_native-same r.next (some m) r,
        refl,
        refl,
      ),
      register-IsKnown msgs next_r,
    )
