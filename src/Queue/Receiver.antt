-- ===== src/Queue/Receiver.antt =====
-- Receiver of internal/servicebusqueue/queue.go. A *worker.Message is the number of its allocation,
-- and `next` the first number that was not given out. The map `native` is a function. The calls of
-- the Azure receiver are recorded, newest first.
pub mod Once
use password_hook_service.Prelude.{
  ℕ, suc, Bool, true, false, Option, none, some, List, [], ◌∷◌, if◌then◌else◌, ◌==◌, Text, Result,
  ok, err, map,
}
use password_hook_service.Prelude.Effects.{Exec, call, pure, tell, ◌>>=◌, ◌>>◌}
use password_hook_service.Worker.Defs.{Message}

-- A received message, as far as it is read: `kind_property` is the application property where it is
-- a string.
pub record Received : Type 0 where
  pub body : Text
  pub kind_property : Option Text
  pub subject : Option Text

pub record Receiver : Type 0 where
  pub has_receiver : Bool
  pub native : ℕ → Option Received
  pub next : ℕ

pub data ReceiverError : Type 0 where
  receiver_required unknown_message : ReceiverError
  receiver_failed : Text → ReceiverError

pub data Call : Type 0 where
  receive : (max_messages : ℕ) → Call
  zero_bodies : (message : ℕ) → Call
  complete abandon : Received → Call

-- What the Azure receiver returns after a given history.
pub record Answers : Type 0 where
  pub receive_result : List Call → Result Text (List Received)
  pub complete_result : List Call → Option Text
  pub abandon_result : List Call → Option Text

subject_or_empty : Option Text → Text
subject_or_empty none = []
subject_or_empty (some t) = t

kind_of : Option Text → Option Text → Text
unfolding subject_or_empty
kind_of (some kind) subject = kind
kind_of none subject = subject_or_empty subject

unfoldable pub message_kind : Received → Text
unfolding kind_of
message_kind msg = kind_of msg.kind_property msg.subject

-- r.native[message] = msg, and delete(r.native, message)
unfoldable pub put_native : ℕ → Option Received → Receiver → Receiver
put_native message entry r = record r { native = λ k. if k == message then entry else r.native k }

-- The loop of ReceiveMessages: each message is copied, and its copy is registered.
unfoldable pub register : List Received → Receiver → List (ℕ × Message) × Receiver
unfolding put_native message_kind
register [] r = ([], r)
register (msg ∷ msgs) r =
    let (out, r') = register msgs (record (put_native r.next (some msg) r) { next = suc r.next }) in
    ((r.next, record { body = msg.body; kind = message_kind msg }) ∷ out, r')

received :
    Receiver → Result Text (List Received) → Result ReceiverError (List (ℕ × Message)) × Receiver
unfolding register
received r (err e) = (err (receiver_failed e), r)
received r (ok msgs) = let (out, r') = register msgs r in (ok out, r')

unfoldable pub receive_messages :
    Answers → Receiver → ℕ → Exec Call (Result ReceiverError (List (ℕ × Message)) × Receiver)
unfolding received
receive_messages a r max_messages =
    if r.has_receiver
    then (do msgs ← call (receive max_messages) a.receive_result; pure (received r msgs))
    else pure (err receiver_required, r)

-- zeroReceivedBodies at the received message, which the map shares.
abbrev pub wiped : Received → Received
wiped msg = record msg { body = map (λ b. 0) msg.body }

settled : Receiver → ℕ → Received → Option Text → Option ReceiverError × Receiver
unfolding put_native
settled r message msg (some e) = (some (receiver_failed e), put_native message (some (wiped msg)) r)
settled r message msg none = (none, put_native message none r)

-- CompleteMessage and AbandonMessage from their look at the map on.
settle_native :
    (Received → Call)
    → (List Call → Option Text)
    → Receiver
    → ℕ
    → Option Received
    → Exec Call (Option ReceiverError × Receiver)
unfolding settled
settle_native op result r message none = pure (some unknown_message, r)
settle_native op result r message (some msg) = do
  _ ← tell (zero_bodies message)
  failure ← call (op (wiped msg)) result
  pure (settled r message msg failure)

unfoldable pub complete_message :
    Answers → Receiver → ℕ → Exec Call (Option ReceiverError × Receiver)
unfolding settle_native
complete_message a r message =
    if r.has_receiver
    then settle_native complete a.complete_result r message (r.native message)
    else pure (some receiver_required, r)

unfoldable pub abandon_message :
    Answers → Receiver → ℕ → Exec Call (Option ReceiverError × Receiver)
unfolding settle_native
abandon_message a r message =
    if r.has_receiver
    then settle_native abandon a.abandon_result r message (r.native message)
    else pure (some receiver_required, r)
