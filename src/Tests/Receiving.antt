-- ===== src/Tests/Receiving.antt =====
-- The receiver of internal/servicebusqueue at concrete inputs.
use password_hook_service.Prelude.{true, Option, none, some, [], ◌∷◌, ◌≡◌, refl, Text, codes, ok}
use password_hook_service.Queue.Receiver.{
  Received, Receiver, receiver_failed, Answers, complete_message,
}

abbrev delivery : Received
delivery = record {
  body = codes "{}";
  kind_property = none;
  subject = some (codes "password-sync");
}

-- A receiver that has given out the message 0.
abbrev open_receiver : Receiver
open_receiver = record { has_receiver = true; native = λ k. some delivery; next = 1 }

abbrev answering : Option Text → Answers
answering failure = record {
  receive_result = λ h. ok (delivery ∷ []);
  complete_result = λ h. failure;
  abandon_result = λ h. failure;
}

completes : (complete_message (answering none) open_receiver 0 []).0.0 ≡ none
unfolding complete_message
completes = refl

fails :
    (complete_message (answering (some (codes "lost"))) open_receiver 0 []).0.0
    ≡ some (receiver_failed (codes "lost"))
unfolding complete_message
fails = refl
