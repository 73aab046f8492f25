-- ===== src/Worker/Settle/Laws.antt =====
-- What becomes of a message, on every path.
use password_hook_service.Prelude.{
  suc, ◌≡◌, Bool, true, false, ◌||◌, Option, none, some, List, [], ◌∷◌, arith, ap, ◌∙◌, Text, tally,
}
use password_hook_service.Migration.Message.{PasswordSyncMessage}
use password_hook_service.Worker.Defs.{
  Message, Call, zero_body, complete, abandon, record_dead_letter, mark_synced, mark_failed, Worker,
}
use password_hook_service.Worker.Decode.{decode_password_sync_message}
use password_hook_service.Worker.Attempts.{ProcessorResult, attempt, process_password_sync}
use password_hook_service.Worker.Attempts.Laws.{
  is_settle, is_processed, process_password_sync-settle, process_password_sync-processed,
  process_password_sync-keeps,
}
use password_hook_service.Worker.Settle.{
  settle_invalid, settle_result, settle_decoded, process_message,
}

-- The message body has been zeroed.
abbrev pub is_body_zeroed : List Call → Bool
is_body_zeroed [] = false
is_body_zeroed (zero_body ∷ h) = true
is_body_zeroed (_ ∷ h) = is_body_zeroed h

abbrev succeeds : Option Text → Bool
succeeds none = true
succeeds (some e) = false

-- The safe dead-letter queue took an entry.
abbrev pub is_dead_lettered : Worker → List Call → Bool
is_dead_lettered w [] = false
is_dead_lettered w (record_dead_letter e ∷ h) =
    succeeds (w.dead_letter_result (record_dead_letter e ∷ h)) || is_dead_lettered w h
is_dead_lettered w (_ ∷ h) = is_dead_lettered w h

-- Before the message was completed, the processor had taken the password or the dead-letter queue
-- an entry; before it was settled in either way, its body had been zeroed. An account was marked
-- synced only after the processor took the password, and marked failed only after the dead-letter
-- queue took the entry. No entry carries a password.
abbrev pub IsCareful : Worker → List Call → Type 0
IsCareful w [] = Unit
IsCareful w (complete ∷ h) =
    ((is_processed w h || is_dead_lettered w h) ≡ true) × (is_body_zeroed h ≡ true) × IsCareful w h
IsCareful w (abandon ∷ h) = (is_body_zeroed h ≡ true) × IsCareful w h
IsCareful w (mark_synced upn t ∷ h) = (is_processed w h ≡ true) × IsCareful w h
IsCareful w (mark_failed upn t ∷ h) = (is_dead_lettered w h ≡ true) × IsCareful w h
IsCareful w (record_dead_letter e ∷ h) = (e.password ≡ []) × IsCareful w h
IsCareful w (_ ∷ h) = IsCareful w h

module _ (w : Worker) where
  attempt-IsCareful :
      (m : PasswordSyncMessage) (h : List Call) → IsCareful w h → IsCareful w (attempt w m h).1
  unfolding attempt
  attempt-IsCareful m h c = ground arith

  settle_result-once :
      (m : PasswordSyncMessage) (r : ProcessorResult) (h : List Call)
      → tally is_settle (settle_result w m r h).1 ≡ suc (tally is_settle h)
  unfolding settle_result
  settle_result-once m r h = ground arith

  settle_invalid-once :
      (msg : Option Message) (h : List Call)
      → tally is_settle (settle_invalid w msg h).1 ≡ suc (tally is_settle h)
  unfolding settle_invalid
  settle_invalid-once msg h = ground arith

  settle_result-IsCareful :
      (m : PasswordSyncMessage) (r : ProcessorResult) (h : List Call)
      → (r.err ≡ none → is_processed w h ≡ true)
      → IsCareful w h
      → IsCareful w (settle_result w m r h).1
  unfolding settle_result
  settle_result-IsCareful m r h s c = ground arith

  settle_invalid-IsCareful :
      (msg : Option Message) (h : List Call)
      → IsCareful w h
      → IsCareful w (settle_invalid w msg h).1
  unfolding settle_invalid
  settle_invalid-IsCareful msg h c = ground arith

  process_password_sync-IsCareful :
      (m : PasswordSyncMessage) → IsCareful w (process_password_sync w m []).1
  process_password_sync-IsCareful m =
      process_password_sync-keeps w m (IsCareful w) (λ h c. attempt-IsCareful m h c) (λ h d c. c) []
        tt

  settle_decoded-once :
      (msg : Option Message) (m : Option PasswordSyncMessage) (h : List Call)
      → tally is_settle (settle_decoded w msg m h).1 ≡ suc (tally is_settle h)
  settle_decoded-once msg none h = unfold settle_decoded in settle_invalid-once msg h
  settle_decoded-once msg (some m) h =
      let (r, h') = process_password_sync w m h in
      unfold settle_decoded in
      (settle_result-once m r h' ∙ ap suc (process_password_sync-settle w m h))

  -- A message, whatever it holds and whatever fails, is completed or abandoned by exactly one call.
  pub process_message-once :
      (msg : Option Message) (h : List Call)
      → tally is_settle (process_message w msg h).1 ≡ suc (tally is_settle h)
  unfolding process_message
  process_message-once msg h = settle_decoded-once msg (decode_password_sync_message w msg) h

  settle_decoded-IsCareful :
      (msg : Option Message) (m : Option PasswordSyncMessage)
      → IsCareful w (settle_decoded w msg m []).1
  settle_decoded-IsCareful msg none = unfold settle_decoded in settle_invalid-IsCareful msg [] tt
  settle_decoded-IsCareful msg (some m) =
      let (r, h') = process_password_sync w m [] in
      unfold settle_decoded in
      settle_result-IsCareful m r h' (process_password_sync-processed w m [])
        (process_password_sync-IsCareful m)

  -- The calls made for one message are careful: it is completed only after the processor took the
  -- password or the dead-letter queue an entry, and settled in either way only with its body
  -- zeroed; the account is marked synced only after the processor took the password, and failed
  -- only after the dead-letter queue took an entry; no entry carries a password.
  pub process_message-IsCareful : (msg : Option Message) → IsCareful w (process_message w msg []).1
  unfolding process_message
  process_message-IsCareful msg = settle_decoded-IsCareful msg (decode_password_sync_message w msg)
