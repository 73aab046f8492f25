-- ===== src/Worker/Attempts/Laws.antt =====
-- The retry loop: how often it tries, and what it leaves behind.
use password_hook_service.Prelude.{
  ℕ, suc, ◌+◌, ◌≤◌, ◌≡◌, ◌≢◌, Bool, true, false, ◌||◌, Option, none, some, List, [], ◌∷◌, arith,
  Text, length, tally,
}
use password_hook_service.Prelude.Effects.{Exec}
use password_hook_service.Migration.Message.{PasswordSyncMessage}
use password_hook_service.Worker.Defs.{
  ProcessError, Call, process, zero_plaintext, sleep, complete, abandon, Worker,
}
use password_hook_service.Worker.Attempts.{
  ProcessorResult, Attempt, done, hopeless, retryable, attempt, last_round, next_round, resume,
  process_from, process_password_sync,
}

abbrev pub is_process : Call → Bool
is_process (process c) = true
is_process _ = false

abbrev pub is_zero_plaintext : Call → Bool
is_zero_plaintext zero_plaintext = true
is_zero_plaintext _ = false

abbrev pub is_sleep : Call → Bool
is_sleep (sleep d) = true
is_sleep _ = false

-- CompleteMessage or AbandonMessage
abbrev pub is_settle : Call → Bool
is_settle complete = true
is_settle abandon = true
is_settle _ = false

abbrev process_succeeds : Option ProcessError → Bool
process_succeeds none = true
process_succeeds (some e) = false

-- The processor took the password.
abbrev pub is_processed : Worker → List Call → Bool
is_processed w [] = false
is_processed w (process c ∷ h) =
    process_succeeds (w.process_result (process c ∷ h)) || is_processed w h
is_processed w (_ ∷ h) = is_processed w h

module _ (w : Worker) (msg : PasswordSyncMessage) where
  attempt-settle : (h : List Call) → tally is_settle (attempt w msg h).1 ≡ tally is_settle h
  unfolding attempt
  attempt-settle h = ground arith

  attempt-zeroes :
      (h : List Call)
      → tally is_zero_plaintext (attempt w msg h).1 + tally is_process h
        ≡ tally is_process (attempt w msg h).1 + tally is_zero_plaintext h
  unfolding attempt
  attempt-zeroes h = ground arith

  attempt-process :
      (h : List Call) → tally is_process (attempt w msg h).1 ≤ suc (tally is_process h)
  unfolding attempt
  attempt-process h = ground arith

  attempt-processed :
      (h : List Call) → (attempt w msg h).0 ≡ done → is_processed w (attempt w msg h).1 ≡ true
  unfolding attempt
  attempt-processed h e = ground arith

  attempt-sleep : (h : List Call) → tally is_sleep (attempt w msg h).1 ≡ tally is_sleep h
  unfolding attempt
  attempt-sleep h = ground arith

  abbrev after_sleep : List Call → ℕ → List Call
  after_sleep h backoff = sleep backoff ∷ (attempt w msg h).1

  -- The loop settles nothing.
  process_from-settle :
      (bs : List ℕ) (n : ℕ) (h : List Call)
      → tally is_settle (process_from w msg bs n h).1 ≡ tally is_settle h
  unfolding process_from
  process_from-settle [] n h = ground (arith, attempt-settle h)
  process_from-settle (b ∷ bs) n h =
      ground (arith, attempt-settle h, process_from-settle bs (suc n) (after_sleep h b))

  process_from-zeroes :
      (bs : List ℕ) (n : ℕ) (h : List Call)
      → tally is_zero_plaintext (process_from w msg bs n h).1 + tally is_process h
        ≡ tally is_process (process_from w msg bs n h).1 + tally is_zero_plaintext h
  unfolding process_from
  process_from-zeroes [] n h = ground (arith, attempt-zeroes h)
  process_from-zeroes (b ∷ bs) n h =
      ground (arith, attempt-zeroes h, process_from-zeroes bs (suc n) (after_sleep h b))

  process_from-sleeps :
      (bs : List ℕ) (n : ℕ) (h : List Call)
      → (process_from w msg bs n h).0.attempts + tally is_sleep h
        ≤ n + tally is_sleep (process_from w msg bs n h).1
  unfolding process_from
  process_from-sleeps [] n h = ground (arith, attempt-sleep h)
  process_from-sleeps (b ∷ bs) n h =
      ground (arith, attempt-sleep h, process_from-sleeps bs (suc n) (after_sleep h b))

  process_from-bounds :
      (bs : List ℕ) (n : ℕ) (h : List Call)
      → ((process_from w msg bs n h).0.attempts ≤ n + length bs)
        × (tally is_process (process_from w msg bs n h).1 ≤ suc (tally is_process h + length bs))
  unfolding process_from
  process_from-bounds [] n h = ground (arith, attempt-process h)
  process_from-bounds (b ∷ bs) n h =
      ground (arith, attempt-process h, process_from-bounds bs (suc n) (after_sleep h b))

  process_from-exhausted :
      (bs : List ℕ) (n : ℕ) (h : List Call)
      → (process_from w msg bs n h).0.err ≢ none
      → (process_from w msg bs n h).0.permanent ≡ false
      → (process_from w msg bs n h).0.retry_canceled ≡ false
      → (process_from w msg bs n h).0.attempts ≡ n + length bs
  unfolding process_from
  process_from-exhausted [] n h e p c = ground arith
  process_from-exhausted (b ∷ bs) n h e p c =
      ground (arith, process_from-exhausted bs (suc n) (after_sleep h b))

  process_from-processed :
      (bs : List ℕ) (n : ℕ) (h : List Call)
      → (process_from w msg bs n h).0.err ≡ none
      → is_processed w (process_from w msg bs n h).1 ≡ true
  unfolding process_from
  process_from-processed [] n h e = ground (arith, attempt-processed h)
  process_from-processed (b ∷ bs) n h e =
      ground (arith, attempt-processed h, process_from-processed bs (suc n) (after_sleep h b))

  last_round-keeps :
      (P : List Call → Type 0) (n : ℕ) (a : Attempt) (h : List Call) → P h → P (last_round n a h).1
  unfolding last_round
  last_round-keeps P n done h p = p
  last_round-keeps P n (hopeless e) h p = p
  last_round-keeps P n (retryable e) h p = p

  resume-keeps :
      (P : List Call → Type 0) (n : ℕ) (retry : Exec Call ProcessorResult) (o : Option Text)
      (h : List Call)
      → P (retry h).1
      → P h
      → P (resume n retry o h).1
  unfolding resume
  resume-keeps P n retry none h r p = r
  resume-keeps P n retry (some e) h r p = p

  next_round-keeps :
      (P : List Call → Type 0) (backoff n : ℕ) (retry : Exec Call ProcessorResult) (a : Attempt)
      (h : List Call)
      → P (retry (sleep backoff ∷ h)).1
      → P h
      → P (sleep backoff ∷ h)
      → P (next_round w backoff n retry a h).1
  unfolding next_round
  next_round-keeps P b n retry done h r p q = p
  next_round-keeps P b n retry (hopeless e) h r p q = p
  next_round-keeps P b n retry (retryable e) h r p q =
      resume-keeps P n retry (w.sleep_result (sleep b ∷ h)) (sleep b ∷ h) r q

  -- What any predicate on histories keeps over the calls of an attempt, it keeps over the loop.
  process_from-keeps :
      (P : List Call → Type 0)
      → ((h : List Call) → P h → P (attempt w msg h).1)
      → ((h : List Call) (d : ℕ) → P h → P (sleep d ∷ h))
      → (bs : List ℕ) (n : ℕ) (h : List Call) → P h
      → P (process_from w msg bs n h).1
  unfolding process_from
  process_from-keeps P k s [] n h p =
      last_round-keeps P n (attempt w msg h).0 (attempt w msg h).1 (k h p)
  process_from-keeps P k s (b ∷ bs) n h p =
      let (a, h') = attempt w msg h in
      next_round-keeps P b n (process_from w msg bs (suc n)) a h'
        (process_from-keeps P k s bs (suc n) (sleep b ∷ h') (s h' b (k h p))) (k h p)
        (s h' b (k h p))

  -- A message is tried at most once more than there are backoffs, and the processor is called no
  -- more often than that.
  pub process_password_sync-bounds :
      (h : List Call)
      → ((process_password_sync w msg h).0.attempts ≤ suc (length w.retry_backoffs))
        × (tally is_process (process_password_sync w msg h).1
            ≤ tally is_process h + suc (length w.retry_backoffs))
  unfolding process_password_sync
  process_password_sync-bounds h =
      let (a, b) = process_from-bounds w.retry_backoffs 1 h in (omega (arith, a), omega (arith, b))

  -- A message that fails, neither for good nor because the wait was interrupted, has been tried once
  -- more than there are backoffs.
  process_password_sync-exhausts :
      (h : List Call)
      → (process_password_sync w msg h).0.err ≢ none
      → (process_password_sync w msg h).0.permanent ≡ false
      → (process_password_sync w msg h).0.retry_canceled ≡ false
      → (process_password_sync w msg h).0.attempts ≡ suc (length w.retry_backoffs)
  unfolding process_password_sync
  process_password_sync-exhausts h e p c =
      omega (arith, process_from-exhausted w.retry_backoffs 1 h e p c)

  -- Every plaintext that the processor was given has been zeroed.
  pub process_password_sync-zeroes :
      (h : List Call)
      → tally is_zero_plaintext (process_password_sync w msg h).1 + tally is_process h
        ≡ tally is_process (process_password_sync w msg h).1 + tally is_zero_plaintext h
  unfolding process_password_sync
  process_password_sync-zeroes h = process_from-zeroes w.retry_backoffs 1 h

  pub process_password_sync-settle :
      (h : List Call) → tally is_settle (process_password_sync w msg h).1 ≡ tally is_settle h
  unfolding process_password_sync
  process_password_sync-settle h = process_from-settle w.retry_backoffs 1 h

  pub process_password_sync-processed :
      (h : List Call)
      → (process_password_sync w msg h).0.err ≡ none
      → is_processed w (process_password_sync w msg h).1 ≡ true
  unfolding process_password_sync
  process_password_sync-processed h e = process_from-processed w.retry_backoffs 1 h e

  pub process_password_sync-keeps :
      (P : List Call → Type 0)
      → ((h : List Call) → P h → P (attempt w msg h).1)
      → ((h : List Call) (d : ℕ) → P h → P (sleep d ∷ h))
      → (h : List Call) → P h
      → P (process_password_sync w msg h).1
  unfolding process_password_sync
  process_password_sync-keeps P k s h p = process_from-keeps P k s w.retry_backoffs 1 h p
