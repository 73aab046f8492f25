-- ===== src/Tests/Logs.antt =====
-- The masking of log attributes, the reader of bodies and the provider of credentials at concrete inputs.
use password_hook_service.Prelude.{
  ℕ, zero, suc, ◌≤◌, true, Option, none, some, List, [], ◌∷◌, ◌≡◌, ◌≢◌, refl, arith, Text, codes,
  ok, ascii, length, tally,
}
use password_hook_service.Logger.{text, group, no_attrs, attr, HandlerCall, handle, passed_on}
use password_hook_service.Logger.Masked.{is_masked_call, passed_on-is_masked}
use password_hook_service.Body.{IoCall, read, ReadEnd, eof, Reader, read_all}
use password_hook_service.Body.Laws.{reads, IsAnswered, read_all-Answered}
use password_hook_service.SyncStatus.Credentials.{
  TokenManager, Op, subscribing, refreshing, closing, new_provider, do_ops, do_op, next_token,
  get_token, subscribe, on_next,
}
use password_hook_service.SyncStatus.Credentials.Owned.{IsOwned, is_told, provider-IsOwned}

abbrev record_of_login : HandlerCall
record_of_login =
    handle (codes "login") (
      attr (codes "user") (group (attr (codes "Pass-Word") (text (codes "p@ss")) no_attrs))
        no_attrs)

passed_on-is_masked_example : is_masked_call ascii (passed_on ascii record_of_login) ≡ true
passed_on-is_masked_example = passed_on-is_masked ascii record_of_login

-- The reader fills what room there is with one byte, and ends at the third read.
one_byte : ℕ → Text
one_byte zero = []
one_byte (suc room) = b'x' ∷ []

abbrev room_of : List IoCall → ℕ
room_of [] = 0
room_of (read room ∷ h) = room
room_of (_ ∷ h) = 0

ended_at : ℕ → Option ReadEnd
ended_at (suc (suc (suc n))) = some eof
ended_at n = none

one_byte_fits : (room : ℕ) → length (one_byte room) ≤ room
unfolding one_byte
one_byte_fits zero = omega arith
one_byte_fits (suc room) = omega arith

abbrev dripping : Reader
dripping = record {
  read_result = λ h. (one_byte (room_of h), ended_at (reads h));
  read_fits = λ room h. one_byte_fits room;
}

ended_later : (n : ℕ) → 2 ≤ n → ended_at (suc n) ≢ none
unfolding ended_at
ended_later (suc (suc n)) k = λ e. cc e
ended_later zero k = elim k [ ]
ended_later (suc zero) k = λ e. omega (arith, k)

read_all-Answered_example :
    ((read_all 3 dripping []).0 ≢ none)
    × IsAnswered dripping (read_all 3 dripping []).0 (read_all 3 dripping []).1
read_all-Answered_example = read_all-Answered dripping 2 (λ room t k. ended_later (reads t) k)

abbrev manager : TokenManager
manager = record { token_result = λ h. ok (codes "t"); stop_result = λ h. some (codes "late") }

abbrev a_life : List Op
a_life =
    subscribing 1 ∷ subscribing 1 ∷ refreshing (codes "t2") ∷ closing ∷ subscribing 2 ∷ closing ∷ []

told_once :
    (do_ops manager
      (subscribing 1 ∷ subscribing 1 ∷ refreshing (codes "t2") ∷ [])
      (new_provider, [])).1
    ≡ next_token 1 (codes "t2") ∷ get_token ∷ get_token ∷ []
unfolding do_ops do_op subscribe on_next
told_once = refl

provider-IsOwned_example :
    IsOwned
      (do_ops manager a_life (new_provider, [])).0
      (do_ops manager a_life (new_provider, [])).1
    × (tally
          (is_told 1 (codes "t2"))
          (do_op manager (refreshing (codes "t2")) (do_ops manager a_life (new_provider, []))).1
        ≤ suc (tally (is_told 1 (codes "t2")) (do_ops manager a_life (new_provider, [])).1))
provider-IsOwned_example = provider-IsOwned manager a_life 1 (codes "t2")
