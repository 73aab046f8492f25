-- ===== src/Tests/Deduped.antt =====
-- A bootstrap that is skipped while its message is in the queue, and one whose message has expired.
use password_hook_service.Prelude.{
  false, none, [], ◌≡◌, ◌≢◌, refl, Text, codes, ascii, same_text, trim_space, normalize, arith,
}
use password_hook_service.SyncStatus.{zero_record, mark_pending, set, is_stale, put, get}
use password_hook_service.Migration.Service.{new_service, skip_login_bootstrap}
use password_hook_service.Dedupe.{
  System, Entry, expired, Reach, start, later, passes, enqueues, marks_pending, gives_up, in_queue,
  service_over,
}
use password_hook_service.Dedupe.Skips.{IsAwaited, Reach-IsAwaited}
use password_hook_service.Dedupe.Outlived.{only, skip_login_bootstrap_unbacked}
use password_hook_service.Tests.Accounts.{helpful}

abbrev account : Text
account = codes "ann@nycu.edu.tw"

abbrev domain : Text
domain = codes "nycu.edu.tw"

-- The message of time 2 is taken at once and marked at 5.
abbrev marked_at_5 : (s : System) × Reach ascii 300 10 s
marked_at_5 = (
  _,
  later
      (later (later (later start (passes 2 (omega arith))) (enqueues 0 account 2 refl))
        (passes 5 (omega arith)))
      (marks_pending 0 (record { upn = account; source = 2; sent = 2; place = in_queue }) refl refl
        (omega arith)),
)

queued_not_expired : in_queue ≢ expired
queued_not_expired h = cc h

-- The message is given up at once, and MarkFailed fails.
abbrev unmarked : (s : System) × Reach ascii 300 10 s
unmarked = (
  _,
  later marked_at_5.1 (
      gives_up 0 (record { upn = account; source = 2; sent = 2; place = in_queue }) false refl
        queued_not_expired),
)

waits :
    (skip_login_bootstrap
      (service_over ascii 300 domain (helpful zero_record) unmarked.0)
      account
      []).0
    ≢ none
unfolding skip_login_bootstrap service_over new_service get mark_pending set is_stale put normalize
    trim_space same_text
waits e = cc e

Reach-IsAwaited_example : IsAwaited ascii 300 10 unmarked.0 account
Reach-IsAwaited_example =
    Reach-IsAwaited unmarked.0 domain (helpful zero_record) account [] unmarked.1 (omega arith)
      waits

skip_login_bootstrap_unbacked_example :
    (s : System) × Reach ascii 300 10 s
    × (e : Entry) × (s.entry ≡ only e)
    × (e.place ≡ expired)
    × ((skip_login_bootstrap (service_over ascii 300 domain (helpful zero_record) s) account []).0
        ≢ none)
skip_login_bootstrap_unbacked_example =
    skip_login_bootstrap_unbacked ascii 300 10 5 account 2 domain (helpful zero_record) []
      (omega arith) (omega arith) (omega arith)
