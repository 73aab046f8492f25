-- ===== src/Tests/Statuses.antt =====
-- internal/syncstatus at concrete inputs.
use mathlib.Core.List.Perm
use password_hook_service.Prelude.{
  ℕ, zero, suc, none, some, List, [], ◌∷◌, ◌≡◌, refl, arith, Text, codes, same_text, ascii, ltb,
  ◌==◌, length, normalize, trim_space,
}
use password_hook_service.SyncStatus
use password_hook_service.SyncStatus.{
  Record, Store, empty_store, zero_record, pending, synced, failed, unsynced, status_precedence,
  normalize_upn, or_zero,
}
use password_hook_service.SyncStatus.Order.{Write, write_all, view, write_all-perm}
use password_hook_service.SyncStatus.Redis.{
  Fields, Database, Layout, text_lt, live, key, set, status_text,
}
use password_hook_service.SyncStatus.Redis.Refines.{Represents, set-Represents}

abbrev ann : Text
ann = codes "ann@nycu.edu.tw"

abbrev early : Write
early = record { upn = codes " Ann@nycu.edu.tw"; status = synced; source = 5; now = 9 }

abbrev newest : Write
newest = record { upn = ann; status = pending; source = 5; now = 10 }

abbrev writes : List Write
writes = early ∷ newest ∷ []

late_pending : view (write_all ascii writes empty_store ann) ≡ some (synced, 5)
unfolding write_all SyncStatus.set SyncStatus.put SyncStatus.is_stale status_precedence
    normalize_upn normalize same_text trim_space
late_pending = refl

write_all-perm_example :
    view (write_all ascii writes empty_store ann)
    ≡ view (write_all ascii (newest ∷ early ∷ []) empty_store ann)
write_all-perm_example =
    write_all-perm ascii writes (newest ∷ early ∷ []) empty_store ann (Perm.swap newest early [])

-- A layout with the properties of the fixed-width one: an instant is as many marks.
abbrev marks : ℕ → Text
marks zero = []
marks (suc n) = b'1' ∷ marks n

length-marks : (n : ℕ) → length (marks n) ≡ n
length-marks zero = refl
length-marks (suc n) = rw (length-marks n)

marks-order : (m n : ℕ) → text_lt (marks m) (marks n) ≡ ltb m n
unfolding text_lt
marks-order m zero = ground arith
marks-order zero (suc n) = ground arith
marks-order (suc m) (suc n) = ground (arith, marks-order m n)

marks-same : (m n : ℕ) → same_text (marks m) (marks n) ≡ (m == n)
unfolding same_text
marks-same zero zero = refl
marks-same zero (suc n) = ground arith
marks-same (suc m) zero = ground arith
marks-same (suc m) (suc n) = ground (arith, marks-same m n)

abbrev tally_layout : Layout
tally_layout = record {
  limit = 1000;
  format_time = marks;
  parse_time = λ t. some (length t);
  parse-format = λ n b. rw (length-marks n);
  format-order = λ m n b c. marks-order m n;
  format-same = λ m n b c. marks-same m n;
}

abbrev stored : Fields
stored = record {
  status = status_text pending;
  updated_at = marks 4;
  source_enqueued_at = marks 3;
  expires_at = 50;
}

abbrev remembered : Record
remembered = record { status = pending; updated_at = 4; source_enqueued_at = 3 }

stored-Represents : Represents tally_layout (some stored) (some remembered)
stored-Represents = (λ e. cc e, omega arith, omega arith, refl, refl, refl)

abbrev redis : Database
redis k = some stored

abbrev memory : Store
memory k = some remembered

live-stored :
    Represents tally_layout
      (live 20 (redis (key tally_layout ascii (λ t. t) (codes "p:") ann)))
      (memory (normalize_upn ascii ann))
unfolding live
live-stored = stored-Represents

set-Represents_example :
    Represents tally_layout
      (live 20 (
        (set tally_layout ascii (λ t. t) (codes "p:") none ann synced 3 2000000 9 20 redis).1
          (key tally_layout ascii (λ t. t) (codes "p:") ann)))
      ((SyncStatus.set ascii none ann synced 3 9 memory).1 (normalize_upn ascii ann))
set-Represents_example =
    set-Represents tally_layout ascii (λ t. t) (codes "p:") redis memory ann synced 3 2000000 9 20
      (λ e. cc e) (omega arith) (omega arith) (omega arith) live-stored
