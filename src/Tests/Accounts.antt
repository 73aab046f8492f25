-- ===== src/Tests/Accounts.antt =====
-- internal/migration at concrete inputs.
use password_hook_service.Prelude.{
  true, none, [], ◌∷◌, ◌≡◌, refl, Text, codes, ok, ascii, trim_space, normalize,
}
use password_hook_service.SyncStatus.{Record, zero_record, pending}
use password_hook_service.Migration.Event.{
  EventType, login_bootstrap, password_change, valid_event_type,
}
use password_hook_service.Migration.Identity.{student_id, external_email, classify_cn, build_upn}
use password_hook_service.Migration.Message.{Envelope}
use password_hook_service.Migration.Service.{Request, Collaborators, Service, submit}
use password_hook_service.Migration.Service.Delivery.{IsSubmitted, submit-IsDelivered}

abbrev pub sealed_password : Envelope
sealed_password = record {
  ciphertext = codes "c2VjcmV0";
  nonce = codes "bm9uY2U=";
  key_id = codes "k1";
  algorithm = codes "AES-256-GCM";
}

-- Collaborators that all succeed, with a clock that stands at 7.
abbrev pub helpful : Record → Collaborators
helpful rec = record {
  has_queue = true;
  has_encrypter = true;
  has_store = true;
  get_status_result = λ h. ok rec;
  clock_result = λ h. 7;
  encrypt_result = λ h. ok sealed_password;
  enqueue_result = λ h. none;
  mark_pending_result = λ h. none;
  format_time = λ t. t ∷ [];
}

abbrev pub portal : Record → Service
portal rec = record {
  primary_domain = codes "NYCU.edu.tw ";
  collaborators = helpful rec;
  pending_ttl = 5;
}

abbrev pub fresh : Service
fresh = portal zero_record

-- The message of the account has been pending since 4, and the TTL is 5.
abbrev waiting : Record
waiting = record { status = pending; updated_at = 4; source_enqueued_at = 4 }

abbrev pub asking : Text → EventType → Request
asking cn event = record {
  cn = cn;
  event_type = event;
  password = codes "p@ss";
  display_name = codes "Ann";
  mail = codes "a@b.c";
}

abbrev student : Text
student = codes " 0812345"

abbrev student_upn : Text
student_upn = codes "0812345@nycu.edu.tw"

classify_student : classify_cn ascii student ≡ student_id
unfolding classify_cn trim_space
classify_student = refl

upn_student : build_upn ascii student (codes "NYCU.edu.tw ") ≡ ok student_upn
unfolding build_upn classify_cn trim_space normalize
upn_student = refl

upn_bare : build_upn ascii (codes "0812345") (codes "NYCU.edu.tw ") ≡ ok student_upn
unfolding build_upn classify_cn trim_space normalize
upn_bare = refl

upn_email : classify_cn ascii (codes "ann@nycu.edu.tw") ≡ external_email
unfolding classify_cn trim_space
upn_email = refl

submit_enqueues : (submit ascii fresh [] (asking student password_change) []).0.0.enqueued ≡ true
unfolding submit build_upn classify_cn trim_space normalize valid_event_type
submit_enqueues = refl

submit_skips :
    (submit ascii (portal waiting) [] (asking student login_bootstrap) []).0.0.skipped ≡ true
unfolding submit build_upn classify_cn trim_space normalize valid_event_type
submit_skips = refl

submit-IsDelivered_example : IsSubmitted ascii fresh [] (asking student password_change) []
submit-IsDelivered_example =
    submit-IsDelivered ascii fresh [] (asking student password_change) [] submit_enqueues

is_change_valid : valid_event_type password_change ≡ true
unfolding valid_event_type
is_change_valid = refl
