-- ===== src/Tests/Wires.antt =====
-- A codec, a text form of messages, a service and a worker that are wired together.
use password_hook_service.Prelude.{
  ℕ, zero, suc, false, Option, none, some, List, [], ◌∷◌, ◌++◌, ◌≡◌, refl, ap, sym, arith, Text,
  codes, is_blank, is_space, is_blank-append, length, take, drop, Result, ok, err,
}
use password_hook_service.SyncStatus.{zero_record}
use password_hook_service.Migration.Event.{
  EventType, login_bootstrap, password_change, password_recovery, other,
}
use password_hook_service.Migration.Message.{Envelope, PasswordSyncMessage}
use password_hook_service.Migration.Service
use password_hook_service.Migration.Service.{Collaborators, Service}
use password_hook_service.Crypto.Codec
use password_hook_service.Crypto.Codec.{Aead, Base64, Codec, CodecError}
use password_hook_service.Worker.Defs
use password_hook_service.Worker.Defs.{Worker}
use password_hook_service.Journey.{IsWired}
use password_hook_service.Tests.Accounts.{helpful}

abbrev pub without_head : Text → Option Text
without_head [] = none
without_head (b ∷ t) = some t

pub prefixed_not_blank : (s : Text) → is_blank (b'=' ∷ s) ≡ false
unfolding is_space
prefixed_not_blank s = is_blank-append b'=' s refl []

-- A cipher that marks its text, and an encoding that marks it again.
abbrev pub marking : Aead
marking = record {
  seal = λ drawn plaintext aad. b'#' ∷ plaintext;
  unseal = λ drawn ciphertext aad. without_head ciphertext;
  unseal-seal = λ drawn plaintext aad. refl;
  seal_not_empty = λ drawn plaintext aad. refl;
}

abbrev pub prefixing : Base64
prefixing = record {
  encode = λ s. b'=' ∷ s;
  decode = without_head;
  decode-encode = λ s. refl;
  encode_not_blank = λ s e. prefixed_not_blank s;
}

abbrev pub shared_codec : Codec
shared_codec = record { aead = marking; key_id = codes "k1" }

-- A text is preceded by its length.
abbrev pub put : Text → Text → Text
put t rest = length t ∷ (t ++ rest)

get : Text → Text × Text
get [] = ([], [])
get (n ∷ xs) = (take n xs, drop n xs)

take-put : (t rest : Text) → take (length t) (t ++ rest) ≡ t
take-put [] rest = refl
take-put (c ∷ t) rest = ap (λ q. c ∷ q) (take-put t rest)

drop-put : (t rest : Text) → drop (length t) (t ++ rest) ≡ rest
drop-put [] rest = refl
drop-put (c ∷ t) rest = drop-put t rest

abbrev pub event_text : EventType → Text
event_text login_bootstrap = 0 ∷ []
event_text password_change = 1 ∷ []
event_text password_recovery = 2 ∷ []
event_text (other t) = 3 ∷ t

abbrev event_of : Text → EventType
event_of [] = other []
event_of (zero ∷ t) = login_bootstrap
event_of (suc zero ∷ t) = password_change
event_of (suc (suc zero) ∷ t) = password_recovery
event_of (suc (suc (suc n)) ∷ t) = other t

event_of-event_text : (e : EventType) → event_of (event_text e) ≡ e
event_of-event_text login_bootstrap = refl
event_of-event_text password_change = refl
event_of-event_text password_recovery = refl
event_of-event_text (other t) = refl

abbrev first_number : Text → ℕ
first_number [] = 0
first_number (n ∷ t) = n

-- The password is left out.
abbrev pub marshal : PasswordSyncMessage → Text
marshal m = put m.cn (
    put m.upn (
      put (event_text m.event_type) (
        put m.trace_id (
          put m.envelope.ciphertext (
            put m.envelope.nonce (
              put m.envelope.key_id (
                put m.envelope.algorithm
                  (put m.display_name (put m.mail (m.enqueued_at ∷ []))))))))))

unfoldable pub unmarshal : Text → Option PasswordSyncMessage
unfolding get
unmarshal t0 =
    let (cn, t1) = get t0 in
    let (upn, t2) = get t1 in
    let (event, t3) = get t2 in
    let (trace_id, t4) = get t3 in
    let (ciphertext, t5) = get t4 in
    let (drawn, t6) = get t5 in
    let (key_id, t7) = get t6 in
    let (algorithm, t8) = get t7 in
    let (display_name, t9) = get t8 in
    let (mail, t10) = get t9 in
    some (record {
      cn = cn;
      upn = upn;
      event_type = event_of event;
      trace_id = trace_id;
      password = [];
      envelope = record {
        ciphertext = ciphertext;
        nonce = drawn;
        key_id = key_id;
        algorithm = algorithm;
      };
      display_name = display_name;
      mail = mail;
      enqueued_at = first_number t10;
    })

unmarshal-marshal : (m : PasswordSyncMessage) → m.password ≡ [] → unmarshal (marshal m) ≡ some m
unfolding unmarshal
unmarshal-marshal m e =
    simp (event_of-event_text, take-put, drop-put)
      (ap (λ p. some (record m { password = p })) (sym e))

-- The errors of the codec are one text here.
text_result : {A : Type 0} → Result CodecError A → Result Text A
text_result (err e) = err (codes "codec")
text_result (ok x) = ok x

text_result-ok : {A : Type 0} (r : Result CodecError A) {x : A} → text_result r ≡ ok x → r ≡ ok x
unfolding text_result
text_result-ok (err e) q = cc q
text_result-ok (ok x) q = cc q

unfoldable pub encrypted : List Service.Call → Result Text Envelope
unfolding text_result
encrypted (Service.encrypt password aad ∷ h) =
    text_result (Codec.encrypt prefixing shared_codec none (some (codes "n")) password aad)
encrypted h = err []

unfoldable pub decrypted : List Defs.Call → Result Text Text
unfolding text_result
decrypted (Defs.decrypt env aad ∷ h) =
    text_result (Codec.decrypt prefixing shared_codec none env aad)
decrypted h = err []

abbrev pub wired_service : Service
wired_service = record {
  primary_domain = codes "NYCU.edu.tw ";
  collaborators = record (helpful zero_record) { encrypt_result = encrypted };
  pending_ttl = 5;
}

abbrev pub wired_worker : Worker
wired_worker = record {
  retry_backoffs = [];
  unmarshal = unmarshal;
  unmarshal_partial = λ t. none;
  format_time = λ t. t ∷ [];
  decrypt_result = decrypted;
  process_result = λ h. none;
  sleep_result = λ h. none;
  clock_result = λ h. 9;
  dead_letter_result = λ h. none;
  mark_synced_result = λ h. none;
  mark_failed_result = λ h. none;
  complete_result = λ h. none;
  abandon_result = λ h. none;
}

pub wires : IsWired prefixing shared_codec wired_service wired_worker marshal (λ h. codes "n")
unfolding encrypted decrypted
wires = record {
  encrypts = λ password aad h e. text_result-ok _ e;
  decrypts = λ env aad password h e. ap text_result e;
  key_named = unfold is_blank in refl;
  nonces_drawn = λ h. refl;
  clock_runs = λ h. omega arith;
  same_layout = refl;
  unmarshal-marshal = unmarshal-marshal;
}
