-- ===== src/Journey/Arrival.antt =====
-- What the processor is given for a password that was submitted.
use password_hook_service.Prelude.{
  ℕ, Bool, true, false, some, List, [], ◌∷◌, ◌≡◌, refl, ap, ◌∙◌, arith, Text, is_blank,
  is_blank-append, is_blank-trim_space, is_space, trim_space, ok, Unicode, normalize, same_text,
  ◌==◌, if◌then◌else◌, ◌⊎◌,
}
use password_hook_service.Migration.Identity.{classify_cn, student_id, employee_id, build_upn}
use password_hook_service.Migration.Identity.Laws.{build_upn_ok}
use password_hook_service.Migration.Message.{Envelope, PasswordSyncMessage}
use password_hook_service.Migration.Service.{
  Request, Service, Call, read_clock, mark_pending, message_of, dedupe, submit,
}
use password_hook_service.Migration.Service.Delivery.{
  sealing, IsDelivered, after_dedupe, submit-IsDelivered,
}
use password_hook_service.Crypto.Codec.{Base64, Codec}
use password_hook_service.Crypto.Codec.Laws.{decrypt-encrypt, encrypt_complete}
use password_hook_service.Worker.Defs
use password_hook_service.Worker.Defs.{Message, Worker, process, zero_plaintext}
use password_hook_service.Worker.Decode.{
  is_incomplete, decode_password_sync_message, password_sync_kind,
}
use password_hook_service.Worker.Attempts.{command_of, message_aad, attempt}
use password_hook_service.Queue.Receiver.{message_kind}
use password_hook_service.Journey.{IsWired, queued, arriving}

-- The worker reads the message and tries it: the processor is called with the password.
pub record Reaches (w : Worker) (arrived : Message) (m : PasswordSyncMessage) (password : Text)
    : Type 0 where
  pub decoded : decode_password_sync_message w (some arrived) ≡ some m
  pub processed :
      (h : List Defs.Call)
      → (attempt w m h).1
        ≡ zero_plaintext
          ∷ process (command_of m password)
          ∷ Defs.decrypt m.envelope (message_aad w m)
          ∷ h

-- One message was queued, for the account of the CN, and it reaches the processor.
pub record HasArrived (u : Unicode) (s : Service) (w : Worker)
    (marshal : PasswordSyncMessage → Text) (ttl : ℕ) (req : Request) (h : List Call) : Type 0 where
  pub message : PasswordSyncMessage
  pub alone : queued h ≡ message ∷ []
  pub account : build_upn u req.cn s.primary_domain ≡ ok message.upn
  pub reaches :
      Reaches w (arriving s.collaborators.format_time marshal ttl message) message req.password

dedupe-queued : (s : Service) (req : Request) (upn : Text) → queued (after_dedupe s req upn []) ≡ []
unfolding dedupe
dedupe-queued s req upn = ground arith

cn_not_blank :
    (u : Unicode) (cn : Text)
    → (classify_cn u cn ≡ student_id) ⊎ (classify_cn u cn ≡ employee_id)
    → is_blank (trim_space cn) ≡ false
unfolding classify_cn
cn_not_blank u cn h = rw (is_blank-trim_space cn) (ground arith)

upn_not_blank :
    (u : Unicode) (cn domain : Text) {upn : Text}
    → build_upn u cn domain ≡ ok upn
    → is_blank upn ≡ false
unfolding is_space
upn_not_blank u cn domain e =
    let (shape, _, _, _) = build_upn_ok u cn domain e in
    rw shape (is_blank-append b'@' (normalize u domain) refl (trim_space cn))

-- Marking an account leaves the queue as it is.
if-queued :
    (flag : Bool) (upn : Text) (at : ℕ) (h : List Call)
    → queued (if flag then mark_pending upn at ∷ h else h) ≡ queued h
if-queued true upn at h = refl
if-queued false upn at h = refl

delivered-queued :
    (s : Service) (trace_id : Text) (req : Request) (upn : Text) {t : List Call}
    (d : IsDelivered s trace_id req upn (after_dedupe s req upn []) t)
    → queued t
      ≡ message_of trace_id req upn d.env
          (s.collaborators.clock_result (read_clock ∷ after_dedupe s req upn []))
        ∷ []
delivered-queued s trace_id req upn d =
    ap queued d.ending
    ∙ if-queued s.collaborators.has_store upn _ _
    ∙ ap
        (λ q.
          message_of trace_id req upn d.env
            (s.collaborators.clock_result (read_clock ∷ after_dedupe s req upn []))
          ∷ q)
        (dedupe-queued s req upn)

kind_accepted : same_text (trim_space password_sync_kind) password_sync_kind ≡ true
unfolding trim_space same_text
kind_accepted = refl

module _ (b : Base64) (c : Codec) (u : Unicode) (s : Service) (w : Worker)
    (marshal : PasswordSyncMessage → Text) (nonces : List Call → Text)
    (wired : IsWired b c s w marshal nonces) (trace_id : Text) (req : Request) (upn : Text)
    (earlier : List Call) (env : Envelope) (named : build_upn u req.cn s.primary_domain ≡ ok upn)
    (enveloped : s.collaborators.encrypt_result (sealing s req upn earlier) ≡ ok env) where
  abbrev at : ℕ
  at = s.collaborators.clock_result (read_clock ∷ earlier)

  abbrev message : PasswordSyncMessage
  message = message_of trace_id req upn env at

  message_complete : is_incomplete message ≡ false
  unfolding is_incomplete
  message_complete =
      let (_, _, _, class) = build_upn_ok u req.cn s.primary_domain named in
      let cn = cn_not_blank u req.cn class in
      let name = upn_not_blank u req.cn s.primary_domain named in
      let (cipher, nonce, key, algorithm) =
        encrypt_complete b c _ _ _ (wired.encrypts _ _ _ enveloped) (wired.nonces_drawn _)
          wired.key_named in
      let later : (at == 0) ≡ false = ground (arith, wired.clock_runs (read_clock ∷ earlier)) in
      rw (cn, name, cipher, nonce, key, algorithm, later) refl

  message_decoded :
      (ttl : ℕ)
      → decode_password_sync_message w
          (some (arriving s.collaborators.format_time marshal ttl message))
        ≡ some message
  unfolding decode_password_sync_message message_kind
  message_decoded ttl = simp (kind_accepted, wired.unmarshal-marshal message refl, message_complete)

  message_processed :
      (h : List Defs.Call)
      → (attempt w message h).1
        ≡ zero_plaintext
          ∷ process (command_of message req.password)
          ∷ Defs.decrypt env (message_aad w message)
          ∷ h
  unfolding attempt
  message_processed h =
      let opened =
        wired.decrypts env (message_aad w message) req.password h
          (rw wired.same_layout (decrypt-encrypt b c _ _ _ (wired.encrypts _ _ _ enveloped))) in
      rw opened refl

-- A password that Submit reports as queued reaches the processor, if the parts are wired: the history
-- of the submission holds one message, whose account is that of the CN; the worker decodes what arrives
-- as that message, and its next attempt calls the processor with the password that was submitted.
pub submit-HasArrived :
    (b : Base64) (c : Codec) (u : Unicode) (s : Service) (w : Worker)
    (marshal : PasswordSyncMessage → Text) (nonces : List Call → Text)
    (wired : IsWired b c s w marshal nonces) (ttl : ℕ) (trace_id : Text) (req : Request)
    → (submit u s trace_id req []).0.0.enqueued ≡ true
    → HasArrived u s w marshal ttl req (submit u s trace_id req []).1
submit-HasArrived b c u s w marshal nonces wired ttl trace_id req q =
    let (upn, t, named, d, ending) = submit-IsDelivered u s trace_id req [] q in
    let earlier = after_dedupe s req upn [] in
    record {
      message =
          message b c u s w marshal nonces wired trace_id req upn earlier d.env named d.sealed;
      alone = ap queued ending ∙ delivered-queued s trace_id req upn d;
      account = named;
      reaches = record {
        decoded =
            message_decoded b c u s w marshal nonces wired trace_id req upn earlier d.env named
              d.sealed ttl;
        processed =
            message_processed b c u s w marshal nonces wired trace_id req upn earlier d.env named
              d.sealed;
      };
    }
