-- ===== src/Migration/Service/Delivery.antt =====
-- What the queue has been given when a submission reports that it enqueued.
use password_hook_service.Prelude.{
  true, false, none, List, ◌∷◌, ◌≡◌, refl, arith, Text, trim_space, Unicode, Result, ok, err,
  if◌then◌else◌,
}
use password_hook_service.Migration.Identity.{
  IdentityType, unknown, student_id, employee_id, external_email, classify_cn, build_upn, Error,
}
use password_hook_service.Migration.Message.{Envelope, password_aad}
use password_hook_service.Migration.Service.{
  Request, Decision, Call, read_clock, encrypt, enqueue, mark_pending, zero_password, Service,
  message_of, dedupe, send, deliver, submit_eligible, submit_classified, submit, Outcome,
}

-- The calls that seal the password and hand the message over, on top of the earlier ones.
abbrev pub sealing : Service → Request → Text → List Call → List Call
sealing s req upn earlier =
    let at = s.collaborators.clock_result (read_clock ∷ earlier) in
    encrypt req.password (password_aad s.collaborators.format_time (trim_space req.cn) upn at)
    ∷ read_clock
    ∷ earlier

abbrev pub sending : Service → Text → Request → Text → Envelope → List Call → List Call
sending s trace_id req upn env earlier =
    enqueue (message_of trace_id req upn env (s.collaborators.clock_result (read_clock ∷ earlier)))
    ∷ sealing s req upn earlier

-- The password was sealed under the identity of the message, the queue took the message with the
-- sealed payload, and the account was marked pending with the time of the message.
pub record IsDelivered (s : Service) (trace_id : Text) (req : Request) (upn : Text)
    (earlier final : List Call) : Type 0 where
  pub env : Envelope
  pub sealed : s.collaborators.encrypt_result (sealing s req upn earlier) ≡ ok env
  pub taken : s.collaborators.enqueue_result (sending s trace_id req upn env earlier) ≡ none
  pub ending : final ≡ (
      if s.collaborators.has_store
      then mark_pending upn (s.collaborators.clock_result (read_clock ∷ earlier))
        ∷ sending s trace_id req upn env earlier
      else sending s trace_id req upn env earlier)

module _ (s : Service) (trace_id : Text) (req : Request) (upn : Text) where
  send-IsDelivered :
      (d : Decision) (earlier : List Call) (env : Envelope)
      → d.enqueued ≡ false
      → s.collaborators.encrypt_result (sealing s req upn earlier) ≡ ok env
      → (send s d trace_id req upn
          (s.collaborators.clock_result (read_clock ∷ earlier))
          (ok env)
          (sealing s req upn earlier)).0.0.enqueued
        ≡ true
      → IsDelivered s trace_id req upn earlier
          (send s d trace_id req upn
            (s.collaborators.clock_result (read_clock ∷ earlier))
            (ok env)
            (sealing s req upn earlier)).1
  unfolding send
  send-IsDelivered d earlier env fresh e h = record {
    env = env;
    sealed = e;
    taken = ground arith;
    ending = ground arith;
  }

  abbrev sealed_send : Decision → Result Text Envelope → List Call → Outcome × List Call
  sealed_send d r earlier =
      send s d trace_id req upn (s.collaborators.clock_result (read_clock ∷ earlier)) r
        (sealing s req upn earlier)

  deliver-send :
      (d : Decision) (earlier : List Call)
      → d.enqueued ≡ false
      → (deliver s d trace_id req upn earlier).0.0.enqueued ≡ true
      → deliver s d trace_id req upn earlier
        ≡ sealed_send d (s.collaborators.encrypt_result (sealing s req upn earlier)) earlier
  unfolding deliver
  deliver-send d earlier fresh h = ground arith

  send-ok :
      (d : Decision) (earlier : List Call) (r : Result Text Envelope)
      → d.enqueued ≡ false
      → s.collaborators.encrypt_result (sealing s req upn earlier) ≡ r
      → (sealed_send d r earlier).0.0.enqueued ≡ true
      → IsDelivered s trace_id req upn earlier (sealed_send d r earlier).1
  send-ok d earlier (ok env) fresh e h = send-IsDelivered d earlier env fresh e h
  send-ok d earlier (err x) fresh e h = unfold send in cc (fresh, h)

  deliver-IsDelivered :
      (d : Decision) (earlier : List Call)
      → d.enqueued ≡ false
      → (deliver s d trace_id req upn earlier).0.0.enqueued ≡ true
      → IsDelivered s trace_id req upn earlier (deliver s d trace_id req upn earlier).1
  deliver-IsDelivered d earlier fresh h =
      let same = deliver-send d earlier fresh h in
      rw same (send-ok d earlier _ fresh refl (rw same at h))

-- The history in which the password is sealed: what came before, and the dedupe.
abbrev pub after_dedupe : Service → Request → Text → List Call → List Call
after_dedupe s req upn h = (dedupe s req.event_type upn h).1

-- The principal name was built, and the submission was delivered for it; the last call zeroed the
-- password.
abbrev pub IsSubmitted : Unicode → Service → Text → Request → List Call → Type 0
IsSubmitted u s trace_id req h =
    (upn : Text) × (t : List Call) × (build_upn u req.cn s.primary_domain ≡ ok upn)
    × IsDelivered s trace_id req upn (after_dedupe s req upn h) t
    × ((submit u s trace_id req h).1 ≡ zero_password ∷ t)

module _ (u : Unicode) (s : Service) (trace_id : Text) (req : Request) where
  eligible-deliver :
      (d : Decision) (upn : Text) (h : List Call)
      → d.enqueued ≡ false
      → (submit_eligible s d trace_id req (ok upn) h).0.0.enqueued ≡ true
      → submit_eligible s d trace_id req (ok upn) h
        ≡ deliver s (record d { upn = upn }) trace_id req upn (after_dedupe s req upn h)
  unfolding submit_eligible
  eligible-deliver d upn h fresh q = ground arith

  eligible-IsDelivered :
      (d : Decision) (r : Result Error Text) (h : List Call)
      → d.enqueued ≡ false
      → (submit_eligible s d trace_id req r h).0.0.enqueued ≡ true
      → (upn : Text) × (r ≡ ok upn)
        × IsDelivered s trace_id req upn
            (after_dedupe s req upn h)
            (submit_eligible s d trace_id req r h).1
  eligible-IsDelivered d (err e) h fresh q = unfold submit_eligible in cc (fresh, q)
  eligible-IsDelivered d (ok upn) h fresh q =
      let same = eligible-deliver d upn h fresh q in
      (
        upn,
        refl,
        rw same (
            deliver-IsDelivered s trace_id req upn (record d { upn = upn })
              (after_dedupe s req upn h) fresh (rw same at q)),
      )

  classified-IsDelivered :
      (kind : IdentityType) (h : List Call)
      → (submit_classified u s trace_id req kind h).0.0.enqueued ≡ true
      → (upn : Text) × (build_upn u req.cn s.primary_domain ≡ ok upn)
        × IsDelivered s trace_id req upn
            (after_dedupe s req upn h)
            (submit_classified u s trace_id req kind h).1
  classified-IsDelivered unknown h q = unfold submit_classified in cc q
  classified-IsDelivered external_email h q = unfold submit_classified in cc q
  classified-IsDelivered student_id h q =
      unfold submit_classified in
      eligible-IsDelivered _ (build_upn u req.cn s.primary_domain) h refl q
  classified-IsDelivered employee_id h q =
      unfold submit_classified in
      eligible-IsDelivered _ (build_upn u req.cn s.primary_domain) h refl q

  submit-classified :
      (h : List Call)
      → (submit u s trace_id req h).0.0.enqueued ≡ true
      → let run = submit_classified u s trace_id req (classify_cn u req.cn) h in
        submit u s trace_id req h ≡ (run.0, zero_password ∷ run.1)
  unfolding submit
  submit-classified h q = ground arith

  -- A submission that reports that it enqueued has built the principal name, has sealed the password
  -- under it and the time of the message, and the queue has taken the message with what was sealed.
  -- The account was marked pending, where there is a store. Then the password was zeroed.
  pub submit-IsDelivered :
      (h : List Call)
      → (submit u s trace_id req h).0.0.enqueued ≡ true
      → IsSubmitted u s trace_id req h
  submit-IsDelivered h q =
      let same = submit-classified h q in
      let kind = classify_cn u req.cn in
      let (upn, built, sent) = classified-IsDelivered kind h (rw same at q) in
      (upn, (submit_classified u s trace_id req kind h).1, built, sent, rw same)
