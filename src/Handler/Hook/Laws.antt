-- ===== src/Handler/Hook/Laws.antt =====
-- The replies of ServeHTTP of internal/handler/hook.go.
use mathlib.Core.Path.{subst}
use password_hook_service.Prelude.{
  Bool, true, false, Option, none, some, List, Text, Unicode, Result, ok, err, ◌≡◌, ◌≢◌, ◌↔◌, ◌⊎◌,
  inl, inr, refl, ap, arith, Option-cases,
}
use password_hook_service.Migration.Event.{EventType}
use password_hook_service.Migration.Service.{Decision, SubmitError, Call, Service, Outcome, submit}
use password_hook_service.Migration.Service.Laws.{IsCoherent, submit-IsCoherent}
use password_hook_service.Handler.Hook.{
  PasswordHookRequest, Detail, validate, accepted, status_code, decided, rejected, Reply, reply_of,
  request_of, serve_validated, serve_decoded, serve_post, serve_http, response_of_error,
}

-- A reply is accepted with a decision that was enqueued or skipped, and not both; any other reply is
-- recorded as a rejection with the status that it has.
abbrev pub IsHonest : Reply → Type 0
IsHonest r =
    ((r.response ≡ accepted)
      × ((e : EventType) × (d : Decision) × (r.recorded ≡ decided e d) × IsCoherent (d, none)))
    ⊎ ((r.response ≢ accepted)
        × ((e : Option EventType) × (r.recorded ≡ rejected (status_code r.response) e)))

response_of_error-rejects : (e : SubmitError) → response_of_error e ≢ accepted
unfolding response_of_error
response_of_error-rejects e = ground arith

reply_of-IsHonest : (event : EventType) (o : Outcome) → IsCoherent o → IsHonest (reply_of event o)
unfolding reply_of
reply_of-IsHonest event (d, none) c = inl (refl, (event, d, refl, c))
reply_of-IsHonest event (d, some e) c = inr (response_of_error-rejects e, (some event, refl))

reply_of-accepted :
    (event : EventType) (o : Outcome) → ((reply_of event o).response ≡ accepted) ↔ (o.1 ≡ none)
unfolding reply_of
reply_of-accepted event (d, none) = (λ _. refl, λ _. refl)
reply_of-accepted event (d, some e) = (λ h. absurd (response_of_error-rejects e h), λ h. cc h)

-- The body is a valid request, and its submission ended with a decision and without an error.
pub record IsDecided (u : Unicode) (s : Service) (trace_id : Text)
    (unmarshal : Text → Option PasswordHookRequest) (raw : Text) (h : List Call) : Type 0 where
  pub request : PasswordHookRequest
  pub read : unmarshal raw ≡ some request
  pub valid : validate request ≡ none
  pub decision : Decision
  pub submitted : (submit u s trace_id (request_of request) h).0 ≡ (decision, none)
  pub coherent : IsCoherent (decision, none)

module _ (u : Unicode) (s : Service) (trace_id : Text) where
  validated-IsHonest :
      (body : PasswordHookRequest) (o : Option Detail) (h : List Call)
      → IsHonest (serve_validated u s trace_id body o h).0
  unfolding serve_validated
  validated-IsHonest body (some detail) h = inr (λ e. cc e, (_, refl))
  validated-IsHonest body none h =
      reply_of-IsHonest body.event_type (submit u s trace_id (request_of body) h).0
        (submit-IsCoherent u s trace_id (request_of body) h)

  module _ (unmarshal : Text → Option PasswordHookRequest) where
    decoded-IsHonest :
        (o : Option PasswordHookRequest) (h : List Call)
        → IsHonest (serve_decoded u s trace_id o h).0
    unfolding serve_decoded
    decoded-IsHonest none h = inr (λ e. cc e, (_, refl))
    decoded-IsHonest (some body) h = validated-IsHonest body (validate body) h

    -- Every reply is honest: it is accepted with a decision that was enqueued or skipped, and not
    -- both, or it is not accepted and is recorded as a rejection with the status that it has.
    pub serve_http-IsHonest :
        (is_post : Bool) (raw : Result Text Text) (h : List Call)
        → IsHonest (serve_http u s trace_id is_post unmarshal raw h).0
    unfolding serve_http
    serve_http-IsHonest false raw h = inr (λ e. cc e, (_, refl))
    serve_http-IsHonest true (err e) h = unfold serve_post in inr (λ e. cc e, (_, refl))
    serve_http-IsHonest true (ok raw) h = unfold serve_post in decoded-IsHonest (unmarshal raw) h

    -- A request that decodes is answered with 202 exactly if it is valid and its submission ends
    -- without an error.
    serve_http-accepted_iff :
        (raw : Text) (body : PasswordHookRequest) (h : List Call)
        → unmarshal raw ≡ some body
        → ((serve_http u s trace_id true unmarshal (ok raw) h).0.response ≡ accepted)
          ↔ ((validate body ≡ none) × ((submit u s trace_id (request_of body) h).0.1 ≡ none))
    unfolding serve_http serve_post serve_decoded serve_validated
    serve_http-accepted_iff raw body h e =
        let (to, from) =
          reply_of-accepted body.event_type (submit u s trace_id (request_of body) h).0 in
        rw e (elim (Option-cases (validate body)) [
          | inl v ↦ rw v (λ a. (refl, to a), λ (_, a). from a)
          | inr (d, v) ↦ rw v (λ a. cc a, λ (a, _). cc a)
        ])

    submitted :
        (raw : Text) (body : PasswordHookRequest) (h : List Call)
        → unmarshal raw ≡ some body
        → validate body ≡ none
        → (submit u s trace_id (request_of body) h).0.1 ≡ none
        → IsDecided u s trace_id unmarshal raw h
    submitted raw body h e v done =
        let outcome = (submit u s trace_id (request_of body) h).0 in
        let same : outcome ≡ (outcome.0, none) = ap (λ x. (outcome.0, x)) done in
        record {
          request = body;
          read = e;
          valid = v;
          decision = outcome.0;
          submitted = same;
          coherent = subst IsCoherent same (submit-IsCoherent u s trace_id (request_of body) h);
        }

    not_read :
        (raw : Text) (h : List Call)
        → unmarshal raw ≡ none
        → (serve_http u s trace_id true unmarshal (ok raw) h).0.response ≢ accepted
    unfolding serve_http serve_post serve_decoded
    not_read raw h e = rw e (λ a. cc a)

    -- A reply that is accepted is one to a POST on whose body the service decided.
    pub serve_http-IsDecided :
        (is_post : Bool) (raw : Text) (h : List Call)
        → (serve_http u s trace_id is_post unmarshal (ok raw) h).0.response ≡ accepted
        → (is_post ≡ true) × IsDecided u s trace_id unmarshal raw h
    serve_http-IsDecided false raw h a = unfold serve_http in cc a
    serve_http-IsDecided true raw h a = (
      refl,
      elim (Option-cases (unmarshal raw)) [
        | inl e ↦ absurd (not_read raw h e a)
        | inr (body, e) ↦
            let (valid, done) = (serve_http-accepted_iff raw body h e).0 a in
            submitted raw body h e valid done
      ],
    )

    -- A request that does not pass validation reaches no collaborator of the service, and the reply
    -- is 400.
    serve_http-calls_nothing :
        (raw : Text) (body : PasswordHookRequest) (h : List Call)
        → unmarshal raw ≡ some body
        → validate body ≢ none
        → ((serve_http u s trace_id true unmarshal (ok raw) h).1 ≡ h)
          × (status_code (serve_http u s trace_id true unmarshal (ok raw) h).0.response ≡ 400)
    unfolding serve_http serve_post serve_decoded serve_validated status_code
    serve_http-calls_nothing raw body h e n = rw e (elim (Option-cases (validate body)) [
      | inl v ↦ absurd (n v)
      | inr (d, v) ↦ rw v (refl, refl)
    ])
