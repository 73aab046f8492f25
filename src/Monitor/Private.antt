-- ===== src/Monitor/Private.antt =====
-- The labels that the metric recorder of internal/azuremonitor/metrics.go exports.
use password_hook_service.Prelude.{
  ℤ, Bool, true, false, not, Option, none, some, List, [], ◌∷◌, map, ◌≡◌, refl, if◌then◌else◌,
  is_empty, Text, Bool-cases, inl, inr, All, Result, ok, err,
}
use password_hook_service.Prelude.Effects.{Exec}
use password_hook_service.Monitor.{Labels, Arithmetic, Points, inc, observe_duration, set_gauge}
use password_hook_service.Monitor.Flush.{
  Options, Payload, azure_monitor_payloads, MonitorError, MonitorCall, token_requested, post,
  Transport, failed_request, endpoint_of, send_body, post_body, post_payload, post_all,
  unless_failed, with_token, flush,
}
use password_hook_service.Monitor.Allowed.{
  AllowedName, AllowedPayload, AllowedPoints, points-Allowed, payloads-Allowed, add-Allowed,
}

-- A call of the recorder; Close is a call of Flush.
pub data Operation (F : Type 0) : Type 0 where
  incs : (name : Text) → Labels → Operation F
  observes : (name : Text) → (duration : ℤ) → Labels → Operation F
  sets : (name : Text) → (value : ℤ) → Labels → Operation F
  flushes : (stamp : Text → Text) → Operation F

module _ {F : Type 0} (a : Arithmetic F) (t : Transport F) (o : Options) where
  operate : Operation F → Points F → Exec MonitorCall (Points F)
  operate (incs name labels) points h = (inc a name labels points, h)
  operate (observes name duration labels) points h =
      (observe_duration a name duration labels points, h)
  operate (sets name value labels) points h = (set_gauge a name value labels points, h)
  operate (flushes stamp) points h =
      let ((failure, left), h') = flush t o stamp points h in (left, h')

  unfoldable pub operate_all : List (Operation F) → Points F → Exec MonitorCall (Points F)
  unfolding operate
  operate_all [] points h = (points, h)
  operate_all (op ∷ ops) points h = let (left, h') = operate op points h in operate_all ops left h'

module _ {F : Type 0} (t : Transport F) where
  -- A body that is posted is a payload all of whose labels have one of the nine names.
  unfoldable pub AllowedCall : MonitorCall → Type 0
  AllowedCall token_requested = Unit
  AllowedCall (post endpoint authorization body) =
      (payload : Payload F) × (t.marshal payload ≡ some body) × All AllowedName payload.dim_names

  module _ (o : Options) where
    unless_failed-Allowed :
        (failure : Option MonitorError) (rest : Exec MonitorCall (Option MonitorError))
        (h : List MonitorCall)
        → All AllowedCall h
        → All AllowedCall (rest h).1
        → All AllowedCall (unless_failed t o failure rest h).1
    unfolding unless_failed
    unless_failed-Allowed (some e) rest h before after = before
    unless_failed-Allowed none rest h before after = after

    post_body-Allowed :
        (token : Text) (payload : Payload F) (body : Option Text) (h : List MonitorCall)
        → t.marshal payload ≡ body
        → AllowedPayload payload
        → All AllowedCall h
        → All AllowedCall (post_body t o token body h).1
    unfolding post_body send_body AllowedCall
    post_body-Allowed token payload none h e hp before = before
    post_body-Allowed token payload (some body) h e hp before =
        let failure = failed_request (t.request_error (endpoint_of t o)) in
        unless_failed-Allowed failure (send_body t o token body) h before ((payload, e, hp), before)

    post_all-Allowed :
        (token : Text) (payloads : List (Payload F)) (h : List MonitorCall)
        → All AllowedPayload payloads
        → All AllowedCall h
        → All AllowedCall (post_all t o token payloads h).1
    unfolding post_all post_payload
    post_all-Allowed token [] h _ before = before
    post_all-Allowed token (payload ∷ payloads) h (hp, hps) before =
        let (failure, h') = post_payload t o token payload h in
        let after = post_body-Allowed token payload (t.marshal payload) h refl hp before in
        unless_failed-Allowed failure (post_all t o token payloads) h' after
          (post_all-Allowed token payloads h' hps after)

    with_token-Allowed :
        (payloads : List (Payload F)) (token : Result Text Text) (h : List MonitorCall)
        → All AllowedPayload payloads
        → All AllowedCall h
        → All AllowedCall (with_token t o payloads token h).1
    unfolding with_token
    with_token-Allowed payloads (err e) h _ before = before
    with_token-Allowed payloads (ok token) h hps before =
        post_all-Allowed token payloads h hps before

    branch-Allowed :
        {R : Type 0} (b : Bool) (taken other : Exec MonitorCall R) (h : List MonitorCall)
        → All AllowedCall (taken h).1
        → All AllowedCall (other h).1
        → All AllowedCall ((if b then taken else other) h).1
    branch-Allowed true taken other h first second = first
    branch-Allowed false taken other h first second = second

    flush-Allowed :
        (stamp : Text → Text) (points : Points F) (h : List MonitorCall)
        → AllowedPoints points
        → All AllowedCall h
        → All AllowedCall (flush t o stamp points h).1
    unfolding flush AllowedCall
    flush-Allowed stamp points h hp before =
        let payloads = azure_monitor_payloads o stamp (map (λ e. e.1) points) in
        let asked = token_requested ∷ h in
        branch-Allowed (is_empty points) _ _ h before (
          branch-Allowed (not o.has_token_source) _ _ h before (
            with_token-Allowed payloads (t.token_result asked) asked
              (payloads-Allowed o stamp (map (λ e. e.1) points) (points-Allowed points hp))
              (tt, before)))

    flush-empties :
        (stamp : Text → Text) (points : Points F) (h : List MonitorCall)
        → (flush t o stamp points h).0.1 ≡ []
    unfolding flush
    flush-empties stamp points h = elim (Bool-cases (is_empty points)) [
      | inl nothing ↦ rw nothing refl
      | inr some_points ↦ elim (Bool-cases o.has_token_source) [
        | inl source ↦ rw (some_points, source) refl
        | inr no_source ↦ rw (some_points, no_source) refl
      ]
    ]

    operate-Allowed :
        (a : Arithmetic F) (op : Operation F) (points : Points F) (h : List MonitorCall)
        → AllowedPoints points
        → All AllowedCall h
        → let (left, h') = operate a t o op points h in AllowedPoints left × All AllowedCall h'
    unfolding operate inc observe_duration set_gauge
    operate-Allowed a (incs name labels) points h hp before =
        (add-Allowed a name labels a.one points hp, before)
    operate-Allowed a (observes name duration labels) points h hp before =
        (add-Allowed a name labels (a.seconds duration) points hp, before)
    operate-Allowed a (sets name value labels) points h hp before =
        (add-Allowed a name labels (a.float64 value) points hp, before)
    operate-Allowed a (flushes stamp) points h hp before =
        (rw (flush-empties stamp points h) tt, flush-Allowed stamp points h hp before)

    operate_all-Allowed :
        (a : Arithmetic F) (ops : List (Operation F)) (points : Points F) (h : List MonitorCall)
        → AllowedPoints points
        → All AllowedCall h
        → All AllowedCall (operate_all a t o ops points h).1
    unfolding operate_all
    operate_all-Allowed a [] points h hp before = before
    operate_all-Allowed a (op ∷ ops) points h hp before =
        let (hp', after) = operate-Allowed a op points h hp before in
        let (left, h') = operate a t o op points h in operate_all-Allowed a ops left h' hp' after

    -- Whatever is recorded and flushed, in any order, every body that is posted is a payload all of whose labels
    -- have one of the nine allowed names, so no other label of a sample ever leaves the service.
    pub operate_all-posts_allowed :
        (a : Arithmetic F) (ops : List (Operation F))
        → All AllowedCall (operate_all a t o ops [] []).1
    operate_all-posts_allowed a ops = operate_all-Allowed a ops [] [] tt tt
