-- ===== src/Monitor/Flush.antt =====
-- Flush of the metric recorder of internal/azuremonitor/metrics.go, and the payloads that it posts.
use password_hook_service.Prelude.{
  ℕ, Bool, ◌||◌, not, Option, none, some, List, [], ◌∷◌, ◌++◌, map, if◌then◌else◌, ltb, leb,
  is_empty, Text, codes, same_text, trim_space, trim_slashes, Result, ok, err,
}
use password_hook_service.Prelude.Effects.{Exec, call, pure, ◌>>=◌}
use password_hook_service.Monitor.{
  Point, Points, sort_by, sorted_label_names, label_value, join, metric_key,
}

-- MetricRecorderOptions
pub record Options : Type 0 where
  pub endpoint_base_url : Text
  pub resource_id : Text
  pub region : Text
  pub namespace : Text
  pub has_token_source : Bool

-- NewMetricRecorder
unfoldable pub new_metric_recorder : Options → Options
new_metric_recorder o = record {
  endpoint_base_url = trim_space o.endpoint_base_url;
  resource_id = trim_space o.resource_id;
  region = trim_space o.region;
  namespace = trim_space o.namespace;
  has_token_source = o.has_token_source;
}

pub record Series (F : Type 0) : Type 0 where
  pub dim_values : List Text
  pub min : F
  pub max : F
  pub sum : F
  pub count : ℕ

-- azureMonitorPayload, with its data.
pub record Payload (F : Type 0) : Type 0 where
  pub time : Text
  pub metric : Text
  pub namespace : Text
  pub dim_names : List Text
  pub series : List (Series F)

-- What a payload has in common.
unfoldable pub group_key : {F : Type 0} → Point F → Text
group_key p = p.name ++ 0 ∷ join (sorted_label_names p.labels)

-- groups[key] = append(groups[key], point)
unfoldable pub group_into :
    {F : Type 0} → Text → Point F → List (Text × List (Point F)) → List (Text × List (Point F))
group_into key p [] = (key, p ∷ []) ∷ []
group_into key p ((k, group) ∷ groups) =
    let rest = group_into key p groups in
    if same_text k key then (k, group ++ p ∷ []) ∷ groups else (k, group) ∷ rest

unfoldable pub groups_from :
    {F : Type 0} → List (Text × List (Point F)) → List (Point F) → List (Text × List (Point F))
groups_from groups [] = groups
groups_from groups (p ∷ points) = groups_from (group_into (group_key p) p groups) points

unfoldable pub series_of : {F : Type 0} → List Text → Point F → Series F
series_of dim_names p = record {
  dim_values = map (λ name. label_value name p.labels) dim_names;
  min = p.min;
  max = p.max;
  sum = p.sum;
  count = p.count;
}

-- azureMonitorPayload of a group, which begins with `p`; `stamp` is the reading of the clock.
unfoldable pub payload_of :
    {F : Type 0} → Options → (stamp : Text) → Point F → List (Point F) → Payload F
payload_of o stamp p points =
    let dim_names = sorted_label_names p.labels in
    record {
      time = stamp;
      metric = p.name;
      namespace = o.namespace;
      dim_names = dim_names;
      series = map (series_of dim_names) (p ∷ points);
    }

-- A group is never empty.
unfoldable pub group_payload :
    {F : Type 0} → Options → (stamp : Text) → List (Point F) → List (Payload F)
group_payload o stamp [] = []
group_payload o stamp (p ∷ points) = payload_of o stamp p points ∷ []

-- `stamp` has the reading of the clock for the payload of each group.
unfoldable pub payloads_of :
    {F : Type 0} → Options → (stamp : Text → Text) → List (Text × List (Point F)) → List (Payload F)
payloads_of o stamp [] = []
payloads_of o stamp ((key, group) ∷ groups) =
    group_payload o (stamp key) (sort_by (λ p. metric_key p.name p.labels) group)
    ++ payloads_of o stamp groups

unfoldable pub azure_monitor_payloads :
    {F : Type 0} → Options → (stamp : Text → Text) → List (Point F) → List (Payload F)
azure_monitor_payloads o stamp points =
    payloads_of o stamp (sort_by (λ g. g.0) (groups_from [] points))

pub data MonitorError : Type 0 where
  token_source_required : MonitorError
  token_failed : Text → MonitorError
  marshal_failed : MonitorError
  request_failed : Text → MonitorError
  send_failed : Text → MonitorError
  send_status : ℕ → MonitorError

pub data MonitorCall : Type 0 where
  token_requested : MonitorCall
  post : (endpoint authorization body : Text) → MonitorCall

-- json.Marshal, url.PathEscape, http.NewRequestWithContext, the token source and the HTTP client, whose result is a status.
pub record Transport (F : Type 0) : Type 0 where
  pub marshal : Payload F → Option Text
  pub path_escape : Text → Text
  pub request_error : (endpoint : Text) → Option Text
  pub token_result : List MonitorCall → Result Text Text
  pub post_result : List MonitorCall → Result Text ℕ

unfoldable pub endpoint_of : {F : Type 0} → Transport F → Options → Text
unfolding trim_slashes
endpoint_of t o =
    trim_slashes o.endpoint_base_url ++ codes "/" ++ t.path_escape o.resource_id ++ codes "/metrics"

abbrev pub failed_request : Option Text → Option MonitorError
failed_request none = none
failed_request (some e) = some (request_failed e)

unfoldable pub posted : Result Text ℕ → Option MonitorError
posted (err e) = some (send_failed e)
posted (ok status) = if ltb status 200 || leb 300 status then some (send_status status) else none

module _ {F : Type 0} (t : Transport F) (o : Options) where
  unfoldable pub unless_failed :
      Option MonitorError
      → Exec MonitorCall (Option MonitorError)
      → Exec MonitorCall (Option MonitorError)
  unless_failed (some e) rest = pure (some e)
  unless_failed none rest = rest

  unfoldable pub send_body : (token body : Text) → Exec MonitorCall (Option MonitorError)
  unfolding endpoint_of
  send_body token body =
      call (post (endpoint_of t o) (codes "Bearer " ++ token) body) (λ h. posted (t.post_result h))

  unfoldable pub post_body : (token : Text) → Option Text → Exec MonitorCall (Option MonitorError)
  unfolding endpoint_of unless_failed send_body
  post_body token none = pure (some marshal_failed)
  post_body token (some body) =
      unless_failed (failed_request (t.request_error (endpoint_of t o))) (send_body token body)

  unfoldable pub post_payload : (token : Text) → Payload F → Exec MonitorCall (Option MonitorError)
  unfolding post_body
  post_payload token payload = post_body token (t.marshal payload)

  unfoldable pub post_all :
      (token : Text) → List (Payload F) → Exec MonitorCall (Option MonitorError)
  unfolding post_payload unless_failed
  post_all token [] = pure none
  post_all token (payload ∷ payloads) = do
    failure ← post_payload token payload
    unless_failed failure (post_all token payloads)

  unfoldable pub with_token :
      List (Payload F) → Result Text Text → Exec MonitorCall (Option MonitorError)
  unfolding post_all
  with_token payloads (err e) = pure (some (token_failed e))
  with_token payloads (ok token) = post_all token payloads

  -- The second part is the points that are left, which are none whatever becomes of the posts.
  unfoldable pub flush :
      (stamp : Text → Text) → Points F → Exec MonitorCall (Option MonitorError × Points F)
  unfolding with_token
  flush stamp points =
      if is_empty points
      then pure (none, [])
      else if not o.has_token_source
      then pure (some token_source_required, [])
      else (do
        token ← call token_requested t.token_result
        failure ← with_token (azure_monitor_payloads o stamp (map (λ p. p.1) points)) token
        pure (failure, []))
