-- ===== src/Tests/Exported.antt =====
-- Runs of the metric recorder.
use password_hook_service.Prelude.{
  ℕ, pos, positive_or, ◌+◌, true, none, some, List, [], ◌∷◌, ◌++◌, ◌≡◌, refl, ltb, length, Text,
  codes, same_text, trim_space, All, ok,
}
use password_hook_service.Monitor.{
  Labels, Arithmetic, inc, set_gauge, point_at, metric_key, allowed_labels, keep_label, add, absorb,
  put_point, join, sorted_label_names, sort_by, label_value,
}
use password_hook_service.Monitor.Flush.{
  Options, Transport, flush, azure_monitor_payloads, payloads_of, groups_from, group_into,
  group_key, group_payload, posted,
}
use password_hook_service.Monitor.Sums.{Sample, add_all, of_key, summary, add_all-is_summary}
use password_hook_service.Monitor.Private.{
  Operation, incs, sets, flushes, operate_all, AllowedCall, operate_all-posts_allowed,
}

abbrev numbers : Arithmetic ℕ
numbers = record {
  less = ltb;
  plus = λ x y. x + y;
  zero = 0;
  one = 1;
  seconds = λ d. 0;
  float64 = λ v. positive_or 0 v;
}

abbrev outcome_of : Text → Labels
outcome_of outcome = (codes "upn", codes "b11@x") ∷ (codes "outcome", outcome) ∷ []

abbrev attempts_of : Text → ℕ → Sample ℕ
attempts_of outcome n = record { name = codes " attempts "; labels = outcome_of outcome; value = n }

abbrev samples : List (Sample ℕ)
samples =
    attempts_of (codes "ok") 3 ∷ attempts_of (codes "failed") 9 ∷ attempts_of (codes "ok") 2 ∷ []

abbrev ok_key : Text
ok_key = codes "attempts" ++ 0 ∷ codes "outcome" ++ 0 ∷ codes "ok"

least_ok : (point_at numbers ok_key (add_all numbers samples [])).min ≡ 2
unfolding point_at add_all add absorb put_point allowed_labels keep_label metric_key join
    sorted_label_names sort_by label_value same_text trim_space
least_ok = refl

add_all-is_summary_example :
    point_at numbers ok_key (add_all numbers samples [])
    ≡ summary numbers (of_key numbers ok_key samples)
add_all-is_summary_example = add_all-is_summary numbers ok_key samples

abbrev exporter : Transport ℕ
exporter = record {
  marshal = λ p. some p.metric;
  path_escape = λ s. s;
  request_error = λ endpoint. none;
  token_result = λ h. ok (codes "t");
  post_result = λ h. ok 200;
}

abbrev taiwan : Options
taiwan = record {
  endpoint_base_url = codes "https://m/";
  resource_id = codes "r";
  region = codes "east";
  namespace = codes "hook";
  has_token_source = true;
}

abbrev writes_and_flush : List (Operation ℕ)
writes_and_flush =
    incs (codes "attempts") (outcome_of (codes "ok"))
    ∷ sets (codes "attempts") (pos 7) (outcome_of (codes "failed"))
    ∷ flushes (λ key. codes "now")
    ∷ []

two_series_of_one_payload :
    length (operate_all numbers exporter taiwan writes_and_flush [] []).1 ≡ 2
unfolding operate_all flush inc set_gauge add trim_space put_point same_text metric_key
    allowed_labels azure_monitor_payloads payloads_of groups_from group_into group_key absorb
    point_at group_payload posted
two_series_of_one_payload = refl

operate_all-posts_allowed_example :
    All (AllowedCall exporter) (operate_all numbers exporter taiwan writes_and_flush [] []).1
operate_all-posts_allowed_example =
    operate_all-posts_allowed exporter taiwan numbers writes_and_flush
