-- ===== src/Tests/Recorded.antt =====
-- A caller that changes the labels it passed to the recorder.
use password_hook_service.Prelude.{
  none, some, [], ◌∷◌, ◌≡◌, refl, Text, codes, same_text, if◌then◌else◌,
}
use password_hook_service.Observability.Recorder.{
  LabelMap, no_labels, labels_from_attrs, counters, samples_of, World, Recorded, Reach, start,
  makes, writes, incs,
}
use password_hook_service.Observability.Recorder.Copies.{values}
use password_hook_service.Observability.Recorder.Isolated.{samples_of-IsRecorded}

abbrev outcome : Text → LabelMap
outcome value key = if same_text (codes "outcome") key then some value else none

later_wins :
    labels_from_attrs ((codes "a", codes "1") ∷ (codes "a", codes "2") ∷ []) no_labels (codes "a")
    ≡ some (codes "2")
unfolding labels_from_attrs same_text
later_wins = refl

abbrev changed_labels : (w : World) × (log : Recorded) × Reach w log
changed_labels = (
  _,
  _,
  writes 0 (outcome (codes "changed")) refl
      (incs (codes "requests") 0 refl (makes (outcome (codes "ok")) start)),
)

samples_of-IsRecorded_example :
    values
      (samples_of counters (codes "requests") changed_labels.0.recorder changed_labels.0.heap).1
      (samples_of counters (codes "requests") changed_labels.0.recorder changed_labels.0.heap).0
    ≡ changed_labels.1 counters (codes "requests")
samples_of-IsRecorded_example = samples_of-IsRecorded counters (codes "requests") changed_labels.2
