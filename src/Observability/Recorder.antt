-- ===== src/Observability/Recorder.antt =====
-- internal/observability/recorder.go: the CaptureRecorder, and who holds which map of labels. A map of labels is at an
-- address of the heap. The three maps of samples are one function of the kind. An int64 and a Duration are integers.
pub mod Copies
pub mod Isolated
use password_hook_service.Prelude.{
  ℕ, suc, ◌+◌, Bool, true, false, Option, none, some, List, [], ◌∷◌, ◌++◌, ◌≡◌, if◌then◌else◌, ◌==◌,
  Text, same_text, ℤ, pos, ◌||◌, any,
}
use password_hook_service.Observability.{LogAttrs}

abbrev pub LabelMap : Type 0
LabelMap = Text → Option Text

abbrev pub no_labels : LabelMap
no_labels key = none

-- LabelsFromAttrs, on a map that is being filled; a key that comes again is overwritten.
unfoldable pub labels_from_attrs : LogAttrs → LabelMap → LabelMap
labels_from_attrs [] m = m
labels_from_attrs ((key, value) ∷ attrs) m =
    labels_from_attrs attrs (λ k. if same_text key k then some value else m k)

pub record Heap : Type 0 where
  pub next : ℕ
  pub at : ℕ → LabelMap

pub record Sample : Type 0 where
  pub labels : ℕ
  pub duration : ℤ
  pub value : ℤ

pub data Kind : Type 0 where
  counters durations gauges : Kind

abbrev pub same_kind : Kind → Kind → Bool
same_kind counters counters = true
same_kind durations durations = true
same_kind gauges gauges = true
same_kind _ _ = false

-- The name of a sample is the key that it is kept under.
abbrev pub CaptureRecorder : Type 0
CaptureRecorder = Kind → Text → List Sample

unfoldable pub copy_labels : ℕ → Heap → ℕ × Heap
copy_labels labels h =
    (h.next, record { next = suc h.next; at = λ a. if h.next == a then h.at labels else h.at a })

unfoldable pub copy_samples : List Sample → Heap → List Sample × Heap
unfolding copy_labels
copy_samples [] h = ([], h)
copy_samples (s ∷ samples) h =
    let (labels, h') = copy_labels s.labels h in
    let (out, h'') = copy_samples samples h' in (record s { labels = labels } ∷ out, h'')

unfoldable pub append_to :
    {A : Type 0} → Kind → Text → A → (Kind → Text → List A) → Kind → Text → List A
append_to kind name x r k n =
    if same_kind kind k then (if same_text name n then r k n ++ x ∷ [] else r k n) else r k n

unfoldable pub record_sample :
    Kind
    → Text
    → (labels : ℕ) → (duration value : ℤ) → CaptureRecorder
    → Heap
    → CaptureRecorder × Heap
unfolding copy_labels append_to
record_sample kind name labels duration value r h =
    let (copy, h') = copy_labels labels h in
    (append_to kind name (record { labels = copy; duration = duration; value = value }) r, h')

unfoldable pub inc : Text → (labels : ℕ) → CaptureRecorder → Heap → CaptureRecorder × Heap
unfolding record_sample
inc name labels = record_sample counters name labels (pos 0) (pos 1)

unfoldable pub observe_duration :
    Text → (duration : ℤ) → (labels : ℕ) → CaptureRecorder → Heap → CaptureRecorder × Heap
unfolding record_sample
observe_duration name duration labels = record_sample durations name labels duration (pos 0)

unfoldable pub set_gauge :
    Text → (value : ℤ) → (labels : ℕ) → CaptureRecorder → Heap → CaptureRecorder × Heap
unfolding record_sample
set_gauge name value labels = record_sample gauges name labels (pos 0) value

-- Counters, Durations and Gauges
abbrev pub samples_of : Kind → Text → CaptureRecorder → Heap → List Sample × Heap
samples_of kind name r h = copy_samples (r kind name) h

-- `held` tells which maps a caller can write to.
pub record World : Type 0 where
  pub recorder : CaptureRecorder
  pub heap : Heap
  pub held : ℕ → Bool

-- What was recorded, by value.
abbrev pub Recorded : Type 0
Recorded = Kind → Text → List (LabelMap × ℤ × ℤ)

abbrev pub started : World
started = record {
  recorder = λ kind name. [];
  heap = record { next = 0; at = λ a. no_labels };
  held = λ a. false;
}

abbrev pub after : World → CaptureRecorder × Heap → World
after w (r, h) = record w { recorder = r; heap = h }

-- The callers make maps, write to the maps that they hold, and call the recorder; a read gives them copies.
pub data Reach : World → Recorded → Type 0 where
  start : Reach started (λ kind name. [])
  makes :
      {w : World} {log : Recorded} (m : LabelMap)
      → Reach w log
      → Reach
          (record w {
            heap = record {
              next = suc w.heap.next;
              at = λ a. if w.heap.next == a then m else w.heap.at a;
            };
            held = λ a. if w.heap.next == a then true else w.held a;
          })
          log
  writes :
      {w : World} {log : Recorded} (labels : ℕ) (m : LabelMap)
      → w.held labels ≡ true
      → Reach w log
      → Reach
          (record w {
            heap = record { next = w.heap.next; at = λ a. if labels == a then m else w.heap.at a };
          })
          log
  incs :
      {w : World} {log : Recorded} (name : Text) (labels : ℕ)
      → w.held labels ≡ true
      → Reach w log
      → Reach
          (after w (inc name labels w.recorder w.heap))
          (append_to counters name (w.heap.at labels, pos 0, pos 1) log)
  observes :
      {w : World} {log : Recorded} (name : Text) (duration : ℤ) (labels : ℕ)
      → w.held labels ≡ true
      → Reach w log
      → Reach
          (after w (observe_duration name duration labels w.recorder w.heap))
          (append_to durations name (w.heap.at labels, duration, pos 0) log)
  sets :
      {w : World} {log : Recorded} (name : Text) (value : ℤ) (labels : ℕ)
      → w.held labels ≡ true
      → Reach w log
      → Reach
          (after w (set_gauge name value labels w.recorder w.heap))
          (append_to gauges name (w.heap.at labels, pos 0, value) log)
  reads :
      {w : World} {log : Recorded} (kind : Kind) (name : Text)
      → Reach w log
      → Reach
          (record w {
            heap = (samples_of kind name w.recorder w.heap).1;
            held = λ a.
                w.held a || any (λ s. s.labels == a) (samples_of kind name w.recorder w.heap).0;
          })
          log
