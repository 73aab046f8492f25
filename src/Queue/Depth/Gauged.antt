-- ===== src/Queue/Depth/Gauged.antt =====
-- What the depth probe of internal/servicebusqueue/queue.go records.
use password_hook_service.Prelude.{
  ℤ, Bool, false, some, List, [], ◌∷◌, ◌≡◌, refl, ap, ◌∙◌, arith, if◌then◌else◌, is_empty, Text,
  codes, trim_space, trim_space-trim_space, same_text, Bool-cases, inl, inr, ◌⊎◌, Result, ok, err,
}
use password_hook_service.Monitor.{Labels, label_value, allowed_labels}
use password_hook_service.Monitor.Allowed.{AllowedName}
use password_hook_service.Monitor.Kept.{without_blanks, allowed_labels-without_blanks}
use password_hook_service.Queue.Depth.{
  QueueDepthProbe, new_queue_depth_probe, DepthError, DepthCall, active_message_count, set_gauge,
  depth_labels, read_depth, probe,
}

-- What NewQueueDepthProbe makes of its names: they are trimmed.
record IsTrimmed (p : QueueDepthProbe) : Type 0 where
  queue_trimmed : trim_space p.queue ≡ p.queue
  kind_trimmed : trim_space p.kind ≡ p.kind

new-IsTrimmed :
    (has_reader : Bool) (queue_name kind : Text)
    → IsTrimmed (new_queue_depth_probe has_reader queue_name kind)
unfolding new_queue_depth_probe
new-IsTrimmed has_reader queue_name kind = record {
  queue_trimmed = trim_space-trim_space queue_name;
  kind_trimmed = trim_space-trim_space kind;
}

-- The gauge of a depth, whose labels the exporter keeps as they are.
abbrev pub IsGauge : (p : QueueDepthProbe) → ℤ → DepthCall → Type 0
IsGauge p depth (set_gauge d labels) =
    (d ≡ depth) × (label_value (codes "queue") labels ≡ p.queue) × (allowed_labels labels ≡ labels)
IsGauge p depth (active_message_count queue) = ⊥

-- A depth comes with one gauge, after one reading; an error comes without a gauge.
abbrev pub IsGauged :
    QueueDepthProbe → List DepthCall → Result DepthError ℤ × List DepthCall → Type 0
IsGauged p h (ok depth, h') =
    (gauge : DepthCall) × (h' ≡ gauge ∷ active_message_count p.queue ∷ h) × IsGauge p depth gauge
IsGauged p h (err e, h') = (h' ≡ h) ⊎ (h' ≡ active_message_count p.queue ∷ h)

without_blanks-step :
    (key value : Text) (rest : Labels)
    → trim_space value ≡ value
    → is_empty value ≡ false
    → without_blanks ((key, value) ∷ rest) ≡ (key, value) ∷ without_blanks rest
unfolding without_blanks
without_blanks-step key value rest trimmed given = rw (trimmed, given) refl

no_labels : without_blanks [] ≡ []
unfolding without_blanks
no_labels = refl

abbrev kind_of : QueueDepthProbe → Text
kind_of p = if is_empty p.kind then codes "active" else p.kind

kind_of-trimmed :
    (p : QueueDepthProbe)
    → IsTrimmed p
    → (trim_space (kind_of p) ≡ kind_of p) × (is_empty (kind_of p) ≡ false)
unfolding trim_space
kind_of-trimmed p i = elim (Bool-cases (is_empty p.kind)) [
  | inl blank ↦ rw blank (refl, refl)
  | inr given ↦ rw given (i.kind_trimmed, given)
]

depth_labels-kept :
    (p : QueueDepthProbe)
    → IsTrimmed p
    → is_empty p.queue ≡ false
    → allowed_labels (depth_labels p) ≡ depth_labels p
unfolding depth_labels AllowedName same_text
depth_labels-kept p i named =
    let (trimmed, given) = kind_of-trimmed p i in
    allowed_labels-without_blanks (depth_labels p) (refl, (refl, tt)) (omega arith)
    ∙ without_blanks-step (codes "queue") p.queue ((codes "kind", kind_of p) ∷ []) i.queue_trimmed
        named
    ∙ ap (λ rest. (codes "queue", p.queue) ∷ rest)
        (without_blanks-step (codes "kind") (kind_of p) [] trimmed given
          ∙ ap (λ rest. (codes "kind", kind_of p) ∷ rest) no_labels)

read_depth-IsGauged :
    (p : QueueDepthProbe) (h : List DepthCall) (count : Result Text ℤ)
    → IsTrimmed p
    → is_empty p.queue ≡ false
    → IsGauged p h (read_depth p count (active_message_count p.queue ∷ h))
unfolding read_depth
read_depth-IsGauged p h (err e) i named = inr refl
read_depth-IsGauged p h (ok depth) i named = (
  set_gauge depth (depth_labels p),
  refl,
  (refl, unfold depth_labels label_value same_text in refl, depth_labels-kept p i named),
)

-- A probe that NewQueueDepthProbe made returns a depth only with one gauge of that depth and queue, none of whose
-- labels the exporter drops or changes, and records no gauge with an error.
pub probe-IsGauged :
    (reader : List DepthCall → Result Text ℤ) (has_reader : Bool) (queue_name kind : Text)
    (h : List DepthCall)
    → (let p = new_queue_depth_probe has_reader queue_name kind in
        IsGauged p h (probe reader (some p) h))
unfolding probe
probe-IsGauged reader has_reader queue_name kind h =
    let p = new_queue_depth_probe has_reader queue_name kind in
    elim (Bool-cases p.has_reader) [
      | inr missing ↦ rw missing (inl refl)
      | inl there ↦ elim (Bool-cases (is_empty p.queue)) [
        | inl blank ↦ rw (there, blank) (inl refl)
        | inr named ↦
            rw (there, named)
              (read_depth-IsGauged p h (reader (active_message_count p.queue ∷ h))
                (new-IsTrimmed has_reader queue_name kind) named)
      ]
    ]
