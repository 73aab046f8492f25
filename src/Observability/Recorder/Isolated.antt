-- ===== src/Observability/Recorder/Isolated.antt =====
-- What is read from the recorder of internal/observability/recorder.go is what was recorded.
use password_hook_service.Prelude.{
  ℕ, suc, ◌<◌, Bool, true, false, List, ◌≡◌, refl, ap, ◌∙◌, arith, if◌then◌else◌, ◌==◌, ==_iff, any,
  Text, ℤ, pos, All, Bool-cases, inl, inr,
}
use password_hook_service.Observability.Recorder.{
  Heap, Sample, Kind, counters, durations, gauges, copy_labels, copy_samples, append_to,
  record_sample, inc, observe_duration, set_gauge, samples_of, World, Recorded, after, Reach, start,
  makes, writes, incs, observes, sets, reads,
}
use password_hook_service.Observability.Recorder.Copies.{
  values, values-agree, values-kept, All-map, fresh_apart, copy_samples-IsCopied, any_labels,
  All-append_to, values-append_to,
}

-- The recorder's maps are its own, the callers' maps are on the heap, and the samples are those recorded.
record Inv (w : World) (log : Recorded) : Type 0 where
  below : (a : ℕ) → w.held a ≡ true → a < w.heap.next
  own :
      (kind : Kind) (name : Text)
      → All (λ s. (s.labels < w.heap.next) × (w.held s.labels ≡ false)) (w.recorder kind name)
  same : (kind : Kind) (name : Text) → values w.heap (w.recorder kind name) ≡ log kind name

record_sample-Inv :
    {w : World} {log : Recorded} (kind : Kind) (name : Text) (labels : ℕ) (duration value : ℤ)
    → Inv w log
    → Inv
        (after w (record_sample kind name labels duration value w.recorder w.heap))
        (append_to kind name (w.heap.at labels, duration, value) log)
unfolding record_sample copy_labels
record_sample-Inv {w} {log} kind name labels duration value inv =
    let next = w.heap.next in
    let h : Heap = record {
      next = suc next;
      at = λ a. if next == a then w.heap.at labels else w.heap.at a;
    } in
    let sample : Sample = record { labels = next; duration = duration; value = value } in
    let unheld : w.held next ≡ false = elim (Bool-cases (w.held next)) [
      | inl is_held ↦ absurd (omega (arith, inv.below next is_held))
      | inr not_held ↦ not_held
    ] in
    let copied : h.at next ≡ w.heap.at labels = rw ((==_iff next next).1 refl) refl in
    record {
      below = λ a is_held. let low = inv.below a is_held in omega (arith, low);
      own =
          All-append_to _ kind name sample w.recorder (omega arith, unheld)
            (λ k n.
              All-map (w.recorder k n) (λ s p. let low = p.0 in (omega (arith, low), p.1))
                (inv.own k n));
      same = λ k n.
          values-append_to h kind name sample w.recorder log
            (λ k' n'.
              values-kept w.heap h w.held (w.recorder k' n')
                (λ a low. rw (fresh_apart next a low) refl) (inv.own k' n')
              ∙ inv.same k' n')
            k n
          ∙ ap (λ m. append_to kind name (m, duration, value) log k n) copied;
    }

held_apart : (held : ℕ → Bool) (a b : ℕ) → held a ≡ true → held b ≡ false → (a == b) ≡ false
held_apart held a b here there = elim (Bool-cases (a == b)) [
  | inr other ↦ other
  | inl same ↦ let e = ap held ((==_iff a b).0 same) in cc (e, here, there)
]

Reach-Inv : {w : World} {log : Recorded} → Reach w log → Inv w log
unfolding inc observe_duration set_gauge values
Reach-Inv start = record { below = λ a e. cc e; own = λ kind name. tt; same = λ kind name. refl }
Reach-Inv (makes {w} m before) =
    let inv = Reach-Inv before in
    let next = w.heap.next in
    let h : Heap = record { next = suc next; at = λ a. if next == a then m else w.heap.at a } in
    record {
      below = λ a is_held. ground (arith, inv.below a, ==_iff next a);
      own = λ k n.
          All-map (w.recorder k n)
            (λ s p. let low = p.0 in (omega (arith, low), rw (fresh_apart next s.labels low) p.1))
            (inv.own k n);
      same = λ k n.
          values-kept w.heap h w.held (w.recorder k n) (λ a low. rw (fresh_apart next a low) refl)
            (inv.own k n)
          ∙ inv.same k n;
    }
Reach-Inv (writes {w} labels m is_held before) =
    let inv = Reach-Inv before in
    let h : Heap = record {
      next = w.heap.next;
      at = λ a. if labels == a then m else w.heap.at a;
    } in
    record {
      below = inv.below;
      own = inv.own;
      same = λ k n.
          values-agree w.heap h (w.recorder k n) (
            All-map (w.recorder k n)
              (λ s p. rw (held_apart w.held labels s.labels is_held p.1) refl) (inv.own k n))
          ∙ inv.same k n;
    }
Reach-Inv (incs name labels is_held before) =
    record_sample-Inv counters name labels (pos 0) (pos 1) (Reach-Inv before)
Reach-Inv (observes name duration labels is_held before) =
    record_sample-Inv durations name labels duration (pos 0) (Reach-Inv before)
Reach-Inv (sets name value labels is_held before) =
    record_sample-Inv gauges name labels (pos 0) value (Reach-Inv before)
Reach-Inv (reads {w} kind name before) =
    let inv = Reach-Inv before in
    let samples = w.recorder kind name in
    let c =
      copy_samples-IsCopied samples w.heap (All-map samples (λ s p. p.0) (inv.own kind name)) in
    let out : List Sample = (copy_samples samples w.heap).0 in
    let h : Heap = (copy_samples samples w.heap).1 in
    let grown = c.grown in
    record {
      below = λ a is_held. elim (Bool-cases (w.held a)) [
        | inl old ↦ let low = inv.below a old in omega (arith, low, grown)
        | inr not_old ↦ (any_labels out w.heap.next h.next a c.new (rw not_old at is_held)).1
      ];
      own = λ k n.
          All-map (w.recorder k n)
            (λ s p.
              let low = p.0 in
              (
                omega (arith, low, grown),
                elim (Bool-cases (any (λ x. x.labels == s.labels) out)) [
                  | inl copied ↦
                      let high = (any_labels out w.heap.next h.next s.labels c.new copied).0 in
                      absurd (omega (arith, low, high))
                  | inr apart ↦ rw (p.1, apart) refl
                ],
              ))
            (inv.own k n);
      same =
          λ k n. values-kept w.heap h w.held (w.recorder k n) c.kept (inv.own k n) ∙ inv.same k n;
    }

-- Whatever the callers do in between to the maps of labels that they passed to the recorder or were given by it, what a
-- read returns has the labels, the durations and the values as they were when each sample of the kind and the name was
-- recorded, in this order.
pub samples_of-IsRecorded :
    {w : World} {log : Recorded} (kind : Kind) (name : Text)
    → Reach w log
    → values (samples_of kind name w.recorder w.heap).1 (samples_of kind name w.recorder w.heap).0
      ≡ log kind name
samples_of-IsRecorded {w} kind name reach =
    let inv = Reach-Inv reach in
    let c =
      copy_samples-IsCopied (w.recorder kind name) w.heap
        (All-map (w.recorder kind name) (λ s p. p.0) (inv.own kind name)) in
    c.same ∙ inv.same kind name
