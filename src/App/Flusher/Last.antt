-- ===== src/App/Flusher/Last.antt =====
-- Close of periodicMetricFlusher of internal/app/app.go makes the last flush.
use password_hook_service.Prelude.{
  ℕ, zero, suc, ◌<◌, true, false, List, [], ◌∷◌, ◌++◌, ◌≡◌, refl, ap, ◌∙◌, arith, ◌⊎◌, inl, inr,
  Bool-cases,
}
use password_hook_service.App.Flusher.{
  Flusher, Flush, by_period, by_close, Step, ticks, leaves, closes, finishes, Reach, start, later,
}

abbrev pub times : ℕ → Flush → List Flush
times zero f = []
times (suc n) f = f ∷ times n f

-- A waiting Close finishes at the next step, or when the routine has left at the next step.
unfoldable CanFinish : Flusher → Type 0
CanFinish s =
    ((t : Flusher) × Step s (by_close ∷ []) t)
    ⊎ ((t : Flusher) × Step s [] t × ((t' : Flusher) × Step t (by_close ∷ []) t'))

record IsOrderly (made : List Flush) (s : Flusher) : Type 0 where
  closing : ℕ
  ticked : ℕ
  in_order : made ≡ times closing by_close ++ times ticked by_period
  none_early : s.done ≡ false → closing ≡ 0
  stops : 0 < s.waiting → s.stopped ≡ true

Step-IsOrderly :
    {made more : List Flush} {s t : Flusher}
    → IsOrderly made s
    → Step s more t
    → IsOrderly (more ++ made) t
Step-IsOrderly i (ticks running) = record {
  closing = 0;
  ticked = suc i.ticked;
  in_order =
      ap (λ q. by_period ∷ q)
        (i.in_order
          ∙ ap (λ n. times n by_close ++ times i.ticked by_period) (i.none_early running));
  none_early = λ q. refl;
  stops = i.stops;
}
Step-IsOrderly i (leaves stop running) = record {
  closing = i.closing;
  ticked = i.ticked;
  in_order = i.in_order;
  none_early = λ q. i.none_early running;
  stops = i.stops;
}
Step-IsOrderly i closes = record {
  closing = i.closing;
  ticked = i.ticked;
  in_order = i.in_order;
  none_early = i.none_early;
  stops = λ q. refl;
}
Step-IsOrderly {s = s} i (finishes {n} waits left) = record {
  closing = suc i.closing;
  ticked = i.ticked;
  in_order = ap (λ q. by_close ∷ q) i.in_order;
  none_early = λ running. cc (left, running);
  stops = λ q. i.stops (omega (arith, waits));
}

Reach-IsOrderly : {made : List Flush} {s : Flusher} → Reach made s → IsOrderly made s
Reach-IsOrderly start = record {
  closing = 0;
  ticked = 0;
  in_order = refl;
  none_early = λ q. refl;
  stops = λ q. elim q [ ];
}
Reach-IsOrderly (later r step) = Step-IsOrderly (Reach-IsOrderly r) step

can_finish :
    {made : List Flush} {s : Flusher} {n : ℕ} → IsOrderly made s → s.waiting ≡ suc n → CanFinish s
unfolding CanFinish
can_finish {s = s} i waits = elim (Bool-cases s.done) [
  | inl left ↦ inl (_, finishes waits left)
  | inr running ↦ inr (_, leaves (i.stops (omega (arith, waits))) running, (_, finishes waits refl))
]

-- All flushes of calls of Close come after those of the ticker.
pub record IsLast (made : List Flush) : Type 0 where
  pub closing : ℕ
  pub ticked : ℕ
  pub in_order : made ≡ times closing by_close ++ times ticked by_period

-- A further call of Close can make its flush.
pub CanClose : Flusher → Type 0
CanClose s = CanFinish (record s { stopped = true; waiting = suc s.waiting })

-- In every run, the flushes of the ticker come before all those of Close, and a further call of Close can flush
-- and return, at once or when the routine of the ticker has left.
pub Reach-IsLast : {made : List Flush} {s : Flusher} → Reach made s → IsLast made × CanClose s
unfolding CanClose
Reach-IsLast r =
    let i = Reach-IsOrderly r in
    (
      record { closing = i.closing; ticked = i.ticked; in_order = i.in_order },
      can_finish (Reach-IsOrderly (later r closes)) refl,
    )
