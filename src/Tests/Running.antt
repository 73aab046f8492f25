-- ===== src/Tests/Running.antt =====
-- The loop of the worker, and the run of an application, at concrete surroundings.
use password_hook_service.App.Flusher
use password_hook_service.App.Flusher.{ticks, leaves, closes, finishes}
use password_hook_service.App.Flusher.Last.{IsLast, CanClose, Reach-IsLast}
use password_hook_service.Prelude.{
  ◌+◌, ◌<◌, leb, length, true, false, none, some, List, [], ◌∷◌, ◌≡◌, ◌≢◌, refl, arith, codes, ok,
}
use password_hook_service.Worker.Run.{RunCall, Surroundings, run}
use password_hook_service.Worker.Run.Laws.{run-returns}
use password_hook_service.Worker.Run.Order.{IsInOrder, run-IsInOrder}
use password_hook_service.App.Runtime.{
  Runtime, server_returns, worker_returns, collect, started, Reach, start, later, collected,
}
use password_hook_service.App.Runtime.Shutdown.{first_error, Reach-first_error}
use password_hook_service.Tests.Wires.{wired_worker}

-- Two messages are received each time, and the context is done after nine calls.
abbrev busy_queue : Surroundings
busy_queue = record {
  is_canceled = λ h. leb 9 (length h);
  receive_result = λ h. ok (some (record { body = codes "1"; kind = codes "x" }) ∷ none ∷ []);
  wait_result = λ h. none;
  worker = λ h. wired_worker;
}

done_after_nine :
    (t : List RunCall) → 9 + length {A = RunCall} [] < length t → leb 9 (length t) ≡ true
done_after_nine t longer = ground (arith, longer)

run-returns_example : (run 10 busy_queue []).0 ≢ none
run-returns_example = run-returns busy_queue 9 [] done_after_nine

run-IsInOrder_example : IsInOrder busy_queue (run 3 busy_queue []).0 (run 3 busy_queue []).1
run-IsInOrder_example = run-IsInOrder busy_queue 3

-- The worker fails, and then the server returns without an error.
abbrev worker_failed : Runtime
worker_failed = record started { worker_running = false; channel = some (codes "x") ∷ [] }

abbrev failure_read : Runtime
failure_read = collected worker_failed (some (codes "x")) []

abbrev server_done : Runtime
server_done = record failure_read { server_running = false; channel = none ∷ [] }

abbrev all_read : Runtime
all_read = collected server_done none []

half_way : Reach 2 (some (codes "x") ∷ []) failure_read
half_way = later (later start (worker_returns (some (codes "x")) refl)) (collect refl (omega arith))

to_the_end : Reach 4 (some (codes "x") ∷ none ∷ []) all_read
to_the_end = later (later half_way (server_returns none refl)) (collect refl (omega arith))

Reach-first_error_example :
    (all_read.server_running ≡ false)
    × (all_read.worker_running ≡ false)
    × (all_read.canceled ≡ true)
    × (all_read.runtime_err ≡ first_error (some (codes "x") ∷ none ∷ []))
Reach-first_error_example = Reach-first_error to_the_end refl

-- The ticker fires once more after Close has begun.
ticked_then_closed :
    Flusher.Reach
      (Flusher.by_close ∷ Flusher.by_period ∷ [])
      (record { stopped = true; done = true; waiting = 0 })
ticked_then_closed =
    Flusher.later
      (Flusher.later (Flusher.later (Flusher.later Flusher.start closes) (ticks refl))
        (leaves refl refl))
      (finishes refl refl)

Reach-IsLast_example :
    IsLast (Flusher.by_close ∷ Flusher.by_period ∷ [])
    × CanClose (record { stopped = true; done = true; waiting = 0 })
Reach-IsLast_example = Reach-IsLast ticked_then_closed
