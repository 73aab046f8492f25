-- ===== src/App/Wiring/Leaks.antt =====
-- What New of internal/app/app.go leaves open, and what it and Run close.
use password_hook_service.Prelude.{
  Bool, true, false, Option, none, some, List, [], ◌++◌, append-nil, tally, ◌≡◌, refl, sym, ◌∙◌,
  arith, Text, Result, ok, err, Unicode,
}
use password_hook_service.Config
use password_hook_service.Config.Defs.{Config, Parsers}
use password_hook_service.App.{
  Resource, graph_credential, graph_client, graph_processor, password_codec, hmac_gate,
  password_worker, AppCall, Answers, Errors, or_close, closing_rest, build_component,
  close_after_wiring_error, invalid_config, built,
}
use password_hook_service.App.Wiring.{
  App, Build, succeed, or_return, returning_rest, new_observability_runtime,
  new_service_bus_runtime, new_sync_status_runtime, new_with_queue_with_recorder,
  new_with_worker_dependencies, closers_with, new_with_resources, new_with_store, new_validated,
  new, unless_invalid, run,
}
use password_hook_service.App.Wiring.Acquired.{
  acquired, closed, IsHeld, IsReleased, Sound, close_after-Sound, or_close-Sound, close-acquired,
  closed-close_app_resources,
}
use password_hook_service.App.Wiring.Steps.{
  held-IsReleased, build_or_close, or_return-Sound, themselves, succeed-Sound, fail_with-Sound,
}
use password_hook_service.App.Wiring.Parts.{
  service_bus-Sound, observability-Sound, sync_status-Sound, status_closers,
}

abbrev app_closers : App → List Resource
app_closers x = x.closers

module _ (a : Answers) where
  with_queue-Sound :
      (own : List Resource) (h : List AppCall)
      → IsHeld a own h
      → Sound a app_closers [] (new_with_queue_with_recorder a true own h)
  unfolding new_with_queue_with_recorder
  with_queue-Sound own h i =
      build_or_close a app_closers hmac_gate [] own _ h i
        (λ _ t j. succeed-Sound a app_closers [] (record { has_worker = false; closers = own }) t j)

  with_queue-keeps :
      (own : List Resource) (h : List AppCall) (x : App)
      → (new_with_queue_with_recorder a true own h).0 ≡ ok x
      → x.closers ≡ own
  unfolding new_with_queue_with_recorder or_close build_component built closing_rest succeed
      close_after_wiring_error
  with_queue-keeps own h x e = ground arith

  abbrev with_worker : List Resource → App → Build App
  with_worker own x =
      or_close a own (build_component a password_worker)
        (λ _. succeed (record x { has_worker = true }))

  with_worker-Sound :
      (own : List Resource) (r : Result Errors App) (t : List AppCall)
      → ((x : App) → r ≡ ok x → x.closers ≡ own)
      → Sound a app_closers [] (r, t)
      → Sound a app_closers [] (returning_rest r (with_worker own) t)
  unfolding returning_rest
  with_worker-Sound own (err e) t keeps s = s
  with_worker-Sound own (ok x) t keeps s =
      let same = keeps x refl in
      build_or_close a app_closers password_worker [] own _ t (rw same at s)
        (λ _ t2 i. succeed-Sound a app_closers [] (record x { has_worker = true }) t2 (rw same i))

  workers-Sound :
      (own : List Resource) (h : List AppCall)
      → IsHeld a own h
      → Sound a app_closers [] (new_with_worker_dependencies a true true own h)
  unfolding new_with_worker_dependencies or_return
  workers-Sound own h i =
      let (r, t) = new_with_queue_with_recorder a true own h in
      with_worker-Sound own r t (with_queue-keeps own h) (with_queue-Sound own h i)

  resources-Sound :
      (own : List Resource) (h : List AppCall)
      → IsHeld a own h
      → Sound a app_closers [] (new_with_resources a own h)
  unfolding new_with_resources
  resources-Sound own h i = build_or_close a app_closers graph_credential [] own _ h i (λ _ t1 i1.
      build_or_close a app_closers graph_client [] own _ t1 i1 (λ _ t2 i2.
        build_or_close a app_closers graph_processor [] own _ t2 i2 (λ _ t3 i3.
          build_or_close a app_closers password_codec [] own _ t3 i3
            (λ _ t4 i4. workers-Sound own t4 i4))))

  stored-Sound :
      (has_store : Bool) (own : List Resource) (h : List AppCall)
      → IsHeld a own h
      → Sound a app_closers [] (new_with_store a has_store own h)
  unfolding new_with_store
  stored-Sound true own h i = resources-Sound own h i
  stored-Sound false own h i =
      close_after-Sound a app_closers [] own _ h (held-IsReleased a own h i)

  closers_with-append :
      (xs : List Resource) (r : Option Resource) → closers_with xs r ≡ xs ++ closers_with [] r
  unfolding closers_with
  closers_with-append xs none = sym (append-nil xs)
  closers_with-append xs (some r) = refl

  validated-Sound :
      (c : Config) (h : List AppCall) → IsHeld a [] h → Sound a app_closers [] (new_validated a c h)
  unfolding new_validated
  validated-Sound c h i =
      or_return-Sound a app_closers themselves [] (new_observability_runtime a c) _ h
        (observability-Sound a c h i)
        (λ monitors t1 i1.
          or_close-Sound a app_closers themselves [] monitors (new_service_bus_runtime a c) _ t1
            (service_bus-Sound a c monitors t1 i1)
            (λ bus t2 i2.
              or_close-Sound a app_closers status_closers [] (monitors ++ bus)
                (new_sync_status_runtime a c) _ t2 (sync_status-Sound a c (monitors ++ bus) t2 i2)
                (λ status t3 i3.
                  stored-Sound status.has_store _ t3
                    (rw (closers_with-append (monitors ++ bus) status.closer) i3))))

  nothing-IsHeld : IsHeld a [] []
  unfolding acquired closed
  nothing-IsHeld = record { acquired_all = refl; none_closed = refl }

  invalid-Sound :
      (c : Config) (e : Option Text)
      → Sound a app_closers [] (unless_invalid a e (new_validated a c) [])
  unfolding unless_invalid
  invalid-Sound c none = validated-Sound c [] nothing-IsHeld
  invalid-Sound c (some e) = fail_with-Sound a app_closers (invalid_config e) [] [] nothing-IsHeld

  new-Sound : (u : Unicode) (p : Parsers) (c : Config) → Sound a app_closers [] (new a u p c [])
  unfolding new
  new-Sound u p c = invalid-Sound c (Config.validate u p c)

  failed-IsReleased :
      (r : Result Errors App) (h : List AppCall) {e : Errors}
      → Sound a app_closers [] (r, h)
      → r ≡ err e
      → IsReleased a [] h
  failed-IsReleased (err x) h s e = s
  failed-IsReleased (ok x) h s e = cc e

  made-IsHeld :
      (r : Result Errors App) (h : List AppCall) {x : App}
      → Sound a app_closers [] (r, h)
      → r ≡ ok x
      → IsHeld a x.closers h
  made-IsHeld (err x) h s e = cc e
  made-IsHeld (ok x) h {x = y} s e = let same : x ≡ y = cc e in rw same at s

  -- A construction that fails leaks nothing: whatever the step is at which New returns an error, each
  -- resource was closed as many times as it was opened.
  pub new-releases :
      (u : Unicode) (p : Parsers) (c : Config) {e : Errors}
      → (new a u p c []).0 ≡ err e
      → (test : Resource → Bool)
      → tally test (closed (new a u p c []).1) ≡ tally test (acquired a (new a u p c []).1)
  new-releases u p c failed test =
      omega (arith, failed-IsReleased _ _ (new-Sound u p c) failed test)

  -- An application that New returned closes, when it has run, the resources that were opened, each once
  -- and in the order in which they were opened, also if some of them fail to close.
  pub run-closes :
      (u : Unicode) (p : Parsers) (c : Config) {x : App} (failure : Option Text)
      → (new a u p c []).0 ≡ ok x
      → closed (run a x failure (new a u p c []).1).1
        ≡ acquired a (run a x failure (new a u p c []).1).1
  unfolding run
  run-closes u p c {x} failure made =
      let (_, h) = new a u p c [] in
      let i = made-IsHeld _ _ (new-Sound u p c) made in
      closed-close_app_resources a x.closers h
      ∙ rw (i.none_closed) (sym (close-acquired a x.closers h ∙ i.acquired_all))
