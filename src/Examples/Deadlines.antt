-- ===== src/Examples/Deadlines.antt =====
-- Runs of `run_with_progress` of run.py: the main thread returns between the two statements of the
-- timer's function, and a process ends by itself before the timer kills it.
use drbd9_tests.Prelude.{◌≡◌, refl, ◌&&◌, true, false, none, some, List, [], ◌∷◌, ltb}
use drbd9_tests.Runner.Loop.{exited, signalled, is_success}
use drbd9_tests.Runner.Progress.{
  State, Turn, main, elapse, expire, exits, dies, started, limit, returned, fired, run,
}
use drbd9_tests.Runner.Progress.Laws.{run-result}

abbrev turns : List Turn
turns =
    elapse 40
    ∷ main true
    ∷ elapse 299960
    ∷ main true
    ∷ expire
    ∷ elapse 5
    ∷ dies
    ∷ main false
    ∷ main true
    ∷ main true
    ∷ main true
    ∷ main true
    ∷ []

abbrev after : State
after = record {
  clock = 301005;
  start = 1000;
  now = 301005;
  phase = returned;
  timer = fired;
  timeout = false;
  status = some (signalled 9);
  reaped = true;
  killed = true;
  shown = 300000 ∷ [];
  result = some (signalled 9, 300005, false);
}

ran : run turns (started 1000) ≡ some after
unfolding run
ran = refl

run-result_example :
    (after.status ≡ some (signalled 9))
    × ((false && ltb 300005 limit) ≡ false)
    × ((after.killed && is_success (signalled 9)) ≡ false)
run-result_example = run-result 1000 turns after (signalled 9) 300005 false ran refl

-- A process that ended well, but was not waited for when the timer fired, is reported with a timeout
-- and the status 0.
abbrev late_turns : List Turn
late_turns =
    elapse 300000
    ∷ exits (exited 0)
    ∷ expire
    ∷ expire
    ∷ main false
    ∷ main true
    ∷ main true
    ∷ main true
    ∷ main true
    ∷ []

timeout_with_success :
    elim (run late_turns (started 0)) [ none ↦ none | some s ↦ s.result ]
    ≡ some (exited 0, 300000, true)
unfolding run
timeout_with_success = refl
