-- ===== src/Runner/Progress/Laws.antt =====
-- What the result of `run_with_progress` says of a run, whatever the order of the turns.
use drbd9_tests.Prelude.{
  ◌≡◌, refl, ℕ, ◌+◌, ◌≤◌, Bool, true, false, ◌&&◌, Option, none, some, List, [], ◌∷◌, ltb, arith,
}
use drbd9_tests.Runner.Loop.{ReturnCode, signalled, is_success}
use drbd9_tests.Runner.Progress.{
  State, limit, started, Turn, elapse, main, expire, exits, dies, step, then_run, run,
}
use drbd9_tests.Runner.Progress.Invariant.{IsTrue, IsSound, main_step-IsSound}
use drbd9_tests.Runner.Progress.Deadline.{
  timer_step-IsSound, exit-IsSound, die-IsSound, elapse-IsSound,
}

step-IsSound : (turn : Turn) (s t : State) → IsSound s → step turn s ≡ some t → IsSound t
unfolding step
step-IsSound (elapse d) s t i h =
    let same : record s { clock = s.clock + d } ≡ t = cc in rw (← same) (elapse-IsSound d s i)
step-IsSound (main line) s t i h = main_step-IsSound line s.phase s t refl i h
step-IsSound expire s t i h = timer_step-IsSound s.timer s t refl i h
step-IsSound (exits code) s t i h = exit-IsSound code s t i h
step-IsSound dies s t i h = die-IsSound s t i h

then_run-eq-some :
    (f : State → Option State) (o : Option State) (t : State)
    → then_run f o ≡ some t
    → (u : State) × (o ≡ some u) × (f u ≡ some t)
unfolding then_run
then_run-eq-some f none t h = absurd (cc)
then_run-eq-some f (some u) t h = (u, refl, h)

run-IsSound : (turns : List Turn) (s t : State) → IsSound s → run turns s ≡ some t → IsSound t
unfolding run
run-IsSound [] s t i h = let same : s ≡ t = cc in rw (← same) i
run-IsSound (turn ∷ turns) s t i h =
    let (u, taken, rest) = then_run-eq-some (run turns) (step turn s) t h in
    run-IsSound turns u t (step-IsSound turn s u i taken) rest

started-IsSound : (t : ℕ) → IsSound (started t)
started-IsSound t = record {
  now_past = omega arith;
  now_seen = omega arith;
  fired_late = λ h. absurd (cc);
  timeout_fired = λ h. absurd (cc);
  not_armed = λ h. absurd (cc);
  stamped_late = λ h. absurd (cc);
  reaped_waited = refl;
  reaped_ended = λ h. absurd (cc);
  killed_status = λ h. tt;
  result_true = tt;
}

in_time :
    (timeout : Bool) (run_time : ℕ)
    → (timeout ≡ true → limit ≤ run_time)
    → (timeout && ltb run_time limit) ≡ false
in_time true run_time h = let late = h refl in ground arith
in_time false run_time h = refl

killed_fails :
    (dead : Bool) {code : ReturnCode}
    → (dead ≡ true → code ≡ signalled 9)
    → (dead && is_success code) ≡ false
killed_fails true h = rw (h refl) refl
killed_fails false h = refl

result_of :
    (s : State) (code : ReturnCode) (run_time : ℕ) (timeout : Bool)
    → IsSound s
    → s.result ≡ some (code, run_time, timeout)
    → (s.status ≡ some code)
      × ((timeout && ltb run_time limit) ≡ false)
      × ((s.killed && is_success code) ≡ false)
result_of s code run_time timeout i h =
    let (ended, late) : IsTrue s (some (code, run_time, timeout)) = rw h at i.result_true in
    (
      ended,
      in_time timeout run_time late,
      killed_fails s.killed (λ k. rw ended at i.killed_status k),
    )

-- In whatever order the main thread, the timer and the process take their turns: when
-- `run_with_progress` has returned, its status is the one with which the process ended, it reports a
-- timeout only if the run took at least the limit, and it never reports success for a process that the
-- timer killed, also if the main thread returns before the timer has set `timeout`.
pub run-result :
    (start : ℕ) (turns : List Turn) (s : State) (code : ReturnCode) (run_time : ℕ) (timeout : Bool)
    → run turns (started start) ≡ some s
    → s.result ≡ some (code, run_time, timeout)
    → (s.status ≡ some code)
      × ((timeout && ltb run_time limit) ≡ false)
      × ((s.killed && is_success code) ≡ false)
run-result start turns s code run_time timeout ran gave =
    result_of s code run_time timeout
      (run-IsSound turns (started start) s (started-IsSound start) ran) gave
