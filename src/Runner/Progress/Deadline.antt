-- ===== src/Runner/Progress/Deadline.antt =====
-- The steps of the timer, of the process and of the clock keep the invariant of `run_with_progress`.
use drbd9_tests.Prelude.{
  ◌≡◌, refl, ℕ, ◌+◌, ◌≤◌, Bool, true, false, Option, none, some, leb, is_some, if◌then◌else◌, arith,
}
use drbd9_tests.Runner.Loop.{ReturnCode, signalled}
use drbd9_tests.Runner.Progress.{
  Phase, reading, waiting, cancelling, stamping, returning, returned, Timer, armed, fired, done,
  lost, cancelled, State, limit, kill, timer_step, exit, die,
}
use drbd9_tests.Runner.Progress.Invariant.{
  is_armed, disarmed, stamped, EndsKilled, IsTrue, IsSound, tested, untested,
}

pub elapse-IsSound : (t : ℕ) (s : State) → IsSound s → IsSound (record s { clock = s.clock + t })
elapse-IsSound t s i = record {
  now_past = i.now_past;
  now_seen = omega arith;
  fired_late = λ h. let late = i.fired_late h in omega arith;
  timeout_fired = i.timeout_fired;
  not_armed = i.not_armed;
  stamped_late = i.stamped_late;
  reaped_waited = i.reaped_waited;
  reaped_ended = i.reaped_ended;
  killed_status = i.killed_status;
  result_true = i.result_true;
}

stamped-disarmed : (p : Phase) → stamped p ≡ true → disarmed p ≡ true
stamped-disarmed reading h = h
stamped-disarmed waiting h = h
stamped-disarmed cancelling h = h
stamped-disarmed stamping h = refl
stamped-disarmed returning h = h
stamped-disarmed returned h = h

-- An armed timer whose time is up: no one has cancelled it, so the main thread has not taken the time.
fire-IsSound :
    (next : Timer) (dead : Bool) (s : State)
    → s.timer ≡ armed
    → s.start + limit ≤ s.clock
    → is_armed next ≡ false
    → (dead ≡ true → EndsKilled s.status)
    → IsSound s
    → IsSound (record s { timer = next; killed = dead })
fire-IsSound next dead s p late off by_signal i = record {
  now_past = i.now_past;
  now_seen = i.now_seen;
  fired_late = λ h. late;
  timeout_fired = λ h. let before = i.timeout_fired h in absurd (cc);
  not_armed = λ h. off;
  stamped_late = λ h k. let off = i.not_armed (stamped-disarmed s.phase h) in absurd (cc);
  reaped_waited = i.reaped_waited;
  reaped_ended = i.reaped_ended;
  killed_status = by_signal;
  result_true = i.result_true;
}

by_kill :
    (o : Option ReturnCode) (dead : Bool)
    → (dead ≡ true → EndsKilled o)
    → (if is_some o then dead else true) ≡ true
    → EndsKilled o
by_kill none dead before h = tt
by_kill (some code) dead before h = before h

kill-IsSound :
    (s : State) → s.timer ≡ armed → s.start + limit ≤ s.clock → IsSound s → IsSound (kill s)
unfolding kill
kill-IsSound s p late i = kill_by s.reaped
  where
    kill_by :
        (gone : Bool)
        → IsSound (
            if gone
            then record s { timer = lost }
            else record s { timer = fired; killed = if is_some s.status then s.killed else true })
    kill_by true = fire-IsSound lost s.killed s p late refl i.killed_status i
    kill_by false = fire-IsSound fired _ s p late refl (by_kill s.status s.killed i.killed_status) i

flag-IsSound :
    (s : State) → s.timer ≡ fired → IsSound s → IsSound (record s { timeout = true; timer = done })
flag-IsSound s p i = record {
  now_past = i.now_past;
  now_seen = i.now_seen;
  fired_late = λ h. i.fired_late (rw p refl);
  timeout_fired = λ h. refl;
  not_armed = λ h. refl;
  stamped_late = λ h k. i.stamped_late h (rw p refl);
  reaped_waited = i.reaped_waited;
  reaped_ended = i.reaped_ended;
  killed_status = i.killed_status;
  result_true = i.result_true;
}

pub timer_step-IsSound :
    (p : Timer) (s t : State) → s.timer ≡ p → IsSound s → timer_step p s ≡ some t → IsSound t
unfolding timer_step
timer_step-IsSound armed s t p i h =
    let (up, same) = tested (leb (s.start + limit) s.clock) (kill s) t h in
    rw (← same) (kill-IsSound s p (ground (arith, up)) i)
timer_step-IsSound fired s t p i h =
    let same : record s { timeout = true; timer = done } ≡ t = cc in
    rw (← same) (flag-IsSound s p i)
timer_step-IsSound done s t p i h = absurd (cc)
timer_step-IsSound lost s t p i h = absurd (cc)
timer_step-IsSound cancelled s t p i h = absurd (cc)

no_result :
    (s t : State) (r : Option (ReturnCode × ℕ × Bool))
    → is_some s.status ≡ false
    → IsTrue s r
    → IsTrue t r
no_result s t none running held = tt
no_result s t (some (code, run_time, timeout)) running (ended, late) = absurd (cc)

-- The process ends, as a signal makes it end if one was sent.
end-IsSound :
    (code : ReturnCode) (s : State)
    → is_some s.status ≡ false
    → (s.killed ≡ true → code ≡ signalled 9)
    → IsSound s
    → IsSound (record s { status = some code })
end-IsSound code s running by_signal i = record {
  now_past = i.now_past;
  now_seen = i.now_seen;
  fired_late = i.fired_late;
  timeout_fired = i.timeout_fired;
  not_armed = i.not_armed;
  stamped_late = i.stamped_late;
  reaped_waited = i.reaped_waited;
  reaped_ended = λ h. refl;
  killed_status = by_signal;
  result_true = no_result s (record s { status = some code }) s.result running i.result_true;
}

pub exit-IsSound : (code : ReturnCode) (s t : State) → IsSound s → exit code s ≡ some t → IsSound t
unfolding exit
exit-IsSound code s t i h =
    let (running, same) = untested _ (record s { status = some code }) t h in
    rw (← same)
      (end-IsSound code s (ground (arith, running)) (λ k. absurd (ground (arith, running, k))) i)

pub die-IsSound : (s t : State) → IsSound s → die s ≡ some t → IsSound t
unfolding die
die-IsSound s t i h =
    let (running, same) = tested _ (record s { status = some (signalled 9) }) t h in
    rw (← same) (end-IsSound (signalled 9) s (ground (arith, running)) (λ k. refl) i)
