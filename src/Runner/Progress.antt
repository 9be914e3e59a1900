-- ===== src/Runner/Progress.antt =====
-- `run_with_progress` of run.py: the process of a test, the loop that reads what it prints, and the
-- thread of the timer that kills it. They take turns in any order. Times are milliseconds of one clock
-- that does not go back. What is printed for an update is the time it shows; its text is not modelled.
pub mod Invariant
pub mod Deadline
pub mod Laws
use drbd9_tests.Prelude.{
  ℕ, zero, suc, ◌+◌, ◌-◌, ◌*◌, Bool, true, false, not, ◌&&◌, ◌||◌, Option, none, some, List, [],
  ◌∷◌, ◌++◌, ltb, leb, is_some, if◌then◌else◌,
}
use drbd9_tests.Runner.Loop.{ReturnCode, signalled}

-- What the main thread does next: read a line, `p.wait()`, `timer.cancel()`, `now = time.time()`,
-- `return`, and nothing.
pub data Phase : Type 0 where
  reading waiting cancelling stamping returning returned : Phase

-- `do_timeout` has two statements: after the first, `fired`, after the second, `done`. If the first
-- finds no process, it raises, and the thread ends: `lost`.
pub data Timer : Type 0 where
  armed fired done lost cancelled : Timer

pub record State : Type 0 where
  pub clock : ℕ
  pub start : ℕ
  pub now : ℕ
  pub phase : Phase
  pub timer : Timer
  pub timeout : Bool
  -- the status of the process once it has ended, whether it was waited for, and whether a signal
  -- that kills it was sent to it while it ran
  pub status : Option ReturnCode
  pub reaped : Bool
  pub killed : Bool
  pub shown : List ℕ
  pub result : Option (ReturnCode × ℕ × Bool)

-- The five minutes of `TIMEOUT_SEC`.
abbrev pub limit : ℕ
limit = 5 * 60 * 1000

-- The state with the timer started.
abbrev pub started : ℕ → State
started t = record {
  clock = t;
  start = t;
  now = t;
  phase = reading;
  timer = armed;
  timeout = false;
  status = none;
  reaped = false;
  killed = false;
  shown = [];
  result = none;
}

-- `readline` gave a line: `now - before > 0.1` shows the time since the start.
unfoldable pub read_line : State → State
read_line s = record s {
  now = s.clock;
  shown = if ltb 100 (s.clock - s.now) then s.shown ++ (s.clock - s.start) ∷ [] else s.shown;
}

-- `readline` gave nothing.
unfoldable pub read_end : State → State
read_end s = record s { now = s.clock; phase = waiting }

-- `p.wait()` blocks while the process runs.
unfoldable pub wait : Option ReturnCode → State → Option State
wait none s = none
wait (some code) s = some (record s { reaped = true; phase = cancelling })

-- `timer.cancel()` has no effect on a timer that has fired.
unfoldable pub cancel : Timer → Timer
cancel armed = cancelled
cancel fired = fired
cancel done = done
cancel lost = lost
cancel cancelled = cancelled

unfoldable pub give_result : Option ReturnCode → State → Option State
give_result none s = none
give_result (some code) s =
    some (record s { result = some (code, s.now - s.start, s.timeout); phase = returned })

-- The next step of the main thread; the test is whether `readline` gives a line.
unfoldable pub main_step : Bool → Phase → State → Option State
unfolding read_line read_end wait cancel give_result
main_step true reading s = some (read_line s)
main_step false reading s = some (read_end s)
main_step line waiting s = wait s.status s
main_step line cancelling s = some (record s { timer = cancel s.timer; phase = stamping })
main_step line stamping s = some (record s { now = s.clock; phase = returning })
main_step line returning s = give_result s.status s
main_step line returned s = none

-- `os.killpg`: it raises if the process was waited for, and has no effect if the process has ended.
unfoldable pub kill : State → State
kill s =
    if s.reaped
    then record s { timer = lost }
    else record s { timer = fired; killed = if is_some s.status then s.killed else true }

-- The next step of the timer.
unfoldable pub timer_step : Timer → State → Option State
unfolding kill
timer_step armed s = if leb (s.start + limit) s.clock then some (kill s) else none
timer_step fired s = some (record s { timeout = true; timer = done })
timer_step done s = none
timer_step lost s = none
timer_step cancelled s = none

-- The process ends by itself, or as the signal makes it end.
unfoldable pub exit : ReturnCode → State → Option State
exit code s = if is_some s.status || s.killed then none else some (record s { status = some code })

unfoldable pub die : State → Option State
die s =
    if not (is_some s.status) && s.killed
    then some (record s { status = some (signalled 9) })
    else none

-- Who takes the next turn.
pub data Turn : Type 0 where
  elapse : ℕ → Turn
  main : Bool → Turn
  expire : Turn
  exits : ReturnCode → Turn
  dies : Turn

unfoldable pub step : Turn → State → Option State
unfolding main_step timer_step exit die
step (elapse t) s = some (record s { clock = s.clock + t })
step (main line) s = main_step line s.phase s
step expire s = timer_step s.timer s
step (exits code) s = exit code s
step dies s = die s

unfoldable pub then_run : (State → Option State) → Option State → Option State
then_run f none = none
then_run f (some s) = f s

-- A schedule of turns; `none` if one of them could not be taken.
unfoldable pub run : List Turn → State → Option State
unfolding step then_run
run [] s = some s
run (turn ∷ turns) s = then_run (run turns) (step turn s)
