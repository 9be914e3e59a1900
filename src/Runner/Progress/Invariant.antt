-- ===== src/Runner/Progress/Invariant.antt =====
-- What holds in every state of `run_with_progress`, and the steps of its main thread.
use drbd9_tests.Prelude.{
  ◌≡◌, refl, sym, ◌∙◌, ℕ, ◌+◌, ◌-◌, ◌≤◌, Bool, true, false, Option, none, some, is_some,
  if◌then◌else◌, arith,
}
use drbd9_tests.Runner.Loop.{ReturnCode, signalled}
use drbd9_tests.Runner.Progress.{
  Phase, reading, waiting, cancelling, stamping, returning, returned, Timer, armed, fired, done,
  lost, cancelled, State, limit, read_line, read_end, wait, cancel, give_result, main_step,
}

abbrev pub is_armed : Timer → Bool
is_armed armed = true
is_armed fired = false
is_armed done = false
is_armed lost = false
is_armed cancelled = false

abbrev pub has_fired : Timer → Bool
has_fired armed = false
has_fired fired = true
has_fired done = true
has_fired lost = true
has_fired cancelled = false

-- Whether the main thread has waited, cancelled the timer, and taken the time.
abbrev pub waited : Phase → Bool
waited reading = false
waited waiting = false
waited cancelling = true
waited stamping = true
waited returning = true
waited returned = true

abbrev pub disarmed : Phase → Bool
disarmed cancelling = false
disarmed p = waited p

abbrev pub stamped : Phase → Bool
stamped stamping = false
stamped p = disarmed p

abbrev pub EndsKilled : Option ReturnCode → Type 0
EndsKilled none = Unit
EndsKilled (some code) = code ≡ signalled 9

-- What a result says: a timeout means that the run took at least the limit, and if the process was
-- killed, its status is that of the signal.
abbrev pub IsTrue : State → Option (ReturnCode × ℕ × Bool) → Type 0
IsTrue s none = Unit
IsTrue s (some (code, run_time, timeout)) =
    (s.status ≡ some code) × (timeout ≡ true → limit ≤ run_time)

pub record IsSound (s : State) : Type 0 where
  pub now_past : s.start ≤ s.now
  pub now_seen : s.now ≤ s.clock
  pub fired_late : has_fired s.timer ≡ true → s.start + limit ≤ s.clock
  pub timeout_fired : s.timeout ≡ true → has_fired s.timer ≡ true
  pub not_armed : disarmed s.phase ≡ true → is_armed s.timer ≡ false
  pub stamped_late : stamped s.phase ≡ true → has_fired s.timer ≡ true → s.start + limit ≤ s.now
  pub reaped_waited : waited s.phase ≡ s.reaped
  pub reaped_ended : s.reaped ≡ true → is_some s.status ≡ true
  pub killed_status : s.killed ≡ true → EndsKilled s.status
  pub result_true : IsTrue s s.result

-- A step that is taken only if a test says so.
pub tested : (c : Bool) (u t : State) → (if c then some u else none) ≡ some t → (c ≡ true) × (u ≡ t)
tested true u t h = (refl, cc)
tested false u t h = absurd (cc)

pub untested :
    (c : Bool) (u t : State) → (if c then none else some u) ≡ some t → (c ≡ false) × (u ≡ t)
untested true u t h = absurd (cc)
untested false u t h = (refl, cc)

read_line-IsSound : (s : State) → s.phase ≡ reading → IsSound s → IsSound (read_line s)
unfolding read_line
read_line-IsSound s p i = record {
  now_past = omega arith;
  now_seen = omega arith;
  fired_late = i.fired_late;
  timeout_fired = i.timeout_fired;
  not_armed = i.not_armed;
  stamped_late = rw p (λ h. absurd (cc));
  reaped_waited = i.reaped_waited;
  reaped_ended = i.reaped_ended;
  killed_status = i.killed_status;
  result_true = i.result_true;
}

read_end-IsSound : (s : State) → s.phase ≡ reading → IsSound s → IsSound (read_end s)
unfolding read_end
read_end-IsSound s p i = record {
  now_past = omega arith;
  now_seen = omega arith;
  fired_late = i.fired_late;
  timeout_fired = i.timeout_fired;
  not_armed = λ h. absurd (cc);
  stamped_late = λ h. absurd (cc);
  reaped_waited = sym (rw p refl) ∙ i.reaped_waited;
  reaped_ended = i.reaped_ended;
  killed_status = i.killed_status;
  result_true = i.result_true;
}

wait-IsSound :
    (o : Option ReturnCode) (s t : State)
    → s.status ≡ o
    → s.phase ≡ waiting
    → IsSound s
    → wait o s ≡ some t
    → IsSound t
unfolding wait
wait-IsSound none s t ended p i h = absurd (cc)
wait-IsSound (some code) s t ended p i h =
    let same : record s { reaped = true; phase = cancelling } ≡ t = cc in
    rw (← same) (record {
      now_past = i.now_past;
      now_seen = i.now_seen;
      fired_late = i.fired_late;
      timeout_fired = i.timeout_fired;
      not_armed = λ h. absurd (cc);
      stamped_late = λ h. absurd (cc);
      reaped_waited = refl;
      reaped_ended = λ h. rw ended refl;
      killed_status = i.killed_status;
      result_true = i.result_true;
    })

has_fired-cancel : (t : Timer) → has_fired (cancel t) ≡ has_fired t
unfolding cancel
has_fired-cancel armed = refl
has_fired-cancel fired = refl
has_fired-cancel done = refl
has_fired-cancel lost = refl
has_fired-cancel cancelled = refl

is_armed-cancel : (t : Timer) → is_armed (cancel t) ≡ false
unfolding cancel
is_armed-cancel armed = refl
is_armed-cancel fired = refl
is_armed-cancel done = refl
is_armed-cancel lost = refl
is_armed-cancel cancelled = refl

cancel-IsSound :
    (s : State)
    → s.phase ≡ cancelling
    → IsSound s
    → IsSound (record s { timer = cancel s.timer; phase = stamping })
cancel-IsSound s p i = record {
  now_past = i.now_past;
  now_seen = i.now_seen;
  fired_late = rw has_fired-cancel i.fired_late;
  timeout_fired = rw has_fired-cancel i.timeout_fired;
  not_armed = λ h. is_armed-cancel s.timer;
  stamped_late = λ h. absurd (cc);
  reaped_waited = sym (rw p refl) ∙ i.reaped_waited;
  reaped_ended = i.reaped_ended;
  killed_status = i.killed_status;
  result_true = i.result_true;
}

stamp-IsSound :
    (s : State)
    → s.phase ≡ stamping
    → IsSound s
    → IsSound (record s { now = s.clock; phase = returning })
stamp-IsSound s p i = record {
  now_past = omega arith;
  now_seen = omega arith;
  fired_late = i.fired_late;
  timeout_fired = i.timeout_fired;
  not_armed = λ h. i.not_armed (rw p refl);
  stamped_late = λ h. i.fired_late;
  reaped_waited = sym (rw p refl) ∙ i.reaped_waited;
  reaped_ended = i.reaped_ended;
  killed_status = i.killed_status;
  result_true = i.result_true;
}

give_result-IsSound :
    (o : Option ReturnCode) (s t : State)
    → s.status ≡ o
    → s.phase ≡ returning
    → IsSound s
    → give_result o s ≡ some t
    → IsSound t
unfolding give_result
give_result-IsSound none s t ended p i h = absurd (cc)
give_result-IsSound (some code) s t ended p i h =
    let after : State = record s {
      result = some (code, s.now - s.start, s.timeout);
      phase = returned;
    } in
    let same : after ≡ t = cc in
    rw (← same) (record {
      now_past = i.now_past;
      now_seen = i.now_seen;
      fired_late = i.fired_late;
      timeout_fired = i.timeout_fired;
      not_armed = λ h. i.not_armed (rw p refl);
      stamped_late = λ h. i.stamped_late (rw p refl);
      reaped_waited = sym (rw p refl) ∙ i.reaped_waited;
      reaped_ended = i.reaped_ended;
      killed_status = i.killed_status;
      result_true =
          (ended, λ h. let late = i.stamped_late (rw p refl) (i.timeout_fired h) in omega arith);
    })

pub main_step-IsSound :
    (line : Bool) (p : Phase) (s t : State)
    → s.phase ≡ p
    → IsSound s
    → main_step line p s ≡ some t
    → IsSound t
unfolding main_step
main_step-IsSound true reading s t p i h =
    let same : read_line s ≡ t = cc in rw (← same) (read_line-IsSound s p i)
main_step-IsSound false reading s t p i h =
    let same : read_end s ≡ t = cc in rw (← same) (read_end-IsSound s p i)
main_step-IsSound line waiting s t p i h = wait-IsSound s.status s t refl p i h
main_step-IsSound line cancelling s t p i h =
    let same : record s { timer = cancel s.timer; phase = stamping } ≡ t = cc in
    rw (← same) (cancel-IsSound s p i)
main_step-IsSound line stamping s t p i h =
    let same : record s { now = s.clock; phase = returning } ≡ t = cc in
    rw (← same) (stamp-IsSound s p i)
main_step-IsSound line returning s t p i h = give_result-IsSound s.status s t refl p i h
main_step-IsSound line returned s t p i h = absurd (cc)
