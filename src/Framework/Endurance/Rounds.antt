-- ===== src/Framework/Endurance/Rounds.antt =====
-- The loop of `run_resync` in python/endurance.py ends.
use drbd9_tests.Prelude.{
  ℕ, zero, suc, ◌+◌, ◌*◌, ◌%◌, ◌<>◌, get_elem?, ◌≤◌, ◌≡◌, ◌≢◌, refl, ap, sym, ◌∙◌, Bool, true,
  false, Bool-cases, ◌⊎◌, inl, inr, List, [], ◌∷◌, ◌++◌, String, ltb, arith,
}
use drbd9_tests.Results.{Error, Result, ok, err}
use drbd9_tests.Exec.{Exec, ◌>>=◌, >>=-eq-ok}
use drbd9_tests.Framework.World.{Volume, World, Remote, or_default, Action, slept}
use drbd9_tests.Framework.Control.{peer_devices_event}
use drbd9_tests.Framework.Devices.Data.{BusyWrite, Writing, on_world, start, wait, stop}
use drbd9_tests.Framework.Endurance.{
  sleep, start_fio, event_between, invalidate, resync, resync_round, fio_rates, resync_loop,
  test_runtime, max_rounds,
}
use drbd9_tests.Framework.Endurance.Rises.{Rises, >>=-Rises, any_rises}
use drbd9_tests.Framework.Endurance.Steps.{
  IsClock, node_run-Rises, node_do-Rises, drbdadm-Rises, device-Rises, native_filename-Rises,
  logscan-Rises,
}

-- How the loop may end: by an error, or by its test after the time is up.
abbrev pub Ends : (List Action → ℕ) → ℕ → Result Bool × (World × BusyWrite) → Type 0
Ends clock begin p =
    ((e : Error) × (p.0 ≡ err e))
    ⊎ ((p.0 ≡ ok true) × (begin + test_runtime * 1000 ≤ clock (p.1.0).done))

module _ (remote : Remote) (clock : List Action → ℕ) (is_clock : IsClock clock) where
  abbrev time : World → ℕ
  time w = clock w.done

  abbrev Forward : {A : Type 0} → Exec World A → Type 0
  Forward m = Rises time m

  peer_devices_event-Rises :
      (ps : List ((ℕ × ℕ) × Volume)) (events : List String)
      → Forward (peer_devices_event remote ps events)
  unfolding peer_devices_event
  peer_devices_event-Rises [] events = record { rises = λ w. omega arith }
  peer_devices_event-Rises (((n, m), v) ∷ ps) events = record {
    rises = λ w. (logscan-Rises remote clock is_clock _ events _).rises w;
  }

  event_between-Rises : (n m : ℕ) (pattern : String) → Forward (event_between remote n m pattern)
  unfolding event_between
  event_between-Rises n m pattern =
      >>=-Rises _ _ (record { rises = λ w. omega arith }) (λ pds. peer_devices_event-Rises pds _)

  -- The writer of a load keeps its data beside the world.
  abbrev ForwardToo : {A : Type 0} → Writing A → Type 0
  ForwardToo m = Rises (λ s. time s.0) m

  on_world-Rises : {A : Type 0} (m : Exec World A) → Forward m → ForwardToo (on_world m)
  on_world-Rises m p = record { rises = λ s. p.rises s.0 }

  start_fio-Rises : (runtime : ℕ) (more : String) → ForwardToo (start_fio remote runtime more)
  unfolding start_fio start
  start_fio-Rises runtime more =
      search
        (
          any_rises,
          on_world-Rises,
          node_run-Rises remote clock is_clock,
          device-Rises remote clock is_clock,
          native_filename-Rises remote clock is_clock,
        )
        depth 40

  stop-Rises : ForwardToo (stop remote)
  unfolding stop wait
  stop-Rises =
      search
        (
          any_rises,
          on_world-Rises,
          node_run-Rises remote clock is_clock,
          node_do-Rises remote clock is_clock,
        )
        depth 40

  invalidate-Rises : (r n m : ℕ) → Forward (invalidate remote r n m)
  unfolding invalidate
  invalidate-Rises r n m =
      search (any_rises, drbdadm-Rises remote clock is_clock, event_between-Rises) depth 40

  half_second : (r n m : ℕ) (w : World) → time w + 500 ≤ time (resync remote r n m w).1
  unfolding resync sleep
  half_second r n m w =
      let later = (invalidate-Rises r n m).rises (record w { done = w.done ++ slept 500 ∷ [] }) in
      let slept_enough = is_clock.sleeps w.done 500 in omega arith

  returned :
      {A : Type 0} (m : Writing A) {a : A} (s t : World × BusyWrite) (k : ℕ)
      → k ≤ time (m s).1.0
      → m s ≡ (ok a, t)
      → k ≤ time t.0
  returned m s t k h e =
      let same : time (m s).1.0 ≡ time t.0 = ap (λ p. time p.1.0) e in omega arith

  -- A round that returns has slept.
  resync_round-passes :
      (r n m count : ℕ) (s t : World × BusyWrite)
      → resync_round remote r n m count s ≡ (ok tt, t)
      → time s.0 + 500 ≤ time t.0
  unfolding resync_round
  resync_round-passes r n m count s t h =
      let load : Writing (Unit {0}) =
        start_fio remote 60 ("--rate=" <> or_default "" (get_elem? fio_rates (count % 6))) in
      let synced : Writing (Unit {0}) = on_world (resync remote r n m) in
      let (_, u, started, rest) = >>=-eq-ok load (λ _. synced >>= λ _. stop remote) s h in
      let (_, v, resynced, stopped) = >>=-eq-ok synced (λ _. stop remote) u rest in
      let before : time s.0 ≤ time u.0 =
        returned load s u (time s.0) ((start_fio-Rises 60 _).rises s) started in
      let while : time u.0 + 500 ≤ time v.0 =
        returned synced u v (time u.0 + 500) (half_second r n m u.0) resynced in
      let after : time v.0 ≤ time t.0 =
        returned (stop remote) v t (time v.0) (stop-Rises.rises v) stopped in
      omega arith

  -- With the fuel for the time that is left, the loop is not cut off.
  resync_loop-ends :
      (fuel r n m begin count : ℕ) (s t : World × BusyWrite)
      → begin + test_runtime * 1000 + 500 ≤ time s.0 + 500 * fuel
      → 1 ≤ fuel
      → resync_loop remote clock fuel r n m begin count s ≢ (ok false, t)
  unfolding resync_loop
  resync_loop-ends zero r n m begin count s t enough some_fuel h = absurd (omega arith)
  resync_loop-ends (suc fuel) r n m begin count s t enough some_fuel h =
      elim (Bool-cases (ltb (time s.0) (begin + test_runtime * 1000))) [
        | inl more ↦
            let rest : Writing Bool = resync_loop remote clock fuel r n m begin (suc count) in
            let taken : (resync_round remote r n m count >>= λ _. rest) s ≡ (ok false, t) =
              sym (rw more refl) ∙ h in
            let (_, u, round, again) =
              >>=-eq-ok (resync_round remote r n m count) (λ _. rest) s taken in
            let later = resync_round-passes r n m count s u round in
            resync_loop-ends fuel r n m begin (suc count) u t (omega arith) (ground arith) again
        | inr over ↦ absurd (cc)
      ]

  -- A loop that ended by its test ended after the time was up.
  resync_loop-late :
      (fuel r n m begin count : ℕ) (s t : World × BusyWrite)
      → resync_loop remote clock fuel r n m begin count s ≡ (ok true, t)
      → begin + test_runtime * 1000 ≤ time t.0
  unfolding resync_loop
  resync_loop-late zero r n m begin count s t h = absurd (cc)
  resync_loop-late (suc fuel) r n m begin count s t h =
      elim (Bool-cases (ltb (time s.0) (begin + test_runtime * 1000))) [
        | inl more ↦
            let rest : Writing Bool = resync_loop remote clock fuel r n m begin (suc count) in
            let taken : (resync_round remote r n m count >>= λ _. rest) s ≡ (ok true, t) =
              sym (rw more refl) ∙ h in
            let (_, u, round, again) =
              >>=-eq-ok (resync_round remote r n m count) (λ _. rest) s taken in
            resync_loop-late fuel r n m begin (suc count) u t again
        | inr over ↦
            let kept : ◌≡◌ {A = Result Bool × (World × BusyWrite)} (ok true, s) (ok true, t) =
              sym (rw over refl) ∙ h in
            let same : time s.0 ≡ time t.0 = ap (λ p. time p.1.0) kept in ground arith
      ]

  one_of_two :
      (begin : ℕ) (p : Result Bool × (World × BusyWrite))
      → ((t : World × BusyWrite) → p ≢ (ok false, t))
      → ((t : World × BusyWrite) → p ≡ (ok true, t) → begin + test_runtime * 1000 ≤ time t.0)
      → Ends clock begin p
  one_of_two begin (err e, t) never late = inl (e, refl)
  one_of_two begin (ok true, t) never late = inr (refl, late t refl)
  one_of_two begin (ok false, t) never late = absurd (never t refl)

-- With a clock that never goes back and a sleep that takes its time, the loop of `run_resync` ends: its rounds
-- raise an error, or its test fails after the time is up, and then no fuel was missing.
pub resync_loop-Ends :
    (remote : Remote) (clock : List Action → ℕ) (is_clock : IsClock clock) (r n m : ℕ)
    (s : World × BusyWrite)
    → let begin = clock (s.0).done in
      Ends clock begin (resync_loop remote clock max_rounds r n m begin 0 s)
resync_loop-Ends remote clock is_clock r n m s =
    one_of_two remote clock is_clock (clock (s.0).done) _
      (λ t.
        resync_loop-ends remote clock is_clock max_rounds r n m (clock (s.0).done) 0 s t
          (omega arith) (omega arith))
      (λ t. resync_loop-late remote clock is_clock max_rounds r n m (clock (s.0).done) 0 s t)
