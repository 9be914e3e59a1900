-- ===== src/Framework/Endurance/Steps.antt =====
-- The commands and scans of a node take no time back.
use drbd9_tests.Prelude.{
  ℕ, ◌+◌, ◌≤◌, Bool, true, false, List, [], ◌∷◌, ◌++◌, String, if◌then◌else◌, arith,
}
use drbd9_tests.Results.{Result, ok}
use drbd9_tests.Exec.{Exec, pure, ◌>>=◌}
use drbd9_tests.Framework.World.{
  World, Remote, Action, Command, Scan, Filters, ran, scanned, slept, node_at, set_node, send,
  host_run,
}
use drbd9_tests.Framework.Run.{
  write_config, update_config, node_run, node_do, drbdadm, scan, logscan,
}
use drbd9_tests.Framework.Devices.{device, native_filename, run_powershell_on_disk}
use drbd9_tests.Framework.Endurance.Rises.{Rises, >>=-Rises, pure-Rises, see-Rises, any_rises}

-- What `time.time` and `time.sleep` promise: the clock never goes back, and a sleep takes its time.
pub record IsClock (clock : List Action → ℕ) : Type 0 where
  pub forward : (done : List Action) (a : Action) → clock done ≤ clock (done ++ a ∷ [])
  pub sleeps : (done : List Action) (ms : ℕ) → clock done + ms ≤ clock (done ++ slept ms ∷ [])

module _ (remote : Remote) (clock : List Action → ℕ) (is_clock : IsClock clock) where
  abbrev time : World → ℕ
  time w = clock w.done

  abbrev Forward : {A : Type 0} → Exec World A → Type 0
  Forward m = Rises time m

  abbrev cleared : ℕ → World → World
  cleared n w = let node = node_at n w in set_node n (record node { config_changed = false }) w

  choice :
      {A : Type 0} (b : Bool) (p q : Result A × World) (w : World)
      → time w ≤ time p.1
      → time w ≤ time q.1
      → time w ≤ time (if b then p else q).1
  choice true p q w h k = h
  choice false p q w h k = k

  send-Rises : (catch : Bool) (c : Command) → Forward (send remote catch c)
  unfolding send
  send-Rises catch c = record {
    rises = λ w. choice _ _ _ w (is_clock.forward w.done (ran c)) (is_clock.forward w.done (ran c));
  }

  pub host_run-Rises : (h : ℕ) (argv : List String) → Forward (host_run remote h argv)
  unfolding host_run
  host_run-Rises h argv = record { rises = λ w. (send-Rises false _).rises w }

  update_config-Rises : (n : ℕ) → Forward (update_config remote n)
  unfolding update_config
  update_config-Rises n =
      let write : World → Exec World (Unit {0}) =
        λ w. send remote false (write_config w n) >>= λ _. pure tt in
      let writes : (w : World) → Forward (write w) = λ w.
        >>=-Rises (send remote false (write_config w n)) _ (send-Rises false _)
          (λ _. pure-Rises tt) in
      record {
        rises = λ w.
            choice (node_at n w).config_changed (write w (cleared n w)) (ok tt, w) w
              ((writes w).rises (cleared n w)) (omega arith);
      }

  scan-Rises : (s : Scan) → Forward (scan remote s)
  unfolding scan
  scan-Rises s = record {
    rises = λ w.
        choice _ _ _ w (is_clock.forward w.done (scanned s)) (is_clock.forward w.done (scanned s));
  }

  pub logscan-Rises :
      (r : ℕ) (events : List String) (filters : Filters) → Forward (logscan remote r events filters)
  unfolding logscan
  logscan-Rises r events filters = record { rises = λ w. (scan-Rises _).rises w }

  pub node_run-Rises : (n : ℕ) (argv : List String) → Forward (node_run remote n argv)
  unfolding node_run
  node_run-Rises n argv = >>=-Rises (update_config remote n) _ (update_config-Rises n) λ _.
      see-Rises (λ w. (node_at n w).host) (λ h. host_run remote h argv) (λ h. host_run-Rises h argv)

  pub node_do-Rises : (n : ℕ) (argv : List String) → Forward (node_do remote n argv)
  unfolding node_do
  node_do-Rises n argv =
      >>=-Rises (node_run remote n argv) _ (node_run-Rises n argv) (λ _. pure-Rises tt)

  pub drbdadm-Rises : (n : ℕ) (cmd : List String) → Forward (drbdadm remote n cmd)
  unfolding drbdadm
  drbdadm-Rises n cmd = record { rises = λ w. (node_do-Rises n _).rises w }

  ruleset steps_rise = (any_rises, host_run-Rises, node_run-Rises, node_do-Rises, drbdadm-Rises)

  pub device-Rises : (n i : ℕ) → Forward (device remote n i)
  unfolding device run_powershell_on_disk
  device-Rises n i = search (steps_rise) depth 20

  pub native_filename-Rises : (n : ℕ) (s : String) → Forward (native_filename remote n s)
  unfolding native_filename
  native_filename-Rises n s = search (steps_rise) depth 20
