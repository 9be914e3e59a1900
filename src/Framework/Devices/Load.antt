-- ===== src/Framework/Devices/Load.antt =====
-- What `BusyWrite` of python/busywrite.py answers once the load is stopped.
use drbd9_tests.Prelude.{◌≡◌, ap, sym, refl, false, none, some, Option, [], ◌∷◌, String, ◌<>◌}
use drbd9_tests.Results.{Result, ok, err, runtime_error}
use drbd9_tests.Exec.{Exec, modify, or_raise, ◌>>=◌, ◌>>◌, >>=-eq-ok, >>=_ok, >>=_err}
use drbd9_tests.Framework.World.{World, Remote, or_default}
use drbd9_tests.Framework.Run.{node_run, node_do}
use drbd9_tests.Framework.Devices.Data.{
  BusyWrite, Writing, on_world, from_brace, is_running, wait, kill_jobs, stop,
}

Idle : World × BusyWrite → Type 0
Idle s = s.1.fio_pid ≡ none

-- Idle, if the call returned.
Rests : {A : Type 0} → Result A → World × BusyWrite → Type 0
Rests (ok a) s = Idle s
Rests (err e) s = Unit

-- What leaves an idle load idle, and what returns only with an idle load.
record Leaves {A : Type 0} (m : Writing A) : Type 0 where
  leaves : (s : World × BusyWrite) → Idle s → Rests (m s).0 (m s).1

record Settles {A : Type 0} (m : Writing A) : Type 0 where
  settles : (s : World × BusyWrite) → Rests (m s).0 (m s).1

next-Rests :
    {A B : Type 0} (m : Writing A) (f : A → Writing B) (s : World × BusyWrite)
    (p : Result A × (World × BusyWrite))
    → m s ≡ p
    → ((a : A) → p.0 ≡ ok a → Rests (f a p.1).0 (f a p.1).1)
    → Rests ((m >>= f) s).0 ((m >>= f) s).1
unfolding Rests
next-Rests m f s (ok a, t) e h = rw (>>=_ok m f s e) (h a refl)
next-Rests m f s (err x, t) e h = rw (>>=_err m f s e) tt

Rests-Idle :
    {A : Type 0} (r : Result A) (s : World × BusyWrite) {a : A} → r ≡ ok a → Rests r s → Idle s
unfolding Rests
Rests-Idle (ok b) s e i = i
Rests-Idle (err x) s e i = absurd (cc)

>>=-Leaves :
    {A B : Type 0} (m : Writing A) (f : A → Writing B)
    → Leaves m
    → ((a : A) → Leaves (f a))
    → Leaves (m >>= f)
>>=-Leaves m f p h = record {
  leaves = λ s idle.
      next-Rests m f s (m s) refl
        λ a e. (h a).leaves (m s).1 (Rests-Idle (m s).0 (m s).1 e (p.leaves s idle));
}

>>=-Settles :
    {A B : Type 0} (m : Writing A) (f : A → Writing B)
    → ((a : A) → Settles (f a))
    → Settles (m >>= f)
>>=-Settles m f h = record {
  settles = λ s. next-Rests m f s (m s) refl λ a e. (h a).settles (m s).1;
}

settle_then_leave :
    {A B : Type 0} (m : Writing A) (f : A → Writing B)
    → Settles m
    → ((a : A) → Leaves (f a))
    → Settles (m >>= f)
settle_then_leave m f p h = record {
  settles = λ s.
      next-Rests m f s (m s) refl
        λ a e. (h a).leaves (m s).1 (Rests-Idle (m s).0 (m s).1 e (p.settles s));
}

result-Rests :
    {A : Type 0} (r : Result A) (w : World) (b : BusyWrite) → b.fio_pid ≡ none → Rests r (w, b)
unfolding Rests Idle
result-Rests (ok a) w b idle = idle
result-Rests (err e) w b idle = tt

on_world-Leaves : {A : Type 0} (m : Exec World A) → Leaves (on_world m)
unfolding Idle
on_world-Leaves m = record { leaves = λ s idle. result-Rests (m s.0).0 (m s.0).1 s.1 idle }

store-Leaves :
    (out : String) → Leaves (modify (λ s. (s.0, record (s.1) { fio_out_str = some out })))
unfolding Rests Idle
store-Leaves out = record { leaves = λ s idle. idle }

clear-Settles : Settles (modify (λ s. (s.0, record (s.1) { fio_pid = none })))
unfolding Rests Idle
clear-Settles = record { settles = λ s. refl }

ruleset settles_idle =
    (settle_then_leave, >>=-Settles, clear-Settles, >>=-Leaves, on_world-Leaves, store-Leaves)

on_world-ok :
    {A : Type 0} (m : Exec World A) (s u : World × BusyWrite) {a : A}
    → on_world m s ≡ (ok a, u)
    → (m s.0 ≡ (ok a, u.0)) × (u.1 ≡ s.1)
on_world-ok m s u h = (ap (λ p. (p.0, p.1.0)) h, sym (ap (λ p. p.1.1) h))

raised_or :
    {S : Type 0} (o : Option String) (s u : S) {pid : String}
    → or_raise runtime_error o s ≡ (ok pid, u)
    → (o ≡ some pid) × (s ≡ u)
raised_or none s u h = absurd (cc)
raised_or (some p) s u h = (cc, cc)

module _ (remote : Remote) where
  wait-Settles : Settles (wait remote)
  unfolding wait
  wait-Settles = search (settles_idle) depth 40

  stop-Settles : Settles (stop remote)
  unfolding stop
  stop-Settles = search (>>=-Settles, wait-Settles) depth 20

  answers_at_rest :
      (t : World × BusyWrite)
      → Idle t
      → (is_running remote t ≡ (ok false, t))
        × (stop remote t ≡ (err runtime_error, t))
        × (kill_jobs remote t ≡ (err runtime_error, t))
  unfolding is_running stop kill_jobs Idle
  answers_at_rest t idle = (simp (idle), simp (idle), simp (idle))

  -- The commands that a `stop` of the process runs, one after the other, when it returns: the process is
  -- killed, and `tail` has seen that it is gone.
  abbrev pub Ended : String → World × BusyWrite → Type 0
  Ended pid s =
      (killed : World) × (gone : World) × (node_do remote s.1.node ("kill" ∷ pid ∷ []) s.0
        ≡ (ok tt, killed))
      × (node_do remote s.1.node ("tail" ∷ ("--pid=" <> pid) ∷ "-f" ∷ "/dev/null" ∷ []) killed
          ≡ (ok tt, gone))

  wait_tail :
      (pid : String) (s t : World × BusyWrite)
      → s.1.fio_pid ≡ some pid
      → wait remote s ≡ (ok tt, t)
      → (gone : World) × (node_do remote s.1.node
            ("tail" ∷ ("--pid=" <> pid) ∷ "-f" ∷ "/dev/null" ∷ [])
            s.0
          ≡ (ok tt, gone))
  unfolding wait
  wait_tail pid s t known h =
      let tail : String → Exec World (Unit {0}) =
        λ p. node_do remote s.1.node ("tail" ∷ ("--pid=" <> p) ∷ "-f" ∷ "/dev/null" ∷ []) in
      let read : Writing (Unit {0}) = (do
        modify (λ s. (s.0, record (s.1) { fio_pid = none }))
        out ← on_world (node_run remote s.1.node ("cat" ∷ ("/tmp/" <> s.1.output_filename) ∷ []))
        modify (λ s. (s.0, record (s.1) { fio_out_str = some (from_brace out) }))
        on_world (node_do remote s.1.node ("cat" ∷ ("/tmp/" <> s.1.stderr_filename) ∷ []))) in
      let (_, u, ran, _) =
        >>=-eq-ok (on_world (tail (or_default "None" s.1.fio_pid))) (λ _. read) s h in
      let (done, _) = on_world-ok (tail (or_default "None" s.1.fio_pid)) s u ran in
      (u.0, rw known at done)

  stop_commands :
      (s t : World × BusyWrite)
      → stop remote s ≡ (ok tt, t)
      → (pid : String) × (s.1.fio_pid ≡ some pid) × Ended pid s
  unfolding stop
  stop_commands s t h =
      let (pid, u, found, rest) =
        >>=-eq-ok (λ s. or_raise runtime_error s.1.fio_pid s)
          (λ pid. on_world (node_do remote s.1.node ("kill" ∷ pid ∷ [])) >> wait remote) s h in
      let (known, same) = raised_or s.1.fio_pid s u found in
      let kill : Exec World (Unit {0}) = node_do remote s.1.node ("kill" ∷ pid ∷ []) in
      let (_, v, sent, later) =
        >>=-eq-ok (on_world kill) (λ _. wait remote) s (rw (← same) at rest) in
      let (killed, load) = on_world-ok kill s v sent in
      let (gone, seen) = wait_tail pid v t (rw load known) later in
      (pid, known, (v.0, gone, killed, rw load at seen))

  -- A `stop` that returned has killed the process that was started and waited until it was gone. The load
  -- is not running any more, and `stop` and `kill_jobs` raise an error without a command.
  pub stop-stopped :
      (s t : World × BusyWrite)
      → stop remote s ≡ (ok tt, t)
      → ((pid : String) × (s.1.fio_pid ≡ some pid) × Ended pid s)
        × (is_running remote t ≡ (ok false, t))
        × (stop remote t ≡ (err runtime_error, t))
        × (kill_jobs remote t ≡ (err runtime_error, t))
  stop-stopped s t h =
      let (asked, again, jobs) = answers_at_rest t (
        rw (sym (ap (λ p. p.1) h)) (
          Rests-Idle (stop remote s).0 (stop remote s).1 (ap (λ p. p.0) h)
            (stop-Settles.settles s))) in
      (stop_commands s t h, asked, again, jobs)
