-- ===== src/Runner/Machines/Laws.antt =====
-- Killing a process, and bringing a machine down.
use drbd9_tests.Prelude.{
  ℕ, zero, suc, ◌+◌, ◌≤◌, ◌≡◌, ◌∙◌, Bool, false, String, ◌==◌, string_eq, nat_eq, if◌then◌else◌,
  arith, Bool-cases, inl, inr,
}
use drbd9_tests.Results.{Result, ok, err, runtime_error, attribute_error}
use drbd9_tests.Exec.{Exec, pure, or_raise, ◌>>=◌, ◌>>◌, >>=-eq-ok, >>=_ok}
use drbd9_tests.Runner.Machines.{
  Machines, Down, done, failed, kill_attempts, kill_process, check_down, release, recover,
  down_again, try_down_all,
}

-- The machine answers every request about processes, and counts the kills that it was sent.
pub record CountsKills {S : Type 0} (m : Machines S) (kills : S → ℕ) : Type 0 where
  pub kill_counts :
      (vm pid : String) (s : S)
      → (t : S) × (m.send_kill vm pid s ≡ (ok tt, t)) × (kills t ≡ kills s + 1)
  pub running_answers :
      (vm pid : String) (s : S)
      → (b : Bool) × (t : S) × (m.is_process_running vm pid s ≡ (ok b, t)) × (kills t ≡ kills s)

-- How a call that kills ends, from a count and with the attempts that it has.
pub data KillEnds {S : Type 0} (m : Machines S) (kills : S → ℕ) (vm pid : String)
    (from attempts : ℕ) : Result (Unit {0}) × S → Type 0 where
  -- the process was seen to be gone, after at least one kill
  gone :
      (u t : S)
      → m.is_process_running vm pid u ≡ (ok false, t)
      → from + 1 ≤ kills t
      → kills t ≤ from + attempts
      → KillEnds m kills vm pid from attempts (ok tt, t)
  -- all attempts were made
  gave_up :
      (t : S)
      → kills t ≡ from + attempts
      → KillEnds m kills vm pid from attempts (err runtime_error, t)

module _ {S : Type 0} (m : Machines S) (kills : S → ℕ) (c : CountsKills m kills)
    (vm pid : String) where
  step_ends :
      (n k attempts : ℕ) (p : Result (Unit {0}) × S)
      → k ≡ n + 1
      → KillEnds m kills vm pid k attempts p
      → KillEnds m kills vm pid n (suc attempts) p
  step_ends n k attempts p e (gone u t h lo hi) = gone u t h (omega arith) (omega arith)
  step_ends n k attempts p e (gave_up t h) = gave_up t (omega arith)

  kill_attempts-ends :
      (attempts : ℕ) (s : S)
      → KillEnds m kills vm pid (kills s) attempts (kill_attempts m attempts vm pid s)
  unfolding kill_attempts
  kill_attempts-ends zero s = gave_up s (omega arith)
  kill_attempts-ends (suc left) s =
      let (t, sent, counted) = c.kill_counts vm pid s in
      let (b, u, asked, kept) = c.running_answers vm pid t in
      let answer : Bool → Exec S (Unit {0}) =
        λ r. if r then kill_attempts m left vm pid else pure tt in
      let run : kill_attempts m (suc left) vm pid s ≡ answer b u =
        >>=_ok (m.send_kill vm pid) (λ _. m.is_process_running vm pid >>= answer) s sent
        ∙ >>=_ok (m.is_process_running vm pid) answer t asked in
      rw run (elim (Bool-cases b) [
        | inl alive ↦
            rw alive
              (step_ends (kills s) (kills u) left _ (omega arith) (kill_attempts-ends left u))
        | inr dead ↦ rw dead (gone t u (asked ∙ rw dead) (omega arith) (omega arith))
      ])

  -- `kill_process` returns only after the machine said that the process is gone, having sent one to
  -- three kills, and it raises only after three kills.
  pub kill_process-ends : (s : S) → KillEnds m kills vm pid (kills s) 3 (kill_process m vm pid s)
  unfolding kill_process
  kill_process-ends s = kill_attempts-ends 3 s

module _ {S : Type 0} (m : Machines S) (vm : String) where
  down_again-done :
      (s t : S) → down_again m vm s ≡ (ok tt, t) → (u : S) × (m.drbdsetup_down vm u ≡ (ok done, t))
  unfolding down_again
  down_again-done s t h =
      let (a, u, e, k) = >>=-eq-ok (m.drbdsetup_down vm) (check_down m) s h in (s, checked a u e k)
    where
      checked :
          (a : Down) (u : S)
          → m.drbdsetup_down vm s ≡ (ok a, u)
          → check_down m a u ≡ (ok tt, t)
          → m.drbdsetup_down vm s ≡ (ok done, t)
      checked done u e k = cc
      checked (failed status text) u e k = absurd (cc)

  recover-done :
      (a : Down) (s u t : S)
      → m.drbdsetup_down vm s ≡ (ok a, u)
      → recover m vm a u ≡ (ok tt, t)
      → (v : S) × (m.drbdsetup_down vm v ≡ (ok done, t))
  unfolding recover
  recover-done done s u t e h = (s, cc)
  recover-done (failed status text) s u t e h = elim (Bool-cases (status == 11)) [
    | inr other ↦ absurd (ground arith)
    | inl held ↦
        let (holder, v, _, k) =
          >>=-eq-ok (or_raise attribute_error text) (λ x. release m vm x >> down_again m vm) u
            (rw held at h) in
        let (_, w, _, l) = >>=-eq-ok (release m vm holder) (λ _. down_again m vm) v k in
        down_again-done w t l
  ]

  -- When `try_down_all` returns, the last `drbdsetup down` succeeded: also after a process or a mount
  -- that held a device open was removed.
  pub try_down_all-done :
      (s t : S)
      → try_down_all m vm s ≡ (ok tt, t)
      → (u : S) × (m.drbdsetup_down vm u ≡ (ok done, t))
  unfolding try_down_all
  try_down_all-done s t h =
      let (a, u, e, k) = >>=-eq-ok (m.drbdsetup_down vm) (recover m vm) s h in
      recover-done a s u t e k
