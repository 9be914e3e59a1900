-- ===== src/Runner/Loop/Laws.antt =====
-- The counters and the exit code of a run.
use drbd9_tests.Prelude.{
  ℕ, ◌+◌, ◌≤◌, ◌≡◌, ◌↔◌, refl, Bool, true, false, List, [], ◌∷◌, String, ltb, length, take,
  string_eq, contains, ◌∙◌, beq_refl, some, ◌⊎◌, arith, Bool-cases, inl, inr,
}
use mathlib.Core.Path.{subst}
use drbd9_tests.Prelude.Dict.{Dict, lookup, lookup-insert}
use drbd9_tests.Results.{ok}
use drbd9_tests.Exec.{Exec, pure, ◌>>=◌, >>=-eq-ok}
use drbd9_tests.Runner.Loop.{
  Lab, ReturnCode, is_success, TestResult, TestSet, Progress, Flow, proceed, finish, passed,
  no_progress, record_result, after_failure, judge, judge_run, execute_test, on_proceed,
  run_fitting, run_one, run_set, run_sets, outcome, original_lvs, run_tests,
}

-- The exit code that is returned at once is that of a test which timed out, and its run is recorded.
abbrev pub Overdue : Bool → ReturnCode → Progress → Type 0
Overdue keep_going code p =
    (keep_going ≡ false)
    × (test : String) × (result : TestResult) × (lookup test p.results ≡ some result)
    × (result.timeout ≡ true)
    × (result.exit_code ≡ code)

-- As long as the loops go on, the exit code is 0 exactly if all tests so far were successful.
pub record IsTallied (p : Progress) : Type 0 where
  pub bounded : p.num_successful ≤ p.num_total
  pub zero_all : is_success p.global_exit_code ≡ true → p.num_successful ≡ p.num_total
  pub all_zero : p.num_successful ≡ p.num_total → is_success p.global_exit_code ≡ true

abbrev pub Tallied : Bool → Flow → Type 0
Tallied keep_going (proceed p) = IsTallied p
Tallied keep_going (finish code p) =
    (p.num_successful + 1 ≤ p.num_total) × (is_success code ≡ true → Overdue keep_going code p)

module _ {S : Type 0} (lab : Lab S) (all_vms : List String) (excluded : List String)
    (keep_going : Bool) (num_skip : ℕ) (originals : Dict String (List String)) where
  abbrev judged : TestResult → Progress → Exec S Flow
  judged = judge lab all_vms excluded keep_going num_skip originals

  judge-passed :
      (result : TestResult) (p : Progress) (s t : S) (flow : Flow)
      → passed result ≡ true
      → judged result p s ≡ (ok flow, t)
      → flow ≡ proceed (record p { num_successful = p.num_successful + 1 })
  unfolding judge
  judge-passed result p s t flow good h = ground arith

  judge-failed :
      (result : TestResult) (p : Progress) (s t : S) (flow : Flow)
      → passed result ≡ false
      → judged result p s ≡ (ok flow, t)
      → flow ≡ after_failure keep_going result p
  unfolding judge
  judge-failed result p s t flow bad h =
      let (_, u, _, k) =
        >>=-eq-ok (lab.cleanup originals all_vms) (λ _. pure (after_failure keep_going result p)) s
          (rw bad at h) in
      cc

  after_failure-Tallied :
      (going : Bool) (test : String) (result : TestResult) (p : Progress)
      → passed result ≡ false
      → IsTallied p
      → Tallied going (after_failure going result (record_result test result p))
  unfolding after_failure record_result
  after_failure-Tallied true test result p bad tally = record {
    bounded = omega (arith, tally.bounded);
    zero_all = λ h. absurd (cc);
    all_zero = λ h. absurd (omega (arith, tally.bounded));
  }
  after_failure-Tallied false test result p bad tally = (
    omega (arith, tally.bounded),
    λ good. (
      refl,
      test,
      result,
      lookup-insert test test result p.results ∙ rw beq_refl refl,
      late_if_good good,
      refl,
    ),
  )
    where
      late_if_good : is_success result.exit_code ≡ true → result.timeout ≡ true
      late_if_good good = ground arith

  judge-Tallied :
      (test : String) (result : TestResult) (p : Progress) (s t : S) (flow : Flow)
      → IsTallied p
      → judged result (record_result test result p) s ≡ (ok flow, t)
      → Tallied keep_going flow
  judge-Tallied test result p s t flow tally h = elim (Bool-cases (passed result)) [
    | inl good ↦ rw (judge-passed result (record_result test result p) s t flow good h) (
        unfold record_result in
        record {
          bounded = omega (arith, tally.bounded);
          zero_all = λ z. omega (arith, tally.zero_all z);
          all_zero = λ z. tally.all_zero (omega arith);
        })
    | inr bad ↦
        rw (judge-failed result (record_result test result p) s t flow bad h)
          (after_failure-Tallied keep_going test result p bad tally)
  ]

  flow-Tallied :
      (f g : Flow) (s t : S) → Tallied keep_going f → pure f s ≡ (ok g, t) → Tallied keep_going g
  flow-Tallied f g s t tally h = let e : g ≡ f = cc in rw e tally

  on_proceed-Tallied :
      (next : Progress → Exec S Flow)
      → ((p : Progress) (s t : S) (flow : Flow)
          → IsTallied p
          → next p s ≡ (ok flow, t)
          → Tallied keep_going flow)
      → (f : Flow) (s t : S) (flow : Flow) → Tallied keep_going f
      → on_proceed lab all_vms excluded keep_going num_skip originals next f s ≡ (ok flow, t)
      → Tallied keep_going flow
  on_proceed-Tallied next keeps (proceed p) s t flow tally h = keeps p s t flow tally h
  on_proceed-Tallied next keeps (finish code p) s t flow tally h =
      flow-Tallied (finish code p) flow s t tally h

  execute_test-Tallied :
      (vm_names : List String) (test : String) (p : Progress) (s t : S) (flow : Flow)
      → IsTallied p
      → execute_test lab all_vms excluded keep_going num_skip originals vm_names test p s
        ≡ (ok flow, t)
      → Tallied keep_going flow
  unfolding execute_test
  execute_test-Tallied vm_names test p s t flow tally h =
      let judged_by =
        judge_run lab all_vms excluded keep_going num_skip originals vm_names test p in
      let (_, u, _, k) =
        >>=-eq-ok (lab.prepare_vms vm_names) (λ _. lab.run test vm_names >>= judged_by) s h in
      let ((code, time, late), v, ran, l) = >>=-eq-ok (lab.run test vm_names) judged_by u k in
      judge-Tallied test
        (record { exit_code = code; run_time = time; timeout = late; nodes = length vm_names }) p v
        t flow tally (unfold judge_run in l)

  run_one-Tallied :
      (vm_names : List String) (test : String) (p : Progress) (s t : S) (flow : Flow)
      → IsTallied p
      → run_one lab all_vms excluded keep_going num_skip originals vm_names test p s ≡ (ok flow, t)
      → Tallied keep_going flow
  unfolding run_one
  run_one-Tallied vm_names test p s t flow tally h = elim (Bool-cases (contains test excluded)) [
    | inl out ↦ flow-Tallied (proceed p) flow s t tally (rw out at h)
    | inr in_set ↦ elim (Bool-cases (ltb (p.num_total + p.num_skipped) num_skip)) [
      | inl skip ↦
          flow-Tallied (proceed (record p { num_skipped = p.num_skipped + 1 })) flow s t
            (record {
              bounded = tally.bounded;
              zero_all = tally.zero_all;
              all_zero = tally.all_zero;
            })
            (rw (in_set, skip) at h)
      | inr go ↦ execute_test-Tallied vm_names test p s t flow tally (rw (in_set, go) at h)
    ]
  ]

  run_set-Tallied :
      (vm_names : List String) (tests : List String) (p : Progress) (s t : S) (flow : Flow)
      → IsTallied p
      → run_set lab all_vms excluded keep_going num_skip originals vm_names tests p s ≡ (ok flow, t)
      → Tallied keep_going flow
  unfolding run_set
  run_set-Tallied vm_names [] p s t flow tally h = flow-Tallied (proceed p) flow s t tally h
  run_set-Tallied vm_names (test ∷ tests) p s t flow tally h =
      let more = run_set lab all_vms excluded keep_going num_skip originals vm_names tests in
      let (f, u, one, k) =
        >>=-eq-ok (run_one lab all_vms excluded keep_going num_skip originals vm_names test p)
          (on_proceed lab all_vms excluded keep_going num_skip originals more) s h in
      on_proceed-Tallied more (run_set-Tallied vm_names tests) f u t flow
        (run_one-Tallied vm_names test p s u f tally one) k

  run_fitting-Tallied :
      (set : TestSet) (p : Progress) (s t : S) (flow : Flow)
      → IsTallied p
      → run_fitting lab all_vms excluded keep_going num_skip originals set p s ≡ (ok flow, t)
      → Tallied keep_going flow
  unfolding run_fitting
  run_fitting-Tallied set p s t flow tally h = elim (Bool-cases (ltb (length all_vms) set.vms)) [
    | inl few ↦ flow-Tallied (proceed p) flow s t tally (rw few at h)
    | inr enough ↦
        run_set-Tallied (take set.vms all_vms) set.tests p s t flow tally (rw enough at h)
  ]

  pub run_sets-Tallied :
      (sets : List TestSet) (p : Progress) (s t : S) (flow : Flow)
      → IsTallied p
      → run_sets lab all_vms excluded keep_going num_skip originals sets p s ≡ (ok flow, t)
      → Tallied keep_going flow
  unfolding run_sets
  run_sets-Tallied [] p s t flow tally h = flow-Tallied (proceed p) flow s t tally h
  run_sets-Tallied (set ∷ sets) p s t flow tally h =
      let more = run_sets lab all_vms excluded keep_going num_skip originals sets in
      let (f, u, one, k) =
        >>=-eq-ok (run_fitting lab all_vms excluded keep_going num_skip originals set p)
          (on_proceed lab all_vms excluded keep_going num_skip originals more) s h in
      on_proceed-Tallied more (run_sets-Tallied sets) f u t flow
        (run_fitting-Tallied set p s u f tally one) k

pub outcome-Tallied :
    (keep_going : Bool) (f : Flow)
    → Tallied keep_going f
    → ((outcome f).1.num_successful ≤ (outcome f).1.num_total)
      × ((outcome f).1.num_successful ≡ (outcome f).1.num_total → is_success (outcome f).0 ≡ true)
      × (is_success (outcome f).0 ≡ true
          → ((outcome f).1.num_successful ≡ (outcome f).1.num_total)
            ⊎ Overdue keep_going (outcome f).0 (outcome f).1)
outcome-Tallied keep_going (proceed p) tally =
    (tally.bounded, tally.all_zero, λ z. inl (tally.zero_all z))
outcome-Tallied keep_going (finish code p) (less, late) =
    (omega arith, λ h. absurd (omega arith), λ z. inr (late z))

-- What the counters say of an exit code and a run.
abbrev pub IsReported : Bool → ReturnCode × Progress → Type 0
IsReported keep_going (code, p) =
    (p.num_successful ≤ p.num_total)
    × ((is_success code ≡ true) ↔ (
        (p.num_successful ≡ p.num_total) ⊎ ((is_success code ≡ true) × Overdue keep_going code p)))

pub outcome-IsReported :
    (keep_going : Bool) (f : Flow) → Tallied keep_going f → IsReported keep_going (outcome f)
outcome-IsReported keep_going f tally =
    let (bounded, all_zero, zero_all) = outcome-Tallied keep_going f tally in
    (
      bounded,
      (
        λ z. elim (zero_all z) [ inl all ↦ inl all | inr late ↦ inr (z, late) ],
        λ h. elim h [ inl all ↦ all_zero all | inr late ↦ late.0 ],
      ),
    )

-- Never are more tests successful than were run. `run_tests` returns the exit code 0 exactly if every
-- test that it ran was successful, or if, not keeping going, it returns the status 0 of a recorded test
-- that timed out; whichever tests were excluded or skipped.
pub run_tests-exit_code :
    {S : Type 0} (lab : Lab S) (sets : List TestSet) (all_vms excluded : List String)
    (keep_going : Bool) (num_skip : ℕ) (s t : S) (code : ReturnCode) (p : Progress)
    → run_tests lab sets all_vms excluded keep_going num_skip s ≡ (ok (code, p), t)
    → (p.num_successful ≤ p.num_total)
      × ((is_success code ≡ true) ↔ (
          (p.num_successful ≡ p.num_total)
          ⊎ ((is_success code ≡ true) × Overdue keep_going code p)))
unfolding run_tests
run_tests-exit_code {S} lab sets all_vms excluded keep_going num_skip s t code p h =
    let loops = λ (originals : Dict String (List String)).
      run_sets lab all_vms excluded keep_going num_skip originals sets no_progress in
    let finished = λ (f : Flow). pure {S = S} (outcome f) in
    let (originals, u, _, k) =
      >>=-eq-ok (original_lvs lab all_vms []) (λ o. loops o >>= finished) s h in
    let (f, v, ran, l) = >>=-eq-ok (loops originals) finished u k in
    let tally =
      run_sets-Tallied lab all_vms excluded keep_going num_skip originals sets no_progress u v f
        (record { bounded = omega arith; zero_all = λ _. refl; all_zero = λ _. refl }) ran in
    let e : outcome f ≡ (code, p) = cc in
    subst (IsReported keep_going) e (outcome-IsReported keep_going f tally)
