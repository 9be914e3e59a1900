-- ===== src/Runner/Loop.antt =====
-- `run_tests` of run.py, over an unknown laboratory of machines. Printing is not modelled.
pub mod Laws
use drbd9_tests.Prelude.{
  ℕ, zero, suc, ◌+◌, ◌*◌, ◌≡◌, refl, Bool, true, false, not, ◌&&◌, ◌||◌, Option, none, some, List,
  [], ◌∷◌, ◌++◌, String, ltb, leb, length, take, ◌==◌, string_eq, contains, if◌then◌else◌,
}
use drbd9_tests.Prelude.Dict.{Dict, insert}
use drbd9_tests.Exec.{Exec, pure, raise, for_each, collect, ◌>>=◌, ◌>>◌}

-- The `returncode` of a process: a status, or the signal that killed it (-N).
pub data ReturnCode : Type 0 where
  exited : ℕ → ReturnCode
  signalled : ℕ → ReturnCode

abbrev pub is_success : ReturnCode → Bool
is_success (exited zero) = true
is_success (exited (suc n)) = false
is_success (signalled n) = false

-- The result of `run_with_progress`, with `nodes` as `run_tests` adds it. The run time counts some
-- unit of time.
pub record TestResult : Type 0 where
  pub exit_code : ReturnCode
  pub run_time : ℕ
  pub timeout : Bool
  pub nodes : ℕ

pub record TestSet : Type 0 where
  pub vms : ℕ
  pub tests : List String

-- What the loop does to the machines: `list_LVs`, `cleanup_and_prepare_vms`, `cleanup` and
-- `run_with_progress`, which gives the return code, the run time and whether it timed out.
pub record Lab (S : Type 0) : Type 0 where
  pub list_lvs : String → Exec S (List String)
  pub prepare_vms : List String → Exec S (Unit {0})
  pub cleanup : Dict String (List String) → List String → Exec S (Unit {0})
  pub run : String → List String → Exec S (ReturnCode × ℕ × Bool)

pub record Progress : Type 0 where
  pub global_exit_code : ReturnCode
  pub results : Dict String TestResult
  pub num_successful : ℕ
  pub num_total : ℕ
  pub num_skipped : ℕ

-- The loops go on, or `run_tests` returns at once with an exit code.
pub data Flow : Type 0 where
  proceed : Progress → Flow
  finish : ReturnCode → Progress → Flow

abbrev pub no_progress : Progress
no_progress = record {
  global_exit_code = exited 0;
  results = [];
  num_successful = 0;
  num_total = 0;
  num_skipped = 0;
}

-- The counters and results once a test has run.
unfoldable pub record_result : String → TestResult → Progress → Progress
unfolding insert
record_result test result p = record p {
  results = insert test result p.results;
  num_total = p.num_total + 1;
}

-- Whether the run of a test counts as successful.
abbrev pub passed : TestResult → Bool
passed r = not r.timeout && is_success r.exit_code

-- `if keep_going: global_exit_code = 1 else: return`
unfoldable pub after_failure : Bool → TestResult → Progress → Flow
after_failure true result p = proceed (record p { global_exit_code = exited 1 })
after_failure false result p = finish result.exit_code p

module _ {S : Type 0} (lab : Lab S) (all_vms : List String) (excluded : List String)
    (keep_going : Bool) (num_skip : ℕ) (originals : Dict String (List String)) where
  unfoldable pub judge : TestResult → Progress → Exec S Flow
  unfolding after_failure
  judge result p =
      if passed result
      then pure (proceed (record p { num_successful = p.num_successful + 1 }))
      else do _ ← lab.cleanup originals all_vms; pure (after_failure keep_going result p)

  -- `results[test] = result`, and what follows.
  unfoldable pub judge_run : List String → String → Progress → ReturnCode × ℕ × Bool → Exec S Flow
  judge_run vm_names test p (code, time, late) =
      let result : TestResult = record {
        exit_code = code;
        run_time = time;
        timeout = late;
        nodes = length vm_names;
      } in
      judge result (record_result test result p)

  unfoldable pub execute_test : List String → String → Progress → Exec S Flow
  execute_test vm_names test p = do
    _ ← lab.prepare_vms vm_names
    ran ← lab.run test vm_names
    judge_run vm_names test p ran

  unfoldable pub run_one : List String → String → Progress → Exec S Flow
  run_one vm_names test p =
      if contains test excluded
      then pure (proceed p)
      else if ltb (p.num_total + p.num_skipped) num_skip
      then pure (proceed (record p { num_skipped = p.num_skipped + 1 }))
      else execute_test vm_names test p

  -- An early return ends the loop around it too.
  abbrev pub on_proceed : (Progress → Exec S Flow) → Flow → Exec S Flow
  on_proceed next (proceed q) = next q
  on_proceed next (finish code q) = pure (finish code q)

  unfoldable pub run_set : List String → List String → Progress → Exec S Flow
  run_set vm_names [] p = pure (proceed p)
  run_set vm_names (test ∷ tests) p = do
    flow ← run_one vm_names test p
    on_proceed (run_set vm_names tests) flow

  -- `continue` where there are too few machines.
  unfoldable pub run_fitting : TestSet → Progress → Exec S Flow
  run_fitting set p =
      if ltb (length all_vms) set.vms
      then pure (proceed p)
      else run_set (take set.vms all_vms) set.tests p

  unfoldable pub run_sets : List TestSet → Progress → Exec S Flow
  run_sets [] p = pure (proceed p)
  run_sets (set ∷ sets) p = do flow ← run_fitting set p; on_proceed (run_sets sets) flow

-- The exit code and the progress that `run_tests` returns.
abbrev pub outcome : Flow → ReturnCode × Progress
outcome (proceed p) = (p.global_exit_code, p)
outcome (finish code p) = (code, p)

module _ {S : Type 0} (lab : Lab S) where
  unfoldable pub original_lvs :
      List String → Dict String (List String) → Exec S (Dict String (List String))
  unfolding insert
  original_lvs [] originals = pure originals
  original_lvs (vm ∷ vms) originals = do
    lvs ← lab.list_lvs vm
    original_lvs vms (insert vm lvs originals)

  unfoldable pub run_tests :
      List TestSet → List String → List String → Bool → ℕ → Exec S (ReturnCode × Progress)
  run_tests sets all_vms excluded keep_going num_skip = do
    originals ← original_lvs all_vms []
    flow ← run_sets lab all_vms excluded keep_going num_skip originals sets no_progress
    pure (outcome flow)
