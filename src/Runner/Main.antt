-- ===== src/Runner/Main.antt =====
-- `main` of run.py: the iterations over the test sets, the history of results and the exit code. The
-- command line, what is printed and the handler of SIGINT are not modelled.
pub mod Laws
use drbd9_tests.Prelude.{
  ℕ, zero, suc, ◌+◌, Bool, true, false, Option, none, some, List, [], ◌∷◌, ◌++◌, map, String, ltb,
  length, if◌then◌else◌,
}
use drbd9_tests.Prelude.Dict.{Dict}
use drbd9_tests.Results.{Result, name_error, system_exit}
use drbd9_tests.Exec.{Exec, pure, raise, lift, or_raise, ◌>>=◌, ◌>>◌}
use drbd9_tests.Runner.TestSets.{generate_test_set}
use drbd9_tests.Runner.Statistics.{find_statistics}
use drbd9_tests.Runner.Analysis.{Row, analyze}
use drbd9_tests.Runner.Loop.{
  ReturnCode, TestResult, TestSet, Lab, Progress, no_progress, original_lvs, run_sets, outcome,
}

-- The options of the command line that `main` reads.
pub record Args : Type 0 where
  pub vm_name : List String
  pub exclude : List String
  pub run : List String
  pub keep_going : Bool
  pub analyze : Bool
  pub iterations : ℕ
  pub num_skip : ℕ

-- An entry of the history `result_db`.
pub record Entry : Type 0 where
  pub version : String
  pub git_hash : String
  pub kernel : String
  pub date_time : String
  pub results : Dict String TestResult

-- What `main` does besides the tests: `collect_software_versions`, which gives the versions of the kernel
-- and of DRBD and the git hash, `time.strftime`, the file of the history, and the test sets of a file.
pub record Site (S : Type 0) : Type 0 where
  pub versions : List String → Exec S (String × String × String)
  pub date_time : Exec S String
  pub load : Exec S (List Entry)
  pub save : List Entry → Exec S (Unit {0})
  pub read_sets : Exec S (List TestSet)

-- What the iterations add up; there is no exit code before the first.
pub record Sums : Type 0 where
  pub result_db : List Entry
  pub total_successful : ℕ
  pub total_ran : ℕ
  pub exit_code : Option ReturnCode

abbrev pub no_sums : List Entry → Sums
no_sums db = record { result_db = db; total_successful = 0; total_ran = 0; exit_code = none }

-- `yield {'vms': n, 'tests': test_sets[n]}`
abbrev sets_of : Dict ℕ (List String) → List TestSet
sets_of sets = map (λ e. record { vms = e.0; tests = e.1 }) sets

unfoldable pub add_iteration :
    String × String × String → String → ReturnCode → Progress → Sums → Sums
add_iteration (kernel, version, git) date code p sums = record {
  result_db =
      sums.result_db
      ++ record {
        version = version;
        git_hash = git;
        kernel = kernel;
        date_time = date;
        results = p.results;
      }
        ∷ [];
  total_successful = sums.total_successful + p.num_successful;
  total_ran = sums.total_ran + p.num_total;
  exit_code = some code;
}

module _ {S : Type 0} (lab : Lab S) (site : Site S) (report : String → Result (List String)) where
  -- The sets are made when the loop of `run_tests` asks for the first of them, after its first steps.
  unfoldable pub test_sets : Args → Exec S (List TestSet)
  test_sets args = elim args.run [
    | [] ↦ site.read_sets
    | test ∷ tests ↦
        lift (generate_test_set report (test ∷ tests) (length args.vm_name)) >>= λ sets.
        pure (sets_of sets)
  ]

  -- `run_tests` on the sets of an iteration
  unfoldable pub run_iteration : Args → Exec S (ReturnCode × Progress)
  unfolding test_sets
  run_iteration args = do
    originals ← original_lvs lab args.vm_name []
    sets ← test_sets args
    flow ←
        run_sets lab args.vm_name args.exclude args.keep_going args.num_skip originals sets
          no_progress
    pure (outcome flow)

  unfoldable pub iterate : Args → String × String × String → ℕ → Sums → Exec S Sums
  unfolding run_iteration add_iteration
  iterate args versions zero sums = pure sums
  iterate args versions (suc n) sums = do
    _ ← lift (find_statistics (map (λ e. e.results) sums.result_db) [])
    ran ← run_iteration args
    date ← site.date_time
    iterate args versions n (add_iteration versions date ran.0 ran.1 sums)

  -- The rows of `--analyze`, or an exit code; without an iteration `exit_code` is not bound.
  unfoldable pub main : Args → Exec S (List Row × Option ReturnCode)
  unfolding iterate
  main args =
      if args.analyze
      then (do db ← site.load; rows ← lift (analyze (map (λ e. e.results) db)); pure (rows, none))
      else if ltb (length args.vm_name) 1
      then raise (system_exit 1)
      else (do
        versions ← site.versions args.vm_name
        db ← site.load
        sums ← iterate args versions args.iterations (no_sums db)
        site.save sums.result_db
        code ← or_raise name_error sums.exit_code
        pure ([], some code))
