-- ===== src/Examples/Runs.antt =====
-- Runs of run.py, with machines that are modelled by the number of kills that they were sent.
use drbd9_tests.Prelude.{
  ℕ, ◌+◌, ◌≤◌, ◌≡◌, ◌↔◌, refl, true, false, some, List, [], ◌∷◌, String, ◌==◌, string_eq, nat_eq,
  ltb, keep, map, All, ◌⊎◌, if◌then◌else◌,
}
use drbd9_tests.Prelude.Dict.{Dict}
use drbd9_tests.Results.{Result, ok}
use drbd9_tests.Exec.{pure}
use drbd9_tests.Runner.Machines.{Machines, done, failed, try_down_all, kill_process}
use drbd9_tests.Runner.Machines.Laws.{CountsKills, KillEnds, kill_process-ends, try_down_all-done}
use drbd9_tests.Runner.TestSets.{
  generate_test_set, generate_loop, place_test, put_test, read_test, read_report,
}
use drbd9_tests.Prelude.Match.{find_number}
use drbd9_tests.Runner.TestSets.Laws.{group, runs_on, generate_test_set-group}
use drbd9_tests.Runner.Loop.{
  exited, is_success, Lab, Progress, run_tests, original_lvs, run_sets, run_fitting, run_set,
  run_one, execute_test, judge_run, judge, record_result,
}
use drbd9_tests.Runner.Loop.Laws.{Overdue, run_tests-exit_code}
use drbd9_tests.Runner.Statistics.{
  Statistic, total_of, add_runs, add_run, add_result, add_to, set_times, set_rates, find_statistics,
}
use drbd9_tests.Runner.Statistics.Laws.{tally, one_run, one_success, success_time, add_runs-tally}
use drbd9_tests.Runner.Analysis.{Row, analyze}
use drbd9_tests.Runner.Analysis.Order.{IsDescending, IsKeyed, analyze-total}
use mathlib.Core.List.{Perm}
use drbd9_tests.Runner.Main.{
  Args, Entry, Site, Sums, no_sums, iterate, run_iteration, test_sets, add_iteration,
}
use drbd9_tests.Runner.Main.Laws.{Added, iterate-Added}

-- A process dies at the second kill; a machine comes down once nothing holds it.
abbrev machines : Machines ℕ
machines = record {
  drbdsetup_down =
      λ vm kills. (ok (if ltb kills 2 then failed 11 (some ("1", "fio", "77")) else done), kills);
  unmount_dev = λ vm dev. pure tt;
  send_kill = λ vm pid kills. (ok tt, kills + 1);
  is_process_running = λ vm pid kills. (ok (ltb kills 2), kills);
  reload_modules = λ vm. pure tt;
  list_lvs = λ vm. pure [];
  lvremove = λ vm lv. pure tt;
}

counts : CountsKills machines (λ kills. kills)
counts = record {
  kill_counts = λ vm pid s. (s + 1, refl, refl);
  running_answers = λ vm pid s. (ltb s 2, s, refl, refl);
}

kill_process-ends_example :
    KillEnds machines
      (λ kills. kills)
      "lbtest-vm-1"
      "77"
      0
      3
      (kill_process machines "lbtest-vm-1" "77" 0)
kill_process-ends_example = kill_process-ends machines (λ kills. kills) counts "lbtest-vm-1" "77" 0

try_down_all-done_example : (u : ℕ) × (machines.drbdsetup_down "lbtest-vm-1" u ≡ (ok done, 2))
unfolding try_down_all
try_down_all-done_example = try_down_all-done machines "lbtest-vm-1" 0 2 refl

abbrev report : String → Result (List String)
report test =
    if test == "add-path"
    then ok ("min_nodes=2" ∷ "max_nodes=2" ∷ [])
    else ok ("min_nodes=3" ∷ "max_nodes=5" ∷ [])

abbrev tests : List String
tests = "add-path" ∷ "quorum" ∷ []

abbrev sets : Dict ℕ (List String)
sets = (2, "add-path" ∷ []) ∷ (3, "quorum" ∷ []) ∷ []

generate_test_set-group_example : group 3 sets ≡ keep (runs_on report 3 3) tests
unfolding generate_test_set generate_loop place_test put_test read_test read_report find_number
generate_test_set-group_example = generate_test_set-group report 3 tests sets 3 refl

-- Every test but "quorum" succeeds.
abbrev lab : Lab ℕ
lab = record {
  list_lvs = λ vm. pure [];
  prepare_vms = λ vms. pure tt;
  cleanup = λ lvs vms. pure tt;
  run = λ test vms s. (ok (if test == "quorum" then exited 7 else exited 0, 12, false), s + 1);
}

abbrev progress : Progress
progress = record {
  global_exit_code = exited 1;
  results =
      ("add-path", record { exit_code = exited 0; run_time = 12; timeout = false; nodes = 2 })
      ∷ ("quorum", record { exit_code = exited 7; run_time = 12; timeout = false; nodes = 2 })
      ∷ [];
  num_successful = 1;
  num_total = 2;
  num_skipped = 0;
}

-- A laboratory in which the second test times out with the status 0.
abbrev late_lab : Lab ℕ
late_lab = record lab { run = λ test vms s. (ok (exited 0, 300000, test == "quorum"), s + 1) }

abbrev late_progress : Progress
late_progress = record {
  global_exit_code = exited 0;
  results =
      ("add-path", record { exit_code = exited 0; run_time = 300000; timeout = false; nodes = 2 })
      ∷ ("quorum", record { exit_code = exited 0; run_time = 300000; timeout = true; nodes = 2 })
      ∷ [];
  num_successful = 1;
  num_total = 2;
  num_skipped = 0;
}

run_tests-exit_code_example :
    (late_progress.num_successful ≤ late_progress.num_total)
    × ((is_success (exited 0) ≡ true) ↔ (
        (late_progress.num_successful ≡ late_progress.num_total)
        ⊎ ((is_success (exited 0) ≡ true) × Overdue false (exited 0) late_progress)))
unfolding run_tests original_lvs run_sets run_fitting run_set run_one execute_test judge_run judge
    record_result
run_tests-exit_code_example =
    run_tests-exit_code late_lab (record { vms = 2; tests = tests } ∷ []) ("a" ∷ "b" ∷ []) [] false
      0 0 2 (exited 0) late_progress refl

analyze-total_example :
    (statistics : Dict String Statistic) × (out : List Row) × (find_statistics
        (progress.results ∷ progress.results ∷ [])
        []
      ≡ ok statistics)
    × (analyze (progress.results ∷ progress.results ∷ []) ≡ ok out)
    × IsDescending out
    × Perm (map (λ (r : Row). r.1) out) statistics
    × All IsKeyed out
analyze-total_example = analyze-total (progress.results ∷ progress.results ∷ [])

abbrev site : Site ℕ
site = record {
  versions = λ vms. pure ("6.8.0", "9.2.12", "0a1b");
  date_time = pure "20250101-120000";
  load = pure [];
  save = λ db. pure tt;
  read_sets = pure (record { vms = 2; tests = tests } ∷ []);
}

abbrev args : Args
args = record {
  vm_name = "a" ∷ "b" ∷ [];
  exclude = [];
  run = [];
  keep_going = true;
  analyze = false;
  iterations = 2;
  num_skip = 0;
}

abbrev entry : Entry
entry = record {
  version = "9.2.12";
  git_hash = "0a1b";
  kernel = "6.8.0";
  date_time = "20250101-120000";
  results = progress.results;
}

abbrev sums : Sums
sums = record {
  result_db = entry ∷ entry ∷ [];
  total_successful = 2;
  total_ran = 4;
  exit_code = some (exited 1);
}

iterate-Added_example : Added 2 (no_sums []) sums
unfolding iterate run_iteration test_sets add_iteration original_lvs run_sets run_fitting run_set
    run_one execute_test judge_run judge record_result find_statistics set_times set_rates add_runs
    add_run add_result add_to
iterate-Added_example =
    iterate-Added lab site report args ("6.8.0", "9.2.12", "0a1b") 2 [] sums 0 4 refl

add_runs-tally_example :
    let t = add_runs (progress.results ∷ []) (record { times = []; successes = [] }) in
    (total_of "quorum" t.successes ≡ record {
      amount = tally one_success "quorum" (progress.results ∷ []);
      count = tally one_run "quorum" (progress.results ∷ []);
    })
    × (total_of "quorum" t.times ≡ record {
      amount = tally success_time "quorum" (progress.results ∷ []);
      count = tally one_success "quorum" (progress.results ∷ []);
    })
add_runs-tally_example = add_runs-tally "quorum" (progress.results ∷ [])
