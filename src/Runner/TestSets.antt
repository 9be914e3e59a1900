-- ===== src/Runner/TestSets.antt =====
-- `generate_test_set` of run.py: groups the tests by the number of machines that each will use.
-- The lines that `tests/<name> --report-and-quit` prints are a parameter, or the CalledProcessError of a
-- test that fails.
pub mod Laws
pub mod Reading
pub mod Accepted
use drbd9_tests.Prelude.{
  ℕ, ◌≡◌, refl, Bool, true, false, Option, none, some, List, [], ◌∷◌, ◌++◌, String, min, leb, ◌==◌,
  nat_eq, if◌then◌else◌,
}
use drbd9_tests.Prelude.Dict.{Dict, lookup, insert}
use drbd9_tests.Prelude.Match.{find_number}
use drbd9_tests.Results.{Error, Result, ok, err, value_error, index_error, ◌>>=◌, or_raise}

pub record Report : Type 0 where
  pub min_nodes : ℕ
  pub max_nodes : ℕ

-- `test_sets[n].append(test)`, or a new list.
unfoldable pub put_test : ℕ → String → Dict ℕ (List String) → Dict ℕ (List String)
unfolding lookup insert
put_test n test sets = elim (lookup n sets) [
  | some tests ↦ insert n (tests ++ test ∷ []) sets
  | none ↦ insert n (test ∷ []) sets
]

-- `[min_nodes_str, max_nodes_str] = lines` and the two numbers.
unfoldable pub read_report : List String → Result Report
unfolding find_number
read_report (a ∷ b ∷ []) = do
  min_nodes ← or_raise index_error (find_number "min_nodes=" a)
  max_nodes ← or_raise index_error (find_number "max_nodes=" b)
  ok (record { min_nodes = min_nodes; max_nodes = max_nodes })
read_report _ = err value_error

module _ (report : String → Result (List String)) where
  unfoldable pub read_test : String → Result Report
  unfolding read_report
  read_test test = do lines ← report test; read_report lines

  unfoldable pub place_test : ℕ → String → Dict ℕ (List String) → Result (Dict ℕ (List String))
  unfolding read_test put_test
  place_test n_vms test sets = do
    needs ← read_test test
    ok (if leb needs.min_nodes n_vms then put_test (min n_vms needs.max_nodes) test sets else sets)

  unfoldable pub generate_loop :
      ℕ → List String → Dict ℕ (List String) → Result (Dict ℕ (List String))
  generate_loop n_vms [] sets = ok sets
  generate_loop n_vms (test ∷ tests) sets = do
    sets' ← place_test n_vms test sets
    generate_loop n_vms tests sets'

  unfoldable pub generate_test_set : List String → ℕ → Result (Dict ℕ (List String))
  generate_test_set tests n_vms = generate_loop n_vms tests []
