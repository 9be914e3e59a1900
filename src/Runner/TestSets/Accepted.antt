-- ===== src/Runner/TestSets/Accepted.antt =====
-- run.py and python/drbdtest.py together: a test is run on numbers of machines that its `setup` takes.
use drbd9_tests.Prelude.{
  ℕ, ◌≤◌, ◌≡◌, refl, ap, ◌⊎◌, sym, ◌∙◌, Bool, true, false, Option, none, some, List, [], ◌∷◌,
  String, ◌==◌, string_eq, nat_eq, min, leb, contains, keep, ◌&&◌, if◌then◌else◌, length, arith,
  Bool-cases, inl, inr,
}
use drbd9_tests.Prelude.Dict.{Dict}
use drbd9_tests.Results.{Result, Error, ok, err, value_error, ok_injective}
use drbd9_tests.Framework.Setup.{Needs, Args, bounds, report_lines, check_nodes}
use drbd9_tests.Framework.Setup.Nodes.{check_nodes-fits}
use drbd9_tests.Runner.TestSets.{Report, read_report, read_test, generate_test_set}
use drbd9_tests.Runner.TestSets.Laws.{group, runs_on, runs_on_read, generate_test_set-group}
use drbd9_tests.Runner.TestSets.Reading.{read_report-report_lines}

-- An element that is kept has the property.
contains-keep :
    (p : String → Bool) (x : String) (xs : List String) → contains x (keep p xs) ≡ true → p x ≡ true
contains-keep p x [] h = absurd (cc)
contains-keep p x (y ∷ xs) h = elim (Bool-cases (p y)) [
  | inl kept ↦ elim (Bool-cases (x == y)) [
    | inl same ↦ rw ((string_eq.beq_iff x y).0 same) kept
    | inr differ ↦ contains-keep p x xs (ground arith)
  ]
  | inr dropped ↦ contains-keep p x xs (ground arith)
]

from_lines :
    (min_nodes : ℕ) (max_nodes : Option ℕ) (report : Report)
    → elim max_nodes [
      | none ↦ err value_error
      | some n ↦
          if n == 0 then err value_error else ok (record { min_nodes = min_nodes; max_nodes = n })
    ]
      ≡ ok report
    → (report.min_nodes ≡ min_nodes) × (some report.max_nodes ≡ max_nodes)
from_lines min_nodes none report h = absurd (cc)
from_lines min_nodes (some n) report h = elim (Bool-cases (n == 0)) [
  | inl zero_max ↦ absurd (cc (rw zero_max at h))
  | inr some_max ↦
      let same : record { min_nodes = min_nodes; max_nodes = n } ≡ report =
        ok_injective (rw some_max at h) in
      (sym (ap (λ r. r.min_nodes) same), sym (ap (λ r. some r.max_nodes) same))
]

Result-cases : {A : Type 0} (r : Result A) → ((e : Error) × (r ≡ err e)) ⊎ ((a : A) × (r ≡ ok a))
Result-cases (err e) = inl (e, refl)
Result-cases (ok a) = inr (a, refl)

-- The report that is read is what the test needs.
read-bounds :
    (needs : Needs) (report : Report)
    → read_report (report_lines needs) ≡ ok report
    → (report.min_nodes ≡ (bounds needs).0) × (some report.max_nodes ≡ (bounds needs).1)
read-bounds needs report h =
    from_lines (bounds needs).0 (bounds needs).1 report (sym (read_report-report_lines needs) ∙ h)

read_test_lem :
    (report : String → Result (List String)) (test : String) (lines : List String)
    → report test ≡ ok lines
    → read_test report test ≡ read_report lines
unfolding read_test
read_test_lem report test lines h = rw h refl

-- When run.py has put a test into the group of k machines by what the test printed, and the test
-- does not ask for more nodes at least than at most, its `setup` accepts k hosts.
pub generate_test_set-accepted :
    (report : String → Result (List String)) (n_vms k : ℕ) (tests : List String)
    (sets : Dict ℕ (List String)) (test : String) (needs : Needs) (args : Args) (m : ℕ)
    → generate_test_set report tests n_vms ≡ ok sets
    → contains test (group k sets) ≡ true
    → report test ≡ ok (report_lines needs)
    → (bounds needs).1 ≡ some m
    → (bounds needs).0 ≤ m
    → args.report_and_quit ≡ false
    → length args.host ≡ k
    → check_nodes needs args ≡ ok tt
generate_test_set-accepted report n_vms k tests sets test needs args m made member printed limit
      range quiet given =
    let runs : runs_on report n_vms k test ≡ true =
      contains-keep (runs_on report n_vms k) test tests (
        ap (contains test) (sym (generate_test_set-group report n_vms tests sets k made))
        ∙ member) in
    let as_printed = read_test_lem report test (report_lines needs) printed in
    elim (Result-cases (read_report (report_lines needs))) [
      | inl (e, failed) ↦
          let known : read_test report test ≡ err e = as_printed ∙ failed in
          let never : false ≡ true = rw (known, runs_on) at runs in absurd (cc)
      | inr (found, read) ↦
          let (least, greatest) = read-bounds needs found read in
          let known : read_test report test ≡ ok found = as_printed ∙ read in
          let belongs : (leb found.min_nodes n_vms && k == min n_vms found.max_nodes) ≡ true =
            sym (runs_on_read report n_vms k test found known) ∙ runs in
          let most : found.max_nodes ≡ m = let e = greatest ∙ limit in cc in
          rw (check_nodes-fits needs args)
            (rw quiet (rw limit (rw given (ground (arith, belongs, least, most, range)))))
    ]
