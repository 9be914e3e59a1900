-- ===== src/Runner/Statistics/Laws.antt =====
-- The totals are the true counts, and no quotient divides by 0.
use drbd9_tests.Prelude.{
  ℕ, zero, suc, ◌+◌, ◌<◌, ◌≡◌, refl, List, [], ◌∷◌, String, if◌then◌else◌, string_eq, ◌==◌, All,
  arith, Bool-cases, inl, inr,
}
use drbd9_tests.Prelude.Dict.{Dict, lookup, insert, lookup-insert}
use drbd9_tests.Results.{ok}
use drbd9_tests.Runner.Loop.{TestResult, is_success}
use drbd9_tests.Runner.Statistics.{
  Total, Totals, Statistic, total_of, add_to, add_result, add_run, add_runs, divide, set_times,
  set_rates, find_statistics,
}

abbrev pub AllCounted : Dict String Total → Type 0
AllCounted d = All (λ (e : String × Total). 0 < e.1.count) d

insert-AllCounted :
    (name : String) (t : Total) (d : Dict String Total)
    → 0 < t.count
    → AllCounted d
    → AllCounted (insert name t d)
unfolding insert
insert-AllCounted name t [] pos h = (pos, tt)
insert-AllCounted name t ((j, w) ∷ d) pos (p, h) = elim (Bool-cases (name == j)) [
  | inl same ↦ rw same (pos, h)
  | inr differ ↦ rw differ (p, insert-AllCounted name t d pos h)
]

add_to-AllCounted :
    (name : String) (n : ℕ) (d : Dict String Total) → AllCounted d → AllCounted (add_to name n d)
unfolding add_to
add_to-AllCounted name n d h =
    insert-AllCounted name
      (record { amount = (total_of name d).amount + n; count = (total_of name d).count + 1 }) d
      (omega arith) h

abbrev pub BothCounted : Totals → Type 0
BothCounted t = AllCounted t.times × AllCounted t.successes

add_result-BothCounted :
    (name : String) (r : TestResult) (t : Totals)
    → BothCounted t
    → BothCounted (add_result name r t)
unfolding add_result
add_result-BothCounted name r t (h, k) = elim (Bool-cases (is_success r.exit_code)) [
  | inl good ↦
      rw good (add_to-AllCounted name r.run_time t.times h, add_to-AllCounted name 1 t.successes k)
  | inr bad ↦ rw bad (h, add_to-AllCounted name 0 t.successes k)
]

add_run-BothCounted :
    (results : Dict String TestResult) (t : Totals)
    → BothCounted t
    → BothCounted (add_run results t)
unfolding add_run
add_run-BothCounted [] t h = h
add_run-BothCounted ((name, r) ∷ results) t h =
    add_run-BothCounted results (add_result name r t) (add_result-BothCounted name r t h)

pub add_runs-BothCounted :
    (db : List (Dict String TestResult)) (t : Totals) → BothCounted t → BothCounted (add_runs db t)
unfolding add_runs
add_runs-BothCounted [] t h = h
add_runs-BothCounted (results ∷ db) t h =
    add_runs-BothCounted db (add_run results t) (add_run-BothCounted results t h)

divide_total : (a n : ℕ) → 0 < n → divide a n ≡ ok (a, n)
unfolding divide
divide_total a zero h = elim h [ ]
divide_total a (suc n) h = refl

set_times-total :
    (d : Dict String Total) (s : Dict String Statistic)
    → AllCounted d
    → (out : Dict String Statistic) × (set_times d s ≡ ok out)
unfolding set_times
set_times-total [] s h = (s, refl)
set_times-total ((name, v) ∷ d) s (p, h) =
    rw (divide_total v.amount v.count p) (set_times-total d _ h)

set_rates-total :
    (d : Dict String Total) (s : Dict String Statistic)
    → AllCounted d
    → (out : Dict String Statistic) × (set_rates d s ≡ ok out)
unfolding set_rates
set_rates-total [] s h = (s, refl)
set_rates-total ((name, v) ∷ d) s (p, h) =
    rw (divide_total v.amount v.count p) (set_rates-total d _ h)

-- `find_statistics` returns for every history of runs and every earlier statistics: no average and
-- no rate divides by 0.
pub find_statistics-total :
    (db : List (Dict String TestResult)) (s : Dict String Statistic)
    → (out : Dict String Statistic) × (find_statistics db s ≡ ok out)
unfolding find_statistics
find_statistics-total db s =
    let (times, successes) =
      add_runs-BothCounted db (record { times = []; successes = [] }) (tt, tt) in
    let (timed, e) =
      set_times-total (add_runs db (record { times = []; successes = [] })).times s times in
    rw e (set_rates-total _ timed successes)

-- The sum of a number over the results of one test, in one run and over all runs.
abbrev pub tally_run : (TestResult → ℕ) → String → Dict String TestResult → ℕ
tally_run f name [] = 0
tally_run f name ((j, r) ∷ rest) = (if name == j then f r else 0) + tally_run f name rest

abbrev pub tally : (TestResult → ℕ) → String → List (Dict String TestResult) → ℕ
tally f name [] = 0
tally f name (results ∷ db) = tally_run f name results + tally f name db

abbrev pub one_run : TestResult → ℕ
one_run r = 1

abbrev pub one_success : TestResult → ℕ
one_success r = if is_success r.exit_code then 1 else 0

abbrev pub success_time : TestResult → ℕ
success_time r = if is_success r.exit_code then r.run_time else 0

total_of-add_to :
    (j name : String) (n : ℕ) (d : Dict String Total)
    → total_of j (add_to name n d) ≡ (
        if j == name
        then record { amount = (total_of j d).amount + n; count = (total_of j d).count + 1 }
        else total_of j d)
unfolding add_to
total_of-add_to j name n d = ground (
  arith,
  string_eq.beq_iff j name,
  lookup-insert j name
      (record { amount = (total_of name d).amount + n; count = (total_of name d).count + 1 }) d,
)

-- The totals of a test after some results, from those before them.
record Grown (name : String) (t u : Totals) (runs wins time : ℕ) : Type 0 where
  rate_count : (total_of name u.successes).count ≡ (total_of name t.successes).count + runs
  rate_amount : (total_of name u.successes).amount ≡ (total_of name t.successes).amount + wins
  time_count : (total_of name u.times).count ≡ (total_of name t.times).count + wins
  time_amount : (total_of name u.times).amount ≡ (total_of name t.times).amount + time

Grown-trans :
    (name : String) (t u v : Totals) (a b c d e f : ℕ)
    → Grown name t u a b c
    → Grown name u v d e f
    → Grown name t v (a + d) (b + e) (c + f)
Grown-trans name t u v a b c d e f g h = record {
  rate_count = omega (arith, g.rate_count, h.rate_count);
  rate_amount = omega (arith, g.rate_amount, h.rate_amount);
  time_count = omega (arith, g.time_count, h.time_count);
  time_amount = omega (arith, g.time_amount, h.time_amount);
}

add_result-Grown :
    (name j : String) (r : TestResult) (t : Totals)
    → Grown name t
        (add_result j r t)
        (if name == j then one_run r else 0)
        (if name == j then one_success r else 0)
        (if name == j then success_time r else 0)
unfolding add_result
add_result-Grown name j r t = record {
  rate_count =
      ground (arith, total_of-add_to name j 1 t.successes, total_of-add_to name j 0 t.successes);
  rate_amount =
      ground (arith, total_of-add_to name j 1 t.successes, total_of-add_to name j 0 t.successes);
  time_count = ground (arith, total_of-add_to name j r.run_time t.times);
  time_amount = ground (arith, total_of-add_to name j r.run_time t.times);
}

Grown-refl : (name : String) (t : Totals) → Grown name t t 0 0 0
Grown-refl name t = record {
  rate_count = omega arith;
  rate_amount = omega arith;
  time_count = omega arith;
  time_amount = omega arith;
}

add_run-Grown :
    (name : String) (results : Dict String TestResult) (t : Totals)
    → Grown name t
        (add_run results t)
        (tally_run one_run name results)
        (tally_run one_success name results)
        (tally_run success_time name results)
unfolding add_run
add_run-Grown name [] t = Grown-refl name t
add_run-Grown name ((j, r) ∷ results) t =
    Grown-trans name t (add_result j r t) _ _ _ _ _ _ _ (add_result-Grown name j r t)
      (add_run-Grown name results (add_result j r t))

add_runs-Grown :
    (name : String) (db : List (Dict String TestResult)) (t : Totals)
    → Grown name t
        (add_runs db t)
        (tally one_run name db)
        (tally one_success name db)
        (tally success_time name db)
unfolding add_runs
add_runs-Grown name [] t = Grown-refl name t
add_runs-Grown name (results ∷ db) t =
    Grown-trans name t (add_run results t) _ _ _ _ _ _ _ (add_run-Grown name results t)
      (add_runs-Grown name db (add_run results t))

-- Over a history of runs, the totals of a test are the number of its results, the number of those
-- that were successful, and the summed run time of the successful ones.
pub add_runs-tally :
    (name : String) (db : List (Dict String TestResult))
    → let t = add_runs db (record { times = []; successes = [] }) in
      (total_of name t.successes
        ≡ record { amount = tally one_success name db; count = tally one_run name db })
      × (total_of name t.times
          ≡ record { amount = tally success_time name db; count = tally one_success name db })
unfolding lookup
add_runs-tally name db =
    let g = add_runs-Grown name db (record { times = []; successes = [] }) in
    (
      same _ _ (omega (arith, g.rate_amount)) (omega (arith, g.rate_count)),
      same _ _ (omega (arith, g.time_amount)) (omega (arith, g.time_count)),
    )
  where
    same : (a b : Total) → a.amount ≡ b.amount → a.count ≡ b.count → a ≡ b
    same a b p q = ground arith
