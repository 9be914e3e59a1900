-- ===== src/Runner/Statistics.antt =====
-- `find_statistics` of run.py. Run times count some unit of time, and a quotient is kept as the pair
-- of its two numbers; a division by 0 raises.
pub mod Laws
use drbd9_tests.Prelude.{
  ℕ, zero, suc, ◌+◌, ◌≡◌, refl, Bool, true, false, Option, none, some, List, [], ◌∷◌, String,
  if◌then◌else◌, string_eq,
}
use drbd9_tests.Prelude.Dict.{Dict, lookup, insert}
use drbd9_tests.Results.{Result, ok, err, value_error, ◌>>=◌}
use drbd9_tests.Runner.Loop.{TestResult, ReturnCode, is_success}

-- { 'time' or 'successes': amount, 'count': count }
pub record Total : Type 0 where
  pub amount : ℕ
  pub count : ℕ

pub record Statistic : Type 0 where
  pub average_runtime : Option (ℕ × ℕ)
  pub success_rate : Option (ℕ × ℕ)
  pub count : Option ℕ

abbrev pub zero_total : Total
zero_total = record { amount = 0; count = 0 }

abbrev pub total_of : String → Dict String Total → Total
total_of name totals = elim (lookup name totals) [ none ↦ zero_total | some t ↦ t ]

-- `if name not in totals: ...`, and the additions.
unfoldable pub add_to : String → ℕ → Dict String Total → Dict String Total
unfolding lookup insert
add_to name amount totals =
    let t = total_of name totals in
    insert name (record { amount = t.amount + amount; count = t.count + 1 }) totals

pub record Totals : Type 0 where
  pub times : Dict String Total
  pub successes : Dict String Total

unfoldable pub add_result : String → TestResult → Totals → Totals
add_result name params totals =
    if is_success params.exit_code
    then record {
      times = add_to name params.run_time totals.times;
      successes = add_to name 1 totals.successes;
    }
    else record totals { successes = add_to name 0 totals.successes }

unfoldable pub add_run : Dict String TestResult → Totals → Totals
add_run [] totals = totals
add_run ((name, params) ∷ results) totals = add_run results (add_result name params totals)

unfoldable pub add_runs : List (Dict String TestResult) → Totals → Totals
add_runs [] totals = totals
add_runs (results ∷ db) totals = add_runs db (add_run results totals)

unfoldable pub divide : ℕ → ℕ → Result (ℕ × ℕ)
divide a zero = err value_error
divide a (suc n) = ok (a, suc n)

abbrev pub no_statistic : Statistic
no_statistic = record { average_runtime = none; success_rate = none; count = none }

abbrev pub statistic_of : String → Dict String Statistic → Statistic
statistic_of name statistics = elim (lookup name statistics) [ none ↦ no_statistic | some s ↦ s ]

unfoldable pub set_times :
    Dict String Total → Dict String Statistic → Result (Dict String Statistic)
unfolding divide lookup insert
set_times [] statistics = ok statistics
set_times ((name, v) ∷ rest) statistics = do
  av ← divide v.amount v.count
  set_times rest
      (insert name (record (statistic_of name statistics) { average_runtime = some av }) statistics)

unfoldable pub set_rates :
    Dict String Total → Dict String Statistic → Result (Dict String Statistic)
unfolding divide lookup insert
set_rates [] statistics = ok statistics
set_rates ((name, v) ∷ rest) statistics = do
  av ← divide v.amount v.count
  set_rates rest (
      insert name
        (record (statistic_of name statistics) { success_rate = some av; count = some v.count })
        statistics)

unfoldable pub find_statistics :
    List (Dict String TestResult) → Dict String Statistic → Result (Dict String Statistic)
find_statistics db statistics = do
  let totals = add_runs db (record { times = []; successes = [] })
  timed ← set_times totals.times statistics
  set_rates totals.successes timed
