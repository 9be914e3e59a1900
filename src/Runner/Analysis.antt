-- ===== src/Runner/Analysis.antt =====
-- `analyze` of run.py: the order in which it lists the statistics. What it prints of them is not
-- modelled. A rate is the pair of the two numbers of a quotient.
pub mod Laws
pub mod Order
use drbd9_tests.Prelude.{
  ℕ, ◌*◌, ◌≡◌, Bool, true, false, not, Option, none, some, List, [], ◌∷◌, String, ltb, ◌==◌, nat_eq,
  string_eq, if◌then◌else◌,
}
use drbd9_tests.Prelude.Dict.{Dict}
use drbd9_tests.Results.{Result, ok, err, key_error, type_error, ◌>>=◌, or_raise, collect}
use drbd9_tests.Runner.Loop.{TestResult}
use drbd9_tests.Runner.Statistics.{Statistic, find_statistics}

-- `a / b < c / d` and `a / b == c / d`
abbrev less_rate : ℕ × ℕ → ℕ × ℕ → Bool
less_rate (a, b) (c, d) = ltb (a * d) (c * b)

abbrev same_rate : ℕ × ℕ → ℕ × ℕ → Bool
same_rate (a, b) (c, d) = a * d == c * b

-- The key that a statistic is sorted by: its rate of success, and its average run time if it has one.
abbrev pub SortKey : Type 0
SortKey = (ℕ × ℕ) × Option (ℕ × ℕ)

unfoldable pub sort_key : Statistic → Result SortKey
sort_key s = do rate ← or_raise key_error s.success_rate; ok (rate, s.average_runtime)

-- `<` on the second parts, which Python only asks for if they differ.
unfoldable pub less_average : Option (ℕ × ℕ) → Option (ℕ × ℕ) → Result Bool
less_average none none = ok false
less_average none (some b) = err type_error
less_average (some a) none = err type_error
less_average (some a) (some b) = ok (less_rate a b)

-- `<` on the keys
unfoldable pub less_key : SortKey → SortKey → Result Bool
unfolding less_average
less_key (rate, average) (other, other_average) =
    if same_rate rate other then less_average average other_average else ok (less_rate rate other)

abbrev pub Row : Type 0
Row = SortKey × (String × Statistic)

unfoldable pub row : String × Statistic → Result Row
unfolding sort_key
row (name, s) = do key ← sort_key s; ok (key, (name, s))

-- A sort that keeps the order of equal keys, as `sorted` does, with the greatest key first.
unfoldable pub insert_row : Row → List Row → Result (List Row)
unfolding less_key
insert_row r [] = ok (r ∷ [])
insert_row r (x ∷ xs) = do
  before ← less_key r.0 x.0
  elim before [ true ↦ do rest ← insert_row r xs; ok (x ∷ rest) | false ↦ ok (r ∷ x ∷ xs) ]

unfoldable pub sort_rows : List Row → Result (List Row)
unfolding insert_row
sort_rows [] = ok []
sort_rows (r ∷ rs) = do sorted ← sort_rows rs; insert_row r sorted

-- The statistics in the order in which they are printed.
unfoldable pub analyze : List (Dict String TestResult) → Result (List Row)
unfolding row sort_rows
analyze result_db = do
  statistics ← find_statistics result_db []
  rows ← collect row statistics
  sort_rows rows
