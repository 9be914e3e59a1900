-- ===== src/Runner/Analysis/Laws.antt =====
-- `analyze` of run.py compares no number with None: a test has an average run time exactly if it was
-- successful once, which its rate of success shows.
use drbd9_tests.Prelude.{
  ℕ, zero, suc, ◌+◌, ◌<◌, ◌≡◌, refl, sym, ◌||◌, none, some, List, [], ◌∷◌, String, if◌then◌else◌,
  string_eq, ◌==◌, ltb, is_some, arith, Bool-cases, Option-cases, inl, inr,
}
use drbd9_tests.Prelude.Dict.{Dict, keys, lookup, insert, lookup-insert}
use drbd9_tests.Results.{ok, >>=-eq-ok, ok_injective}
use drbd9_tests.OrderedSet.Invariant.{Distinct}
use drbd9_tests.OrderedSet.Keys.{insert-Distinct, absent, lookup-All}
use drbd9_tests.Runner.Loop.{TestResult, is_success}
use drbd9_tests.Runner.Statistics.Laws.{add_runs-BothCounted}
use drbd9_tests.Runner.Statistics.{
  Total, Totals, Statistic, total_of, statistic_of, add_to, add_result, add_run, add_runs, divide,
  set_times, set_rates, find_statistics,
}

-- A test was successful at some time exactly if the sum of its run times was begun.
record IsLinked (t : Totals) : Type 0 where
  distinct : Distinct (keys t.successes)
  linked :
      (name : String) → is_some (lookup name t.times) ≡ ltb 0 (total_of name t.successes).amount

lookup-add_to :
    (j name : String) (n : ℕ) (d : Dict String Total)
    → lookup j (add_to name n d) ≡ (
        if j == name
        then some
            (record { amount = (total_of name d).amount + n; count = (total_of name d).count + 1 })
        else lookup j d)
unfolding add_to
lookup-add_to j name n d = lookup-insert j name _ d

add_to-Distinct :
    (name : String) (n : ℕ) (d : Dict String Total)
    → Distinct (keys d)
    → Distinct (keys (add_to name n d))
unfolding add_to
add_to-Distinct name n d h = insert-Distinct name _ d h

add_result-IsLinked :
    (name : String) (r : TestResult) (t : Totals) → IsLinked t → IsLinked (add_result name r t)
unfolding add_result
add_result-IsLinked name r t h = elim (Bool-cases (is_success r.exit_code)) [
  | inl good ↦ rw good (record {
    distinct = add_to-Distinct name 1 t.successes h.distinct;
    linked = λ j. ground (
      arith,
      string_eq.beq_iff j name,
      h.linked j,
      lookup-add_to j name r.run_time t.times,
      lookup-add_to j name 1 t.successes,
    );
  })
  | inr bad ↦ rw bad (record {
    distinct = add_to-Distinct name 0 t.successes h.distinct;
    linked = λ j.
        ground (arith, string_eq.beq_iff j name, h.linked j, lookup-add_to j name 0 t.successes);
  })
]

add_run-IsLinked :
    (results : Dict String TestResult) (t : Totals) → IsLinked t → IsLinked (add_run results t)
unfolding add_run
add_run-IsLinked [] t h = h
add_run-IsLinked ((name, r) ∷ results) t h =
    add_run-IsLinked results (add_result name r t) (add_result-IsLinked name r t h)

add_runs-IsLinked :
    (db : List (Dict String TestResult)) (t : Totals) → IsLinked t → IsLinked (add_runs db t)
unfolding add_runs
add_runs-IsLinked [] t h = h
add_runs-IsLinked (results ∷ db) t h =
    add_runs-IsLinked db (add_run results t) (add_run-IsLinked results t h)

statistic_of-insert :
    (j k : String) (v : Statistic) (d : Dict String Statistic)
    → statistic_of j (insert k v d) ≡ (if j == k then v else statistic_of j d)
statistic_of-insert j k v d = ground (arith, lookup-insert j k v d)

-- What the loop over the run times does to the statistic of a name.
record Timed (name : String) (d : Dict String Total) (s out : Dict String Statistic) : Type 0 where
  average :
      is_some (statistic_of name out).average_runtime
      ≡ (is_some (statistic_of name s).average_runtime || is_some (lookup name d))
  rate : (statistic_of name out).success_rate ≡ (statistic_of name s).success_rate
  named : is_some (lookup name out) ≡ (is_some (lookup name s) || is_some (lookup name d))
  own : Distinct (keys s) → Distinct (keys out)

set_times-Timed :
    (name : String) (d : Dict String Total) (s out : Dict String Statistic)
    → set_times d s ≡ ok out
    → Timed name d s out
unfolding set_times lookup
set_times-Timed name [] s out h =
    let same : s ≡ out = ok_injective h in
    rw (← same) (record { average = ground arith; rate = refl; named = ground arith; own = λ k. k })
set_times-Timed name ((j, v) ∷ d) s out h =
    let step : ℕ × ℕ → Statistic = λ av. record (statistic_of j s) { average_runtime = some av } in
    let (av, _, rest) =
      >>=-eq-ok (divide v.amount v.count) (λ av. set_times d (insert j (step av) s)) h in
    let later = set_times-Timed name d (insert j (step av) s) out rest in
    let changed = statistic_of-insert name j (step av) s in
    let found = lookup-insert name j (step av) s in
    record {
      average = ground (arith, string_eq.beq_iff name j, later.average);
      rate = ground (arith, string_eq.beq_iff name j, later.rate);
      named = ground (arith, later.named);
      own = λ k. later.own (insert-Distinct j (step av) s k);
    }

-- And what the loop over the successes does.
record Rated (name : String) (d : Dict String Total) (s out : Dict String Statistic) : Type 0 where
  average : (statistic_of name out).average_runtime ≡ (statistic_of name s).average_runtime
  rate :
      (v : Total)
      → lookup name d ≡ some v
      → (statistic_of name out).success_rate ≡ some (v.amount, v.count)
  kept :
      lookup name d ≡ none
      → (statistic_of name out).success_rate ≡ (statistic_of name s).success_rate
  named : is_some (lookup name out) ≡ (is_some (lookup name s) || is_some (lookup name d))
  own : Distinct (keys s) → Distinct (keys out)

divide_value : (a n : ℕ) {x : ℕ × ℕ} → divide a n ≡ ok x → x ≡ (a, n)
unfolding divide
divide_value a zero h = absurd (cc)
divide_value a (suc n) h = sym (ok_injective h)

set_rates-Rated :
    (name : String) (d : Dict String Total) (s out : Dict String Statistic)
    → Distinct (keys d)
    → set_rates d s ≡ ok out
    → Rated name d s out
unfolding set_rates lookup
set_rates-Rated name [] s out distinct h =
    let same : s ≡ out = ok_injective h in
    rw (← same) (record {
      average = refl;
      rate = λ v e. absurd (cc);
      kept = λ e. refl;
      named = ground arith;
      own = λ k. k;
    })
set_rates-Rated name ((j, w) ∷ d) s out (fresh, distinct) h =
    let step : ℕ × ℕ → Statistic =
      λ av. record (statistic_of j s) { success_rate = some av; count = some w.count } in
    let (av, divided, rest) =
      >>=-eq-ok (divide w.amount w.count) (λ av. set_rates d (insert j (step av) s)) h in
    let later = set_rates-Rated name d (insert j (step av) s) out distinct rest in
    let changed = statistic_of-insert name j (step av) s in
    let found = lookup-insert name j (step av) s in
    let value : av ≡ (w.amount, w.count) = divide_value w.amount w.count divided in
    let key = string_eq.beq_iff name j in
    let gone = absent j d fresh in
    elim (Bool-cases (name == j)) [
      | inl same ↦
          let is_key : name ≡ j = key.0 same in
          let none_later : lookup name d ≡ none = rw is_key gone in
          record {
            average = ground (arith, later.average);
            rate = λ v e. ground (arith, later.kept none_later);
            kept = λ e. absurd (ground arith);
            named = ground (arith, later.named);
            own = λ k. later.own (insert-Distinct j (step av) s k);
          }
      | inr differ ↦ record {
        average = ground (arith, later.average);
        rate = λ v e. ground (arith, later.rate v);
        kept = λ e. ground (arith, later.kept);
        named = ground (arith, later.named);
        own = λ k. later.own (insert-Distinct j (step av) s k);
      }
    ]

no_links : (j : String) → is_some (lookup {V = Total} j []) ≡ ltb 0 (total_of j []).amount
unfolding lookup
no_links j = refl

-- The rate of success is a quotient, and it is not 0 exactly if there is an average run time.
pub record IsCoherent (s : Statistic) : Type 0 where
  pub successes : ℕ
  pub runs : ℕ
  pub rate : s.success_rate ≡ some (successes, runs)
  pub some_runs : 0 < runs
  pub timed : is_some s.average_runtime ≡ ltb 0 successes

pub find_statistics-IsCoherent :
    (db : List (Dict String TestResult)) (out : Dict String Statistic) (name : String)
    (s : Statistic)
    → find_statistics db [] ≡ ok out
    → lookup name out ≡ some s
    → IsCoherent s
unfolding find_statistics lookup
find_statistics-IsCoherent db out name s h found =
    let start : Totals = record { times = []; successes = [] } in
    let t = add_runs db start in
    let links = add_runs-IsLinked db start (record { distinct = tt; linked = no_links }) in
    let (_, counted) = add_runs-BothCounted db start (tt, tt) in
    let (middle, e, k) =
      >>=-eq-ok (set_times t.times []) (λ timed. set_rates t.successes timed) h in
    let timing = set_times-Timed name t.times [] middle e in
    let rating = set_rates-Rated name t.successes middle out links.distinct k in
    let link = links.linked name in
    elim (Option-cases (lookup name t.successes)) [
      | inl gone ↦ absurd ground (arith, timing.named, rating.named)
      | inr (v, there) ↦ record {
        successes = v.amount;
        runs = v.count;
        rate = ground (arith, rating.rate v there);
        some_runs = lookup-All (λ entry. 0 < entry.1.count) name v t.successes counted there;
        timed = ground (arith, rating.average, timing.average);
      }
    ]

-- The names of the statistics are distinct.
pub find_statistics-Distinct :
    (db : List (Dict String TestResult)) (out : Dict String Statistic)
    → find_statistics db [] ≡ ok out
    → Distinct (keys out)
unfolding find_statistics
find_statistics-Distinct db out h =
    let start : Totals = record { times = []; successes = [] } in
    let t = add_runs db start in
    let links = add_runs-IsLinked db start (record { distinct = tt; linked = no_links }) in
    let (middle, e, k) =
      >>=-eq-ok (set_times t.times []) (λ timed. set_rates t.successes timed) h in
    (set_rates-Rated "" t.successes middle out links.distinct k).own
      ((set_times-Timed "" t.times [] middle e).own tt)
