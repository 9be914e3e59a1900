-- ===== src/Runner/Main/Laws.antt =====
-- What the iterations of `main` in run.py add up.
use drbd9_tests.Prelude.{
  ℕ, zero, suc, ◌≤◌, ◌≡◌, refl, ap, sym, ◌∙◌, true, some, List, [], ◌∷◌, ◌++◌, map, String, length,
  is_some, ltb, ◌||◌, arith, inl,
}
use mathlib.Core.List.{append_assoc, append-nil}
use mathlib.Core.Path.{subst}
use drbd9_tests.Prelude.Dict.{Dict}
use drbd9_tests.Results.{Result, ok}
use drbd9_tests.Exec.{Exec, pure, lift, ◌>>=◌, >>=-eq-ok}
use drbd9_tests.Runner.Statistics.{find_statistics}
use drbd9_tests.Runner.Loop.{
  ReturnCode, TestSet, Lab, Progress, Flow, is_success, no_progress, original_lvs, run_sets,
  outcome,
}
use drbd9_tests.Runner.Loop.Laws.{IsReported, run_sets-Tallied, outcome-IsReported}
use drbd9_tests.Runner.Main.{
  Args, Entry, Site, Sums, no_sums, add_iteration, test_sets, run_iteration, iterate,
}

-- Never are more tests successful than were run; if all were, the last exit code is 0.
pub record IsCounted (sums : Sums) : Type 0 where
  pub bounded : sums.total_successful ≤ sums.total_ran
  pub all_zero :
      (code : ReturnCode)
      → sums.total_successful ≡ sums.total_ran
      → sums.exit_code ≡ some code
      → is_success code ≡ true

-- What some iterations add: an entry of the history for each, and an exit code.
pub record Added (n : ℕ) (sums out : Sums) : Type 0 where
  pub entries : (new : List Entry) × (out.result_db ≡ sums.result_db ++ new) × (length new ≡ n)
  pub counted : IsCounted out
  pub has_code : is_some out.exit_code ≡ (is_some sums.exit_code || ltb 0 n)

module _ {S : Type 0} (lab : Lab S) (site : Site S) (report : String → Result (List String))
    (args : Args) where
  abbrev Good : ReturnCode × Progress → Type 0
  Good x = IsReported args.keep_going x

  run_iteration-Good :
      (s t : S) (x : ReturnCode × Progress)
      → run_iteration lab site report args s ≡ (ok x, t)
      → Good x
  unfolding run_iteration
  run_iteration-Good s t x h =
      let loops : Dict String (List String) → List TestSet → Exec S Flow = λ originals sets.
        run_sets lab args.vm_name args.exclude args.keep_going args.num_skip originals sets
          no_progress in
      let finished : Flow → Exec S (ReturnCode × Progress) = λ f. pure (outcome f) in
      let (originals, u, _, k) =
        >>=-eq-ok (original_lvs lab args.vm_name [])
          (λ o. test_sets lab site report args >>= λ sets. loops o sets >>= finished) s h in
      let (sets, v, _, l) =
        >>=-eq-ok (test_sets lab site report args) (λ sets. loops originals sets >>= finished) u
          k in
      let (f, w, ran, m) = >>=-eq-ok (loops originals sets) finished v l in
      let tally =
        run_sets-Tallied lab args.vm_name args.exclude args.keep_going args.num_skip originals sets
          no_progress v w f
          (record { bounded = omega arith; zero_all = λ _. refl; all_zero = λ _. refl }) ran in
      let same : outcome f ≡ x = cc in subst Good same (outcome-IsReported args.keep_going f tally)

  add_iteration-IsCounted :
      (versions : String × String × String) (date : String) (x : ReturnCode × Progress)
      (sums : Sums)
      → Good x
      → IsCounted sums
      → IsCounted (add_iteration versions date x.0 x.1 sums)
  unfolding add_iteration
  add_iteration-IsCounted versions date x sums (bounded, (to, from)) counted = record {
    bounded = omega (arith, counted.bounded);
    all_zero = λ code all is_code.
        let last : x.1.num_successful ≡ x.1.num_total =
          omega (arith, counted.bounded, bounded, all) in
        let same : x.0 ≡ code = cc in rw (← same) (from (inl last));
  }

  step_adds :
      (n : ℕ) (versions : String × String × String) (date : String) (x : ReturnCode × Progress)
      (sums out : Sums)
      → Added n (add_iteration versions date x.0 x.1 sums) out
      → Added (suc n) sums out
  unfolding add_iteration
  step_adds n (kernel, version, git) date x sums out later =
      let (new, same, size) = later.entries in
      let entry : Entry = record {
        version = version;
        git_hash = git;
        kernel = kernel;
        date_time = date;
        results = x.1.results;
      } in
      record {
        entries = (entry ∷ new, same ∙ append_assoc sums.result_db (entry ∷ []) new, ap suc size);
        counted = later.counted;
        has_code = ground (arith, later.has_code);
      }

  iterate_from-Added :
      (versions : String × String × String) (n : ℕ) (sums out : Sums) (s t : S)
      → IsCounted sums
      → iterate lab site report args versions n sums s ≡ (ok out, t)
      → Added n sums out
  unfolding iterate
  iterate_from-Added versions zero sums out s t counted h =
      let same : sums ≡ out = cc in
      subst (Added 0 sums) same (record {
        entries = ([], sym (append-nil sums.result_db), refl);
        counted = counted;
        has_code = ground arith;
      })
  iterate_from-Added versions (suc n) sums out s t counted h =
      let next : ReturnCode × Progress → String → Sums =
        λ x date. add_iteration versions date x.0 x.1 sums in
      let loop : Sums → Exec S Sums = iterate lab site report args versions n in
      let dated : ReturnCode × Progress → Exec S Sums =
        λ x. site.date_time >>= λ date. loop (next x date) in
      let (_, u, _, k) =
        >>=-eq-ok (lift (find_statistics (map (λ e. e.results) sums.result_db) []))
          (λ _. run_iteration lab site report args >>= dated) s h in
      let (x, v, ran, l) = >>=-eq-ok (run_iteration lab site report args) dated u k in
      let (date, w, _, m) = >>=-eq-ok site.date_time (λ date. loop (next x date)) v l in
      step_adds n versions date x sums out (
        iterate_from-Added versions n (next x date) out w t
          (add_iteration-IsCounted versions date x sums (run_iteration-Good u v x ran) counted) m)

-- When the iterations of `main` are done, the history has one new entry for each behind those that were
-- read, no more successful tests were counted than were run, and there is an exit code exactly if there was
-- an iteration; if all tests of all iterations were successful, it is 0.
pub iterate-Added :
    {S : Type 0} (lab : Lab S) (site : Site S) (report : String → Result (List String))
    (args : Args) (versions : String × String × String) (n : ℕ) (db : List Entry) (out : Sums)
    (s t : S)
    → iterate lab site report args versions n (no_sums db) s ≡ (ok out, t)
    → Added n (no_sums db) out
iterate-Added lab site report args versions n db out s t h =
    iterate_from-Added lab site report args versions n (no_sums db) out s t
      (record { bounded = omega arith; all_zero = λ code e is_code. absurd (cc) }) h
