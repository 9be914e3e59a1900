-- ===== src/Runner/TestSets/Laws.antt =====
-- Every test that fits is in exactly the group for the machines that it uses.
use drbd9_tests.Prelude.{
  ℕ, ◌≡◌, ◌∙◌, ap, sym, refl, Bool, false, ◌&&◌, Option, none, some, List, [], ◌∷◌, ◌++◌, String,
  min, leb, ◌==◌, nat_eq, if◌then◌else◌, arith, keep,
}
use drbd9_tests.Prelude.Dict.{Dict, lookup, insert, lookup-insert}
use drbd9_tests.Results.{Result, ok, err, >>=-eq-ok, ok_injective}
use drbd9_tests.Runner.TestSets.{
  Report, read_test, put_test, place_test, generate_loop, generate_test_set,
}
use mathlib.Core.List.{append-nil, append_assoc}

-- The tests of a group; a group that is not there is empty.
abbrev pub group : ℕ → Dict ℕ (List String) → List String
group n sets = elim (lookup n sets) [ none ↦ [] | some tests ↦ tests ]

group-put_test :
    (n k : ℕ) (test : String) (sets : Dict ℕ (List String))
    → group k (put_test n test sets) ≡ (if k == n then group k sets ++ test ∷ [] else group k sets)
unfolding put_test
group-put_test n k test sets = placed (lookup n sets) refl
  where
    placed :
        (o : Option (List String))
        → lookup n sets ≡ o
        → group k (elim o [
          | some tests ↦ insert n (tests ++ test ∷ []) sets
          | none ↦ insert n (test ∷ []) sets
        ])
          ≡ (if k == n then group k sets ++ test ∷ [] else group k sets)
    placed none e = ground (arith, lookup-insert k n (test ∷ []) sets)
    placed (some tests) e = ground (arith, lookup-insert k n (tests ++ test ∷ []) sets)

keep-cons {ℓ} :
    {A : Type ℓ} (p : A → Bool) (x : A) (xs : List A)
    → keep p (x ∷ []) ++ keep p xs ≡ keep p (x ∷ xs)
keep-cons p x xs = ground arith

module _ (report : String → Result (List String)) (n_vms : ℕ) where
  -- Whether a test belongs to the group of `k` machines: it needs no more than there are, and it
  -- uses `k`, the smaller of their number and its own maximum.
  abbrev pub runs_on : ℕ → String → Bool
  runs_on k test = elim (read_test report test) [
    | err e ↦ false
    | ok needs ↦ leb needs.min_nodes n_vms && k == min n_vms needs.max_nodes
  ]

  pub runs_on_read :
      (k : ℕ) (test : String) (needs : Report)
      → read_test report test ≡ ok needs
      → runs_on k test ≡ (leb needs.min_nodes n_vms && k == min n_vms needs.max_nodes)
  runs_on_read k test needs known = rw (known, runs_on) refl

  place_test-group :
      (k : ℕ) (test : String) (sets out : Dict ℕ (List String))
      → place_test report n_vms test sets ≡ ok out
      → group k out ≡ group k sets ++ keep (runs_on k) (test ∷ [])
  unfolding place_test
  place_test-group k test sets out h =
      let place : Report → Result (Dict ℕ (List String)) = λ needs. ok (
        if leb needs.min_nodes n_vms
        then put_test (min n_vms needs.max_nodes) test sets
        else sets) in
      let (needs, known, placed) = >>=-eq-ok (read_test report test) place h in
      ground (
        arith,
        group-put_test (min n_vms needs.max_nodes) k test sets,
        append-nil (group k sets),
        ap (group k) (ok_injective placed),
        runs_on_read k test needs known,
      )

  generate_loop-group :
      (k : ℕ) (tests : List String) (sets out : Dict ℕ (List String))
      → generate_loop report n_vms tests sets ≡ ok out
      → group k out ≡ group k sets ++ keep (runs_on k) tests
  unfolding generate_loop
  generate_loop-group k [] sets out h = rw append-nil (ap (group k) (ok_injective (sym h)))
  generate_loop-group k (test ∷ tests) sets out h =
      let (mid, placed, later) = >>=-eq-ok (place_test report n_vms test sets) _ h in
      generate_loop-group k tests mid out later
      ∙ rw (place_test-group k test sets mid placed) (
          append_assoc (group k sets) (keep (runs_on k) (test ∷ [])) (keep (runs_on k) tests)
          ∙ ap (λ xs. group k sets ++ xs) (keep-cons (runs_on k) test tests))

  -- When the grouping succeeds, the group of `k` machines holds exactly the tests that run on `k`
  -- machines, in the order in which they were given.
  pub generate_test_set-group :
      (tests : List String) (sets : Dict ℕ (List String)) (k : ℕ)
      → generate_test_set report tests n_vms ≡ ok sets
      → group k sets ≡ keep (runs_on k) tests
  unfolding generate_test_set lookup
  generate_test_set-group tests sets k h = generate_loop-group k tests [] sets h
