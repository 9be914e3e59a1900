-- ===== src/Examples/Sets.antt =====
-- Runs of python/ordered_set.py.
use drbd9_tests.Prelude.{ℕ, ◌≡◌, refl, true, some, List, [], ◌∷◌, nat_eq, length}
use drbd9_tests.OrderedSet.{OrderedSet, empty, discard, index, from_list}
use drbd9_tests.OrderedSet.Invariant.{
  Call, add_one, discard_one, add_all, IsConsistent, perform_all, from_list-IsConsistent,
}
use drbd9_tests.OrderedSet.Drift.{Within, all_removals, perform_all-Within}
use drbd9_tests.OrderedSet.Access.{get_state, set_state, equals, set_state-get_state}
use drbd9_tests.OrderedSet.Order.{enumerate, index-discard_stale}

abbrev calls : List (Call ℕ)
calls = add_all (5 ∷ 7 ∷ 5 ∷ []) ∷ discard_one 5 ∷ add_one 9 ∷ []

perform_all-Within_example :
    IsConsistent {A = ℕ} (perform_all calls empty)
    × Within (all_removals calls) 0 (perform_all calls empty).map
perform_all-Within_example = perform_all-Within calls

abbrev three : OrderedSet ℕ
three = from_list (5 ∷ 7 ∷ 9 ∷ [])

index-discard_stale_example :
    (index 9 (discard 5 three) ≡ some 2) × (length (discard 5 three).items ≡ 2)
index-discard_stale_example = index-discard_stale {A = ℕ} 5 9 (7 ∷ []) (refl, (refl, (refl, tt)))

set_state-get_state_example :
    (set_state (get_state three) ≡ record { items = three.items; map = enumerate 0 three.items })
    × (equals three (set_state (get_state three)) ≡ true)
set_state-get_state_example = set_state-get_state three (from_list-IsConsistent (5 ∷ 7 ∷ 9 ∷ []))
