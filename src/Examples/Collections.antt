-- ===== src/Examples/Collections.antt =====
-- Runs of `Collection` of python/drbdtest.py; a member is a resource and a number.
use drbd9_tests.Prelude.{ℕ, ◌≡◌, refl, none, some, List, [], ◌∷◌, nat_eq, pair_eq, ◌⊎◌}
use drbd9_tests.OrderedSet.{OrderedSet, update, from_list}
use drbd9_tests.OrderedSet.Access.{Position}
use drbd9_tests.Results.{ok, err, assertion_error}
use drbd9_tests.Framework.Collection.{collection, extend}
use drbd9_tests.Framework.Collection.Laws.{Sharing, IsCollection}
use drbd9_tests.Framework.Collection.Calls.{
  Call, popping, adding, without_all, slicing, perform_all, perform_all-IsCollection, old_and_new,
  extend-outcome,
}

abbrev resource : ℕ × ℕ → ℕ
resource member = member.0

abbrev members : List (ℕ × ℕ)
members = (1, 10) ∷ (1, 11) ∷ (1, 10) ∷ (1, 12) ∷ []

abbrev calls : List (Call (ℕ × ℕ))
calls =
    popping
    ∷ adding (1, 13)
    ∷ without_all ((1, 12) ∷ [])
    ∷ slicing (some (Position.from_end 2)) none
    ∷ []

abbrev after : OrderedSet (ℕ × ℕ)
after = from_list ((1, 11) ∷ (1, 13) ∷ [])

made : collection resource members ≡ ok (from_list members)
unfolding collection
made = refl

called : perform_all resource calls (from_list members) ≡ ok after
unfolding perform_all from_list
called = refl

perform_all-IsCollection_example : IsCollection resource after
perform_all-IsCollection_example =
    perform_all-IsCollection resource members calls (from_list members) after made called

abbrev foreign : List (ℕ × ℕ)
foreign = (2, 20) ∷ []

foreign_raises : extend resource foreign after ≡ err assertion_error
unfolding extend from_list
foreign_raises = refl

extend-outcome_example :
    (Sharing resource (old_and_new resource after foreign)
      × (extend resource foreign after ≡ ok (update foreign after).1))
    ⊎ (¬ Sharing resource (old_and_new resource after foreign)
        × (extend resource foreign after ≡ err assertion_error))
extend-outcome_example = extend-outcome resource foreign after perform_all-IsCollection_example
