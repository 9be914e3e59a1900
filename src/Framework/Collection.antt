-- ===== src/Framework/Collection.antt =====
-- `Collection` of python/drbdtest.py: nodes, volumes, connections or peer devices of one resource. Of
-- a member the collection reads its resource only, which `is` compares. The class checks are the type
-- of the members.
pub mod Laws
pub mod Calls
use drbd9_tests.Prelude.{
  ℕ, Bool, true, false, not, ◌&&◌, Option, List, [], ◌∷◌, Eq, ◌==◌, nat_eq, all, length,
  if◌then◌else◌,
}
use drbd9_tests.OrderedSet.{OrderedSet, empty, has, add, update, discard, difference, from_list}
use drbd9_tests.OrderedSet.Access.{Position, item_at, slice_of}
use drbd9_tests.Results.{Result, ok, err, raise_if, runtime_error, assertion_error, ◌>>=◌, ◌>>◌}

-- `for member in members: assert c`
unfoldable pub assert_each {ℓ} : {A : Type ℓ} → List A → Bool → Result (Unit {0})
assert_each [] c = ok tt
assert_each (x ∷ xs) c = raise_if (not c) assertion_error >> assert_each xs c

module _ {ℓ κ} {A : Type ℓ} {R : Type κ} ⦃e : Eq A⦄ ⦃r : Eq R⦄ (resource : A → R) where
  -- `same_resource(members)` of a collection of the second list
  unfoldable pub same_resource : List A → List A → Bool
  same_resource members (x ∷ xs) = all (λ m. resource m == resource x) members
  same_resource (m ∷ ms) [] = all (λ x. resource x == resource m) ms
  same_resource [] [] = true

  -- `__init__`
  unfoldable pub collection : List A → Result (OrderedSet A)
  unfolding from_list assert_each same_resource
  collection members =
      let s = from_list members in do assert_each members (same_resource members s.items); ok s

  unfoldable pub add_member : A → OrderedSet A → Result (OrderedSet A)
  unfolding same_resource add
  add_member member s = do
    raise_if (not (same_resource (member ∷ []) s.items)) assertion_error
    ok (add member s).1

  unfoldable pub remove_member : A → OrderedSet A → Result (OrderedSet A)
  unfolding same_resource has discard
  remove_member member s = do
    raise_if (not (same_resource (member ∷ []) s.items)) assertion_error
    ok (if has member s then discard member s else s)

  unfoldable pub extend : List A → OrderedSet A → Result (OrderedSet A)
  unfolding assert_each same_resource update
  extend members s = do assert_each members (same_resource members s.items); ok (update members s).1

  -- `difference`
  unfoldable pub without : List A → OrderedSet A → Result (OrderedSet A)
  unfolding assert_each same_resource difference collection
  without members s = do
    assert_each members (same_resource members s.items)
    collection (difference members s).items

  -- `pop`: the first member, and the collection afterwards
  unfoldable pub pop_first : OrderedSet A → Result (A × OrderedSet A)
  unfolding item_at remove_member
  pop_first s = do
    raise_if (length s.items == 0) runtime_error
    member ← item_at s.items (Position.from_start 0)
    rest ← remove_member member s
    ok (member, rest)

  -- `self[first:last]`
  unfoldable pub part : Option Position → Option Position → OrderedSet A → Result (OrderedSet A)
  unfolding slice_of collection
  part first last s = collection (slice_of s.items first last)

  -- `for member in self.members: result.extend(getattr(member, name))`
  unfoldable pub extend_each :
      {B : Type ℓ} → (B → List A) → List B → OrderedSet A → Result (OrderedSet A)
  unfolding extend
  extend_each values [] result = ok result
  extend_each values (member ∷ members) result = do
    next ← extend (values member) result
    extend_each values members next

  -- `Collection.property`: the union of what the members have
  unfoldable pub union_of : {B : Type ℓ} → (B → List A) → OrderedSet B → Result (OrderedSet A)
  unfolding extend_each
  union_of values members = extend_each values members.items empty
