-- ===== src/OrderedSet.antt =====
-- python/ordered_set.py: a set that remembers the order in which its entries were added.
pub mod Invariant
pub mod Order
pub mod Drift
pub mod Keys
pub mod Access
use drbd9_tests.Prelude.{
  ℕ, ◌≡◌, refl, Bool, true, false, Option, none, some, List, [], ◌∷◌, ◌++◌, Eq, ◌==◌, is_some,
  length, if◌then◌else◌,
}
use drbd9_tests.Prelude.Dict.{Dict, lookup, pop}

pub record OrderedSet {ℓ} (A : Type ℓ) : Type ℓ where
  pub items : List A
  pub map : Dict A ℕ

abbrev pub empty {ℓ} : {A : Type ℓ} → OrderedSet A
empty = record { items = []; map = [] }

module _ {ℓ} {A : Type ℓ} ⦃e : Eq A⦄ where
  -- `key in s`
  unfoldable pub has : A → OrderedSet A → Bool
  unfolding lookup
  has key s = is_some (lookup key s.map)

  -- `items.remove(key)`: the first entry that is equal goes.
  unfoldable pub remove : A → List A → List A
  remove key [] = []
  remove key (x ∷ xs) = if key == x then xs else x ∷ remove key xs

  -- The index of the key that is added, and the set afterwards.
  unfoldable pub add : A → OrderedSet A → ℕ × OrderedSet A
  unfolding lookup
  add key s = elim (lookup key s.map) [
    | some index ↦ (index, s)
    | none ↦ (
      length s.items,
      record { items = s.items ++ key ∷ []; map = s.map ++ (key, length s.items) ∷ [] },
    )
  ]

  -- `[self.add(e) for e in data]`
  unfoldable pub update : List A → OrderedSet A → List ℕ × OrderedSet A
  unfolding add
  update [] s = ([], s)
  update (x ∷ xs) s = let (i, t) = add x s in let (is, u) = update xs t in (i ∷ is, u)

  unfoldable pub discard : A → OrderedSet A → OrderedSet A
  unfolding pop remove
  discard key s = record { items = remove key s.items; map = pop key s.map }

  unfoldable pub difference_update : List A → OrderedSet A → OrderedSet A
  unfolding discard
  difference_update [] s = s
  difference_update (x ∷ xs) s = difference_update xs (discard x s)

  -- `OrderedSet(iterable)`
  unfoldable pub from_list : List A → OrderedSet A
  unfolding update
  from_list xs = (update xs empty).1

  unfoldable pub copy : OrderedSet A → OrderedSet A
  unfolding from_list
  copy s = from_list s.items

  unfoldable pub difference : List A → OrderedSet A → OrderedSet A
  unfolding copy difference_update
  difference delta s = difference_update delta (copy s)

  -- `none` is the KeyError of `self.map[key]`.
  unfoldable pub index : A → OrderedSet A → Option ℕ
  unfolding lookup
  index key s = lookup key s.map
