-- ===== src/OrderedSet/Access.antt =====
-- python/ordered_set.py: indexing by positions, slices and lists of them, the state that is pickled, and
-- equality. Slices with a step are not modelled.
use drbd9_tests.Prelude.{
  ℕ, zero, suc, ◌-◌, ◌≡◌, ◌↔◌, refl, ◌∙◌, Bool, true, false, ◌&&◌, Option, none, some, List, [],
  ◌∷◌, Eq, ◌==◌, beq_refl, nat_eq, contains, length, get_elem?, take, drop, all, ltb, min,
  if◌then◌else◌, arith,
}
use drbd9_tests.Results.{Result, ok, err, index_error, key_error, collect, or_raise, ◌>>=◌}
use drbd9_tests.OrderedSet.{OrderedSet, from_list, copy, index}
use drbd9_tests.OrderedSet.Invariant.{IsConsistent}
use drbd9_tests.OrderedSet.Order.{enumerate, numbered, copy-numbered}
use mathlib.Core.List.{head-eq_of_cons-eq, tail-eq_of_cons-eq}

-- A position from the start, or from the end: `-n`.
pub data Position : Type 0 where
  from_start from_end : ℕ → Position

-- What `__getitem__` takes: an integer, a slice, or an iterable of integers.
pub data Index : Type 0 where
  at : Position → Index
  slice : Option Position → Option Position → Index
  several : List Position → Index

-- An entry, or a set.
pub data Found {ℓ} (A : Type ℓ) : Type ℓ where
  one : A → Found A
  subset : OrderedSet A → Found A

-- `-n` is `len - n`, and `-0` is 0.
position : ℕ → Position → Option ℕ
position size (from_start i) = some i
position size (from_end zero) = some 0
position size (from_end (suc n)) = if ltb size (suc n) then none else some (size - suc n)

-- A bound of a slice, which is cut off at the ends.
bound : ℕ → ℕ → Option Position → ℕ
unfolding position
bound size default none = default
bound size default (some p) = elim (position size p) [ none ↦ 0 | some i ↦ min i size ]

module _ {ℓ} {A : Type ℓ} where
  -- `self.items[i]`
  unfoldable pub item_at : List A → Position → Result A
  unfolding position
  item_at items p = elim (position (length items) p) [
    | none ↦ err index_error
    | some i ↦ or_raise index_error (get_elem? items i)
  ]

  unfoldable pub slice_of : List A → Option Position → Option Position → List A
  unfolding bound
  slice_of items first last =
      let size = length items in drop (bound size 0 first) (take (bound size size last) items)

module _ {ℓ} {A : Type ℓ} ⦃e : Eq A⦄ where
  -- `__getitem__`; the whole slice gives the set itself.
  unfoldable pub get_item : Index → OrderedSet A → Result (Found A)
  unfolding item_at slice_of from_list collect
  get_item (at p) s = do x ← item_at s.items p; ok (one x)
  get_item (slice none none) s = ok (subset s)
  get_item (slice (some p) last) s = ok (subset (from_list (slice_of s.items (some p) last)))
  get_item (slice none (some q)) s = ok (subset (from_list (slice_of s.items none (some q))))
  get_item (several ps) s = do xs ← collect (item_at s.items) ps; ok (subset (from_list xs))

  -- `index` of an iterable of entries
  unfoldable pub index_all : List A → OrderedSet A → Result (List ℕ)
  unfolding index collect
  index_all entries s = collect (λ key. or_raise key_error (index key s)) entries

  -- `__getstate__`, where `none` is the tuple `(None,)`, and `__setstate__`
  unfoldable pub get_state : OrderedSet A → Option (List A)
  get_state s = if length s.items == 0 then none else some s.items

  unfoldable pub set_state : Option (List A) → OrderedSet A
  unfolding from_list
  set_state none = from_list []
  set_state (some items) = from_list items

  same_items : List A → List A → Bool
  same_items [] [] = true
  same_items [] (y ∷ ys) = false
  same_items (x ∷ xs) [] = false
  same_items (x ∷ xs) (y ∷ ys) = x == y && same_items xs ys

  -- `==` of two ordered sets, and of an ordered set and another collection
  unfoldable pub equals : OrderedSet A → OrderedSet A → Bool
  unfolding same_items
  equals s t = length s.items == length t.items && same_items s.items t.items

  unfoldable pub equals_collection : OrderedSet A → List A → Bool
  equals_collection s other =
      all (λ x. contains x other) s.items && all (λ y. contains y s.items) other

  same_items_iff : (xs ys : List A) → (same_items xs ys ≡ true) ↔ (xs ≡ ys)
  unfolding same_items
  same_items_iff [] [] = (λ h. refl, λ h. refl)
  same_items_iff [] (y ∷ ys) = (λ h. absurd (cc), λ h. absurd (cc))
  same_items_iff (x ∷ xs) [] = (λ h. absurd (cc), λ h. absurd (cc))
  same_items_iff (x ∷ xs) (y ∷ ys) = (
    λ h. ground (arith, e.beq_iff x y, same_items_iff xs ys),
    λ h. rw (head-eq_of_cons-eq h, beq_refl, (same_items_iff xs ys).1 (tail-eq_of_cons-eq h)) refl,
  )

  length_cons : (x : A) (xs : List A) → (length (x ∷ xs) == 0) ≡ false
  length_cons x xs = ground arith

  set_state_nonempty :
      (xs : List A) → set_state (if length xs == 0 then none else some xs) ≡ from_list xs
  unfolding set_state from_list
  set_state_nonempty [] = refl
  set_state_nonempty (x ∷ xs) = rw (length_cons x xs) refl

  -- A set that went through its pickled state has the same entries, with their positions as indices, and equals
  -- the set that was pickled.
  pub set_state-get_state :
      (s : OrderedSet A)
      → IsConsistent s
      → (set_state (get_state s) ≡ record { items = s.items; map = enumerate 0 s.items })
        × (equals s (set_state (get_state s)) ≡ true)
  unfolding get_state equals copy
  set_state-get_state s c =
      let restored : set_state (get_state s) ≡ numbered s.items =
        set_state_nonempty s.items ∙ copy-numbered s c.distinct in
      (restored, rw (restored, beq_refl (length s.items)) ((same_items_iff s.items s.items).1 refl))
