-- ===== src/OrderedSet/Invariant.antt =====
-- OrderedSet: the list of the entries and the keys of the index are the same, without repeats.
use drbd9_tests.Prelude.{
  ◌≡◌, refl, ap, ◌∙◌, ℕ, false, not, ◌&&◌, ◌||◌, is_some, List, [], ◌∷◌, ◌++◌, Eq, ◌==◌, contains,
  length, arith, Option-cases, inl, inr, Bool-cases,
}
use drbd9_tests.Prelude.Dict.{Dict, keys, lookup, pop}
use drbd9_tests.OrderedSet.{
  OrderedSet, empty, remove, add, update, discard, difference_update, from_list,
}

module _ {ℓ} {A : Type ℓ} ⦃e : Eq A⦄ where
  abbrev pub Distinct : List A → Type 0
  Distinct [] = Unit
  Distinct (x ∷ xs) = (contains x xs ≡ false) × Distinct xs

  pub record IsConsistent (s : OrderedSet A) : Type ℓ where
    pub keys_items : keys s.map ≡ s.items
    pub distinct : Distinct s.items

  pub keys-append : (d : Dict A ℕ) (k : A) (i : ℕ) → keys (d ++ (k, i) ∷ []) ≡ keys d ++ k ∷ []
  keys-append [] k i = refl
  keys-append ((j, v) ∷ d) k i = ap (λ xs. j ∷ xs) (keys-append d k i)

  keys-pop : (k : A) (d : Dict A ℕ) → keys (pop k d) ≡ remove k (keys d)
  unfolding pop remove
  keys-pop k [] = refl
  keys-pop k ((j, v) ∷ d) = ground (arith, keys-pop k d)

  pub is_some-lookup : (k : A) (d : Dict A ℕ) → is_some (lookup k d) ≡ contains k (keys d)
  unfolding lookup
  is_some-lookup k [] = refl
  is_some-lookup k ((j, v) ∷ d) = ground (arith, is_some-lookup k d)

  pub contains-append :
      (y : A) (xs ys : List A) → contains y (xs ++ ys) ≡ (contains y xs || contains y ys)
  contains-append y [] ys = refl
  contains-append y (x ∷ xs) ys = ground (arith, contains-append y xs ys)

  pub Distinct-append :
      (xs : List A) (x : A) → contains x xs ≡ false → Distinct xs → Distinct (xs ++ x ∷ [])
  Distinct-append [] x h d = (refl, tt)
  Distinct-append (y ∷ xs) x h (fresh, d) = (
    rw contains-append (ground (arith, e.beq_iff x y, e.beq_iff y x)),
    Distinct-append xs x (ground arith) d,
  )

  pub contains-remove :
      (y k : A) (xs : List A)
      → Distinct xs
      → contains y (remove k xs) ≡ (contains y xs && not (y == k))
  unfolding remove
  contains-remove y k [] d = refl
  contains-remove y k (x ∷ xs) (fresh, d) =
      ground (arith, e.beq_iff y x, e.beq_iff k x, e.beq_iff y k, contains-remove y k xs d)

  pub remove-Distinct : (k : A) (xs : List A) → Distinct xs → Distinct (remove k xs)
  unfolding remove
  remove-Distinct k [] d = tt
  remove-Distinct k (x ∷ xs) (fresh, d) = elim (Bool-cases (k == x)) [
    | inl same ↦ rw same d
    | inr differ ↦ rw differ (rw (contains-remove x k xs d) (ground arith), remove-Distinct k xs d)
  ]

  pub add-IsConsistent : (k : A) (s : OrderedSet A) → IsConsistent s → IsConsistent (add k s).1
  unfolding add
  add-IsConsistent k s c = elim (Option-cases (lookup k s.map)) [
    | inr (i, found) ↦ rw (found, add) c
    | inl absent ↦
        rw (absent, add)
          (record {
            keys_items = keys-append s.map k (length s.items) ∙ rw c.keys_items;
            distinct =
                Distinct-append s.items k
                  (rw (← c.keys_items) (rw (← is_some-lookup k s.map) (rw absent))) c.distinct;
          })
  ]

  pub discard-IsConsistent :
      (k : A) (s : OrderedSet A) → IsConsistent s → IsConsistent (discard k s)
  unfolding discard
  discard-IsConsistent k s c = record {
    keys_items = keys-pop k s.map ∙ rw c.keys_items;
    distinct = remove-Distinct k s.items c.distinct;
  }

  pub update-IsConsistent :
      (xs : List A) (s : OrderedSet A) → IsConsistent s → IsConsistent (update xs s).1
  unfolding update
  update-IsConsistent [] s c = c
  update-IsConsistent (x ∷ xs) s c = update-IsConsistent xs (add x s).1 (add-IsConsistent x s c)

  pub difference_update-IsConsistent :
      (xs : List A) (s : OrderedSet A) → IsConsistent s → IsConsistent (difference_update xs s)
  unfolding difference_update
  difference_update-IsConsistent [] s c = c
  difference_update-IsConsistent (x ∷ xs) s c =
      difference_update-IsConsistent xs (discard x s) (discard-IsConsistent x s c)

  pub empty-IsConsistent : IsConsistent (empty {A = A})
  empty-IsConsistent = record { keys_items = refl; distinct = tt }

  pub from_list-IsConsistent : (xs : List A) → IsConsistent (from_list xs)
  unfolding from_list
  from_list-IsConsistent xs = update-IsConsistent xs empty empty-IsConsistent

-- The calls that change a set.
pub data Call {ℓ} (A : Type ℓ) : Type ℓ where
  add_one discard_one : A → Call A
  add_all discard_all : List A → Call A

module _ {ℓ} {A : Type ℓ} ⦃e : Eq A⦄ where
  unfoldable pub perform : Call A → OrderedSet A → OrderedSet A
  perform (add_one x) s = (add x s).1
  perform (discard_one x) s = discard x s
  perform (add_all xs) s = (update xs s).1
  perform (discard_all xs) s = difference_update xs s

  unfoldable pub perform_all : List (Call A) → OrderedSet A → OrderedSet A
  perform_all [] s = s
  perform_all (c ∷ cs) s = perform_all cs (perform c s)

  pub perform-IsConsistent :
      (c : Call A) (s : OrderedSet A) → IsConsistent s → IsConsistent (perform c s)
  unfolding perform
  perform-IsConsistent (add_one x) s h = add-IsConsistent x s h
  perform-IsConsistent (discard_one x) s h = discard-IsConsistent x s h
  perform-IsConsistent (add_all xs) s h = update-IsConsistent xs s h
  perform-IsConsistent (discard_all xs) s h = difference_update-IsConsistent xs s h

  -- After any sequence of additions and removals from a consistent set, the list of entries holds
  -- no entry twice, and the keys of the index are these entries in their order.
  pub perform_all-IsConsistent :
      (cs : List (Call A)) (s : OrderedSet A) → IsConsistent s → IsConsistent (perform_all cs s)
  unfolding perform_all
  perform_all-IsConsistent [] s h = h
  perform_all-IsConsistent (c ∷ cs) s h =
      perform_all-IsConsistent cs (perform c s) (perform-IsConsistent c s h)
