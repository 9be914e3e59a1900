-- ===== src/OrderedSet/Order.antt =====
-- OrderedSet: which entries remain and in which order, and what the indices say.
use drbd9_tests.Prelude.{
  ◌≡◌, refl, ap, sym, ◌∙◌, ℕ, suc, ◌+◌, false, not, none, some, List, [], ◌∷◌, ◌++◌, Eq, ◌==◌,
  beq_refl, contains, length, length-append, get_elem?, keep, if◌then◌else◌, arith, inl, inr,
  Bool-cases,
}
use mathlib.Core.List.{append-nil, append_assoc}
use native.Mathlib.Nat.{zero-add}
use drbd9_tests.Prelude.Dict.{Dict, keys, lookup, pop}
use drbd9_tests.OrderedSet.{
  OrderedSet, remove, add, update, discard, difference_update, from_list, copy, difference, index,
}
use drbd9_tests.OrderedSet.Invariant.{
  Distinct, IsConsistent, is_some-lookup, contains-append, discard-IsConsistent,
  from_list-IsConsistent, difference_update-IsConsistent,
}

module _ {ℓ} {A : Type ℓ} ⦃e : Eq A⦄ where
  -- The index as `enumerate` would number the entries.
  abbrev pub enumerate : ℕ → List A → Dict A ℕ
  enumerate i [] = []
  enumerate i (x ∷ xs) = (x, i) ∷ enumerate (suc i) xs

  enumerate-append :
      (i : ℕ) (xs : List A) (x : A)
      → enumerate i (xs ++ x ∷ []) ≡ enumerate i xs ++ (x, i + length xs) ∷ []
  enumerate-append i [] x = ground arith
  enumerate-append i (y ∷ xs) x = ground (arith, enumerate-append (suc i) xs x)

  keys-enumerate : (i : ℕ) (xs : List A) → keys (enumerate i xs) ≡ xs
  keys-enumerate i [] = refl
  keys-enumerate i (x ∷ xs) = ap (λ ys. x ∷ ys) (keys-enumerate (suc i) xs)

  -- A set to which entries were only added.
  abbrev IsNumbered : OrderedSet A → Type ℓ
  IsNumbered s = s.map ≡ enumerate 0 s.items

  add-absent :
      (x : A) (s : OrderedSet A)
      → lookup x s.map ≡ none
      → (add x s).1 ≡ record { items = s.items ++ x ∷ []; map = s.map ++ (x, length s.items) ∷ [] }
  unfolding add
  add-absent x s absent = rw (absent, add)

  abbrev pub numbered : List A → OrderedSet A
  numbered xs = record { items = xs; map = enumerate 0 xs }

  lookup-eq-none : (k : A) (d : Dict A ℕ) → contains k (keys d) ≡ false → lookup k d ≡ none
  lookup-eq-none k d h = ground (arith, is_some-lookup k d)

  contains_middle : (done xs : List A) (x : A) → Distinct (done ++ x ∷ xs) → contains x done ≡ false
  contains_middle [] xs x d = refl
  contains_middle (y ∷ done) xs x (fresh, d) = ground (
    arith,
    contains_middle done xs x d,
    contains-append y done (x ∷ xs),
    e.beq_iff x y,
    e.beq_iff y x,
  )

  add-numbered :
      (x : A) (done : List A)
      → contains x done ≡ false
      → (add x (numbered done)).1 ≡ numbered (done ++ x ∷ [])
  add-numbered x done fresh =
      add-absent x (numbered done) (lookup-eq-none x _ (rw keys-enumerate fresh))
      ∙ rw enumerate-append (rw zero-add)

  -- Adding distinct new entries appends them in order.
  update-numbered :
      (xs done : List A)
      → Distinct (done ++ xs)
      → (update xs (numbered done)).1 ≡ numbered (done ++ xs)
  unfolding update
  update-numbered [] done d = rw append-nil
  update-numbered (x ∷ xs) done d =
      rw (add-numbered x done (contains_middle done xs x d))
        (update-numbered xs (done ++ x ∷ []) (rw append_assoc d) ∙ rw append_assoc)

  pub copy-numbered : (s : OrderedSet A) → Distinct s.items → copy s ≡ numbered s.items
  unfolding copy from_list
  copy-numbered s d = update-numbered s.items [] d

  get_elem?-enumerate :
      (i : ℕ) (xs : List A) (k : A) (j : ℕ)
      → lookup k (enumerate i xs) ≡ some j
      → (m : ℕ) × (j ≡ i + m) × (get_elem? xs m ≡ some k)
  unfolding lookup
  get_elem?-enumerate i [] k j h = absurd (cc)
  get_elem?-enumerate i (x ∷ xs) k j h = elim (Bool-cases (k == x)) [
    | inl same ↦ (0, ground arith, ground (arith, e.beq_iff k x))
    | inr differ ↦
        let (m, p, q) = get_elem?-enumerate (suc i) xs k j (ground arith) in (suc m, omega arith, q)
  ]

  keep-absent : (k : A) (xs : List A) → contains k xs ≡ false → keep (λ y. not (y == k)) xs ≡ xs
  keep-absent k [] h = refl
  keep-absent k (x ∷ xs) h = ground (arith, keep-absent k xs, e.beq_iff x k, e.beq_iff k x)

  remove-keep : (k : A) (xs : List A) → Distinct xs → remove k xs ≡ keep (λ y. not (y == k)) xs
  unfolding remove
  remove-keep k [] d = refl
  remove-keep k (x ∷ xs) (fresh, d) =
      ground (arith, remove-keep k xs d, e.beq_iff x k, e.beq_iff k x, keep-absent k xs)

  keep-all : (xs : List A) → keep (λ y. not (contains y [])) xs ≡ xs
  keep-all [] = refl
  keep-all (x ∷ xs) = ap (λ ys. x ∷ ys) (keep-all xs)

  copy-IsConsistent : (s : OrderedSet A) → IsConsistent (copy s)
  unfolding copy
  copy-IsConsistent s = from_list-IsConsistent s.items

  keep-keep :
      (k : A) (ks xs : List A)
      → keep (λ y. not (contains y ks)) (keep (λ y. not (y == k)) xs)
        ≡ keep (λ y. not (contains y (k ∷ ks))) xs
  keep-keep k ks [] = refl
  keep-keep k ks (x ∷ xs) = ground (arith, keep-keep k ks xs)

  items-difference_update :
      (delta : List A) (s : OrderedSet A)
      → IsConsistent s
      → (difference_update delta s).items ≡ keep (λ y. not (contains y delta)) s.items
  unfolding difference_update
  items-difference_update [] s c = sym (keep-all s.items)
  items-difference_update (k ∷ delta) s c =
      items-difference_update delta (discard k s) (discard-IsConsistent k s c)
      ∙ ap (keep (λ y. not (contains y delta))) (unfold discard in remove-keep k s.items c.distinct)
      ∙ keep-keep k delta s.items

  -- For a consistent set, `difference` keeps exactly the entries that are not in `delta`, in their
  -- order, and the set that it returns is consistent.
  items-difference :
      (delta : List A) (s : OrderedSet A)
      → IsConsistent s
      → ((difference delta s).items ≡ keep (λ y. not (contains y delta)) s.items)
        × IsConsistent (difference delta s)
  unfolding difference
  items-difference delta s c = (
    items-difference_update delta (copy s) (copy-IsConsistent s) ∙ rw (copy-numbered s c.distinct),
    difference_update-IsConsistent delta (copy s) (copy-IsConsistent s),
  )

  -- In a copy of a consistent set, the index of an entry is its position in the list of entries, also
  -- where entries were discarded before the copy.
  index-copy :
      (s : OrderedSet A) (k : A) (i : ℕ)
      → IsConsistent s
      → index k (copy s) ≡ some i
      → get_elem? s.items i ≡ some k
  unfolding index
  index-copy s k i c h =
      let (m, p, q) = get_elem?-enumerate 0 s.items k i (rw (copy-numbered s c.distinct) at h) in
      rw (p, zero-add) q

  lookup-pop :
      (k y : A) (d : Dict A ℕ)
      → Distinct (keys d)
      → lookup y (pop k d) ≡ (if y == k then none else lookup y d)
  unfolding lookup pop
  lookup-pop k y [] h = ground arith
  lookup-pop k y ((j, v) ∷ d) (fresh, h) =
      ground
        (arith, lookup-pop k y d h, e.beq_iff y j, e.beq_iff k j, e.beq_iff y k, is_some-lookup y d)

  lookup-enumerate :
      (i : ℕ) (xs : List A) (y : A)
      → contains y xs ≡ false
      → lookup y (enumerate i (xs ++ y ∷ [])) ≡ some (i + length xs)
  unfolding lookup
  lookup-enumerate i [] y h = ground (arith, beq_refl y)
  lookup-enumerate i (x ∷ xs) y h = ground (arith, lookup-enumerate (suc i) xs y)

  -- `discard` does not renumber. From a list of distinct entries `x`, `xs`, `y`, once `x` has been
  -- discarded, the index of `y` is still its old one, which is past the end of the entries.
  pub index-discard_stale :
      (x y : A) (xs : List A)
      → Distinct (x ∷ xs ++ y ∷ [])
      → let s = discard x (from_list (x ∷ xs ++ y ∷ [])) in
        (index y s ≡ some (suc (length xs))) × (length s.items ≡ suc (length xs))
  unfolding index discard from_list pop remove
  index-discard_stale x y xs d = rw (update-numbered (x ∷ xs ++ y ∷ []) [] d) (
      rw (beq_refl x) (
        lookup-enumerate 1 xs y (contains_middle xs [] y d.1) ∙ ap some (omega arith),
        omega (arith, length-append {ℓ} {A = A} xs (y ∷ [])),
      ))
