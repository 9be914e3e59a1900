-- ===== src/Framework/Control/Patterns.antt =====
-- The forbidden patterns around `Nodes.down` and `Volumes.detach`.
use drbd9_tests.Prelude.{
  ℕ, ◌≡◌, refl, true, not, ◌&&◌, ◌||◌, List, [], ◌∷◌, ◌++◌, Eq, ◌==◌, string_eq, contains, is_some,
  arith, length, Option-cases, ap, ◌∙◌, inl, inr,
}
use drbd9_tests.Prelude.Dict.{Dict, lookup}
use drbd9_tests.OrderedSet.{OrderedSet, has, add, update, discard, difference_update}
use drbd9_tests.OrderedSet.Invariant.{
  IsConsistent, discard-IsConsistent, is_some-lookup, contains-remove,
}

module _ {ℓ} {A : Type ℓ} ⦃e : Eq A⦄ where
  pub has-contains : (p : A) (s : OrderedSet A) → IsConsistent s → has p s ≡ contains p s.items
  unfolding has
  has-contains p s c = is_some-lookup p s.map ∙ ap (contains p) c.keys_items

  lookup-append :
      (p x : A) (i : ℕ) (d : Dict A ℕ)
      → is_some (lookup p (d ++ (x, i) ∷ [])) ≡ (is_some (lookup p d) || p == x)
  unfolding lookup
  lookup-append p x i [] = ground arith
  lookup-append p x i ((j, v) ∷ d) = ground (arith, lookup-append p x i d)

  pub has-add : (p x : A) (s : OrderedSet A) → has p (add x s).1 ≡ (has p s || p == x)
  unfolding add has
  has-add p x s = elim (Option-cases (lookup x s.map)) [
    | inl absent ↦ rw (absent, add) (lookup-append p x (length s.items) s.map)
    | inr (i, found) ↦ rw (found, add) (ground (arith, e.beq_iff p x, found))
  ]

  pub has-update :
      (p : A) (xs : List A) (s : OrderedSet A) → has p (update xs s).1 ≡ (has p s || contains p xs)
  unfolding update
  has-update p [] s = ground arith
  has-update p (x ∷ xs) s = ground (arith, has-update p xs (add x s).1, has-add p x s)

  pub has-discard :
      (p x : A) (s : OrderedSet A)
      → IsConsistent s
      → has p (discard x s) ≡ (has p s && not (p == x))
  unfolding discard
  has-discard p x s c =
      has-contains p (discard x s) (discard-IsConsistent x s c)
      ∙ (contains-remove p x s.items c.distinct ∙ rw (has-contains p s c) refl)

  pub has-difference_update :
      (p : A) (xs : List A) (s : OrderedSet A)
      → IsConsistent s
      → has p (difference_update xs s) ≡ (has p s && not (contains p xs))
  unfolding difference_update
  has-difference_update p [] s c = ground arith
  has-difference_update p (x ∷ xs) s c = ground (
    arith,
    has-difference_update p xs (discard x s) (discard-IsConsistent x s c),
    has-discard p x s c,
  )

  -- Taking entries of a set out and adding them again leaves the same entries in it.
  pub has-update-difference_update :
      (p : A) (xs : List A) (s : OrderedSet A)
      → IsConsistent s
      → (contains p xs ≡ true → has p s ≡ true)
      → has p (update xs (difference_update xs s)).1 ≡ has p s
  has-update-difference_update p xs s c h =
      ground (arith, has-update p xs (difference_update xs s), has-difference_update p xs s c, h)
