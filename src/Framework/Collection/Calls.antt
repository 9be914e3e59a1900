-- ===== src/Framework/Collection/Calls.antt =====
-- What calls of a collection make of it, and when `extend` raises an exception.
use drbd9_tests.Prelude.{
  ◌≡◌, refl, sym, ◌∙◌, Bool, true, false, ◌||◌, Option, List, [], ◌∷◌, Eq, beq_refl, contains, all,
  arith, Bool-cases, inl, inr, ◌⊎◌,
}
use drbd9_tests.OrderedSet.{OrderedSet, has, update}
use drbd9_tests.OrderedSet.Access.{Position, slice_of}
use drbd9_tests.Results.{Result, ok, err, assertion_error, ◌>>=◌, >>=-eq-ok, ok_injective}
use drbd9_tests.Framework.Control.Patterns.{has-contains}
use drbd9_tests.Framework.Collection.{
  assert_each, same_resource, collection, add_member, remove_member, extend, without, pop_first,
  part,
}
use drbd9_tests.Framework.Collection.Laws.{
  Sharing, IsCollection, collection-IsCollection, extend-IsCollection, add-IsCollection,
  remove-IsCollection, pop_first-IsCollection, without-IsCollection, same_resource-Sharing,
  Sharing-weaken,
}

-- The calls that make a collection of another.
pub data Call {ℓ} (A : Type ℓ) : Type ℓ where
  adding removing : A → Call A
  extending without_all : List A → Call A
  popping : Call A
  slicing : Option Position → Option Position → Call A

module _ {ℓ κ} {A : Type ℓ} {R : Type κ} ⦃e : Eq A⦄ ⦃r : Eq R⦄ (resource : A → R) where
  unfoldable pub perform : Call A → OrderedSet A → Result (OrderedSet A)
  unfolding add_member remove_member extend without pop_first part
  perform (adding m) s = add_member resource m s
  perform (removing m) s = remove_member resource m s
  perform (extending ms) s = extend resource ms s
  perform (without_all ms) s = without resource ms s
  perform popping s = do popped ← pop_first resource s; ok popped.1
  perform (slicing first last) s = part resource first last s

  unfoldable pub perform_all : List (Call A) → OrderedSet A → Result (OrderedSet A)
  unfolding perform
  perform_all [] s = ok s
  perform_all (call ∷ calls) s = do t ← perform call s; perform_all calls t

  perform-IsCollection :
      (call : Call A) (s t : OrderedSet A)
      → IsCollection resource s
      → perform call s ≡ ok t
      → IsCollection resource t
  unfolding perform part
  perform-IsCollection (adding m) s t c h = add-IsCollection resource m s t c h
  perform-IsCollection (removing m) s t c h = remove-IsCollection resource m s t c h
  perform-IsCollection (extending ms) s t c h = extend-IsCollection resource ms s t c h
  perform-IsCollection (without_all ms) s t c h = without-IsCollection resource ms s t h
  perform-IsCollection popping s t c h =
      let ((m, rest), popped, returned) = >>=-eq-ok (pop_first resource s) _ h in
      let same : rest ≡ t = cc in rw (← same) (pop_first-IsCollection resource s m rest c popped)
  perform-IsCollection (slicing first last) s t c h =
      collection-IsCollection resource (slice_of s.items first last) t h

  all_calls :
      (calls : List (Call A)) (s t : OrderedSet A)
      → IsCollection resource s
      → perform_all calls s ≡ ok t
      → IsCollection resource t
  unfolding perform_all
  all_calls [] s t c h = rw (← ok_injective h) c
  all_calls (call ∷ calls) s t c h =
      let (u, ran, rest) = >>=-eq-ok (perform call s) _ h in
      all_calls calls u t (perform-IsCollection call s u c ran) rest

  -- A collection that is made of any members, and then changed by any sequence of additions, removals,
  -- extensions, differences, pops and slices, has, if no call raised an exception, no member twice, an
  -- index of exactly its members, and only members of one resource.
  pub perform_all-IsCollection :
      (members : List A) (calls : List (Call A)) (s t : OrderedSet A)
      → collection resource members ≡ ok s
      → perform_all calls s ≡ ok t
      → IsCollection resource t
  perform_all-IsCollection members calls s t made h =
      all_calls calls s t (collection-IsCollection resource members s made) h

  all_of :
      (f : A → Bool) (xs : List A) → ((x : A) → contains x xs ≡ true → f x ≡ true) → all f xs ≡ true
  all_of f [] h = refl
  all_of f (x ∷ xs) h =
      rw (h x (ground (arith, beq_refl x)), all_of f xs (λ y m. h y (ground arith))) refl

  pub Sharing-same_resource :
      (ms xs : List A)
      → Sharing resource (λ x. contains x xs || contains x ms)
      → same_resource resource ms xs ≡ true
  unfolding same_resource
  Sharing-same_resource [] [] s = refl
  Sharing-same_resource (m ∷ ms) [] s = all_of _ ms (λ x p.
      (r.beq_iff (resource x) (resource m)).1
        (s x m (ground (arith, p)) (ground (arith, beq_refl m))))
  Sharing-same_resource ms (f ∷ xs) s = all_of _ ms (λ x p.
      (r.beq_iff (resource x) (resource f)).1
        (s x f (ground (arith, p)) (ground (arith, beq_refl f))))

  no_members : (xs : List A) → same_resource resource [] xs ≡ true
  unfolding same_resource
  no_members [] = refl
  no_members (x ∷ xs) = refl

  assert_each-true : (ms : List A) → assert_each ms true ≡ ok tt
  unfolding assert_each
  assert_each-true [] = refl
  assert_each-true (m ∷ ms) = assert_each-true ms

  pub extend_same :
      (ms : List A) (s : OrderedSet A)
      → same_resource resource ms s.items ≡ true
      → extend resource ms s ≡ ok (update ms s).1
  unfolding extend
  extend_same ms s same = rw (same, assert_each-true ms) refl

  extend_different :
      (ms : List A) (s : OrderedSet A)
      → same_resource resource ms s.items ≡ false
      → extend resource ms s ≡ err assertion_error
  unfolding extend assert_each
  extend_different [] s different = absurd (let r = sym (no_members s.items) ∙ different in cc)
  extend_different (m ∷ ms) s different = rw different refl

  -- All new members and those of a collection.
  abbrev pub old_and_new : OrderedSet A → List A → A → Bool
  old_and_new s ms x = has x s || contains x ms

  old_and_new-contains :
      (s : OrderedSet A) (ms : List A) (x : A)
      → IsCollection resource s
      → old_and_new s ms x ≡ (contains x s.items || contains x ms)
  old_and_new-contains s ms x c = rw (has-contains x s c.consistent) refl

  -- `extend` of a collection adds the members in their order if all old and new ones are of one
  -- resource, and raises an AssertionError if they are not.
  pub extend-outcome :
      (ms : List A) (s : OrderedSet A)
      → IsCollection resource s
      → (Sharing resource (old_and_new s ms) × (extend resource ms s ≡ ok (update ms s).1))
        ⊎ (¬ Sharing resource (old_and_new s ms) × (extend resource ms s ≡ err assertion_error))
  extend-outcome ms s c = elim (Bool-cases (same_resource resource ms s.items)) [
    | inl same ↦ inl (
      Sharing-weaken resource _ _ (λ x p. ground (arith, old_and_new-contains s ms x c))
          (same_resource-Sharing resource ms s.items same (
            Sharing-weaken resource _ _ (λ x p. ground (arith, has-contains x s c.consistent))
              c.sharing)),
      extend_same ms s same,
    )
    | inr different ↦ inr (
      λ sharing.
          let shared = Sharing-same_resource ms s.items (
            Sharing-weaken resource _ _ (λ x p. ground (arith, old_and_new-contains s ms x c))
              sharing) in
          let r = sym different ∙ shared in cc,
      extend_different ms s different,
    )
  ]
