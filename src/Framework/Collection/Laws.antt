-- ===== src/Framework/Collection/Laws.antt =====
-- A collection keeps members of one resource only, without repeats.
use drbd9_tests.Prelude.{
  ◌≡◌, refl, sym, ◌∙◌, Bool, true, false, not, ◌||◌, List, [], ◌∷◌, Eq, ◌==◌, beq_refl, ap, nat_eq,
  contains, all, length, arith, Bool-cases, inl, inr,
}
use drbd9_tests.OrderedSet.{OrderedSet, empty, has, add, update, discard, difference, from_list}
use drbd9_tests.OrderedSet.Access.{Position, item_at}
use drbd9_tests.OrderedSet.Invariant.{
  IsConsistent, discard-IsConsistent, update-IsConsistent, from_list-IsConsistent,
}
use drbd9_tests.Results.{
  ok, raise_if, assertion_error, runtime_error, ◌>>◌, >>=-eq-ok, ok_injective,
}
use drbd9_tests.Framework.Control.Patterns.{has-contains, has-update, has-discard}
use drbd9_tests.Framework.Collection.{
  assert_each, same_resource, collection, add_member, remove_member, extend, without, pop_first,
}

module _ {ℓ} {A : Type ℓ} ⦃e : Eq A⦄ where
  all-contains :
      (f : A → Bool) (x : A) (xs : List A) → all f xs ≡ true → contains x xs ≡ true → f x ≡ true
  all-contains f x [] h found = absurd (cc)
  all-contains f x (y ∷ ys) h found = elim (Bool-cases (x == y)) [
    | inl same ↦ rw ((e.beq_iff x y).0 same) (ground arith)
    | inr differ ↦ all-contains f x ys (ground arith) (ground arith)
  ]

  has-from_list : (x : A) (xs : List A) → has x (from_list xs) ≡ contains x xs
  unfolding from_list has
  has-from_list x xs = has-update x xs empty

  -- A loop of assertions over some members returns only if the condition holds.
  assert_each-returns :
      (c : Bool) (x : A) (xs : List A) → contains x xs ≡ true → assert_each xs c ≡ ok tt → c ≡ true
  unfolding assert_each
  assert_each-returns true x xs found h = refl
  assert_each-returns false x [] found h = absurd (cc)
  assert_each-returns false x (y ∷ ys) found h = absurd (cc)

  in_items : (ms : List A) (x : A) → contains x (from_list ms).items ≡ contains x ms
  in_items ms x =
      sym (has-contains x (from_list ms) (from_list-IsConsistent ms)) ∙ has-from_list x ms

  after_test :
      (c : Bool) (s t : OrderedSet A)
      → (raise_if (not c) assertion_error >> ok s) ≡ ok t
      → (c ≡ true) × (s ≡ t)
  after_test true s t h = (refl, ok_injective h)
  after_test false s t h = absurd (cc)

module _ {ℓ κ} {A : Type ℓ} {R : Type κ} ⦃e : Eq A⦄ ⦃r : Eq R⦄ (resource : A → R) where
  -- All that satisfy the test have one resource.
  abbrev pub Sharing : (A → Bool) → Type (ℓ ⊔ κ)
  Sharing p = (x y : A) → p x ≡ true → p y ≡ true → resource x ≡ resource y

  pub record IsCollection (s : OrderedSet A) : Type (ℓ ⊔ κ) where
    pub consistent : IsConsistent s
    pub sharing : Sharing (λ x. has x s)

  of_first :
      (x f : A) (ms : List A)
      → all (λ m. resource m == resource f) ms ≡ true
      → contains x ms ≡ true
      → resource x ≡ resource f
  of_first x f ms h found =
      (r.beq_iff (resource x) (resource f)).0
        (all-contains (λ m. resource m == resource f) x ms h found)

  of_first_or_first :
      (x m : A) (ms : List A)
      → all (λ x. resource x == resource m) ms ≡ true
      → contains x (m ∷ ms) ≡ true
      → resource x ≡ resource m
  of_first_or_first x m ms h found = elim (Bool-cases (x == m)) [
    | inl same ↦ ap resource ((e.beq_iff x m).0 same)
    | inr differ ↦ of_first x m ms h (ground arith)
  ]

  old_or_new :
      (x f : A) (ms xs : List A)
      → all (λ m. resource m == resource f) ms ≡ true
      → Sharing (λ x. contains x (f ∷ xs))
      → (contains x (f ∷ xs) || contains x ms) ≡ true
      → resource x ≡ resource f
  old_or_new x f ms xs h s p = elim (Bool-cases (contains x ms)) [
    | inl new ↦ of_first x f ms h new
    | inr old ↦ s x f (ground arith) (ground (arith, beq_refl f))
  ]

  -- Members that the test admits next to a list that is of one resource.
  pub same_resource-Sharing :
      (ms xs : List A)
      → same_resource resource ms xs ≡ true
      → Sharing (λ x. contains x xs)
      → Sharing (λ x. contains x xs || contains x ms)
  unfolding same_resource
  same_resource-Sharing [] [] h s x y p q = absurd (cc)
  same_resource-Sharing (m ∷ ms) [] h s x y p q =
      of_first_or_first x m ms h p ∙ sym (of_first_or_first y m ms h q)
  same_resource-Sharing ms (f ∷ xs) h s x y p q =
      old_or_new x f ms xs h s p ∙ sym (old_or_new y f ms xs h s q)

  pub Sharing-weaken :
      (p q : A → Bool) → ((x : A) → q x ≡ true → p x ≡ true) → Sharing p → Sharing q
  Sharing-weaken p q sub s x y m n = s x y (sub x m) (sub y n)

  same_resource_among :
      (ms xs : List A)
      → ((x : A) → contains x xs ≡ contains x ms)
      → same_resource resource ms xs ≡ true
      → Sharing (λ x. contains x ms)
  unfolding same_resource
  same_resource_among ms [] same h x y p q = absurd (let m = same x in cc)
  same_resource_among ms (f ∷ xs) same h x y p q = of_first x f ms h p ∙ sym (of_first y f ms h q)

  -- The assertions of a loop over the members hold if the loop returns; if there is no member, the
  -- test holds as well.
  asserted :
      (ms xs : List A)
      → assert_each ms (same_resource resource ms xs) ≡ ok tt
      → same_resource resource ms xs ≡ true
  unfolding same_resource assert_each
  asserted [] [] h = refl
  asserted [] (x ∷ xs) h = refl
  asserted (m ∷ ms) xs h = assert_each-returns _ m (m ∷ ms) (ground (arith, beq_refl m)) h

  update-IsCollection :
      (ms : List A) (s : OrderedSet A)
      → IsCollection s
      → same_resource resource ms s.items ≡ true
      → IsCollection (update ms s).1
  update-IsCollection ms s c h = record {
    consistent = update-IsConsistent ms s c.consistent;
    sharing =
        let shared =
          same_resource-Sharing ms s.items h (
            Sharing-weaken (λ x. has x s) _ (λ x m. has-contains x s c.consistent ∙ m) c.sharing) in
        Sharing-weaken _ _ (λ x m. ground (arith, has-update x ms s, has-contains x s c.consistent))
          shared;
  }

  pub extend-IsCollection :
      (ms : List A) (s t : OrderedSet A)
      → IsCollection s
      → extend resource ms s ≡ ok t
      → IsCollection t
  unfolding extend
  extend-IsCollection ms s t c h =
      let (u, ran, returned) = >>=-eq-ok (assert_each ms (same_resource resource ms s.items)) _ h in
      rw (← ok_injective returned) (update-IsCollection ms s c (asserted ms s.items ran))

  pub add-IsCollection :
      (m : A) (s t : OrderedSet A)
      → IsCollection s
      → add_member resource m s ≡ ok t
      → IsCollection t
  unfolding add_member update
  add-IsCollection m s t c h =
      let (same, returned) = after_test _ (add m s).1 t h in
      rw (← returned) (update-IsCollection (m ∷ []) s c same)

  discard-IsCollection : (m : A) (s : OrderedSet A) → IsCollection s → IsCollection (discard m s)
  discard-IsCollection m s c = record {
    consistent = discard-IsConsistent m s c.consistent;
    sharing = Sharing-weaken _ _ (λ x h. ground (arith, has-discard x m s c.consistent)) c.sharing;
  }

  pub remove-IsCollection :
      (m : A) (s t : OrderedSet A)
      → IsCollection s
      → remove_member resource m s ≡ ok t
      → IsCollection t
  unfolding remove_member
  remove-IsCollection m s t c h =
      let (same, returned) = after_test _ _ t h in
      rw (← returned) (elim (Bool-cases (has m s)) [
        | inl there ↦ rw there (discard-IsCollection m s c)
        | inr absent ↦ rw absent c
      ])

  pub collection-IsCollection :
      (ms : List A) (t : OrderedSet A) → collection resource ms ≡ ok t → IsCollection t
  unfolding collection
  collection-IsCollection ms t h =
      let (u, ran, returned) =
        >>=-eq-ok (assert_each ms (same_resource resource ms (from_list ms).items)) _ h in
      rw (← ok_injective returned) (record {
        consistent = from_list-IsConsistent ms;
        sharing =
            Sharing-weaken _ _ (λ x m. sym (has-from_list x ms) ∙ m)
              (same_resource_among ms (from_list ms).items (in_items ms) (asserted ms _ ran));
      })

  pub pop_first-IsCollection :
      (s : OrderedSet A) (m : A) (t : OrderedSet A)
      → IsCollection s
      → pop_first resource s ≡ ok (m, t)
      → IsCollection t
  unfolding pop_first
  pop_first-IsCollection s m t c h =
      let (_, ran, later) = >>=-eq-ok (raise_if (length s.items == 0) runtime_error) _ h in
      let (x, found, last) = >>=-eq-ok (item_at s.items (Position.from_start 0)) _ later in
      let (rest, removed, returned) = >>=-eq-ok (remove_member resource x s) _ last in
      let same : rest ≡ t = cc in rw (← same) (remove-IsCollection x s rest c removed)

  pub without-IsCollection :
      (ms : List A) (s t : OrderedSet A) → without resource ms s ≡ ok t → IsCollection t
  unfolding without
  without-IsCollection ms s t h =
      let (_, ran, made) = >>=-eq-ok (assert_each ms (same_resource resource ms s.items)) _ h in
      collection-IsCollection (difference ms s).items t made
