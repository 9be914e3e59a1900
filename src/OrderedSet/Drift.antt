-- ===== src/OrderedSet/Drift.antt =====
-- OrderedSet: how far an index can be from the position of its entry, since a removal does not renumber.
use drbd9_tests.Prelude.{
  ◌≡◌, ap, ℕ, suc, ◌+◌, ◌≤◌, List, [], ◌∷◌, ◌++◌, Eq, ◌==◌, length, arith, Option-cases, Bool-cases,
  inl, inr,
}
use mathlib.Core.Path.{subst}
use drbd9_tests.Prelude.Dict.{Dict, keys, lookup, pop}
use drbd9_tests.OrderedSet.{OrderedSet, empty, add, update, discard, difference_update}
use drbd9_tests.OrderedSet.Invariant.{
  IsConsistent, empty-IsConsistent, add-IsConsistent, Call, add_one, discard_one, add_all,
  discard_all, perform, perform_all, perform-IsConsistent, perform_all-IsConsistent,
}

module _ {ℓ} {A : Type ℓ} where
  -- The index of an entry at position k + i is at least k + i, and at most `late` more.
  abbrev pub Within : ℕ → ℕ → Dict A ℕ → Type 0
  Within late k [] = Unit
  Within late k ((x, i) ∷ d) = (k ≤ i) × (i ≤ k + late) × Within late (suc k) d

  weaken : (late k : ℕ) (d : Dict A ℕ) → Within late k d → Within (suc late) k d
  weaken late k [] h = tt
  weaken late k ((x, i) ∷ d) (lo, hi, h) = (lo, omega arith, weaken late (suc k) d h)

  recount : (m n : ℕ) (d : Dict A ℕ) → m ≡ n → Within m 0 d → Within n 0 d
  recount m n d e h = subst (λ k. Within k 0 d) e h

  shift : (late k : ℕ) (d : Dict A ℕ) → Within late (suc k) d → Within (suc late) k d
  shift late k [] h = tt
  shift late k ((x, i) ∷ d) (lo, hi, h) = (omega arith, omega arith, shift late (suc k) d h)

  Within-append :
      (late k : ℕ) (x : A) (i : ℕ) (d : Dict A ℕ)
      → i ≡ k + length (keys d)
      → Within late k d
      → Within late k (d ++ (x, i) ∷ [])
  Within-append late k x i [] e h = (omega arith, omega arith, tt)
  Within-append late k x i ((y, j) ∷ d) e (lo, hi, h) =
      (lo, hi, Within-append late (suc k) x i d (omega arith) h)

  abbrev pub removals : Call A → ℕ
  removals (add_one x) = 0
  removals (discard_one x) = 1
  removals (add_all xs) = 0
  removals (discard_all xs) = length xs

  abbrev pub all_removals : List (Call A) → ℕ
  all_removals [] = 0
  all_removals (c ∷ cs) = removals c + all_removals cs

module _ {ℓ} {A : Type ℓ} ⦃e : Eq A⦄ where
  Within-pop : (late k : ℕ) (x : A) (d : Dict A ℕ) → Within late k d → Within (suc late) k (pop x d)
  unfolding pop
  Within-pop late k x [] h = tt
  Within-pop late k x ((y, i) ∷ d) (lo, hi, h) = elim (Bool-cases (x == y)) [
    | inl same ↦ rw same (shift late k d h)
    | inr differ ↦ rw differ (lo, omega arith, Within-pop late (suc k) x d h)
  ]

  add-Within :
      (late : ℕ) (x : A) (s : OrderedSet A)
      → IsConsistent s
      → Within late 0 s.map
      → Within late 0 (add x s).1.map
  unfolding add
  add-Within late x s c h = elim (Option-cases (lookup x s.map)) [
    | inr (i, found) ↦ rw (found, add) h
    | inl absent ↦
        rw (absent, add)
          (Within-append late 0 x (length s.items) s.map (omega (arith, ap length c.keys_items)) h)
  ]

  update-Within :
      (late : ℕ) (xs : List A) (s : OrderedSet A)
      → IsConsistent s
      → Within late 0 s.map
      → Within late 0 (update xs s).1.map
  unfolding update
  update-Within late [] s c h = h
  update-Within late (x ∷ xs) s c h =
      update-Within late xs (add x s).1 (add-IsConsistent x s c) (add-Within late x s c h)

  discard-Within :
      (late : ℕ) (x : A) (s : OrderedSet A)
      → Within late 0 s.map
      → Within (suc late) 0 (discard x s).map
  unfolding discard
  discard-Within late x s h = Within-pop late 0 x s.map h

  difference_update-Within :
      (late : ℕ) (xs : List A) (s : OrderedSet A)
      → Within late 0 s.map
      → Within (late + length xs) 0 (difference_update xs s).map
  unfolding difference_update
  difference_update-Within late [] s h = recount late (late + 0) s.map (omega arith) h
  difference_update-Within late (x ∷ xs) s h =
      recount (suc late + length xs) (late + suc (length xs)) _ (omega arith)
        (difference_update-Within (suc late) xs (discard x s) (discard-Within late x s h))

  perform-Within :
      (late : ℕ) (c : Call A) (s : OrderedSet A)
      → IsConsistent s
      → Within late 0 s.map
      → Within (late + removals c) 0 (perform c s).map
  unfolding perform
  perform-Within late (add_one x) s k h =
      recount late (late + 0) _ (omega arith) (add-Within late x s k h)
  perform-Within late (discard_one x) s k h =
      recount (suc late) (late + 1) _ (omega arith) (discard-Within late x s h)
  perform-Within late (add_all xs) s k h =
      recount late (late + 0) _ (omega arith) (update-Within late xs s k h)
  perform-Within late (discard_all xs) s k h = difference_update-Within late xs s h

  from-Within :
      (late : ℕ) (cs : List (Call A)) (s : OrderedSet A)
      → IsConsistent s
      → Within late 0 s.map
      → Within (late + all_removals cs) 0 (perform_all cs s).map
  unfolding perform_all
  from-Within late [] s c h = recount late (late + 0) s.map (omega arith) h
  from-Within late (k ∷ cs) s c h =
      recount (late + removals k + all_removals cs) (late + (removals k + all_removals cs)) _
        (omega arith)
        (from-Within (late + removals k) cs (perform k s) (perform-IsConsistent k s c)
          (perform-Within late k s c h))

  -- After any sequence of additions and removals, the list of entries holds no entry twice, the keys of the
  -- index are these entries in their order, and the index of an entry is at least its position and at most
  -- that and the number of the removals.
  pub perform_all-Within :
      (cs : List (Call A))
      → IsConsistent (perform_all cs empty) × Within (all_removals cs) 0 (perform_all cs empty).map
  perform_all-Within cs = (
    perform_all-IsConsistent cs empty empty-IsConsistent,
    recount (0 + all_removals cs) (all_removals cs) _ (omega arith)
        (from-Within 0 cs empty empty-IsConsistent tt),
  )
