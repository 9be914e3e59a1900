-- ===== src/OrderedSet/Keys.antt =====
-- Dictionaries whose keys are distinct, as those that Python makes are.
use drbd9_tests.Prelude.{
  ◌≡◌, refl, sym, ◌∙◌, false, ◌||◌, none, some, [], ◌∷◌, Eq, ◌==◌, beq_refl, contains, All, arith,
  Bool-cases, inl, inr,
}
use drbd9_tests.Prelude.Dict.{Dict, keys, lookup, insert}
use drbd9_tests.OrderedSet.Invariant.{Distinct}

module _ {ℓ κ} {K : Type ℓ} {V : Type κ} ⦃e : Eq K⦄ where
  pub contains-insert :
      (j k : K) (v : V) (d : Dict K V)
      → contains j (keys (insert k v d)) ≡ (j == k || contains j (keys d))
  unfolding insert
  contains-insert j k v [] = refl
  contains-insert j k v ((i, u) ∷ d) =
      ground (arith, contains-insert j k v d, e.beq_iff k i, e.beq_iff j i, e.beq_iff j k)

  pub insert-Distinct :
      (k : K) (v : V) (d : Dict K V) → Distinct (keys d) → Distinct (keys (insert k v d))
  unfolding insert
  insert-Distinct k v [] h = (refl, tt)
  insert-Distinct k v ((i, u) ∷ d) (fresh, h) = elim (Bool-cases (k == i)) [
    | inl same ↦ rw same (fresh, h)
    | inr differ ↦ rw differ (
      ground (arith, contains-insert i k v d, e.beq_iff k i, e.beq_iff i k),
      insert-Distinct k v d h,
    )
  ]

  -- What holds of the entries of a dictionary holds of what is looked up.
  pub lookup-All {μ} :
      (P : K × V → Type μ) (k : K) (v : V) (d : Dict K V) → All P d → lookup k d ≡ some v → P (k, v)
  unfolding lookup
  lookup-All P k v [] all found = absurd (cc)
  lookup-All P k v ((j, w) ∷ d) (p, all) found = elim (Bool-cases (k == j)) [
    | inl same ↦
        let key : k ≡ j = (e.beq_iff k j).0 same in
        let held : some w ≡ some v = sym (rw same refl) ∙ found in
        let value : w ≡ v = cc in rw (key, ← value) p
    | inr differ ↦ lookup-All P k v d all (sym (rw differ refl) ∙ found)
  ]

  -- Where keys are distinct, an entry is what is looked up under its key.
  abbrev pub Own : Dict K V → K × V → Type κ
  Own d entry = lookup entry.0 d ≡ some entry.1

  pub absent : (k : K) (d : Dict K V) → contains k (keys d) ≡ false → lookup k d ≡ none
  unfolding lookup
  absent k [] h = refl
  absent k ((j, w) ∷ d) h = ground (arith, absent k d)

  kept_by_fresh :
      (k : K) (v : V) (d entries : Dict K V)
      → contains k (keys d) ≡ false
      → All (Own d) entries
      → All (Own ((k, v) ∷ d)) entries
  unfolding lookup
  kept_by_fresh k v d [] fresh own = tt
  kept_by_fresh k v d ((j, w) ∷ entries) fresh (this, own) =
      (ground (arith, e.beq_iff j k, absent k d), kept_by_fresh k v d entries fresh own)

  pub entries-Own : (d : Dict K V) → Distinct (keys d) → All (Own d) d
  unfolding lookup
  entries-Own [] h = tt
  entries-Own ((k, v) ∷ d) (fresh, h) =
      (rw (beq_refl k) refl, kept_by_fresh k v d d fresh (entries-Own d h))
