-- ===== src/Vmshed/Version/Order.antt =====
-- `is_lower` as an order: on versions of numbers it is the strict lexicographic order, a development
-- build lies between its series and the next one, and a wildcard lies above what it stands for.
use drbd9_tests.Prelude.{
  ℕ, suc, ◌<◌, ◌≡◌, ◌≢◌, ◌↔◌, ◌⊎◌, inl, inr, refl, ap, ap₂, sym, ◌∙◌, Bool, true, false, Option,
  some, List, [], ◌∷◌, ◌++◌, length, ltb, nat_eq, string_eq, arith, All, Bool-cases,
}
use drbd9_tests.Vmshed.Version.{
  Element, num, word, infinity, is_star, compare_at, is_lower_loop, is_lower, is_dev_build,
  lift_dev,
}

-- Numbers and `inf`, but no texts.
abbrev pub IsNumeric : Element → Type 0
IsNumeric (num n) = Unit
IsNumeric (word s) = ⊥
IsNumeric infinity = Unit

abbrev pub Below : Element → Element → Type 0
Below (num a) (num b) = a < b
Below (num a) infinity = Unit
Below _ _ = ⊥

-- The strict lexicographic order; a longer list lies above its own beginning.
abbrev pub Precedes : List Element → List Element → Type 0
Precedes vs [] = ⊥
Precedes [] (m ∷ ms) = Unit
Precedes (v ∷ vs) (m ∷ ms) = Below v m ⊎ ((v ≡ m) × Precedes vs ms)

abbrev Decides : Option Bool → Type 0 → Type 0
Decides r P = (b : Bool) × (r ≡ some b) × ((b ≡ true) ↔ P)

compare_numbers :
    (a b : ℕ) (rest : Option Bool) (P : Type 0)
    → Decides rest P
    → Decides (compare_at (num a) (num b) rest) ((a < b) ⊎ ((num a ≡ num b) × P))
unfolding compare_at
compare_numbers a b rest P (r, e, i) = elim (Bool-cases (ltb a b)) [
  | inl less ↦ (true, rw less, (λ _. inl (ground arith), λ _. refl))
  | inr more ↦ elim (Bool-cases (ltb b a)) [
    | inl greater ↦ (false, rw (more, greater), (λ h. cc, λ h. ground arith))
    | inr same ↦ (
      r,
      rw (more, same) e,
      (
        λ h. inr (ground arith, i.0 h),
        λ s. elim s [ inl less ↦ absurd (ground arith) | inr (_, p) ↦ i.1 p ],
      ),
    )
  ]
]

ltb-suc : (a b : ℕ) → ltb (suc a) (suc b) ≡ ltb a b
ltb-suc a b = ground arith

is_lower_loop-Decides :
    (vs ms : List Element)
    → All IsNumeric vs
    → All IsNumeric ms
    → Decides (is_lower_loop vs ms (ltb (length vs) (length ms))) (Precedes vs ms)
unfolding is_lower_loop compare_at
is_lower_loop-Decides [] [] p q = (false, refl, (λ h. absurd (cc), λ h. absurd h))
is_lower_loop-Decides (v ∷ vs) [] p q = (false, ground arith, (λ h. absurd (cc), λ h. absurd h))
is_lower_loop-Decides [] (m ∷ ms) p q = (true, refl, (λ h. tt, λ h. refl))
is_lower_loop-Decides (num a ∷ vs) (num b ∷ ms) (_, p) (_, q) =
    compare_numbers a b _ (Precedes vs ms)
      (rw (ltb-suc (length vs) (length ms)) (is_lower_loop-Decides vs ms p q))
is_lower_loop-Decides (num a ∷ vs) (infinity ∷ ms) (_, p) (_, q) =
    (true, refl, (λ h. inl tt, λ h. refl))
is_lower_loop-Decides (infinity ∷ vs) (num b ∷ ms) (_, p) (_, q) = (
  false,
  refl,
  (λ h. absurd (cc), λ h. elim h [ inl none_below ↦ absurd none_below | inr (e, _) ↦ absurd (cc) ]),
)
is_lower_loop-Decides (infinity ∷ vs) (infinity ∷ ms) (_, p) (_, q) =
    let (r, e, i) = is_lower_loop-Decides vs ms p q in
    (
      r,
      rw (ltb-suc (length vs) (length ms)) e,
      (
        λ h. inr (refl, i.0 h),
        λ s. elim s [ inl none_below ↦ absurd none_below | inr (_, h) ↦ i.1 h ],
      ),
    )
is_lower_loop-Decides (word s ∷ vs) (m ∷ ms) p q = absurd p.0
is_lower_loop-Decides (v ∷ vs) (word s ∷ ms) p q = absurd q.0

-- On versions of numbers and `inf`, `is_lower` raises no TypeError, and it is true exactly if the
-- first version precedes the second in the strict lexicographic order.
pub is_lower-Precedes :
    (vs ms : List Element)
    → All IsNumeric vs
    → All IsNumeric ms
    → (b : Bool) × (is_lower vs ms ≡ some b) × ((b ≡ true) ↔ Precedes vs ms)
unfolding is_lower
is_lower-Precedes vs ms p q = is_lower_loop-Decides vs ms p q

Below-trans : (u v w : Element) → Below u v → Below v w → Below u w
Below-trans (num a) (num b) (num c) p q = omega arith
Below-trans (num a) (num b) infinity p q = tt
Below-trans (num a) (num b) (word s) p q = absurd q
Below-trans (num a) infinity w p q = absurd q
Below-trans (num a) (word s) w p q = absurd p
Below-trans infinity v w p q = absurd p
Below-trans (word s) v w p q = absurd p

Precedes-trans : (us vs ws : List Element) → Precedes us vs → Precedes vs ws → Precedes us ws
Precedes-trans us [] ws p q = absurd p
Precedes-trans us (v ∷ vs) [] p q = absurd q
Precedes-trans [] (v ∷ vs) (w ∷ ws) p q = tt
Precedes-trans (u ∷ us) (v ∷ vs) (w ∷ ws) (inl p) (inl q) = inl (Below-trans u v w p q)
Precedes-trans (u ∷ us) (v ∷ vs) (w ∷ ws) (inl p) (inr (e, q)) = inl (rw (← e) p)
Precedes-trans (u ∷ us) (v ∷ vs) (w ∷ ws) (inr (e, p)) (inl q) = inl (rw e q)
Precedes-trans (u ∷ us) (v ∷ vs) (w ∷ ws) (inr (e, p)) (inr (f, q)) =
    inr (e ∙ f, Precedes-trans us vs ws p q)

decided : (r : Option Bool) (P : Type 0) → Decides r P → P → r ≡ some true
decided r P (b, e, i) p = e ∙ ap some (i.1 p)

decided_by : (r : Option Bool) (P : Type 0) → Decides r P → r ≡ some true → P
decided_by r P (b, e, i) h = i.0 (cc)

refuted : (r : Option Bool) (P : Type 0) → Decides r P → ¬ P → r ≡ some false
refuted r P (true, e, i) h = absurd (h (i.0 refl))
refuted r P (false, e, i) h = e

is_lower_trans :
    (us vs ws : List Element)
    → All IsNumeric us
    → All IsNumeric vs
    → All IsNumeric ws
    → is_lower us vs ≡ some true
    → is_lower vs ws ≡ some true
    → is_lower us ws ≡ some true
is_lower_trans us vs ws p q r h k = decided _ (Precedes us ws) (is_lower-Precedes us ws p r) (
    Precedes-trans us vs ws (decided_by _ _ (is_lower-Precedes us vs p q) h)
      (decided_by _ _ (is_lower-Precedes vs ws q r) k))

Below-connex : (v w : Element) → IsNumeric v → IsNumeric w → Below v w ⊎ (v ≡ w) ⊎ Below w v
Below-connex (num a) (num b) p q = ground arith
Below-connex (num a) infinity p q = inl tt
Below-connex infinity (num b) p q = inr (inr tt)
Below-connex infinity infinity p q = inr (inl refl)
Below-connex (word s) w p q = absurd p
Below-connex v (word s) p q = absurd q

Below-asym : (v w : Element) → Below v w → ¬ (Below w v)
Below-asym (num a) (num b) p q = absurd (omega arith)
Below-asym (num a) infinity p q = q
Below-asym (num a) (word s) p q = p
Below-asym infinity w p q = p
Below-asym (word s) w p q = p

Below-irrefl : (v w : Element) → v ≡ w → ¬ (Below v w)
Below-irrefl v w e p = Below-asym v w p (rw e (rw e at p))

Precedes-asym : (vs ws : List Element) → Precedes vs ws → ¬ (Precedes ws vs)
Precedes-asym vs [] p q = p
Precedes-asym [] (w ∷ ws) p q = q
Precedes-asym (v ∷ vs) (w ∷ ws) (inl p) (inl q) = Below-asym v w p q
Precedes-asym (v ∷ vs) (w ∷ ws) (inl p) (inr (e, q)) = Below-irrefl v w (sym e) p
Precedes-asym (v ∷ vs) (w ∷ ws) (inr (e, p)) (inl q) = Below-irrefl w v (sym e) q
Precedes-asym (v ∷ vs) (w ∷ ws) (inr (e, p)) (inr (_, q)) = Precedes-asym vs ws p q

Precedes-connex :
    (vs ws : List Element)
    → All IsNumeric vs
    → All IsNumeric ws
    → Precedes vs ws ⊎ (vs ≡ ws) ⊎ Precedes ws vs
Precedes-connex [] [] p q = inr (inl refl)
Precedes-connex [] (w ∷ ws) p q = inl tt
Precedes-connex (v ∷ vs) [] p q = inr (inr tt)
Precedes-connex (v ∷ vs) (w ∷ ws) (p, ps) (q, qs) = elim (Below-connex v w p q) [
  | inl less ↦ inl (inl less)
  | inr (inr more) ↦ inr (inr (inl more))
  | inr (inl same) ↦ elim (Precedes-connex vs ws ps qs) [
    | inl less ↦ inl (inr (same, less))
    | inr (inl e) ↦ inr (inl (ap₂ ◌∷◌ same e))
    | inr (inr more) ↦ inr (inr (inr (sym same, more)))
  ]
]

is_lower-connex :
    (vs ws : List Element)
    → All IsNumeric vs
    → All IsNumeric ws
    → vs ≢ ws
    → ((is_lower vs ws ≡ some true) × (is_lower ws vs ≡ some false))
      ⊎ ((is_lower ws vs ≡ some true) × (is_lower vs ws ≡ some false))
is_lower-connex vs ws p q differ =
    let forth = is_lower-Precedes vs ws p q in
    let back = is_lower-Precedes ws vs q p in
    elim (Precedes-connex vs ws p q) [
      | inl less ↦
          inl (decided _ (Precedes vs ws) forth less, refuted _ _ back (Precedes-asym vs ws less))
      | inr (inl same) ↦ absurd (differ same)
      | inr (inr more) ↦
          inr (decided _ (Precedes ws vs) back more, refuted _ _ forth (Precedes-asym ws vs more))
    ]

-- On versions of numbers and `inf`, `is_lower` is a strict total order: it is transitive, and of two
-- versions that differ exactly one is lower than the other.
is_lower-order :
    (us vs ws : List Element)
    → All IsNumeric us
    → All IsNumeric vs
    → All IsNumeric ws
    → (is_lower us vs ≡ some true → is_lower vs ws ≡ some true → is_lower us ws ≡ some true)
      × (us ≢ vs
          → ((is_lower us vs ≡ some true) × (is_lower vs us ≡ some false))
            ⊎ ((is_lower vs us ≡ some true) × (is_lower us vs ≡ some false)))
is_lower-order us vs ws p q r = (is_lower_trans us vs ws p q r, is_lower-connex us vs p q)

lift_dev-dev :
    (x y : ℕ) (rest : List Element)
    → is_dev_build (num x ∷ num y ∷ rest) ≡ true
    → lift_dev (num x ∷ num y ∷ rest) ≡ num x ∷ num y ∷ infinity ∷ []
unfolding lift_dev
lift_dev-dev x y rest h = rw h

compare_same : (a : ℕ) (rest : Option Bool) → compare_at (num a) (num a) rest ≡ rest
unfolding compare_at
compare_same a rest = ground arith

compare_less :
    (a b : ℕ) (rest : Option Bool)
    → a < b
    → (compare_at (num a) (num b) rest ≡ some true) × (compare_at (num b) (num a) rest ≡ some false)
unfolding compare_at
compare_less a b rest h = ground arith

-- A development build x.y.0.latest or x.y.0.<commit-sha> is above every release x.y.p of its series,
-- also above those with more elements, and below every version x.z with y < z.
lift_dev-between :
    (x y z p : ℕ) (d : Element) (rest ps qs : List Element)
    → is_dev_build (num x ∷ num y ∷ num 0 ∷ d ∷ rest) ≡ true
    → y < z
    → let dev = lift_dev (num x ∷ num y ∷ num 0 ∷ d ∷ rest) in
      (is_lower (num x ∷ num y ∷ num p ∷ ps) dev ≡ some true)
      × (is_lower dev (num x ∷ num y ∷ num p ∷ ps) ≡ some false)
      × (is_lower dev (num x ∷ num z ∷ qs) ≡ some true)
      × (is_lower (num x ∷ num z ∷ qs) dev ≡ some false)
unfolding is_lower
lift_dev-between x y z p d rest ps qs h less =
    rw (lift_dev-dev x y (num 0 ∷ d ∷ rest) h)
      (ground arith, ground arith, ground arith, ground arith)

loop-star :
    (common vs ws : List Element) (v : Element) (s t : Bool)
    → All IsNumeric common
    → is_star v ≡ false
    → (is_lower_loop (common ++ word "*" ∷ vs) (common ++ v ∷ ws) s ≡ some false)
      × (is_lower_loop (common ++ v ∷ ws) (common ++ word "*" ∷ vs) t ≡ some true)
unfolding is_lower_loop
loop-star [] vs ws v s t p h = (refl, rw h)
loop-star (num a ∷ common) vs ws v s t (_, p) h =
    let (left, right) = loop-star common vs ws v s t p h in
    (compare_same a _ ∙ left, compare_same a _ ∙ right)
loop-star (infinity ∷ common) vs ws v s t (_, p) h = loop-star common vs ws v s t p h
loop-star (word w ∷ common) vs ws v s t p h = absurd p.0

-- After a common beginning of numbers, `*` stands above every other element, as the version and as
-- the minimum.
is_lower-star :
    (common vs ws : List Element) (v : Element)
    → All IsNumeric common
    → is_star v ≡ false
    → (is_lower (common ++ word "*" ∷ vs) (common ++ v ∷ ws) ≡ some false)
      × (is_lower (common ++ v ∷ ws) (common ++ word "*" ∷ vs) ≡ some true)
unfolding is_lower
is_lower-star common vs ws v p h = loop-star common vs ws v _ _ p h
