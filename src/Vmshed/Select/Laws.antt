-- ===== src/Vmshed/Select/Laws.antt =====
-- What the sections that are written promise.
use drbd9_tests.Prelude.{
  ℕ, ◌≤◌, ◌≡◌, ◌≢◌, inl, inr, refl, ◌∙◌, Bool, true, false, ◌||◌, Option, none, some, List, [], ◌∷◌,
  ◌++◌, String, leb, keep, ◌==◌, nat_eq, string_eq, contains, if◌then◌else◌, arith, Bool-cases, All,
  beq_refl,
}
use drbd9_tests.Results.{ok, >>=-eq-ok, ok_injective}
use drbd9_tests.Vmshed.Version.{parse_version}
use drbd9_tests.Vmshed.Select.{
  Config, Section, Selection, Version, selected, lower, below_nine, limit_vms, too_old,
  parse_variants_add, section_of, sort_unique, insert_sorted,
}

-- What a written section owes to its configuration, for the lowest version in use.
pub record IsFit (selection : Selection) (version : Option Version) (config : Config) (s : Section)
    : Type 0 where
  -- The machines are some of those that the selection configures, and there is one.
  pub configured : List ℕ
  pub is_selected : selected selection config ≡ some configured
  pub among : All (λ v. contains v configured ≡ true) s.vms
  pub some_vms : s.vms ≢ []
  -- Before version 9, no test runs on more than two machines.
  pub at_most_two :
      (v : Version) → version ≡ some v → below_nine v ≡ ok true → All (λ n. n ≤ 2) s.vms
  -- The version is not lower than the test's minimum.
  pub new_enough :
      (v : Version) (min : String)
      → version ≡ some v
      → config.drbd_version_min ≡ some min
      → lower v (parse_version min) ≡ ok false

keep-among :
    (p : ℕ → Bool) (xs ys : List ℕ)
    → All (λ v. contains v ys ≡ true) xs
    → All (λ v. contains v ys ≡ true) (keep p xs)
keep-among p [] ys h = tt
keep-among p (x ∷ xs) ys (m, h) =
    elim (p x) as (λ b. All (λ v. contains v ys ≡ true) (if b then x ∷ keep p xs else keep p xs)) [
      | true ↦ (m, keep-among p xs ys h)
      | false ↦ keep-among p xs ys h
    ]

contains-cons :
    (x : ℕ) (xs ys : List ℕ)
    → All (λ v. contains v ys ≡ true) xs
    → All (λ v. contains v (x ∷ ys) ≡ true) xs
contains-cons x [] ys h = tt
contains-cons x (v ∷ vs) ys (m, h) = (ground arith, contains-cons x vs ys h)

among_self : (xs : List ℕ) → All (λ v. contains v xs ≡ true) xs
among_self [] = tt
among_self (x ∷ xs) = (rw (beq_refl x), contains-cons x xs xs (among_self xs))

keep_at_most_two : (xs : List ℕ) → All (λ n. n ≤ 2) (keep (λ x. leb x 2) xs)
keep_at_most_two [] = tt
keep_at_most_two (x ∷ xs) = elim (Bool-cases (leb x 2)) [
  | inl small ↦ rw small (ground arith, keep_at_most_two xs)
  | inr large ↦ rw large (keep_at_most_two xs)
]

limit_vms-among :
    (version : Option Version) (xs vms : List ℕ)
    → limit_vms version xs ≡ ok vms
    → All (λ v. contains v xs ≡ true) vms
unfolding limit_vms
limit_vms-among version xs vms h = limited version h
  where
    limited : (w : Option Version) → limit_vms w xs ≡ ok vms → All (λ v. contains v xs ≡ true) vms
    limited none e = rw (← ok_injective e) (among_self xs)
    limited (some v) e =
        let (old, _, k) = >>=-eq-ok (below_nine v) _ e in
        elim old
            as (λ b.
              ok (if b then keep (λ x. leb x 2) xs else xs) ≡ ok vms
              → All (λ v. contains v xs ≡ true) vms) [
                | true ↦
                    λ q. rw (← ok_injective q) (keep-among (λ x. leb x 2) xs xs (among_self xs))
                | false ↦ λ q. rw (← ok_injective q) (among_self xs)
              ]
          k

limit_vms-le :
    (v : Version) (xs vms : List ℕ)
    → limit_vms (some v) xs ≡ ok vms
    → below_nine v ≡ ok true
    → All (λ n. n ≤ 2) vms
unfolding limit_vms
limit_vms-le v xs vms h old =
    rw (← ok_injective {a = keep (λ x. leb x 2) xs} (rw old at h)) (keep_at_most_two xs)

section_of-parts :
    (selection : Selection) (defaults : List String) (version : Option Version) (name : String)
    (config : Config) (s : Section)
    → section_of selection defaults version name config ≡ ok (some s)
    → (xs : List ℕ) × (selected selection config ≡ some xs)
      × (limit_vms version xs ≡ ok s.vms)
      × (s.vms ≢ [])
      × (too_old version config.drbd_version_min ≡ ok false)
      × (s.name ≡ name)
unfolding section_of
section_of-parts selection defaults version name config s h = ground arith

-- A section that is written is fit for the configuration of its test and for the lowest version in
-- use, and bears the name of the test.
pub section_of-IsFit :
    (selection : Selection) (defaults : List String) (version : Option Version) (name : String)
    (config : Config) (s : Section)
    → section_of selection defaults version name config ≡ ok (some s)
    → (s.name ≡ name) × IsFit selection version config s
section_of-IsFit selection defaults version name config s h =
    let (xs, p, l, e, t, n) = section_of-parts selection defaults version name config s h in
    (
      n,
      record {
        configured = xs;
        is_selected = p;
        among = limit_vms-among version xs s.vms l;
        some_vms = e;
        at_most_two = λ v q old. limit_vms-le v xs s.vms (rw q at l) old;
        new_enough = λ v min q m. unfold too_old in rw (q, m) at t;
      },
    )

contains-insert_sorted :
    (x y : String) (ys : List String) → contains x (insert_sorted y ys) ≡ (x == y || contains x ys)
unfolding insert_sorted
contains-insert_sorted x y [] = refl
contains-insert_sorted x y (z ∷ zs) = ground (
  arith,
  contains-insert_sorted x y zs,
  string_eq.beq_iff y z,
  string_eq.beq_iff x y,
  string_eq.beq_iff x z,
)

contains-sort_unique : (x : String) (ys : List String) → contains x (sort_unique ys) ≡ contains x ys
unfolding sort_unique
contains-sort_unique x [] = refl
contains-sort_unique x (y ∷ ys) =
    contains-insert_sorted x y (sort_unique ys) ∙ rw (contains-sort_unique x ys)

contains-append :
    (x : String) (xs ys : List String) → contains x (xs ++ ys) ≡ (contains x xs || contains x ys)
contains-append x [] ys = refl
contains-append x (y ∷ xs) ys = ground (arith, contains-append x xs ys)

section_of-variants_of :
    (selection : Selection) (defaults : List String) (version : Option Version) (name : String)
    (config : Config) (s : Section)
    → section_of selection defaults version name config ≡ ok (some s)
    → (added : List String) × (parse_variants_add config.variants_add version ≡ ok added)
      × (s.variants ≡ sort_unique (defaults ++ added))
unfolding section_of
section_of-variants_of selection defaults version name config s h = ground arith

-- The variants of a section that is written are the default ones and those that
-- `parse_variants_add` gives for its configuration, and no others.
pub section_of-variants :
    (selection : Selection) (defaults : List String) (version : Option Version) (name : String)
    (config : Config) (s : Section) (x : String)
    → section_of selection defaults version name config ≡ ok (some s)
    → (added : List String) × (parse_variants_add config.variants_add version ≡ ok added)
      × (contains x s.variants ≡ (contains x defaults || contains x added))
section_of-variants selection defaults version name config s x h =
    let (added, p, e) = section_of-variants_of selection defaults version name config s h in
    (added, p, rw e (contains-sort_unique x (defaults ++ added) ∙ contains-append x defaults added))
