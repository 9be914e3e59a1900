-- ===== src/Framework/Config/Pairs.antt =====
-- The connections of the file: every two nodes once.
use drbd9_tests.Prelude.{
  ℕ, suc, ◌+◌, ◌*◌, ◌≡◌, ◌≢◌, refl, true, ◌&&◌, ◌||◌, List, [], ◌∷◌, ◌++◌, length, length-append,
  length-map, map, ◌==◌, nat_eq, pair_eq, contains, arith,
}
use drbd9_tests.Framework.Config.{later_pairs}

contains-append :
    (p : ℕ × ℕ) (xs ys : List (ℕ × ℕ)) → contains p (xs ++ ys) ≡ (contains p xs || contains p ys)
contains-append p [] ys = refl
contains-append p (x ∷ xs) ys = ground (arith, contains-append p xs ys)

contains-map :
    (a b n : ℕ) (ms : List ℕ)
    → contains {A = ℕ × ℕ} (a, b) (map (λ m. (n, m)) ms) ≡ (a == n && contains b ms)
contains-map a b n [] = ground arith
contains-map a b n (m ∷ ms) = ground (arith, contains-map a b n ms)

-- For different nodes of a list, one of the two ordered pairs is among the connections; and there
-- are n (n - 1) / 2 connections for n nodes, so no pair occurs twice and no node meets itself.
later_pairs-once :
    (ns : List ℕ)
    → (length (later_pairs ns) + length (later_pairs ns) + length ns ≡ length ns * length ns)
      × ((a b : ℕ)
          → contains a ns ≡ true
          → contains b ns ≡ true
          → a ≢ b
          → (contains (a, b) (later_pairs ns) || contains (b, a) (later_pairs ns)) ≡ true)
unfolding later_pairs
later_pairs-once [] = (refl, λ a b p q ne. absurd (cc))
later_pairs-once (n ∷ ns) =
    let (count, met) = later_pairs-once ns in
    (sizes (later_pairs ns) count, λ a b p q ne. joins a b p q ne (met a b))
  where
    sizes :
        (ps : List (ℕ × ℕ))
        → length ps + length ps + length ns ≡ length ns * length ns
        → length (map (λ m. (n, m)) ns ++ ps)
            + length (map (λ m. (n, m)) ns ++ ps)
            + suc (length ns)
          ≡ suc (length ns) * suc (length ns)
    sizes ps e =
        omega (
          arith,
          length-append (map (λ m. (n, m)) ns) ps,
          length-map {B = ℕ × ℕ} (λ m. (n, m)) ns,
          e,
        )

    joins :
        (a b : ℕ)
        → contains a (n ∷ ns) ≡ true
        → contains b (n ∷ ns) ≡ true
        → a ≢ b
        → (contains a ns ≡ true
            → contains b ns ≡ true
            → a ≢ b
            → (contains (a, b) (later_pairs ns) || contains (b, a) (later_pairs ns)) ≡ true)
        → (contains (a, b) (map (λ m. (n, m)) ns ++ later_pairs ns)
            || contains (b, a) (map (λ m. (n, m)) ns ++ later_pairs ns))
          ≡ true
    joins a b p q ne met = ground (
      arith,
      contains-append (a, b) (map (λ m. (n, m)) ns) (later_pairs ns),
      contains-append (b, a) (map (λ m. (n, m)) ns) (later_pairs ns),
      contains-map a b n ns,
      contains-map b a n ns,
      met,
    )
