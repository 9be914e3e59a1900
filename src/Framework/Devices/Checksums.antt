-- ===== src/Framework/Devices/Checksums.antt =====
-- What `verify_data` of python/datatools.py ensures.
use drbd9_tests.Prelude.{
  ℕ, ◌≡◌, ◌∙◌, ap, ap₂, sym, refl, Bool, true, false, not, ◌&&◌, ◌||◌, Option, List, [], ◌∷◌, map,
  String, ◌==◌, string_eq, beq_refl, any, is_some,
}
use drbd9_tests.Results.{Error, Result, ok, runtime_error, ok_injective}
use drbd9_tests.Exec.{Exec, pure, raise_if, collect, ◌>>=◌, >>=-eq-ok}
use drbd9_tests.Framework.World.{World, Remote}
use drbd9_tests.Framework.Devices.Data.{differ, node_md5sum, verify_data}

or_false : (a b : Bool) → (not a || b) ≡ false → (a ≡ true) × (b ≡ false)
or_false true b h = (refl, h)
or_false false b h = absurd (cc)

abbrev Sums : Type 0 → Type 0
Sums S = Result (List String) × S

sums_of :
    {S : Type 0} {xs ys : List String} {s t : S} → ◌≡◌ {A = Sums S} (ok xs, s) (ok ys, t) → ys ≡ xs
sums_of h = sym (ok_injective (ap (λ p. p.0) h))

module _ {S A : Type 0} (f : A → Exec S String) where
  -- Texts that all equal one text, collected from a list, are that text once for each entry.
  collect-alike :
      (x : String) (keys : List A) (s t : S) (sums : List String)
      → collect keys f s ≡ (ok sums, t)
      → any (λ y. not (x == y)) sums ≡ false
      → sums ≡ map (λ _. x) keys
  unfolding collect
  collect-alike x [] s t sums h same = sums_of h
  collect-alike x (a ∷ keys) s t sums h same =
      let (y, u, first, rest) = >>=-eq-ok (f a) (λ y. collect keys f >>= λ ys. pure (y ∷ ys)) s h in
      let (ys, v, others, last) = >>=-eq-ok (collect keys f) (λ ys. pure (y ∷ ys)) u rest in
      let found : sums ≡ y ∷ ys = sums_of last in
      let (here, there) =
        or_false (x == y) (any (λ z. not (x == z)) ys)
          (sym (ap (any (λ z. not (x == z))) found) ∙ same) in
      found
      ∙ (ap (λ z. z ∷ ys) (sym ((string_eq.beq_iff x y).0 here))
          ∙ ap (λ zs. x ∷ zs) (collect-alike x keys u v ys others there))

  first_alike :
      (keys : List A) (s t : S) (sums : List String)
      → collect keys f s ≡ (ok sums, t)
      → differ sums ≡ false
      → (sum : String) × (sums ≡ map (λ _. sum) keys)
  unfolding collect differ
  first_alike keys s t [] h same = ("", collect-alike "" keys s t [] h refl)
  first_alike keys s t (x ∷ xs) h same =
      (x, collect-alike x keys s t (x ∷ xs) h (rw (beq_refl x) same))

returned :
    {S : Type 0} (c : Bool) (e : Error) {s t : S}
    → raise_if c e s ≡ (ok tt, t)
    → (c ≡ false) × (s ≡ t)
returned true e h = absurd (cc)
returned false e h = (refl, ap (λ p. p.1) h)

-- When `verify_data` returns, a backing disk was read with a size, and the first volumes of all nodes were read
-- with one and the same checksum.
pub verify_data-alike :
    (remote : Remote) (nodes : List ℕ) (size_mb : Option ℕ) (backing_disk : Bool)
    (offset_mb : Option ℕ) (w t : World)
    → verify_data remote nodes size_mb backing_disk offset_mb w ≡ (ok tt, t)
    → ((backing_disk && not (is_some size_mb)) ≡ false)
      × (sum : String) × (collect nodes (node_md5sum remote size_mb backing_disk offset_mb) w
          ≡ (ok (map (λ _. sum) nodes), t))
unfolding verify_data
verify_data-alike remote nodes size_mb backing_disk offset_mb w t h =
    let read : ℕ → Exec World String = node_md5sum remote size_mb backing_disk offset_mb in
    let compare : Exec World (Unit {0}) =
      collect nodes read >>= λ sums. raise_if (differ sums) runtime_error in
    let (_, w1, checked, rest) =
      >>=-eq-ok (raise_if (backing_disk && not (is_some size_mb)) runtime_error) (λ _. compare) w
        h in
    let (sized, same_w) = returned (backing_disk && not (is_some size_mb)) runtime_error checked in
    let (sums, w2, collected, compared) =
      >>=-eq-ok (collect nodes read) (λ sums. raise_if (differ sums) runtime_error) w1 rest in
    let (agreed, same_t) = returned (differ sums) runtime_error compared in
    let (sum, alike) = first_alike read nodes w1 w2 sums collected agreed in
    (
      sized,
      sum,
      ap (collect nodes read) same_w ∙ (collected ∙ ap₂ (λ xs u. (ok xs, u)) alike same_t),
    )
