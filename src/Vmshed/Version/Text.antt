-- ===== src/Vmshed/Version/Text.antt =====
-- Versions written as text: `'.'.join(str(n) for n in version)` is parsed as the same numbers.
use drbd9_tests.Prelude.{
  ℕ, ◌≡◌, refl, ap, ap₂, ◌∙◌, true, List, [], ◌∷◌, map, String, ◌<>◌, nat_eq, arith,
}
use text.Mathlib.TextLemmas.{cons-append, nil-append}
use drbd9_tests.Prelude.Text.{dec, join, split}
use drbd9_tests.Prelude.Decimal.{
  all_chars, is_digit, to_int-dec, is_decimal-dec, all_chars-is_decimal,
}
use drbd9_tests.Vmshed.Version.{num, element, parse_version, lift_dev, is_dev_build}

dec_digits : (n : ℕ) → all_chars is_digit (dec n) ≡ true
dec_digits n = all_chars-is_decimal (dec n) (is_decimal-dec n)

split_digits : (s : String) → all_chars is_digit s ≡ true → split b'.' s ≡ s ∷ []
unfolding split
split_digits String.[] h = refl
split_digits (String.◌∷◌ c s) h = ground (arith, split_digits s)

split_dot :
    (s t : String) → all_chars is_digit s ≡ true → split b'.' (s <> ("." <> t)) ≡ s ∷ split b'.' t
unfolding split
split_dot String.[] t h =
    ap (split b'.')
      (nil-append ("." <> t) ∙ (cons-append "." "" t ∙ ap (λ u. String.◌∷◌ "." u) (nil-append t)))
split_dot (String.◌∷◌ c s) t h =
    ap (split b'.') (cons-append c s ("." <> t)) ∙ ground (arith, split_dot s t)

split-join : (n : ℕ) (ns : List ℕ) → split b'.' (join "." (map dec (n ∷ ns))) ≡ map dec (n ∷ ns)
unfolding join
split-join n [] = split_digits (dec n) (dec_digits n)
split-join n (m ∷ ns) =
    split_dot (dec n) (join "." (map dec (m ∷ ns))) (dec_digits n)
    ∙ ap (λ xs. dec n ∷ xs) (split-join m ns)

element-dec : (n : ℕ) → element (dec n) ≡ num n
unfolding element
element-dec n = rw (is_decimal-dec n) (rw (to_int-dec n) refl)

elements : (n : ℕ) (ns : List ℕ) → map element (map dec (n ∷ ns)) ≡ map num (n ∷ ns)
elements n [] = ap (λ x. x ∷ []) (element-dec n)
elements n (m ∷ ns) = ap₂ ◌∷◌ (element-dec n) (elements m ns)

-- Only a text can make a version a development build.
lift_numbers : (n : ℕ) (ns : List ℕ) → lift_dev (map num (n ∷ ns)) ≡ map num (n ∷ ns)
unfolding lift_dev is_dev_build
lift_numbers n [] = refl
lift_numbers n (a ∷ []) = refl
lift_numbers n (a ∷ b ∷ []) = refl
lift_numbers n (a ∷ b ∷ c ∷ ns) = ground arith

-- Parsing the decimal numbers of a version, written with a dot between them, returns these numbers.
pub parse_version-join :
    (n : ℕ) (ns : List ℕ) → parse_version (join "." (map dec (n ∷ ns))) ≡ map num (n ∷ ns)
unfolding parse_version lift_dev
parse_version-join n ns =
    ap lift_dev (ap (map element) (split-join n ns) ∙ elements n ns) ∙ lift_numbers n ns
