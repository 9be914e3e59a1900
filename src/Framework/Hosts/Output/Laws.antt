-- ===== src/Framework/Hosts/Output/Laws.antt =====
-- The version line of `/proc/drbd` read back.
use drbd9_tests.Prelude.{
  ℕ, ◌≡◌, refl, ap, ◌∙◌, true, false, some, String, ◌<>◌, nat_eq, string_eq, arith,
}
use Prim.Native.Char.{Char, code}
use text.Mathlib.TextLemmas.{cons-append, nil-append}
use drbd9_tests.Prelude.Text.{dec}
use drbd9_tests.Prelude.Decimal.{
  to_int-dec, is_digit, is_decimal, is_decimal-dec, all_chars, all_chars-append,
  all_chars-is_decimal,
}
use drbd9_tests.Prelude.Match.{drop_prefix-append, span_all, span-append}
use drbd9_tests.Framework.Hosts.Output.{
  ◌>>=◌, nonempty, token, is_version_char, match_version, match_numbers,
}

nonempty-decimal : (s rest : String) → is_decimal s ≡ true → nonempty (s, rest) ≡ some (s, rest)
unfolding is_decimal nonempty
nonempty-decimal String.[] rest h = absurd (cc)
nonempty-decimal (String.◌∷◌ c s) rest h = refl

dec_digits : (n : ℕ) → all_chars is_digit (dec n) ≡ true
dec_digits n = all_chars-is_decimal (dec n) (is_decimal-dec n)

dot-cons : (t : String) → ("." <> t) ≡ String.◌∷◌ "." t
dot-cons t = cons-append "." "" t ∙ ap (λ u. String.◌∷◌ "." u) (nil-append t)

-- The digits of a number, before a dot and at the end.
token-dec_dot : (n : ℕ) (t : String) → token is_digit (dec n <> ("." <> t)) ≡ some (dec n, "." <> t)
unfolding token
token-dec_dot n t = rw (dot-cons t) (
    rw (span-append is_digit (dec n) "." t (dec_digits n) refl)
      (nonempty-decimal (dec n) (String.◌∷◌ "." t) (is_decimal-dec n)))

token-dec_end : (n : ℕ) → token is_digit (dec n) ≡ some (dec n, "")
unfolding token
token-dec_end n =
    rw (span_all is_digit (dec n) (dec_digits n)) (nonempty-decimal (dec n) "" (is_decimal-dec n))

abbrev pub dotted : ℕ × ℕ × ℕ → String
dotted (a, b, c) = dec a <> ("." <> (dec b <> ("." <> dec c)))

match_numbers-dotted : (v : ℕ × ℕ × ℕ) → match_numbers (dotted v) ≡ some v
unfolding match_numbers
match_numbers-dotted (a, b, c) = rw (token-dec_dot a (dec b <> ("." <> dec c))) (
    rw (drop_prefix-append "." (dec b <> ("." <> dec c))) (
      rw (token-dec_dot b (dec c)) (
        rw (drop_prefix-append "." (dec c))
          (rw (token-dec_end c) (rw (to_int-dec a) (rw (to_int-dec b) (rw (to_int-dec c) refl)))))))

digits-version_chars :
    (s : String) → all_chars is_digit s ≡ true → all_chars is_version_char s ≡ true
digits-version_chars String.[] h = refl
digits-version_chars (String.◌∷◌ c s) h = ground (arith, digits-version_chars s)

dotted-version_chars : (v : ℕ × ℕ × ℕ) → all_chars is_version_char (dotted v) ≡ true
dotted-version_chars (a, b, c) =
    let part : (n : ℕ) → all_chars is_version_char (dec n) ≡ true =
      λ n. digits-version_chars (dec n) (dec_digits n) in
    rw (all_chars-append is_version_char (dec a) ("." <> (dec b <> ("." <> dec c)))) (
      rw (part a) (
        rw (all_chars-append is_version_char "." (dec b <> ("." <> dec c))) (
          rw (all_chars-append is_version_char (dec b) ("." <> dec c))
            (rw (part b) (rw (all_chars-append is_version_char "." (dec c)) (part c))))))

nonempty-dotted :
    (s t rest : String) → is_decimal s ≡ true → nonempty (s <> t, rest) ≡ some (s <> t, rest)
unfolding is_decimal nonempty
nonempty-dotted String.[] t rest h = absurd (cc)
nonempty-dotted (String.◌∷◌ c s) t rest h = rw (cons-append c s t) refl

-- On a version line of `/proc/drbd` that gives the version as three decimal numbers between dots and goes on
-- with a blank or a dash and any text, `read_drbd_version` finds these three numbers.
pub match_version-line :
    (v : ℕ × ℕ × ℕ) (c : Char) (rest : String)
    → is_version_char (code c) ≡ false
    → match_version ("version: " <> (dotted v <> String.◌∷◌ c rest)) >>= match_numbers ≡ some v
unfolding match_version token
match_version-line v c rest h =
    rw (drop_prefix-append "version: " (dotted v <> String.◌∷◌ c rest)) (
      rw (span-append is_version_char (dotted v) c rest (dotted-version_chars v) h) (
        rw
          (nonempty-dotted (dec v.0) ("." <> (dec v.1 <> ("." <> dec v.2))) (String.◌∷◌ c rest)
            (is_decimal-dec v.0))
          (match_numbers-dotted v)))
