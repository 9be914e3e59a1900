-- ===== src/Prelude/Decimal.antt =====
-- Decimal text and its reading back: `str` and `int` of Python on the natural numbers.
use Prim.Native.Nat.{ℕ, zero, suc, ◌+◌, ◌*◌, ◌-◌, ◌<◌, ◌/◌, ◌%◌}
use Prim.Native.Char.{code}
use Prim.Native.String.{String, ◌++◌ as ◌<>◌}
use mathlib.Core.Path.{◌≡◌, refl, ◌∙◌, ap, sym}
use mathlib.Core.Logic.{inl, inr}
use mathlib.Core.Bool.{Bool, true, false, ◌&&◌}
use text.Mathlib.TextLemmas.{cons-append, nil-append}
use native.Mathlib.Omega.{arith}
use drbd9_tests.Prelude.Tests.{Bool-cases, ltb, leb}
use drbd9_tests.Prelude.Text.{dec, digits_fuel, digit}

-- `int` of a row of digits, from the number before them.
abbrev pub to_int : ℕ → String → ℕ
to_int n String.[] = n
to_int n (String.◌∷◌ c s) = to_int (n * 10 + (code c - b'0')) s

-- What holds of the code of every character of a text.
abbrev pub all_chars : (ℕ → Bool) → String → Bool
all_chars p String.[] = true
all_chars p (String.◌∷◌ c s) = p (code c) && all_chars p s

abbrev pub is_digit : ℕ → Bool
is_digit c = leb b'0' c && leb c b'9'

-- `s.isdecimal()`
unfoldable pub is_decimal : String → Bool
is_decimal String.[] = false
is_decimal (String.◌∷◌ c s) = is_digit (code c) && all_chars is_digit s

to_int-append : (s t : String) (n : ℕ) → to_int n (s <> t) ≡ to_int (to_int n s) t
to_int-append String.[] t n = ap (to_int n) (nil-append t)
to_int-append (String.◌∷◌ c s) t n =
    ap (to_int n) (cons-append c s t) ∙ to_int-append s t (n * 10 + (code c - b'0'))

to_int-digit : (n d : ℕ) → d < 10 → to_int n (digit d) ≡ n * 10 + d
unfolding digit
to_int-digit n zero h = omega arith
to_int-digit n (suc zero) h = omega arith
to_int-digit n (suc (suc zero)) h = omega arith
to_int-digit n (suc (suc (suc zero))) h = omega arith
to_int-digit n (suc (suc (suc (suc zero)))) h = omega arith
to_int-digit n (suc (suc (suc (suc (suc zero))))) h = omega arith
to_int-digit n (suc (suc (suc (suc (suc (suc zero)))))) h = omega arith
to_int-digit n (suc (suc (suc (suc (suc (suc (suc zero))))))) h = omega arith
to_int-digit n (suc (suc (suc (suc (suc (suc (suc (suc zero)))))))) h = omega arith
to_int-digit n (suc (suc (suc (suc (suc (suc (suc (suc (suc zero))))))))) h = omega arith
to_int-digit n (suc (suc (suc (suc (suc (suc (suc (suc (suc (suc d)))))))))) h =
    absurd (omega (arith, h))

-- The digits that n takes, written before the others, are read as n.
to_int-digits_fuel :
    (f n : ℕ) (out : String) → n < f → to_int 0 (digits_fuel f n out) ≡ to_int n out
unfolding digits_fuel
to_int-digits_fuel zero n out h = absurd (omega (arith, h))
to_int-digits_fuel (suc f) n out h = elim (Bool-cases (ltb n 10)) [
  | inl small ↦ rw small (
      to_int-append (digit n) out 0
      ∙ ap (λ m. to_int m out) (to_int-digit 0 n (ground arith) ∙ omega arith))
  | inr large ↦ rw large (
      to_int-digits_fuel f (n / 10) (digit (n % 10) <> out) (ground arith)
      ∙ (to_int-append (digit (n % 10)) out (n / 10)
          ∙ ap (λ m. to_int m out) (to_int-digit (n / 10) (n % 10) (omega arith) ∙ omega arith)))
]

pub to_int-dec : (n : ℕ) → to_int 0 (dec n) ≡ n
unfolding dec
to_int-dec n = to_int-digits_fuel (suc n) n "" (omega arith)

pub dec_injective : (m n : ℕ) → dec m ≡ dec n → m ≡ n
dec_injective m n h = sym (to_int-dec m) ∙ (ap (to_int 0) h ∙ to_int-dec n)

pub all_chars-append :
    (p : ℕ → Bool) (s t : String) → all_chars p (s <> t) ≡ (all_chars p s && all_chars p t)
all_chars-append p String.[] t = ap (all_chars p) (nil-append t)
all_chars-append p (String.◌∷◌ c s) t =
    ap (all_chars p) (cons-append c s t) ∙ ground (arith, all_chars-append p s t)

all_chars-digit : (d : ℕ) → all_chars is_digit (digit d) ≡ true
unfolding digit
all_chars-digit zero = refl
all_chars-digit (suc zero) = refl
all_chars-digit (suc (suc zero)) = refl
all_chars-digit (suc (suc (suc zero))) = refl
all_chars-digit (suc (suc (suc (suc zero)))) = refl
all_chars-digit (suc (suc (suc (suc (suc zero))))) = refl
all_chars-digit (suc (suc (suc (suc (suc (suc zero)))))) = refl
all_chars-digit (suc (suc (suc (suc (suc (suc (suc zero))))))) = refl
all_chars-digit (suc (suc (suc (suc (suc (suc (suc (suc zero)))))))) = refl
all_chars-digit (suc (suc (suc (suc (suc (suc (suc (suc (suc d))))))))) = refl

is_decimal-digit : (d : ℕ) → is_decimal (digit d) ≡ true
unfolding digit is_decimal
is_decimal-digit zero = refl
is_decimal-digit (suc zero) = refl
is_decimal-digit (suc (suc zero)) = refl
is_decimal-digit (suc (suc (suc zero))) = refl
is_decimal-digit (suc (suc (suc (suc zero)))) = refl
is_decimal-digit (suc (suc (suc (suc (suc zero))))) = refl
is_decimal-digit (suc (suc (suc (suc (suc (suc zero)))))) = refl
is_decimal-digit (suc (suc (suc (suc (suc (suc (suc zero))))))) = refl
is_decimal-digit (suc (suc (suc (suc (suc (suc (suc (suc zero)))))))) = refl
is_decimal-digit (suc (suc (suc (suc (suc (suc (suc (suc (suc d))))))))) = refl

is_decimal-append :
    (s t : String) → is_decimal s ≡ true → all_chars is_digit t ≡ true → is_decimal (s <> t) ≡ true
unfolding is_decimal
is_decimal-append String.[] t h k = absurd (cc)
is_decimal-append (String.◌∷◌ c s) t h k =
    ap is_decimal (cons-append c s t) ∙ ground (arith, all_chars-append is_digit s t)

is_decimal-digits_fuel :
    (f n : ℕ) (out : String)
    → n < f
    → all_chars is_digit out ≡ true
    → is_decimal (digits_fuel f n out) ≡ true
unfolding digits_fuel
is_decimal-digits_fuel zero n out p h = absurd (omega (arith, p))
is_decimal-digits_fuel (suc f) n out p h = elim (Bool-cases (ltb n 10)) [
  | inl small ↦ rw small (is_decimal-append (digit n) out (is_decimal-digit n) h)
  | inr large ↦ rw large (
      is_decimal-digits_fuel f (n / 10) (digit (n % 10) <> out) (ground arith) (
        ground
          (arith, all_chars-append is_digit (digit (n % 10)) out, all_chars-digit (n % 10), h)))
]

pub is_decimal-dec : (n : ℕ) → is_decimal (dec n) ≡ true
unfolding dec
is_decimal-dec n = is_decimal-digits_fuel (suc n) n "" (omega arith) refl

pub all_chars-is_decimal : (s : String) → is_decimal s ≡ true → all_chars is_digit s ≡ true
unfolding is_decimal
all_chars-is_decimal String.[] h = refl
all_chars-is_decimal (String.◌∷◌ c s) h = h
