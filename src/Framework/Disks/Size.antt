-- ===== src/Framework/Disks/Size.antt =====
-- `size_in_bytes`.
use drbd9_tests.Prelude.{ℕ, ◌*◌, ◌^◌, ◌≡◌, refl, true, false, ◌&&◌, none, some, String, nat_eq, leb}
use Prim.Native.Char.{Char, code}
use drbd9_tests.Results.{Result, ok, err, value_error}
use drbd9_tests.Prelude.Decimal.{is_decimal, to_int}
use drbd9_tests.Framework.Disks.{size_in_bytes, split_last, exponent, parse_int}

-- A text and a last character.
unfoldable pub snoc : String → Char → String
snoc String.[] c = String.◌∷◌ c String.[]
snoc (String.◌∷◌ d s) c = String.◌∷◌ d (snoc s c)

split_last-snoc : (s : String) (c : Char) → split_last (snoc s c) ≡ some (s, code c)
unfolding split_last snoc
split_last-snoc String.[] c = refl
split_last-snoc (String.◌∷◌ d s) c = rw (split_last-snoc s c) refl

-- A number with a unit is that number times a power of 1024; a unit that is not known is an error.
size_in_bytes-unit :
    (s : String) (c : Char)
    → is_decimal s ≡ true
    → (leb b'0' (code c) && leb (code c) b'9') ≡ false
    → size_in_bytes (snoc s c) ≡ elim (exponent (code c)) as (λ _. Result ℕ) [
      | none ↦ err value_error
      | some k ↦ ok (to_int 0 s * 1024 ^ k)
    ]
unfolding size_in_bytes exponent parse_int
size_in_bytes-unit s c digits unit =
    rw (split_last-snoc s c, size_in_bytes) (rw unit (rw (digits, parse_int) refl))
