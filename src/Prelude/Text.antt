-- ===== src/Prelude/Text.antt =====
-- Text as the program formats it: decimal numbers, and lists joined by a separator.
use Prim.Native.Nat.{ℕ, zero, suc, ◌/◌, ◌%◌}
use Prim.Native.Char.{Char, code}
use Prim.Native.String.{String, ◌++◌ as ◌<>◌}
use mathlib.Core.List.{List, [], ◌∷◌}
use mathlib.Core.Path.{◌≡◌, refl}
use drbd9_tests.Prelude.Tests.{ltb, ◌==◌, nat_eq, if◌then◌else◌}

unfoldable pub digit : ℕ → String
digit zero = "0"
digit (suc zero) = "1"
digit (suc (suc zero)) = "2"
digit (suc (suc (suc zero))) = "3"
digit (suc (suc (suc (suc zero)))) = "4"
digit (suc (suc (suc (suc (suc zero))))) = "5"
digit (suc (suc (suc (suc (suc (suc zero)))))) = "6"
digit (suc (suc (suc (suc (suc (suc (suc zero))))))) = "7"
digit (suc (suc (suc (suc (suc (suc (suc (suc zero)))))))) = "8"
digit _ = "9"

unfoldable pub digits_fuel : ℕ → ℕ → String → String
unfolding digit
digits_fuel zero n out = out
digits_fuel (suc f) n out =
    let rest = digits_fuel f (n / 10) (digit (n % 10) <> out) in
    if ltb n 10 then digit n <> out else rest

-- `str(n)`; every number has at most `n + 1` digits.
unfoldable pub dec : ℕ → String
unfolding digits_fuel
dec n = digits_fuel (suc n) n ""

-- `sep.join(xs)`
unfoldable pub join : String → List String → String
join sep [] = ""
join sep (x ∷ []) = x
join sep (x ∷ y ∷ xs) = x <> (sep <> join sep (y ∷ xs))

push_char : Char → List String → List String
push_char c [] = (String.◌∷◌ c String.[]) ∷ []
push_char c (s ∷ rest) = (String.◌∷◌ c s) ∷ rest

-- `s.split(sep)` at a single character, given by its code.
unfoldable pub split : ℕ → String → List String
unfolding push_char
split sep String.[] = "" ∷ []
split sep (String.◌∷◌ c s) =
    let rest = split sep s in if code c == sep then "" ∷ rest else push_char c rest

dec_run : dec 1305 ≡ "1305"
unfolding dec
dec_run = refl

join_run : join ":" ("a" ∷ "b" ∷ "" ∷ []) ≡ "a:b:"
unfolding join
join_run = refl
