-- ===== src/Vmshed/Version.antt =====
-- DRBD versions of virter/vmshed_tests_generator.py: `is_lower`, `parse_version`, `is_commit_sha`.
-- The digits that `isdecimal` accepts outside ASCII are not modelled.
pub mod Order
pub mod Text
use Prim.Native.Char.{Char, code}
use Prim.Native.String
use drbd9_tests.Prelude.{
  ℕ, zero, suc, ◌+◌, ◌-◌, ◌*◌, ◌≡◌, refl, Bool, true, false, ◌&&◌, ◌||◌, Option, none, some, List,
  [], ◌∷◌, String, ◌<>◌, length, ltb, leb, ◌==◌, nat_eq, string_eq, contains, if◌then◌else◌, map,
}
use drbd9_tests.Prelude.Text.{split}
use drbd9_tests.Prelude.Decimal.{to_int, all_chars, is_decimal}

-- One element of a version: an integer, another text (`*` among them), or `float('inf')`.
pub data Element : Type 0 where
  num : ℕ → Element
  word : String → Element
  infinity : Element

-- `<` on texts, by code points.
unfoldable pub text_lt : String → String → Bool
text_lt s String.[] = false
text_lt String.[] (String.◌∷◌ d t) = true
text_lt (String.◌∷◌ c s) (String.◌∷◌ d t) =
    if code c == code d then text_lt s t else ltb (code c) (code d)

-- `a < b`. Python does not order texts and numbers: `none` is its TypeError.
unfoldable pub lt : Element → Element → Option Bool
unfolding text_lt
lt (num a) (num b) = some (ltb a b)
lt (num a) infinity = some true
lt infinity (num b) = some false
lt infinity infinity = some false
lt (word s) (word t) = some (text_lt s t)
lt (word s) (num b) = none
lt (word s) infinity = none
lt (num a) (word t) = none
lt infinity (word t) = none

-- `e == '*'`
unfoldable pub is_star : Element → Bool
is_star (word s) = s == "*"
is_star (num n) = false
is_star infinity = false

unfoldable pub compare_at : Element → Element → Option Bool → Option Bool
unfolding lt is_star
compare_at v m rest =
    if is_star v then some false else if is_star m then some true else elim (lt v m) [
      | none ↦ none
      | some true ↦ some true
      | some false ↦ elim (lt m v) [ none ↦ none | some true ↦ some false | some false ↦ rest ]
    ]

-- The loop of `is_lower`, with the value that is returned when it ends.
unfoldable pub is_lower_loop : List Element → List Element → Bool → Option Bool
unfolding compare_at
is_lower_loop version [] at_end = some at_end
is_lower_loop [] (m ∷ ms) at_end = some true
is_lower_loop (v ∷ vs) (m ∷ ms) at_end = compare_at v m (is_lower_loop vs ms at_end)

unfoldable pub is_lower : List Element → List Element → Option Bool
unfolding is_lower_loop
is_lower version min_version =
    is_lower_loop version min_version (ltb (length version) (length min_version))

count_chars : String → ℕ
count_chars String.[] = 0
count_chars (String.◌∷◌ c s) = suc (count_chars s)

unfoldable pub element : String → Element
unfolding is_decimal
element s = if is_decimal s then num (to_int 0 s) else word s

is_hex : ℕ → Bool
is_hex c = (leb b'0' c && leb c b'9') || (leb b'a' c && leb c b'f')

unfoldable pub is_commit_sha : Element → Bool
unfolding is_hex count_chars
is_commit_sha (word s) = (count_chars s == 40 || count_chars s == 64) && all_chars is_hex s
is_commit_sha (num n) = false
is_commit_sha infinity = false

is_zero : Element → Bool
is_zero (num n) = n == 0
is_zero (word s) = false
is_zero infinity = false

is_latest : Element → Bool
is_latest (word s) = s == "latest"
is_latest (num n) = false
is_latest infinity = false

-- A development build, `x.y.0.latest` or `x.y.0.<commit-sha>`.
unfoldable pub is_dev_build : List Element → Bool
unfolding is_zero is_latest is_commit_sha
is_dev_build (a ∷ b ∷ c ∷ d ∷ rest) = is_zero c && (is_latest d || is_commit_sha d)
is_dev_build _ = false

unfoldable pub lift_dev : List Element → List Element
unfolding is_dev_build
lift_dev (a ∷ b ∷ rest) =
    if is_dev_build (a ∷ b ∷ rest) then a ∷ b ∷ infinity ∷ [] else a ∷ b ∷ rest
lift_dev elements = elements

unfoldable pub parse_version : String → List Element
unfolding split element lift_dev
parse_version s = lift_dev (map element (split b'.' s))

parse_release : parse_version "9.2.12" ≡ num 9 ∷ num 2 ∷ num 12 ∷ []
unfolding parse_version
parse_release = refl

parse_latest : parse_version "9.3.0.latest" ≡ num 9 ∷ num 3 ∷ infinity ∷ []
unfolding parse_version
parse_latest = refl

parse_wildcard : parse_version "9.2.*" ≡ num 9 ∷ num 2 ∷ word "*" ∷ []
unfolding parse_version
parse_wildcard = refl

lower_run : is_lower (parse_version "9.2.12") (parse_version "9.3.0.latest") ≡ some true
unfolding is_lower parse_version
lower_run = refl
