-- ===== src/Prelude/Match.antt =====
-- Text as the program takes it apart: prefixes, runs of characters, substrings, lines, and letters.
use Prim.Native.Nat.{ℕ, zero, suc, ◌-◌}
use Prim.Native.Char.{Char, code, nul}
use Prim.Native.String.{String, ◌++◌ as ◌<>◌}
use mathlib.Core.Path.{◌≡◌, refl, ◌∙◌, ap}
use mathlib.Core.Bool.{Bool, true, false, ◌&&◌, ◌||◌}
use mathlib.Core.Option.{Option, none, some}
use mathlib.Core.List.{List, [], ◌∷◌}
use text.Mathlib.TextLemmas.{cons-append, nil-append}
use native.Mathlib.Omega.{arith}
use drbd9_tests.Prelude.Tests.{leb, ◌==◌, nat_eq, string_eq, is_some, if◌then◌else◌}
use drbd9_tests.Prelude.Text.{split}
use drbd9_tests.Prelude.Decimal.{to_int, all_chars, is_digit, is_decimal}

-- What follows a prefix, if the text has it.
unfoldable pub drop_prefix : String → String → Option String
drop_prefix String.[] s = some s
drop_prefix (String.◌∷◌ c p) String.[] = none
drop_prefix (String.◌∷◌ c p) (String.◌∷◌ d s) =
    let rest = drop_prefix p s in if code c == code d then rest else none

-- `needle in s`
unfoldable pub has_text : String → String → Bool
unfolding drop_prefix
has_text needle String.[] = is_some (drop_prefix needle String.[])
has_text needle (String.◌∷◌ c s) =
    is_some (drop_prefix needle (String.◌∷◌ c s)) || has_text needle s

-- The longest beginning of characters that have the property, and what follows it.
unfoldable pub span : (ℕ → Bool) → String → String × String
span p String.[] = (String.[], String.[])
span p (String.◌∷◌ c s) =
    let (run, rest) = span p s in
    if p (code c) then (String.◌∷◌ c run, rest) else (String.[], String.◌∷◌ c s)

-- `int(re.findall(key + r'(\d+)', s)[0])`
unfoldable pub find_number : String → String → Option ℕ
unfolding drop_prefix span is_decimal
find_number key String.[] = none
find_number key (String.◌∷◌ c s) =
    let later = find_number key s in
    elim (drop_prefix key (String.◌∷◌ c s)) [
      | none ↦ later
      | some rest ↦
          let (run, _) = span is_digit rest in if is_decimal run then some (to_int 0 run) else later
    ]

-- `s.splitlines()`, of lines that end with a newline character.
drop_last : List String → List String
drop_last [] = []
drop_last (x ∷ []) = if x == "" then [] else x ∷ []
drop_last (x ∷ y ∷ xs) = x ∷ drop_last (y ∷ xs)

unfoldable pub split_lines : String → List String
unfolding drop_last split
split_lines s = drop_last (split 10 s)

-- `s.upper()` and `s.lower()`, of letters of ASCII.
char_at : String → ℕ → Char
char_at String.[] n = nul
char_at (String.◌∷◌ c s) zero = c
char_at (String.◌∷◌ c s) (suc n) = char_at s n

unfoldable pub upper_char : Char → Char
unfolding char_at
upper_char c =
    if leb b'a' (code c) && leb (code c) b'z'
    then char_at "ABCDEFGHIJKLMNOPQRSTUVWXYZ" (code c - b'a')
    else c

unfoldable pub lower_char : Char → Char
unfolding char_at
lower_char c =
    if leb b'A' (code c) && leb (code c) b'Z'
    then char_at "abcdefghijklmnopqrstuvwxyz" (code c - b'A')
    else c

unfoldable pub map_chars : (Char → Char) → String → String
map_chars f String.[] = String.[]
map_chars f (String.◌∷◌ c s) = String.◌∷◌ (f c) (map_chars f s)

unfoldable pub upper : String → String
unfolding map_chars upper_char
upper s = map_chars upper_char s

unfoldable pub lower : String → String
unfolding map_chars lower_char
lower s = map_chars lower_char s

-- `text.replace(c, by)`, for a single character that is given by its code
unfoldable pub replace_char : ℕ → String → String → String
replace_char c by String.[] = ""
replace_char c by (String.◌∷◌ d s) =
    let rest = replace_char c by s in if code d == c then by <> rest else String.◌∷◌ d rest

pub drop_prefix-append : (p s : String) → drop_prefix p (p <> s) ≡ some s
unfolding drop_prefix
drop_prefix-append String.[] s = ap some (nil-append s)
drop_prefix-append (String.◌∷◌ c p) s =
    ap (drop_prefix (String.◌∷◌ c p)) (cons-append c p s) ∙ ground (arith, drop_prefix-append p s)

-- A run ends where the text does.
pub span_all : (p : ℕ → Bool) (s : String) → all_chars p s ≡ true → span p s ≡ (s, String.[])
unfolding span
span_all p String.[] h = refl
span_all p (String.◌∷◌ c s) h = ground (arith, span_all p s)

-- A run ends at a character that does not have the property.
pub span-append :
    (p : ℕ → Bool) (s : String) (c : Char) (t : String)
    → all_chars p s ≡ true
    → p (code c) ≡ false
    → span p (s <> String.◌∷◌ c t) ≡ (s, String.◌∷◌ c t)
unfolding span
span-append p String.[] c t h k = ap (span p) (nil-append (String.◌∷◌ c t)) ∙ ground (arith, k)
span-append p (String.◌∷◌ d s) c t h k =
    ap (span p) (cons-append d s (String.◌∷◌ c t)) ∙ ground (arith, span-append p s c t)

lines_run : split_lines "version: 9.2.12\nGIT-hash: AB\n" ≡ "version: 9.2.12" ∷ "GIT-hash: AB" ∷ []
unfolding split_lines
lines_run = refl

upper_run : upper "0a1bcz" ≡ "0A1BCZ"
unfolding upper
upper_run = refl
