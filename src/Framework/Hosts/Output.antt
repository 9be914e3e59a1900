-- ===== src/Framework/Hosts/Output.antt =====
-- What python/linuxplatformhelper.py and python/windowsplatformhelper.py read from the output of commands: the
-- regular expressions of `init_host` and `read_drbd_version`, and the words of `get_default_addr`.
-- Characters outside ASCII are not modelled.
pub mod Laws
use drbd9_tests.Prelude.{
  ℕ, zero, suc, ◌≡◌, refl, Bool, true, false, not, ◌&&◌, ◌||◌, Option, none, some, List, [], ◌∷◌,
  String, ◌<>◌, ◌==◌, nat_eq, string_eq, leb, is_some, if◌then◌else◌,
}
use Prim.Native.Char.{code}
use drbd9_tests.Prelude.Text.{split}
use drbd9_tests.Prelude.Decimal.{to_int, is_digit}
use drbd9_tests.Prelude.Match.{drop_prefix, span, lower}
use drbd9_tests.Results.{Result, ok, err, runtime_error}

infixl 5 ◌>>=◌
abbrev pub ◌>>=◌ : {A B : Type 0} → Option A → (A → Option B) → Option B
none >>= f = none
some a >>= f = f a

-- One or more characters that have the property, and what follows them.
unfoldable pub nonempty : String × String → Option (String × String)
nonempty (String.[], rest) = none
nonempty (String.◌∷◌ c run, rest) = some (String.◌∷◌ c run, rest)

unfoldable pub token : (ℕ → Bool) → String → Option (String × String)
unfolding span nonempty
token p s = nonempty (span p s)

-- `r'version: ([^ -]+).*'`, from the beginning of the line
abbrev pub is_version_char : ℕ → Bool
is_version_char c = not (c == b' ') && not (c == b'-')

unfoldable pub match_version : String → Option String
unfolding drop_prefix token
match_version line = do
  s ← drop_prefix "version: " line
  (version, rest) ← token is_version_char s
  some version

-- `r'(?:srcversion|GIT-hash): ([0-9A-Fa-f]+).*'`, in lower case
abbrev is_hex : ℕ → Bool
is_hex c = is_digit c || ((leb b'A' c && leb c b'F') || (leb b'a' c && leb c b'f'))

hash_after : String → String → Option String
unfolding drop_prefix token lower
hash_after key line = do s ← drop_prefix key line; (hash, rest) ← token is_hex s; some (lower hash)

unfoldable pub match_hash : String → Option String
unfolding hash_after
match_hash line = elim (drop_prefix "srcversion: " line) [
  | none ↦ hash_after "GIT-hash: " line
  | some rest ↦ hash_after "srcversion: " line
]

-- `r'([0-9]+)\.([0-9]+)\.([0-9]+).*'`, and the three numbers
unfoldable pub match_numbers : String → Option (ℕ × ℕ × ℕ)
unfolding drop_prefix token
match_numbers version = do
  (a, after_a) ← token is_digit version
  s ← drop_prefix "." after_a
  (b, after_b) ← token is_digit s
  t ← drop_prefix "." after_b
  (c, rest) ← token is_digit t
  some (to_int 0 a, to_int 0 b, to_int 0 c)

-- `r'^\s*\d+:\s+(\w+)\s+inet\s+([\d\.]+)/(\d+)'`: the device, its address, and the prefix
abbrev is_space : ℕ → Bool
is_space c = c == b' ' || (leb 9 c && leb c 13)

abbrev is_word : ℕ → Bool
is_word c = (is_digit c || c == b'_') || ((leb b'A' c && leb c b'Z') || (leb b'a' c && leb c b'z'))

abbrev is_dotted : ℕ → Bool
is_dotted c = is_digit c || c == b'.'

unfoldable pub match_address : String → Option (String × (String × String))
unfolding drop_prefix token span
match_address line = do
  (number, after_number) ← token is_digit (span is_space line).1
  s ← drop_prefix ":" after_number
  (s1, t) ← token is_space s
  (device, after_device) ← token is_word t
  (s2, u) ← token is_space after_device
  v ← drop_prefix "inet" u
  (s3, x) ← token is_space v
  (address, after_address) ← token is_dotted x
  y ← drop_prefix "/" after_address
  (prefix, rest) ← token is_digit y
  some (device, (address, prefix))

-- The words that follow a word `src`: `zip(words, words[1:])`.
unfoldable pub after_src : List String → List String
after_src [] = []
after_src (key ∷ []) = []
after_src (key ∷ value ∷ words) =
    let rest = after_src (value ∷ words) in if key == "src" then value ∷ rest else rest

-- The last lines of `get_default_addr`
unfoldable pub source_address : String → Result String
unfolding after_src split
source_address out = elim (after_src (split b' ' out)) [
  | [] ↦ err runtime_error
  | ◌∷◌ a more ↦ elim more [ [] ↦ ok a | ◌∷◌ b rest ↦ err runtime_error ]
]

address_run :
    match_address "2: eth1    inet 10.0.0.5/24 brd 10.0.0.255" ≡ some ("eth1", ("10.0.0.5", "24"))
unfolding match_address
address_run = refl

source_run : source_address "1.0.0.0 via 10.0.2.2 dev eth0 src 10.0.2.15 uid 0" ≡ ok "10.0.2.15"
unfolding source_address
source_run = refl

hash_run : match_hash "GIT-hash: 0A1b2c3d build" ≡ some "0a1b2c3d"
unfolding match_hash
hash_run = refl
