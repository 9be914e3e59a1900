-- ===== src/Vmshed/Select.antt =====
-- `main`, `read_vmshed_json` and `parse_variants_add` of virter/vmshed_tests_generator.py: the test
-- sections that are written, as values. The parser of JSON is a parameter; the lines that do not
-- depend on the tests, and the layout of the printed text, are not modelled.
pub mod Laws
use Prim.Native.Char.{code}
use mathlib.Core.Option
use Prim.Native.String
use drbd9_tests.Prelude.{
  ℕ, ◌≡◌, refl, Bool, true, false, not, ◌&&◌, ◌||◌, Option, none, some, List, [], ◌∷◌, ◌++◌, String,
  ◌<>◌, length, ltb, leb, keep, ◌==◌, nat_eq, string_eq, contains, is_some, if◌then◌else◌,
}
use drbd9_tests.Results.{
  Error, Result, ok, err, runtime_error, type_error, ◌>>=◌, ◌>>◌, raise_if, or_raise, collect,
}
use drbd9_tests.Vmshed.Version.{Element, num, word, infinity, lt, text_lt, is_lower, parse_version}

pub data VariantItem : Type 0 where
  plain : String → VariantItem
  -- { "drbd_version_min": ..., "variant": ... }
  since : String → String → VariantItem

pub record Network : Type 0 where
  pub forward : String
  pub domain : String
  pub dhcp : Bool

-- The JSON object of a test. An absent key and `null` are both `none`.
pub record Config : Type 0 where
  pub vms_all : Option (List ℕ)
  pub vms_ci : Option (List ℕ)
  pub vms_rdma_ci : Option (List ℕ)
  pub drbd_version_min : Option String
  pub vm_tags : List String
  pub variants_add : List VariantItem
  pub samevms : Bool
  pub networks : List Network

pub data Selection : Type 0 where
  all ci rdma_ci : Selection

pub record Section : Type 0 where
  pub name : String
  pub vms : List ℕ
  pub vm_tags : List String
  pub variants : List String
  pub samevms : Bool
  pub networks : List Network

abbrev pub Version : Type 0
Version = List Element

unfoldable pub selected : Selection → Config → Option (List ℕ)
selected all c = c.vms_all
selected ci c = c.vms_ci
selected rdma_ci c = c.vms_rdma_ci

-- `is_lower`, with its TypeError.
unfoldable pub lower : Version → Version → Result Bool
lower a b = or_raise type_error (is_lower a b)

is_nine : Element → Bool
is_nine (num n) = n == 9
is_nine (word s) = false
is_nine infinity = false

-- `version < [9]`: the first elements that differ decide.
unfoldable pub below_nine : Version → Result Bool
unfolding is_nine lt
below_nine [] = ok true
below_nine (v ∷ vs) = if is_nine v then ok false else or_raise type_error (lt v (num 9))

-- The lower of `--drbd-version` and `--drbd-version-other`.
unfoldable pub version_lower : Option Version → Option Version → Result (Option Version)
unfolding lower
version_lower version none = ok version
version_lower none (some other) = ok (some other)
version_lower (some version) (some other) = do
  below ← lower version other
  ok (some (if below then version else other))

-- `sorted(set(...))`
insert_sorted : String → List String → List String
unfolding text_lt
insert_sorted s [] = s ∷ []
insert_sorted s (t ∷ ts) =
    let rest = insert_sorted s ts in
    if s == t then t ∷ ts else if text_lt s t then s ∷ t ∷ ts else t ∷ rest

unfoldable pub sort_unique : List String → List String
unfolding insert_sorted
sort_unique [] = []
sort_unique (s ∷ ss) = insert_sorted s (sort_unique ss)

item_applies : VariantItem → Option Version → Result Bool
unfolding lower
item_applies (plain variant) version = ok true
item_applies (since min variant) none = ok true
item_applies (since min variant) (some version) = lower (parse_version min) version

abbrev variant_of : VariantItem → String
variant_of (plain variant) = variant
variant_of (since min variant) = variant

unfoldable pub parse_variants_add : List VariantItem → Option Version → Result (List String)
unfolding item_applies
parse_variants_add [] version = ok []
parse_variants_add (item ∷ items) version = do
  applies ← item_applies item version
  rest ← parse_variants_add items version
  ok (if applies then variant_of item ∷ rest else rest)

-- The machines that are left for an old version.
unfoldable pub limit_vms : Option Version → List ℕ → Result (List ℕ)
unfolding below_nine
limit_vms none vms = ok vms
limit_vms (some version) vms = do
  old ← below_nine version
  ok (if old then keep (λ x. leb x 2) vms else vms)

-- Whether the test needs a later version than the one that runs.
unfoldable pub too_old : Option Version → Option String → Result Bool
unfolding lower
too_old (some version) (some min) = lower version (parse_version min)
too_old (some version) none = ok false
too_old none min = ok false

abbrev is_empty {ℓ} : {A : Type ℓ} → List A → Bool
is_empty [] = true
is_empty (x ∷ xs) = false

-- One round of the loop that writes the tests; `none` is `continue`.
unfoldable pub section_of :
    Selection → List String → Option Version → String → Config → Result (Option Section)
section_of selection defaults version name config = elim (selected selection config) [
  | none ↦ ok none
  | some configured ↦ (do
    vms ← limit_vms version configured
    if is_empty vms then ok none else do
      skip ← too_old version config.drbd_version_min
      if skip then ok none else do
        added ← parse_variants_add config.variants_add version
        ok (
            some (record {
              name = name;
              vms = vms;
              vm_tags = config.vm_tags;
              variants = sort_unique (defaults ++ added);
              samevms = config.samevms;
              networks = config.networks;
            })))
]

unfoldable pub sections_of :
    Selection → List String → Option Version → List (String × Config) → Result (List Section)
sections_of selection defaults version [] = ok []
sections_of selection defaults version ((name, config) ∷ rest) = do
  written ← section_of selection defaults version name config
  more ← sections_of selection defaults version rest
  ok (elim written [ none ↦ more | some s ↦ s ∷ more ])

-- `sorted(test_configs, key=lambda a: a[0])`, which is stable.
insert_named : String × Config → List (String × Config) → List (String × Config)
unfolding text_lt
insert_named (n, c) [] = (n, c) ∷ []
insert_named (n, c) ((m, d) ∷ rest) =
    let later = insert_named (n, c) rest in
    if text_lt m n then (m, d) ∷ later else (n, c) ∷ (m, d) ∷ rest

unfoldable pub sort_configs : List (String × Config) → List (String × Config)
unfolding insert_named
sort_configs [] = []
sort_configs (t ∷ ts) = insert_named t (sort_configs ts)

strip_prefix : String → String → Option String
strip_prefix String.[] s = some s
strip_prefix (String.◌∷◌ p ps) String.[] = none
strip_prefix (String.◌∷◌ p ps) (String.◌∷◌ c s) =
    if code p == code c then strip_prefix ps s else none

-- A file in the directory: its name, whether it is a regular file, and its lines.
pub record TestFile : Type 0 where
  pub name : String
  pub is_file : Bool
  pub lines : List String

module _ (parse_json : String → Config) where
  unfoldable pub read_vmshed_json : List String → Option Config
  unfolding strip_prefix
  read_vmshed_json [] = none
  read_vmshed_json (line ∷ lines) = elim (strip_prefix "### vmshed: " line) [
    | some json_str ↦ some (parse_json json_str)
    | none ↦ read_vmshed_json lines
  ]

  unfoldable pub read_configs : List TestFile → Result (List (String × Config))
  unfolding read_vmshed_json
  read_configs [] = ok []
  read_configs (f ∷ fs) =
      let rest = read_configs fs in
      if not f.is_file then rest else do
        config ← or_raise runtime_error (read_vmshed_json f.lines)
        vms ← or_raise runtime_error config.vms_all
        raise_if (is_empty vms) runtime_error
        more ← rest
        ok ((f.name, config) ∷ more)

  unfoldable pub main :
      Selection
      → Option String
      → Option String
      → List String
      → List TestFile
      → Result (List Section)
  main selection version other defaults files = do
    oldest ← version_lower (Option.map parse_version version) (Option.map parse_version other)
    configs ← read_configs files
    sections_of selection defaults oldest (sort_configs configs)
