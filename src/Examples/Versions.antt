-- ===== src/Examples/Versions.antt =====
-- Runs of virter/vmshed_tests_generator.py.
use drbd9_tests.Prelude.{
  ◌≡◌, ◌↔◌, refl, Bool, true, false, ◌||◌, none, some, List, [], ◌∷◌, String, nat_eq, string_eq,
  contains, map,
}
use drbd9_tests.Prelude.Text.{dec, join}
use drbd9_tests.Vmshed.Version.Text.{parse_version-join}
use drbd9_tests.Results.{ok}
use drbd9_tests.Vmshed.Version.{Element, num, infinity, is_lower, parse_version}
use drbd9_tests.Vmshed.Version.Order.{Precedes, is_lower-Precedes}
use drbd9_tests.Vmshed.Select.{
  Config, Section, all, plain, since, section_of, selected, limit_vms, too_old, lower, sort_unique,
  parse_variants_add,
}
use drbd9_tests.Vmshed.Select.Laws.{IsFit, section_of-IsFit, section_of-variants}

abbrev old : List Element
old = num 9 ∷ num 1 ∷ num 4 ∷ []

abbrev recent : List Element
recent = num 9 ∷ num 2 ∷ num 12 ∷ []

abbrev latest : List Element
latest = num 9 ∷ num 3 ∷ infinity ∷ []

abbrev numeric : Unit {0} × (Unit {0} × (Unit {0} × Unit {0}))
numeric = (tt, (tt, (tt, tt)))

is_lower-Precedes_example :
    (b : Bool) × (is_lower old latest ≡ some b) × ((b ≡ true) ↔ Precedes old latest)
is_lower-Precedes_example = is_lower-Precedes old latest numeric numeric

parse_version-join_example :
    parse_version (join "." (map dec (9 ∷ 2 ∷ 12 ∷ []))) ≡ map num (9 ∷ 2 ∷ 12 ∷ [])
parse_version-join_example = parse_version-join 9 (2 ∷ 12 ∷ [])

-- A test with a minimum version and variants, for DRBD 9.2.12.
abbrev config : Config
config = record {
  vms_all = some (2 ∷ 3 ∷ []);
  vms_ci = some (3 ∷ []);
  vms_rdma_ci = none;
  drbd_version_min = some "9.1.4";
  vm_tags = [];
  variants_add = plain "quick" ∷ since "9.3.0" "ktls" ∷ since "9.2.0" "lb" ∷ [];
  samevms = false;
  networks = [];
}

abbrev section : Section
section = record {
  name = "add-path";
  vms = 2 ∷ 3 ∷ [];
  vm_tags = [];
  variants = "lb" ∷ "quick" ∷ "tcp" ∷ [];
  samevms = false;
  networks = [];
}

section_of-IsFit_example : (section.name ≡ "add-path") × IsFit all (some recent) config section
unfolding section_of selected limit_vms too_old lower parse_variants_add parse_version is_lower
    sort_unique
section_of-IsFit_example =
    section_of-IsFit all ("tcp" ∷ []) (some recent) "add-path" config section refl

section_of-variants_example :
    (added : List String) × (parse_variants_add config.variants_add (some recent) ≡ ok added)
    × (contains {A = String} "lb" section.variants
        ≡ (contains {A = String} "lb" ("tcp" ∷ []) || contains {A = String} "lb" added))
unfolding section_of selected limit_vms too_old lower parse_variants_add parse_version is_lower
    sort_unique
section_of-variants_example =
    section_of-variants all ("tcp" ∷ []) (some recent) "add-path" config section "lb" refl
