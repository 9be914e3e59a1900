-- ===== src/Framework/Setup.antt =====
-- `setup` of python/drbdtest.py: here the number of nodes that a test asks for, what it reports to
-- run.py, the skips, and the options that become globals. The parser of the command line, the log
-- directory and the capture of consoles are not modelled.
pub mod Nodes
pub mod Versions
pub mod Tls
pub mod Cluster
pub mod Teardown
pub mod Outcome
pub mod Ready
use drbd9_tests.Prelude.{
  ℕ, zero, suc, ◌≡◌, refl, Bool, true, false, not, ◌&&◌, ◌||◌, Option, none, some, List, [], ◌∷◌,
  String, ◌<>◌, ◌==◌, nat_eq, ltb, leb, length, if◌then◌else◌,
}
use drbd9_tests.Prelude.Text.{dec}
use drbd9_tests.Results.{Result, ok, err, system_exit, raise_if, ◌>>◌}
use drbd9_tests.Framework.World.{Options}

-- Python's integers.
pub data ℤ : Type 0 where
  pos : ℕ → ℤ
  -- `negsuc n` is -(n + 1).
  negsuc : ℕ → ℤ

-- The numbers of nodes that the body of a test gives to `setup`.
pub record Needs : Type 0 where
  pub nodes : Option ℕ
  pub min_nodes : ℕ
  pub max_nodes : Option ℕ

-- The options of the command line that the modelled part of `setup` reads.
pub record Args : Type 0 where
  pub host : List String
  pub job : String
  pub override_max : Bool
  pub report_and_quit : Bool
  pub proxy : Bool
  pub lz4 : Bool
  pub zstd : Option ℤ
  pub memlimit : Option ℕ
  pub volume_group : String
  pub storage_backend : String
  pub backing_device : String
  pub tls : Bool
  pub no_rmmod : Bool
  pub drbd_version : Option String
  pub drbd_version_other : Option String
  pub drbd_other_node : ℕ
  pub selinux_debug : Bool

-- `if nodes is not None: min_nodes = max_nodes = nodes`
unfoldable pub bounds : Needs → ℕ × Option ℕ
bounds needs = elim needs.nodes [ none ↦ (needs.min_nodes, needs.max_nodes) | some n ↦ (n, some n) ]

-- What is printed for `--report-and-quit`; a maximum of 0 is taken for none.
unfoldable pub report_lines : Needs → List String
unfolding bounds
report_lines needs =
    let (min_nodes, max_nodes) = bounds needs in
    ("min_nodes=" <> dec min_nodes)
    ∷ elim max_nodes [ none ↦ [] | some n ↦ if n == 0 then [] else ("max_nodes=" <> dec n) ∷ [] ]

-- `skip_test`
abbrev pub skip_if : Bool → Result (Unit {0})
skip_if c = raise_if c (system_exit 100)

abbrev exactly : ℕ → Option ℕ → ℕ → Bool
exactly min_nodes none n = false
exactly min_nodes (some max_nodes) n = min_nodes == max_nodes && not (n == min_nodes)

abbrev above : Option ℕ → ℕ → Bool
above none n = false
above (some max_nodes) n = ltb max_nodes n

-- `setup` from the report to the last check of the number of hosts.
unfoldable pub check_nodes : Needs → Args → Result (Unit {0})
unfolding bounds
check_nodes needs args =
    let (min_nodes, max_nodes) = bounds needs in
    let n = length args.host in
    raise_if args.report_and_quit (system_exit 0)
    >> (skip_if (exactly min_nodes max_nodes n)
        >> (skip_if (ltb n min_nodes) >> skip_if (above max_nodes n && not args.override_max)))

-- The compression level: 0 for none, and 3 for a level that there is not.
unfoldable pub zstd_level : Option ℤ → ℕ
zstd_level none = 0
zstd_level (some (pos n)) = if leb n 22 then n else 3
zstd_level (some (negsuc n)) = 3

-- `if args.memlimit: memlimit = args.memlimit`; a negative limit is not modelled.
unfoldable pub options : Args → Options
unfolding zstd_level
options args = record {
  job = args.job;
  proxy_enable = args.proxy;
  lz4_enable = args.lz4;
  zstd_enable = zstd_level args.zstd;
  memlimit = elim args.memlimit [ none ↦ none | some n ↦ if n == 0 then none else some n ];
}
