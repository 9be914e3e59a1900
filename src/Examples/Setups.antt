-- ===== src/Examples/Setups.antt =====
-- Runs of `setup` and `teardown` of python/drbdtest.py, on two Linux hosts.
use drbd9_tests.Prelude.{
  ◌≡◌, refl, true, false, not, ◌&&◌, ◌||◌, none, some, List, [], ◌∷◌, String, ◌==◌, string_eq,
  nat_eq, length, all, get_elem?, if◌then◌else◌, arith,
}
use drbd9_tests.Prelude.Text.{dec, split}
use drbd9_tests.Prelude.Match.{split_lines}
use drbd9_tests.Framework.Hosts.{get_platform_helper, read_drbd_version, linux_init_host, rmmod}
use drbd9_tests.Framework.Hosts.Output.{match_version, match_hash, source_address}
use drbd9_tests.Prelude.Match.{find_number}
use drbd9_tests.Results.{Result, ok, err, system_exit, runtime_error}
use drbd9_tests.Exec.{for_each}
use drbd9_tests.Framework.World.{
  Host, World, Remote, no_host, or_default, send, host_do, host_feed, host_try,
}
use drbd9_tests.Framework.Setup.{Needs, Args, bounds, check_nodes, report_lines}
use drbd9_tests.Framework.Setup.Nodes.{fits, check_nodes-fits}
use drbd9_tests.Framework.Setup.Versions.{
  validate_drbd_versions, all_expected, all_same, compared_hashes, validate_drbd_versions-accepts,
}
use drbd9_tests.Framework.Setup.Cluster.{Network, Local, connect, indices, setup}
use drbd9_tests.Framework.Setup.Teardown.{
  Dmesg, teardown, teardown_hosts, is_clean, teardown-judges,
}
use drbd9_tests.Framework.Setup.Ready.{setup-ready}
use drbd9_tests.Framework.Hosts.Names.{host_names}
use drbd9_tests.Runner.TestSets.{
  generate_test_set, generate_loop, place_test, put_test, read_test, read_report,
}
use drbd9_tests.Runner.TestSets.Accepted.{generate_test_set-accepted}

abbrev needs : Needs
needs = record { nodes = none; min_nodes = 2; max_nodes = some 3 }

abbrev args : Args
args = record {
  host = "vm-1" ∷ "vm-2" ∷ [];
  job = "j";
  override_max = false;
  report_and_quit = false;
  proxy = false;
  lz4 = false;
  zstd = none;
  memlimit = none;
  volume_group = "scratch";
  storage_backend = "lvm";
  backing_device = "";
  tls = false;
  no_rmmod = false;
  drbd_version = some "9.2.*";
  drbd_version_other = none;
  drbd_other_node = 0;
  selinux_debug = false;
}

check_nodes-fits_example : check_nodes needs args ≡ (
    if args.report_and_quit
    then err (system_exit 0)
    else if fits (bounds needs).0 (bounds needs).1 args.override_max (length args.host)
    then ok tt
    else err (system_exit 100))
check_nodes-fits_example = check_nodes-fits needs args

abbrev report : String → Result (List String)
report test = ok (report_lines needs)

generate_test_set-accepted_example : check_nodes needs args ≡ ok tt
unfolding generate_test_set generate_loop place_test put_test read_test read_report find_number
    bounds report_lines dec
generate_test_set-accepted_example =
    generate_test_set-accepted report 2 2 ("quorum" ∷ []) ((2, "quorum" ∷ []) ∷ []) "quorum" needs
      args 3 refl refl refl refl (omega arith) refl refl

abbrev host : String → String → Host
host version hash = record no_host { drbd_version = version; drbd_git_hash = hash }

abbrev hosts : List Host
hosts = host "9.2.12" "ab" ∷ host "9.2.12" "ab" ∷ []

validate_drbd_versions-accepts_example : validate_drbd_versions (some "9.2.*") none hosts ≡ (
    if all_expected (some "9.2.*") none hosts
      && all_same (compared_hashes (some "9.2.*") none hosts)
    then ok tt
    else err runtime_error)
validate_drbd_versions-accepts_example = validate_drbd_versions-accepts (some "9.2.*") none hosts

-- What a host prints for the commands that are read.
abbrev printed : List String → String
printed argv =
    let word = or_default "" (get_elem? argv 0) in
    if word == "uname"
    then "Linux"
    else if word == "cat"
    then "version: 9.2.12 (api:2)\nGIT-hash: 0a1b"
    else if word == "bash"
    then "debian\n12"
    else if or_default "" (get_elem? argv 1) == "-4"
    then "1.0.0.0 via 10.0.2.2 dev eth0 src 10.0.2.15 uid 0"
    else ""

abbrev remote : Remote
remote = record { answer = λ done c. (0, printed c.argv); finds = λ done s. true }

abbrev here : Local
here = record {
  files = λ path. some "#!/bin/sh";
  connection = λ name. none;
  pem = record { certificate = λ c. "cert"; private_key = λ k. "key" };
  now = 4000;
}

abbrev network : Network
network = record { multi_paths = false; netns = none }

abbrev start : World
start = record {
  options = record {
    job = "";
    proxy_enable = false;
    lz4_enable = false;
    zstd_enable = 0;
    memlimit = none;
  };
  hosts = [];
  nodes = [];
  resources = [];
  done = [];
}

abbrev finish : World
finish = (setup remote here needs args network start).1

setup-ready_example :
    (args.report_and_quit ≡ false)
    × (fits (bounds needs).0 (bounds needs).1 args.override_max (length args.host) ≡ true)
    × (host_names finish ≡ args.host)
    × (all_expected args.drbd_version args.drbd_version_other finish.hosts ≡ true)
    × (all_same (compared_hashes args.drbd_version args.drbd_version_other finish.hosts) ≡ true)
unfolding setup connect get_platform_helper send read_drbd_version host_do split_lines match_version
    match_hash linux_init_host source_address host_feed for_each host_try
setup-ready_example = setup-ready remote here needs args network start finish refl

abbrev dmesg : Dmesg
dmesg = record { pid = λ h. "4711"; log = λ h. "drbd: connected\nBUG: soft lockup" }

abbrev two_hosts : World
two_hosts = record start { hosts = hosts }

teardown-judges_example : teardown remote dmesg false true two_hosts ≡ (
  if not true || all (is_clean remote dmesg) (indices 0 (length two_hosts.hosts))
      then ok tt
      else err (system_exit 3),
  (teardown_hosts remote dmesg false true (indices 0 (length two_hosts.hosts)) true two_hosts).1,
)
unfolding teardown_hosts rmmod host_do split
teardown-judges_example =
    teardown-judges remote dmesg false true false two_hosts
      (teardown_hosts remote dmesg false true (indices 0 (length two_hosts.hosts)) true two_hosts).1
      refl
