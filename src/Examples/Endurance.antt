-- ===== src/Examples/Endurance.antt =====
-- A run of python/endurance.py on a cluster of two hosts whose commands succeed, with a clock that is
-- fast enough for one round.
use drbd9_tests.Prelude.{
  nat_eq, ℕ, ◌+◌, ◌*◌, ◌≡◌, true, false, none, some, List, [], ◌∷◌, ◌++◌, String, arith,
}
use drbd9_tests.Results.{ok}
use drbd9_tests.OrderedSet.{from_list}
use drbd9_tests.Framework.World.{
  Host, Node, World, Remote, Action, ran, scanned, slept, no_host, no_node, no_resource, lvm_pool,
}
use drbd9_tests.Framework.Json.{Json, object, field, no_fields, array, item, no_items, number}
use drbd9_tests.Framework.Setup.Teardown.{Dmesg}
use drbd9_tests.Framework.Endurance.{EnduranceConfig, new_writer, resync_loop, max_rounds}
use drbd9_tests.Framework.Endurance.Runs.{run_resync}
use drbd9_tests.Framework.Endurance.Steps.{IsClock}
use drbd9_tests.Framework.Endurance.Rounds.{Ends, resync_loop-Ends}
use drbd9_tests.Framework.Disks
use drbd9_tests.OrderedSet

-- A clock that only sleeping moves, and that by more than it takes.
cost : Action → ℕ
cost (ran c) = 0
cost (scanned s) = 0
cost (slept ms) = ms * 1080

clock : List Action → ℕ
unfolding cost
clock [] = 0
clock (a ∷ done) = cost a + clock done

clock-append : (done : List Action) (a : Action) → clock (done ++ a ∷ []) ≡ clock done + cost a
unfolding clock
clock-append [] a = omega arith
clock-append (b ∷ done) a = let rest = clock-append done a in omega arith

clock-IsClock : IsClock clock
unfolding cost
clock-IsClock = record {
  forward = λ done a. let e = clock-append done a in omega arith;
  sleeps = λ done ms. let e = clock-append done (slept ms) in omega arith;
}

abbrev host : String → Host
host name = record no_host {
  name = name;
  hostname = name;
  addr = "10.0.0.1";
  addrs = "10.0.0.1" ∷ [];
  drbd_version_tuple = (9, 2, 12);
  volume_group = "scratch";
  storage_pool = some (lvm_pool false none);
}

abbrev node : ℕ → String → Node
node h name = record no_node { host = h; name = name; id = h; config_changed = true }

abbrev cluster : World
cluster = record {
  options = record {
    job = "j";
    proxy_enable = false;
    lz4_enable = false;
    zstd_enable = 0;
    memlimit = none;
  };
  hosts = host "vm-1" ∷ host "vm-2" ∷ [];
  nodes = node 0 "vm-1" ∷ node 1 "vm-2" ∷ [];
  resources = record no_resource { name = "r0"; nodes = from_list (0 ∷ 1 ∷ []) } ∷ [];
  done = [];
}

abbrev remote : Remote
remote = record { answer = λ done c. (0, ""); finds = λ done s. true }

abbrev dmesg : Dmesg
dmesg = record { pid = λ h. "4711"; log = λ h. "drbd: connected" }

abbrev job : Json
job = object (
    field "read" (object (field "io_kbytes" (number 0) no_fields)) (
      field "write" (object (field "io_kbytes" (number 4) no_fields))
        (field "elapsed" (number 1) no_fields)))

abbrev loads : String → Json
loads s = object (field "jobs" (array (item job no_items)) no_fields)

abbrev config : EnduranceConfig
config = record {
  protocol = some "C";
  network_rate = none;
  disk_delay_ms = some 10;
  diskless_primary = false;
}

abbrev finished : World
finished =
    (run_resync remote (λ s. s) (λ names. names) (λ s. ok (loads s)) dmesg true clock 0 config
      cluster).1

resync_loop-Ends_example :
    Ends clock
      (clock cluster.done)
      (resync_loop remote clock max_rounds 0 0 1 (clock cluster.done) 0 (cluster, new_writer 0))
resync_loop-Ends_example = resync_loop-Ends remote clock clock-IsClock 0 0 1 (cluster, new_writer 0)
