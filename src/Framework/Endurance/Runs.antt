-- ===== src/Framework/Endurance/Runs.antt =====
-- The runs of python/endurance.py as a whole: `run`, `run_resync`, `setup` and `teardown`. What raises
-- leaves the delays and the limits of the network as they are.
use drbd9_tests.Prelude.{
  ℕ, ◌*◌, Bool, true, false, not, Option, none, some, List, [], ◌∷◌, String, ◌<>◌, ◌==◌, nat_eq,
  string_eq, drop, keep, get_elem?,
}
use drbd9_tests.Results.{Result, index_error, value_error}
use drbd9_tests.Exec.{Exec, pure, gets, modify, or_raise, for_each, ◌>>=◌, ◌>>◌}
use drbd9_tests.Framework.World.{World, Remote, Action, node_at, or_default}
use drbd9_tests.Framework.Json.{Json}
use drbd9_tests.Framework.Peers.{secondary}
use drbd9_tests.Framework.Traffic.{traffic_control, reset}
use drbd9_tests.Framework.Resources.{DiskOptions, set_net_options, set_disk_options, add_disk}
use drbd9_tests.Framework.Resources.Operations.{members, up_wait, down, skip_initial_sync}
use drbd9_tests.Framework.Setup.Teardown
use drbd9_tests.Framework.Setup.Teardown.{Dmesg}
use drbd9_tests.Framework.Devices.{become_primary}
use drbd9_tests.Framework.Devices.Fio.{node_write}
use drbd9_tests.Framework.Devices.Data.{BusyWrite, verify_data, wait}
use drbd9_tests.Framework.Endurance.{
  EnduranceConfig, test_runtime, given, delay_of, diskful_nodes, new_writer, with_writer, sleep,
  md_options, start_fio, set_delays, when_delayed, slow_from, resync_loop, max_rounds,
}

-- `resource.nodes[0]`
unfoldable pub first_node : List ℕ → Option ℕ
first_node [] = none
first_node (n ∷ ns) = some n

-- `source_n, target_n = diskful_nodes[:2]`
unfoldable pub first_two : List ℕ → Option (ℕ × ℕ)
first_two (n ∷ m ∷ ns) = some (n, m)
first_two other = none

-- `primary_n.volumes[0]`
unfoldable pub first_writer : ℕ → Exec World BusyWrite
first_writer n = do
  _ ← λ w. or_raise index_error (get_elem? (node_at n w).disks 0) w
  pure (new_writer n)

module _ (remote : Remote) (uuid5 : String → String) (as_set : List String → List String)
    (loads : String → Result Json) where
  unfoldable pub setup : ℕ → EnduranceConfig → ℕ → List ℕ → Exec World (Unit {0})
  setup r config primary_n diskful = do
    modify (set_disk_options r "al-extents 67; c-max-rate 1G; c-min-rate 0;")
    modify (set_net_options r ("protocol " <> (or_default "C" (given config.protocol) <> ";")))
    let options : DiskOptions = record {
      meta_size = none;
      max_size = none;
      delay_ms = elim (delay_of config) [ none ↦ none | some ms ↦ some 0 ];
      logical_block_size = none;
      zero_out = false;
    }
    _ ← add_disk remote uuid5 r "300M" (some diskful) none [] options md_options
    up_wait remote r [] ("Inconsistent" ∷ "Diskless" ∷ [])
    skip_initial_sync remote as_set r
    become_primary remote primary_n false true
    node_write remote loads primary_n (("direct", "1") ∷ ("size", "280M") ∷ ("bs", "1M") ∷ [])

module _ (remote : Remote) (dmesg : Dmesg) (no_rmmod : Bool) where
  -- `resource.down()` and `resource.cluster.teardown()`
  unfoldable pub shut_down : ℕ → Exec World (Unit {0})
  shut_down r = do down remote r false; Teardown.teardown remote dmesg no_rmmod true

  unfoldable pub teardown : ℕ → ℕ → List ℕ → Exec World (Unit {0})
  unfolding shut_down
  teardown r primary_n diskful = do
    secondary remote primary_n true false
    verify_data remote diskful (some 280) true none
    shut_down r

module _ (remote : Remote) (uuid5 : String → String) (as_set : List String → List String)
    (loads : String → Result Json) (dmesg : Dmesg) (no_rmmod : Bool) where
  -- What `run` does for its time: a load under a protocol, or a write of 4K and nothing.
  unfoldable pub run_load : EnduranceConfig → ℕ → Exec World (Unit {0})
  unfolding first_writer with_writer sleep start_fio
  run_load config primary_n = elim (given config.protocol) [
    | some p ↦ do
      writer ← first_writer primary_n
      with_writer writer do start_fio remote test_runtime ""; wait remote
    | none ↦ do
      node_write remote loads primary_n (("direct", "1") ∷ [])
      sleep (test_runtime * 1000)
  ]

  -- `run` and `run_resync` for the nodes of the resource
  unfoldable pub run_on : ℕ → EnduranceConfig → List ℕ → Exec World (Unit {0})
  unfolding first_node diskful_nodes setup run_load teardown set_delays slow_from
  run_on r config nodes = do
    primary_n ← or_raise index_error (first_node nodes)
    let diskful = diskful_nodes config nodes
    traffic_control remote primary_n nodes
    setup remote uuid5 as_set loads r config primary_n diskful
    slow_from remote config primary_n (drop 1 nodes)
    when_delayed remote config (set_delays remote diskful)
    run_load config primary_n
    when_delayed remote config (λ ms. set_delays remote diskful 0)
    teardown remote dmesg no_rmmod r primary_n diskful
    reset remote primary_n nodes

  unfoldable pub run : ℕ → EnduranceConfig → Exec World (Unit {0})
  unfolding run_on
  run r config w = run_on r config (members r w) w

  -- One `TrafficControl` from each node, all slowed down.
  unfoldable pub slow_all : EnduranceConfig → List ℕ → Exec World (Unit {0})
  unfolding slow_from
  slow_all config nodes = elim (given config.network_rate) [
    | none ↦ pure tt
    | some rate ↦ for_each nodes λ from_n. do
      traffic_control remote from_n nodes
      slow_from remote config from_n (keep (λ to_n. not (to_n == from_n)) nodes)
  ]

  unfoldable pub reset_all : EnduranceConfig → List ℕ → Exec World (Unit {0})
  reset_all config nodes = elim (given config.network_rate) [
    | none ↦ pure tt
    | some rate ↦ for_each nodes (λ from_n. reset remote from_n nodes)
  ]

  -- `run_resync` up to the end of its loop and the reset of the delays; the loop has the fuel for all the
  -- rounds that fit into the time.
  unfoldable pub resync_until_end : (List Action → ℕ) → ℕ → EnduranceConfig → List ℕ → Exec World ℕ
  unfolding first_node first_two first_writer diskful_nodes setup slow_all with_writer resync_loop
      set_delays
  resync_until_end clock r config nodes = do
    primary_n ← or_raise index_error (first_node nodes)
    let diskful = diskful_nodes config nodes
    pair ← or_raise value_error (first_two diskful)
    setup remote uuid5 as_set loads r config primary_n diskful
    writer ← first_writer primary_n
    slow_all config nodes
    when_delayed remote config (set_delays remote diskful)
    begin ← gets (λ w. clock w.done)
    _ ← with_writer writer (resync_loop remote clock max_rounds r pair.0 pair.1 begin 0)
    when_delayed remote config (λ ms. set_delays remote diskful 0)
    pure primary_n

  unfoldable pub run_resync_on :
      (List Action → ℕ) → ℕ → EnduranceConfig → List ℕ → Exec World (Unit {0})
  unfolding resync_until_end teardown reset_all
  run_resync_on clock r config nodes = do
    primary_n ← resync_until_end clock r config nodes
    teardown remote dmesg no_rmmod r primary_n (diskful_nodes config nodes)
    reset_all config nodes

  unfoldable pub run_resync : (List Action → ℕ) → ℕ → EnduranceConfig → Exec World (Unit {0})
  unfolding run_resync_on
  run_resync clock r config w = run_resync_on clock r config (members r w) w
