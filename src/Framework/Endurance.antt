-- ===== src/Framework/Endurance.antt =====
-- python/endurance.py: a long run with or without a load, and one of resynchronisations until the time
-- is up. The clock counts milliseconds and is a function of what was done before.
pub mod Runs
pub mod Rises
pub mod Steps
pub mod Rounds
pub mod Verified
use drbd9_tests.Prelude.{
  ℕ, zero, suc, ◌+◌, ◌*◌, ◌%◌, Bool, true, false, not, Option, none, some, List, [], ◌∷◌, ◌++◌,
  String, ◌<>◌, ◌==◌, nat_eq, string_eq, ltb, drop, keep, get_elem?, if◌then◌else◌,
}
use drbd9_tests.Prelude.Text.{dec}
use drbd9_tests.Results.{ok, index_error}
use drbd9_tests.Exec.{Exec, pure, gets, lift, modify, or_raise, when, for_each, ◌>>=◌, ◌>>◌}
use drbd9_tests.Framework.World.{
  Host, Node, Resource, Volume, World, Remote, Action, slept, node_at, resource_at, resource_of,
  host_of, or_default,
}
use drbd9_tests.Framework.Json.{Json}
use drbd9_tests.Framework.Run.{drbdadm}
use drbd9_tests.Framework.Control.{peer_devices_event}
use drbd9_tests.Framework.Peers.{peer_devices, secondary}
use drbd9_tests.Framework.Traffic.{traffic_control, reset, slow_down}
use drbd9_tests.Framework.Resources.{
  DiskOptions, MdOptions, set_net_options, set_disk_options, add_disk,
}
use drbd9_tests.Framework.Resources.Operations.{members, up_wait, down, skip_initial_sync}
use drbd9_tests.Framework.Setup.Teardown
use drbd9_tests.Framework.Setup.Teardown.{Dmesg}
use drbd9_tests.Framework.Disks.Targets.{set_delay_ms}
use drbd9_tests.Framework.Devices.{become_primary}
use drbd9_tests.Framework.Devices.Fio.{node_write}
use drbd9_tests.Framework.Devices.Data.{
  BusyWrite, Writing, on_world, verify_data, start, wait, stop,
}

pub record EnduranceConfig : Type 0 where
  pub protocol : Option String
  pub network_rate : Option String
  pub disk_delay_ms : Option ℕ
  pub diskless_primary : Bool

-- `test_runtime`, in seconds
abbrev pub test_runtime : ℕ
test_runtime = 540

-- Every round of `run_resync` sleeps for half a second.
abbrev pub max_rounds : ℕ
max_rounds = test_runtime * 2 + 1

-- An option that is given, and is not the empty text or 0.
abbrev pub given : Option String → Option String
given none = none
given (some s) = if s == "" then none else some s

abbrev pub delay_of : EnduranceConfig → Option ℕ
delay_of config = elim config.disk_delay_ms [
  | none ↦ none
  | some ms ↦ if ms == 0 then none else some ms
]

unfoldable pub diskful_nodes : EnduranceConfig → List ℕ → List ℕ
diskful_nodes config nodes = if config.diskless_primary then drop 1 nodes else nodes

unfoldable pub fio_args : ℕ → String → String
fio_args runtime fio_arg_str =
    "--runtime="
    <> (dec runtime
        <> (" --size=280M --numjobs=2 --norandommap=1 --randrepeat=0 --rw=randrw --rwmixwrite=70 --percentage_random=50 --random_distribution=zipf:2.0 --blocksize_range=4k-64k "
            <> fio_arg_str))

abbrev pub fio_rates : List String
fio_rates = "1M" ∷ "4M" ∷ "16M" ∷ "64M" ∷ "256M" ∷ "1G" ∷ []

abbrev pub new_writer : ℕ → BusyWrite
new_writer n = record {
  node = n;
  volume = 0;
  fio_pid = none;
  fio_out_str = none;
  output_filename = "";
  stderr_filename = "";
}

-- A block that has a writer of its own.
unfoldable pub with_writer : {A : Type 0} → BusyWrite → Writing A → Exec World A
with_writer writer m w = let (r, s) = m (w, writer) in (r, s.0)

-- `time.sleep`
unfoldable pub sleep : ℕ → Exec World (Unit {0})
sleep ms = modify (λ w. record w { done = w.done ++ slept ms ∷ [] })

abbrev pub md_options : MdOptions
md_options = record {
  initial_current_uuid = "";
  consistent = false;
  uptodate = false;
  peers_outdated = false;
  rotate_uuids = false;
}

module _ (remote : Remote) where
  unfoldable pub start_fio : ℕ → String → Writing (Unit {0})
  unfolding fio_args
  start_fio runtime fio_arg_str =
      start remote (fio_args runtime fio_arg_str)
        "--rw=randwrite --direct=1 --iodepth=32 --time_based --runtime=600"

  -- `node.volumes[0].disk_volume.set_delay_ms(ms)`, for each node
  unfoldable pub set_delays : List ℕ → ℕ → Exec World (Unit {0})
  set_delays nodes ms = for_each nodes λ n. do
    _ ← λ w. or_raise index_error (get_elem? (node_at n w).disks 0) w
    set_delay_ms remote n 0 ms

  abbrev pub when_delayed : EnduranceConfig → (ℕ → Exec World (Unit {0})) → Exec World (Unit {0})
  when_delayed config m = elim (delay_of config) [ none ↦ pure tt | some ms ↦ m ms ]

  unfoldable pub slow_from : EnduranceConfig → ℕ → List ℕ → Exec World (Unit {0})
  slow_from config n to_nodes = elim (given config.network_rate) [
    | none ↦ pure tt
    | some rate ↦ for_each to_nodes (λ to_n. slow_down remote n to_n rate "")
  ]

  unfoldable pub event_between : ℕ → ℕ → String → Exec World (Unit {0})
  event_between n m pattern = do
    pds ← (λ w. lift (peer_devices n m w) w)
    peer_devices_event remote pds (pattern ∷ [])

  -- What one round does between the start and the stop of the load.
  unfoldable pub invalidate : ℕ → ℕ → ℕ → Exec World (Unit {0})
  unfolding event_between
  invalidate r source_n target_n = do
    name ← gets (λ w. (resource_at r w).name)
    target ← gets (λ w. (node_at target_n w).name)
    drbdadm remote source_n ("invalidate-remote" ∷ (name <> (":" <> target)) ∷ [])
    event_between source_n target_n "peer-device .* replication:SyncSource"
    event_between target_n source_n "peer-device .* replication:SyncTarget"
    event_between source_n target_n "peer-device .* replication:Established"
    event_between target_n source_n "peer-device .* replication:Established"

  unfoldable pub resync : ℕ → ℕ → ℕ → Exec World (Unit {0})
  unfolding sleep invalidate
  resync r source_n target_n = do sleep 500; invalidate r source_n target_n

  unfoldable pub resync_round : ℕ → ℕ → ℕ → ℕ → Writing (Unit {0})
  unfolding start_fio resync
  resync_round r source_n target_n count = do
    let rate = or_default "" (get_elem? fio_rates (count % 6))
    start_fio 60 ("--rate=" <> rate)
    on_world (resync r source_n target_n)
    stop remote

  module _ (clock : List Action → ℕ) where
    -- The loop of `run_resync`, on fuel; whether it ended by its test.
    unfoldable pub resync_loop : ℕ → ℕ → ℕ → ℕ → ℕ → ℕ → Writing Bool
    unfolding resync_round
    resync_loop zero r source_n target_n begin count s = (ok false, s)
    resync_loop (suc fuel) r source_n target_n begin count s =
        let rest = resync_loop fuel r source_n target_n begin (suc count) in
        if ltb (clock (s.0).done) (begin + test_runtime * 1000)
        then (resync_round r source_n target_n count >>= λ _. rest) s
        else (ok true, s)
