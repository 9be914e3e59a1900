-- ===== src/Examples/Hosts.antt =====
-- Runs of python/trafficcontrol.py, of the platform helpers, and of the log of a host.
use drbd9_tests.Prelude.{
  ℕ, ◌≡◌, refl, true, false, not, ◌&&◌, none, some, List, [], ◌∷◌, ◌++◌, String, ◌<>◌, ◌==◌,
  string_eq, nat_eq, length, ltb, if◌then◌else◌,
}
use drbd9_tests.Prelude.Text.{split}
use drbd9_tests.Prelude.Dict.{keys}
use drbd9_tests.OrderedSet
use drbd9_tests.OrderedSet.Invariant.{Distinct}
use drbd9_tests.Results.{ok, err}
use drbd9_tests.Framework.World.{
  Host, World, Remote, no_host, no_node, host_of, host_run, send, ran,
}
use drbd9_tests.Framework.Resources.{create_resource}
use drbd9_tests.Framework.World.{host_run, send}
use drbd9_tests.Framework.Traffic.{
  Devices, get_nodes_by_dev, place_networks, place_nodes, place_one, place_node, device_to,
  net_device_to_peer,
}
use drbd9_tests.Framework.Traffic.Devices.{count, entries, get_nodes_by_dev-entries}
use drbd9_tests.Framework.Hosts.{linux_rmmod}
use drbd9_tests.Framework.Hosts.Output.{◌>>=◌, match_version, match_numbers}
use drbd9_tests.Framework.Hosts.Output.Laws.{dotted, match_version-line}
use drbd9_tests.Framework.Hosts.Unload.{
  command, after, outcome, transports, unload_status, show_cat, linux_rmmod-outcome,
}
use drbd9_tests.Framework.Streams.{
  Log, Call, attached, detached, received, perform, perform_all, add, remove, write, view, seen_all,
  perform_all-seen,
}

abbrev host : String → String → Host
host name addr = record no_host {
  name = name;
  addr = addr;
  addrs = addr ∷ [];
  drbd_version_tuple = (9, 2, 12);
  port = 7789;
}

abbrev cluster : World
cluster = record {
  options = record {
    job = "j";
    proxy_enable = false;
    lz4_enable = false;
    zstd_enable = 0;
    memlimit = none;
  };
  hosts = host "vm-1" "10.0.0.1" ∷ host "vm-2" "10.0.0.2" ∷ host "vm-3" "10.0.0.3" ∷ [];
  nodes =
      record no_node { host = 0 }
      ∷ record no_node { host = 1; id = 1 }
      ∷ record no_node { host = 2; id = 2 }
      ∷ [];
  resources = [];
  done = [];
}

-- Every peer is reached over the same device.
abbrev remote : Remote
remote = record { answer = λ done c. (0, "10.0.0.2 dev eth1 src 10.0.0.1"); finds = λ done s. true }

abbrev members : List ℕ
members = 0 ∷ 1 ∷ 2 ∷ []

abbrev devices : Devices
devices = ("eth1", (0, 1 ∷ 2 ∷ [])) ∷ []

get_nodes_by_dev-entries_example :
    Distinct (keys devices)
    × ((net m : ℕ)
        → entries net m devices ≡ (
            if ltb net (length (host_of 0 cluster).addrs) && not (m == 0)
            then count m members
            else 0))
unfolding get_nodes_by_dev place_networks place_nodes place_one place_node device_to
    net_device_to_peer host_run send split
get_nodes_by_dev-entries_example =
    get_nodes_by_dev-entries remote 0 members cluster (get_nodes_by_dev remote 0 members cluster).1
      devices refl

abbrev made : World
made = (create_resource remote "r0" none "no" cluster).1

abbrev third : ℕ
third = 3

abbrev fourth : ℕ
fourth = 4

match_version-line_example :
    match_version ("version: " <> (dotted (9, 2, 12) <> " (api:2/proto:118-122)")) >>= match_numbers
    ≡ some (9, 2, 12)
match_version-line_example = match_version-line (9, 2, 12) " " "(api:2/proto:118-122)" refl

linux_rmmod-outcome_example : linux_rmmod remote 0 cluster ≡ (
  outcome (unload_status remote 0 cluster),
  after
      (transports remote 0 cluster
        ++ ran (command 0 cluster ("rmmod" ∷ "drbd" ∷ []))
          ∷ show_cat remote 0 cluster (unload_status remote 0 cluster))
      cluster,
)
linux_rmmod-outcome_example = linux_rmmod-outcome remote 0 cluster

abbrev lines : List String
lines =
    "1: lo    inet 127.0.0.1/8 scope host lo" ∷ "2: eth0    inet 10.0.0.1/24 brd 10.0.0.255"
    ∷ "3: eth1    inet 10.1.0.1/24 brd 10.1.0.255" ∷ []

abbrev empty_log : Log
empty_log = record { first_message = none; streams = 0 ∷ []; contents = λ s. [] }

abbrev calls : List Call
calls = received "4711" ∷ received "a" ∷ attached 1 ∷ received "b" ∷ detached 0 ∷ received "c" ∷ []

abbrev filled : Log
filled = elim (perform_all calls empty_log) [ ok log ↦ log | err e ↦ empty_log ]

perform_all-seen_example : view 1 filled ≡ seen_all (view 1 empty_log) calls 1
unfolding perform_all perform add remove write
perform_all-seen_example = perform_all-seen calls empty_log filled 1 (refl, tt) refl
