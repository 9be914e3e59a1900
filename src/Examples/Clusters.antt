-- ===== src/Examples/Clusters.antt =====
-- Runs of python/drbdtest.py, on a cluster of two hosts whose commands succeed.
use drbd9_tests.Prelude.{
  arith, get_elem?, ℕ, ◌≡◌, refl, true, false, not, ◌&&◌, ◌||◌, none, some, [], ◌∷◌, ◌++◌, String,
  ◌==◌, string_eq, nat_eq, pair_eq, contains,
}
use drbd9_tests.OrderedSet.{OrderedSet, has, from_list}
use drbd9_tests.OrderedSet.Invariant.{IsConsistent, from_list-IsConsistent}
use drbd9_tests.Exec.{for_each}
use drbd9_tests.Results.{ok}
use drbd9_tests.Framework.World.{
  Volume, Host, Node, Resource, World, Remote, no_host, no_node, no_resource, node_at, host_run,
  send,
}
use drbd9_tests.Framework.Config.{config}
use drbd9_tests.Framework.Config.Nesting.{depth_after}
use drbd9_tests.Framework.Config.File.{config-depth}
use drbd9_tests.Framework.Run.{node_run, node_do, drbdadm, update_config, logscan, scan}
use drbd9_tests.Framework.Run.Laws.{config_write, node_run-order}
use drbd9_tests.Framework.Control.{
  nodes_down, nodes_resource, allow_lost, allow_failed, while_allowed, resource_cmd, nodes_drbdadm,
  nodes_event, change_patterns, min_drbd_version_tuple,
}
use drbd9_tests.Framework.Control.Down.{patterns_at, nodes_down-patterns}
use drbd9_tests.Framework.Connections.{connections, sides}
use drbd9_tests.Framework.Connections.Laws.{connections-has}
use drbd9_tests.Framework.Resources.{
  create_resource, make_volume, put_disk, connect_nodes, make_nodes, make_node, append_node,
}
use drbd9_tests.Framework.Devices.{init_node}
use drbd9_tests.Framework.World.{host_run, send}
use drbd9_tests.Framework.Resources.Volumes.{IsAligned, KeepsMinors, put_disk-IsAligned}
use drbd9_tests.Framework.Resources.Numbers.{IsNumbered, create_resource-IsNumbered}

abbrev host : String → String → Host
host name addr = record no_host {
  name = name;
  hostname = name;
  addr = addr;
  addrs = addr ∷ [];
  drbd_config_dir = "/etc/drbd.d";
  drbd_version_tuple = (9, 2, 12);
  port = 7789;
}

abbrev node : ℕ → String → Node
node h name = record no_node { host = h; name = name; port = 7789; id = h; config_changed = true }

abbrev resource : Resource
resource = record no_resource {
  name = "r0";
  nodes = from_list (0 ∷ 1 ∷ []);
  forbidden_patterns = from_list ("disk:Failed" ∷ "connection:BrokenPipe" ∷ []);
}

abbrev cluster : World
cluster = record {
  options = record {
    job = "j";
    proxy_enable = false;
    lz4_enable = false;
    zstd_enable = 0;
    memlimit = none;
  };
  hosts = host "vm-1" "10.0.0.1" ∷ host "vm-2" "10.0.0.2" ∷ [];
  nodes = node 0 "vm-1" ∷ node 1 "vm-2" ∷ [];
  resources = resource ∷ [];
  done = [];
}

abbrev remote : Remote
remote = record { answer = λ done c. (0, ""); finds = λ done s. true }

config-depth_example : depth_after 0 (config cluster 0) ≡ some 0
config-depth_example = config-depth cluster 0

node_run-order_example :
    ((node_at 0 (node_run remote 0 ("true" ∷ []) cluster).1).config_changed ≡ false)
    × ((node_run remote 0 ("true" ∷ []) cluster).1.done
        ≡ cluster.done ++ config_write remote 0 ("true" ∷ []) cluster (node 0 "vm-1"))
node_run-order_example = node_run-order remote 0 ("true" ∷ []) cluster (node 0 "vm-1") refl

abbrev down : World
down = (nodes_down remote (0 ∷ []) cluster).1

nodes_down-patterns_example :
    has "connection:BrokenPipe" (patterns_at 0 down)
    ≡ has "connection:BrokenPipe" resource.forbidden_patterns
unfolding nodes_down nodes_resource allow_lost allow_failed while_allowed resource_cmd nodes_drbdadm
    nodes_event drbdadm node_do node_run update_config host_run send logscan scan for_each from_list
    has change_patterns min_drbd_version_tuple
nodes_down-patterns_example =
    nodes_down-patterns remote 0 [] cluster down resource refl
      (from_list-IsConsistent ("disk:Failed" ∷ "connection:BrokenPipe" ∷ [])) refl
      "connection:BrokenPipe"

connections-has_example :
    (cs : OrderedSet (ℕ × ℕ)) × (connections cluster (some 0) none none none true ≡ ok cs)
    × IsConsistent cs
    × ((a b : ℕ)
        → has (a, b) cs ≡ (
            not (a == b)
            && ((contains a (0 ∷ []) && contains b (0 ∷ 1 ∷ []))
                || (true && (contains b (0 ∷ []) && contains a (0 ∷ 1 ∷ []))))))
unfolding sides from_list
connections-has_example =
    connections-has cluster (some 0) none none none true (0 ∷ []) (0 ∷ 1 ∷ []) 0 refl refl
      (λ a h. ground (arith, h)) (λ a h. ground (arith, h))

abbrev grown : World
grown = (create_resource remote "r1" (some "tcp") "no" cluster).1

create_resource-IsNumbered_example : IsNumbered 1 grown
unfolding create_resource connect_nodes make_nodes make_node append_node init_node host_run send
    from_list
create_resource-IsNumbered_example =
    create_resource-IsNumbered remote "r1" (some "tcp") "no" cluster grown 1 refl

abbrev volume : Volume
volume = record {
  volume = 0;
  minor = 4;
  disk_lv = none;
  meta_lv = none;
  disk_volume = none;
  meta_volume = none;
  tiebreaker = none;
  disk_is_online = false;
}

abbrev node_with_disk : Node
node_with_disk = record (node 0 "vm-1") { disks = volume ∷ [] }

abbrev cluster_with_disk : World
cluster_with_disk = record cluster { nodes = node_with_disk ∷ node 1 "vm-2" ∷ [] }

put_disk-IsAligned_example :
    let (v, t) = make_volume 0 0 cluster_with_disk in
    (out : Node) × (get_elem? (put_disk 0 0 v t).nodes 0 ≡ some out)
    × IsAligned 0 out.disks
    × KeepsMinors (volume ∷ []) out.disks
    × (out.config_changed ≡ true)
put_disk-IsAligned_example =
    put_disk-IsAligned 0 0 cluster_with_disk node_with_disk refl (refl, tt) (omega arith)
