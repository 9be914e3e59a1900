-- ===== src/Framework/Control/Stepwise.antt =====
-- Bringing a resource up step by step: `new_resource`, `new_minor`, `new_peer`, the options,
-- `new_path`, `del_path`, `adjust` and `up_unconnected` of `Nodes` in python/drbdtest.py.
use drbd9_tests.Prelude.{
  ℕ, Option, none, some, List, [], ◌∷◌, map, String, ◌<>◌, get_elem?, is_some, keep, concat_map,
}
use drbd9_tests.Prelude.Text.{dec}
use drbd9_tests.Results.{index_error}
use drbd9_tests.Exec.{Exec, gets, for_each, or_raise, ◌>>=◌, ◌>>◌}
use drbd9_tests.Framework.World.{World, Remote, Volume, node_at, host_of, resource_of}
use drbd9_tests.Framework.Run.{node_do, drbdadm, update_config}
use drbd9_tests.Framework.Control.{
  resource_cmd, nodes_event, volumes_event, connections_event, peer_devices_event, volumes_attach,
}

-- The volumes, connections and peer devices of some nodes; those of `nodes.volumes.peer_devices` are
-- each volume with each connection of its node.
unfoldable pub all_volumes : List ℕ → World → List (ℕ × Volume)
all_volumes ns w = concat_map (λ n. map (λ v. (n, v)) (node_at n w).disks) ns

unfoldable pub all_connections : List ℕ → World → List (ℕ × ℕ)
all_connections ns w = concat_map (λ n. (node_at n w).connections.items) ns

unfoldable pub all_peer_devices : List ℕ → World → List ((ℕ × ℕ) × Volume)
all_peer_devices ns w =
    concat_map
      (λ n. concat_map (λ v. map (λ c. (c, v)) (node_at n w).connections.items) (node_at n w).disks)
      ns

module _ (remote : Remote) where
  unfoldable pub new_resource : List ℕ → Exec World (Unit {0})
  new_resource ns = do
    resource_cmd remote ns "new-resource" []
    nodes_event remote ns ("create resource" ∷ [])

  unfoldable pub new_minor : List ℕ → Exec World (Unit {0})
  new_minor ns = do
    resource_cmd remote ns "new-minor" []
    vs ← gets (all_volumes ns)
    volumes_event remote vs ("create device" ∷ [])

  unfoldable pub new_peer : List ℕ → Exec World (Unit {0})
  new_peer ns = do
    resource_cmd remote ns "new-peer" []
    ps ← gets (all_peer_devices ns)
    peer_devices_event remote ps ("create peer-device" ∷ [])

  unfoldable pub resource_options : List ℕ → List String → Exec World (Unit {0})
  resource_options ns opts = resource_cmd remote ns "resource-options" opts

  unfoldable pub peer_device_options : List ℕ → List String → Exec World (Unit {0})
  peer_device_options ns opts = resource_cmd remote ns "peer-device-options" opts

  -- The loop of `new_path` and `del_path` for a peer and the number of a network.
  unfoldable pub path_commands : String → List ℕ → ℕ → ℕ → Exec World (Unit {0})
  path_commands verb ns peer net = for_each ns λ n. do
    here ← gets (host_of n)
    there ← gets (host_of peer)
    a ← or_raise index_error (get_elem? here.addrs net)
    b ← or_raise index_error (get_elem? there.addrs net)
    me ← gets (node_at n)
    other ← gets (node_at peer)
    name ← gets (λ w. (resource_of n w).name)
    node_do remote n (
        "drbdsetup"
        ∷ verb
        ∷ name
        ∷ dec other.id
        ∷ ("ipv4:" <> (a <> (":" <> dec me.port)))
        ∷ ("ipv4:" <> (b <> (":" <> dec other.port)))
        ∷ [])

  unfoldable pub new_path : List ℕ → Option (ℕ × ℕ) → Exec World (Unit {0})
  new_path ns none = do
    resource_cmd remote ns "new-path" []
    cs ← gets (all_connections ns)
    connections_event remote cs ("create path" ∷ [])
  new_path ns (some (peer, net)) = path_commands "new-path" ns peer net

  unfoldable pub del_path : List ℕ → Option (ℕ × ℕ) → Exec World (Unit {0})
  del_path ns none = do
    resource_cmd remote ns "del-path" []
    cs ← gets (all_connections ns)
    connections_event remote cs ("destroy path" ∷ [])
  del_path ns (some (peer, net)) = path_commands "del-path" ns peer net

  -- `Node.adjust` on each node.
  unfoldable pub adjust : List ℕ → Exec World (Unit {0})
  adjust ns = for_each ns λ n. do
    update_config remote n
    name ← gets (λ w. (resource_of n w).name)
    drbdadm remote n ("adjust" ∷ name ∷ [])

  unfoldable pub up_unconnected : List ℕ → Exec World (Unit {0})
  up_unconnected ns = do
    new_resource ns
    new_minor ns
    new_peer ns
    peer_device_options ns []
    new_path ns none
    vs ← gets (all_volumes ns)
    volumes_attach remote vs
    ds ← gets (λ w. keep (λ v. is_some v.1.disk_volume) (all_volumes ns w))
    volumes_event remote ds
        ("device .* disk:(Failed|Inconsistent|Outdated|Consistent|UpToDate)" ∷ [])
