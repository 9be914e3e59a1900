-- ===== src/Framework/Traffic.antt =====
-- The delays and limits on connections of python/trafficcontrol.py: the class `TrafficControl`, and
-- `Host.net_device_to_peer` of python/drbdtest.py. The lines that only log are not modelled.
pub mod Devices
pub mod Classes
use drbd9_tests.Prelude.{
  ℕ, zero, suc, ◌+◌, Bool, true, false, Option, none, some, List, [], ◌∷◌, ◌++◌, String, ◌<>◌, ◌==◌,
  nat_eq, string_eq, get_elem?, length, replicate, if◌then◌else◌,
}
use drbd9_tests.Prelude.Text.{dec, split}
use drbd9_tests.Prelude.Dict.{Dict, lookup, insert}
use drbd9_tests.Results.{Result, ok, err, called_process, runtime_error, index_error}
use drbd9_tests.Results
use drbd9_tests.Exec.{Exec, pure, raise, lift, gets, for_each, or_raise, pass_called, ◌>>=◌, ◌>>◌}
use drbd9_tests.Framework.World.{Host, Node, World, Remote, host_at, host_of, node_at, host_run}
use drbd9_tests.Framework.Run.{node_do}

-- `range(n)`, from i on.
abbrev pub range_from : ℕ → ℕ → List ℕ
range_from i zero = []
range_from i (suc n) = i ∷ range_from (suc i) n

-- `nodes_by_dev`: the number of the network that a device belongs to, and the nodes it leads to.
abbrev pub Devices : Type 0
Devices = Dict String (ℕ × List ℕ)

-- The entry of a node under its device; two networks on one device are an error.
unfoldable pub place_node : ℕ → ℕ → String → Devices → Result Devices
unfolding lookup insert
place_node net node dev d = elim (lookup dev d) [
  | none ↦ ok (insert dev (net, node ∷ []) d)
  | some (dev_net, nodes) ↦
      if dev_net == net then ok (insert dev (dev_net, nodes ++ node ∷ []) d) else err runtime_error
]

-- `TrafficControl._node_to_class` and `_node_to_handle`
unfoldable pub node_to_class : Node → String
node_to_class node = "1:" <> dec (node.id + 1)

unfoldable pub node_to_handle : Node → String
node_to_handle node = dec (node.id + 100) <> ":"

module _ (remote : Remote) where
  -- `Host.net_device_to_peer`
  unfoldable pub net_device_to_peer : ℕ → ℕ → ℕ → Exec World String
  unfolding host_run
  net_device_to_peer h peer net = do
    addr ← λ w. or_raise index_error (get_elem? (host_at peer w).addrs net) w
    line ← host_run remote h ("ip" ∷ "-o" ∷ "route" ∷ "get" ∷ addr ∷ [])
    or_raise index_error (get_elem? (split b' ' line) 2)

  -- `self.source_node.host.net_device_to_peer(node.host, net_num)`
  unfoldable pub device_to : ℕ → ℕ → ℕ → Exec World String
  unfolding net_device_to_peer
  device_to source n net w = net_device_to_peer (node_at source w).host (node_at n w).host net w

  -- The body of the loops of `TrafficControl._get_nodes_by_dev`.
  unfoldable pub place_one : ℕ → ℕ → ℕ → Devices → Exec World Devices
  unfolding device_to place_node
  place_one source net n d = do dev ← device_to source n net; lift (place_node net n dev d)

  -- The loop over the nodes, for one network.
  unfoldable pub place_nodes : ℕ → ℕ → List ℕ → Devices → Exec World Devices
  unfolding place_one
  place_nodes source net [] d = pure d
  place_nodes source net (n ∷ ns) d =
      let rest : Devices → Exec World Devices = place_nodes source net ns in
      if n == source then rest d else place_one source net n d >>= rest

  unfoldable pub place_networks : ℕ → List ℕ → List ℕ → Devices → Exec World Devices
  unfolding place_nodes
  place_networks source [] nodes d = pure d
  place_networks source (net ∷ nets) nodes d = do
    e ← place_nodes source net nodes d
    place_networks source nets nodes e

  unfoldable pub get_nodes_by_dev : ℕ → List ℕ → Exec World Devices
  unfolding place_networks
  get_nodes_by_dev source nodes = do
    nets ← gets (λ w. range_from 0 (length (host_of source w).addrs))
    place_networks source nets nodes []

  -- The filter of a node in `TrafficControl.__init__`.
  unfoldable pub add_filter : ℕ → String → ℕ → ℕ → Exec World (Unit {0})
  add_filter source dev net n = do
    ip ← λ w. or_raise index_error (get_elem? (host_of n w).addrs net) w
    class_id ← gets (λ w. node_to_class (node_at n w))
    node_do remote source (
        "tc" ∷ "filter" ∷ "add" ∷ "dev" ∷ dev ∷ "parent" ∷ "1:" ∷ "protocol" ∷ "ip" ∷ "prio" ∷ "1"
        ∷ "u32" ∷ "match" ∷ "ip" ∷ "dst" ∷ ip ∷ "flowid" ∷ class_id ∷ [])

  unfoldable pub prepare_device : ℕ → List ℕ → String × (ℕ × List ℕ) → Exec World (Unit {0})
  unfolding add_filter pass_called
  prepare_device source nodes (dev, (net, reached)) = do
    pass_called (node_do remote source ("tc" ∷ "qdisc" ∷ "del" ∷ "dev" ∷ dev ∷ "root" ∷ []))
    band ← gets (λ w. dec (node_at source w).id)
    node_do remote source (
        "tc"
        ∷ "qdisc"
        ∷ "replace"
        ∷ "dev"
        ∷ dev
        ∷ "root"
        ∷ "handle"
        ∷ "1:"
        ∷ "prio"
        ∷ "bands"
        ∷ dec (length nodes)
        ∷ "priomap"
        ∷ replicate 16 band)
    for_each reached (add_filter source dev net)

  -- `TrafficControl.__init__`
  unfoldable pub traffic_control : ℕ → List ℕ → Exec World (Unit {0})
  unfolding prepare_device get_nodes_by_dev
  traffic_control source nodes = do
    devices ← get_nodes_by_dev source nodes
    for_each devices (prepare_device source nodes)

  -- `TrafficControl.reset`
  unfoldable pub reset : ℕ → List ℕ → Exec World (Unit {0})
  reset source nodes = do
    devices ← get_nodes_by_dev source nodes
    for_each devices
        (λ d. node_do remote source ("tc" ∷ "qdisc" ∷ "del" ∷ "dev" ∷ d.0 ∷ "root" ∷ []))

  -- A command on the device towards a node, for each network.
  unfoldable on_networks : ℕ → ℕ → (String → World → List String) → Exec World (Unit {0})
  on_networks source to_node command = do
    nets ← gets (λ w. range_from 0 (length (host_of source w).addrs))
    let on_network : ℕ → Exec World (Unit {0}) =
        λ net. do dev ← device_to source to_node net; λ w. node_do remote source (command dev w) w
    for_each nets on_network

  -- `TrafficControl.slow_down`; an empty text leaves its limit out.
  unfoldable pub slow_down : ℕ → ℕ → String → String → Exec World (Unit {0})
  unfolding on_networks
  slow_down source to_node speed delay = on_networks source to_node (λ dev w.
      "tc"
        ∷ "qdisc"
        ∷ "replace"
        ∷ "dev"
        ∷ dev
        ∷ "parent"
        ∷ node_to_class (node_at to_node w)
        ∷ "handle"
        ∷ node_to_handle (node_at to_node w)
        ∷ "netem"
        ∷ (if delay == "" then [] else "delay" ∷ delay ∷ [])
      ++ (if speed == "" then [] else "rate" ∷ speed ∷ []))

  -- `TrafficControl.remove_slow_down`
  unfoldable pub remove_slow_down : ℕ → ℕ → Exec World (Unit {0})
  unfolding on_networks
  remove_slow_down source to_node = on_networks source to_node (λ dev w.
      "tc"
      ∷ "qdisc"
      ∷ "del"
      ∷ "dev"
      ∷ dev
      ∷ "parent"
      ∷ node_to_class (node_at to_node w)
      ∷ "handle"
      ∷ node_to_handle (node_at to_node w)
      ∷ [])
