-- ===== src/Framework/Resources.antt =====
-- Resources, nodes and volumes of python/drbdtest.py: how they are made and numbered, and the
-- operations of `Resource`. The sizes and options of a disk are a record; a resource's cleanup at
-- exit is not modelled.
pub mod Numbers
pub mod Operations
pub mod Volumes
use drbd9_tests.Prelude.{
  ℕ, zero, suc, ◌+◌, ◌-◌, ◌≡◌, refl, Bool, true, false, not, ◌&&◌, ◌||◌, Option, none, some, List,
  [], ◌∷◌, ◌++◌, map, String, ◌<>◌, Eq, ◌==◌, nat_eq, string_eq, pair_eq, ltb, contains, keep,
  is_some, if◌then◌else◌, any, all, concat_map, get_elem?, set, length,
}
use drbd9_tests.Prelude.Text.{dec, join}
use drbd9_tests.Prelude.Dict.{Dict, lookup}
use drbd9_tests.OrderedSet
use drbd9_tests.OrderedSet.{OrderedSet}
use drbd9_tests.Results.{Result, ok, err, index_error, key_error}
use drbd9_tests.Exec.{
  Exec, pure, raise, gets, modify, when, for_each, collect, or_raise, ◌>>=◌, ◌>>◌,
}
use drbd9_tests.Framework.World.{
  Host, Node, Volume, Resource, World, Remote, DiskVolume, host_at, host_of, node_at, resource_at,
  resource_of, set_host, set_node, set_resource, or_default, no_resource,
}
use drbd9_tests.Framework.Config.{volume_path}
use drbd9_tests.Framework.Run.{node_do, drbdadm}
use drbd9_tests.Framework.Control.{nodes_up, nodes_down, nodes_event, peer_devices_event}
use drbd9_tests.Framework.Devices.{init_node}
use drbd9_tests.Framework.Disks.{
  create_storage_pool, remove_storage_pool, create_disk, volume_remove, create_md,
}

-- `Host.next_minor`, `Host.next_port` and `Resource.next_volume`: the number and the state after it.
unfoldable pub next_minor : ℕ → World → ℕ × World
next_minor h w =
    let host = host_at h w in
    (suc host.minors, set_host h (record host { minors = suc host.minors }) w)

unfoldable pub next_port : ℕ → World → ℕ × World
next_port h w =
    let host = host_at h w in (host.port, set_host h (record host { port = suc host.port }) w)

unfoldable pub next_volume : ℕ → World → ℕ × World
next_volume r w =
    let res = resource_at r w in
    (res.num_volumes, set_resource r (record res { num_volumes = suc res.num_volumes }) w)

-- `Node(host, resource, port)`: the node is appended to the store, and added to its resource.
abbrev pub new_node : ℕ → ℕ → ℕ → World → Node
new_node h r port w = record {
  host = h;
  resource = r;
  name = (host_at h w).name;
  port = port;
  id = length (resource_at r w).nodes.items;
  disks = [];
  config_changed = true;
  fencing_mode = "";
  connections = OrderedSet.empty;
}

unfoldable pub append_node : ℕ → ℕ → ℕ → World → World
append_node h r port w =
    let res = resource_at r w in
    set_resource r (record res { nodes = (OrderedSet.add (length w.nodes) res.nodes).1 })
      (record w { nodes = w.nodes ++ new_node h r port w ∷ [] })

abbrev pub take_port : ℕ → Exec World ℕ
take_port h w = let (port, t) = next_port h w in (ok port, t)

module _ (remote : Remote) where
  -- `Node.__init__`, with the number of the node in the store
  unfoldable pub make_node : ℕ → ℕ → ℕ → Exec World (Unit {0})
  unfolding append_node init_node
  make_node h r port = do
    n ← gets (λ w. length w.nodes)
    modify (append_node h r port)
    init_node remote n

  -- The loop over the hosts in `Cluster.create_resource`.
  unfoldable pub make_nodes : List ℕ → ℕ → Exec World (Unit {0})
  unfolding next_port make_node
  make_nodes [] r = pure tt
  make_nodes (h ∷ hs) r = do port ← take_port h; make_node h r port; make_nodes hs r

-- The connections of a node to the other nodes of its resource.
unfoldable pub connect_node : ℕ → List ℕ → World → World
connect_node n [] w = w
connect_node n (m ∷ ms) w = connect_node n ms (
    if n == m
    then w
    else set_node n
        (record (node_at n w) { connections = (OrderedSet.add (n, m) (node_at n w).connections).1 })
        w)

unfoldable pub connect_nodes : List ℕ → List ℕ → World → World
unfolding connect_node
connect_nodes [] ms w = w
connect_nodes (n ∷ ns) ms w = connect_nodes ns ms (connect_node n ms w)

unfoldable pub hosts_from : ℕ → List Host → List ℕ
hosts_from i [] = []
hosts_from i (h ∷ hs) = i ∷ hosts_from (suc i) hs

-- `Resource(cluster, name, transport, tls)`
abbrev pub new_resource : String → Option String → String → Resource
new_resource name transport tls = record no_resource {
  name = name;
  transport = transport;
  tls = tls;
  forbidden_patterns =
      (OrderedSet.update
        ("connection:Timeout" ∷ "connection:ProtocolError" ∷ "disk:Failed" ∷ "peer-disk:Failed"
          ∷ [])
        OrderedSet.empty).1;
}

-- `Cluster.create_resource`. The resource is in the store before it is among those of the cluster;
-- nothing between asks for these.
abbrev pub with_resource : Resource → World → World
with_resource x w = record w { resources = w.resources ++ x ∷ [] }

unfoldable pub create_resource : Remote → String → Option String → String → Exec World ℕ
unfolding hosts_from make_nodes connect_nodes
create_resource remote name transport tls = do
  r ← gets (λ w. length w.resources)
  modify (with_resource (new_resource name transport tls))
  hosts ← gets (λ w. hosts_from 0 w.hosts)
  make_nodes remote hosts r
  ns ← gets (λ w. (resource_at r w).nodes.items)
  modify (connect_nodes ns ns)
  pure r

-- `Resource.touch_config`
unfoldable pub touch_nodes : List ℕ → World → World
touch_nodes [] w = w
touch_nodes (n ∷ ns) w =
    touch_nodes ns (set_node n (record (node_at n w) { config_changed = true }) w)

unfoldable pub touch_config : ℕ → World → World
unfolding touch_nodes
touch_config r w = touch_nodes (resource_at r w).nodes.items w

-- The setters of the options, and those of a node.
unfoldable pub set_net_options : ℕ → String → World → World
set_net_options r s w =
    touch_config r (set_resource r (record (resource_at r w) { net_options = s }) w)

unfoldable pub set_disk_options : ℕ → String → World → World
set_disk_options r s w =
    touch_config r (set_resource r (record (resource_at r w) { disk_options = s }) w)

unfoldable pub set_resource_options : ℕ → String → World → World
set_resource_options r s w =
    touch_config r (set_resource r (record (resource_at r w) { resource_options = s }) w)

unfoldable pub set_handlers : ℕ → String → World → World
set_handlers r s w = touch_config r (set_resource r (record (resource_at r w) { handlers = s }) w)

-- `Resource.set_fencing_mode`
unfoldable pub set_fencing_modes : List ℕ → String → World → World
set_fencing_modes [] mode w = w
set_fencing_modes (n ∷ ns) mode w =
    set_fencing_modes ns mode
      (set_node n (record (node_at n w) { fencing_mode = mode; config_changed = true }) w)

unfoldable pub add_node : ℕ → ℕ → World → World
add_node r n w =
    let res = resource_at r w in
    touch_config r (set_resource r (record res { nodes = (OrderedSet.add n res.nodes).1 }) w)

-- A node that is not a member is left out in silence, as `Collection.remove` does.
unfoldable pub remove_node : ℕ → ℕ → World → World
remove_node r n w =
    let res = resource_at r w in
    let nodes = if OrderedSet.has n res.nodes then OrderedSet.discard n res.nodes else res.nodes in
    touch_config r (set_resource r (record res { nodes = nodes }) w)

-- The keyword arguments of `Node.add_disk`.
pub record DiskOptions : Type 0 where
  pub meta_size : Option String
  pub max_size : Option String
  pub delay_ms : Option ℕ
  pub logical_block_size : Option ℕ
  pub zero_out : Bool

-- Those of `create_md` but the peers and the block size.
pub record MdOptions : Type 0 where
  pub initial_current_uuid : String
  pub consistent : Bool
  pub uptodate : Bool
  pub peers_outdated : Bool
  pub rotate_uuids : Bool

-- `self.disks.append(volume)` or `self.disks[volume_number] = volume`, with the flag.
unfoldable pub put_disk : ℕ → ℕ → Volume → World → World
put_disk n number v w =
    let node = node_at n w in
    let disks =
      if ltb number (length node.disks) then set node.disks number v else node.disks ++ v ∷ [] in
    set_node n (record node { disks = disks; config_changed = true }) w

-- `Volume(self, volume_number, minor=minor)`, with the minor of the volume that it replaces.
unfoldable pub make_volume : ℕ → ℕ → World → Volume × World
unfolding next_minor
make_volume n number w = elim (get_elem? (node_at n w).disks number) [
  | some old ↦ (
    record {
      volume = number;
      minor = old.minor;
      disk_lv = none;
      meta_lv = none;
      disk_volume = none;
      meta_volume = none;
      tiebreaker = none;
      disk_is_online = false;
    },
    w,
  )
  | none ↦
      let (minor, t) = next_minor (node_at n w).host w in
      (
        record {
          volume = number;
          minor = minor;
          disk_lv = none;
          meta_lv = none;
          disk_volume = none;
          meta_volume = none;
          tiebreaker = none;
          disk_is_online = false;
        },
        t,
      )
]

module _ (remote : Remote) (uuid5 : String → String) where
  -- `Volume.create_disks`
  unfoldable pub create_disks : ℕ → Volume → String → DiskOptions → Exec World Volume
  create_disks n v size o = do
    name ← gets (λ w. (resource_of n w).name)
    h ← gets (λ w. (node_at n w).host)
    let disk_lv = name <> ("-disk" <> dec v.volume)
    disk ← create_disk remote uuid5 h disk_lv size o.max_size o.delay_ms o.logical_block_size
    let with_disk : Volume = record v { disk_lv = some disk_lv; disk_volume = some disk }
    elim o.meta_size [
      | none ↦ pure with_disk
      | some meta_size ↦ if meta_size == "" then pure with_disk else do
        let meta_lv = name <> ("-meta" <> dec v.volume)
        meta ← create_disk remote uuid5 h meta_lv meta_size none o.delay_ms o.logical_block_size
        pure (record with_disk { meta_lv = some meta_lv; meta_volume = some meta })
    ]

  -- `Node.add_disk`
  unfoldable pub node_add_disk : ℕ → ℕ → Option String → DiskOptions → Exec World Volume
  node_add_disk n number size o = do
    h ← gets (λ w. (node_at n w).host)
    pool ← gets (λ w. (host_at h w).storage_pool)
    when (not (is_some pool)) (create_storage_pool remote h false none)
    v ← λ w. (ok (make_volume n number w).0, (make_volume n number w).1)
    made ← elim size [
      | none ↦ pure v
      | some s ↦ do
        d ← create_disks n v s o
        when o.zero_out (
            node_do remote n (
              "blkdiscard"
              ∷ "-z"
              ∷ elim d.disk_volume [ none ↦ "None" | some x ↦ volume_path x ]
              ∷ []))
        pure d
    ]
    modify (put_disk n number made)
    pure made

  -- `Volume.create_md`
  unfoldable pub volume_create_md :
      ℕ → Volume → Option ℕ → Option ℕ → MdOptions → Exec World (Unit {0})
  volume_create_md n v max_peers block_size o = do
    count ← gets (λ w. length (resource_of n w).nodes.items)
    let peers = or_default (if ltb (count - 1) 1 then 1 else count - 1) max_peers
    create_md remote n v.volume peers block_size o.initial_current_uuid o.consistent o.uptodate
        o.peers_outdated o.rotate_uuids

  -- `Resource.add_disk`; the nodes and block sizes are given by the nodes.
  unfoldable pub add_disk :
      ℕ → String → Option (List ℕ) → Option ℕ → Dict ℕ ℕ → DiskOptions → MdOptions → Exec World ℕ
  add_disk r size diskful_nodes max_peers block_sizes o md = do
    let add_one : ℕ → ℕ → Exec World (List (ℕ × Volume)) = λ number n.
        if elim diskful_nodes [ none ↦ true | some ns ↦ contains n ns ]
        then (node_add_disk n number (some size) o >>= λ v. pure ((n, v) ∷ []))
        else (node_add_disk n number none o >>= λ v. pure [])
    number ← λ w. (ok (next_volume r w).0, (next_volume r w).1)
    nodes ← gets (λ w. (resource_at r w).nodes.items)
    volumes ← collect nodes (add_one number)
    for_each (concat_map (λ vs. vs) volumes)
        (λ v. volume_create_md v.0 v.1 max_peers (lookup v.0 block_sizes) md)
    pure number
