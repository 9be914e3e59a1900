-- ===== src/Framework/Resources/Operations.antt =====
-- The operations of `Resource` and `Volume` that wait for events or change disks: `up_wait`, `down`,
-- `initial_resync`, `skip_initial_sync`, `rename`, `remove_disks`, `remove_storage_pool`, `resize`.
use drbd9_tests.Prelude.{
  ℕ, ◌-◌, Bool, true, false, not, none, some, List, [], ◌∷◌, ◌++◌, map, String, ◌<>◌, ◌==◌, nat_eq,
  string_eq, ltb, keep, is_some, if◌then◌else◌, any, all, concat_map,
}
use drbd9_tests.Prelude.Text.{dec, join}
use drbd9_tests.OrderedSet
use drbd9_tests.Results.{ok, err, index_error, type_error}
use drbd9_tests.Exec.{Exec, pure, gets, lift, modify, when, for_each, or_raise, ◌>>=◌, ◌>>◌}
use drbd9_tests.Framework.World.{
  Volume, World, Remote, node_at, resource_at, set_node, set_resource,
}
use drbd9_tests.Framework.Config.{volume_path}
use drbd9_tests.Framework.Run.{node_run, node_do, drbdadm}
use drbd9_tests.Framework.Control.{
  nodes_up, nodes_down, nodes_event, peer_devices_event, change_patterns,
}
use drbd9_tests.Framework.Resources.{touch_config}
use drbd9_tests.Framework.Disks.{volume_remove, volume_resize, remove_storage_pool, parse_int}

-- The members of a resource, and those with a disk and without.
unfoldable pub members : ℕ → World → List ℕ
members r w = (resource_at r w).nodes.items

unfoldable pub is_diskful : World → ℕ → Bool
is_diskful w n = any (λ v. is_some v.disk_volume) (node_at n w).disks

unfoldable pub is_diskless : World → ℕ → Bool
is_diskless w n = all (λ v. not (is_some v.disk_volume)) (node_at n w).disks

-- `n1 != n2`, for the connections from one node to several.
abbrev pub others : ℕ → List ℕ → List ℕ
others n ns = keep (λ m. not (n == m)) ns

-- The peer devices of `Resource.up_wait`: every connection, for every volume of the first node.
unfoldable pub up_peer_devices : World → List ℕ → List ((ℕ × ℕ) × Volume)
up_peer_devices w [] = []
up_peer_devices w (first ∷ rest) =
    let ns = first ∷ rest in
    concat_map (λ n. concat_map (λ m. map (λ v. ((n, m), v)) (node_at first w).disks) (others n ns))
      ns

-- Those of `Resource.initial_resync`: from the diskless nodes to the diskful, and between these.
unfoldable pub resync_peer_devices : World → List ℕ → List ℕ → List ((ℕ × ℕ) × Volume)
resync_peer_devices w diskless [] = []
resync_peer_devices w diskless (first ∷ rest) =
    let diskful = first ∷ rest in
    let volumes = (node_at first w).disks in
    concat_map (λ n. concat_map (λ v. map (λ m. ((n, m), v)) diskful) volumes) diskless
    ++ concat_map (λ n. concat_map (λ v. map (λ m. ((n, m), v)) (others n diskful)) volumes) diskful

-- The volumes of a resource that have a disk, as `drbdadm` names them.
unfoldable pub diskful_names : World → String → List ℕ → List String
diskful_names w name [] = []
diskful_names w name (n ∷ ns) =
    map (λ v. name <> ("/" <> dec v.volume)) (keep (λ v. is_some v.disk_volume) (node_at n w).disks)
    ++ diskful_names w name ns

module _ (remote : Remote) where
  -- `Resource.up_wait`
  unfoldable pub up_wait : ℕ → List String → List String → Exec World (Unit {0})
  up_wait r more states = do
    ns ← gets (members r)
    nodes_up remote ns more
    ps ← gets (λ w. up_peer_devices w ns)
    peer_devices_event remote ps (("peer-device .* peer-disk:(" <> (join "|" states <> ")")) ∷ [])
    modify (change_patterns r (λ s. (OrderedSet.add "connection:BrokenPipe" s).1))
    modify (change_patterns r (λ s. (OrderedSet.add "connection:NetworkFailure" s).1))

  -- `Resource.down`, all nodes at once or one by one.
  unfoldable pub down : ℕ → Bool → Exec World (Unit {0})
  down r true w = nodes_down remote (members r w) w
  down r false w = for_each (members r w) (λ n. nodes_down remote (n ∷ [])) w

  -- `Resource.initial_resync`: without a diskful node, a diskless one raises at `diskful_nodes[0]`.
  unfoldable pub initial_resync : ℕ → Exec World (Unit {0})
  initial_resync r w =
      let diskful = keep (is_diskful w) (members r w) in
      let diskless = keep (is_diskless w) (members r w) in
      elim diskful [
        | [] ↦ elim diskless [ [] ↦ (ok tt, w) | _ ↦ (err index_error, w) ]
        | n ∷ ns ↦
            peer_devices_event remote (resync_peer_devices w diskless (n ∷ ns))
              ("peer-device .* peer-disk:UpToDate" ∷ []) w
      ]

  -- `Resource.skip_initial_sync`; the names of the volumes stand in any order, once, which a
  -- parameter gives.
  unfoldable pub skip_initial_sync : (List String → List String) → ℕ → Exec World (Unit {0})
  skip_initial_sync as_set r = do
    ns ← gets (members r)
    diskful ← gets (λ w. keep (is_diskful w) ns)
    n ← or_raise index_error (elim diskful [ [] ↦ none | m ∷ ms ↦ some m ])
    name ← gets (λ w. (resource_at r w).name)
    names ← gets (λ w. diskful_names w name ns)
    drbdadm remote n ("new-current-uuid" ∷ "--clear-bitmap" ∷ as_set names)
    initial_resync r

  -- `Resource.rename`: the name changes after the event was seen.
  unfoldable pub rename : ℕ → String → Exec World (Unit {0})
  rename r new_name = do
    ns ← gets (members r)
    name ← gets (λ w. (resource_at r w).name)
    for_each ns (λ n. node_do remote n ("drbdsetup" ∷ "rename-resource" ∷ name ∷ new_name ∷ []))
    nodes_event remote ns (("rename resource name:" <> (name <> (" new_name:" <> new_name))) ∷ [])
    modify (λ w. set_resource r (record (resource_at r w) { name = new_name }) w)
    modify (touch_config r)

  -- `Node.remove_disks`
  unfoldable pub remove_disks : ℕ → Exec World (Unit {0})
  remove_disks n = do
    h ← gets (λ w. (node_at n w).host)
    disks ← gets (λ w. (node_at n w).disks)
    for_each disks (λ v. do
      elim v.disk_volume [ none ↦ pure tt | some d ↦ volume_remove remote h d ]
      elim v.meta_volume [ none ↦ pure tt | some d ↦ volume_remove remote h d ])
    modify (λ w. set_node n (record (node_at n w) { disks = [] }) w)

  -- `Resource.remove_storage_pool`, with the pools of all hosts of the cluster.
  unfoldable pub remove_pools : ℕ → List ℕ → Exec World (Unit {0})
  remove_pools r hosts = do
    ns ← gets (members r)
    for_each ns remove_disks
    modify (λ w. set_resource r (record (resource_at r w) { num_volumes = 0 }) w)
    for_each hosts (remove_storage_pool remote)

  -- `int(self.node.run(['blockdev', '--getsize64', disk], return_stdout=True).strip())`
  unfoldable device_size : ℕ → String → Exec World ℕ
  device_size n path = do
    out ← node_run remote n ("blockdev" ∷ "--getsize64" ∷ path ∷ [])
    lift (parse_int out)

  -- `Volume.resize` of a volume with a disk.
  unfoldable pub resize : ℕ → Volume → String → Bool → Exec World (Unit {0})
  unfolding device_size
  resize n v size zero_out = do
    d ← or_raise type_error v.disk_volume
    h ← gets (λ w. (node_at n w).host)
    old_size ← if zero_out then device_size n (volume_path d) else pure 0
    volume_resize remote h d size
    new_size ← if zero_out then device_size n (volume_path d) else pure 0
    when (ltb old_size new_size) (
        node_do remote n (
          "blkdiscard"
          ∷ "-z"
          ∷ "--offset"
          ∷ dec old_size
          ∷ "--length"
          ∷ dec (new_size - old_size)
          ∷ volume_path d
          ∷ []))
