-- ===== src/Framework/Control.antt =====
-- `Nodes`, `Volumes`, `Connections` and `PeerDevices` of python/drbdtest.py: the commands that they
-- run on their members, and the events that they wait for. A collection is the list of its members:
-- a node by its index, a volume with its node, a connection as a pair of nodes.
pub mod Patterns
pub mod Down
pub mod Stepwise
use drbd9_tests.Prelude.{
  ℕ, zero, suc, ◌≡◌, refl, Bool, true, false, not, ◌&&◌, Option, none, some, List, [], ◌∷◌, ◌++◌,
  map, String, ◌<>◌, Eq, ◌==◌, string_eq, contains, keep, is_some, if◌then◌else◌, any, all,
  concat_map,
}
use drbd9_tests.Prelude.Text.{dec}
use drbd9_tests.Prelude.Dict.{Dict, lookup, insert}
use drbd9_tests.OrderedSet
use drbd9_tests.OrderedSet.{OrderedSet}
use drbd9_tests.Results.{Result, Error, ok, err, stop_iteration, value_error, index_error}
use drbd9_tests.Exec.{Exec, pure, raise, gets, modify, when, for_each, or_raise, ◌>>=◌, ◌>>◌}
use drbd9_tests.Framework.World.{
  Host, Node, Volume, Resource, World, Remote, Filters, host_of, node_at, resource_at, resource_of,
  set_resource, version_ge, is_drbd9,
}
use drbd9_tests.Framework.Run.{node_do, drbdadm, logscan}

-- `filters.setdefault(name, []).append(filter)`
unfoldable pub add_filter : String → List String → Filters → Filters
unfolding insert lookup
add_filter name filter fs = elim (lookup name fs) [
  | none ↦ insert name (filter ∷ []) fs
  | some old ↦ insert name (old ++ filter ∷ []) fs
]

-- The filters of `Nodes.event`, `Volumes.event`, `Connections.event` and `PeerDevices.event`.
unfoldable pub node_filters : World → List ℕ → Filters → Filters
unfolding insert
node_filters w [] fs = fs
node_filters w (n ∷ ns) fs = node_filters w ns (insert (node_at n w).name ([] ∷ []) fs)

unfoldable pub volume_filters : World → List (ℕ × Volume) → Filters → Filters
unfolding add_filter
volume_filters w [] fs = fs
volume_filters w ((n, v) ∷ vs) fs =
    volume_filters w vs (add_filter (node_at n w).name (("volume:" <> dec v.volume) ∷ []) fs)

abbrev peer_filter : World → ℕ → ℕ → List String
peer_filter w n0 n1 =
    if is_drbd9 (host_of n0 w) then ("peer-node-id:" <> dec (node_at n1 w).id) ∷ [] else []

unfoldable pub connection_filters : World → List (ℕ × ℕ) → Filters → Filters
unfolding add_filter
connection_filters w [] fs = fs
connection_filters w ((n0, n1) ∷ cs) fs =
    connection_filters w cs (add_filter (node_at n0 w).name (peer_filter w n0 n1) fs)

unfoldable pub peer_device_filters : World → List ((ℕ × ℕ) × Volume) → Filters → Filters
unfolding add_filter
peer_device_filters w [] fs = fs
peer_device_filters w (((n0, n1), v) ∷ ps) fs =
    peer_device_filters w ps
      (add_filter (node_at n0 w).name (("volume:" <> dec v.volume) ∷ peer_filter w n0 n1) fs)

-- `Nodes.resource`: the first member's.
unfoldable pub nodes_resource : List ℕ → Exec World ℕ
nodes_resource [] = raise stop_iteration
nodes_resource (n ∷ ns) = gets λ w. (node_at n w).resource

abbrev lower_version : ℕ × ℕ × ℕ → ℕ × ℕ × ℕ → ℕ × ℕ × ℕ
lower_version a b = if version_ge b a then a else b

-- `Nodes.min_drbd_version_tuple`; `min` of nothing is a ValueError.
unfoldable pub min_drbd_version_tuple : World → List ℕ → Result (ℕ × ℕ × ℕ)
min_drbd_version_tuple w [] = err value_error
min_drbd_version_tuple w (n ∷ ns) = elim (min_drbd_version_tuple w ns) [
  | err e ↦ ok (host_of n w).drbd_version_tuple
  | ok v ↦ ok (lower_version (host_of n w).drbd_version_tuple v)
]

abbrev pub tested : World → Result (ℕ × ℕ × ℕ) → Result (List String) × World
tested w (err e) = (err e, w)
tested w (ok v) = (ok (if version_ge v (9, 0, 0) then [] else "disk:Failed" ∷ []), w)

-- `r'disk:Failed' in patterns and nodes.min_drbd_version_tuple() < (9, 0, 0)`
unfoldable pub allow_failed : ℕ → List ℕ → Exec World (List String)
allow_failed r ns w =
    if OrderedSet.has "disk:Failed" (resource_at r w).forbidden_patterns
    then tested w (min_drbd_version_tuple w ns)
    else (ok [], w)

-- `[p for p in [...] if p in patterns]`
unfoldable pub allow_lost : ℕ → World → List String
allow_lost r w =
    keep (λ p. OrderedSet.has p (resource_at r w).forbidden_patterns)
      ("connection:BrokenPipe" ∷ "connection:NetworkFailure" ∷ [])

unfoldable pub change_patterns : ℕ → (OrderedSet String → OrderedSet String) → World → World
change_patterns r f w =
    set_resource r
      (record (resource_at r w) { forbidden_patterns = f (resource_at r w).forbidden_patterns }) w

-- `difference_update` of some forbidden patterns, a body, and `update` with the same patterns.
unfoldable pub while_allowed : ℕ → List String → Exec World (Unit {0}) → Exec World (Unit {0})
while_allowed r ps body = do
  modify (change_patterns r (OrderedSet.difference_update ps))
  body
  modify (change_patterns r (λ s. (OrderedSet.update ps s).1))

module _ (remote : Remote) where
  unfoldable pub nodes_drbdadm : List ℕ → List String → Exec World (Unit {0})
  nodes_drbdadm ns cmd = for_each ns (λ n. drbdadm remote n cmd)

  -- `self.drbdadm([cmd, self.resource().name] + more)`
  unfoldable pub resource_cmd : List ℕ → String → List String → Exec World (Unit {0})
  resource_cmd ns cmd more = do
    r ← nodes_resource ns
    name ← gets (λ w. (resource_at r w).name)
    nodes_drbdadm ns (cmd ∷ name ∷ more)

  unfoldable pub nodes_event : List ℕ → List String → Exec World (Unit {0})
  nodes_event [] events w = (ok tt, w)
  nodes_event (n ∷ ns) events w =
      logscan remote (node_at n w).resource events (node_filters w (n ∷ ns) []) w

  unfoldable pub volumes_event : List (ℕ × Volume) → List String → Exec World (Unit {0})
  volumes_event [] events w = (ok tt, w)
  volumes_event ((n, v) ∷ vs) events w =
      logscan remote (node_at n w).resource events (volume_filters w ((n, v) ∷ vs) []) w

  unfoldable pub connections_event : List (ℕ × ℕ) → List String → Exec World (Unit {0})
  connections_event [] events w = (ok tt, w)
  connections_event ((n, m) ∷ cs) events w =
      logscan remote (node_at n w).resource events (connection_filters w ((n, m) ∷ cs) []) w

  unfoldable pub peer_devices_event : List ((ℕ × ℕ) × Volume) → List String → Exec World (Unit {0})
  peer_devices_event [] events w = (ok tt, w)
  peer_devices_event (((n, m), v) ∷ ps) events w =
      logscan remote (node_at n w).resource events (peer_device_filters w (((n, m), v) ∷ ps) []) w

  -- `Nodes.up`
  unfoldable pub nodes_up : List ℕ → List String → Exec World (Unit {0})
  nodes_up ns more = do
    resource_cmd ns "up" more
    proxy ← gets (λ w. w.options.proxy_enable)
    when proxy (resource_cmd ns "proxy-up" more)

  -- `Nodes.down`
  unfoldable pub nodes_down : List ℕ → Exec World (Unit {0})
  nodes_down ns = do
    proxy ← gets (λ w. w.options.proxy_enable)
    when proxy (resource_cmd ns "proxy-down" [])
    r ← nodes_resource ns
    lost ← gets (allow_lost r)
    failed ← allow_failed r ns
    while_allowed r (lost ++ failed)
        do resource_cmd ns "down" []; nodes_event ns ("destroy resource" ∷ [])

  abbrev volume_name : World → ℕ × Volume → String
  volume_name w (n, v) = (resource_of n w).name <> ("/" <> dec v.volume)

  -- `Volumes.attach`
  unfoldable pub volumes_attach : List (ℕ × Volume) → Exec World (Unit {0})
  volumes_attach vs = do
    for_each vs (λ v w. drbdadm remote v.0 ("attach" ∷ volume_name w v ∷ []) w)
    volumes_event vs ("device .* disk:Attaching" ∷ [])

  -- `Volumes.detach`
  unfoldable pub volumes_detach : List (ℕ × Volume) → Bool → Exec World (Unit {0})
  volumes_detach [] force = pure tt
  volumes_detach ((n, v) ∷ vs) force = do
    r ← gets (λ w. (node_at n w).resource)
    members ← gets (λ w. (resource_at r w).nodes.items)
    failed ← allow_failed r members
    while_allowed r failed do
      for_each ((n, v) ∷ vs) (λ x w.
          drbdadm remote x.0
            ("detach" ∷ (if force then "--force" ∷ [] else []) ++ volume_name w x ∷ []) w)
      volumes_event ((n, v) ∷ vs) ("device .* disk:(Failed|Detaching)" ∷ [])
      volumes_event ((n, v) ∷ vs) ("device .* disk:Diskless" ∷ [])
