-- ===== src/Framework/Peers.antt =====
-- Connections and peer devices of python/drbdtest.py: the commands of `Connections`, `PeerDevices`, `Connection` and `PeerDevice`, and those of `Node` that concern roles
-- and generation identifiers.
use drbd9_tests.Prelude.{
  ℕ, Bool, true, false, ◌&&◌, ◌||◌, Option, none, some, List, [], ◌∷◌, ◌++◌, map, String, ◌<>◌,
  nat_eq, string_eq, pair_eq, is_some, if◌then◌else◌, any, concat_map, get_elem?,
}
use drbd9_tests.Prelude.Text.{dec, join}
use drbd9_tests.Results.{Result, ok, err, index_error}
use drbd9_tests.Framework.Connections.{connections}
use drbd9_tests.Exec.{Exec, lift, gets, when, for_each, or_raise, ◌>>=◌, ◌>>◌}
use drbd9_tests.Framework.World.{
  Volume, World, Remote, host_of, node_at, resource_of, is_drbd9, or_default,
}
use drbd9_tests.Framework.Config.{volume_path}
use drbd9_tests.Framework.Run.{node_do, drbdadm}
use drbd9_tests.Framework.Control.{nodes_event, connections_event, peer_devices_event}

-- `PeerDevices.from_connections` without volumes: those of the first connection's first node.
unfoldable pub from_connections : World → List (ℕ × ℕ) → Result (List ((ℕ × ℕ) × Volume))
from_connections w [] = err index_error
from_connections w ((n, m) ∷ cs) =
    let volumes = (node_at n w).disks in
    ok (concat_map (λ c. map (λ v. (c, v)) volumes) ((n, m) ∷ cs))

-- `peer_devices(from_node, to_node)`
unfoldable pub peer_devices : ℕ → ℕ → World → Result (List ((ℕ × ℕ) × Volume))
unfolding connections from_connections
peer_devices n m w = elim (connections w (some n) (some m) none none false) [
  | err e ↦ err e
  | ok cs ↦ from_connections w cs.items
]

-- The flags of `MetadataFlag`; below, those that `set_gi` writes, in its order.
pub data MetadataFlag : Type 0 where
  consistent was_up_to_date primary_ind crashed_primary al_clean al_disabled : MetadataFlag
  primary_lost_quorum peer_connected peer_outdated peer_fencing : MetadataFlag
  peer_full_sync peer_device_seen node_exists have_bitmap : MetadataFlag

abbrev gi_flags : List MetadataFlag
gi_flags =
    consistent ∷ was_up_to_date ∷ primary_ind ∷ crashed_primary ∷ al_clean ∷ al_disabled
    ∷ primary_lost_quorum ∷ peer_connected ∷ peer_outdated ∷ peer_fencing ∷ peer_full_sync
    ∷ peer_device_seen ∷ []

-- The argument of `drbdmeta set-gi`; the two tests stand for `flag in flags_set` and
-- `flag in flags_unset`.
unfoldable pub gi_values :
    Option String
    → Option String
    → Option String
    → Option String
    → (MetadataFlag → Bool)
    → (MetadataFlag → Bool)
    → List String
gi_values current bitmap history_0 history_1 is_set is_unset =
    map (or_default "") (current ∷ bitmap ∷ history_0 ∷ history_1 ∷ [])
    ++ map (λ f. if is_set f then "1" else if is_unset f then "0" else "") gi_flags

module _ (remote : Remote) where
  -- `Connections.run_drbdadm`
  unfoldable pub run_drbdadm :
      List (ℕ × ℕ) → String → String → Bool → List String → Exec World (Unit {0})
  run_drbdadm cs cmd state wait options = do
    for_each cs (λ c w.
        let name = (resource_of c.0 w).name in
        let context =
          if is_drbd9 (host_of c.0 w) then name <> (":" <> (host_of c.1 w).hostname) else name in
        drbdadm remote c.0 (cmd ∷ options ++ context ∷ []) w)
    when wait (connections_event remote cs (("connection .* connection:" <> state) ∷ []))

  unfoldable pub connect : List (ℕ × ℕ) → Bool → List String → Exec World (Unit {0})
  connect cs wait options = run_drbdadm cs "connect" "Connecting" wait options

  unfoldable pub disconnect : List (ℕ × ℕ) → Bool → Bool → Exec World (Unit {0})
  disconnect cs wait force =
      run_drbdadm cs "disconnect" "StandAlone" wait (if force then "--force" ∷ [] else [])

  -- `Connection.run_cmd`, with its two uses.
  unfoldable pub run_cmd : ℕ × ℕ → List String → Exec World (Unit {0})
  run_cmd (n, m) args w =
      drbdadm remote n (args ++ ((resource_of n w).name <> (":" <> (host_of m w).hostname)) ∷ []) w

  unfoldable pub pause_sync : ℕ × ℕ → Exec World (Unit {0})
  pause_sync c = run_cmd c ("pause-sync" ∷ [])

  unfoldable pub resume_sync : ℕ × ℕ → Exec World (Unit {0})
  resume_sync c = run_cmd c ("resume-sync" ∷ [])

  -- `PeerDevices.verify`
  unfoldable pub verify : List ((ℕ × ℕ) × Volume) → Bool → List String → Exec World (Unit {0})
  verify ps wait options = do
    for_each ps (λ p w.
        let target =
          (resource_of p.0.0 w).name
          <> (":" <> ((host_of p.0.1 w).hostname <> ("/" <> dec p.1.volume))) in
        drbdadm remote p.0.0 ("verify" ∷ options ++ target ∷ []) w)
    when wait (peer_devices_event remote ps ("peer-device .* replication:VerifyS" ∷ []))

  -- `Node.primary` and `Node.secondary` on Linux, where nothing follows them.
  unfoldable pub primary : ℕ → Bool → Bool → Exec World (Unit {0})
  primary n force wait = do
    name ← gets (λ w. (resource_of n w).name)
    diskful ← gets (λ w. any (λ v. is_some v.disk_volume) (node_at n w).disks)
    drbdadm remote n ("primary" ∷ (if force then "--force" ∷ [] else []) ++ name ∷ [])
    when (force || wait) (
        nodes_event remote (n ∷ []) (
          (if force && diskful then "device .* disk:UpToDate" ∷ [] else [])
          ++ (if wait then "resource .* role:Primary" ∷ [] else [])))

  unfoldable pub secondary : ℕ → Bool → Bool → Exec World (Unit {0})
  secondary n wait force = do
    name ← gets (λ w. (resource_of n w).name)
    drbdadm remote n ("secondary" ∷ name ∷ (if force then "--force" ∷ [] else []))
    when wait (nodes_event remote (n ∷ []) ("resource .* role:Secondary" ∷ []))

  -- `with node.asPrimary(): body` returns or raises what leaving the block raises first.
  unfoldable pub as_primary : ℕ → Bool → Exec World (Unit {0}) → Exec World (Unit {0})
  as_primary n force body = do
    primary n force true
    λ w. let (r, t) = body w in (secondary n true false >>= λ _. lift r) t

  -- `Node.set_gi`; a volume without a disk makes `shlex.quote(str(None))`.
  unfoldable pub set_gi : ℕ → Volume → ℕ → List String → Exec World (Unit {0})
  set_gi n peer_volume peer_node values = do
    disks ← gets (λ w. (node_at n w).disks)
    v ← or_raise index_error (get_elem? disks peer_volume.volume)
    id ← gets (λ w. (node_at peer_node w).id)
    node_do remote n (
        "drbdmeta"
        ∷ dec v.minor
        ∷ "v09"
        ∷ elim v.disk_volume [ none ↦ "None" | some d ↦ volume_path d ]
        ∷ "internal"
        ∷ ("--node-id=" <> dec id)
        ∷ "--force"
        ∷ "set-gi"
        ∷ join ":" values
        ∷ [])
