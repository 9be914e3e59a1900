-- ===== src/Framework/Disks/Targets.antt =====
-- Snapshots and delays of the volumes of python/disktools.py, and `snapshot` of a volume of
-- python/drbdtest.py.
use drbd9_tests.Prelude.{
  ℕ, Option, none, some, [], ◌∷◌, String, ◌<>◌, ◌==◌, string_eq, set, if◌then◌else◌,
}
use drbd9_tests.Prelude.Text.{dec}
use drbd9_tests.Results.{attribute_error}
use drbd9_tests.Exec.{Exec, pure, raise, gets, modify, or_raise, ◌>>=◌, ◌>>◌}
use drbd9_tests.Framework.World.{
  World, Remote, DiskVolume, lvm_volume, zfs_volume, delay_volume, host_at, node_at, set_node,
  host_do, host_try, host_feed,
}
use drbd9_tests.Framework.Config.{volume_path}
use drbd9_tests.Framework.Devices.{volume_at}

-- The milliseconds of a delay; other volumes have none to set.
unfoldable pub with_delay : ℕ → DiskVolume → Option DiskVolume
with_delay ms (delay_volume name sectors old below) = some (delay_volume name sectors ms below)
with_delay ms other = none

abbrev put_volume : ℕ → ℕ → DiskVolume → World → World
put_volume n i d w =
    let node = node_at n w in
    let v = volume_at n i w in
    set_node n (record node { disks = set node.disks i (record v { disk_volume = some d }) }) w

module _ (remote : Remote) where
  unfoldable pub snapshot_lvm : ℕ → String → String → String → String → Exec World String
  snapshot_lvm h name lv size ext = do
    devicesfile ←
        host_try remote h ("lvmconfig" ∷ "--typeconfig=full" ∷ "devices/use_devicesfile" ∷ [])
    group ← gets (λ w. (host_at h w).volume_group)
    let extra : String =
        if devicesfile == "use_devicesfile=1"
        then "devices { search_for_devnames = \"none\" }"
        else "devices { filter=[\"r|^/dev/drbd.*|\"] }"
    host_do remote h (
        "lvcreate"
        ∷ "--config"
        ∷ extra
        ∷ "--snapshot"
        ∷ "--name"
        ∷ (name <> ("-" <> ext))
        ∷ "--size"
        ∷ size
        ∷ lv
        ∷ [])
    pure ("/dev/" <> (group <> ("/" <> (name <> ("-" <> ext)))))

  unfoldable pub snapshot_zfs : ℕ → String → String → Exec World String
  snapshot_zfs h dataset ext = do
    host_do remote h ("zfs" ∷ "set" ∷ "snapdev=visible" ∷ dataset ∷ [])
    host_do remote h ("zfs" ∷ "snapshot" ∷ (dataset <> ("@" <> ext)) ∷ [])
    pure ("/dev/zvol/" <> (dataset <> ("@" <> ext)))

  -- Only these two kinds of volumes have a `snapshot`.
  unfoldable pub snapshot_disk : ℕ → DiskVolume → String → Exec World String
  unfolding snapshot_lvm snapshot_zfs
  snapshot_disk h (lvm_volume name lv size) ext = snapshot_lvm h name lv size ext
  snapshot_disk h (zfs_volume dataset) ext = snapshot_zfs h dataset ext
  snapshot_disk h other ext = raise attribute_error

  -- `Volume.snapshot`
  unfoldable pub snapshot : ℕ → ℕ → String → Exec World String
  unfolding snapshot_disk
  snapshot n i ext = do
    h ← gets (λ w. (node_at n w).host)
    d ← (λ w. or_raise attribute_error (volume_at n i w).disk_volume w)
    snapshot_disk h d ext

  -- The new table of a delay.
  unfoldable pub reload : ℕ → DiskVolume → Exec World (Unit {0})
  reload h (delay_volume name sectors ms below) = do
    host_feed remote h ("dmsetup" ∷ "reload" ∷ name ∷ [])
        ("0 " <> (sectors <> (" delay " <> (volume_path below <> (" 0 " <> dec ms)))))
    host_do remote h ("dmsetup" ∷ "suspend" ∷ name ∷ [])
    host_do remote h ("dmsetup" ∷ "resume" ∷ name ∷ [])
  reload h other = pure tt

  -- `volume.disk_volume.set_delay_ms(ms)`
  unfoldable pub set_delay_ms : ℕ → ℕ → ℕ → Exec World (Unit {0})
  unfolding with_delay reload
  set_delay_ms n i ms = do
    h ← gets (λ w. (node_at n w).host)
    d ← (λ w. or_raise attribute_error (volume_at n i w).disk_volume w)
    delayed ← or_raise attribute_error (with_delay ms d)
    modify (put_volume n i delayed)
    reload h delayed
