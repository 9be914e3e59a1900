-- ===== src/Framework/Disks.antt =====
-- python/disktools.py: storage pools, the volumes that they create, and `create_md`. The identifier
-- of a partition, `uuid.uuid5`, is a parameter; output that only is printed is not modelled, and
-- neither are fill percentages, which the program reads as floating point.
pub mod Size
pub mod Targets
use drbd9_tests.Prelude.{
  ℕ, zero, suc, ◌+◌, ◌*◌, ◌/◌, ◌^◌, ◌≡◌, refl, Bool, true, false, not, ◌&&◌, ◌||◌, Option, none,
  some, List, [], ◌∷◌, ◌++◌, map, String, ◌<>◌, ◌==◌, nat_eq, string_eq, ltb, leb, get_elem?,
  is_some, if◌then◌else◌,
}
use drbd9_tests.Prelude.Text.{dec, split}
use drbd9_tests.Prelude.Decimal.{is_decimal, to_int}
use drbd9_tests.Results.{
  Result, ok, err, runtime_error, value_error, index_error, assertion_error, not_implemented,
}
use drbd9_tests.Exec.{Exec, pure, raise, raise_if, lift, gets, modify, when, or_raise, ◌>>=◌, ◌>>◌}
use drbd9_tests.Framework.World.{
  Host, Node, World, Remote, Command, Pool, lvm_pool, zfs_pool, raw_pool, spaces_pool, DiskVolume,
  lvm_volume, raw_volume, zfs_volume, spaces_volume, delay_volume, block_size_volume, host_at,
  host_of, node_at, resource_of, set_host, version_ge, is_drbd9, send, host_run, host_do,
  or_default,
}
use drbd9_tests.Framework.Config.{volume_path}
use drbd9_tests.Framework.Run.{drbdadm}
use Prim.Native.Char.{code}
use text.Mathlib.Text.{find?}

-- `s[:-1]` and the code of `s[-1:]`
unfoldable pub split_last : String → Option (String × ℕ)
split_last String.[] = none
split_last (String.◌∷◌ c s) = elim (split_last s) [
  | none ↦ some ("", code c)
  | some (front, last) ↦ some (String.◌∷◌ c front, last)
]

-- The exponent of a unit, in either case.
unfoldable pub exponent : ℕ → Option ℕ
exponent u =
    if u == b'K' || u == b'k'
    then some 1
    else if u == b'M' || u == b'm'
    then some 2
    else if u == b'G' || u == b'g'
    then some 3
    else if u == b'T' || u == b't'
    then some 4
    else if u == b'P' || u == b'p'
    then some 5
    else none

-- `int(s)` of a text of digits.
unfoldable pub parse_int : String → Result ℕ
parse_int s = if is_decimal s then ok (to_int 0 s) else err value_error

-- `StorageSpacesVolume.size_in_bytes`
unfoldable pub size_in_bytes : String → Result ℕ
size_in_bytes s = elim (split_last s) [
  | none ↦ err value_error
  | some (front, unit) ↦
      if leb b'0' unit && leb unit b'9' then parse_int s else elim (parse_int front) [
        | err e ↦ err e
        | ok n ↦ elim (exponent unit) [ none ↦ err value_error | some k ↦ ok (n * 1024 ^ k) ]
      ]
]

-- Parts of a line of `./linstor-wmi-helper virtual-disk list`, without braces.
unfoldable pub drop_braces : String → String
drop_braces String.[] = ""
drop_braces (String.◌∷◌ c s) =
    let rest = drop_braces s in if code c == b'{' || code c == b'}' then rest else String.◌∷◌ c rest

module _ (remote : Remote) where
  -- A command with a standard input.
  unfoldable pub host_feed : ℕ → List String → String → Exec World (Unit {0})
  host_feed h argv stdin w =
      (send remote false
            (record { host = h; netns = (host_at h w).netns; argv = argv; stdin = stdin })
          >>= λ _. pure tt)
        w

  -- The constructors of the pools.
  unfoldable pub make_pool : ℕ → Pool → Exec World (Unit {0})
  make_pool h (lvm_pool thin granularity) = do
    host ← gets (host_at h)
    host_do remote h ("vgcreate" ∷ host.volume_group ∷ host.backing_device ∷ [])
    when thin (
        host_do remote h (
          "lvcreate"
          ∷ host.volume_group
          ∷ "--thinpool"
          ∷ "drbdthinpool"
          ∷ "--extents"
          ∷ "100%FREE"
          ∷ elim granularity [
            | none ↦ []
            | some g ↦ if g == 0 then [] else "--chunksize" ∷ (dec g <> "B") ∷ []
          ]))
  make_pool h (zfs_pool thin granularity) = do
    host ← gets (host_at h)
    host_do remote h ("zpool" ∷ "create" ∷ host.volume_group ∷ host.backing_device ∷ [])
  make_pool h raw_pool = pure tt
  make_pool h (spaces_pool thin) = pure tt

  -- The pool for a backend, in `create_storage_pool` of python/disktools.py.
  unfoldable pub pool_for : String → Bool → Option ℕ → Result Pool
  pool_for backend thin granularity =
      if backend == "lvm"
      then ok (lvm_pool thin granularity)
      else if backend == "raw"
      then (if thin then err value_error else ok raw_pool)
      else if backend == "zfs"
      then ok (zfs_pool thin granularity)
      else if backend == "storage-spaces"
      then ok (spaces_pool thin)
      else err not_implemented

  -- `Host.create_storage_pool`
  unfoldable pub create_storage_pool : ℕ → Bool → Option ℕ → Exec World (Unit {0})
  create_storage_pool h thin granularity = do
    host ← gets (host_at h)
    raise_if (is_some host.storage_pool) runtime_error
    pool ← lift (pool_for host.storage_backend thin granularity)
    make_pool h pool
    modify (λ w. set_host h (record (host_at h w) { storage_pool = some pool }) w)

  -- `remove` of the pools.
  unfoldable pub pool_remove : ℕ → Pool → Exec World (Unit {0})
  pool_remove h (lvm_pool thin granularity) w =
      host_do remote h ("vgremove" ∷ "-y" ∷ (host_at h w).volume_group ∷ []) w
  pool_remove h (zfs_pool thin granularity) w =
      host_do remote h ("zpool" ∷ "destroy" ∷ (host_at h w).volume_group ∷ []) w
  pool_remove h raw_pool w =
      host_do remote h ("wipefs" ∷ "-a" ∷ (host_at h w).backing_device ∷ []) w
  pool_remove h (spaces_pool thin) w = (ok tt, w)

  -- `Host.remove_storage_pool`
  unfoldable pub remove_storage_pool : ℕ → Exec World (Unit {0})
  remove_storage_pool h = do
    host ← gets (host_at h)
    pool ← or_raise runtime_error host.storage_pool
    pool_remove h pool
    modify (λ w. set_host h (record (host_at h w) { storage_pool = none }) w)

  udev_settle : ℕ → Exec World (Unit {0})
  udev_settle h = do
    host_do remote h ("udevadm" ∷ "trigger" ∷ [])
    host_do remote h ("udevadm" ∷ "settle" ∷ [])

  unfoldable pub refresh_partitions : ℕ → Exec World (Unit {0})
  unfolding udev_settle
  refresh_partitions h = do
    host ← gets (host_at h)
    host_do remote h ("partx" ∷ "--update" ∷ host.backing_device ∷ [])
    udev_settle h

  module _ (uuid5 : String → String) where
    -- The constructors of the volumes, with the name, the size and the largest size.
    unfoldable pub create_lvm : ℕ → Bool → String → String → Exec World DiskVolume
    create_lvm h thin name size = do
      group ← gets (λ w. (host_at h w).volume_group)
      host_do remote h (
          "lvcreate"
            ∷ "--name"
            ∷ name
            ∷ (if thin
                then "--virtualsize" ∷ size ∷ "--thin" ∷ (group <> "/drbdthinpool") ∷ []
                else "--size" ∷ size ∷ group ∷ [])
          ++ "--wipesignatures" ∷ "y" ∷ "--yes" ∷ [])
      pure (lvm_volume name ("/dev/" <> (group <> ("/" <> name))) size)

    unfoldable pub create_raw : ℕ → String → String → Option String → Exec World DiskVolume
    create_raw h name size max_size = do
      let guid = uuid5 name
      let path = "/dev/disk/by-partuuid/" <> guid
      let start : String = elim max_size [ none ↦ "0" | some m ↦ if m == "" then "0" else "-" <> m ]
      backing ← gets (λ w. (host_at h w).backing_device)
      host_do remote h (
          "sgdisk"
          ∷ ("--new=0:" <> (start <> (":+" <> size)))
          ∷ ("--partition-guid=0:" <> guid)
          ∷ backing
          ∷ [])
      refresh_partitions h
      part ← host_run remote h ("partx" ∷ "--show" ∷ "--output" ∷ "NR" ∷ "--noheadings" ∷ path ∷ [])
      pure (raw_volume backing path guid start part)

    unfoldable pub create_zfs : ℕ → Bool → Option ℕ → String → String → Exec World DiskVolume
    unfolding udev_settle
    create_zfs h thin granularity name size = do
      group ← gets (λ w. (host_at h w).volume_group)
      let dataset = group <> ("/" <> name)
      host_do remote h (
          "zfs" ∷ "create" ∷ "-V" ∷ size ∷ dataset ∷ (if thin then "-s" ∷ [] else [])
          ++ elim granularity [ none ↦ [] | some g ↦ "-o" ∷ ("volblocksize=" <> dec g) ∷ [] ])
      udev_settle h
      pure (zfs_volume dataset)

    unfoldable pub create_spaces : ℕ → Bool → String → String → Exec World DiskVolume
    create_spaces h thin name size = do
      backing ← gets (λ w. (host_at h w).backing_device)
      bytes ← lift (size_in_bytes size)
      host_do remote h (
          "./linstor-wmi-helper"
          ∷ "virtual-disk"
          ∷ "create"
          ∷ backing
          ∷ name
          ∷ dec bytes
          ∷ (if thin then "thin" else "thick")
          ∷ [])
      line ←
          host_run remote h
            ("bash" ∷ "-c" ∷ ("./linstor-wmi-helper virtual-disk list " <> (name <> " 2>&1")) ∷ [])
      part ← or_raise index_error (get_elem? (split 9 line) 4)
      pure (spaces_volume name (drop_braces part))

    -- `create_disk` of the pools.
    unfoldable pub pool_create_disk :
        ℕ → Pool → String → String → Option String → Exec World DiskVolume
    pool_create_disk h (lvm_pool thin granularity) name size max_size = create_lvm h thin name size
    pool_create_disk h raw_pool name size max_size = create_raw h name size max_size
    pool_create_disk h (zfs_pool thin granularity) name size max_size =
        create_zfs h thin granularity name size
    pool_create_disk h (spaces_pool thin) name size max_size = create_spaces h thin name size

    -- `DelayVolume` and `EmulatedBlockSizeVolume`, for the milliseconds and the block size.
    unfoldable pub make_delay : ℕ → String → DiskVolume → ℕ → Exec World DiskVolume
    make_delay h name below ms = do
      sectors ← host_run remote h ("blockdev" ∷ "--getsz" ∷ volume_path below ∷ [])
      host_feed h ("dmsetup" ∷ "create" ∷ (name <> "-delay") ∷ [])
          ("0 " <> (sectors <> (" delay " <> (volume_path below <> (" 0 " <> dec ms)))))
      pure (delay_volume (name <> "-delay") sectors ms below)

    unfoldable pub make_block_size : ℕ → String → DiskVolume → ℕ → Exec World DiskVolume
    make_block_size h name below size = do
      sectors ← host_run remote h ("blockdev" ∷ "--getsz" ∷ volume_path below ∷ [])
      host_feed h ("dmsetup" ∷ "create" ∷ (name <> "-ebs") ∷ [])
          ("0 " <> (sectors <> (" ebs " <> (volume_path below <> (" 0 " <> dec (size / 512))))))
      pure (block_size_volume (name <> "-ebs") sectors size below)

    -- `create_disk` of python/disktools.py; a host without a pool raises in Python.
    unfoldable pub create_disk :
        ℕ → String → String → Option String → Option ℕ → Option ℕ → Exec World DiskVolume
    create_disk h name size max_size delay_ms logical_block_size = do
      pool ← λ w. or_raise runtime_error (host_at h w).storage_pool w
      disk ← pool_create_disk h pool name size max_size
      delayed ← elim delay_ms [ none ↦ pure disk | some ms ↦ make_delay h name disk ms ]
      elim logical_block_size [ none ↦ pure delayed | some b ↦ make_block_size h name delayed b ]

  -- `remove` of the volumes.
  unfoldable pub volume_remove : ℕ → DiskVolume → Exec World (Unit {0})
  volume_remove h (lvm_volume name lv size) = host_do remote h ("lvremove" ∷ "--force" ∷ lv ∷ [])
  volume_remove h (raw_volume backing path guid start part) =
      host_do remote h ("sgdisk" ∷ ("--delete=" <> part) ∷ backing ∷ [])
  volume_remove h (zfs_volume dataset) = host_do remote h ("zfs" ∷ "destroy" ∷ dataset ∷ [])
  volume_remove h (spaces_volume name path) =
      host_do remote h ("./linstor-wmi-helper" ∷ "virtual-disk" ∷ "delete" ∷ name ∷ [])
  volume_remove h (delay_volume name sectors ms below) =
      let rest = volume_remove h below in
      host_do remote h ("dmsetup" ∷ "remove" ∷ name ∷ []) >>= λ _. rest
  volume_remove h (block_size_volume name sectors size below) =
      let rest = volume_remove h below in
      host_do remote h ("dmsetup" ∷ "remove" ∷ name ∷ []) >>= λ _. rest

  -- `resize` of the volumes; those of the device mapper do not implement it.
  unfoldable pub volume_resize : ℕ → DiskVolume → String → Exec World (Unit {0})
  volume_resize h (lvm_volume name lv old) size =
      host_do remote h ("lvresize" ∷ "-L" ∷ size ∷ lv ∷ [])
  volume_resize h (raw_volume backing path guid start part) size = do
    host_do remote h (
        "sgdisk"
        ∷ ("--delete=" <> part)
        ∷ ("--new=" <> (part <> (":" <> (start <> (":+" <> size)))))
        ∷ ("--partition-guid=" <> (part <> (":" <> guid)))
        ∷ backing
        ∷ [])
    refresh_partitions h
  volume_resize h (zfs_volume dataset) size =
      host_do remote h ("zfs" ∷ "set" ∷ ("volsize=" <> size) ∷ dataset ∷ [])
  volume_resize h (spaces_volume name path) size = do
    bytes ← lift (size_in_bytes size)
    host_do remote h ("./linstor-wmi-helper" ∷ "virtual-disk" ∷ "resize" ∷ name ∷ dec bytes ∷ [])
  volume_resize h (delay_volume name sectors ms below) size = raise not_implemented
  volume_resize h (block_size_volume name sectors block below) size = raise not_implemented

  -- `_drbdmeta_supports_uuid_options`; that a host keeps the answer is not modelled.
  unfoldable pub supports_uuid_options : ℕ → Exec World Bool
  supports_uuid_options n w =
      (host_run remote (node_at n w).host (
            "bash" ∷ "-c"
            ∷ "drbdmeta - v09 /dev/null internal create-md 3 --initial-current-uuid 2>&1 || true"
            ∷ [])
          >>= λ out. pure (is_some (find? out "requires an argument")))
        w

  flag : Bool → String → List String
  flag c s = if c then s ∷ [] else []

  -- `create_md` of python/disktools.py
  unfoldable pub create_md :
      ℕ → ℕ → ℕ → Option ℕ → String → Bool → Bool → Bool → Bool → Exec World (Unit {0})
  unfolding flag
  create_md n volume max_peers bitmap_block_size uuid consistent uptodate outdated rotate = do
    host ← gets (host_of n)
    resource ← gets (λ w. (resource_of n w).name)
    raise_if (is_some bitmap_block_size && not (version_ge host.drbd_version_tuple (9, 3, 0)))
        assertion_error
    supported ←
        if not (uuid == "") || (consistent || (uptodate || (outdated || rotate)))
        then supports_uuid_options n
        else pure true
    raise_if (not supported) runtime_error
    drbdadm remote n (
        "create-md"
          ∷ "--force"
          ∷ (resource <> ("/" <> dec volume))
          ∷ flag (is_drbd9 host) ("--max-peers=" <> dec max_peers)
        ++ elim bitmap_block_size [ none ↦ [] | some b ↦ ("--bitmap-block-size=" <> dec b) ∷ [] ]
        ++ flag (not (uuid == "")) ("--initial-current-uuid=" <> uuid)
        ++ flag consistent "--consistent"
        ++ flag uptodate "--uptodate"
        ++ flag outdated "--peers-outdated"
        ++ flag rotate "--rotate-uuids")
