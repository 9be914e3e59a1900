-- ===== src/Framework/Metadata.antt =====
-- What a node tells of the state and the metadata of DRBD: `get_current_uuid`, `get_disk_bitmap_uuid` and
-- their like of python/drbdtest.py, `twopc_tid`, `protocol_version`, and the injection of faults.
use drbd9_tests.Prelude.{
  ℕ, ◌^◌, Bool, ◌||◌, Option, none, some, [], ◌∷◌, String, ◌<>◌, ◌==◌, nat_eq, leb, ◌&&◌, string_eq,
  get_elem?, if◌then◌else◌,
}
use drbd9_tests.Prelude.Text.{dec, split}
use drbd9_tests.Prelude.Decimal.{is_decimal, is_digit, to_int}
use drbd9_tests.Prelude.Match.{drop_prefix, span, find_number, upper}
use drbd9_tests.Results.{Result, ok, err, attribute_error, index_error}
use drbd9_tests.Exec.{Exec, pure, gets, lift, or_raise, ◌>>=◌}
use drbd9_tests.Framework.World.{Volume, World, Remote, node_at, host_of, resource_of}
use drbd9_tests.Framework.Config.{path_or}
use drbd9_tests.Framework.Run.{node_run, node_do, drbd_global_config_file_path}
use drbd9_tests.Framework.Hosts.{run_helper}
use drbd9_tests.Framework.Json.{Json, text, member, element}

is_space : ℕ → Bool
is_space c = c == 32 || (leb 9 c && leb c 13)

-- `int(re.match(r'\s*agreed_pro_version: ([0-9]+)', s).group(1))`
unfoldable pub match_protocol : String → Option ℕ
unfolding is_space
match_protocol s = elim (drop_prefix "agreed_pro_version: " (span is_space s).1) [
  | none ↦ none
  | some rest ↦
      let digits = (span is_digit rest).0 in
      if is_decimal digits then some (to_int 0 digits) else none
]

-- `Node._uuid_from_raw`
unfoldable pub uuid_from_raw : String → String
uuid_from_raw raw = elim (drop_prefix "0x" raw) [
  | some rest ↦ upper rest
  | none ↦ elim (drop_prefix "0X" raw) [ some rest ↦ upper rest | none ↦ upper raw ]
]

-- Other values than texts have no `startswith`.
uuid_of : Json → Result String
unfolding uuid_from_raw
uuid_of (text raw) = ok (uuid_from_raw raw)
uuid_of other = err attribute_error

module _ (remote : Remote) where
  -- `Connection.protocol_version`
  unfoldable pub protocol_version : ℕ × ℕ → Exec World ℕ
  unfolding match_protocol
  protocol_version (n, m) = do
    resname ← gets (λ w. (resource_of n w).name)
    peer_name ← gets (λ w. (node_at m w).name)
    out ← node_run remote n (
        "sh"
        ∷ "-c"
        ∷ ("grep agreed_pro_version: /sys/kernel/debug/drbd/resources/"
            <> (resname <> ("/connections/" <> (peer_name <> "*/debug"))))
        ∷ [])
    or_raise attribute_error (match_protocol out)

  -- `Node.twopc_tid`
  unfoldable pub twopc_tid : ℕ → Exec World (Option ℕ)
  twopc_tid n = do
    name ← gets (λ w. (resource_of n w).name)
    out ←
        node_run remote n
          ("cat" ∷ ("/sys/kernel/debug/drbd/resources/" <> (name <> "/state_twopc")) ∷ [])
    pure (find_number "Executing tid: " out)

  -- `Node.dump_md_to_file`
  unfoldable pub dump_md_to_file : ℕ → String → Exec World (Unit {0})
  dump_md_to_file n filename = do
    path ← gets (λ w. drbd_global_config_file_path w (host_of n w))
    name ← gets (λ w. (resource_of n w).name)
    node_do remote n (
        "/bin/bash"
        ∷ "-c"
        ∷ ("drbdadm -c " <> (path <> (" dump-md " <> (name <> (" > " <> filename)))))
        ∷ [])

  -- `drbdsetup get-gi`, the part at a position
  unfoldable pub get_gi : ℕ → ℕ → ℕ → ℕ → Exec World String
  get_gi n peer_node volume_nr i = do
    name ← gets (λ w. (resource_of n w).name)
    id ← gets (λ w. (node_at peer_node w).id)
    out ← node_run remote n ("drbdsetup" ∷ "get-gi" ∷ name ∷ dec id ∷ dec volume_nr ∷ [])
    or_raise index_error (get_elem? (split 58 out) i)

  unfoldable pub get_current_uuid : ℕ → ℕ → ℕ → Exec World String
  unfolding get_gi
  get_current_uuid n peer_node volume_nr = get_gi n peer_node volume_nr 0

  unfoldable pub get_bitmap_uuid : ℕ → ℕ → ℕ → Exec World String
  unfolding get_gi
  get_bitmap_uuid n peer_node volume_nr = get_gi n peer_node volume_nr 1

  module _ (loads : String → Result Json) where
    -- `Node._dump_superblock(self.disks[volume_nr])`
    unfoldable pub dump_superblock : ℕ → ℕ → Exec World Json
    dump_superblock n volume_nr = do
      v ← (λ w. or_raise index_error (get_elem? (node_at n w).disks volume_nr) w)
      out ← node_run remote n (
          "drbdmeta"
          ∷ "--force"
          ∷ "-"
          ∷ "v09"
          ∷ path_or "None" v.disk_volume
          ∷ "internal"
          ∷ "dump-superblock"
          ∷ "--output-format"
          ∷ "json"
          ∷ [])
      lift (loads out)

    unfoldable pub get_disk_current_uuid : ℕ → ℕ → Exec World String
    unfolding dump_superblock uuid_of
    get_disk_current_uuid n volume_nr = do
      data_read ← dump_superblock n volume_nr
      raw ← lift (member "current_uuid" data_read)
      lift (uuid_of raw)

    unfoldable pub get_disk_bitmap_uuid : ℕ → ℕ → ℕ → Exec World String
    unfolding dump_superblock uuid_of
    get_disk_bitmap_uuid n peer_node volume_nr = do
      id ← gets (λ w. (node_at peer_node w).id)
      data_read ← dump_superblock n volume_nr
      peers ← lift (member "peers" data_read)
      peer ← lift (element id peers)
      raw ← lift (member "bitmap_uuid" peer)
      lift (uuid_of raw)

  module _ (files : String → Option String) where
    -- `Node.set_fault_injection` and `Node.disable_fault_injection`
    unfoldable pub set_fault_injection : ℕ → Volume → ℕ → Exec World (Unit {0})
    set_fault_injection n v faults = do
      h ← gets (λ w. (node_at n w).host)
      _ ←
          run_helper remote files h "enable-faults"
            (("--faults=" <> dec faults) ∷ "--rate=100" ∷ ("--devs=" <> dec (2 ^ v.minor)) ∷ [])
      pure tt

    unfoldable pub disable_fault_injection : ℕ → Volume → Exec World (Unit {0})
    disable_fault_injection n v = do
      h ← gets (λ w. (node_at n w).host)
      _ ← run_helper remote files h "disable-faults" (("--devs=" <> dec (2 ^ v.minor)) ∷ [])
      pure tt
