-- ===== src/Framework/Devices.antt =====
-- The devices of volumes on the two platforms: the volume helpers and the node helpers of
-- python/linuxplatformhelper.py and python/windowsplatformhelper.py. A volume is given by its node and its position
-- among the volumes of that node.
pub mod Data
pub mod Checksums
pub mod Fio
pub mod Load
use drbd9_tests.Prelude.{
  ℕ, zero, suc, ◌+◌, Bool, true, false, not, ◌&&◌, ◌||◌, Option, none, some, List, [], ◌∷◌, ◌++◌,
  String, ◌<>◌, ◌==◌, nat_eq, string_eq, ltb, get_elem?, set, if◌then◌else◌,
}
use drbd9_tests.Prelude.Text.{dec}
use drbd9_tests.Prelude.Decimal.{is_decimal, to_int}
use drbd9_tests.Prelude.Match.{drop_prefix}
use drbd9_tests.Results.{
  Error, Result, ok, err, runtime_error, value_error, type_error, attribute_error, name_error,
}
use drbd9_tests.Exec.{Exec, pure, raise, lift, gets, modify, raise_if, when, for_each, ◌>>=◌, ◌>>◌}
use drbd9_tests.Framework.World.{
  Host, Node, Volume, World, Remote, node_at, host_of, set_node, or_default, host_run,
}
use drbd9_tests.Framework.Config.{volume_path}
use drbd9_tests.Framework.Run.{node_run, node_do}
use drbd9_tests.Framework.Peers.{primary, secondary}

abbrev no_volume : Volume
no_volume = record {
  volume = 0;
  minor = 0;
  disk_lv = none;
  meta_lv = none;
  disk_volume = none;
  meta_volume = none;
  tiebreaker = none;
  disk_is_online = false;
}

abbrev pub volume_at : ℕ → ℕ → World → Volume
volume_at n i w = or_default no_volume (get_elem? (node_at n w).disks i)

abbrev pub set_online : ℕ → ℕ → Bool → World → World
set_online n i online w =
    let node = node_at n w in
    set_node n
      (record node {
        disks = set node.disks i (record (volume_at n i w) { disk_is_online = online });
      })
      w

abbrev pub linux_node : ℕ → Exec World Bool
linux_node n = gets (λ w. (host_of n w).is_linux)

-- `WindowsPlatformHelper.powershell_get_disk`
unfoldable pub powershell_get_disk : ℕ → String
powershell_get_disk minor =
    "\n            $j = 0\n            do {\n                $j = $j+1\n                $mydisk = Get-Disk | where { $_.Path -like \"*#WinDRBD{0}#*\" -f "
    <> (dec minor
        <> " }\n                if ( $mydisk ) { break }\n                sleep 1\n            } while ( $j -lt 30 )\n            if ( ! $mydisk ) {\n                echo \"Disk did not come up within 30 seconds.\"\n                exit 42\n            }\n        ")

-- The letter of the disk with the number; the number after `z` gives the next character.
unfoldable pub disk_path : ℕ → Result String
disk_path number =
    if ltb 26 number || number == 0
    then err runtime_error
    else ok (
        "/dev/sd"
        <> or_default "" (
            get_elem?
              ("a" ∷ "b" ∷ "c" ∷ "d" ∷ "e" ∷ "f" ∷ "g" ∷ "h" ∷ "i" ∷ "j" ∷ "k" ∷ "l" ∷ "m" ∷ "n"
                ∷ "o" ∷ "p" ∷ "q" ∷ "r" ∷ "s" ∷ "t" ∷ "u" ∷ "v" ∷ "w" ∷ "x" ∷ "y" ∷ "z" ∷ "{" ∷ [])
              number))

-- `int(...)` of the answer and the checks; a negative number is out of range. Of what `int` reads, digits and a minus
-- sign are modelled.
unfoldable pub windows_disk : String → Result String
unfolding disk_path is_decimal
windows_disk text =
    if is_decimal text then disk_path (to_int 0 text) else elim (drop_prefix "-" text) [
      | none ↦ err value_error
      | some digits ↦ if is_decimal digits then err runtime_error else err value_error
    ]

abbrev pub positions : ℕ → List Volume → List ℕ
positions i [] = []
positions i (v ∷ vs) = i ∷ positions (suc i) vs

module _ (remote : Remote) where
  -- `WindowsPlatformHelper.run_powershell_on_disk`
  unfoldable pub run_powershell_on_disk : ℕ → ℕ → String → Exec World String
  unfolding powershell_get_disk
  run_powershell_on_disk n i command = do
    minor ← gets (λ w. (volume_at n i w).minor)
    node_run remote n ("powershell" ∷ "-command" ∷ (powershell_get_disk minor <> command) ∷ [])

  unfoldable powershell : ℕ → ℕ → String → Exec World (Unit {0})
  unfolding run_powershell_on_disk
  powershell n i command = do _ ← run_powershell_on_disk n i command; pure tt

  -- `Volume.device`
  unfoldable pub device : ℕ → ℕ → Exec World String
  unfolding run_powershell_on_disk windows_disk
  device n i = do
    is_linux ← linux_node n
    minor ← gets (λ w. (volume_at n i w).minor)
    if is_linux then pure ("/dev/drbd" <> dec minor) else do
      number ←
          run_powershell_on_disk n i
            "\n            $ProgressPreference = \"SilentlyContinue\"\n            $mydisk.Number\n        "
      lift (windows_disk number)

  -- `Volume.disk_native`; on Linux the helper calls the value of a property, which is no function.
  unfoldable pub disk_native : ℕ → ℕ → Exec World (Option String)
  disk_native n i = do
    is_linux ← linux_node n
    v ← gets (volume_at n i)
    raise_if is_linux type_error
    elim v.disk_volume [
      | none ↦ pure none
      | some d ↦ pure (some ("\\\\.\\Volume{" <> (volume_path d <> "}")))
    ]

  -- `Host.native_filename`
  unfoldable pub native_filename : ℕ → String → Exec World String
  native_filename n filename = do
    is_linux ← linux_node n
    h ← gets (λ w. (node_at n w).host)
    if is_linux then pure filename else host_run remote h ("cygpath" ∷ "-w" ∷ filename ∷ [])

  -- `Volume.set_disk_online` and `Volume.set_disk_offline`, which do nothing on Linux
  unfoldable pub set_disk_online : ℕ → ℕ → Exec World (Unit {0})
  unfolding powershell
  set_disk_online n i = do
    is_linux ← linux_node n
    online ← gets (λ w. (volume_at n i w).disk_is_online)
    when (not is_linux) do
      when (not online) (
          powershell n i
            "\n                $ProgressPreference = \"SilentlyContinue\"\n                $mydisk | set-disk -IsOffline $false\n                $ProgressPreference = \"SilentlyContinue\"\n                $mydisk | set-disk -IsReadonly $false\n            ")
      modify (set_online n i true)

  unfoldable pub set_disk_offline : ℕ → ℕ → Exec World (Unit {0})
  unfolding powershell
  set_disk_offline n i = do
    is_linux ← linux_node n
    when (not is_linux) do
      powershell n i
          "\n            $ProgressPreference = \"SilentlyContinue\"\n            $mydisk | set-disk -IsOffline $true\n        "
      modify (set_online n i false)

  -- `Volume.mkfs`
  unfoldable pub mkfs : ℕ → ℕ → Exec World (Unit {0})
  unfolding powershell device
  mkfs n i = do
    is_linux ← linux_node n
    if is_linux
        then (do dev ← device n i; node_do remote n ("mkfs" ∷ "-t" ∷ "ext4" ∷ dev ∷ []))
        else powershell n i
            "\n            $ProgressPreference = \"SilentlyContinue\"\n            $mydisk | Initialize-Disk -passthru -PartitionStyle MBR |  New-Partition -UseMaximumSize | format-volume\n        "

  -- `Volume.mount` and `Volume.umount`
  unfoldable access_path : ℕ → ℕ → String → String → Exec World (Unit {0})
  unfolding powershell native_filename
  access_path n i command filename = do
    native ← native_filename n filename
    powershell n i (
        "\n            $ProgressPreference = \"SilentlyContinue\"\n            $mydisk | Get-Partition | "
        <> (command <> (" -AccessPath \"" <> (native <> "\"\n        "))))

  unfoldable pub mount : ℕ → ℕ → String → Exec World (Unit {0})
  unfolding access_path device
  mount n i filename = do
    is_linux ← linux_node n
    if is_linux
        then (do dev ← device n i; node_do remote n ("mount" ∷ dev ∷ filename ∷ []))
        else access_path n i "Add-PartitionAccessPath" filename

  unfoldable pub umount : ℕ → ℕ → String → Bool → Exec World (Unit {0})
  unfolding access_path set_disk_offline
  umount n i filename set_offline = do
    is_linux ← linux_node n
    if is_linux then node_do remote n ("umount" ∷ filename ∷ []) else do
      access_path n i "Remove-PartitionAccessPath" filename
      when set_offline (set_disk_offline n i)

  -- `Volume.wipe_ntfs`
  unfoldable pub wipe_ntfs : ℕ → ℕ → Exec World (Unit {0})
  unfolding device set_disk_online set_disk_offline
  wipe_ntfs n i = do
    is_linux ← linux_node n
    when (not is_linux) do
      dev ← device n i
      node_do remote n ("dd" ∷ "if=/dev/zero" ∷ ("of=" <> dev) ∷ "count=128" ∷ [])
      set_disk_offline n i
      set_disk_online n i

  -- What follows `drbdadm primary` in `Node.primary`, and both.
  unfoldable pub after_becoming_primary : ℕ → Exec World (Unit {0})
  unfolding set_disk_online
  after_becoming_primary n = do
    is_linux ← linux_node n
    all_positions ← gets (λ w. positions 0 (node_at n w).disks)
    when (not is_linux) (for_each all_positions (set_disk_online n))

  -- The rule for the port of a node that is made on Windows.
  unfoldable pub init_node : ℕ → Exec World (Unit {0})
  init_node n = do
    is_linux ← linux_node n
    h ← gets (λ w. (node_at n w).host)
    port ← gets (λ w. dec (node_at n w).port)
    when (not is_linux) do
      _ ← host_run remote h (
          "netsh"
          ∷ "advfirewall"
          ∷ "firewall"
          ∷ "add"
          ∷ "rule"
          ∷ ("name=DRBDTest" <> port)
          ∷ "protocol=tcp"
          ∷ "dir=in"
          ∷ ("localport=" <> port)
          ∷ "action=allow"
          ∷ [])
      pure tt

  -- One attempt of `prepare_auto_promote` or `cleanup_auto_demote` on Windows. The second attempt is never made,
  -- since the module `time` that the wait between them needs is not imported.
  unfoldable pub attempt : Exec World (Unit {0}) → Exec World (Unit {0})
  attempt m w = let (r, t) = m w in elim r [ ok a ↦ (ok a, t) | err e ↦ (err name_error, t) ]

  unfoldable pub become_primary : ℕ → Bool → Bool → Exec World (Unit {0})
  unfolding after_becoming_primary
  become_primary n force wait = do primary remote n force wait; after_becoming_primary n

  unfoldable pub prepare_auto_promote : ℕ → Exec World (Unit {0})
  unfolding attempt become_primary
  prepare_auto_promote n = do
    is_linux ← linux_node n
    when (not is_linux) (attempt (become_primary n false false))

  unfoldable pub cleanup_auto_demote : ℕ → Exec World (Unit {0})
  unfolding attempt
  cleanup_auto_demote n = do
    is_linux ← linux_node n
    when (not is_linux) (attempt (secondary remote n false false))
