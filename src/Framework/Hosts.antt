-- ===== src/Framework/Hosts.antt =====
-- Hosts of python/drbdtest.py and their two platforms, python/linuxplatformhelper.py and
-- python/windowsplatformhelper.py: how a host is reached and prepared, its DRBD version, the helpers that run on
-- it, and what unloads DRBD. The files of target/ are a parameter, and so is whether an SSH
-- connection is made. What a host logs is not followed while it runs.
pub mod Output
pub mod Names
pub mod Unload
pub mod Addresses
use drbd9_tests.Prelude.{
  ℕ, zero, suc, ◌≡◌, refl, Bool, true, false, not, ◌&&◌, ◌||◌, Option, none, some, List, [], ◌∷◌,
  ◌++◌, map, String, ◌<>◌, ◌==◌, string_eq, nat_eq, get_elem?, length, is_some, if◌then◌else◌,
}
use drbd9_tests.Prelude.Text.{split}
use drbd9_tests.Prelude.Dict.{Dict, insert}
use drbd9_tests.Prelude.Match.{split_lines, upper, drop_prefix}
use drbd9_tests.Results.{
  Error, Result, ok, err, called_process, runtime_error, index_error, value_error, os_error,
  attribute_error,
}
use drbd9_tests.Exec.{
  Exec, pure, raise, lift, gets, modify, or_raise, raise_if, when, for_each, pass_called, pass_all,
  ◌>>=◌, ◌>>◌,
}
use drbd9_tests.Framework.World.{
  Host, World, Remote, Command, host_at, set_host, no_host, or_default, version_ge, is_drbd9, send,
  host_run, host_do, host_feed, host_outside, host_try,
}
use drbd9_tests.Framework.Hosts.Output.{
  match_version, match_hash, match_numbers, match_address, source_address,
}

abbrev pub change_host : ℕ → (Host → Host) → Exec World (Unit {0})
change_host h f = modify (λ w. set_host h (f (host_at h w)) w)

unfoldable pub set_version : ℕ → String → Exec World (Unit {0})
set_version h version = change_host h (λ x. record x { drbd_version = version })

unfoldable pub set_hash : ℕ → String → Exec World (Unit {0})
set_hash h hash = change_host h (λ x. record x { drbd_git_hash = hash })

unfoldable pub set_numbers : ℕ → Exec World (Unit {0})
unfolding match_numbers
set_numbers h = do
  version ← gets (λ w. (host_at h w).drbd_version)
  numbers ← or_raise attribute_error (match_numbers version)
  change_host h (λ x. record x { drbd_version_tuple = numbers })

-- The addresses of a host besides its own, as `init_host` reads them line by line.
abbrev pub Netdevs : Type 0
Netdevs = Dict String (String × String)

unfoldable pub read_addresses :
    String → Bool → List String → List String × Netdevs → List String × Netdevs
unfolding match_address insert
read_addresses own multi_paths [] acc = acc
read_addresses own multi_paths (line ∷ lines) (addrs, devs) = elim (match_address line) [
  | none ↦ read_addresses own multi_paths lines (addrs, devs)
  | some found ↦
      let (device, (addr, prefix)) = found in
      if addr == "127.0.0.1" || addr == own
      then read_addresses own multi_paths lines (addrs, devs)
      else read_addresses own multi_paths lines
          (if multi_paths then addrs ++ addr ∷ [] else addrs, insert device (addr, prefix) devs)
]

unfoldable pub init_iptables : List String
init_iptables =
    "bash" ∷ "--norc" ∷ "-xec"
    ∷ "iptables -F drbd-test-input || iptables -N drbd-test-input\niptables -F drbd-test-output || iptables -N drbd-test-output\niptables -I INPUT -j drbd-test-input\niptables -I OUTPUT -j drbd-test-output"
    ∷ []

-- The addresses of the network devices, for a host in a namespace.
abbrev pub device_addrs : Netdevs → List String
device_addrs [] = []
device_addrs ((device, (addr, prefix)) ∷ devs) = addr ∷ device_addrs devs

-- `uname.startswith("CYGWIN")`, or no platform that there is
unfoldable pub not_linux : ℕ → Option String → Exec World (Unit {0})
not_linux h none = raise runtime_error
not_linux h (some rest) = change_host h (λ x. record x { is_linux = false })

module _ (remote : Remote) where
  -- `Host.ensure_netdev`
  unfoldable pub ensure_device :
      ℕ → Option String → String × (String × String) → Exec World (Unit {0})
  unfolding pass_called
  ensure_device h netns (device, (addr, prefix)) = do
    let base : List String = elim netns [ none ↦ "ip" ∷ [] | some ns ↦ "ip" ∷ "-netns" ∷ ns ∷ [] ]
    elim netns [
      | none ↦ pure tt
      | some ns ↦ host_outside remote h ("ip" ∷ "link" ∷ "set" ∷ "dev" ∷ device ∷ "netns" ∷ ns ∷ [])
    ]
    pass_called (
        host_outside remote h
          (base ++ "addr" ∷ "add" ∷ (addr <> ("/" <> prefix)) ∷ "dev" ∷ device ∷ []))
    host_outside remote h (base ++ "link" ∷ "set" ∷ "dev" ∷ device ∷ "up" ∷ [])

  unfoldable pub ensure_netdev : ℕ → Option String → Exec World (Unit {0})
  unfolding ensure_device
  ensure_netdev h netns = do
    devices ← gets (λ w. (host_at h w).netdevs)
    for_each devices (ensure_device h netns)

  -- `LinuxPlatformHelper.read_drbd_version`
  unfoldable pub linux_read_version : ℕ → Exec World (Unit {0})
  unfolding set_version set_hash set_numbers
  linux_read_version h = do
    host_do remote h ("bash" ∷ "-c" ∷ "cat /proc/drbd > /dev/kmsg || modprobe drbd" ∷ [])
    out ← host_run remote h ("cat" ∷ "/proc/drbd" ∷ [])
    version_line ← or_raise index_error (get_elem? (split_lines out) 0)
    hash_line ← or_raise index_error (get_elem? (split_lines out) 1)
    version ← or_raise attribute_error (match_version version_line)
    set_version h version
    hash ← or_raise attribute_error (match_hash hash_line)
    set_hash h hash
    set_numbers h

  -- `WindowsPlatformHelper.read_drbd_version`, line by line
  unfoldable pub windows_version_line : ℕ → String → Exec World (Unit {0})
  unfolding set_version set_hash split
  windows_version_line h line = do
    let fields = split b'=' line
    let key = or_default "" (get_elem? fields 0)
    when (key == "DRBD_KERNEL_VERSION")
        (or_raise index_error (get_elem? fields 1) >>= set_version h)
    when (key == "WINDRBD_VERSION") (or_raise index_error (get_elem? fields 1) >>= set_hash h)

  unfoldable pub windows_read_version : ℕ → Exec World (Unit {0})
  unfolding windows_version_line set_numbers
  windows_read_version h = do
    out ← host_run remote h ("drbdadm" ∷ "--version" ∷ [])
    for_each (split_lines out) (windows_version_line h)
    set_numbers h

  -- `Host.read_drbd_version`
  unfoldable pub read_drbd_version : ℕ → Exec World (Unit {0})
  unfolding linux_read_version windows_read_version
  read_drbd_version h = do
    is_linux ← gets (λ w. (host_at h w).is_linux)
    if is_linux then linux_read_version h else windows_read_version h

  -- `get_default_addr`
  unfoldable pub get_default_addr : ℕ → Exec World String
  get_default_addr h = do
    out ← host_run remote h ("ip" ∷ "-4" ∷ "route" ∷ "get" ∷ "1" ∷ [])
    lift (source_address out)

  -- The part of `LinuxPlatformHelper.init_host` for a network namespace.
  unfoldable pub enter_netns : ℕ → String → Exec World (Unit {0})
  unfolding ensure_netdev
  enter_netns h ns = do
    devs ← gets (λ w. (host_at h w).netdevs)
    raise_if (length devs == 0) runtime_error
    change_host h (λ x. record x { addrs = [] })
    host_do remote h ("ip" ∷ "netns" ∷ "add" ∷ ns ∷ [])
    change_host h (λ x. record x { addrs = device_addrs devs })
    raise_if (length (device_addrs devs) == 0) runtime_error
    host_do remote h init_iptables
    change_host h (λ x. record x { netns = some ns })
    ensure_netdev h (some ns)

  -- `LinuxPlatformHelper.init_host`; a namespace has a name.
  unfoldable pub linux_init_host :
      ℕ → String → String → Bool → Option String → Exec World (Unit {0})
  unfolding enter_netns read_addresses get_default_addr
  linux_init_host h storage_backend backing_device multi_paths netns = do
    change_host h (λ x. record x {
      storage_backend = storage_backend;
      backing_device = backing_device;
      drbd_config_dir = "/var/lib/drbd-test";
    })
    os ← host_run remote h ("bash" ∷ "-c" ∷ ". /etc/os-release ; echo $ID ; echo $VERSION_ID" ∷ [])
    let fields = split_lines os
    raise_if (not (length fields == 2)) value_error
    id ← or_raise value_error (get_elem? fields 0)
    version ← or_raise value_error (get_elem? fields 1)
    change_host h (λ x. record x { os_id = id; os_version_id = version })
    addr ← get_default_addr h
    change_host h (λ x. record x { addr = addr; addrs = addr ∷ [] })
    addresses ← host_run remote h ("ip" ∷ "-oneline" ∷ "addr" ∷ "show" ∷ [])
    change_host h (λ x.
        let (addrs, devs) =
          read_addresses x.addr multi_paths (split_lines addresses) (x.addrs, x.netdevs) in
        record x { addrs = addrs; netdevs = devs })
    devs ← gets (λ w. (host_at h w).netdevs)
    raise_if (multi_paths && length devs == 0) runtime_error
    elim netns [ none ↦ pure tt | some ns ↦ enter_netns h ns ]
    host_do remote h init_iptables

  -- `WindowsPlatformHelper.init_host`
  unfoldable pub windows_init_host : ℕ → Bool → Option String → Exec World (Unit {0})
  windows_init_host h multi_paths netns = do
    raise_if multi_paths runtime_error
    raise_if (is_some netns) runtime_error
    change_host h (λ x. record x {
      storage_backend = "storage-spaces";
      backing_device = "scratch";
      drbd_config_dir = "/cygdrive/c/WinDRBD/var/lib/drbd-test";
      os_id = "Windows";
    })
    uname ← host_run remote h ("uname" ∷ [])
    version ← or_raise index_error (get_elem? (split b'_' uname) 1)
    change_host h (λ x. record x { os_version_id = version })
    addr ← host_run remote h (
        "powershell" ∷ "-command"
        ∷ "(Get-NetIPConfiguration | Where-Object { $_.IPv4DefaultGateway } | Select-Object -First 1).IPv4Address.IPAddress"
        ∷ [])
    change_host h (λ x. record x { addr = addr; addrs = addr ∷ [] })

  -- `LinuxPlatformHelper.rmmod`: after a failure the references are shown and the error goes on.
  unfoldable pub show_references : ℕ → Result (Unit {0}) × World → Result (Unit {0}) × World
  show_references h (ok a, t) = (ok a, t)
  show_references h (err (called_process status), t) =
      (do
        _ ← host_try remote h ("cat" ∷ "/sys/kernel/debug/drbd/reference_counts" ∷ [])
        raise (called_process status))
        t
  show_references h (err e, t) = (err e, t)

  unfoldable pub linux_rmmod : ℕ → Exec World (Unit {0})
  unfolding show_references pass_all
  linux_rmmod h = do
    nine ← gets (λ w. is_drbd9 (host_at h w))
    when nine (
        for_each ("drbd_transport_tcp" ∷ "drbd_transport_lb-tcp" ∷ "drbd_transport_rdma" ∷ [])
          (λ module_name. pass_all (host_do remote h ("rmmod" ∷ module_name ∷ []))))
    λ w. show_references h (host_do remote h ("rmmod" ∷ "drbd" ∷ []) w)

  -- `Host.rmmod`, where `--no-rmmod` was not given
  unfoldable pub rmmod : Bool → ℕ → Exec World (Unit {0})
  unfolding linux_rmmod
  rmmod no_rmmod h = do
    is_linux ← gets (λ w. (host_at h w).is_linux)
    when (not no_rmmod && is_linux) (linux_rmmod h)

  module _ (files : String → Option String) where
    -- `Host.install_file`, `Host.install_helper` and `Host.run_helper`
    unfoldable pub install_file : ℕ → String → String → Exec World (Unit {0})
    install_file h file_path target_path = do
      text ← or_raise os_error (files file_path)
      host_feed remote h ("bash" ∷ "-c" ∷ ("cat > " <> target_path) ∷ []) text

    unfoldable pub install_helper : ℕ → String → String → Exec World (Unit {0})
    install_helper h helper_name target_path = do
      text ← or_raise os_error (files ("target/" <> helper_name))
      host_feed remote h
          ("bash" ∷ "-c" ∷ ("cat > " <> (target_path <> (" && chmod +x " <> target_path))) ∷ [])
          text

    unfoldable pub run_helper : ℕ → String → List String → Exec World String
    unfolding install_helper
    run_helper h helper_name args = do
      install_helper h helper_name ("/tmp/" <> helper_name)
      host_run remote h (("/tmp/" <> helper_name) ∷ args)

    -- `Host.disable_faults`
    unfoldable pub disable_faults : ℕ → Exec World (Unit {0})
    unfolding run_helper
    disable_faults h = do
      is_linux ← gets (λ w. (host_at h w).is_linux)
      if is_linux then (do _ ← run_helper h "disable-faults" []; pure tt) else pure tt

  -- `Host.get_platform_helper`; the status of the command is not looked at.
  unfoldable pub get_platform_helper : ℕ → Exec World (Unit {0})
  unfolding upper drop_prefix not_linux
  get_platform_helper h = do
    out ← send remote true (record { host = h; netns = none; argv = "uname" ∷ []; stdin = "" })
    let uname = upper out
    if uname == "LINUX"
        then change_host h (λ x. record x { is_linux = true })
        else not_linux h (drop_prefix "CYGWIN" uname)
