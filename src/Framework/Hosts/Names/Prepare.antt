-- ===== src/Framework/Hosts/Names/Prepare.antt =====
-- The preparation of a host and the helpers leave the names of the hosts alone.
use drbd9_tests.Prelude.{ℕ, Bool, Option, none, some, List, String, ap}
use drbd9_tests.Framework.World.{Remote}
use drbd9_tests.Framework.Hosts.{
  ensure_device, ensure_netdev, get_default_addr, enter_netns, linux_init_host, windows_init_host,
  not_linux, linux_rmmod, rmmod, install_helper, run_helper, disable_faults, get_platform_helper,
}
use drbd9_tests.Framework.Hosts.Names.{KeepsNames, host_names, steps_keep_names}
use drbd9_tests.Framework.Hosts.Unload.{linux_rmmod-outcome}

module _ (remote : Remote) where
  ensure_device-KeepsNames :
      (h : ℕ) (netns : Option String) (d : String × (String × String))
      → KeepsNames (ensure_device remote h netns d)
  unfolding ensure_device
  ensure_device-KeepsNames h none (device, (addr, prefix)) = search (steps_keep_names) depth 20
  ensure_device-KeepsNames h (some ns) (device, (addr, prefix)) = search (steps_keep_names) depth 20

  ensure_netdev-KeepsNames :
      (h : ℕ) (netns : Option String) → KeepsNames (ensure_netdev remote h netns)
  unfolding ensure_netdev
  ensure_netdev-KeepsNames h netns = search (steps_keep_names, ensure_device-KeepsNames) depth 20

  enter_netns-KeepsNames : (h : ℕ) (ns : String) → KeepsNames (enter_netns remote h ns)
  unfolding enter_netns
  enter_netns-KeepsNames h ns = search (steps_keep_names, ensure_netdev-KeepsNames) depth 20

  get_default_addr-KeepsNames : (h : ℕ) → KeepsNames (get_default_addr remote h)
  unfolding get_default_addr
  get_default_addr-KeepsNames h = search (steps_keep_names)

  pub linux_init_host-KeepsNames :
      (h : ℕ) (backend device : String) (multi_paths : Bool) (netns : Option String)
      → KeepsNames (linux_init_host remote h backend device multi_paths netns)
  unfolding linux_init_host
  linux_init_host-KeepsNames h backend device multi_paths none =
      search (steps_keep_names, get_default_addr-KeepsNames) depth 40
  linux_init_host-KeepsNames h backend device multi_paths (some ns) =
      search (steps_keep_names, get_default_addr-KeepsNames, enter_netns-KeepsNames) depth 40

  pub windows_init_host-KeepsNames :
      (h : ℕ) (multi_paths : Bool) (netns : Option String)
      → KeepsNames (windows_init_host remote h multi_paths netns)
  unfolding windows_init_host
  windows_init_host-KeepsNames h multi_paths netns = search (steps_keep_names) depth 40

  linux_rmmod-KeepsNames : (h : ℕ) → KeepsNames (linux_rmmod remote h)
  linux_rmmod-KeepsNames h = record {
    keeps = λ w. ap (λ p. host_names p.1) (linux_rmmod-outcome remote h w);
  }

  pub rmmod-KeepsNames : (no_rmmod : Bool) (h : ℕ) → KeepsNames (rmmod remote no_rmmod h)
  unfolding rmmod
  rmmod-KeepsNames no_rmmod h = search (steps_keep_names, linux_rmmod-KeepsNames)

  pub run_helper-KeepsNames :
      (files : String → Option String) (h : ℕ) (name : String) (args : List String)
      → KeepsNames (run_helper remote files h name args)
  unfolding run_helper install_helper
  run_helper-KeepsNames files h name args = search (steps_keep_names) depth 20

  pub disable_faults-KeepsNames :
      (files : String → Option String) (h : ℕ) → KeepsNames (disable_faults remote files h)
  unfolding disable_faults
  disable_faults-KeepsNames files h = search (steps_keep_names, run_helper-KeepsNames) depth 20

  not_linux-KeepsNames : (h : ℕ) (o : Option String) → KeepsNames (not_linux h o)
  unfolding not_linux
  not_linux-KeepsNames h none = search (steps_keep_names)
  not_linux-KeepsNames h (some rest) = search (steps_keep_names)

  pub get_platform_helper-KeepsNames : (h : ℕ) → KeepsNames (get_platform_helper remote h)
  unfolding get_platform_helper
  get_platform_helper-KeepsNames h = search (steps_keep_names, not_linux-KeepsNames) depth 20
