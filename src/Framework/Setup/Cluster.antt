-- ===== src/Framework/Setup/Cluster.antt =====
-- `setup` of python/drbdtest.py from the first host to the end: `Host.__init__`, the other version of
-- DRBD, the checks of the versions, the events, and the preparation of every host. The file of the versions that
-- is written beside the log is not modelled.
use drbd9_tests.Prelude.{
  ℕ, zero, suc, Bool, true, ◌||◌, Option, none, some, List, [], ◌∷◌, ◌++◌, String, ◌<>◌, ◌==◌,
  nat_eq, string_eq, length, if◌then◌else◌,
}
use drbd9_tests.Prelude.Dict.{insert}
use drbd9_tests.Results.{Result, ok, err, called_process}
use drbd9_tests.Exec.{
  Exec, pure, raise, lift, gets, modify, when, for_each, pass_called, ◌>>=◌, ◌>>◌,
}
use drbd9_tests.Framework.World.{
  Host, World, Remote, Filters, no_host, host_at, is_drbd9, host_run, host_do, host_feed, host_try,
}
use drbd9_tests.Framework.Run.{scan, drbd_global_config_file_path}
use drbd9_tests.Framework.Resources.{touch_config}
use drbd9_tests.Framework.Hosts.{
  change_host, get_platform_helper, read_drbd_version, linux_init_host, windows_init_host, rmmod,
  run_helper, disable_faults,
}
use drbd9_tests.Framework.Setup.{Needs, Args, check_nodes, options}
use drbd9_tests.Framework.Setup.Versions.{validate_drbd_versions}
use drbd9_tests.Framework.Setup.Tls.{Pem, setup_kernel_tls_helper}

-- What `setup` is told by the body of the test besides the numbers of nodes.
pub record Network : Type 0 where
  pub multi_paths : Bool
  pub netns : Option String

-- What is not on the hosts: the files of target/, the status of a failed SSH connection, the certificates, and the
-- time.
pub record Local : Type 0 where
  pub files : String → Option String
  pub connection : String → Option ℕ
  pub pem : Pem
  pub now : ℕ

-- A host before its first command.
unfoldable pub new_host : Args → String → Host
new_host args name = record no_host {
  name = name;
  port = 7789;
  minors = 0;
  volume_group = args.volume_group;
}

-- A host that could not be prepared does not become one of the cluster.
unfoldable pub keep_or_drop : List Host → Result (Unit {0}) × World → Result (Unit {0}) × World
keep_or_drop hosts (ok a, t) = (ok a, t)
keep_or_drop hosts (err e, t) = (err e, record t { hosts = hosts })

-- `Cluster.logscan` of `Cluster.listen_to_events`: every host has one filter that lets all pass.
unfoldable pub all_pass : List Host → Filters → Filters
unfolding insert
all_pass [] filters = filters
all_pass (h ∷ hs) filters = all_pass hs (insert h.name ([] ∷ []) filters)

unfoldable pub touch_all : List ℕ → World → World
touch_all [] w = w
touch_all (r ∷ rs) w = touch_all rs (touch_config r w)

abbrev pub indices : ℕ → ℕ → List ℕ
indices i zero = []
indices i (suc n) = i ∷ indices (suc i) n

-- `SSH(...)`
unfoldable pub connect : Option ℕ → Exec World (Unit {0})
connect none = pure tt
connect (some status) = raise (called_process status)

module _ (remote : Remote) (here : Local) where
  -- `Host.__init__` on a host that is the last of the store.
  unfoldable pub init_host : Args → Network → ℕ → Exec World (Unit {0})
  init_host args network h = do
    name ← gets (λ w. (host_at h w).name)
    connect (here.connection name)
    get_platform_helper remote h
    read_drbd_version remote h
    nine ← gets (λ w. is_drbd9 (host_at h w))
    hostname ← host_run remote h (if nine then "hostname" ∷ "-f" ∷ [] else "hostname" ∷ [])
    change_host h (λ x. record x { hostname = hostname })
    is_linux ← gets (λ w. (host_at h w).is_linux)
    if is_linux
        then linux_init_host remote h args.storage_backend args.backing_device network.multi_paths
            network.netns
        else windows_init_host remote h network.multi_paths network.netns
    change_host h (λ x. record x { dmesg_process = true })
    dir ← gets (λ w. (host_at h w).drbd_config_dir)
    host_do remote h ("mkdir" ∷ "-p" ∷ dir ∷ [])
    path ← gets (λ w. drbd_global_config_file_path w (host_at h w))
    job ← gets (λ w. w.options.job)
    host_feed remote h ("bash" ∷ "-c" ∷ ("cat > " <> path) ∷ [])
        ("global { usage-count no; }\ninclude \"" <> (dir <> ("/" <> (job <> "*\";\n"))))

  unfoldable pub make_host : Args → Network → String → Exec World (Unit {0})
  unfolding init_host new_host keep_or_drop
  make_host args network name w = keep_or_drop w.hosts (
      init_host args network (length w.hosts)
        (record w { hosts = w.hosts ++ new_host args name ∷ [] }))

  -- `Host.install_drbd`
  unfoldable pub install_drbd : Bool → ℕ → String → Exec World (Unit {0})
  unfolding touch_all
  install_drbd no_rmmod h version = do
    rmmod remote no_rmmod h
    _ ← run_helper remote here.files h "install-drbd" ("/opt/package-download" ∷ version ∷ [])
    read_drbd_version remote h
    modify (λ w. touch_all (indices 0 (length w.resources)) w)

  unfoldable pub install_other : Bool → ℕ → Option String → Exec World (Unit {0})
  unfolding install_drbd
  install_other no_rmmod h none = pure tt
  install_other no_rmmod h (some version) = do
    install_drbd no_rmmod h version
    change_host h (λ x. record x { has_other_version = true })

  -- The loop over the names of the hosts.
  unfoldable pub add_host : Args → Network → ℕ → String → Exec World (Unit {0})
  unfolding make_host install_other
  add_host args network i name = do
    h ← gets (λ w. length w.hosts)
    make_host args network name
    when (i == args.drbd_other_node) (install_other args.no_rmmod h args.drbd_version_other)

  unfoldable pub add_hosts : Args → Network → ℕ → List String → Exec World (Unit {0})
  unfolding add_host
  add_hosts args network i [] = pure tt
  add_hosts args network i (name ∷ names) =
      let rest = add_hosts args network (suc i) names in add_host args network i name >> rest

  -- `Cluster.write_drbd_versions_meta`, as far as the hosts see it.
  unfoldable pub installed_package : ℕ → Exec World (Unit {0})
  unfolding pass_called run_helper
  installed_package h =
      pass_called do _ ← run_helper remote here.files h "installed-drbd-package" []; pure tt

  unfoldable pub listen_to_events : Exec World (Unit {0})
  unfolding scan all_pass
  listen_to_events w =
      scan remote (record { yes = "exists -" ∷ []; filters = all_pass w.hosts []; always_no = [] })
        w

  -- The check of the policy where SELinux is active.
  unfoldable pub check_selinux : ℕ → Exec World (Unit {0})
  unfolding run_helper
  check_selinux h = do
    mode ← host_try remote h ("getenforce" ∷ [])
    when (mode == "Enforcing" || mode == "Permissive")
        do _ ← run_helper remote here.files h "check-selinux-policydb" []; pure tt

  -- The end of `setup`, when the versions were checked.
  unfoldable pub prepare_hosts : Args → Exec World (Unit {0})
  unfolding installed_package listen_to_events check_selinux disable_faults
  prepare_hosts args = do
    hosts ← gets (λ w. indices 0 (length w.hosts))
    for_each hosts installed_package
    listen_to_events
    for_each hosts (disable_faults remote here.files)
    for_each hosts check_selinux
    when args.selinux_debug (for_each hosts (λ h. host_do remote h ("semodule" ∷ "-DB" ∷ [])))

  unfoldable pub check_versions : Args → Exec World (Unit {0})
  unfolding validate_drbd_versions
  check_versions args w =
      (validate_drbd_versions args.drbd_version args.drbd_version_other w.hosts, w)

  -- `setup`
  unfoldable pub setup : Needs → Args → Network → Exec World (Unit {0})
  unfolding check_nodes options add_hosts check_versions prepare_hosts
  setup needs args network = do
    lift (check_nodes needs args)
    modify (λ w. record w { options = options args; hosts = [] })
    add_hosts args network 0 args.host
    when args.tls do
      hosts ← gets (λ w. indices 0 (length w.hosts))
      setup_kernel_tls_helper remote here.pem here.now hosts
    check_versions args
    prepare_hosts args
