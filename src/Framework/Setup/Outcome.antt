-- ===== src/Framework/Setup/Outcome.antt =====
-- What holds of the cluster when `setup` returns.
use drbd9_tests.Prelude.{
  ℕ, suc, ◌≡◌, refl, ap, sym, ◌∙◌, Bool, ◌==◌, nat_eq, Option, none, some, List, [], ◌∷◌, ◌++◌, map,
  length, String,
}
use mathlib.Core.List.{append_assoc, append-nil, map-append}
use drbd9_tests.Results.{Result, ok, err}
use drbd9_tests.Exec.{Exec, modify, when, >>=-eq-ok}
use drbd9_tests.Framework.World.{Host, World, Remote, resource_at}
use drbd9_tests.Framework.Hosts.Names.{
  KeepsNames, host_names, steps_keep_names, when-Keeps, read_drbd_version-KeepsNames,
}
use drbd9_tests.Framework.Hosts.Names.Prepare.{
  linux_init_host-KeepsNames, windows_init_host-KeepsNames, rmmod-KeepsNames, run_helper-KeepsNames,
  get_platform_helper-KeepsNames,
}
use drbd9_tests.Framework.Setup.{Args}
use drbd9_tests.Framework.Setup.Cluster.{
  Network, Local, new_host, keep_or_drop, connect, touch_all, indices, init_host, make_host,
  install_drbd, install_other, add_host, add_hosts,
}
use drbd9_tests.Framework.Resources.{touch_config, touch_nodes}

touch_nodes-hosts : (ns : List ℕ) (w : World) → (touch_nodes ns w).hosts ≡ w.hosts
unfolding touch_nodes
touch_nodes-hosts [] w = refl
touch_nodes-hosts (n ∷ ns) w = touch_nodes-hosts ns _

touch_all-hosts : (rs : List ℕ) (w : World) → (touch_all rs w).hosts ≡ w.hosts
unfolding touch_all touch_config
touch_all-hosts [] w = refl
touch_all-hosts (r ∷ rs) w =
    touch_all-hosts rs (touch_config r w) ∙ touch_nodes-hosts (resource_at r w).nodes.items w

touched-KeepsNames : KeepsNames (modify (λ w. touch_all (indices 0 (length w.resources)) w))
touched-KeepsNames = record {
  keeps = λ w. ap (map (λ h. h.name)) (touch_all-hosts (indices 0 (length w.resources)) w);
}

-- A block that kept the new host.
kept :
    (hosts : List Host) (p : Result (Unit {0}) × World) {t : World}
    → keep_or_drop hosts p ≡ (ok tt, t)
    → p.1 ≡ t
unfolding keep_or_drop
kept hosts (ok a, u) h = ap (λ q. q.1) h
kept hosts (err e, u) h = absurd (cc)

module _ (remote : Remote) (here : Local) where
  connect-KeepsNames : (o : Option ℕ) → KeepsNames (connect o)
  unfolding connect
  connect-KeepsNames none = search (steps_keep_names)
  connect-KeepsNames (some status) = search (steps_keep_names)

  init_host-KeepsNames :
      (args : Args) (network : Network) (h : ℕ) → KeepsNames (init_host remote here args network h)
  unfolding init_host
  init_host-KeepsNames args network h =
      search
        (
          steps_keep_names, connect-KeepsNames, get_platform_helper-KeepsNames,
          read_drbd_version-KeepsNames, linux_init_host-KeepsNames, windows_init_host-KeepsNames,
        )
        depth 40

  make_host-names :
      (args : Args) (network : Network) (name : String) (w t : World)
      → make_host remote here args network name w ≡ (ok tt, t)
      → host_names t ≡ host_names w ++ name ∷ []
  unfolding make_host new_host
  make_host-names args network name w t h =
      let start : World = record w { hosts = w.hosts ++ new_host args name ∷ [] } in
      sym
        (ap host_names (kept w.hosts (init_host remote here args network (length w.hosts) start) h))
      ∙ ((init_host-KeepsNames args network (length w.hosts)).keeps start
          ∙ map-append (λ x. x.name) w.hosts (new_host args name ∷ []))

  install_other-KeepsNames :
      (no_rmmod : Bool) (h : ℕ) (o : Option String)
      → KeepsNames (install_other remote here no_rmmod h o)
  unfolding install_other install_drbd
  install_other-KeepsNames no_rmmod h none = search (steps_keep_names)
  install_other-KeepsNames no_rmmod h (some version) =
      search
        (
          steps_keep_names, rmmod-KeepsNames, run_helper-KeepsNames, read_drbd_version-KeepsNames,
          touched-KeepsNames,
        )
        depth 20

  add_host-names :
      (args : Args) (network : Network) (i : ℕ) (name : String) (w t : World)
      → add_host remote here args network i name w ≡ (ok tt, t)
      → host_names t ≡ host_names w ++ name ∷ []
  unfolding add_host
  add_host-names args network i name w t h =
      let other : Exec World (Unit {0}) =
        when (i == args.drbd_other_node)
          (install_other remote here args.no_rmmod (length w.hosts) args.drbd_version_other) in
      let keeps : KeepsNames other =
        when-Keeps (i == args.drbd_other_node)
          (install_other remote here args.no_rmmod (length w.hosts) args.drbd_version_other)
          (install_other-KeepsNames args.no_rmmod (length w.hosts) args.drbd_version_other) in
      let (_, u, made, rest) =
        >>=-eq-ok (make_host remote here args network name) (λ _. other) w h in
      sym (ap (λ p. host_names p.1) rest)
      ∙ (keeps.keeps u ∙ make_host-names args network name w u made)

  pub add_hosts-names :
      (args : Args) (network : Network) (i : ℕ) (names : List String) (w t : World)
      → add_hosts remote here args network i names w ≡ (ok tt, t)
      → host_names t ≡ host_names w ++ names
  unfolding add_hosts
  add_hosts-names args network i [] w t h =
      ap host_names (sym (ap (λ p. p.1) h)) ∙ sym (append-nil (host_names w))
  add_hosts-names args network i (name ∷ names) w t h =
      let (_, u, one, rest) =
        >>=-eq-ok (add_host remote here args network i name)
          (λ _. add_hosts remote here args network (suc i) names) w h in
      add_hosts-names args network (suc i) names u t rest
      ∙ (ap (λ ns. ns ++ names) (add_host-names args network i name w u one)
          ∙ append_assoc (host_names w) (name ∷ []) names)
