-- ===== src/Framework/Setup/Ready.antt =====
-- `setup` as a whole: the cluster that it returns has the hosts and the versions that were asked for.
use drbd9_tests.Prelude.{
  ℕ, suc, ◌≡◌, refl, ap, sym, ◌∙◌, Bool, true, false, ◌&&◌, List, [], ◌∷◌, map, length, String,
  if◌then◌else◌, arith,
}
use drbd9_tests.Results.{ok, err, runtime_error, system_exit}
use drbd9_tests.Exec.{Exec, lift, gets, modify, when, ◌>>=◌, >>=-eq-ok}
use drbd9_tests.Framework.World.{World, Remote}
use drbd9_tests.Framework.Run.{scan}
use drbd9_tests.Framework.Hosts.Names.{KeepsHosts, >>=-Keeps, host_names, steps_keep_hosts}
use drbd9_tests.Framework.Hosts.{install_helper, run_helper, disable_faults}
use drbd9_tests.Framework.Setup.{Needs, Args, bounds, check_nodes, options}
use drbd9_tests.Framework.Setup.Nodes.{fits, check_nodes-fits}
use drbd9_tests.Framework.Setup.Versions.{
  all_expected, all_same, compared_hashes, validate_drbd_versions-accepts,
}
use drbd9_tests.Framework.Setup.Tls.{Certificate, setup_host, setup_hosts, setup_kernel_tls_helper}
use drbd9_tests.Framework.Setup.Cluster.{
  Network, Local, indices, add_hosts, installed_package, listen_to_events, check_selinux,
  prepare_hosts, check_versions, setup,
}
use drbd9_tests.Framework.Setup.Outcome.{add_hosts-names}

accepted_by :
    (report fit : Bool)
    → (if report then err (system_exit 0) else if fit then ok (tt {0}) else err (system_exit 100))
      ≡ ok tt
    → (report ≡ false) × (fit ≡ true)
accepted_by true fit h = absurd (cc)
accepted_by false true h = (refl, refl)
accepted_by false false h = absurd (cc)

both_true :
    (a b : Bool)
    → (if a && b then ok (tt {0}) else err runtime_error) ≡ ok tt
    → (a ≡ true) × (b ≡ true)
both_true true true h = (refl, refl)
both_true true false h = absurd (cc)
both_true false b h = absurd (cc)

module _ (remote : Remote) (here : Local) where
  run_helper-KeepsHosts :
      (h : ℕ) (name : String) (args : List String)
      → KeepsHosts (run_helper remote here.files h name args)
  unfolding run_helper install_helper
  run_helper-KeepsHosts h name args = search (steps_keep_hosts) depth 20

  disable_faults-KeepsHosts : (h : ℕ) → KeepsHosts (disable_faults remote here.files h)
  unfolding disable_faults
  disable_faults-KeepsHosts h = search (steps_keep_hosts, run_helper-KeepsHosts) depth 20

  installed_package-KeepsHosts : (h : ℕ) → KeepsHosts (installed_package remote here h)
  unfolding installed_package
  installed_package-KeepsHosts h = search (steps_keep_hosts, run_helper-KeepsHosts) depth 20

  check_selinux-KeepsHosts : (h : ℕ) → KeepsHosts (check_selinux remote here h)
  unfolding check_selinux
  check_selinux-KeepsHosts h = search (steps_keep_hosts, run_helper-KeepsHosts) depth 20

  listen_to_events-KeepsHosts : KeepsHosts (listen_to_events remote here)
  unfolding listen_to_events scan
  listen_to_events-KeepsHosts = record { keeps = λ w. ground arith }

  prepare_hosts-KeepsHosts : (args : Args) → KeepsHosts (prepare_hosts remote here args)
  unfolding prepare_hosts
  prepare_hosts-KeepsHosts args =
      search
        (
          steps_keep_hosts, installed_package-KeepsHosts, disable_faults-KeepsHosts,
          check_selinux-KeepsHosts, listen_to_events-KeepsHosts,
        )
        depth 40

  setup_host-KeepsHosts :
      (ca_cert : Certificate) (key h : ℕ)
      → KeepsHosts (setup_host remote here.pem here.now ca_cert key h)
  unfolding setup_host
  setup_host-KeepsHosts ca_cert key h = search (steps_keep_hosts) depth 40

  setup_hosts-KeepsHosts :
      (ca_cert : Certificate) (key : ℕ) (hs : List ℕ)
      → KeepsHosts (setup_hosts remote here.pem here.now ca_cert key hs)
  unfolding setup_hosts
  setup_hosts-KeepsHosts ca_cert key [] = search (steps_keep_hosts)
  setup_hosts-KeepsHosts ca_cert key (h ∷ hs) =
      >>=-Keeps (setup_host remote here.pem here.now ca_cert key h)
        (λ _. setup_hosts remote here.pem here.now ca_cert (suc key) hs)
        (setup_host-KeepsHosts ca_cert key h) (λ _. setup_hosts-KeepsHosts ca_cert (suc key) hs)

  abbrev tls_part : Args → Exec World (Unit {0})
  tls_part args = when args.tls do
    hosts ← gets (λ w. indices 0 (length w.hosts))
    setup_kernel_tls_helper remote here.pem here.now hosts

  tls_part-KeepsHosts : (args : Args) → KeepsHosts (tls_part args)
  unfolding setup_kernel_tls_helper
  tls_part-KeepsHosts args = search (steps_keep_hosts, setup_hosts-KeepsHosts) depth 20

  -- When `setup` returns, it was not told to report only, the number of hosts is one that the test can have, the
  -- cluster has the hosts of the command line in their order, and each has the version of DRBD that was asked for,
  -- those of the main version with one git hash.
  pub setup-ready :
      (needs : Needs) (args : Args) (network : Network) (w t : World)
      → setup remote here needs args network w ≡ (ok tt, t)
      → (args.report_and_quit ≡ false)
        × (fits (bounds needs).0 (bounds needs).1 args.override_max (length args.host) ≡ true)
        × (host_names t ≡ args.host)
        × (all_expected args.drbd_version args.drbd_version_other t.hosts ≡ true)
        × (all_same (compared_hashes args.drbd_version args.drbd_version_other t.hosts) ≡ true)
  unfolding setup
  setup-ready needs args network w t h =
      let last : Exec World (Unit {0}) = prepare_hosts remote here args in
      let checks : Exec World (Unit {0}) = check_versions remote here args >>= λ _. last in
      let secured : Exec World (Unit {0}) = tls_part args >>= λ _. checks in
      let hosts : Exec World (Unit {0}) =
        add_hosts remote here args network 0 args.host >>= λ _. secured in
      let begin : World → World = λ w. record w { options = options args; hosts = [] } in
      let (_, w0, accepted, rest0) =
        >>=-eq-ok (lift (check_nodes needs args)) (λ _. modify begin >>= λ _. hosts) w h in
      let (_, w1, added, rest1) =
        >>=-eq-ok (add_hosts remote here args network 0 args.host) (λ _. secured) (begin w0)
          rest0 in
      let (_, w2, with_tls, rest2) = >>=-eq-ok (tls_part args) (λ _. checks) w1 rest1 in
      let (_, w3, checked, rest3) =
        >>=-eq-ok (check_versions remote here args) (λ _. last) w2 rest2 in
      let hosts_t : t.hosts ≡ w2.hosts =
        sym (ap (λ p. p.1.hosts) rest3)
        ∙ ((prepare_hosts-KeepsHosts args).keeps w3 ∙ sym (ap (λ p. p.1.hosts) checked)) in
      let hosts_2 : w2.hosts ≡ w1.hosts =
        sym (ap (λ p. p.1.hosts) with_tls) ∙ (tls_part-KeepsHosts args).keeps w1 in
      let (quiet, enough) =
        accepted_by args.report_and_quit
          (fits (bounds needs).0 (bounds needs).1 args.override_max (length args.host))
          (sym (check_nodes-fits needs args) ∙ ap (λ p. p.0) accepted) in
      let (versions, hashes) = both_true _ _ (
        sym (validate_drbd_versions-accepts args.drbd_version args.drbd_version_other w2.hosts)
        ∙ ap (λ p. p.0) checked) in
      (
        quiet,
        enough,
        ap (map (λ h. h.name)) (hosts_t ∙ hosts_2)
            ∙ add_hosts-names remote here args network 0 args.host (begin w0) w1 added,
        rw hosts_t versions,
        rw hosts_t hashes,
      )
