-- ===== src/Framework/Setup/Teardown.antt =====
-- The end of a test in python/drbdtest.py: `Cluster.teardown` and `Cluster.cleanup`, with `Host.stop_dmesg`,
-- `Host.teardown`, `Host.cleanup` and `Host.cleanup_framework`. The first line that a host sends is the number of
-- its process, and what it logs after that is a parameter. Files and connections that are closed are not
-- modelled.
use drbd9_tests.Prelude.{
  ℕ, ◌≡◌, refl, ap, sym, ◌∙◌, arith, Bool, true, false, not, ◌&&◌, ◌||◌, List, [], ◌∷◌, String,
  ◌<>◌, length, all, any, is_some, if◌then◌else◌,
}
use drbd9_tests.Prelude.Text.{split}
use drbd9_tests.Prelude.Match.{has_text}
use drbd9_tests.Results.{ok_injective, ok, err, system_exit}
use drbd9_tests.Exec.{Exec, pure, gets, raise_if, when, for_each, >>=-eq-ok, >>=_ok, ◌>>=◌, ◌>>◌}
use drbd9_tests.Framework.World.{World, Remote, host_at, host_run, host_do, host_try}
use drbd9_tests.Framework.Disks.{remove_storage_pool}
use drbd9_tests.Framework.Hosts.{change_host, rmmod}
use drbd9_tests.Framework.Setup.Cluster.{indices}

-- What a host sends: the number of its process, and its log.
pub record Dmesg : Type 0 where
  pub pid : ℕ → String
  pub log : ℕ → String

-- `r'(BUG:|INFO:|ASSERTION|general protection fault)'`
unfoldable pub is_unexpected : String → Bool
unfolding has_text
is_unexpected line =
    has_text "BUG:" line
    || (has_text "INFO:" line
        || (has_text "ASSERTION" line || has_text "general protection fault" line))

module _ (remote : Remote) (dmesg : Dmesg) where
  -- `Host.stop_dmesg` on both platforms
  unfoldable pub stop_dmesg : ℕ → Exec World (Unit {0})
  stop_dmesg h = do
    runs ← gets (λ w. (host_at h w).dmesg_process)
    is_linux ← gets (λ w. (host_at h w).is_linux)
    let kill =
        if is_linux then "kill $(ps -s " <> (dmesg.pid h <> " -o pid=)") else "kill " <> dmesg.pid h
    when runs do
      host_do remote h ("bash" ∷ "-c" ∷ kill ∷ [])
      change_host h (λ x. record x { dmesg_process = false })

  -- `Host.teardown`
  unfoldable pub host_teardown : Bool → ℕ → Exec World Bool
  unfolding stop_dmesg is_unexpected
  host_teardown validate_dmesg h = do
    stop_dmesg h
    pure (not validate_dmesg || not (any is_unexpected (split 10 (dmesg.log h))))

  -- The loop of `Cluster.teardown`
  unfoldable pub teardown_hosts : Bool → Bool → List ℕ → Bool → Exec World Bool
  unfolding host_teardown
  teardown_hosts no_rmmod validate_dmesg [] fine = pure fine
  teardown_hosts no_rmmod validate_dmesg (h ∷ hs) fine =
      let rest : Bool → Exec World Bool = teardown_hosts no_rmmod validate_dmesg hs in
      rmmod remote no_rmmod h
      >> (host_teardown validate_dmesg h >>= λ host_fine. rest (if host_fine then fine else false))

  unfoldable pub teardown : Bool → Bool → Exec World (Unit {0})
  unfolding teardown_hosts
  teardown no_rmmod validate_dmesg = do
    hosts ← gets (λ w. indices 0 (length w.hosts))
    fine ← teardown_hosts no_rmmod validate_dmesg hosts true
    raise_if (not fine) (system_exit 3)

  -- `Host.cleanup`
  unfoldable pub cleanup_host : ℕ → Exec World (Unit {0})
  cleanup_host h = do
    has_pool ← gets (λ w. is_some (host_at h w).storage_pool)
    when has_pool (remove_storage_pool remote h)

  -- `Host.cleanup_framework`, on both platforms
  unfoldable pub cleanup_framework : Bool → ℕ → Exec World (Unit {0})
  unfolding stop_dmesg
  cleanup_framework selinux_debug h = do
    stop_dmesg h
    when selinux_debug
        (host_try remote h ("cat" ∷ "/var/log/audit/audit.log" ∷ []) >>= λ _. pure tt)
    is_linux ← gets (λ w. (host_at h w).is_linux)
    when is_linux do
      _ ← host_run remote h ("journalctl" ∷ "-u" ∷ "tlshd" ∷ "-b" ∷ "0" ∷ "-q" ∷ [])
      host_do remote h (
          "bash" ∷ "--norc" ∷ "-xec"
          ∷ "iptables -D INPUT -j drbd-test-input\niptables -D OUTPUT -j drbd-test-output\niptables -F drbd-test-input && iptables -X drbd-test-input || true\niptables -F drbd-test-output && iptables -X drbd-test-output || true"
          ∷ [])

  -- `Cluster.cleanup`, which runs when the program ends
  unfoldable pub cleanup : Bool → Bool → Exec World (Unit {0})
  unfolding cleanup_host cleanup_framework
  cleanup selinux_debug skip_cleanup = do
    hosts ← gets (λ w. indices 0 (length w.hosts))
    when (not skip_cleanup) (for_each hosts cleanup_host)
    for_each hosts (cleanup_framework selinux_debug)

  -- The lines that a host logged are all expected.
  abbrev pub is_clean : ℕ → Bool
  is_clean h = not (any is_unexpected (split 10 (dmesg.log h)))

  host_teardown-result :
      (validate_dmesg : Bool) (h : ℕ) (out : Bool) (w t : World)
      → host_teardown validate_dmesg h w ≡ (ok out, t)
      → out ≡ (not validate_dmesg || is_clean h)
  unfolding host_teardown
  host_teardown-result validate_dmesg h out w t returned =
      let (_, u, stopped, same) =
        >>=-eq-ok (stop_dmesg h) (λ _. pure (not validate_dmesg || is_clean h)) w returned in
      sym (ok_injective (ap (λ p. p.0) same))

  teardown_hosts-result :
      (no_rmmod validate_dmesg : Bool) (hs : List ℕ) (fine out : Bool) (w t : World)
      → teardown_hosts no_rmmod validate_dmesg hs fine w ≡ (ok out, t)
      → out ≡ (fine && (not validate_dmesg || all is_clean hs))
  unfolding teardown_hosts
  teardown_hosts-result no_rmmod validate_dmesg [] fine out w t h =
      let same : fine ≡ out = ok_injective (ap (λ p. p.0) h) in ground (arith, same)
  teardown_hosts-result no_rmmod validate_dmesg (x ∷ hs) fine out w t h =
      let next : Bool → Exec World Bool = λ host_fine.
        teardown_hosts no_rmmod validate_dmesg hs (if host_fine then fine else false) in
      let (_, u, unloaded, rest) =
        >>=-eq-ok (rmmod remote no_rmmod x) (λ _. host_teardown validate_dmesg x >>= next) w h in
      let (host_fine, v, judged, others) = >>=-eq-ok (host_teardown validate_dmesg x) next u rest in
      ground (
        arith,
        host_teardown-result validate_dmesg x host_fine u v judged,
        teardown_hosts-result no_rmmod validate_dmesg hs (if host_fine then fine else false) out v t
            others,
      )

  -- When every host could be unloaded and its log read to the end, `teardown` returns if no line of any host is
  -- unexpected or the logs are not to be looked at, and otherwise ends the program with status 3.
  pub teardown-judges :
      (no_rmmod validate_dmesg out : Bool) (w t : World)
      → teardown_hosts no_rmmod validate_dmesg (indices 0 (length w.hosts)) true w ≡ (ok out, t)
      → teardown no_rmmod validate_dmesg w ≡ (
        if not validate_dmesg || all is_clean (indices 0 (length w.hosts))
            then ok tt
            else err (system_exit 3),
        t,
      )
  unfolding teardown
  teardown-judges no_rmmod validate_dmesg out w t h =
      >>=_ok (teardown_hosts no_rmmod validate_dmesg (indices 0 (length w.hosts)) true)
        (λ fine. raise_if (not fine) (system_exit 3)) w h
      ∙ judged out _ (
          teardown_hosts-result no_rmmod validate_dmesg (indices 0 (length w.hosts)) true out w t h)
    where
      judged :
          (out c : Bool)
          → out ≡ c
          → raise_if {S = World} (not out) (system_exit 3) t
            ≡ (if c then ok tt else err (system_exit 3), t)
      judged true c e = rw (← e) refl
      judged false c e = rw (← e) refl
