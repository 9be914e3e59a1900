-- ===== src/Framework/Run.antt =====
-- Commands and events of python/drbdtest.py: `Node.run`, `Node.update_config`, `Node.drbdadm`, and
-- `logscan` of a resource and of the cluster. The copy of the configuration in the log directory of
-- the coordinator is not modelled.
pub mod Laws
use drbd9_tests.Prelude.{
  ℕ, zero, suc, ◌+◌, ◌≡◌, refl, Bool, true, false, List, [], ◌∷◌, ◌++◌, map, String, ◌<>◌, ltb,
  length, ◌==◌, nat_eq, if◌then◌else◌,
}
use drbd9_tests.Prelude.Text.{join}
use drbd9_tests.Exec.{Exec, pure, raise, ◌>>=◌, ◌>>◌}
use drbd9_tests.Results.{Error, ok, err, runtime_error}
use drbd9_tests.Framework.World.{
  Host, Node, Resource, World, Remote, Command, Scan, Filters, scanned, host_at, node_at,
  resource_at, host_of, resource_of, set_node, send, host_run, host_do,
}
use drbd9_tests.Framework.Config.{Line, opening, closing, entry, config}
use Prim.Native.Char.{code}

-- `ConfigBlock.INDENT * n`
spaces : ℕ → String
spaces zero = ""
spaces (suc n) = "     " <> spaces n

ends_newline : String → Bool
ends_newline String.[] = false
ends_newline (String.◌∷◌ c String.[]) = code c == 10
ends_newline (String.◌∷◌ c (String.◌∷◌ d s)) = ends_newline (String.◌∷◌ d s)

-- The text of a line, as `ConfigBlock.__enter__`, `__exit__` and `write` format it.
unfoldable pub render : Line → String
unfolding spaces ends_newline
render (opening indent name) = spaces indent <> (name <> " {\n")
render (closing indent) = spaces indent <> "}\n\n"
render (entry indent text) =
    let content = spaces indent <> text in if ends_newline content then content else content <> "\n"

-- `Host.drbd_global_config_file_path` and `Node.drbd_config_file_path`
abbrev pub drbd_global_config_file_path : World → Host → String
drbd_global_config_file_path w h = h.drbd_config_dir <> ("/" <> (w.options.job <> ".conf"))

abbrev pub drbd_config_file_path : World → ℕ → String
drbd_config_file_path w n =
    (host_of n w).drbd_config_dir
    <> ("/" <> (w.options.job <> ("-" <> ((resource_of n w).name <> ".res"))))

-- The command that writes the configuration of a node; the flag is cleared before it is made.
unfoldable pub write_config : World → ℕ → Command
unfolding render
write_config w n =
    let node = node_at n w in
    let t = set_node n (record node { config_changed = false }) w in
    record {
      host = node.host;
      netns = (host_of n w).netns;
      argv = "bash" ∷ "-c" ∷ ("cat > " <> drbd_config_file_path w n) ∷ [];
      stdin = join "" (map render (config t n));
    }

module _ (remote : Remote) where
  unfoldable pub update_config : ℕ → Exec World (Unit {0})
  update_config n w =
      let node = node_at n w in
      if node.config_changed
      then ((do _ ← send remote false (write_config w n); pure tt)
          (set_node n (record node { config_changed = false }) w))
      else (ok tt, w)

  -- `Node.run`, returning what the command printed.
  unfoldable pub node_run : ℕ → List String → Exec World String
  node_run n argv = do update_config n; λ w. host_run remote (node_at n w).host argv w

  unfoldable pub node_do : ℕ → List String → Exec World (Unit {0})
  node_do n argv = do _ ← node_run n argv; pure tt

  unfoldable pub drbdadm : ℕ → List String → Exec World (Unit {0})
  drbdadm n cmd w =
      node_do n ("drbdadm" ∷ "-c" ∷ drbd_global_config_file_path w (host_of n w) ∷ "-v" ∷ cmd) w

  -- `Cluster.logscan`; the third-party scanner raises when it does not see the events in time, or
  -- sees a forbidden one.
  unfoldable pub scan : Scan → Exec World (Unit {0})
  scan s w =
      let t = record w { done = w.done ++ scanned s ∷ [] } in
      if remote.finds w.done s then (ok tt, t) else (err runtime_error, t)

  -- `Resource.logscan`: the name of the resource is put before every filter when there are several.
  unfoldable pub named_filters : String → Filters → Filters
  named_filters name [] = []
  named_filters name ((node, filters) ∷ rest) =
      (node, map (λ fs. ("name:" <> name) ∷ fs) filters) ∷ named_filters name rest

  unfoldable pub logscan : ℕ → List String → Filters → Exec World (Unit {0})
  unfolding named_filters
  logscan r events filters w =
      let resource = resource_at r w in
      scan
        (record {
          yes = events;
          filters =
              if ltb 1 (length w.resources) then named_filters resource.name filters else filters;
          always_no = resource.forbidden_patterns.items;
        })
        w
