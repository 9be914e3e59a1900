-- ===== src/Framework/Config/File.antt =====
-- The whole file of `Node.config`, section by section.
use drbd9_tests.Prelude.{ℕ, suc, ◌≡◌, sym, refl, Bool, Option, none, some, [], ◌∷◌, String}
use mathlib.Core.List.{append-nil}
use drbd9_tests.Framework.World.{Host, Node, Resource, World, Options, host_of, node_at}
use drbd9_tests.Framework.Config.{
  Writer, ◌>>◌, with_block, config_host, config_one_host_addr, config_proxy_side,
  config_one_connection, config_options, config_proxy_options, config_script, config, write_disk,
  write_transport, write_net, write_memlimit, config_plugin,
}
use drbd9_tests.Framework.Config.Nesting.{
  indent_at, depth_after, IsNested, nested_rules, skip-IsNested, >>-IsNested, if-IsNested,
  write-IsNested, for_each-IsNested, with_block-IsNested, config_volume-IsNested,
}

config_host-IsNested :
    (w : World) (drbd9 : Bool) (depth n : ℕ) → IsNested depth (config_host w drbd9 n)
unfolding config_host
config_host-IsNested w drbd9 depth n = with_block-IsNested depth _ _ (
    >>-IsNested (suc depth) _ _
      (if-IsNested (suc depth) drbd9 _ _ (write-IsNested depth _) (write-IsNested depth _))
      (for_each-IsNested (suc depth) _ _ (config_volume-IsNested (suc depth) (host_of n w))))

config_proxy_side-IsNested :
    (depth : ℕ) (self n : Node) (host : Host) → IsNested depth (config_proxy_side self n host)
unfolding config_proxy_side
config_proxy_side-IsNested depth self n host = with_block-IsNested depth _ _ (search nested_rules)

path-IsNested :
    (depth : ℕ) (n1 n2 : Node) (a : String × String)
    → IsNested depth
        (with_block "path" λ b. do config_one_host_addr n1 b a.0; config_one_host_addr n2 b a.1)
unfolding config_one_host_addr
path-IsNested depth n1 n2 a = with_block-IsNested depth _ _ (search nested_rules)

config_one_connection-IsNested :
    (w : World) (self depth : ℕ) (pair : ℕ × ℕ) → IsNested depth (config_one_connection w self pair)
unfolding config_one_connection
config_one_connection-IsNested w self depth (n1, n2) = with_block-IsNested depth _ _ (
    if-IsNested (suc depth) w.options.proxy_enable _ _
      (>>-IsNested (suc depth) _ _
        (>>-IsNested (suc depth) _ _ (config_proxy_side-IsNested (suc depth) _ _ _)
          (config_proxy_side-IsNested (suc depth) _ _ _))
        (with_block-IsNested (suc depth) _ _ (search nested_rules)))
      (>>-IsNested (suc depth) _ _ (with_block-IsNested (suc depth) _ _ (search nested_rules)) (
        for_each-IsNested (suc depth) _ _
          (path-IsNested (suc depth) (node_at n1 w) (node_at n2 w)))))

write_disk-IsNested :
    (depth : ℕ) (host : Host) (fencing options : String)
    → IsNested (suc depth) (write_disk host fencing options (indent_at depth))
unfolding write_disk
write_disk-IsNested depth host fencing options = search nested_rules depth 8

write_transport-IsNested :
    (depth : ℕ) (t : Option String) → IsNested (suc depth) (write_transport (indent_at depth) t)
unfolding write_transport
write_transport-IsNested depth none = skip-IsNested (suc depth)
write_transport-IsNested depth (some t) = search nested_rules

write_net-IsNested :
    (depth : ℕ) (host : Host) (fencing : String) (resource : Resource)
    → IsNested (suc depth) (write_net host fencing resource (indent_at depth))
write_net-IsNested depth host fencing resource =
    unfold write_net in search (nested_rules, write_transport-IsNested) depth 8

config_options-IsNested : (w : World) (self depth : ℕ) → IsNested depth (config_options w self)
unfolding config_options
config_options-IsNested w self depth =
    >>-IsNested depth _ _
      (>>-IsNested depth _ _
        (>>-IsNested depth _ _ (with_block-IsNested depth _ _ (write-IsNested depth _))
          (with_block-IsNested depth _ _ (write-IsNested depth _)))
        (with_block-IsNested depth _ _ (write_disk-IsNested depth _ _ _)))
      (with_block-IsNested depth _ _ (write_net-IsNested depth _ _ _))

write_memlimit-IsNested :
    (depth : ℕ) (m : Option ℕ) → IsNested (suc depth) (write_memlimit (indent_at depth) m)
unfolding write_memlimit
write_memlimit-IsNested depth none = skip-IsNested (suc depth)
write_memlimit-IsNested depth (some m) = search nested_rules

config_plugin-IsNested : (depth : ℕ) (o : Options) → IsNested depth (config_plugin o)
unfolding config_plugin
config_plugin-IsNested depth o =
    if-IsNested depth o.lz4_enable _ _ (with_block-IsNested depth _ _ (write-IsNested depth _)) (
      if-IsNested depth _ _ _ (with_block-IsNested depth _ _ (write-IsNested depth _))
        (skip-IsNested depth))

config_proxy_options-IsNested : (depth : ℕ) (o : Options) → IsNested depth (config_proxy_options o)
config_proxy_options-IsNested depth o =
    unfold config_proxy_options in
    with_block-IsNested depth _ _ (
      if-IsNested (suc depth) o.proxy_enable _ _
        (>>-IsNested (suc depth) _ _ (config_plugin-IsNested (suc depth) o)
          (write_memlimit-IsNested depth o.memlimit))
        (skip-IsNested (suc depth)))

config_script-IsNested : (w : World) (self depth : ℕ) → IsNested depth (config_script w self)
unfolding config_script
config_script-IsNested w self depth = with_block-IsNested depth _ _ (
    >>-IsNested (suc depth) _ _
      (>>-IsNested (suc depth) _ _
        (>>-IsNested (suc depth) _ _ (config_options-IsNested w self (suc depth))
          (config_proxy_options-IsNested (suc depth) w.options))
        (for_each-IsNested (suc depth) _ _ (config_host-IsNested w _ (suc depth))))
      (if-IsNested (suc depth) _ _ _
        (for_each-IsNested (suc depth) _ _ (config_one_connection-IsNested w self (suc depth)))
        (skip-IsNested (suc depth))))

-- The file that `Node.config` writes is well nested for every state of the cluster: no closing line
-- lacks its block, every line is indented for the number of blocks around it, and at the end every
-- block is closed.
pub config-depth : (w : World) (self : ℕ) → depth_after 0 (config w self) ≡ some 0
unfolding config depth_after
config-depth w self =
    let p = config_script-IsNested w self 0 in
    let start : Writer = record { stack = "top" ∷ []; lines = [] } in
    rw (p.adds start refl) (rw (sym (append-nil (p.written start))) (p.level start refl []))
