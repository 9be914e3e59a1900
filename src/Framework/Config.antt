-- ===== src/Framework/Config.antt =====
-- `ConfigBlock` of python/drbdtest.py, and the configuration that `Node.config` writes with it. A
-- text is formatted with no arguments but those shown; a `%` in an option is not modelled.
pub mod Nesting
pub mod File
pub mod Pairs
use drbd9_tests.Prelude.{
  ℕ, zero, suc, ◌+◌, ◌≡◌, refl, Bool, true, false, not, ◌&&◌, ◌||◌, Option, none, some, List, [],
  ◌∷◌, ◌++◌, String, ◌<>◌, ◌==◌, string_eq, nat_eq, length, drop, zip, map, if◌then◌else◌,
}
use drbd9_tests.Prelude.Text.{dec}
use drbd9_tests.Framework.World.{
  Host, Node, Volume, Resource, World, Options, DiskVolume, lvm_volume, raw_volume, zfs_volume,
  spaces_volume, delay_volume, block_size_volume, host_at, node_at, host_of, resource_of,
  resource_at, is_drbd9,
}
use text.Mathlib.Text.{find?}

-- A line of the file, with its indentation in units of `INDENT`.
pub data Line : Type 0 where
  opening : ℕ → String → Line
  closing : ℕ → Line
  entry : ℕ → String → Line

-- The names of the open blocks, "top" at the bottom, and what was written.
pub record Writer : Type 0 where
  pub stack : List String
  pub lines : List Line

abbrev pub Script : Type 0
Script = Writer → Writer

infixl 5 ◌>>◌
abbrev pub ◌>>◌ : Script → Script → Script
◌>>◌ f g w = g (f w)

abbrev pub skip : Script
skip w = w

abbrev pub when : Bool → Script → Script
when c f = if c then f else skip

unfoldable pub for_each {ℓ} : {A : Type ℓ} → List A → (A → Script) → Script
for_each [] f = skip
for_each (x ∷ xs) f = f x >> for_each xs f

-- The indentation of a new block: none directly under "top", else the number of names on the stack.
abbrev pub block_indent : List String → ℕ
block_indent (parent ∷ []) = 0
block_indent stack = length stack

-- `with ConfigBlock(t=name) as block: body(block)`; a block is known by its indentation.
unfoldable pub with_block : String → (ℕ → Script) → Script
with_block name body w =
    let indent = block_indent w.stack in
    let entered : Writer = record {
      stack = name ∷ w.stack;
      lines = w.lines ++ opening indent name ∷ [];
    } in
    let inside = body indent entered in
    record { stack = drop 1 inside.stack; lines = inside.lines ++ closing indent ∷ [] }

-- `block.write(text)`
unfoldable pub write : ℕ → String → Script
write indent text w = record w { lines = w.lines ++ entry (indent + 1) text ∷ [] }

unfoldable pub volume_path : DiskVolume → String
volume_path (lvm_volume name lv size) = lv
volume_path (raw_volume backing path guid start part) = path
volume_path (zfs_volume dataset) = "/dev/zvol/" <> dataset
volume_path (spaces_volume name lv) = lv
volume_path (delay_volume name sectors ms below) = "/dev/mapper/" <> name
volume_path (block_size_volume name sectors size below) = "/dev/mapper/" <> name

abbrev pub path_or : String → Option DiskVolume → String
path_or other none = other
path_or other (some v) = volume_path v

abbrev is_disk : Option DiskVolume → Bool
is_disk none = false
is_disk (some v) = true

-- `device_for_config` of the platform helpers.
unfoldable pub device_for_config : Host → Volume → String
device_for_config host v =
    if host.is_linux then "/dev/drbd" <> dec v.minor else "minor " <> dec v.minor

-- `substring in text`
unfoldable pub mentions : String → String → Bool
mentions substring text = elim (find? text substring) [ none ↦ false | some i ↦ true ]

abbrev yes_no : Bool → String
yes_no true = "yes"
yes_no false = "no"

unfoldable pub write_tiebreaker : ℕ → Option Bool → Script
write_tiebreaker indent none = skip
write_tiebreaker indent (some t) = write indent ("tiebreaker " <> (yes_no t <> ";"))

-- One volume of `config_host`.
unfoldable pub config_volume : Host → ℕ × Volume → Script
unfolding write_tiebreaker
config_volume host (index, disk) = with_block ("volume " <> dec index) λ v. do
  write v ("device " <> (device_for_config host disk <> ";"))
  write v ("disk " <> (path_or "none" disk.disk_volume <> ";"))
  when (is_disk disk.disk_volume)
      (write v ("meta-disk " <> (path_or "internal" disk.meta_volume <> ";")))
  write_tiebreaker v disk.tiebreaker

abbrev pub enumerate {ℓ} : {A : Type ℓ} → ℕ → List A → List (ℕ × A)
enumerate i [] = []
enumerate i (x ∷ xs) = (i, x) ∷ enumerate (suc i) xs

-- The `on` section for `node` in the file of a node whose host has the version `drbd9`.
unfoldable pub config_host : World → Bool → ℕ → Script
config_host w drbd9 n =
    let node = node_at n w in
    let host = host_of n w in
    with_block ("on " <> host.hostname) λ b. do
      (if drbd9
          then write b ("node-id " <> (dec node.id <> ";"))
          else write b ("address " <> (host.addr <> (":" <> (dec node.port <> ";")))))
      for_each (enumerate 0 node.disks) (config_volume host)

unfoldable pub config_one_host_addr : Node → ℕ → String → Script
config_one_host_addr node block addr =
    write block
      ("host " <> (node.name <> (" address " <> (addr <> (":" <> (dec node.port <> ";"))))))

-- One side of a connection through the proxy.
unfoldable pub config_proxy_side : Node → Node → Host → Script
config_proxy_side self n host =
    with_block
      ("host "
        <> (n.name <> (" address 127.0.0.1:" <> (dec n.port <> (" via proxy on " <> n.name)))))
      λ b. do
        write b ("inside 127.0.0.2:" <> (dec self.port <> ";"))
        write b (
            "outside ipv4 "
            <> (elim host.addrs [ [] ↦ "" | a ∷ rest ↦ a ] <> (":" <> (dec self.port <> ";"))))

unfoldable pub config_one_connection : World → ℕ → ℕ × ℕ → Script
config_one_connection w self (n1, n2) = with_block "connection" λ _.
    if w.options.proxy_enable
    then (do
      config_proxy_side (node_at self w) (node_at n1 w) (host_of n1 w)
      config_proxy_side (node_at self w) (node_at n2 w) (host_of n2 w)
      with_block "net" λ b. write b "protocol A;")
    else (do
      with_block "net" λ b. skip
      for_each (zip (host_of n1 w).addrs (host_of n2 w).addrs) λ a. with_block "path" λ b. do
        config_one_host_addr (node_at n1 w) b a.0
        config_one_host_addr (node_at n2 w) b a.1)

-- The pairs of `_config_conns_9`: each node with those after it.
unfoldable pub later_pairs : List ℕ → List (ℕ × ℕ)
later_pairs [] = []
later_pairs (n ∷ ns) = map (λ m. (n, m)) ns ++ later_pairs ns

-- The bodies of the sections "disk" and "net".
unfoldable pub write_disk : Host → String → String → ℕ → Script
write_disk host fencing disk_options b = do
  write b "disk-flushes no;"
  write b "md-flushes no;"
  when
      (not (mentions "c-min-rate" disk_options)
        && (host.os_id == "ubuntu" && host.os_version_id == "18.04"))
      (write b "c-min-rate 0;")
  when (not (fencing == "") && not (is_drbd9 host)) (write b ("fencing " <> (fencing <> ";")))
  write b disk_options

unfoldable pub write_transport : ℕ → Option String → Script
write_transport b none = skip
write_transport b (some t) = when (not (t == "")) (write b ("transport \"" <> (t <> "\";")))

unfoldable pub write_net : Host → String → Resource → ℕ → Script
unfolding write_transport
write_net host fencing resource b = do
  write_transport b resource.transport
  when (resource.tls == "yes") (write b ("tls " <> (resource.tls <> ";")))
  when (not (fencing == "") && is_drbd9 host) (write b ("fencing " <> (fencing <> ";")))
  write b resource.net_options

unfoldable pub config_options : World → ℕ → Script
config_options w self =
    let resource = resource_of self w in
    let host = host_of self w in
    let fencing = (node_at self w).fencing_mode in
    do
      with_block "handlers" λ b. write b resource.handlers
      with_block "options" λ b. write b resource.resource_options
      with_block "disk" (write_disk host fencing resource.disk_options)
      with_block "net" (write_net host fencing resource)

unfoldable pub write_memlimit : ℕ → Option ℕ → Script
write_memlimit b none = skip
write_memlimit b (some m) = when (not (m == 0)) (write b ("memlimit " <> (dec m <> ";")))

unfoldable pub config_plugin : Options → Script
config_plugin o =
    if o.lz4_enable
    then with_block "plugin" (λ p. write p "lz4;")
    else when (not (o.zstd_enable == 0))
        (with_block "plugin" λ p. write p ("zstd levels " <> (dec o.zstd_enable <> ";")))

unfoldable pub config_proxy_options : Options → Script
unfolding config_plugin write_memlimit
config_proxy_options o =
    with_block "proxy" λ b. when o.proxy_enable do config_plugin o; write_memlimit b o.memlimit

-- `Node.config` of the node `self`.
unfoldable pub config_script : World → ℕ → Script
config_script w self =
    let resource = resource_of self w in
    let drbd9 = is_drbd9 (host_of self w) in
    with_block ("resource " <> resource.name) λ _. do
      config_options w self
      config_proxy_options w.options
      for_each resource.nodes.items (config_host w drbd9)
      when drbd9 (for_each (later_pairs resource.nodes.items) (config_one_connection w self))

unfoldable pub config : World → ℕ → List Line
config w self = (config_script w self (record { stack = "top" ∷ []; lines = [] })).lines
