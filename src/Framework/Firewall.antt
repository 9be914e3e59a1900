-- ===== src/Framework/Firewall.antt =====
-- The packet filters of python/drbdtest.py and python/linuxplatformhelper.py: `Node._iptables_cmd`,
-- `block_path`, `unblock_path`, `block_packet_type` and `unblock_packet_type`. Times are in tenths
-- of a second; a word is quoted for the shell by a parameter.
pub mod Laws
use drbd9_tests.Prelude.{
  ℕ, zero, suc, ◌+◌, ◌/◌, ◌%◌, ◌≡◌, refl, Bool, true, false, not, Option, none, some, List, [], ◌∷◌,
  ◌++◌, map, String, ◌<>◌, ◌==◌, nat_eq, string_eq, ltb, leb, get_elem?, if◌then◌else◌,
}
use drbd9_tests.Prelude.Text.{dec, join}
use drbd9_tests.Results.{Result, ok, err, runtime_error, index_error}
use drbd9_tests.Results
use drbd9_tests.Exec.{Exec, pure, raise_if, lift, gets, for_each, or_raise, ◌>>=◌, ◌>>◌}
use drbd9_tests.Framework.World.{
  Host, Node, World, Remote, host_of, node_at, resource_of, or_default,
}
use drbd9_tests.Framework.Run.{node_do}

abbrev option_args : String → Option ℕ → List String
option_args flag none = []
option_args flag (some zero) = []
option_args flag (some (suc p)) = flag ∷ dec (suc p) ∷ []

-- `Node._iptables_cmd_1`
unfoldable pub iptables_cmd_1 :
    String → String → Option ℕ → String → Option ℕ → String → String → String → List String
iptables_cmd_1 chain sa sp da dp jump add_remove proto =
    "iptables"
      ∷ add_remove
      ∷ chain
      ∷ "-p"
      ∷ proto
      ∷ "--source"
      ∷ sa
      ∷ "--destination"
      ∷ da
      ∷ option_args "--source-port" sp
    ++ option_args "--destination-port" dp
    ++ "-j" ∷ jump ∷ []

-- `Node._iptables_cmd`, which has no use for its additional filter.
unfoldable pub iptables_cmd : World → ℕ → ℕ → String → ℕ → String → Result (List (List String))
iptables_cmd w n m jump path_nr add_remove = elim (get_elem? (host_of n w).addrs path_nr) [
  | none ↦ err index_error
  | some a ↦ elim (get_elem? (host_of m w).addrs path_nr) [
    | none ↦ err index_error
    | some b ↦
        let p = some (node_at n w).port in
        let q = some (node_at m w).port in
        if elim (resource_of n w).transport [ none ↦ false | some t ↦ t == "rdma" ]
        then ok (
            iptables_cmd_1 "drbd-test-output" a none b (some 4791) jump add_remove "udp"
            ∷ iptables_cmd_1 "drbd-test-input" b none a (some 4791) jump add_remove "udp"
            ∷ [])
        else ok (
            iptables_cmd_1 "drbd-test-output" a p b none jump add_remove "tcp"
            ∷ iptables_cmd_1 "drbd-test-output" a none b q jump add_remove "tcp"
            ∷ iptables_cmd_1 "drbd-test-input" b none a p jump add_remove "tcp"
            ∷ iptables_cmd_1 "drbd-test-input" b q a none jump add_remove "tcp"
            ∷ [])
  ]
]

-- A number of tenths as Python prints it.
abbrev tenths : ℕ → String
tenths t = if t % 10 == 0 then dec (t / 10) else dec (t / 10) <> ("." <> dec (t % 10))

-- The command line that blocks, sleeps and unblocks in the background.
unfoldable pub timed_cmdline : List (List String) → ℕ → List (List String) → List String
timed_cmdline cmds seconds del_cmds =
    "setsid"
    ∷ "bash"
    ∷ "-c"
    ∷ ("("
        <> (join "; " (map (join " ") cmds)
            <> ("; sleep "
                <> (tenths seconds
                    <> ("; "
                        <> (join "; " (map (join " ") del_cmds)
                            <> ") </dev/null &>/dev/null &"))))))
    ∷ []

-- `('|8620ec20 %04X %04X 0000|' % (volume, packet))`
unfoldable hex_digit : ℕ → String
hex_digit d = or_default "" (
    get_elem?
      ("0" ∷ "1" ∷ "2" ∷ "3" ∷ "4" ∷ "5" ∷ "6" ∷ "7" ∷ "8" ∷ "9" ∷ "A" ∷ "B" ∷ "C" ∷ "D" ∷ "E" ∷ "F"
        ∷ [])
      d)

hex_fuel : ℕ → ℕ → ℕ → String → String
unfolding hex_digit
hex_fuel zero width n out = out
hex_fuel (suc f) width n out =
    let rest = hex_fuel f (suc width) (n / 16) (hex_digit (n % 16) <> out) in
    if leb 4 width then (if n == 0 then out else rest) else rest

-- `%04X`: at least four digits, and at most `n + 4` are needed.
unfoldable pub hex4 : ℕ → String
unfolding hex_fuel
hex4 n = hex_fuel (n + 5) 0 n ""

-- `Node.__block_packet_type_cmd`
unfoldable pub packet_type_cmd : World → ℕ → String → ℕ → ℕ → Option ℕ → Result (List String)
packet_type_cmd w n op packet volume from_node =
    let proto =
      if elim (resource_of n w).transport [ none ↦ false | some t ↦ t == "rdma" ]
      then "udp"
      else "tcp" in
    let tail =
      "-m"
      ∷ "string"
      ∷ "--algo"
      ∷ "bm"
      ∷ "--from"
      ∷ "0"
      ∷ "--hex-string"
      ∷ ("|8620ec20 " <> (hex4 volume <> (" " <> (hex4 packet <> " 0000|"))))
      ∷ [] in
    elim from_node [
      | none ↦ ok ("iptables" ∷ op ∷ "drbd-test-input" ∷ "-p" ∷ proto ∷ tail)
      | some m ↦ elim (get_elem? (host_of m w).addrs 0) [
        | none ↦ err index_error
        | some a ↦ ok ("iptables" ∷ op ∷ "drbd-test-input" ∷ "-p" ∷ proto ∷ "-s" ∷ a ∷ tail)
      ]
    ]

module _ (remote : Remote) where
  -- `LinuxPlatformHelper.block_path`; sleeping for the lead time has no effect on the state.
  unfoldable pub block_path : ℕ → ℕ → ℕ → String → Option ℕ → Option ℕ → Exec World (Unit {0})
  block_path n m net jump lead none = do
    cmds ← λ w. (iptables_cmd w n m jump net "-I", w)
    for_each cmds (node_do remote n)
  block_path n m net jump lead (some seconds) = do
    cmds ← λ w. (iptables_cmd w n m jump net "-I", w)
    raise_if (leb seconds (or_default 3 lead)) runtime_error
    del_cmds ← λ w. (iptables_cmd w n m jump net "-D", w)
    node_do remote n (timed_cmdline cmds seconds del_cmds)

  unfoldable pub unblock_path : ℕ → ℕ → ℕ → String → Exec World (Unit {0})
  unblock_path n m net jump = do
    cmds ← λ w. (iptables_cmd w n m jump net "-D", w)
    for_each cmds (node_do remote n)

  -- `Node._block_packet_type`
  unfoldable pub block_packet : ℕ → ℕ → String → Option ℕ → ℕ → Exec World (Unit {0})
  block_packet n packet op from_node volume = do
    cmdline ← λ w. (packet_type_cmd w n op packet volume from_node, w)
    for_each ("LOG" ∷ "DROP" ∷ []) (λ target. node_do remote n (cmdline ++ "-j" ∷ target ∷ []))

  module _ (quote : String → String) where
    -- `Node.block_packet_type`
    unfoldable pub block_packet_type : ℕ → ℕ → Option ℕ → ℕ → Option ℕ → Exec World (Unit {0})
    block_packet_type n packet from_node volume none = block_packet n packet "-A" from_node volume
    block_packet_type n packet from_node volume (some seconds) = do
      block_packet n packet "-A" from_node volume
      d ← λ w. (packet_type_cmd w n "-D" packet volume from_node, w)
      let words = join " " (map quote d)
      node_do remote n (
          "setsid"
          ∷ "bash"
          ∷ "-c"
          ∷ ("( sleep "
              <> (tenths seconds
                  <> ("; "
                      <> (words
                          <> (" -j LOG; " <> (words <> " -j DROP) </dev/null &>/dev/null &"))))))
          ∷ [])

  -- `Node.unblock_packet_type`
  unfoldable pub unblock_packet_type : ℕ → ℕ → Option ℕ → ℕ → Exec World (Unit {0})
  unblock_packet_type n packet from_node volume = block_packet n packet "-D" from_node volume
