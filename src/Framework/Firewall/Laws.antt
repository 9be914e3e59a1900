-- ===== src/Framework/Firewall/Laws.antt =====
-- Unblocking takes out the rules that blocking has put in.
use drbd9_tests.Prelude.{ℕ, ◌≡◌, List, ◌∷◌, map, String, string_eq, arith}
use drbd9_tests.Results.{Result, ok, err}
use drbd9_tests.Framework.World.{World}
use drbd9_tests.Framework.Firewall.{iptables_cmd_1, iptables_cmd}

-- A rule of `iptables` with another operation.
abbrev pub with_op : String → List String → List String
with_op op (a ∷ b ∷ rest) = a ∷ op ∷ rest
with_op op words = words

abbrev pub map_result {ℓ} : {A : Type ℓ} → (A → A) → Result A → Result A
map_result f (ok a) = ok (f a)
map_result f (err e) = err e

-- The commands for a path with one operation are those with another operation, rule by rule, but for
-- the operation; and one raises exactly when the other does.
iptables_cmd-op :
    (w : World) (n m : ℕ) (jump : String) (net : ℕ) (op1 op2 : String)
    → iptables_cmd w n m jump net op2
      ≡ map_result (map (with_op op2)) (iptables_cmd w n m jump net op1)
unfolding iptables_cmd iptables_cmd_1
iptables_cmd-op w n m jump net op1 op2 = ground arith
