-- ===== src/Framework/Traffic/Classes.antt =====
-- The classes and handles of `TrafficControl` for the members of a resource.
use drbd9_tests.Prelude.{ℕ, ◌≤◌, ◌≡◌, List, String, ◌<>◌, get_elem?}
use drbd9_tests.Prelude.Text.{dec}
use drbd9_tests.Framework.World.{Node, World, or_default, no_node}

abbrev id_in : List Node → ℕ → ℕ
id_in nodes n = (or_default no_node (get_elem? nodes n)).id

-- A class of a `prio` qdisc at "1:", for a band below the number of bands. `tc` reads its number as
-- hexadecimal, which is the same for one digit.
abbrev pub IsClassOf : ℕ → String → Type 0
IsClassOf bands text = (k : ℕ) × (1 ≤ k) × (k ≤ bands) × (k ≤ 9) × (text ≡ "1:" <> dec k)
