-- ===== src/Framework/Connections.antt =====
-- The function `connections` of python/drbdtest.py. A node is compared with another one, and so is its
-- resource, by `is`; a connection is a pair of nodes.
pub mod Laws
use drbd9_tests.Prelude.{
  ℕ, Bool, true, false, not, ◌&&◌, ◌||◌, Option, none, some, List, [], ◌∷◌, map, ◌==◌, nat_eq,
  pair_eq, is_some, if◌then◌else◌,
}
use drbd9_tests.OrderedSet
use drbd9_tests.OrderedSet.{OrderedSet}
use drbd9_tests.Results.{Result, ok, err, runtime_error, assertion_error, collect, ◌>>=◌}
use drbd9_tests.Framework.World.{World, Node, Resource, node_at, resource_of}
use drbd9_tests.Framework.Collection.{add_member, extend}

-- `x is not None and x` of an iterable argument.
abbrev pub truthy : Option (List ℕ) → Bool
truthy none = false
truthy (some []) = false
truthy (some (x ∷ xs)) = true

abbrev pub given_twice : Option ℕ → Option (List ℕ) → Bool
given_twice node nodes = is_some node && truthy nodes

abbrev pub one_or : Option ℕ → Option (List ℕ) → Option (List ℕ)
one_or none ns = ns
one_or (some n) ns = some (n ∷ [])

-- The nodes of the resource of the first node, if there is one.
unfoldable pub all_nodes : World → List ℕ → List ℕ
all_nodes w [] = []
all_nodes w (n ∷ ns) = (resource_of n w).nodes.items

-- The nodes from which and to which the connections go.
unfoldable pub sides : World → Option (List ℕ) → Option (List ℕ) → Result (List ℕ × List ℕ)
unfolding all_nodes
sides w none none = err runtime_error
sides w none (some to) = ok (all_nodes w to, to)
sides w (some from) none = ok (from, all_nodes w from)
sides w (some from) (some to) = ok (from, to)

-- `Connection(node1, node2)`, with the resources of the nodes
unfoldable pub new_connection : (ℕ → ℕ) → ℕ → ℕ → Result (ℕ × ℕ)
new_connection owner n m = if owner n == owner m then ok (n, m) else err assertion_error

-- The resource of a connection is that of its first node.
abbrev pub owner_of : (ℕ → ℕ) → ℕ × ℕ → ℕ
owner_of owner c = owner c.0

-- `if from_n != to_n: cs.add(Connection(from_n, to_n))`
unfoldable pub add_one : (ℕ → ℕ) → ℕ → ℕ → OrderedSet (ℕ × ℕ) → Result (OrderedSet (ℕ × ℕ))
unfolding new_connection
add_one owner n m cs =
    if n == m then ok cs else (do c ← new_connection owner n m; add_member (owner_of owner) c cs)

-- `for to_n in to_nodes`
unfoldable pub add_from : (ℕ → ℕ) → ℕ → List ℕ → OrderedSet (ℕ × ℕ) → Result (OrderedSet (ℕ × ℕ))
unfolding add_one
add_from owner n [] cs = ok cs
add_from owner n (m ∷ ms) cs = add_one owner n m cs >>= add_from owner n ms

unfoldable pub add_connections :
    (ℕ → ℕ) → List ℕ → List ℕ → OrderedSet (ℕ × ℕ) → Result (OrderedSet (ℕ × ℕ))
unfolding add_from
add_connections owner [] to cs = ok cs
add_connections owner (n ∷ ns) to cs = add_from owner n to cs >>= add_connections owner ns to

-- `[Connection(c.nodes[1], c.nodes[0]) for c in cs]`
unfoldable pub all_reversed : (ℕ → ℕ) → List (ℕ × ℕ) → Result (List (ℕ × ℕ))
unfolding new_connection
all_reversed owner cs = collect (λ c. new_connection owner c.1 c.0) cs

unfoldable pub with_reversed : (ℕ → ℕ) → Bool → OrderedSet (ℕ × ℕ) → Result (OrderedSet (ℕ × ℕ))
unfolding all_reversed
with_reversed owner true cs =
    all_reversed owner cs.items >>= λ back. extend (owner_of owner) back cs
with_reversed owner false cs = ok cs

-- `connections(from_node, to_node, from_nodes=..., to_nodes=..., bidir=...)`
unfoldable pub connections :
    World
    → Option ℕ
    → Option ℕ
    → Option (List ℕ)
    → Option (List ℕ)
    → Bool
    → Result (OrderedSet (ℕ × ℕ))
connections w from_node to_node from_nodes to_nodes bidir =
    if given_twice from_node from_nodes || given_twice to_node to_nodes
    then err runtime_error
    else elim (sides w (one_or from_node from_nodes) (one_or to_node to_nodes)) [
      | err e ↦ err e
      | ok (from, to) ↦
          let owner : ℕ → ℕ = λ n. (node_at n w).resource in
          add_connections owner from to OrderedSet.empty >>= with_reversed owner bidir
    ]
