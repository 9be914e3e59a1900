-- ===== src/Framework/Connections/Laws.antt =====
-- The connections that the function `connections` makes.
use drbd9_tests.Prelude.{
  ℕ, ◌≡◌, refl, ap, sym, ◌∙◌, Bool, true, false, not, ◌&&◌, ◌||◌, Option, List, [], ◌∷◌, map, ◌==◌,
  nat_eq, pair_eq, contains, arith, Bool-cases, inl, inr, if◌then◌else◌, beq_refl,
}
use drbd9_tests.OrderedSet
use drbd9_tests.OrderedSet.{OrderedSet, has, empty}
use drbd9_tests.OrderedSet.Invariant.{
  IsConsistent, empty-IsConsistent, update-IsConsistent, add-IsConsistent,
}
use drbd9_tests.Results.{ok, collect}
use drbd9_tests.Framework.World.{World, node_at}
use drbd9_tests.Framework.Control.Patterns.{has-update, has-add, has-contains}
use drbd9_tests.Framework.Collection.{same_resource, add_member}
use drbd9_tests.Framework.Collection.Calls.{Sharing-same_resource, extend_same}
use drbd9_tests.Framework.Connections.{
  new_connection, owner_of, add_one, add_from, add_connections, all_reversed, with_reversed,
  connections, sides, one_or, given_twice,
}

abbrev reversed : ℕ × ℕ → ℕ × ℕ
reversed (a, b) = (b, a)

-- The connections without the assertions.
abbrev pairs_from : ℕ → List ℕ → OrderedSet (ℕ × ℕ) → OrderedSet (ℕ × ℕ)
pairs_from n [] cs = cs
pairs_from n (m ∷ ms) cs = pairs_from n ms (if n == m then cs else (OrderedSet.add (n, m) cs).1)

abbrev all_pairs : List ℕ → List ℕ → OrderedSet (ℕ × ℕ) → OrderedSet (ℕ × ℕ)
all_pairs [] to cs = cs
all_pairs (n ∷ ns) to cs = all_pairs ns to (pairs_from n to cs)

abbrev mirrored : Bool → OrderedSet (ℕ × ℕ) → OrderedSet (ℕ × ℕ)
mirrored true cs = (OrderedSet.update (map reversed cs.items) cs).1
mirrored false cs = cs

has-pairs_from :
    (a b n : ℕ) (ms : List ℕ) (cs : OrderedSet (ℕ × ℕ))
    → has (a, b) (pairs_from n ms cs)
      ≡ (has (a, b) cs || (a == n && (not (a == b) && contains b ms)))
has-pairs_from a b n [] cs = ground arith
has-pairs_from a b n (m ∷ ms) cs = ground (
  arith,
  has-pairs_from a b n ms cs,
  has-pairs_from a b n ms (OrderedSet.add (n, m) cs).1,
  has-add {A = ℕ × ℕ} (a, b) (n, m) cs,
)

has-all_pairs :
    (a b : ℕ) (ns ms : List ℕ) (cs : OrderedSet (ℕ × ℕ))
    → has (a, b) (all_pairs ns ms cs)
      ≡ (has (a, b) cs || (contains a ns && (not (a == b) && contains b ms)))
has-all_pairs a b [] ms cs = ground arith
has-all_pairs a b (n ∷ ns) ms cs =
    ground (arith, has-all_pairs a b ns ms (pairs_from n ms cs), has-pairs_from a b n ms cs)

pairs_from-IsConsistent :
    (n : ℕ) (ms : List ℕ) (cs : OrderedSet (ℕ × ℕ))
    → IsConsistent cs
    → IsConsistent (pairs_from n ms cs)
pairs_from-IsConsistent n [] cs c = c
pairs_from-IsConsistent n (m ∷ ms) cs c = elim (Bool-cases (n == m)) [
  | inl same ↦ rw same (pairs_from-IsConsistent n ms cs c)
  | inr differ ↦ rw differ (pairs_from-IsConsistent n ms _ (add-IsConsistent (n, m) cs c))
]

all_pairs-IsConsistent :
    (ns ms : List ℕ) (cs : OrderedSet (ℕ × ℕ)) → IsConsistent cs → IsConsistent (all_pairs ns ms cs)
all_pairs-IsConsistent [] ms cs c = c
all_pairs-IsConsistent (n ∷ ns) ms cs c =
    all_pairs-IsConsistent ns ms (pairs_from n ms cs) (pairs_from-IsConsistent n ms cs c)

contains-reversed :
    (a b : ℕ) (cs : List (ℕ × ℕ))
    → contains {A = ℕ × ℕ} (a, b) (map reversed cs) ≡ contains {A = ℕ × ℕ} (b, a) cs
contains-reversed a b [] = refl
contains-reversed a b ((c, d) ∷ cs) = ground (arith, contains-reversed a b cs)

mirrored-has :
    (bidir : Bool) (cs : OrderedSet (ℕ × ℕ))
    → IsConsistent cs
    → IsConsistent (mirrored bidir cs)
      × ((a b : ℕ) → has (a, b) (mirrored bidir cs) ≡ (has (a, b) cs || (bidir && has (b, a) cs)))
mirrored-has true cs c = (
  update-IsConsistent (map reversed cs.items) cs c,
  λ a b. ground (
    arith,
    has-update {A = ℕ × ℕ} (a, b) (map reversed cs.items) cs,
    contains-reversed a b cs.items,
    has-contains {A = ℕ × ℕ} (b, a) cs c,
  ),
)
mirrored-has false cs c = (c, λ a b. ground arith)

has-empty : (p : ℕ × ℕ) → has p (empty {A = ℕ × ℕ}) ≡ false
unfolding has
has-empty p = refl

only : (c x : ℕ × ℕ) → contains c (x ∷ []) ≡ true → c ≡ x
only c x h = (pair_eq.beq_iff c x).0 (only_test c x h)
  where
    only_test : (c x : ℕ × ℕ) → contains c (x ∷ []) ≡ true → (c == x) ≡ true
    only_test c x h = ground arith

new_pair :
    (a b n m : ℕ) (cs : OrderedSet (ℕ × ℕ))
    → has (a, b) (OrderedSet.add (n, m) cs).1 ≡ true
    → has (a, b) cs ≡ false
    → ◌≡◌ {A = ℕ × ℕ} (a, b) (n, m)
new_pair a b n m cs h gone =
    let test : (has {A = ℕ × ℕ} (a, b) cs || ◌==◌ {V = ℕ × ℕ} (a, b) (n, m)) ≡ true =
      sym (has-add {A = ℕ × ℕ} (a, b) (n, m) cs) ∙ h in
    (pair_eq.beq_iff (a, b) (n, m)).0 (rw gone at test)

first_in : (x : ℕ × ℕ) (xs : List (ℕ × ℕ)) → contains x (x ∷ xs) ≡ true
first_in x xs = rw (beq_refl x) refl

later_in : (y x : ℕ × ℕ) (xs : List (ℕ × ℕ)) → contains y xs ≡ true → contains y (x ∷ xs) ≡ true
later_in y x xs h = ground (arith, h)

module _ (owner : ℕ → ℕ) (r : ℕ) where
  -- All connections go between nodes of the resource.
  record Inside (cs : OrderedSet (ℕ × ℕ)) : Type 0 where
    consistent : IsConsistent cs
    inside : (a b : ℕ) → has (a, b) cs ≡ true → (owner a ≡ r) × (owner b ≡ r)

  abbrev Within : List ℕ → Type 0
  Within ns = (a : ℕ) → contains a ns ≡ true → owner a ≡ r

  same_owner :
      (ms : List (ℕ × ℕ)) (cs : OrderedSet (ℕ × ℕ))
      → Inside cs
      → ((c : ℕ × ℕ) → contains c ms ≡ true → owner c.0 ≡ r)
      → same_resource (owner_of owner) ms cs.items ≡ true
  same_owner ms cs i new =
      Sharing-same_resource (owner_of owner) ms cs.items (λ x y p q. of_all x p ∙ sym (of_all y q))
    where
      of_all : (x : ℕ × ℕ) → (contains x cs.items || contains x ms) ≡ true → owner x.0 ≡ r
      of_all x p = elim (Bool-cases (contains x ms)) [
        | inl there ↦ new x there
        | inr gone ↦ (i.inside x.0 x.1 (ground (arith, has-contains x cs i.consistent))).0
      ]

  new-ok : (n m : ℕ) → owner n ≡ r → owner m ≡ r → new_connection owner n m ≡ ok (n, m)
  unfolding new_connection
  new-ok n m p q = rw (p, q, beq_refl r) refl

  add_member-ok :
      (n m : ℕ) (cs : OrderedSet (ℕ × ℕ))
      → owner n ≡ r
      → Inside cs
      → add_member (owner_of owner) (n, m) cs ≡ ok (OrderedSet.add (n, m) cs).1
  unfolding add_member
  add_member-ok n m cs p i =
      rw (same_owner ((n, m) ∷ []) cs i (λ c h. ap owner (ap (λ q. q.0) (only c (n, m) h)) ∙ p))
        refl

  add-Inside :
      (n m : ℕ) (cs : OrderedSet (ℕ × ℕ))
      → owner n ≡ r
      → owner m ≡ r
      → Inside cs
      → Inside (OrderedSet.add (n, m) cs).1
  add-Inside n m cs p q i = record {
    consistent = add-IsConsistent (n, m) cs i.consistent;
    inside = λ a b h. elim (Bool-cases (has (a, b) cs)) [
      | inl old ↦ i.inside a b old
      | inr new ↦
          let same = new_pair a b n m cs h new in
          (ap owner (ap (λ c. c.0) same) ∙ p, ap owner (ap (λ c. c.1) same) ∙ q)
    ];
  }

  add_one-ok :
      (n m : ℕ) (cs : OrderedSet (ℕ × ℕ))
      → owner n ≡ r
      → owner m ≡ r
      → Inside cs
      → let next = if n == m then cs else (OrderedSet.add (n, m) cs).1 in
        (add_one owner n m cs ≡ ok next) × Inside next
  unfolding add_one
  add_one-ok n m cs p q i = elim (Bool-cases (n == m)) [
    | inl same ↦ rw same (refl, i)
    | inr differ ↦
        rw (differ, new-ok n m p q, add_member-ok n m cs p i) (refl, add-Inside n m cs p q i)
  ]

  add_from-ok :
      (n : ℕ) (ms : List ℕ) (cs : OrderedSet (ℕ × ℕ))
      → owner n ≡ r
      → Within ms
      → Inside cs
      → (add_from owner n ms cs ≡ ok (pairs_from n ms cs)) × Inside (pairs_from n ms cs)
  unfolding add_from
  add_from-ok n [] cs p q i = (refl, i)
  add_from-ok n (m ∷ ms) cs p q i =
      let (made, inside) = add_one-ok n m cs p (q m (ground (arith, nat_eq.beq_iff m m))) i in
      rw made (add_from-ok n ms _ p (λ a h. q a (ground (arith, h))) inside)

  add_connections-ok :
      (ns ms : List ℕ) (cs : OrderedSet (ℕ × ℕ))
      → Within ns
      → Within ms
      → Inside cs
      → (add_connections owner ns ms cs ≡ ok (all_pairs ns ms cs)) × Inside (all_pairs ns ms cs)
  unfolding add_connections
  add_connections-ok [] ms cs p q i = (refl, i)
  add_connections-ok (n ∷ ns) ms cs p q i =
      let (made, inside) = add_from-ok n ms cs (p n (ground (arith, nat_eq.beq_iff n n))) q i in
      rw made (add_connections-ok ns ms _ (λ a h. p a (ground (arith, h))) q inside)

  all_reversed-ok :
      (cs : List (ℕ × ℕ))
      → ((a b : ℕ) → contains (a, b) cs ≡ true → (owner a ≡ r) × (owner b ≡ r))
      → all_reversed owner cs ≡ ok (map reversed cs)
  unfolding all_reversed collect
  all_reversed-ok [] h = refl
  all_reversed-ok ((a, b) ∷ cs) h =
      let (p, q) = h a b (first_in (a, b) cs) in
      rw (new-ok b a q p, all_reversed-ok cs (λ c d k. h c d (later_in (c, d) (a, b) cs k))) refl

  with_reversed-ok :
      (bidir : Bool) (cs : OrderedSet (ℕ × ℕ))
      → Inside cs
      → with_reversed owner bidir cs ≡ ok (mirrored bidir cs)
  unfolding with_reversed
  with_reversed-ok false cs i = refl
  with_reversed-ok true cs i =
      let pairs : (a b : ℕ)
          → contains {A = ℕ × ℕ} (a, b) cs.items ≡ true
          → (owner a ≡ r) × (owner b ≡ r) =
        λ a b h. i.inside a b (has-contains {A = ℕ × ℕ} (a, b) cs i.consistent ∙ h) in
      rw (all_reversed-ok cs.items pairs) (
        extend_same (owner_of owner) (map reversed cs.items) cs (
          same_owner (map reversed cs.items) cs i
            (λ c h. (pairs c.1 c.0 (sym (contains-reversed c.0 c.1 cs.items) ∙ h)).1)))

-- Unless a side is given both as a node and as nodes, and if all nodes of the two sides belong to one
-- resource, `connections` returns each ordered pair of different nodes from the two sides once, with
-- `bidir` also each such pair reversed, and no other.
pub connections-has :
    (w : World) (from_node to_node : Option ℕ) (from_nodes to_nodes : Option (List ℕ))
    (bidir : Bool) (from to : List ℕ) (r : ℕ)
    → (given_twice from_node from_nodes || given_twice to_node to_nodes) ≡ false
    → sides w (one_or from_node from_nodes) (one_or to_node to_nodes) ≡ ok (from, to)
    → ((a : ℕ) → contains a from ≡ true → (node_at a w).resource ≡ r)
    → ((a : ℕ) → contains a to ≡ true → (node_at a w).resource ≡ r)
    → (cs : OrderedSet (ℕ × ℕ)) × (connections w from_node to_node from_nodes to_nodes bidir
        ≡ ok cs)
      × IsConsistent cs
      × ((a b : ℕ)
          → has (a, b) cs ≡ (
              not (a == b)
              && ((contains a from && contains b to)
                  || (bidir && (contains b from && contains a to)))))
unfolding connections
connections-has w from_node to_node from_nodes to_nodes bidir from to r single found p q =
    let owner : ℕ → ℕ = λ n. (node_at n w).resource in
    let cs = all_pairs from to empty in
    let (made, inside) = add_connections-ok owner r from to empty p q (record {
      consistent = empty-IsConsistent;
      inside = λ a b h. absurd (let gone = has-empty (a, b) in cc);
    }) in
    let (c, has_both) = mirrored-has bidir cs inside.consistent in
    (
      mirrored bidir cs,
      rw (single, found) (rw made (with_reversed-ok owner r bidir cs inside)),
      c,
      λ a b. ground (
        arith,
        has_both a b,
        has-all_pairs a b from to empty,
        has-all_pairs b a from to empty,
        has-empty (a, b),
        has-empty (b, a),
      ),
    )
