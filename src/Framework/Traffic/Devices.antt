-- ===== src/Framework/Traffic/Devices.antt =====
-- The table of devices that `TrafficControl._get_nodes_by_dev` makes.
use drbd9_tests.Prelude.{
  ℕ, zero, suc, ◌+◌, ◌*◌, ◌≡◌, refl, ap, sym, ◌∙◌, Bool, true, false, not, ◌&&◌, none, some, List,
  [], ◌∷◌, ◌++◌, String, ◌==◌, nat_eq, string_eq, ltb, length, arith, Bool-cases, Option-cases, inl,
  inr, ◌⊎◌, leb, if◌then◌else◌,
}
use native.Mathlib.Nat.{suc-mul}
use drbd9_tests.Prelude.Dict.{keys, lookup, insert}
use drbd9_tests.Results.{ok, err, ok_injective, runtime_error}
use drbd9_tests.Exec.{>>=-eq-ok, lift}
use drbd9_tests.OrderedSet.Invariant.{Distinct}
use drbd9_tests.OrderedSet.Keys.{insert-Distinct}
use drbd9_tests.Framework.World.{World, Remote, host_of}
use drbd9_tests.Framework.Traffic.{
  Devices, range_from, place_node, device_to, place_one, place_nodes, place_networks,
  get_nodes_by_dev,
}

-- How often an element stands in a list.
abbrev pub count : ℕ → List ℕ → ℕ
count m [] = 0
count m (x ∷ xs) = let rest = count m xs in if m == x then suc rest else rest

count-append : (m : ℕ) (xs ys : List ℕ) → count m (xs ++ ys) ≡ count m xs + count m ys
count-append m [] ys = omega arith
count-append m (x ∷ xs) ys = ground (arith, count-append m xs ys)

-- How often a node stands under the devices of a network.
abbrev pub entries : ℕ → ℕ → Devices → ℕ
entries net m [] = 0
entries net m ((dev, (dev_net, nodes)) ∷ d) =
    let rest = entries net m d in if net == dev_net then count m nodes + rest else rest

abbrev one_if : Bool → ℕ
one_if b = if b then 1 else 0

-- A new entry.
entries-insert_new :
    (k m net n : ℕ) (dev : String) (d : Devices)
    → lookup dev d ≡ none
    → entries k m (insert dev (net, n ∷ []) d) ≡ entries k m d + one_if (k == net && m == n)
unfolding lookup insert
entries-insert_new k m net n dev [] h = ground arith
entries-insert_new k m net n dev ((i, (j, ns)) ∷ d) h =
    ground (arith, entries-insert_new k m net n dev d)

-- An entry that grows by a node.
entries-insert_more :
    (k m net n : ℕ) (dev : String) (ns : List ℕ) (d : Devices)
    → lookup dev d ≡ some (net, ns)
    → entries k m (insert dev (net, ns ++ n ∷ []) d) ≡ entries k m d + one_if (k == net && m == n)
unfolding lookup insert
entries-insert_more k m net n dev ns [] h = absurd (cc)
entries-insert_more k m net n dev ns ((i, (j, ms)) ∷ d) h =
    ground (arith, entries-insert_more k m net n dev ns d, count-append m ns (n ∷ []))

-- What the entry of one node changes in the table.
record Placed (k m net n : ℕ) (d e : Devices) : Type 0 where
  counted : entries k m e ≡ entries k m d + one_if (k == net && m == n)
  distinct : Distinct (keys d) → Distinct (keys e)

grown :
    (k m net n : ℕ) (dev : String) (d e : Devices) (j : ℕ) (ns : List ℕ)
    → lookup dev d ≡ some (j, ns)
    → (if j == net then ok (insert dev (j, ns ++ n ∷ []) d) else err runtime_error) ≡ ok e
    → ((j == net) ≡ true) ⊎ ((j == net) ≡ false)
    → Placed k m net n d e
grown k m net n dev d e j ns found h (inl same) =
    let placed : insert dev (j, ns ++ n ∷ []) d ≡ e = ok_injective (rw same at h) in
    let j_net : j ≡ net = (nat_eq.beq_iff j net).0 same in
    rw (← placed) (record {
      counted = entries-insert_more k m j n dev ns d found ∙ rw j_net refl;
      distinct = insert-Distinct dev (j, ns ++ n ∷ []) d;
    })
grown k m net n dev d e j ns found h (inr differ) = absurd (cc (rw differ at h))

place_node-Placed :
    (k m net n : ℕ) (dev : String) (d e : Devices)
    → place_node net n dev d ≡ ok e
    → Placed k m net n d e
unfolding place_node
place_node-Placed k m net n dev d e h = elim (Option-cases (lookup dev d)) [
  | inl absent ↦
      let same : ok (insert dev (net, n ∷ []) d) ≡ ok e = sym (rw (absent, place_node) refl) ∙ h in
      rw (← ok_injective same) (record {
        counted = entries-insert_new k m net n dev d absent;
        distinct = insert-Distinct dev (net, n ∷ []) d;
      })
  | inr ((j, ns), found) ↦
      grown k m net n dev d e j ns found (rw (found, place_node) at h) (Bool-cases (j == net))
]

count-times :
    (k net : ℕ) (nets : List ℕ) (c : ℕ)
    → count k (net ∷ nets) * c ≡ (if k == net then c else 0) + count k nets * c
count-times k net nets c = elim (Bool-cases (k == net)) [
  | inl same ↦ rw same (suc-mul (count k nets) c ∙ omega arith)
  | inr differ ↦ rw differ (omega arith)
]

module _ (remote : Remote) where
  place_one-Placed :
      (k m source net n : ℕ) (d e : Devices) (w t : World)
      → place_one remote source net n d w ≡ (ok e, t)
      → Placed k m net n d e
  unfolding place_one
  place_one-Placed k m source net n d e w t h =
      let (dev, u, found, placed) =
        >>=-eq-ok (device_to remote source n net) (λ dev. lift (place_node net n dev d)) w h in
      place_node-Placed k m net n dev d e (ap (λ p. p.0) placed)

  place_nodes-Placed :
      (k m source net : ℕ) (ns : List ℕ) (d e : Devices) (w t : World)
      → place_nodes remote source net ns d w ≡ (ok e, t)
      → (entries k m e ≡ entries k m d + (if k == net && not (m == source) then count m ns else 0))
        × (Distinct (keys d) → Distinct (keys e))
  unfolding place_nodes
  place_nodes-Placed k m source net [] d e w t h =
      let same : d ≡ e = ok_injective (ap (λ p. p.0) h) in
      (rw same (ground arith), λ x. rw (← same) x)
  place_nodes-Placed k m source net (n ∷ ns) d e w t h = elim (Bool-cases (n == source)) [
    | inl same ↦
        let (q, r) = place_nodes-Placed k m source net ns d e w t (rw same at h) in
        (ground (arith, q), r)
    | inr differ ↦
        let (f, u, one, rest) =
          >>=-eq-ok (place_one remote source net n d) (place_nodes remote source net ns) w
            (rw differ at h) in
        let p : Placed k m net n d f = place_one-Placed k m source net n d f w u one in
        let (q, r) = place_nodes-Placed k m source net ns f e u t rest in
        (ground (arith, p.counted, q), λ x. r (p.distinct x))
  ]

  place_networks-Placed :
      (k m source : ℕ) (nets ns : List ℕ) (d e : Devices) (w t : World)
      → place_networks remote source nets ns d w ≡ (ok e, t)
      → (entries k m e ≡ entries k m d + (if m == source then 0 else count k nets * count m ns))
        × (Distinct (keys d) → Distinct (keys e))
  unfolding place_networks
  place_networks-Placed k m source [] ns d e w t h =
      let same : d ≡ e = ok_injective (ap (λ p. p.0) h) in
      (rw same (ground arith), λ x. rw (← same) x)
  place_networks-Placed k m source (net ∷ nets) ns d e w t h =
      let (f, u, one, rest) =
        >>=-eq-ok (place_nodes remote source net ns d) (place_networks remote source nets ns) w h in
      let (p, x) = place_nodes-Placed k m source net ns d f w u one in
      let (q, y) = place_networks-Placed k m source nets ns f e u t rest in
      (ground (arith, p, q, count-times k net nets (count m ns)), λ z. y (x z))

  count-range_from : (k i n : ℕ) → count k (range_from i n) ≡ one_if (leb i k && ltb k (i + n))
  count-range_from k i zero = ground arith
  count-range_from k i (suc n) = ground (arith, count-range_from k (suc i) n)

  -- When the table of devices is made, no device stands in it twice, and under the devices of a
  -- network of the source together stand exactly the given nodes without the source, each as often
  -- as it was given; a network that the source does not have is on no device.
  pub get_nodes_by_dev-entries :
      (source : ℕ) (nodes : List ℕ) (w t : World) (d : Devices)
      → get_nodes_by_dev remote source nodes w ≡ (ok d, t)
      → Distinct (keys d)
        × ((net m : ℕ)
            → entries net m d ≡ (
                if ltb net (length (host_of source w).addrs) && not (m == source)
                then count m nodes
                else 0))
  unfolding get_nodes_by_dev
  get_nodes_by_dev-entries source nodes w t d h =
      let nets = range_from 0 (length (host_of source w).addrs) in
      let placed : place_networks remote source nets nodes [] w ≡ (ok d, t) = h in
      (
        (place_networks-Placed 0 0 source nets nodes [] d w t placed).1 tt,
        λ net m. ground (
          arith,
          (place_networks-Placed net m source nets nodes [] d w t placed).0,
          count-range_from net 0 (length (host_of source w).addrs),
        ),
      )
