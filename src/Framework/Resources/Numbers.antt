-- ===== src/Framework/Resources/Numbers.antt =====
-- The numbers that `create_resource` gives to the nodes of a resource.
use drbd9_tests.Prelude.{
  ℕ, zero, suc, ◌+◌, ◌<◌, ◌≡◌, refl, ap, sym, Bool, true, false, not, ◌||◌, if◌then◌else◌, Option,
  some, List, [], ◌∷◌, ◌++◌, String, ◌==◌, nat_eq, contains, get_elem?, set, length, length-append,
  length-set, arith, Option-cases, ◌∙◌, Bool-cases, inl, inr,
}
use drbd9_tests.Prelude.Dict.{lookup}
use drbd9_tests.OrderedSet.{OrderedSet, has, add}
use drbd9_tests.OrderedSet.Invariant.{IsConsistent, add-IsConsistent, empty-IsConsistent}
use drbd9_tests.Framework.World.{
  Node, Resource, World, Remote, Command, ran, host_at, host_of, node_at, host_run, send,
  resource_at, or_default, no_resource, no_node,
}
use drbd9_tests.Framework.Control.Patterns.{has-contains}
use drbd9_tests.Results.{Result, Error, ok, err, called_process}
use drbd9_tests.Exec.{Exec, pure, gets, modify, when, ◌>>=◌, >>=-eq-ok}
use drbd9_tests.Framework.Devices.{init_node}
use drbd9_tests.Framework.Resources.{
  hosts_from, new_node, new_resource, with_resource, next_port, append_node, make_node, make_nodes,
  connect_node, connect_nodes, create_resource,
}

-- The members of a resource, in their order, are nodes of the resource with the numbers from i on.
abbrev pub NumberedFrom : ℕ → ℕ → List ℕ → List Node → Type 0
NumberedFrom i r [] nodes = Unit
NumberedFrom i r (n ∷ ns) nodes =
    (n < length nodes)
    × ((or_default no_node (get_elem? nodes n)).id ≡ i)
    × ((or_default no_node (get_elem? nodes n)).resource ≡ r)
    × NumberedFrom (suc i) r ns nodes

get-append :
    (nodes : List Node) (x : Node) (n : ℕ)
    → n < length nodes
    → get_elem? (nodes ++ x ∷ []) n ≡ get_elem? nodes n
get-append [] x n h = absurd (omega (arith, h))
get-append (y ∷ nodes) x zero h = refl
get-append (y ∷ nodes) x (suc n) h = get-append nodes x n (omega (arith, h))

get-length : (nodes : List Node) (x : Node) → get_elem? (nodes ++ x ∷ []) (length nodes) ≡ some x
get-length [] x = refl
get-length (y ∷ nodes) x = get-length nodes x

NumberedFrom-append :
    (i r : ℕ) (ns : List ℕ) (nodes : List Node) (x : Node)
    → NumberedFrom i r ns nodes
    → x.id ≡ i + length ns
    → x.resource ≡ r
    → NumberedFrom i r (ns ++ length nodes ∷ []) (nodes ++ x ∷ [])
NumberedFrom-append i r [] nodes x h id of = (
  omega (arith, length-append nodes (x ∷ [])),
  rw (get-length nodes x) (omega (arith, id)),
  rw (get-length nodes x) of,
  tt,
)
NumberedFrom-append i r (n ∷ ns) nodes x (bound, here, owner, rest) id of = (
  omega (arith, length-append nodes (x ∷ []), bound),
  rw (get-append nodes x n bound) here,
  rw (get-append nodes x n bound) owner,
  NumberedFrom-append (suc i) r ns nodes x rest (omega (arith, id)) of,
)

fresh :
    (i r : ℕ) (ns : List ℕ) (nodes : List Node)
    → NumberedFrom i r ns nodes
    → contains (length nodes) ns ≡ false
fresh i r [] nodes h = refl
fresh i r (n ∷ ns) nodes (bound, here, owner, rest) =
    ground (arith, fresh (suc i) r ns nodes rest, bound)

-- The members of a resource are distinct nodes that exist, belong to it, and are numbered from 0 in
-- their order.
pub record IsNumbered (r : ℕ) (w : World) : Type 0 where
  pub exists : r < length w.resources
  pub consistent : IsConsistent (resource_at r w).nodes
  pub numbered : NumberedFrom 0 r (resource_at r w).nodes.items w.nodes

at-set :
    (rs : List Resource) (r : ℕ) (x : Resource)
    → r < length rs
    → or_default no_resource (get_elem? (set rs r x) r) ≡ x
at-set [] r x h = absurd (omega (arith, h))
at-set (y ∷ rs) zero x h = refl
at-set (y ∷ rs) (suc r) x h = at-set rs r x (omega (arith, h))

items-add : (n : ℕ) (s : OrderedSet ℕ) → has n s ≡ false → (add n s).1.items ≡ s.items ++ n ∷ []
unfolding has add
items-add n s absent = elim (Option-cases (lookup n s.map)) [
  | inl none_there ↦ rw (none_there, add) refl
  | inr (i, found) ↦ absurd (cc (absent, found))
]

append_node-IsNumbered :
    (h r port : ℕ) (w : World) → IsNumbered r w → IsNumbered r (append_node h r port w)
unfolding append_node
append_node-IsNumbered h r port w p =
    let res = resource_at r w in
    let n = length w.nodes in
    let absent : has n res.nodes ≡ false =
      has-contains n res.nodes p.consistent ∙ fresh 0 r res.nodes.items w.nodes p.numbered in
    record {
      exists = rw (length-set w.resources r _) p.exists;
      consistent = rw (at-set w.resources r _ p.exists) (add-IsConsistent n res.nodes p.consistent);
      numbered = rw (at-set w.resources r _ p.exists) (
          rw (items-add n res.nodes absent) (
            NumberedFrom-append 0 r res.nodes.items w.nodes (new_node h r port w) p.numbered
              (omega arith) refl));
    }

next_port-IsNumbered : (h r : ℕ) (w : World) → IsNumbered r w → IsNumbered r (next_port h w).1
unfolding next_port
next_port-IsNumbered h r w p = record {
  exists = p.exists;
  consistent = p.consistent;
  numbered = p.numbered;
}

-- A command changes neither nodes nor resources.
Kept : World → World → Type 0
Kept w t = (t.nodes ≡ w.nodes) × (t.resources ≡ w.resources)

sent_state :
    (b : Bool) (out : String) (e : Error) (t : World)
    → (if◌then◌else◌ {A = Result String × World} b (ok out, t) (err e, t)).1 ≡ t
sent_state true out e t = refl
sent_state false out e t = refl

host_run-Kept :
    (remote : Remote) (h : ℕ) (argv : List String) (w t : World) (out : Result String)
    → host_run remote h argv w ≡ (out, t)
    → Kept w t
unfolding host_run send Kept
host_run-Kept remote h argv w t out e =
    let c : Command = record { host = h; netns = (host_at h w).netns; argv = argv; stdin = "" } in
    let answer = remote.answer w.done c in
    let sent =
      sym (ap (λ p. p.1) e)
      ∙ sent_state (answer.0 == 0 || false) answer.1 (called_process answer.0)
          (record w { done = w.done ++ ran c ∷ [] }) in
    (ap (λ u. u.nodes) sent, ap (λ u. u.resources) sent)

when-Kept :
    (remote : Remote) (b : Bool) (h : ℕ) (argv : List String) (w t : World)
    → when b (host_run remote h argv >>= λ _. pure tt) w ≡ (ok tt, t)
    → Kept w t
unfolding Kept
when-Kept remote false h argv w t e = let same : w ≡ t = cc in rw same (refl, refl)
when-Kept remote true h argv w t e =
    let (out, u, sent, over) = >>=-eq-ok (host_run remote h argv) (λ _. pure tt) w e in
    let same : u ≡ t = cc in rw (← same) (host_run-Kept remote h argv w u (ok out) sent)

init_node-Kept :
    (remote : Remote) (n : ℕ) (w t : World) → init_node remote n w ≡ (ok tt, t) → Kept w t
unfolding init_node
init_node-Kept remote n w t e =
    when-Kept remote (not (host_of n w).is_linux) (node_at n w).host _ w t e

Kept-IsNumbered : (r : ℕ) (w t : World) → Kept w t → IsNumbered r w → IsNumbered r t
unfolding Kept
Kept-IsNumbered r w t (nodes, resources) p = record {
  exists = rw resources p.exists;
  consistent = rw resources p.consistent;
  numbered = rw (nodes, resources) p.numbered;
}

make_nodes-IsNumbered :
    (remote : Remote) (hs : List ℕ) (r : ℕ) (w t : World)
    → IsNumbered r w
    → make_nodes remote hs r w ≡ (ok tt, t)
    → IsNumbered r t
unfolding make_nodes make_node
make_nodes-IsNumbered remote [] r w t p e = let same : w ≡ t = cc in rw (← same) p
make_nodes-IsNumbered remote (h ∷ hs) r w t p e =
    let (port, u) = next_port h w in
    let v = append_node h r port u in
    let (_, x, started, rest) =
      >>=-eq-ok (init_node remote (length u.nodes)) (λ _. make_nodes remote hs r) v e in
    make_nodes-IsNumbered remote hs r x t
      (Kept-IsNumbered r v x (init_node-Kept remote (length u.nodes) v x started)
        (append_node-IsNumbered h r port u (next_port-IsNumbered h r w p)))
      rest

-- Replacing a node by one with the same number and resource.
at-replaced :
    (nodes : List Node) (n m : ℕ) (x : Node)
    → (x.id ≡ (or_default no_node (get_elem? nodes n)).id)
    → (x.resource ≡ (or_default no_node (get_elem? nodes n)).resource)
    → ((or_default no_node (get_elem? (set nodes n x) m)).id
        ≡ (or_default no_node (get_elem? nodes m)).id)
      × ((or_default no_node (get_elem? (set nodes n x) m)).resource
          ≡ (or_default no_node (get_elem? nodes m)).resource)
at-replaced [] n m x e f = (refl, refl)
at-replaced (y ∷ nodes) zero zero x e f = (e, f)
at-replaced (y ∷ nodes) zero (suc m) x e f = (refl, refl)
at-replaced (y ∷ nodes) (suc n) zero x e f = (refl, refl)
at-replaced (y ∷ nodes) (suc n) (suc m) x e f = at-replaced nodes n m x e f

NumberedFrom-set :
    (i r : ℕ) (ns : List ℕ) (nodes : List Node) (n : ℕ) (x : Node)
    → (x.id ≡ (or_default no_node (get_elem? nodes n)).id)
    → (x.resource ≡ (or_default no_node (get_elem? nodes n)).resource)
    → NumberedFrom i r ns nodes
    → NumberedFrom i r ns (set nodes n x)
NumberedFrom-set i r [] nodes n x e f h = tt
NumberedFrom-set i r (m ∷ ns) nodes n x e f (bound, here, owner, rest) =
    let (same_id, same_owner) = at-replaced nodes n m x e f in
    (
      omega (arith, length-set nodes n x, bound),
      same_id ∙ here,
      same_owner ∙ owner,
      NumberedFrom-set (suc i) r ns nodes n x e f rest,
    )

connect_node-IsNumbered :
    (n : ℕ) (ms : List ℕ) (r : ℕ) (w : World) → IsNumbered r w → IsNumbered r (connect_node n ms w)
unfolding connect_node
connect_node-IsNumbered n [] r w p = p
connect_node-IsNumbered n (m ∷ ms) r w p = elim (Bool-cases (n == m)) [
  | inl same ↦ rw same (connect_node-IsNumbered n ms r w p)
  | inr differ ↦ rw differ (
      connect_node-IsNumbered n ms r _ (record {
        exists = p.exists;
        consistent = p.consistent;
        numbered =
            NumberedFrom-set 0 r (resource_at r w).nodes.items w.nodes n _ refl refl p.numbered;
      }))
]

connect_nodes-IsNumbered :
    (ns ms : List ℕ) (r : ℕ) (w : World) → IsNumbered r w → IsNumbered r (connect_nodes ns ms w)
unfolding connect_nodes
connect_nodes-IsNumbered [] ms r w p = p
connect_nodes-IsNumbered (n ∷ ns) ms r w p =
    connect_nodes-IsNumbered ns ms r (connect_node n ms w) (connect_node-IsNumbered n ms r w p)

at-end :
    (rs : List Resource) (x : Resource)
    → or_default no_resource (get_elem? (rs ++ x ∷ []) (length rs)) ≡ x
at-end [] x = refl
at-end (y ∷ rs) x = at-end rs x

-- When `create_resource` returns, the members of the new resource are distinct nodes that exist, belong
-- to it, and have the numbers 0, 1, 2 and so on in their order.
pub create_resource-IsNumbered :
    (remote : Remote) (name : String) (transport : Option String) (tls : String) (w t : World)
    (r : ℕ)
    → create_resource remote name transport tls w ≡ (ok r, t)
    → IsNumbered r t
unfolding create_resource
create_resource-IsNumbered remote name transport tls w t r e =
    let new = length w.resources in
    let started = with_resource (new_resource name transport tls) w in
    let connect : Unit {0} → Exec World ℕ = λ _.
      gets (λ w. (resource_at new w).nodes.items) >>= λ ns.
      modify (connect_nodes ns ns) >>= λ _. pure new in
    let (_, made, looped, rest) =
      >>=-eq-ok (make_nodes remote (hosts_from 0 w.hosts) new) connect started e in
    let ns = (resource_at new made).nodes.items in
    let start : IsNumbered new started = record {
      exists = omega (arith, length-append w.resources (new_resource name transport tls ∷ []));
      consistent = rw (at-end w.resources (new_resource name transport tls)) empty-IsConsistent;
      numbered = rw (at-end w.resources (new_resource name transport tls)) tt;
    } in
    let number : new ≡ r = cc in
    let state : connect_nodes ns ns made ≡ t = cc in
    rw (← number, ← state)
      (connect_nodes-IsNumbered ns ns new made
        (make_nodes-IsNumbered remote (hosts_from 0 w.hosts) new started made start looped))
