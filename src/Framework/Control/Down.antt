-- ===== src/Framework/Control/Down.antt =====
-- What `Nodes.down` leaves of the forbidden patterns of its resource.
use drbd9_tests.Prelude.{
  ℕ, ◌≡◌, refl, Bool, true, some, List, [], ◌∷◌, ◌++◌, String, string_eq, contains, keep, get_elem?,
  arith, ap, ap₂, sym, ◌∙◌, Bool-cases, inl, inr,
}
use drbd9_tests.OrderedSet.{OrderedSet, has, update, difference_update}
use drbd9_tests.OrderedSet.Invariant.{IsConsistent, contains-append}
use mathlib.Core.Path.{subst}
use drbd9_tests.Results.{Result, ok, err}
use drbd9_tests.Exec.{Exec, gets, modify, when, for_each, ◌>>=◌, ◌>>◌, >>=-eq-ok}
use drbd9_tests.Framework.World.{
  World, Remote, Resource, node_at, resource_at, or_default, no_resource,
}
use drbd9_tests.Framework.Run.Laws.{
  KeepsObjects, KeepsObjects_refl, IsSteady, >>=-IsSteady, when-IsSteady, for_each-IsSteady,
  drbdadm-IsSteady, logscan-IsSteady, get-set,
}
use drbd9_tests.Framework.Run.{drbdadm}
use drbd9_tests.Framework.Control.{
  while_allowed, change_patterns, nodes_resource, allow_lost, allow_failed, tested, nodes_drbdadm,
  resource_cmd, nodes_event, nodes_down, min_drbd_version_tuple, node_filters,
}
use drbd9_tests.Framework.Control.Patterns.{has-update-difference_update}

abbrev pub patterns_at : ℕ → World → OrderedSet String
patterns_at r w = (resource_at r w).forbidden_patterns

change_patterns-at :
    (r : ℕ) (f : OrderedSet String → OrderedSet String) (w : World) (res : Resource)
    → get_elem? w.resources r ≡ some res
    → get_elem? (change_patterns r f w).resources r
      ≡ some (record res { forbidden_patterns = f res.forbidden_patterns })
unfolding change_patterns
change_patterns-at r f w res found = rw found (get-set w.resources r res _ found)

-- What the body leaves of the objects is what it was given; so the patterns are whole again.
while_allowed-restores :
    (r : ℕ) (ps : List String) (body : Exec World (Unit {0})) (w : World) (res : Resource)
    (t : World)
    → get_elem? w.resources r ≡ some res
    → IsConsistent res.forbidden_patterns
    → ((p : String) → contains p ps ≡ true → has p res.forbidden_patterns ≡ true)
    → IsSteady body
    → while_allowed r ps body w ≡ (ok tt, t)
    → (p : String) → has p (patterns_at r t) ≡ has p res.forbidden_patterns
unfolding while_allowed
while_allowed-restores r ps body w res t found c sub steady h p =
    let add_again = change_patterns r (λ s. (update ps s).1) in
    let w1 = change_patterns r (difference_update ps) w in
    let (_, u, ran, last) = >>=-eq-ok body (λ _. modify add_again) w1 h in
    let kept : u.resources ≡ w1.resources =
      ap (λ q. q.1.resources) (sym ran) ∙ (steady.keeps w1).resources in
    let there =
      ap (λ rs. get_elem? rs r) kept ∙ change_patterns-at r (difference_update ps) w res found in
    let final : t ≡ add_again u = sym (ap (λ q. q.1) last) in
    ap (λ q. has p (patterns_at r q)) final
    ∙ (ap (λ s. has p s)
          (ap (λ o. (or_default no_resource o).forbidden_patterns)
            (change_patterns-at r (λ s. (update ps s).1) u _ there))
        ∙ has-update-difference_update p ps res.forbidden_patterns c (sub p))

contains-keep :
    (f : String → Bool) (xs : List String) (p : String) → contains p (keep f xs) ≡ true → f p ≡ true
contains-keep f [] p h = absurd (cc)
contains-keep f (x ∷ xs) p h = ground (arith, string_eq.beq_iff p x, contains-keep f xs p)

allow_lost-has :
    (r : ℕ) (w : World) (p : String)
    → contains p (allow_lost r w) ≡ true
    → has p (patterns_at r w) ≡ true
unfolding allow_lost
allow_lost-has r w p h =
    contains-keep (λ q. has q (patterns_at r w))
      ("connection:BrokenPipe" ∷ "connection:NetworkFailure" ∷ []) p h

allow_failed-has :
    (r : ℕ) (ns : List ℕ) (w u : World) (ps : List String)
    → allow_failed r ns w ≡ (ok ps, u)
    → (p : String) → contains p ps ≡ true
    → has p (patterns_at r w) ≡ true
unfolding allow_failed
allow_failed-has r ns w u ps h p q = ground (arith, string_eq.beq_iff p "disk:Failed")

least : (w : World) (v : Result (ℕ × ℕ × ℕ)) → KeepsObjects w (tested w v).1
least w (ok v) = KeepsObjects_refl w
least w (err e) = KeepsObjects_refl w

removed-has :
    (r : ℕ) (ns : List ℕ) (w u : World) (failed : List String)
    → allow_failed r ns w ≡ (ok failed, u)
    → (p : String) → contains p (allow_lost r w ++ failed) ≡ true
    → has p (patterns_at r w) ≡ true
removed-has r ns w u failed h p q = elim (Bool-cases (contains p (allow_lost r w))) [
  | inl lost ↦ allow_lost-has r w p lost
  | inr kept ↦
      allow_failed-has r ns w u failed h p
        (ground (arith, kept, contains-append p (allow_lost r w) failed, q))
]

allow_failed-IsSteady : (r : ℕ) (ns : List ℕ) → IsSteady (allow_failed r ns)
unfolding allow_failed
allow_failed-IsSteady r ns = record {
  keeps = λ w. elim (Bool-cases (has "disk:Failed" (patterns_at r w))) [
    | inl there ↦ rw there (least w (min_drbd_version_tuple w ns))
    | inr absent ↦ rw absent (KeepsObjects_refl w)
  ];
}

keeps-ok :
    {A : Type 0} (m : Exec World A) (w u : World) (r : Result A)
    → IsSteady m
    → m w ≡ (r, u)
    → KeepsObjects w u
keeps-ok m w u r steady e = subst (λ q. KeepsObjects w q.1) e (steady.keeps w)

gets-IsSteady : {A : Type 0} (f : World → A) → IsSteady (gets f)
gets-IsSteady f = record { keeps = λ w. KeepsObjects_refl w }

nodes_resource-IsSteady : (ns : List ℕ) → IsSteady (nodes_resource ns)
unfolding nodes_resource
nodes_resource-IsSteady [] = record { keeps = λ w. KeepsObjects_refl w }
nodes_resource-IsSteady (n ∷ ns) = record { keeps = λ w. KeepsObjects_refl w }

module _ (remote : Remote) where
  resource_cmd-IsSteady :
      (ns : List ℕ) (cmd : String) (more : List String) → IsSteady (resource_cmd remote ns cmd more)
  unfolding resource_cmd nodes_drbdadm
  resource_cmd-IsSteady ns cmd more =
      >>=-IsSteady (nodes_resource ns)
        (λ r. gets (λ w. (resource_at r w).name) >>= λ name.
          for_each ns (λ n. drbdadm remote n (cmd ∷ name ∷ more)))
        (nodes_resource-IsSteady ns)
        (λ r.
          >>=-IsSteady (gets (λ w. (resource_at r w).name))
            (λ name. for_each ns (λ n. drbdadm remote n (cmd ∷ name ∷ more))) (gets-IsSteady _)
            (λ name. for_each-IsSteady ns _ (λ n. drbdadm-IsSteady remote n _)))

  nodes_event-IsSteady :
      (ns : List ℕ) (events : List String) → IsSteady (nodes_event remote ns events)
  unfolding nodes_event
  nodes_event-IsSteady [] events = record { keeps = λ w. KeepsObjects_refl w }
  nodes_event-IsSteady (n ∷ ns) events = record {
    keeps = λ w.
        (logscan-IsSteady remote (node_at n w).resource events (node_filters w (n ∷ ns) [])).keeps
          w;
  }

  down_body-IsSteady :
      (ns : List ℕ)
      → IsSteady
          (resource_cmd remote ns "down" [] >> nodes_event remote ns ("destroy resource" ∷ []))
  down_body-IsSteady ns =
      >>=-IsSteady (resource_cmd remote ns "down" [])
        (λ _. nodes_event remote ns ("destroy resource" ∷ [])) (resource_cmd-IsSteady ns "down" [])
        (λ _. nodes_event-IsSteady ns ("destroy resource" ∷ []))

  abbrev part : List ℕ → ℕ → List String → List String → Exec World (Unit {0})
  part ns r lost failed =
      while_allowed r (lost ++ failed)
        (resource_cmd remote ns "down" [] >> nodes_event remote ns ("destroy resource" ∷ []))

  abbrev after_proxy : List ℕ → Exec World (Unit {0})
  after_proxy ns = nodes_resource ns >>= λ r.
      gets (allow_lost r) >>= λ lost. allow_failed r ns >>= λ failed. part ns r lost failed

  abbrev after_first : List ℕ → Bool → Exec World (Unit {0})
  after_first ns proxy = when proxy (resource_cmd remote ns "proxy-down" []) >>= λ _. after_proxy ns

  down_split :
      (ns : List ℕ) → nodes_down remote ns ≡ (gets (λ w. w.options.proxy_enable) >>= after_first ns)
  unfolding nodes_down
  down_split ns = refl

  after_proxy-restores :
      (n : ℕ) (ns : List ℕ) (w t : World) (res : Resource)
      → get_elem? w.resources (node_at n w).resource ≡ some res
      → IsConsistent res.forbidden_patterns
      → after_proxy (n ∷ ns) w ≡ (ok tt, t)
      → (p : String) → has p (patterns_at (node_at n w).resource t) ≡ has p res.forbidden_patterns
  unfolding nodes_resource
  after_proxy-restores n ns w t res found c h p =
      let r = (node_at n w).resource in
      let (failed, u, tests, rest) =
        >>=-eq-ok (allow_failed r (n ∷ ns)) (part (n ∷ ns) r (allow_lost r w)) w h in
      let kept =
        keeps-ok (allow_failed r (n ∷ ns)) w u (ok failed) (allow_failed-IsSteady r (n ∷ ns))
          tests in
      let there = ap (λ rs. get_elem? rs r) kept.resources ∙ found in
      let same : patterns_at r w ≡ res.forbidden_patterns =
        ap (λ o. (or_default no_resource o).forbidden_patterns) found in
      while_allowed-restores r (allow_lost r w ++ failed)
        (resource_cmd remote (n ∷ ns) "down" []
          >> nodes_event remote (n ∷ ns) ("destroy resource" ∷ []))
        u res t there c
        (λ x q. ap (λ s. has x s) (sym same) ∙ removed-has r (n ∷ ns) w u failed tests x q)
        (down_body-IsSteady (n ∷ ns)) rest p

  -- When `Nodes.down` returns, the resource of its first node forbids the same patterns as before; for
  -- a resource whose set of patterns is consistent.
  pub nodes_down-patterns :
      (n : ℕ) (ns : List ℕ) (w t : World) (res : Resource)
      → get_elem? w.resources (node_at n w).resource ≡ some res
      → IsConsistent res.forbidden_patterns
      → nodes_down remote (n ∷ ns) w ≡ (ok tt, t)
      → (p : String) → has p (patterns_at (node_at n w).resource t) ≡ has p res.forbidden_patterns
  nodes_down-patterns n ns w t res found c h p =
      let h' = ap (λ f. f w) (sym (down_split (n ∷ ns))) ∙ h in
      let (_, u, first, rest) =
        >>=-eq-ok (when w.options.proxy_enable (resource_cmd remote (n ∷ ns) "proxy-down" []))
          (λ _. after_proxy (n ∷ ns)) w h' in
      let kept =
        keeps-ok (when w.options.proxy_enable (resource_cmd remote (n ∷ ns) "proxy-down" [])) w u
          (ok tt)
          (when-IsSteady w.options.proxy_enable _ (resource_cmd-IsSteady (n ∷ ns) "proxy-down" []))
          first in
      let same : (node_at n u).resource ≡ (node_at n w).resource =
        ap (λ x. x.resource) (kept.nodes n) in
      rw (← same) (
        after_proxy-restores n ns u t res (ap₂ (λ rs r. get_elem? rs r) kept.resources same ∙ found)
          c rest p)
