-- ===== src/Framework/Run/Laws.antt =====
-- `Node.run`: what it does, and what it leaves alone.
use drbd9_tests.Prelude.{
  ℕ, ◌≡◌, refl, Bool, true, false, some, List, [], ◌∷◌, ◌++◌, ◌||◌, String, get_elem?, set, arith,
  zero, suc, ◌==◌, nat_eq, Bool-cases, inl, inr, ◌∙◌, if◌then◌else◌,
}
use mathlib.Core.List.{append_assoc}
use drbd9_tests.Results.{Result, ok, err}
use drbd9_tests.Exec.{Exec, pure, ◌>>=◌, for_each, when, >>=_ok, >>=_err}
use drbd9_tests.Framework.World.{
  Action, or_default, no_node, Node, World, Remote, Command, Filters, ran, scanned, node_at,
  host_at, set_node, send, host_run,
}
use drbd9_tests.Framework.Run.{
  update_config, node_run, node_do, drbdadm, write_config, logscan, scan,
}

-- A node without its flag.
abbrev pub written : Node → Node
written node = record node { config_changed = false }

written-set :
    (ns : List Node) (n m : ℕ)
    → written (
        or_default no_node (get_elem? (set ns n (written (or_default no_node (get_elem? ns n)))) m))
      ≡ written (or_default no_node (get_elem? ns m))
written-set [] n m = refl
written-set (x ∷ ns) zero zero = refl
written-set (x ∷ ns) zero (suc m) = refl
written-set (x ∷ ns) (suc n) zero = refl
written-set (x ∷ ns) (suc n) (suc m) = written-set ns n m

-- What a step of the coordinator leaves alone: everything but the flags of the nodes and the record
-- of what was done.
pub record KeepsObjects (w t : World) : Type 0 where
  pub options : t.options ≡ w.options
  pub hosts : t.hosts ≡ w.hosts
  pub resources : t.resources ≡ w.resources
  pub nodes : (n : ℕ) → written (node_at n t) ≡ written (node_at n w)

KeepsObjects-trans : (a b c : World) → KeepsObjects a b → KeepsObjects b c → KeepsObjects a c
KeepsObjects-trans a b c p q = record {
  options = q.options ∙ p.options;
  hosts = q.hosts ∙ p.hosts;
  resources = q.resources ∙ p.resources;
  nodes = λ n. q.nodes n ∙ p.nodes n;
}

abbrev pub KeepsObjects_refl : (w : World) → KeepsObjects w w
KeepsObjects_refl w = record { options = refl; hosts = refl; resources = refl; nodes = λ n. refl }

recorded : (w : World) (a : Action) → KeepsObjects w (record w { done = w.done ++ a ∷ [] })
recorded w a = record { options = refl; hosts = refl; resources = refl; nodes = λ n. refl }

choice :
    {A : Type 0} {w t : World} (b : Bool) (x y : Result A)
    → KeepsObjects w t
    → KeepsObjects w (if◌then◌else◌ {A = Result A × World} b (x, t) (y, t)).1
choice true x y k = k
choice false x y k = k

-- Whatever it returns or raises.
pub record IsSteady {A : Type 0} (m : Exec World A) : Type 0 where
  pub keeps : (w : World) → KeepsObjects w (m w).1

bind_keeps :
    {A B : Type 0} (m : Exec World A) (f : A → Exec World B) (w : World) (p : Result A × World)
    → m w ≡ p
    → KeepsObjects w p.1
    → ((a : A) → IsSteady (f a))
    → KeepsObjects w ((m >>= f) w).1
bind_keeps m f w (ok a, t) e k h =
    rw (>>=_ok m f w e) (KeepsObjects-trans w t (f a t).1 k ((h a).keeps t))
bind_keeps m f w (err e, t) h k p = rw (>>=_err m f w h) k

pub >>=-IsSteady :
    {A B : Type 0} (m : Exec World A) (f : A → Exec World B)
    → IsSteady m
    → ((a : A) → IsSteady (f a))
    → IsSteady (m >>= f)
>>=-IsSteady m f p h = record { keeps = λ w. bind_keeps m f w (m w) refl (p.keeps w) h }

pub pure-IsSteady : {A : Type 0} (a : A) → IsSteady (pure {S = World} a)
pure-IsSteady a = record { keeps = λ w. KeepsObjects_refl w }

pub when-IsSteady : (c : Bool) (m : Exec World (Unit {0})) → IsSteady m → IsSteady (when c m)
when-IsSteady true m p = record { keeps = p.keeps }
when-IsSteady false m p = record { keeps = λ w. KeepsObjects_refl w }

pub for_each-IsSteady :
    {A : Type 0} (xs : List A) (f : A → Exec World (Unit {0}))
    → ((a : A) → IsSteady (f a))
    → IsSteady (for_each xs f)
unfolding for_each
for_each-IsSteady [] f h = record { keeps = λ w. KeepsObjects_refl w }
for_each-IsSteady (x ∷ xs) f h =
    >>=-IsSteady (f x) (λ _. for_each xs f) (h x) (λ _. for_each-IsSteady xs f h)

pub get-set {ℓ} :
    {A : Type ℓ} (ns : List A) (n : ℕ) (x y : A)
    → get_elem? ns n ≡ some x
    → get_elem? (set ns n y) n ≡ some y
get-set [] n x y h = absurd (cc)
get-set (a ∷ ns) zero x y h = refl
get-set (a ∷ ns) (suc n) x y h = get-set ns n x y h

module _ (remote : Remote) where
  pub send-IsSteady : (catch : Bool) (c : Command) → IsSteady (send remote catch c)
  unfolding send
  send-IsSteady catch c = record {
    keeps = λ w. choice ((remote.answer w.done c).0 == 0 || catch) _ _ (recorded w (ran c));
  }

  pub host_run-IsSteady : (h : ℕ) (argv : List String) → IsSteady (host_run remote h argv)
  unfolding host_run
  host_run-IsSteady h argv = record { keeps = λ w. (send-IsSteady false _).keeps w }

  pub update_config-IsSteady : (n : ℕ) → IsSteady (update_config remote n)
  unfolding update_config
  update_config-IsSteady n = record {
    keeps = λ w. elim (Bool-cases (node_at n w).config_changed) [
      | inl changed ↦ rw changed (
          KeepsObjects-trans w (set_node n (record (node_at n w) { config_changed = false }) w) _
            (record {
              options = refl;
              hosts = refl;
              resources = refl;
              nodes = written-set w.nodes n;
            })
            ((>>=-IsSteady (send remote false (write_config w n)) (λ _. pure tt)
                (send-IsSteady false (write_config w n)) (λ _. pure-IsSteady tt)).keeps
              _))
      | inr same ↦ rw same (KeepsObjects_refl w)
    ];
  }

  pub node_run-IsSteady : (n : ℕ) (argv : List String) → IsSteady (node_run remote n argv)
  unfolding node_run
  node_run-IsSteady n argv =
      >>=-IsSteady (update_config remote n) (λ _ t. host_run remote (node_at n t).host argv t)
        (update_config-IsSteady n)
        (λ _. record { keeps = λ w. (host_run-IsSteady (node_at n w).host argv).keeps w })

  pub node_do-IsSteady : (n : ℕ) (argv : List String) → IsSteady (node_do remote n argv)
  unfolding node_do
  node_do-IsSteady n argv =
      >>=-IsSteady (node_run remote n argv) (λ _. pure tt) (node_run-IsSteady n argv)
        (λ _. pure-IsSteady tt)

  pub drbdadm-IsSteady : (n : ℕ) (cmd : List String) → IsSteady (drbdadm remote n cmd)
  unfolding drbdadm
  drbdadm-IsSteady n cmd = record { keeps = λ w. (node_do-IsSteady n _).keeps w }

  pub logscan-IsSteady :
      (r : ℕ) (events : List String) (fs : Filters) → IsSteady (logscan remote r events fs)
  unfolding logscan scan
  logscan-IsSteady r events fs = record {
    keeps = λ w. choice (remote.finds w.done _) _ _ (recorded w (scanned _));
  }

  abbrev pub config_write : ℕ → List String → World → Node → List Action
  config_write n argv w node =
      let command = ran (record {
        host = node.host;
        netns = (host_at node.host w).netns;
        argv = argv;
        stdin = "";
      }) in
      if node.config_changed
      then ran (write_config w n)
        ∷ (if (remote.answer w.done (write_config w n)).0 == 0 then command ∷ [] else [])
      else command ∷ []

  -- `Node.run` writes the configuration before the command exactly when it is stale, does not run
  -- the command when that fails, and leaves the node marked as written in either case.
  pub node_run-order :
      (n : ℕ) (argv : List String) (w : World) (node : Node)
      → get_elem? w.nodes n ≡ some node
      → ((node_at n (node_run remote n argv w).1).config_changed ≡ false)
        × ((node_run remote n argv w).1.done ≡ w.done ++ config_write n argv w node)
  unfolding node_run update_config host_run send
  node_run-order n argv w node found = ground (
    arith,
    found,
    get-set w.nodes n node (record node { config_changed = false }) found,
    append_assoc w.done (ran (write_config w n) ∷ []) (
        ran (record {
          host = node.host;
          netns = (host_at node.host w).netns;
          argv = argv;
          stdin = "";
        })
        ∷ []),
  )
