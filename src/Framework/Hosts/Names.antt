-- ===== src/Framework/Hosts/Names.antt =====
-- What the preparation of a host leaves alone: which hosts there are, and their names.
pub mod Prepare
use drbd9_tests.Prelude.{
  ℕ, zero, suc, ◌≡◌, refl, ap, sym, ◌∙◌, Bool, true, false, Option, none, some, List, [], ◌∷◌, map,
  String, set, get_elem?, if◌then◌else◌, Bool-cases, inl, inr,
}
use drbd9_tests.Results.{Error, Result, ok, err}
use drbd9_tests.Exec.{
  Exec, pure, raise, lift, gets, modify, or_raise, raise_if, when, for_each, pass_called,
  pass_over-state, pass_all, ◌>>=◌, ◌>>◌, >>=_ok, >>=_err,
}
use drbd9_tests.Framework.World.{
  Host, World, Remote, Command, host_at, set_host, or_default, no_host, send, host_run, host_do,
  host_feed, host_outside, host_try,
}
use drbd9_tests.Framework.Run.Laws.{IsSteady, send-IsSteady, host_run-IsSteady}
use drbd9_tests.Framework.Hosts.{
  change_host, set_version, set_hash, set_numbers, linux_read_version, windows_version_line,
  windows_read_version, read_drbd_version,
}

abbrev pub host_names : World → List String
host_names w = map (λ h. h.name) w.hosts

-- What a block leaves alone of what is seen of the cluster, whatever it returns or raises.
pub record Keeps {V A : Type 0} (view : World → V) (m : Exec World A) : Type 0 where
  pub keeps : (w : World) → view (m w).1 ≡ view w

module _ {V : Type 0} {view : World → V} where
  bind_same_view :
      {A B : Type 0} (m : Exec World A) (f : A → Exec World B) (w : World) (p : Result A × World)
      → m w ≡ p
      → view p.1 ≡ view w
      → ((a : A) → Keeps view (f a))
      → view ((m >>= f) w).1 ≡ view w
  bind_same_view m f w (ok a, t) e k h = ap (λ q. view q.1) (>>=_ok m f w e) ∙ ((h a).keeps t ∙ k)
  bind_same_view m f w (err x, t) e k h = ap (λ q. view q.1) (>>=_err m f w e) ∙ k

  pub >>=-Keeps :
      {A B : Type 0} (m : Exec World A) (f : A → Exec World B)
      → Keeps view m
      → ((a : A) → Keeps view (f a))
      → Keeps view (m >>= f)
  >>=-Keeps m f p h = record { keeps = λ w. bind_same_view m f w (m w) refl (p.keeps w) h }

  pub pure-Keeps : {A : Type 0} (a : A) → Keeps view (pure {S = World} a)
  pure-Keeps a = record { keeps = λ w. refl }

  pub lift-Keeps : {A : Type 0} (r : Result A) → Keeps view (lift {S = World} r)
  lift-Keeps r = record { keeps = λ w. refl }

  pub gets-Keeps : {A : Type 0} (f : World → A) → Keeps view (gets f)
  gets-Keeps f = record { keeps = λ w. refl }

  pub or_raise-Keeps :
      {A : Type 0} (e : Error) (o : Option A) → Keeps view (or_raise {S = World} e o)
  or_raise-Keeps e none = record { keeps = λ w. refl }
  or_raise-Keeps e (some a) = record { keeps = λ w. refl }

  pub raise-Keeps : {A : Type 0} (e : Error) → Keeps view (raise {S = World} {A = A} e)
  raise-Keeps e = record { keeps = λ w. refl }

  pub raise_if-Keeps : (c : Bool) (e : Error) → Keeps view (raise_if {S = World} c e)
  raise_if-Keeps true e = record { keeps = λ w. refl }
  raise_if-Keeps false e = record { keeps = λ w. refl }

  pub when-Keeps : (c : Bool) (m : Exec World (Unit {0})) → Keeps view m → Keeps view (when c m)
  when-Keeps true m p = record { keeps = p.keeps }
  when-Keeps false m p = record { keeps = λ w. refl }

  pub if-Keeps :
      {A : Type 0} (c : Bool) (m n : Exec World A)
      → Keeps view m
      → Keeps view n
      → Keeps view (if c then m else n)
  if-Keeps true m n p q = p
  if-Keeps false m n p q = q

  pub for_each-Keeps :
      {A : Type 0} (xs : List A) (f : A → Exec World (Unit {0}))
      → ((a : A) → Keeps view (f a))
      → Keeps view (for_each xs f)
  unfolding for_each
  for_each-Keeps [] f h = record { keeps = λ w. refl }
  for_each-Keeps (x ∷ xs) f h =
      >>=-Keeps (f x) (λ _. for_each xs f) (h x) (λ _. for_each-Keeps xs f h)

  pub pass_called-Keeps : (m : Exec World (Unit {0})) → Keeps view m → Keeps view (pass_called m)
  unfolding pass_called
  pass_called-Keeps m p = record { keeps = λ w. ap view (pass_over-state (m w)) ∙ p.keeps w }

  pub pass_all-Keeps : (m : Exec World (Unit {0})) → Keeps view m → Keeps view (pass_all m)
  unfolding pass_all
  pass_all-Keeps m p = record { keeps = p.keeps }

abbrev pub KeepsNames : {A : Type 0} → Exec World A → Type 0
KeepsNames m = Keeps host_names m

abbrev pub KeepsHosts : {A : Type 0} → Exec World A → Type 0
KeepsHosts m = Keeps (λ w. w.hosts) m

map-set :
    (hs : List Host) (i : ℕ) (f : Host → Host)
    → ((x : Host) → (f x).name ≡ x.name)
    → map (λ h. h.name) (set hs i (f (or_default no_host (get_elem? hs i)))) ≡ map (λ h. h.name) hs
map-set [] i f same = refl
map-set (x ∷ hs) zero f same = ap (λ n. n ∷ map (λ h. h.name) hs) (same x)
map-set (x ∷ hs) (suc i) f same = ap (λ ns. x.name ∷ ns) (map-set hs i f same)

pub change_host-KeepsNames :
    (h : ℕ) (f : Host → Host) → ((x : Host) → (f x).name ≡ x.name) → KeepsNames (change_host h f)
change_host-KeepsNames h f same = record { keeps = λ w. map-set w.hosts h f same }

module _ (remote : Remote) where
  pub send-KeepsHosts : (catch : Bool) (c : Command) → KeepsHosts (send remote catch c)
  send-KeepsHosts catch c = record { keeps = λ w. ((send-IsSteady remote catch c).keeps w).hosts }

  pub host_run-KeepsHosts : (h : ℕ) (argv : List String) → KeepsHosts (host_run remote h argv)
  host_run-KeepsHosts h argv = record {
    keeps = λ w. ((host_run-IsSteady remote h argv).keeps w).hosts;
  }

  pub host_try-KeepsHosts : (h : ℕ) (argv : List String) → KeepsHosts (host_try remote h argv)
  unfolding host_try
  host_try-KeepsHosts h argv = record { keeps = λ w. (send-KeepsHosts true _).keeps w }

  pub host_do-KeepsHosts : (h : ℕ) (argv : List String) → KeepsHosts (host_do remote h argv)
  unfolding host_do
  host_do-KeepsHosts h argv = search (>>=-Keeps, host_run-KeepsHosts, pure-Keeps)

  pub host_feed-KeepsHosts :
      (h : ℕ) (argv : List String) (stdin : String) → KeepsHosts (host_feed remote h argv stdin)
  unfolding host_feed
  host_feed-KeepsHosts h argv stdin = record {
    keeps = λ w.
        (>>=-Keeps (send remote false _) (λ _. pure tt) (send-KeepsHosts false _)
            (λ _. pure-Keeps tt)).keeps
          w;
  }

  pub host_outside-KeepsHosts :
      (h : ℕ) (argv : List String) → KeepsHosts (host_outside remote h argv)
  unfolding host_outside
  host_outside-KeepsHosts h argv = search (>>=-Keeps, send-KeepsHosts, pure-Keeps)

  pub ruleset steps_keep_hosts = (
    >>=-Keeps, pure-Keeps, lift-Keeps, gets-Keeps, or_raise-Keeps, raise-Keeps, raise_if-Keeps,
    when-Keeps, if-Keeps, for_each-Keeps, pass_called-Keeps, pass_all-Keeps, send-KeepsHosts,
    host_run-KeepsHosts, host_try-KeepsHosts, host_do-KeepsHosts, host_feed-KeepsHosts,
    host_outside-KeepsHosts,
  )

  pub names : {A : Type 0} (m : Exec World A) → KeepsHosts m → KeepsNames m
  names m p = record { keeps = λ w. ap (map (λ h. h.name)) (p.keeps w) }

  pub send-KeepsNames : (catch : Bool) (c : Command) → KeepsNames (send remote catch c)
  send-KeepsNames catch c = names (send remote catch c) (send-KeepsHosts catch c)

  pub host_run-KeepsNames : (h : ℕ) (argv : List String) → KeepsNames (host_run remote h argv)
  host_run-KeepsNames h argv = names (host_run remote h argv) (host_run-KeepsHosts h argv)

  pub host_try-KeepsNames : (h : ℕ) (argv : List String) → KeepsNames (host_try remote h argv)
  host_try-KeepsNames h argv = names (host_try remote h argv) (host_try-KeepsHosts h argv)

  pub host_do-KeepsNames : (h : ℕ) (argv : List String) → KeepsNames (host_do remote h argv)
  host_do-KeepsNames h argv = names (host_do remote h argv) (host_do-KeepsHosts h argv)

  pub host_feed-KeepsNames :
      (h : ℕ) (argv : List String) (stdin : String) → KeepsNames (host_feed remote h argv stdin)
  host_feed-KeepsNames h argv stdin =
      names (host_feed remote h argv stdin) (host_feed-KeepsHosts h argv stdin)

  pub host_outside-KeepsNames :
      (h : ℕ) (argv : List String) → KeepsNames (host_outside remote h argv)
  host_outside-KeepsNames h argv =
      names (host_outside remote h argv) (host_outside-KeepsHosts h argv)

  pub ruleset steps_keep_names = (
    >>=-Keeps, pure-Keeps, lift-Keeps, gets-Keeps, or_raise-Keeps, raise-Keeps, raise_if-Keeps,
    when-Keeps, if-Keeps, for_each-Keeps, pass_called-Keeps, pass_all-Keeps, change_host-KeepsNames,
    send-KeepsNames, host_run-KeepsNames, host_try-KeepsNames, host_do-KeepsNames,
    host_feed-KeepsNames, host_outside-KeepsNames,
  )

  set_version-KeepsNames : (h : ℕ) (v : String) → KeepsNames (set_version h v)
  unfolding set_version
  set_version-KeepsNames h v = search (steps_keep_names)

  set_hash-KeepsNames : (h : ℕ) (v : String) → KeepsNames (set_hash h v)
  unfolding set_hash
  set_hash-KeepsNames h v = search (steps_keep_names)

  set_numbers-KeepsNames : (h : ℕ) → KeepsNames (set_numbers h)
  unfolding set_numbers
  set_numbers-KeepsNames h = search (steps_keep_names)

  linux_read_version-KeepsNames : (h : ℕ) → KeepsNames (linux_read_version remote h)
  unfolding linux_read_version
  linux_read_version-KeepsNames h =
      search (steps_keep_names, set_version-KeepsNames, set_hash-KeepsNames, set_numbers-KeepsNames)
        depth 20

  windows_version_line-KeepsNames :
      (h : ℕ) (line : String) → KeepsNames (windows_version_line remote h line)
  unfolding windows_version_line
  windows_version_line-KeepsNames h line =
      search (steps_keep_names, set_version-KeepsNames, set_hash-KeepsNames) depth 20

  windows_read_version-KeepsNames : (h : ℕ) → KeepsNames (windows_read_version remote h)
  unfolding windows_read_version
  windows_read_version-KeepsNames h =
      search (steps_keep_names, windows_version_line-KeepsNames, set_numbers-KeepsNames) depth 20

  pub read_drbd_version-KeepsNames : (h : ℕ) → KeepsNames (read_drbd_version remote h)
  unfolding read_drbd_version
  read_drbd_version-KeepsNames h =
      search (steps_keep_names, linux_read_version-KeepsNames, windows_read_version-KeepsNames)
        depth 20
