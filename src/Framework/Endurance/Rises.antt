-- ===== src/Framework/Endurance/Rises.antt =====
-- Whatever the coordinator does, a number that its state shows does not fall: the clock, for one, which
-- depends on what was done before.
use drbd9_tests.Prelude.{
  ℕ, ◌≤◌, ◌≡◌, refl, Bool, true, false, Option, none, some, List, [], ◌∷◌, if◌then◌else◌, arith,
}
use drbd9_tests.Results.{Error, Result, ok, err}
use drbd9_tests.Exec.{Exec, pure, lift, gets, modify, or_raise, for_each, ◌>>=◌, >>=_ok, >>=_err}

pub record Rises {S A : Type 0} (view : S → ℕ) (m : Exec S A) : Type 0 where
  pub rises : (s : S) → view s ≤ view (m s).1

module _ {S : Type 0} {view : S → ℕ} where
  through_bind :
      {A B : Type 0} (m : Exec S A) (f : A → Exec S B) (s : S) (p : Result A × S)
      → m s ≡ p
      → view s ≤ view p.1
      → ((a : A) → Rises view (f a))
      → view s ≤ view ((m >>= f) s).1
  through_bind m f s (ok a, t) e k h =
      let later = (h a).rises t in rw (>>=_ok m f s e) (omega arith)
  through_bind m f s (err x, t) e k h = rw (>>=_err m f s e) k

  pub >>=-Rises :
      {A B : Type 0} (m : Exec S A) (f : A → Exec S B)
      → Rises view m
      → ((a : A) → Rises view (f a))
      → Rises view (m >>= f)
  >>=-Rises m f p h = record { rises = λ s. through_bind m f s (m s) refl (p.rises s) h }

  pub pure-Rises : {A : Type 0} (a : A) → Rises view (pure {S = S} a)
  pure-Rises a = record { rises = λ s. omega arith }

  pub lift-Rises : {A : Type 0} (r : Result A) → Rises view (lift {S = S} r)
  lift-Rises r = record { rises = λ s. omega arith }

  pub gets-Rises : {A : Type 0} (f : S → A) → Rises view (gets f)
  gets-Rises f = record { rises = λ s. omega arith }

  pub or_raise-Rises : {A : Type 0} (e : Error) (o : Option A) → Rises view (or_raise {S = S} e o)
  or_raise-Rises e none = record { rises = λ s. omega arith }
  or_raise-Rises e (some a) = record { rises = λ s. omega arith }

  -- What is read from the state, and may be absent.
  pub look-Rises :
      {A : Type 0} (e : Error) (o : S → Option A) → Rises view (λ s. or_raise {S = S} e (o s) s)
  look-Rises e o = record { rises = λ s. (or_raise-Rises e (o s)).rises s }

  pub modify-Rises : (f : S → S) → ((s : S) → view (f s) ≡ view s) → Rises view (modify f)
  modify-Rises f same = record { rises = λ s. rw (same s) (omega arith) }

  pub if-Rises :
      {A : Type 0} (c : Bool) (m n : Exec S A)
      → Rises view m
      → Rises view n
      → Rises view (if c then m else n)
  if-Rises true m n p q = p
  if-Rises false m n p q = q

  pub for_each-Rises :
      {A : Type 0} (xs : List A) (f : A → Exec S (Unit {0}))
      → ((a : A) → Rises view (f a))
      → Rises view (for_each xs f)
  unfolding for_each
  for_each-Rises [] f h = record { rises = λ s. omega arith }
  for_each-Rises (x ∷ xs) f h =
      >>=-Rises (f x) (λ _. for_each xs f) (h x) (λ _. for_each-Rises xs f h)

  -- A call that looks at the state before it starts.
  pub see-Rises :
      {X A : Type 0} (x : S → X) (m : X → Exec S A)
      → ((a : X) → Rises view (m a))
      → Rises view (λ s. m (x s) s)
  see-Rises x m h = record { rises = λ s. (h (x s)).rises s }

pub ruleset any_rises = (
  >>=-Rises, pure-Rises, lift-Rises, gets-Rises, or_raise-Rises, look-Rises, modify-Rises, if-Rises,
  for_each-Rises,
)
