-- ===== src/Exec.antt =====
-- Calls that change a state and may raise. What was written before a raise
-- stays written, so the state comes back beside the error too.
use drbd9_tests.Results.{Error, Result, ok, err, called_process}
use drbd9_tests.Prelude.{
  Bool, true, false, if◌then◌else◌, Option, none, some, List, [], ◌∷◌, ◌≡◌, refl, ap,
}

abbrev pub Exec {ℓ} : Type ℓ → Type ℓ → Type ℓ
Exec S A = S → Result A × S

module _ {ℓ} {S A : Type ℓ} where
  abbrev pub pure : A → Exec S A
  pure a s = (ok a, s)

  abbrev pub raise : Error → Exec S A
  raise e s = (err e, s)

  abbrev pub lift : Result A → Exec S A
  lift r s = (r, s)

  abbrev pub gets : (S → A) → Exec S A
  gets f s = (ok (f s), s)

  -- `xs[i]`, `d[k]`, `next(...)`: an absent value raises.
  abbrev pub or_raise : Error → Option A → Exec S A
  or_raise e none s = (err e, s)
  or_raise e (some a) s = (ok a, s)

abbrev pub modify : {S : Type 0} → (S → S) → Exec S (Unit {0})
modify f s = (ok tt, f s)

infixl 5 ◌>>=◌ ◌>>◌
abbrev pub ◌>>=◌ {ℓ} : {S A B : Type ℓ} → Exec S A → (A → Exec S B) → Exec S B
◌>>=◌ m f s = let (r, s') = m s in elim r [ ok a ↦ f a s' | err e ↦ (err e, s') ]

abbrev pub ◌>>◌ : {S B : Type 0} → Exec S (Unit {0}) → Exec S B → Exec S B
m >> k = m >>= λ _. k

-- `if c: raise e`
abbrev pub raise_if : {S : Type 0} → Bool → Error → Exec S (Unit {0})
raise_if true e s = (err e, s)
raise_if false e s = (ok tt, s)

-- `if c: m`
abbrev pub when : {S : Type 0} → Bool → Exec S (Unit {0}) → Exec S (Unit {0})
when true m s = m s
when false m s = (ok tt, s)

-- `try: m except CalledProcessError: pass`
is_called : Error → Bool
is_called (called_process status) = true
is_called _ = false

unfoldable pub pass_over : {S : Type 0} → Result (Unit {0}) × S → Result (Unit {0}) × S
unfolding is_called
pass_over (ok a, t) = (ok a, t)
pass_over (err e, t) = if is_called e then (ok tt, t) else (err e, t)

chosen :
    {S : Type 0} (b : Bool) (e : Error) (t : S)
    → (if◌then◌else◌ {A = Result (Unit {0}) × S} b (ok tt, t) (err e, t)).1 ≡ t
chosen true e t = refl
chosen false e t = refl

pub pass_over-state : {S : Type 0} (p : Result (Unit {0}) × S) → (pass_over p).1 ≡ p.1
unfolding pass_over
pass_over-state (ok a, t) = refl
pass_over-state (err e, t) = chosen (is_called e) e t

unfoldable pub pass_called : {S : Type 0} → Exec S (Unit {0}) → Exec S (Unit {0})
unfolding pass_over
pass_called m s = pass_over (m s)

-- `try: m except: pass`
unfoldable pub pass_all : {S : Type 0} → Exec S (Unit {0}) → Exec S (Unit {0})
pass_all m s = (ok tt, (m s).1)

-- `for x in xs: f(x)`
unfoldable pub for_each : {S A : Type 0} → List A → (A → Exec S (Unit {0})) → Exec S (Unit {0})
for_each [] f = pure tt
for_each (x ∷ xs) f = let rest = for_each xs f in f x >>= λ _. rest

-- `[f(x) for x in xs]`
unfoldable pub collect : {S A B : Type 0} → List A → (A → Exec S B) → Exec S (List B)
collect [] f = pure []
collect (x ∷ xs) f = do y ← f x; ys ← collect xs f; pure (y ∷ ys)

-- Inversion of a block that returned.
bind_cases {ℓ} :
    {S A B : Type ℓ} (f : A → Exec S B) (p : Result A × S) {b : B} {t : S}
    → elim p.0 [ ok a ↦ f a p.1 | err e ↦ (err e, p.1) ] ≡ (ok b, t)
    → (a : A) × (u : S) × (p ≡ (ok a, u)) × (f a u ≡ (ok b, t))
bind_cases f (ok a, u) h = (a, u, refl, h)
bind_cases f (err e, u) h = absurd (cc)

pub >>=-eq-ok {ℓ} :
    {S A B : Type ℓ} (m : Exec S A) (f : A → Exec S B) (s : S) {b : B} {t : S}
    → (m >>= f) s ≡ (ok b, t)
    → (a : A) × (u : S) × (m s ≡ (ok a, u)) × (f a u ≡ (ok b, t))
>>=-eq-ok m f s h = bind_cases f (m s) h

-- A first step that is known to return, or to raise.
pub >>=_ok {ℓ} :
    {S A B : Type ℓ} (m : Exec S A) (f : A → Exec S B) (s : S) {a : A} {t : S}
    → m s ≡ (ok a, t)
    → (m >>= f) s ≡ f a t
>>=_ok m f s e = ap (λ p. elim p.0 [ ok a ↦ f a p.1 | err e ↦ (err e, p.1) ]) e

pub >>=_err {ℓ} :
    {S A B : Type ℓ} (m : Exec S A) (f : A → Exec S B) (s : S) {e : Error} {t : S}
    → m s ≡ (err e, t)
    → (m >>= f) s ≡ (err e, t)
>>=_err m f s e = ap (λ p. elim p.0 [ ok a ↦ f a p.1 | err e ↦ (err e, p.1) ]) e
