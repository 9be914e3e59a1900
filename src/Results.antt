-- ===== src/Results.antt =====
-- Python exceptions as values: the errors that the modelled code raises, and results.
use drbd9_tests.Prelude.{ℕ, Bool, if◌then◌else◌, Option, none, some, List, [], ◌∷◌, ◌≡◌, refl}

pub data Error : Type 0 where
  runtime_error value_error type_error key_error index_error : Error
  assertion_error not_implemented stop_iteration os_error attribute_error name_error : Error
  called_process : ℕ → Error
  system_exit : ℕ → Error

-- What a call returns, or the exception that it raises.
pub data Result {κ} (A : Type κ) : Type κ where
  ok : A → Result A
  err : Error → Result A

infixl 5 ◌>>=◌
abbrev pub ◌>>=◌ {κ ι} : {A : Type κ} {B : Type ι} → Result A → (A → Result B) → Result B
err raised >>= next = err raised
ok x >>= next = next x

-- One statement after another.
infixl 5 ◌>>◌
abbrev pub ◌>>◌ {κ} : {B : Type κ} → Result (Unit {0}) → Result B → Result B
first >> rest = first >>= λ _. rest

-- `if c: raise e`
abbrev pub raise_if : Bool → Error → Result (Unit {0})
raise_if c raised = if c then err raised else ok tt

abbrev pub or_raise {κ} : {A : Type κ} → Error → Option A → Result A
or_raise raised (some x) = ok x
or_raise raised none = err raised

-- `for x in xs`, collecting the results.
unfoldable pub collect {ℓ κ} : {A : Type ℓ} {B : Type κ} → (A → Result B) → List A → Result (List B)
collect f [] = ok []
collect f (x ∷ xs) = do y ← f x; ys ← collect f xs; ok (y ∷ ys)

-- A block that returned: its first statement returned, and so did the rest.
pub >>=-eq-ok {κ ι} :
    {A : Type κ} {B : Type ι} (r : Result A) (next : A → Result B) {out : B}
    → (r >>= next) ≡ ok out
    → (x : A) × (r ≡ ok x) × (next x ≡ ok out)
>>=-eq-ok (err raised) next returned = absurd (cc)
>>=-eq-ok (ok x) next returned = (x, refl, returned)

pub ok_injective {ℓ} : {A : Type ℓ} {a b : A} → ok a ≡ ok b → a ≡ b
ok_injective h = cc
