-- ===== src/Prelude/Exec.antt =====
-- Methods that mutate objects and may raise. What was written before a raise stays written, so
-- the state comes back beside the exception too.

use mathlib.Core.Path.{◌≡◌, refl}
use mathlib.Core.Logic.{◌⊎◌, inl, inr}
use mathlib.Core.Bool.{Bool, true, false}

-- the exceptions that the modelled code raises, its own and Python's
pub data Error : Type 0 where
  value_error not_implemented key_error index_error attribute_error type_error : Error
  zero_division_error unbound_local_error os_error : Error
  runtime_error assertion_error cache_allocation_failure : Error

pub data Result {ℓ} (A : Type ℓ) : Type ℓ where
  ok : A → Result A
  err : Error → Result A

abbrev pub Exec {ℓ} : Type ℓ → Type ℓ → Type ℓ
Exec S A = S → Result A × S

module _ {ℓ} {S A : Type ℓ} where
  abbrev pub pure : A → Exec S A
  pure a s = (ok a, s)

  abbrev pub raise : Error → Exec S A
  raise e s = (err e, s)

abbrev pub update : {S : Type 0} → (S → S) → Exec S (Unit {0})
update f s = (ok tt, f s)

module _ {ℓ} {S A B : Type ℓ} where
  abbrev pub continue : Result A → (A → Exec S B) → Exec S B
  continue (ok a) rest s = rest a s
  continue (err e) rest s = (err e, s)

  infixl 10 ◌>>=◌ ◌>>◌
  unfoldable pub ◌>>=◌ : Exec S A → (A → Exec S B) → Exec S B
  ◌>>=◌ first rest s = let (r, t) = first s in continue r rest t

  abbrev pub ◌>>◌ : Exec S A → Exec S B → Exec S B
  first >> second = first >>= λ _. second

-- A computation that goes on with the result of another one, or raises what that raised.
unfoldable pub attempt {ℓ κ} : {A : Type ℓ} {B : Type κ} → Result A → (A → Result B) → Result B
attempt (ok a) rest = rest a
attempt (err e) rest = err e

pub Result-cases {ℓ} :
    {A : Type ℓ} (r : Result A) → ((a : A) × (r ≡ ok a)) ⊎ ((e : Error) × (r ≡ err e))
Result-cases (ok a) = inl (a, refl)
Result-cases (err e) = inr (e, refl)

pub attempt-ok {ℓ κ} :
    {A : Type ℓ} {B : Type κ} (r : Result A) {f : A → Result B} {b : B}
    → attempt r f ≡ ok b
    → (a : A) × (r ≡ ok a) × (f a ≡ ok b)
unfolding attempt
attempt-ok (ok a) run = (a, refl, run)
attempt-ok (err e) run = absurd (cc)

-- A test that raises an exception where it fails.
abbrev pub guard : Bool → Error → Result (Unit {0})
guard true e = ok tt
guard false e = err e

pub guard-ok : (b : Bool) (e : Error) {u : Unit {0}} → guard b e ≡ ok u → b ≡ true
guard-ok true e run = refl
guard-ok false e run = absurd (cc)

pub ok-value {ℓ} : {A : Type ℓ} {a b : A} → ok a ≡ ok b → a ≡ b
ok-value run = cc
