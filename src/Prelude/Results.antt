-- ===== src/Prelude/Results.antt =====
-- Python's exceptions as values: `raise e` is the exception `e`.
use Prim.Native.Nat.{ℕ}
use mathlib.Core.Path.{◌≡◌, refl}
use mathlib.Core.Logic.{◌⊎◌, inl, inr}

pub data Error : Type 0 where
  value_error type_error runtime_error assertion_error os_error : Error
  key_error index_error zero_division_error attribute_error : Error
  -- An exception class of a package, with its argument.
  package_error : ℕ → Error
  -- No exception: what the code does here is not modelled.
  not_modelled : Error

pub data Result {ℓ} (A : Type ℓ) : Type ℓ where
  raise : Error → Result A
  ok : A → Result A

module _ {ℓ κ} {A : Type ℓ} {B : Type κ} where
  infixl 5 ◌>>=◌
  abbrev pub ◌>>=◌ : Result A → (A → Result B) → Result B
  raise e >>= next = raise e
  ok a >>= next = next a

  -- A chain that succeeds has a first step that does.
  pub >>=-eq-ok :
      (first : Result A) (next : A → Result B) {result : B}
      → (first >>= next) ≡ ok result
      → (a : A) × (first ≡ ok a) × (next a ≡ ok result)
  >>=-eq-ok (raise e) next chain = cc
  >>=-eq-ok (ok a) next chain = (a, refl, chain)

module _ {ℓ} {A : Type ℓ} where
  pub Result-cases : (r : Result A) → ((a : A) × (r ≡ ok a)) ⊎ ((e : Error) × (r ≡ raise e))
  Result-cases (ok a) = inl (a, refl)
  Result-cases (raise e) = inr (e, refl)

  pub raise-ne-ok : {e : Error} {a : A} → raise e ≡ ok a → ⊥
  raise-ne-ok h = cc

  pub ok-injective : {a b : A} → ok a ≡ ok b → a ≡ b
  ok-injective h = cc
