-- ===== src/Prelude/Dict.antt =====
-- A Python dict with numbers as keys, in the order of insertion.
use Prim.Native.Nat.{ℕ}
use mathlib.Core.Path.{◌≡◌, refl}
use mathlib.Core.Bool.{Bool, true, false, ◌||◌}
use mathlib.Core.Logic.{◌⊎◌, inl, inr}
use mathlib.Core.List.{List, [], ◌∷◌}
use mathlib.Core.Option.{Option, none, some}
use native.Mathlib.Omega.{arith}
use micropython_lib.Prelude.Tests.{◌==◌, if◌then◌else◌, Option-cases}

abbrev pub Dict : Type 0 → Type 0
Dict V = List (ℕ × V)

module _ {V : Type 0} where
  -- `d.get(k)`
  unfoldable pub lookup : ℕ → Dict V → Option V
  lookup k [] = none
  lookup k ((j, v) ∷ d) = let rest = lookup k d in if k == j then some v else rest

  -- `d[k] = v`
  unfoldable pub insert : ℕ → V → Dict V → Dict V
  insert k v [] = (k, v) ∷ []
  insert k v ((j, w) ∷ d) = let rest = insert k v d in if k == j then (k, v) ∷ d else (j, w) ∷ rest

  -- `k in d`
  unfoldable pub contains : ℕ → Dict V → Bool
  unfolding lookup
  contains k d = elim (lookup k d) [ none ↦ false | some _ ↦ true ]

  pub lookup-insert :
      (i k : ℕ) (v : V) (d : Dict V)
      → lookup i (insert k v d) ≡ (if i == k then some v else lookup i d)
  unfolding lookup insert
  lookup-insert i k v [] = ground arith
  lookup-insert i k v ((j, w) ∷ d) = ground (arith, lookup-insert i k v d)

  pub contains-some : (k : ℕ) (v : V) (d : Dict V) → lookup k d ≡ some v → contains k d ≡ true
  unfolding contains
  contains-some k v d e = rw (contains, e) refl

  pub contains-none : (k : ℕ) (d : Dict V) → lookup k d ≡ none → contains k d ≡ false
  unfolding contains
  contains-none k d e = rw (contains, e) refl

  pub contains-insert :
      (i k : ℕ) (v : V) (d : Dict V) → contains i (insert k v d) ≡ ((i == k) || contains i d)
  unfolding contains
  contains-insert i k v d = ground (arith, lookup-insert i k v d)

  -- A key is found or not.
  pub lookup-cases :
      (k : ℕ) (d : Dict V)
      → ((contains k d ≡ false) × (lookup k d ≡ none))
        ⊎ ((v : V) × (contains k d ≡ true) × (lookup k d ≡ some v))
  lookup-cases k d = elim (Option-cases (lookup k d)) [
    | inl e ↦ inl (contains-none k d e, e)
    | inr (v, e) ↦ inr (v, contains-some k v d e, e)
  ]
