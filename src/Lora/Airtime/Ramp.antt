-- ===== src/Lora/Airtime/Ramp.antt =====
-- The choice of a ramp time from the list of those that the chip has.
use micropython_lib.Prelude.{
  ℕ, zero, suc, ◌+◌, ◌≤◌, ◌<◌, ◌≡◌, refl, arith, List, [], ◌∷◌, some, Result, ok, raise,
  value_error, get_elem?, leb, leb→le, if◌then◌else◌, Bool-cases, inl, inr,
}
use micropython_lib.Lora.Airtime.{ramp_from, get_pa_ramp_val}

-- The results that `_get_pa_ramp_val` may have: the place of the first value that is no less than
-- `us`, or an error where there is none.
pub data Chosen (us : ℕ) (supported : List ℕ) : Result ℕ → Type 0 where
  found :
      (i v : ℕ)
      → get_elem? supported i ≡ some v
      → us ≤ v
      → ((j w : ℕ) → j < i → get_elem? supported j ≡ some w → w < us)
      → Chosen us supported (ok i)
  refused :
      ((j w : ℕ) → get_elem? supported j ≡ some w → w < us)
      → Chosen us supported (raise value_error)

-- The same of the loop, which counts from `k`.
data From (us k : ℕ) (supported : List ℕ) : Result ℕ → Type 0 where
  found_from :
      (i p v : ℕ)
      → p ≡ i + k
      → get_elem? supported i ≡ some v
      → us ≤ v
      → ((j w : ℕ) → j < i → get_elem? supported j ≡ some w → w < us)
      → From us k supported (ok p)
  refused_from :
      ((j w : ℕ) → get_elem? supported j ≡ some w → w < us)
      → From us k supported (raise value_error)

behind :
    (us k v : ℕ) (vs : List ℕ) (r : Result ℕ) → v < us → From us (suc k) vs r → From us k (v ∷ vs) r
behind us k v vs _ h (found_from i p x q e g before) =
    found_from (suc i) p x (omega arith) e g first
  where
    first : (j w : ℕ) → j < suc i → get_elem? (v ∷ vs) j ≡ some w → w < us
    first zero w l q = ground arith
    first (suc j) w l q = before j w (omega arith) q
behind us k v vs _ h (refused_from all) = refused_from every
  where
    every : (j w : ℕ) → get_elem? (v ∷ vs) j ≡ some w → w < us
    every zero w q = ground arith
    every (suc j) w q = all j w q

branch :
    (us k v : ℕ) (vs : List ℕ) (r : Result ℕ)
    → From us (suc k) vs r
    → From us k (v ∷ vs) (if leb us v then ok k else r)
branch us k v vs r f = elim (Bool-cases (leb us v)) [
  | inl p ↦
      rw p (found_from 0 k v (omega arith) refl (leb→le us v p) (λ j w l q. absurd (omega arith)))
  | inr p ↦ rw p (behind us k v vs r (ground arith) f)
]

ramp_from-From : (us k : ℕ) (vs : List ℕ) → From us k vs (ramp_from us k vs)
unfolding ramp_from
ramp_from-From us k [] = refused_from (λ j w q. cc)
ramp_from-From us k (v ∷ vs) =
    branch us k v vs (ramp_from us (suc k) vs) (ramp_from-From us (suc k) vs)

From-Chosen : (us : ℕ) (vs : List ℕ) (r : Result ℕ) → From us 0 vs r → Chosen us vs r
From-Chosen us vs _ (found_from i p v q e g before) = rw at_start (found i v e g before)
  where
    at_start : p ≡ i
    at_start = omega arith
From-Chosen us vs _ (refused_from all) = refused all

-- `_get_pa_ramp_val` returns the place of the first ramp time that is no shorter than the one asked
-- for, or raises ConfigError where all are shorter; the list need not be sorted.
pub get_pa_ramp_val-Chosen : (us : ℕ) (vs : List ℕ) → Chosen us vs (get_pa_ramp_val us vs)
unfolding get_pa_ramp_val
get_pa_ramp_val-Chosen us vs = From-Chosen us vs _ (ramp_from-From us 0 vs)
