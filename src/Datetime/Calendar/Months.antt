-- ===== src/Datetime/Calendar/Months.antt =====
-- Months inside a year: `month_day` against `dbm` and `dim`. Each depends on the year only through
-- `leap`, so one table for a leap year and one for a common year cover them all.
use micropython_lib.Prelude.{
  ℕ, ◌+◌, ◌≤◌, ◌<◌, ◌≡◌, refl, Bool, true, ◌&&◌, ltb, leb, ◌==◌, if◌then◌else◌, arith, inl, inr,
  Bool-cases, upto, upto_sound, not, ◌||◌, ◌∙◌,
}
use native.Mathlib.Decide.{dec_lt}
use micropython_lib.Datetime.Calendar.{leap, dim, dbm, month_day}

abbrev pub year_length : ℕ → ℕ
year_length y = if leap y then 366 else 365

pub december : (y : ℕ) → (dim y 12 ≡ 31) × (dbm y 12 + 31 ≡ year_length y)
unfolding dim dbm leap
december y = (refl, ground arith)

-- `(m, d)` names the day with index `n` in year `y`.
pub record IsDayOf (y n : ℕ) (r : ℕ × ℕ) : Type 0 where
  pub month_in : (1 ≤ r.0) × (r.0 ≤ 12)
  pub day_in : (1 ≤ r.1) × (r.1 ≤ dim y r.0)
  pub index_is : dbm y r.0 + r.1 ≡ n + 1

check_day : ℕ → ℕ → Bool
check_day y n =
    let r = month_day y n in
    leb 1 r.0 && leb r.0 12 && leb 1 r.1 && leb r.1 (dim y r.0) && (dbm y r.0 + r.1 == n + 1)

common_table : upto (check_day 2001) 365 ≡ true
unfolding upto check_day month_day dim dbm leap
common_table = refl

leap_table : upto (check_day 2000) 366 ≡ true
unfolding upto check_day month_day dim dbm leap
leap_table = refl

module _ (y z : ℕ) (e : leap y ≡ leap z) where
  dim_cong : (m : ℕ) → dim y m ≡ dim z m
  unfolding dim
  dim_cong m = rw e

  dbm_cong : (m : ℕ) → dbm y m ≡ dbm z m
  unfolding dbm
  dbm_cong m = rw e

  check_day_cong : (n : ℕ) → check_day y n ≡ check_day z n
  unfolding check_day month_day dim dbm
  check_day_cong n = rw e

check_day-IsDayOf : (y n : ℕ) → check_day y n ≡ true → IsDayOf y n (month_day y n)
unfolding check_day
check_day-IsDayOf y n h = ground arith

pub month_day-IsDayOf : (y n : ℕ) → n < year_length y → IsDayOf y n (month_day y n)
month_day-IsDayOf y n h = elim (Bool-cases (leap y)) [
  | inl e ↦ check_day-IsDayOf y n (
      rw (check_day_cong y 2000 (unfold leap in e) n)
        (upto_sound (check_day 2000) 366 n leap_table (rw e at h)))
  | inr e ↦ check_day-IsDayOf y n (
      rw (check_day_cong y 2001 (unfold leap in e) n)
        (upto_sound (check_day 2001) 365 n common_table (rw e at h)))
]

check_order : ℕ → ℕ → ℕ → Bool
check_order y m k = not (ltb m k) || (m == 0) || leb (dbm y m + dim y m) (dbm y k)

common_order : upto (λ m. upto (check_order 2001 m) 13) 13 ≡ true
unfolding upto check_order dim dbm leap
common_order = refl

leap_order : upto (λ m. upto (check_order 2000 m) 13) 13 ≡ true
unfolding upto check_order dim dbm leap
leap_order = refl

check_order_cong : (y z : ℕ) → leap y ≡ leap z → (m k : ℕ) → check_order y m k ≡ check_order z m k
unfolding check_order dim dbm
check_order_cong y z e m k = rw e

check_order_holds : (y m k : ℕ) → m < 13 → k < 13 → check_order y m k ≡ true
check_order_holds y m k hm hk = elim (Bool-cases (leap y)) [
  | inl e ↦
      check_order_cong y 2000 (unfold leap in e) m k
      ∙ upto_sound (check_order 2000 m) 13 k (upto_sound _ 13 m leap_order hm) hk
  | inr e ↦
      check_order_cong y 2001 (unfold leap in e) m k
      ∙ upto_sound (check_order 2001 m) 13 k (upto_sound _ 13 m common_order hm) hk
]

-- A later month starts after the earlier one has ended.
pub dbm_mono : (y m k : ℕ) → 1 ≤ m → m < k → k ≤ 12 → dbm y m + dim y m ≤ dbm y k
unfolding check_order
dbm_mono y m k lo lt hi = ground (arith, check_order_holds y m k (omega arith) (omega arith))

-- A month lies inside its year.
pub dbm-add-dim-le : (y m : ℕ) → 1 ≤ m → m ≤ 12 → dbm y m + dim y m ≤ year_length y
dbm-add-dim-le y m lo hi = elim (dec_lt m 12) [
  | yes p ↦ omega (arith, dbm_mono y m 12 lo p (omega arith), december y)
  | no p ↦ let e : m ≡ 12 = omega arith in rw e (omega (arith, december y))
]
