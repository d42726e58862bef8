-- ===== src/Datetime/Calendar/Gregorian.antt =====
-- The Gregorian calendar by counting: the lengths of years and months, and the days before them.
use micropython_lib.Prelude.{
  ℕ, zero, suc, ◌+◌, ◌-◌, ◌*◌, ◌/◌, ◌%◌, ◌<◌, ◌≡◌, refl, ap, sym, ◌∙◌, arith, Bool, true, false,
  ◌&&◌, ◌||◌, ltb, ◌==◌, if◌then◌else◌, get_or, upto, upto_sound, ==_iff,
}
use micropython_lib.Datetime.Calendar.{
  leap, month_lengths, month_starts, dim, dbm, days_before_year,
}

-- Every fourth year has a leap day, but of the years that end a century only every fourth.
abbrev pub has_leap_day : ℕ → Bool
has_leap_day y = if y % 400 == 0 then true else if y % 100 == 0 then false else y % 4 == 0

abbrev pub month_days : Bool → ℕ → ℕ
month_days leap_day m =
    if m == 2
    then (if leap_day then 29 else 28)
    else if (m == 4) || (m == 6) || (m == 9) || (m == 11)
    then 30
    else 31

-- The days of the first `k` months of a year.
abbrev pub days_of_months : Bool → ℕ → ℕ
days_of_months leap_day zero = 0
days_of_months leap_day (suc k) = days_of_months leap_day k + month_days leap_day (suc k)

-- The days of the years from 1 to `n`.
abbrev pub days_of_years : ℕ → ℕ
days_of_years zero = 0
days_of_years (suc n) = days_of_years n + (if has_leap_day (suc n) then 366 else 365)

leap-has_leap_day : (y : ℕ) → leap y ≡ has_leap_day y
unfolding leap
leap-has_leap_day y = ground arith

-- `_dim` and `_dbm` of a year with a leap day, or of one without.
abbrev dim_of : Bool → ℕ → ℕ
dim_of b m = if (m == 2) && b then 29 else get_or month_lengths m 0

abbrev dbm_of : Bool → ℕ → ℕ
dbm_of b m = get_or month_starts m 0 + (if ltb 2 m && b then 1 else 0)

months_agree : Bool → Bool
months_agree b =
    upto
      (λ k. (dim_of b (suc k) == month_days b (suc k)) && (dbm_of b (suc k) == days_of_months b k))
      12

months_table : (b : Bool) → months_agree b ≡ true
unfolding months_agree upto
months_table true = refl
months_table false = refl

both : (a b : Bool) → (a && b) ≡ true → (a ≡ true) × (b ≡ true)
both a b h = ground arith

month_agrees :
    (b : Bool) (k : ℕ)
    → k < 12
    → (dim_of b (suc k) ≡ month_days b (suc k)) × (dbm_of b (suc k) ≡ days_of_months b k)
unfolding months_agree
month_agrees b k h =
    let (p, q) = both _ _ (
      upto_sound
        (λ k.
          (dim_of b (suc k) == month_days b (suc k)) && (dbm_of b (suc k) == days_of_months b k))
        12 k (months_table b) h) in
    ((==_iff _ _).0 p, (==_iff _ _).0 q)

pub dim-month_days : (y k : ℕ) → k < 12 → dim y (suc k) ≡ month_days (has_leap_day y) (suc k)
unfolding dim
dim-month_days y k h =
    (month_agrees (leap y) k h).0 ∙ ap (λ b. month_days b (suc k)) (leap-has_leap_day y)

pub dbm-days_of_months : (y k : ℕ) → k < 12 → dbm y (suc k) ≡ days_of_months (has_leap_day y) k
unfolding dbm
dbm-days_of_months y k h =
    (month_agrees (leap y) k h).1 ∙ ap (λ b. days_of_months b k) (leap-has_leap_day y)

year_step :
    (n : ℕ)
    → n * 365 + n / 4 - n / 100 + n / 400 + (if has_leap_day (suc n) then 366 else 365)
      ≡ suc n * 365 + suc n / 4 - suc n / 100 + suc n / 400
year_step n = ground arith

days_before_year-suc : (n : ℕ) → days_before_year (suc n) ≡ n * 365 + n / 4 - n / 100 + n / 400
unfolding days_before_year
days_before_year-suc n = ap (λ p. p * 365 + p / 4 - p / 100 + p / 400) {x = suc n - 1} (omega arith)

pub days_before_year-days_of_years : (n : ℕ) → days_before_year (suc n) ≡ days_of_years n
days_before_year-days_of_years zero = days_before_year-suc 0
days_before_year-days_of_years (suc n) =
    days_before_year-suc (suc n)
    ∙ sym (year_step n)
    ∙ ap (λ k. k + (if has_leap_day (suc n) then 366 else 365))
        (sym (days_before_year-suc n) ∙ days_before_year-days_of_years n)
