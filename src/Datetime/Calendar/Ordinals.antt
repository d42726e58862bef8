-- ===== src/Datetime/Calendar/Ordinals.antt =====
-- Dates against ordinals: `_date` and `_o2ymd` are inverse to each other.
use micropython_lib.Prelude.{
  ℕ, ◌+◌, ◌-◌, ◌≤◌, ◌<◌, ◌≡◌, ◌⊎◌, arith, ◌==◌, ◌||◌, ◌*◌, ◌/◌, ◌%◌, if◌then◌else◌,
}
use mathlib.Core.Path.{subst}
use micropython_lib.Datetime.Calendar.{
  leap, dim, dbm, month_day, o2ymd, days_before_year, max_ordinal, with_year,
}
use micropython_lib.Datetime.Calendar.Months.{
  year_length, december, month_day-IsDayOf, dbm_mono, dbm-add-dim-le,
}

pub days_before_year-suc :
    (y : ℕ) → 1 ≤ y → days_before_year (y + 1) ≡ days_before_year y + year_length y
unfolding days_before_year leap
days_before_year-suc y h = ground arith

pub days_before_year_mono :
    (y z : ℕ) → 1 ≤ y → y < z → days_before_year y + year_length y ≤ days_before_year z
unfolding days_before_year leap
days_before_year_mono y z h lt = ground arith

abbrev pub Ymd : Type 0
Ymd = ℕ × ℕ × ℕ

-- A date of the calendar, from 0001-01-01 to 9999-12-31.
pub record IsDate (t : Ymd) : Type 0 where
  pub year_in : (1 ≤ t.0) × (t.0 ≤ 9999)
  pub month_in : (1 ≤ t.1) × (t.1 ≤ 12)
  pub day_in : (1 ≤ t.2) × (t.2 ≤ dim t.0 t.1)

-- `t` is the date with ordinal `o`.
pub record Names (o : ℕ) (t : Ymd) : Type 0 where
  pub date_is : IsDate t
  pub ordinal_is : days_before_year t.0 + dbm t.0 t.1 + t.2 ≡ o

-- The splitting of the day index in `_o2ymd`: a whole number of years, and a day of the next.
split_ordinary :
    (a b c d r : ℕ)
    → b ≤ 3
    → c ≤ 24
    → d ≤ 3
    → r < 365
    → let y = a * 400 + 1 + (b * 100 + c * 4 + d) in
      (days_before_year y ≡ a * 146097 + b * 36524 + c * 1461 + d * 365)
unfolding days_before_year
split_ordinary a b c d r hb hc hd hr = omega arith

split_last :
    (a b c d : ℕ)
    → ((b ≤ 3) × (c ≤ 23) × (d ≡ 4)) ⊎ ((b ≡ 4) × (c ≡ 0) × (d ≡ 0))
    → let y = a * 400 + 1 + (b * 100 + c * 4 + d) - 1 in
      (days_before_year y + year_length y ≡ a * 146097 + b * 36524 + c * 1461 + d * 365 + 1)
unfolding days_before_year leap
split_last a b c d h = ground arith

-- The quotients and remainders of `_o2ymd`, for the day index `n`.
record Splits (n a b c d r : ℕ) : Type 0 where
  total : n ≡ a * 146097 + b * 36524 + c * 1461 + d * 365 + r
  short : r < 365
  shape :
      ((b ≤ 3) × (c ≤ 24) × (d ≤ 3))
      ⊎ (((b ≤ 3) × (c ≤ 23) × (d ≡ 4)) ⊎ ((b ≡ 4) × (c ≡ 0) × (d ≡ 0)))
  at_end : ((d ≡ 4) ⊎ (b ≡ 4)) → r ≡ 0

abbrev finish : ℕ → ℕ → ℕ → ℕ → ℕ → Ymd
finish a b c d r =
    let y = a * 400 + 1 + (b * 100 + c * 4 + d) in
    if (d == 4) || (b == 4) then (y - 1, 12, 31) else with_year y (month_day y r)

finish-Names :
    (n a b c d r : ℕ) → n < max_ordinal → Splits n a b c d r → Names (n + 1) (finish a b c d r)
finish-Names n a b c d r h s = ground (
  arith,
  split_ordinary a b c d r,
  split_last a b c d,
  december (a * 400 + 1 + (b * 100 + c * 4 + d) - 1),
  month_day-IsDayOf (a * 400 + 1 + (b * 100 + c * 4 + d)) r,
)

o2ymd-Splits :
    (n : ℕ)
    → Splits n
        (n / 146097)
        (n % 146097 / 36524)
        (n % 146097 % 36524 / 1461)
        (n % 146097 % 36524 % 1461 / 365)
        (n % 146097 % 36524 % 1461 % 365)
o2ymd-Splits n = ground arith

-- `_o2ymd` finds the date with the given ordinal.
pub o2ymd-Names : (o : ℕ) → 1 ≤ o → o ≤ max_ordinal → Names o (o2ymd o)
unfolding o2ymd
o2ymd-Names o lo hi =
    subst (λ k. Names k (o2ymd o)) (omega arith)
      (finish-Names (o - 1) _ _ _ _ _ (omega arith) (o2ymd-Splits (o - 1)))

-- Calendar order: by year, then month, then day.
pub data Before (s t : Ymd) : Type 0 where
  by_year : s.0 < t.0 → Before s t
  by_month : s.0 ≡ t.0 → s.1 < t.1 → Before s t
  by_day : s.0 ≡ t.0 → s.1 ≡ t.1 → s.2 < t.2 → Before s t

pub data Ordered (s t : Ymd) : Type 0 where
  before : Before s t → Ordered s t
  same : s ≡ t → Ordered s t
  after : Before t s → Ordered s t

pub Ymd-Ordered : (s t : Ymd) → Ordered s t
Ymd-Ordered s t = grind (arith, before, same, after, by_year, by_month, by_day)

-- An earlier date has a smaller ordinal.
pub Before-Names : (a b : ℕ) (s t : Ymd) → Names a s → Names b t → Before s t → a < b
Before-Names a b s t u v (by_year lt) = omega (
  arith,
  days_before_year_mono s.0 t.0 u.date_is.year_in.0 lt,
  dbm-add-dim-le s.0 s.1 u.date_is.month_in.0 u.date_is.month_in.1,
)
Before-Names a b s t u v (by_month e lt) =
    ground (arith, dbm_mono s.0 s.1 t.1 u.date_is.month_in.0 lt v.date_is.month_in.1)
Before-Names a b s t u v (by_day e f lt) = ground arith

-- An ordinal names one date.
pub Names-unique : (o : ℕ) (s t : Ymd) → Names o s → Names o t → s ≡ t
Names-unique o s t u v = elim (Ymd-Ordered s t) [
  | before p ↦ absurd (omega (arith, Before-Names o o s t u v p))
  | same e ↦ e
  | after p ↦ absurd (omega (arith, Before-Names o o t s v u p))
]
