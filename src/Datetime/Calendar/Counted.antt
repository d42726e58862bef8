-- ===== src/Datetime/Calendar/Counted.antt =====
-- `_date` against the counting of days.
use micropython_lib.Prelude.{ℕ, suc, ◌+◌, ◌-◌, ◌≤◌, ◌≡◌, ap, ◌∙◌, arith, ◌⊎◌, ◌↔◌, inl, inr, ok}
use micropython_lib.Prelude.Int.{ℤ, pos, pos_part}
use micropython_lib.Datetime.Calendar.{dim, dbm, days_before_year, date_ordinal}
use micropython_lib.Datetime.Calendar.Ordinals.{Names}
use micropython_lib.Datetime.Calendar.Gregorian.{
  has_leap_day, month_days, days_of_months, days_of_years, dim-month_days, dbm-days_of_months,
  days_before_year-days_of_years,
}
use micropython_lib.Datetime.Calendar.Inverse.{Accepted, date_ordinal_sound, date_ordinal_complete}

-- A date from 0001-01-01 to 9999-12-31, and its number when days are counted from the first one.
pub record IsCounted (o y m d : ℕ) : Type 0 where
  pub year_in : (1 ≤ y) × (y ≤ 9999)
  pub month_in : (1 ≤ m) × (m ≤ 12)
  pub day_in : (1 ≤ d) × (d ≤ month_days (has_leap_day y) m)
  pub number : o ≡ days_of_years (y - 1) + days_of_months (has_leap_day y) (m - 1) + d

module _ (y m : ℕ) (year_in : 1 ≤ y) (month_in : (1 ≤ m) × (m ≤ 12)) where
  years : days_before_year y ≡ days_of_years (y - 1)
  years =
      ap days_before_year {y = suc (y - 1)} (omega (arith, year_in))
      ∙ days_before_year-days_of_years (y - 1)

  months : dbm y m ≡ days_of_months (has_leap_day y) (m - 1)
  months =
      ap (dbm y) {y = suc (m - 1)} (omega (arith, month_in.0))
      ∙ dbm-days_of_months y (m - 1) (omega (arith, month_in.0, month_in.1))

  month : dim y m ≡ month_days (has_leap_day y) m
  month =
      ap (dim y) {y = suc (m - 1)} (omega (arith, month_in.0))
      ∙ dim-month_days y (m - 1) (omega (arith, month_in.0, month_in.1))
      ∙ ap (month_days (has_leap_day y)) {x = suc (m - 1)} {y = m} (omega (arith, month_in.0))

to_counted : (o y m d : ℕ) → Names o (y, m, d) → IsCounted o y m d
to_counted o y m d v =
    let i = v.date_is in
    record {
      year_in = i.year_in;
      month_in = i.month_in;
      day_in = (i.day_in.0, omega (arith, i.day_in.1, month y m i.year_in.0 i.month_in));
      number = omega (
        arith,
        v.ordinal_is,
        years y m i.year_in.0 i.month_in,
        months y m i.year_in.0 i.month_in,
      );
    }

of_counted : (o y m d : ℕ) → IsCounted o y m d → Names o (y, m, d)
of_counted o y m d c = record {
  date_is = record {
    year_in = c.year_in;
    month_in = c.month_in;
    day_in = (c.day_in.0, omega (arith, c.day_in.1, month y m c.year_in.0 c.month_in));
  };
  ordinal_is =
      omega (arith, c.number, years y m c.year_in.0 c.month_in, months y m c.year_in.0 c.month_in);
}

-- The two forms of arguments that have an ordinal.
abbrev pub Numbered : ℤ → ℤ → ℤ → ℕ → Type 0
Numbered y m d o =
    (IsCounted o (pos_part y) (pos_part m) (pos_part d)
      × (y ≡ pos (pos_part y))
      × (m ≡ pos (pos_part m))
      × (d ≡ pos (pos_part d)))
    ⊎ ((y ≡ pos 0) × (m ≡ pos 0) × (d ≡ pos o) × (1 ≤ o) × (o ≤ 3652059))

to_Numbered : (y m d : ℤ) (o : ℕ) → Accepted y m d o → Numbered y m d o
to_Numbered y m d o (inl (v, e, f, g)) =
    inl (to_counted o (pos_part y) (pos_part m) (pos_part d) v, e, f, g)
to_Numbered y m d o (inr e) = inr e

of_Numbered : (y m d : ℤ) (o : ℕ) → Numbered y m d o → Accepted y m d o
of_Numbered y m d o (inl (c, e, f, g)) =
    inl (of_counted o (pos_part y) (pos_part m) (pos_part d) c, e, f, g)
of_Numbered y m d o (inr e) = inr e

-- `_date` returns the ordinal `o` exactly where the three integers are a date of the years 1 to 9999
-- and `o` is the number of days from 0001-01-01 up to it, with the lengths of months and years and
-- the leap days of the Gregorian calendar, or where year and month are 0 and the day is `o` itself,
-- from 1 to 3652059.
pub date_ordinal_iff : (y m d : ℤ) (o : ℕ) → (date_ordinal y m d ≡ ok o) ↔ Numbered y m d o
date_ordinal_iff y m d o = (
  λ e. to_Numbered y m d o (date_ordinal_sound y m d o e),
  λ n. date_ordinal_complete y m d o (of_Numbered y m d o n),
)
