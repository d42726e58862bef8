-- ===== src/Datetime/Calendar/Inverse.antt =====
-- `_date` and `_o2ymd` undo each other.
use micropython_lib.Prelude.{ℕ, ◌≤◌, ◌≡◌, ◌≢◌, ◌⊎◌, inl, inr, refl, arith, ok, Bool-cases}
use micropython_lib.Prelude.Int.{ℤ, pos, pos_part}
use micropython_lib.Datetime.Calendar.{
  o2ymd, days_before_year, date_ordinal, max_ordinal, in_calendar,
}
use micropython_lib.Datetime.Calendar.Ordinals.{
  Ymd, Names, o2ymd-Names, Names-unique, days_before_year_mono,
}
use micropython_lib.Datetime.Calendar.Months.{dbm-add-dim-le}

-- What `_date` accepts, and its result: a date, or an ordinal behind two zeros.
abbrev pub Accepted : ℤ → ℤ → ℤ → ℕ → Type 0
Accepted y m d o =
    (Names o (pos_part y, pos_part m, pos_part d)
      × (y ≡ pos (pos_part y))
      × (m ≡ pos (pos_part m))
      × (d ≡ pos (pos_part d)))
    ⊎ ((y ≡ pos 0) × (m ≡ pos 0) × (d ≡ pos o) × (1 ≤ o) × (o ≤ max_ordinal))

pub date_ordinal_sound : (y m d : ℤ) (o : ℕ) → date_ordinal y m d ≡ ok o → Accepted y m d o
unfolding date_ordinal
date_ordinal_sound y m d o e = elim (Bool-cases (in_calendar y m d)) [
  | inl p ↦ inl (ground arith, ground arith, ground arith, ground arith)
  | inr p ↦ inr (ground arith)
]

pub date_ordinal_complete : (y m d : ℤ) (o : ℕ) → Accepted y m d o → date_ordinal y m d ≡ ok o
unfolding date_ordinal
date_ordinal_complete y m d o (inl (v, ey, em, ed)) = ground arith
date_ordinal_complete y m d o (inr (ey, em, ed, lo, hi)) = ground arith

pub date_ordinal-Names :
    (o : ℕ) (t : Ymd) → Names o t → date_ordinal (pos t.0) (pos t.1) (pos t.2) ≡ ok o
unfolding date_ordinal
date_ordinal-Names o t v = ground arith

-- Every ordinal from 1 to 3652059 is given back by `_date` on the date that `_o2ymd` finds for it.
pub date_ordinal-o2ymd :
    (o : ℕ)
    → 1 ≤ o
    → o ≤ max_ordinal
    → let (y, m, d) = o2ymd o in date_ordinal (pos y) (pos m) (pos d) ≡ ok o
date_ordinal-o2ymd o lo hi = date_ordinal-Names o (o2ymd o) (o2ymd-Names o lo hi)

-- An ordinal that names a date is in range, and no other is accepted.
pub Names-range : (o : ℕ) (t : Ymd) → Names o t → (1 ≤ o) × (o ≤ max_ordinal)
Names-range o t v = omega (
  arith,
  dbm-add-dim-le t.0 t.1 v.date_is.month_in.0 v.date_is.month_in.1,
  days_before_year_mono t.0 10000 v.date_is.year_in.0 (omega arith),
  last_year,
)
  where
    last_year : days_before_year 10000 ≡ max_ordinal
    last_year = unfold days_before_year in refl

pub o2ymd-of-Names : (o : ℕ) (t : Ymd) → Names o t → o2ymd o ≡ t
o2ymd-of-Names o t v =
    Names-unique o (o2ymd o) t (o2ymd-Names o (Names-range o t v).0 (Names-range o t v).1) v

-- When `_date` accepts a year other than 0, a month and a day, `_o2ymd` of the resulting ordinal is
-- that year, month and day.
pub o2ymd-date_ordinal :
    (y m d : ℤ) (o : ℕ)
    → date_ordinal y m d ≡ ok o
    → y ≢ pos 0
    → o2ymd o ≡ (pos_part y, pos_part m, pos_part d)
o2ymd-date_ordinal y m d o e ne = elim (date_ordinal_sound y m d o e) [
  | inl (v, _, _, _) ↦ o2ymd-of-Names o _ v
  | inr (z, _, _, _, _) ↦ absurd (ne z)
]

-- Every ordinal that `_date` returns is from 1 to that of 9999-12-31.
pub date_ordinal-range :
    (y m d : ℤ) (o : ℕ) → date_ordinal y m d ≡ ok o → (1 ≤ o) × (o ≤ max_ordinal)
date_ordinal-range y m d o e = elim (date_ordinal_sound y m d o e) [
  | inl (v, _, _, _) ↦ Names-range o _ v
  | inr (_, _, _, lo, hi) ↦ (lo, hi)
]
