-- ===== src/Datetime/Calendar.antt =====
-- The calendar functions of python-stdlib/datetime/datetime.py: `_leap`, `_dim`, `_dbm`, `_o2ymd`
-- and `_date`. Python's booleans count as 0 and 1 in sums.
pub mod Months
pub mod Ordinals
pub mod Gregorian
pub mod Inverse
pub mod Counted
use micropython_lib.Prelude.{
  ℕ, ◌+◌, ◌-◌, ◌*◌, ◌/◌, ◌%◌, Bool, not, ◌&&◌, ◌||◌, ltb, ◌==◌, if◌then◌else◌, List, [], ◌∷◌,
  get_or, Result, ok, raise, value_error,
}
use micropython_lib.Prelude.Int.{ℤ, pos, pos_part, leb_ℤ, eqb_ℤ}

-- MAXYEAR, the ordinal of its last day, and MINYEAR.
abbrev pub max_year : ℕ
max_year = 9999

abbrev pub max_ordinal : ℕ
max_ordinal = 3652059

abbrev pub min_year : ℕ
min_year = 1

unfoldable pub leap : ℕ → Bool
leap y = (y % 4 == 0) && (not (y % 100 == 0) || (y % 400 == 0))

abbrev month_lengths : List ℕ
month_lengths = 0 ∷ 31 ∷ 28 ∷ 31 ∷ 30 ∷ 31 ∷ 30 ∷ 31 ∷ 31 ∷ 30 ∷ 31 ∷ 30 ∷ 31 ∷ []

abbrev month_starts : List ℕ
month_starts = 0 ∷ 0 ∷ 31 ∷ 59 ∷ 90 ∷ 120 ∷ 151 ∷ 181 ∷ 212 ∷ 243 ∷ 273 ∷ 304 ∷ 334 ∷ []

-- A month is from 0 to 12 at every call.
unfoldable pub dim : ℕ → ℕ → ℕ
dim y m = if (m == 2) && leap y then 29 else get_or month_lengths m 0

unfoldable pub dbm : ℕ → ℕ → ℕ
dbm y m = get_or month_starts m 0 + (if ltb 2 m && leap y then 1 else 0)

-- The last lines of `_o2ymd`: month and day of the day with index `n` in the year, from 0.
-- `>> 5` is a division by 32.
unfoldable pub month_day : ℕ → ℕ → ℕ × ℕ
month_day y n =
    let m = (n + 50) / 32 in
    let prec = dbm y m in
    if ltb n prec then (m - 1, n - (prec - dim y (m - 1)) + 1) else (m, n - prec + 1)

abbrev pub with_year : ℕ → ℕ × ℕ → ℕ × ℕ × ℕ
with_year y (m, d) = (y, m, d)

-- Every ordinal that reaches `_o2ymd` has passed `_date`, so it is at least 1.
unfoldable pub o2ymd : ℕ → ℕ × ℕ × ℕ
o2ymd o =
    let n = o - 1 in
    let n400 = n / 146097 in
    let r400 = n % 146097 in
    let n100 = r400 / 36524 in
    let r100 = r400 % 36524 in
    let n4 = r100 / 1461 in
    let r4 = r100 % 1461 in
    let n1 = r4 / 365 in
    let r1 = r4 % 365 in
    let y = n400 * 400 + 1 + (n100 * 100 + n4 * 4 + n1) in
    if (n1 == 4) || (n100 == 4) then (y - 1, 12, 31) else with_year y (month_day y r1)

-- The two inner lines of `_date`: days before January 1st of a year.
unfoldable pub days_before_year : ℕ → ℕ
days_before_year y = let p = y - 1 in p * 365 + p / 4 - p / 100 + p / 400

-- The two tests of `_date`. The arguments may be any integers; `pos_part z` is `z` once `z` is known
-- to be positive.
abbrev pub in_calendar : ℤ → ℤ → ℤ → Bool
in_calendar y m d =
    (leb_ℤ (pos min_year) y && leb_ℤ y (pos max_year))
    && (leb_ℤ (pos 1) m && leb_ℤ m (pos 12))
    && (leb_ℤ (pos 1) d && leb_ℤ d (pos (dim (pos_part y) (pos_part m))))

abbrev pub is_ordinal : ℤ → ℤ → ℤ → Bool
is_ordinal y m d =
    eqb_ℤ y (pos 0) && eqb_ℤ m (pos 0) && (leb_ℤ (pos 1) d && leb_ℤ d (pos max_ordinal))

-- `_date`
unfoldable pub date_ordinal : ℤ → ℤ → ℤ → Result ℕ
date_ordinal y m d =
    if in_calendar y m d
    then ok (days_before_year (pos_part y) + dbm (pos_part y) (pos_part m) + pos_part d)
    else if is_ordinal y m d
    then ok (pos_part d)
    else raise value_error
