-- ===== src/Datetime/Date.antt =====
-- The class `date` of python-stdlib/datetime/datetime.py. `fromtimestamp` and `today` ask the
-- board's clock, and `__hash__` and `__repr__` are Python's: they are not modelled.
pub mod Laws
use micropython_lib.Prelude.{
  ℕ, ◌+◌, ◌%◌, Bool, ltb, leb, ◌==◌, if◌then◌else◌, Option, none, some, Result, ok, ◌>>=◌,
}
use micropython_lib.Prelude.Int.{ℤ, pos, negsuc, ◌+ℤ◌, ◌-ℤ◌}
use micropython_lib.Prelude.Text.{Text}
use micropython_lib.Datetime.Calendar.{o2ymd, dbm, date_ordinal}
use micropython_lib.Datetime.Timedelta
use micropython_lib.Datetime.Timedelta.{Timedelta, timedelta}
use micropython_lib.Datetime.Iso.{iso2d, d2iso}

-- `_ord`
pub record Date : Type 0 where
  pub ord : ℕ

unfoldable pub date : ℤ → ℤ → ℤ → Result Date
date y m d = do o ← date_ordinal y m d; ok (record { ord = o })

unfoldable pub fromordinal : ℤ → Result Date
unfolding date
fromordinal n = date (pos 0) (pos 0) n

unfoldable pub fromisoformat : Text → Result Date
unfolding date
fromisoformat s = do (y, m, d) ← iso2d s; date y m d

abbrev pub toordinal : Date → ℕ
toordinal a = a.ord

unfoldable pub tuple : Date → ℕ × ℕ × ℕ
tuple a = o2ymd a.ord

unfoldable pub year : Date → ℕ
unfolding tuple
year a = (tuple a).0

unfoldable pub month : Date → ℕ
unfolding tuple
month a = (tuple a).1

unfoldable pub day : Date → ℕ
unfolding tuple
day a = (tuple a).2

unfoldable pub weekday : Date → ℕ
weekday a = (a.ord + 6) % 7

-- `x or 7` is 7 where `x` is 0.
unfoldable pub isoweekday : Date → ℕ
isoweekday a = let x = a.ord % 7 in if x == 0 then 7 else x

pub record TimeTuple : Type 0 where
  pub year : ℕ
  pub month : ℕ
  pub day : ℕ
  pub hour : ℕ
  pub minute : ℕ
  pub second : ℕ
  pub weekday : ℕ
  pub yday : ℕ
  pub isdst : ℤ

unfoldable pub timetuple : Date → TimeTuple
unfolding tuple weekday
timetuple a =
    let (y, m, d) = tuple a in
    record {
      year = y;
      month = m;
      day = d;
      hour = 0;
      minute = 0;
      second = 0;
      weekday = weekday a;
      yday = dbm y m + d;
      isdst = negsuc 0;
    }

-- `value if value is not None else default`
abbrev pub given : {A : Type 0} → Option A → A → A
given none a = a
given (some b) a = b

unfoldable pub replace : Date → Option ℤ → Option ℤ → Option ℤ → Result Date
unfolding tuple date
replace a y m d =
    let (y', m', d') = tuple a in date (given y (pos y')) (given m (pos m')) (given d (pos d'))

unfoldable pub add : Date → Timedelta → Result Date
unfolding fromordinal
add a td = fromordinal (pos a.ord +ℤ Timedelta.days td)

-- `__sub__` of a date, and of a timedelta.
unfoldable pub sub_date : Date → Date → Timedelta
sub_date a b = timedelta (pos a.ord -ℤ pos b.ord) (pos 0) (pos 0) (pos 0) (pos 0) (pos 0) (pos 0)

unfoldable pub sub : Date → Timedelta → Result Date
unfolding fromordinal
sub a td = fromordinal (pos a.ord -ℤ Timedelta.days td)

unfoldable pub eq : Date → Date → Bool
eq a b = a.ord == b.ord

unfoldable pub le : Date → Date → Bool
le a b = leb a.ord b.ord

unfoldable pub lt : Date → Date → Bool
lt a b = ltb a.ord b.ord

unfoldable pub ge : Date → Date → Bool
ge a b = leb b.ord a.ord

unfoldable pub gt : Date → Date → Bool
gt a b = ltb b.ord a.ord

unfoldable pub isoformat : Date → Text
isoformat a = d2iso a.ord
