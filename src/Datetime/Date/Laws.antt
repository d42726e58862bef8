-- ===== src/Datetime/Date/Laws.antt =====
-- What the methods of `date` promise.
use micropython_lib.Prelude.{
  ℕ, ◌+◌, ◌%◌, ◌≤◌, ◌<◌, ◌≡◌, ◌↔◌, sym, ap, ◌∙◌, arith, true, none, [], ok, Result-cases, inl, inr,
  ◌>>=◌,
}
use micropython_lib.Prelude.Int.{ℤ, pos, ◌+ℤ◌, ◌-ℤ◌, int_laws}
use micropython_lib.Datetime.Calendar.{o2ymd, date_ordinal, max_ordinal, days_before_year}
use micropython_lib.Datetime.Calendar.Ordinals.{
  Before, Names, Before-Names, o2ymd-Names, before, same, after, Ymd-Ordered,
}
use micropython_lib.Datetime.Calendar.Months.{year_length, dbm-add-dim-le}
use micropython_lib.Datetime.Calendar.Inverse.{date_ordinal-o2ymd, date_ordinal-range}
use micropython_lib.Datetime.Timedelta
use micropython_lib.Datetime.Timedelta.Fields.{divmod_unique}
use micropython_lib.Datetime.Timedelta.{Timedelta, timedelta, day_us}
use mathlib.Core.List.{append-nil}
use micropython_lib.Datetime.Iso.{d2iso}
use micropython_lib.Datetime.Iso.Read.{iso2d-d2iso}
use micropython_lib.Datetime.Date.{
  Date, date, fromordinal, tuple, weekday, isoweekday, timetuple, replace, fromisoformat, isoformat,
  add, sub_date, sub, lt,
}

-- Every date is between 0001-01-01 and 9999-12-31.
pub record IsValid (a : Date) : Type 0 where
  pub from_first : 1 ≤ a.ord
  pub to_last : a.ord ≤ max_ordinal

abbrev at : ℕ → Date
at o = record { ord = o }

-- The constructor makes valid dates only.
pub date-IsValid : (y m d : ℤ) (a : Date) → date y m d ≡ ok a → IsValid a
unfolding date
date-IsValid y m d a e = elim (Result-cases (date_ordinal y m d)) [
  | inl (o, p) ↦ ground (arith, date_ordinal-range y m d o p)
  | inr (x, p) ↦ cc
]

fromordinal-ok : (o : ℕ) → 1 ≤ o → o ≤ max_ordinal → fromordinal (pos o) ≡ ok (at o)
unfolding fromordinal date_ordinal
fromordinal-ok o lo hi = ground arith

-- `fromordinal` accepts exactly the ordinals in range.
pub fromordinal_iff : (z : ℤ) (a : Date) → (fromordinal z ≡ ok a) ↔ (IsValid a × (z ≡ pos a.ord))
unfolding fromordinal date_ordinal
fromordinal_iff z a = (λ e. ground arith, λ (v, e). ground arith)

-- Adding a duration to a date gives a date `b` exactly where `b` is in the calendar and its ordinal is
-- that of the date plus the whole days of the duration.
pub add-days_iff :
    (a : Date) (td : Timedelta) (b : Date)
    → (add a td ≡ ok b) ↔ (IsValid b × (pos a.ord +ℤ Timedelta.days td ≡ pos b.ord))
unfolding add
add-days_iff a td b = fromordinal_iff (pos a.ord +ℤ Timedelta.days td) b

days-sub_date : (a b : Date) → Timedelta.days (sub_date b a) ≡ pos b.ord -ℤ pos a.ord
unfolding Timedelta.days sub_date timedelta
days-sub_date a b =
    (divmod_unique _ (pos b.ord -ℤ pos a.ord) day_us 0 (omega arith) (omega int_laws)
      (omega arith)).0

-- Adding the distance from one date to a valid second date reaches the second date.
pub add-sub_date : (a b : Date) → IsValid b → add a (sub_date b a) ≡ ok b
add-sub_date a b v = (add-days_iff a (sub_date b a) b).1 (v, rw days-sub_date (omega int_laws))

sub_cancel : (x y z : ℤ) → x +ℤ y ≡ z → z -ℤ y ≡ x
sub_cancel x y z e = rw (← e) (omega int_laws)

-- Where adding a duration to a valid date succeeds, subtracting the duration again gives the date back.
pub sub-add : (a b : Date) (td : Timedelta) → IsValid a → add a td ≡ ok b → sub b td ≡ ok a
unfolding sub
sub-add a b td v e = (fromordinal_iff _ a).1 (v, sub_cancel _ _ _ ((add-days_iff a td b).0 e).1)

-- `replace` with no new value gives the date back.
pub replace_date-none : (a : Date) → IsValid a → replace a none none none ≡ ok a
unfolding replace
replace_date-none a v = rw (date_ordinal-o2ymd a.ord v.from_first v.to_last, ◌>>=◌)

-- `isoweekday` is one more than `weekday`, `weekday` is below 7, and the next date has the next weekday
-- modulo 7.
pub weekday_lem :
    (a : Date)
    → (isoweekday a ≡ weekday a + 1)
      × (weekday a < 7)
      × (weekday (at (a.ord + 1)) ≡ (weekday a + 1) % 7)
unfolding isoweekday weekday
weekday_lem a = (ground arith, omega arith, omega arith)

named : (a : Date) → IsValid a → Names a.ord (o2ymd a.ord)
named a v = o2ymd-Names a.ord v.from_first v.to_last

by_order : (a b : Date) → IsValid a → IsValid b → a.ord < b.ord → Before (o2ymd a.ord) (o2ymd b.ord)
by_order a b v w h = elim (Ymd-Ordered (o2ymd a.ord) (o2ymd b.ord)) [
  | before p ↦ p
  | same e ↦ absurd (omega (arith, same_ord e))
  | after p ↦ absurd (omega (arith, Before-Names b.ord a.ord _ _ (named b w) (named a v) p))
]
  where
    same_ord : o2ymd a.ord ≡ o2ymd b.ord → a.ord ≡ b.ord
    same_ord e = ground (arith, (named a v).ordinal_is, (named b w).ordinal_is, e)

-- One valid date is less than another exactly where its year, month and day come before, in the
-- lexicographic order.
pub lt-tuple : (a b : Date) → IsValid a → IsValid b → (lt a b ≡ true) ↔ Before (tuple a) (tuple b)
unfolding lt tuple
lt-tuple a b v w = (
  λ e. by_order a b v w (ground arith),
  λ p. ground (arith, Before-Names a.ord b.ord _ _ (named a v) (named b w) p),
)

-- The day in the year that `timetuple` counts for a valid date makes up the ordinal with the days
-- before the year, and lies between 1 and the length of the year.
pub yday-timetuple :
    (a : Date)
    → IsValid a
    → let t = timetuple a in
      (days_before_year t.year + t.yday ≡ a.ord) × (1 ≤ t.yday) × (t.yday ≤ year_length t.year)
unfolding timetuple tuple
yday-timetuple a v = ground (arith, named a v, dbm-add-dim-le (o2ymd a.ord).0 (o2ymd a.ord).1)

-- The ISO text of a valid date reads back as that date.
pub fromisoformat_date-isoformat : (a : Date) → IsValid a → fromisoformat (isoformat a) ≡ ok a
unfolding fromisoformat isoformat date
fromisoformat_date-isoformat a v =
    ap fromisoformat (sym (append-nil (d2iso a.ord)))
    ∙ rw (
      iso2d-d2iso a.ord [] v.from_first v.to_last,
      date_ordinal-o2ymd a.ord v.from_first v.to_last,
      ◌>>=◌,
    )
