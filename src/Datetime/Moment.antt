-- ===== src/Datetime/Moment.antt =====
-- The class `datetime` of python-stdlib/datetime/datetime.py. What asks the board for the time or
-- for its local zone (`now`, `fromtimestamp`, `_mktime`, `timestamp`, `timetuple`) is not modelled,
-- nor are `strptime`, `__hash__` and `__repr__`.
pub mod Instants
pub mod Distance
pub mod Compare
pub mod RoundTrip
use micropython_lib.Prelude.{
  ℕ, ◌+◌, ◌%◌, ◌++◌, Bool, true, false, ltb, leb, ◌==◌, if◌then◌else◌, Option, none, some, Result,
  ok, raise, type_error, ◌>>=◌, length, drop,
}
use micropython_lib.Prelude.Int.{ℤ, pos, negsuc, ◌+ℤ◌, ◌-ℤ◌, div_ℤ, mod_ℤ, leb_ℤ, ltb_ℤ, eqb_ℤ}
use micropython_lib.Prelude.Text.{Text, codes}
use micropython_lib.Datetime.Calendar.{o2ymd, date_ordinal}
use micropython_lib.Datetime.Timedelta
use micropython_lib.Datetime.Timedelta.{Timedelta, timedelta, day_us, Parts}
use micropython_lib.Datetime.Zone
use micropython_lib.Datetime.Zone.{Timezone}
use micropython_lib.Datetime.Iso.{iso2d, iso2t, d2iso, Timespec, t2iso}
use micropython_lib.Datetime.Date
use micropython_lib.Datetime.Date.{Date, given}
use micropython_lib.Datetime.Clock
use micropython_lib.Datetime.Clock.{Time, time_delta, one_naive}

-- `_d`, `_t`, `_tz` and `_fd`
pub record Moment : Type 0 where
  pub d : ℕ
  pub t : Timedelta
  pub tz : Option Timezone
  pub fold : ℤ

unfoldable pub datetime : ℤ → ℤ → ℤ → ℤ → ℤ → ℤ → ℤ → Option Timezone → ℤ → Result Moment
datetime year month day hour minute second microsecond tz fold = do
  d ← date_ordinal year month day
  t ← time_delta hour minute second microsecond fold
  ok (record { d = d; t = t; tz = tz; fold = fold })

-- `datetime(0, 0, d, 0, 0, 0, us, tz, fold=fold)`
abbrev pub at : ℤ → ℤ → Option Timezone → ℤ → Result Moment
at d us tz fold = datetime (pos 0) (pos 0) d (pos 0) (pos 0) (pos 0) us tz fold

unfoldable pub fromordinal : ℤ → Result Moment
fromordinal n = at n (pos 0) none (pos 0)

unfoldable pub fromisoformat : Text → Result Moment
fromisoformat s = do
  (y, m, d) ← iso2d s
  if leb (length s) 12 then datetime y m d (pos 0) (pos 0) (pos 0) (pos 0) none (pos 0) else (do
    r ← iso2t (drop 11 s)
    datetime y m d r.hour r.minute r.second r.microsecond r.tz (pos 0))

-- `tzinfo or time._tz`
abbrev or_else : Option Timezone → Option Timezone → Option Timezone
or_else (some z) other = some z
or_else none other = other

unfoldable pub combine : Date → Time → Option Timezone → Result Moment
combine date time tz = at (pos date.ord) time.td.us (or_else tz time.tz) time.fold

abbrev pub ymd : Moment → ℕ × ℕ × ℕ
ymd a = o2ymd a.d

abbrev pub clock : Moment → Parts
clock a = Timedelta.tuple a.t

unfoldable pub add : Moment → Timedelta → Result Moment
add a td =
    let us = a.t.us +ℤ td.us in at (div_ℤ us day_us +ℤ pos a.d) (pos (mod_ℤ us day_us)) a.tz (pos 0)

-- `__sub__` of a timedelta.
unfoldable pub sub_delta : Moment → Timedelta → Result Moment
sub_delta a td = add a (Timedelta.neg td)

-- The last four lines of `_sub`: whole days and the microseconds left, which are not negative.
unfoldable pub difference : Moment → Moment → ℤ × ℕ
difference a b =
    let us = a.t.us -ℤ b.t.us in ((pos a.d -ℤ pos b.d) +ℤ div_ℤ us day_us, mod_ℤ us day_us)

-- The rest of `_sub`: both operands go to UTC if their offsets differ.
sub_zones : Option Timezone → Option Timezone → Moment → Moment → Result (ℤ × ℕ)
sub_zones none none a b = ok (difference a b)
sub_zones none (some z) a b = raise type_error
sub_zones (some y) none a b = raise type_error
sub_zones (some y) (some z) a b =
    if Timedelta.eq y.offset z.offset
    then ok (difference a b)
    else (do a' ← sub_delta a y.offset; b' ← sub_delta b z.offset; ok (difference a' b'))

unfoldable pub sub_parts : Moment → Moment → Result (ℤ × ℕ)
unfolding sub_zones
sub_parts a b = sub_zones a.tz b.tz a b

-- `__sub__` of a datetime.
unfoldable pub sub : Moment → Moment → Result Timedelta
sub a b = do
  (d, us) ← sub_parts a b
  ok (timedelta d (pos 0) (pos us) (pos 0) (pos 0) (pos 0) (pos 0))

-- `_cmp`; its test for negative microseconds never passes.
sign_of : ℤ × ℕ → ℤ
sign_of (d, us) =
    if ltb_ℤ d (pos 0)
    then negsuc 0
    else if ltb_ℤ (pos 0) d
    then pos 1
    else if ltb 0 us
    then pos 1
    else pos 0

unfoldable pub cmp : Moment → Moment → Result ℤ
unfolding sign_of
cmp a b = do p ← sub_parts a b; ok (sign_of p)

compare_by : (ℤ → Bool) → Moment → Moment → Result Bool
compare_by test a b = do c ← cmp a b; ok (test c)

unfoldable pub eq : Moment → Moment → Result Bool
unfolding compare_by
eq a b = if one_naive a.tz b.tz then ok false else compare_by (λ c. eqb_ℤ c (pos 0)) a b

unfoldable pub le : Moment → Moment → Result Bool
unfolding compare_by
le = compare_by (λ c. leb_ℤ c (pos 0))

unfoldable pub lt : Moment → Moment → Result Bool
unfolding compare_by
lt = compare_by (λ c. ltb_ℤ c (pos 0))

unfoldable pub ge : Moment → Moment → Result Bool
unfolding compare_by
ge = compare_by (λ c. leb_ℤ (pos 0) c)

unfoldable pub gt : Moment → Moment → Result Bool
unfolding compare_by
gt = compare_by (λ c. ltb_ℤ (pos 0) c)

unfoldable pub date : Moment → Result Date
date a = Date.fromordinal (pos a.d)

unfoldable pub time : Moment → Result Time
time a = Clock.time (pos 0) (pos 0) (pos 0) a.t.us none a.fold

unfoldable pub timetz : Moment → Result Time
timetz a = Clock.time (pos 0) (pos 0) (pos 0) a.t.us a.tz a.fold

-- The arguments of `replace` that are not given; `tz` is `none` for the default, True.
pub record Changes : Type 0 where
  pub year : Option ℤ
  pub month : Option ℤ
  pub day : Option ℤ
  pub hour : Option ℤ
  pub minute : Option ℤ
  pub second : Option ℤ
  pub microsecond : Option ℤ
  pub tz : Option (Option Timezone)
  pub fold : Option ℤ

abbrev pub no_changes : Changes
no_changes = record {
  year = none;
  month = none;
  day = none;
  hour = none;
  minute = none;
  second = none;
  microsecond = none;
  tz = none;
  fold = none;
}

unfoldable pub replace : Moment → Changes → Result Moment
replace a c =
    let (y, m, d) = ymd a in
    let p = clock a in
    datetime (given c.year (pos y)) (given c.month (pos m)) (given c.day (pos d))
      (given c.hour (pos p.hours)) (given c.minute (pos p.minutes)) (given c.second (pos p.seconds))
      (given c.microsecond (pos p.microseconds)) (given c.tz a.tz) (given c.fold a.fold)

-- `timezone.fromutc`
unfoldable pub fromutc : Timezone → Moment → Result Moment
fromutc z a = add a (Zone.utcoffset z)

-- `astimezone` of a datetime with the time zone `y`; `same` is the test `self._tz is tz`.
unfoldable pub astimezone : Bool → Moment → Timezone → Timezone → Result Moment
astimezone same a y z = if same then ok a else (do
  utc ← sub_delta a (Zone.utcoffset y)
  moved ← replace utc (record no_changes { tz = some (some z) })
  fromutc z moved)

unfoldable pub weekday : Moment → ℕ
weekday a = (a.d + 6) % 7

unfoldable pub isoweekday : Moment → ℕ
isoweekday a = let x = a.d % 7 in if x == 0 then 7 else x

unfoldable pub isoformat : Moment → Text → Timespec → Text
isoformat a sep timespec = d2iso a.d ++ (sep ++ t2iso a.t timespec a.tz)
