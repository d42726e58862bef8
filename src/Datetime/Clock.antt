-- ===== src/Datetime/Clock.antt =====
-- `_time` and the class `time` of python-stdlib/datetime/datetime.py. `dst` is None for a `timezone`,
-- and `__hash__` and `__repr__` are Python's: they are not modelled.
pub mod Laws
use micropython_lib.Prelude.{
  ℕ, ◌-◌, Bool, true, false, not, ◌&&◌, ◌||◌, if◌then◌else◌, Option, none, some, Result, ok, raise,
  value_error, type_error, ◌>>=◌,
}
use micropython_lib.Prelude.Int.{ℤ, pos, ◌-ℤ◌, leb_ℤ, ltb_ℤ, eqb_ℤ}
use micropython_lib.Prelude.Text.{Text}
use micropython_lib.Datetime.Timedelta
use micropython_lib.Datetime.Timedelta.{Timedelta, timedelta, day_us, Parts}
use micropython_lib.Datetime.Zone
use micropython_lib.Datetime.Zone.{Timezone}
use micropython_lib.Datetime.Iso.{IsoTime, iso2t, Timespec, t2iso}
use micropython_lib.Datetime.Date.{given}

abbrev in_range : ℤ → ℕ → Bool
in_range z n = leb_ℤ (pos 0) z && ltb_ℤ z (pos n)

abbrev pub clock_fields : ℤ → ℤ → ℤ → ℤ → ℤ → Bool
clock_fields h m s us fold =
    (in_range h 24 && in_range m 60)
    && (in_range s 60 && in_range us 1000000)
    && (eqb_ℤ fold (pos 0) || eqb_ℤ fold (pos 1))

abbrev pub only_microseconds : ℤ → ℤ → ℤ → ℤ → Bool
only_microseconds h m s us =
    (eqb_ℤ h (pos 0) && eqb_ℤ m (pos 0))
    && (eqb_ℤ s (pos 0) && (ltb_ℤ (pos 0) us && ltb_ℤ us (pos day_us)))

-- `_time`
unfoldable pub time_delta : ℤ → ℤ → ℤ → ℤ → ℤ → Result Timedelta
time_delta h m s us fold =
    if clock_fields h m s us fold || only_microseconds h m s us
    then ok (timedelta (pos 0) s us (pos 0) m h (pos 0))
    else raise value_error

pub record Time : Type 0 where
  pub td : Timedelta
  pub tz : Option Timezone
  pub fold : ℤ

unfoldable pub time : ℤ → ℤ → ℤ → ℤ → Option Timezone → ℤ → Result Time
time h m s us tz fold = do
  td ← time_delta h m s us fold
  ok (record { td = td; tz = tz; fold = fold })

unfoldable pub fromisoformat : Text → Result Time
fromisoformat t = do r ← iso2t t; time r.hour r.minute r.second r.microsecond r.tz (pos 0)

-- The first four members of `tuple()`; the others are fields.
abbrev pub parts : Time → Parts
parts t = Timedelta.tuple t.td

abbrev pub hour : Time → ℕ
hour t = (parts t).hours

abbrev pub minute : Time → ℕ
minute t = (parts t).minutes

abbrev pub second : Time → ℕ
second t = (parts t).seconds

abbrev pub microsecond : Time → ℕ
microsecond t = (parts t).microseconds

-- `tzinfo=True`, the default, keeps the time zone: it is `none` here.
unfoldable pub replace :
    Time
    → Option ℤ
    → Option ℤ
    → Option ℤ
    → Option ℤ
    → Option (Option Timezone)
    → Option ℤ
    → Result Time
replace t h m s us tz fold =
    time (given h (pos (hour t))) (given m (pos (minute t))) (given s (pos (second t)))
      (given us (pos (microsecond t))) (given tz t.tz) (given fold t.fold)

unfoldable pub isoformat : Time → Timespec → Text
isoformat t timespec = t2iso t.td timespec t.tz

-- `_sub`: the difference in microseconds, by UTC if the offsets differ.
sub_zones : Option Timezone → Option Timezone → ℤ → ℤ → Result ℤ
sub_zones none none us1 us2 = ok (us1 -ℤ us2)
sub_zones none (some z) us1 us2 = raise type_error
sub_zones (some y) none us1 us2 = raise type_error
sub_zones (some y) (some z) us1 us2 =
    if eqb_ℤ y.offset.us z.offset.us
    then ok (us1 -ℤ us2)
    else ok ((us1 -ℤ y.offset.us) -ℤ (us2 -ℤ z.offset.us))

unfoldable pub sub : Time → Time → Result ℤ
unfolding sub_zones
sub a b = sub_zones a.tz b.tz a.td.us b.td.us

-- A comparison of `_sub` with 0.
compare_by : (ℤ → Bool) → Time → Time → Result Bool
compare_by test a b = do d ← sub a b; ok (test d)

unfoldable pub le : Time → Time → Result Bool
unfolding compare_by
le = compare_by (λ d. leb_ℤ d (pos 0))

unfoldable pub lt : Time → Time → Result Bool
unfolding compare_by
lt = compare_by (λ d. ltb_ℤ d (pos 0))

unfoldable pub ge : Time → Time → Result Bool
unfolding compare_by
ge = compare_by (λ d. leb_ℤ (pos 0) d)

unfoldable pub gt : Time → Time → Result Bool
unfolding compare_by
gt = compare_by (λ d. ltb_ℤ (pos 0) d)

-- `(self._tz == None) ^ (other._tz == None)`
abbrev pub one_naive : Option Timezone → Option Timezone → Bool
one_naive none (some z) = true
one_naive (some y) none = true
one_naive _ _ = false

unfoldable pub eq : Time → Time → Result Bool
unfolding compare_by
eq a b = if one_naive a.tz b.tz then ok false else compare_by (λ d. eqb_ℤ d (pos 0)) a b
