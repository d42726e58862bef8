-- ===== src/Datetime/Tests.antt =====
-- Runs of the datetime module, and its theorems at concrete values.
use micropython_lib.Prelude.{
  ◌-◌, ◌*◌, ◌≡◌, ◌↔◌, refl, arith, some, none, ok, raise, value_error, [], ◌∷◌,
}
use micropython_lib.Prelude.Int.{ℤ, pos, negsuc, ◌+ℤ◌, ◌-ℤ◌, ◌*ℤ◌, div_ℤ, mod_ℤ}
use micropython_lib.Prelude.Text.{codes, str, zero_pad, int}
use micropython_lib.Datetime.Calendar.{
  o2ymd, leap, dim, dbm, month_day, days_before_year, date_ordinal,
}
use micropython_lib.Datetime.Calendar.Inverse.{date_ordinal-o2ymd, o2ymd-date_ordinal}
use micropython_lib.Datetime.Calendar.Counted.{Numbered, date_ordinal_iff}
use micropython_lib.Datetime.Timedelta
use micropython_lib.Datetime.Timedelta.{Timedelta, of_us, timedelta, Parts, tuple}
use micropython_lib.Datetime.Timedelta.Format.{fmt, fmt_parts, fmt_clock, to_string}
use micropython_lib.Datetime.Timedelta.Fields.{Divides, divmod-Divides}
use micropython_lib.Datetime.Zone.{Timezone}
use micropython_lib.Datetime.Iso.{iso2t, t2iso, auto, milliseconds, clock}
use micropython_lib.Datetime.Iso.RoundTrip.{west, unnamed}
use micropython_lib.Datetime.Iso.Milliseconds.{iso2t-milliseconds_west}
use micropython_lib.Datetime.Date.{Date}
use micropython_lib.Datetime.Date.Laws
use micropython_lib.Datetime.Clock
use micropython_lib.Datetime.Clock.{time_delta}
use micropython_lib.Datetime.Moment
use micropython_lib.Datetime.Moment.{Moment}
use micropython_lib.Datetime.Moment.Instants
use micropython_lib.Datetime.Moment.Instants.{instant, moment}
use micropython_lib.Datetime.Moment.Distance.{add-sub}
use micropython_lib.Datetime.Moment.Compare.{Compares, cmp_across}
use micropython_lib.Datetime.Moment.RoundTrip
use micropython_lib.Datetime.Moment.RoundTrip.{instant-astimezone}

calendar : Unit {0}
unfolding o2ymd month_day leap dim dbm days_before_year date_ordinal
calendar = tt

leap_day_ordinal :
    (o2ymd 738945 ≡ (2024, 2, 29)) × (date_ordinal (pos 2024) (pos 2) (pos 29) ≡ ok 738945)
unfolding calendar
leap_day_ordinal = (refl, refl)

no_leap_day : date_ordinal (pos 2023) (pos 2) (pos 29) ≡ raise value_error
unfolding calendar
no_leap_day = refl

-- Minus one second is a day less 86399 seconds, as a tuple and in text.
negative_text : to_string (of_us (negsuc 999999)) ≡ codes "-0:00:01"
unfolding to_string fmt fmt_parts fmt_clock Timedelta.neg timedelta tuple zero_pad str div_ℤ mod_ℤ
    ◌+ℤ◌ ◌*ℤ◌
negative_text = refl

time_with_offset : Clock.fromisoformat (codes "09:05:07.25+01:00") ≡ raise value_error
unfolding Clock.fromisoformat iso2t clock int
time_with_offset = refl

date_ordinal-o2ymd_example :
    let (y, m, d) = o2ymd 738945 in date_ordinal (pos y) (pos m) (pos d) ≡ ok 738945
date_ordinal-o2ymd_example = date_ordinal-o2ymd 738945 (omega arith) (omega arith)

o2ymd-date_ordinal_example : o2ymd 738945 ≡ (2024, 2, 29)
unfolding calendar
o2ymd-date_ordinal_example = o2ymd-date_ordinal (pos 2024) (pos 2) (pos 29) 738945 refl (λ h. cc)

date_ordinal_iff_example :
    (date_ordinal (pos 2024) (pos 2) (pos 29) ≡ ok 738945)
    ↔ Numbered (pos 2024) (pos 2) (pos 29) 738945
date_ordinal_iff_example = date_ordinal_iff (pos 2024) (pos 2) (pos 29) 738945

abbrev leap_day : Date
leap_day = record { ord = 738945 }

abbrev eve : Date
eve = record { ord = 730119 }

leap_day-IsValid : Laws.IsValid leap_day
leap_day-IsValid = omega arith

eve-IsValid : Laws.IsValid eve
eve-IsValid = omega arith

abbrev noon : Parts
noon = record { days = negsuc 2; hours = 12; minutes = 0; seconds = 59; microseconds = 7 }

divmod-Divides_example : Divides (of_us (negsuc 6)) (of_us (negsuc 1)) (pos 3) (of_us (negsuc 0))
unfolding div_ℤ mod_ℤ
divmod-Divides_example = divmod-Divides (of_us (negsuc 6)) (of_us (negsuc 1)) (λ h. cc)

abbrev paris : Timezone
paris = record { offset = of_us (pos (3600 * 1000000)); name = none }

abbrev boston : Timezone
boston = record { offset = of_us (negsuc (18000 * 1000000 - 1)); name = some (codes "EST") }

iso2t-milliseconds_west_example :
    iso2t (t2iso (of_us (pos 1500000)) milliseconds (some boston)) ≡ raise value_error
iso2t-milliseconds_west_example =
    iso2t-milliseconds_west 1500000 18000 boston (omega arith) refl (omega arith) (omega arith) refl

-- A second before midnight, and a second after.
abbrev before_midnight : Moment
before_midnight = moment 730119 86399000000 (some paris) (pos 0)

abbrev after_midnight : Moment
after_midnight = moment 730120 1000000 (some paris) (pos 0)

before-IsValid : Instants.IsValid before_midnight
before-IsValid = omega arith

after-IsValid : Instants.IsValid after_midnight
after-IsValid = omega arith

arithmetic : Unit {0}
unfolding Moment.add Moment.sub_delta Moment.sub Moment.datetime date_ordinal time_delta timedelta
    Moment.difference Moment.sub_parts Timedelta.neg Timedelta.eq div_ℤ mod_ℤ ◌+ℤ◌ ◌-ℤ◌ ◌*ℤ◌
arithmetic = tt

add-instant_iff_example : (Moment.add before_midnight (of_us (pos 2000000)) ≡ ok after_midnight) ↔ (
    Instants.IsValid after_midnight
    × (instant after_midnight ≡ instant before_midnight +ℤ pos 2000000)
    × (some paris ≡ some paris)
    × (pos 0 ≡ pos 0))
add-instant_iff_example =
    Instants.add-instant_iff before_midnight (of_us (pos 2000000)) after_midnight

add-sub_example : Moment.add before_midnight (of_us (pos 2000000)) ≡ ok after_midnight
unfolding arithmetic
add-sub_example =
    add-sub before_midnight after_midnight (of_us (pos 2000000)) after-IsValid refl refl refl

abbrev in_boston : Moment
in_boston = moment 730119 64800000000 (some boston) (pos 0)

cmp_across_example :
    (c : ℤ) × (Moment.cmp before_midnight in_boston ≡ ok c)
    × Compares
        (instant before_midnight -ℤ paris.offset.us)
        (instant in_boston -ℤ boston.offset.us)
        c
unfolding arithmetic
cmp_across_example =
    cmp_across before_midnight in_boston (moment 730119 82799000000 (some paris) (pos 0))
      (moment 730119 82800000000 (some boston) (pos 0)) paris boston refl refl refl refl

fromisoformat-isoformat_zone_example :
    Moment.fromisoformat
      (Moment.isoformat (moment 730119 86399000001 (some boston) (pos 0)) (b'T' ∷ []) auto)
    ≡ ok (moment 730119 86399000001 (some (unnamed boston.offset)) (pos 0))
fromisoformat-isoformat_zone_example =
    RoundTrip.fromisoformat-isoformat_zone 730119 86399000001 b'T' (omega arith) (omega arith)
      (omega arith) boston (west 18000 (omega arith) (omega arith))

instant-astimezone_example :
    (some boston ≡ some boston)
    × (instant (moment 730119 64799000000 (some boston) (pos 0)) -ℤ boston.offset.us
        ≡ instant before_midnight -ℤ paris.offset.us)
unfolding arithmetic Moment.astimezone Moment.replace Moment.fromutc tuple o2ymd month_day dim dbm
    leap days_before_year
instant-astimezone_example =
    instant-astimezone before_midnight (moment 730119 64799000000 (some boston) (pos 0)) paris
      boston refl
