-- ===== src/Datetime/Clock/Laws.antt =====
-- What `_time` accepts, and the methods of `time` that take a time apart and build it again.
use micropython_lib.Prelude.{
  ℕ, ◌/◌, ◌%◌, ◌<◌, ◌≡◌, ◌⊎◌, inl, inr, refl, sym, ap, ◌∙◌, arith, Option, none, some, ok, ◌>>=◌,
  Bool-cases, raise, value_error, raise-ne-ok, ok-injective, true, false,
}
use micropython_lib.Prelude.Int.{ℤ, pos, ◌≤ℤ◌, ◌<ℤ◌, int_laws}
use micropython_lib.Datetime.Timedelta.{Timedelta, timedelta, of_us, day_us}
use micropython_lib.Datetime.Timedelta.Fields.{us-in_us}
use micropython_lib.Datetime.Zone.{Timezone}
use micropython_lib.Datetime.Iso.{auto}
use micropython_lib.Datetime.Iso.Written.{tuple-within}
use micropython_lib.Datetime.Iso.RoundTrip.{Whole, unnamed, iso2t-t2iso, iso2t-t2iso_naive}
use micropython_lib.Datetime.Clock.{
  Time, time_delta, clock_fields, only_microseconds, time, replace, fromisoformat, isoformat,
}

abbrev pub IsFold : ℤ → Type 0
IsFold f = (f ≡ pos 0) ⊎ (f ≡ pos 1)

-- The ranges of the arguments that `_time` accepts.
record Fits (h m s us : ℤ) : Type 0 where
  hour_in : (pos 0 ≤ℤ h) × (h <ℤ pos 24)
  minute_in : (pos 0 ≤ℤ m) × (m <ℤ pos 60)
  second_in : (pos 0 ≤ℤ s) × (s <ℤ pos 60)
  microsecond_in : (pos 0 ≤ℤ us) × (us <ℤ pos 1000000)

clock_fields-Fits : (h m s us f : ℤ) → clock_fields h m s us f ≡ true → Fits h m s us
clock_fields-Fits h m s us f e = ground arith

only_microseconds_sound :
    (h m s us : ℤ)
    → only_microseconds h m s us ≡ true
    → (h ≡ pos 0) × (m ≡ pos 0) × (s ≡ pos 0) × (pos 0 <ℤ us) × (us <ℤ pos day_us)
only_microseconds_sound h m s us e = ground arith

timedelta-range :
    (h m s us : ℤ)
    → Fits h m s us
    → let td = timedelta (pos 0) s us (pos 0) m h (pos 0) in
      (pos 0 ≤ℤ td.us) × (td.us <ℤ pos day_us)
unfolding timedelta
timedelta-range h m s us v = omega (int_laws, v)

-- Where `_time` succeeds, its duration is at least zero and less than a day.
pub time_delta-range :
    (h m s us f : ℤ) (td : Timedelta)
    → time_delta h m s us f ≡ ok td
    → (pos 0 ≤ℤ td.us) × (td.us <ℤ pos day_us)
time_delta-range h m s us f td e = elim (Bool-cases (clock_fields h m s us f)) [
  | inl p ↦
      rw (← made (unfold time_delta in rw p))
        (timedelta-range h m s us (clock_fields-Fits h m s us f p))
  | inr p ↦ elim (Bool-cases (only_microseconds h m s us)) [
    | inl q ↦
        rw (← made (unfold time_delta in rw (p, q))) (only (only_microseconds_sound h m s us q))
    | inr q ↦ absurd (raise-ne-ok (sym (refused p q) ∙ e))
  ]
]
  where
    made :
        time_delta h m s us f ≡ ok (timedelta (pos 0) s us (pos 0) m h (pos 0))
        → timedelta (pos 0) s us (pos 0) m h (pos 0) ≡ td
    made r = ok-injective (sym r ∙ e)

    refused :
        clock_fields h m s us f ≡ false
        → only_microseconds h m s us ≡ false
        → time_delta h m s us f ≡ raise value_error
    refused p q = unfold time_delta in rw (p, q)

    only :
        (h ≡ pos 0) × (m ≡ pos 0) × (s ≡ pos 0) × (pos 0 <ℤ us) × (us <ℤ pos day_us)
        → let t = timedelta (pos 0) s us (pos 0) m h (pos 0) in
          (pos 0 ≤ℤ t.us) × (t.us <ℤ pos day_us)
    only (a, b, c, lo, hi) = rw (a, b, c, us-in_us us) (omega arith)

-- The parts of a time within the day are accepted, and give it back.
pub time_delta-tuple :
    (n : ℕ) (f : ℤ)
    → n < day_us
    → IsFold f
    → let s = n / 1000000 in
      time_delta (pos (s / 3600)) (pos (s % 3600 / 60)) (pos (s % 3600 % 60)) (pos (n % 1000000)) f
      ≡ ok (of_us (pos n))
time_delta-tuple n f h k = accepted ∙ ap ok same
  where
    sec : ℕ
    sec = n / 1000000

    same :
        timedelta
          (pos 0)
          (pos (sec % 3600 % 60))
          (pos (n % 1000000))
          (pos 0)
          (pos (sec % 3600 / 60))
          (pos (sec / 3600))
          (pos 0)
        ≡ of_us (pos n)
    same = unfold timedelta in ap of_us (omega int_laws)

    accepted :
        time_delta
          (pos (sec / 3600))
          (pos (sec % 3600 / 60))
          (pos (sec % 3600 % 60))
          (pos (n % 1000000))
          f
        ≡ ok (
            timedelta
              (pos 0)
              (pos (sec % 3600 % 60))
              (pos (n % 1000000))
              (pos 0)
              (pos (sec % 3600 / 60))
              (pos (sec / 3600))
              (pos 0))
    accepted = unfold time_delta in ground arith

-- A time of the day, as every `time` object is.
abbrev pub time_at : ℕ → Option Timezone → ℤ → Time
time_at n tz f = record { td = of_us (pos n); tz = tz; fold = f }

-- `replace` with no new value gives the time back.
pub replace_time-none :
    (n : ℕ) (tz : Option Timezone) (f : ℤ)
    → n < day_us
    → IsFold f
    → replace (time_at n tz f) none none none none none none ≡ ok (time_at n tz f)
unfolding replace time
replace_time-none n tz f h k =
    ap (λ p. time (pos p.hours) (pos p.minutes) (pos p.seconds) (pos p.microseconds) tz f)
      (tuple-within n h)
    ∙ rw (time_delta-tuple n f h k, ◌>>=◌)

-- The text of a time without a time zone reads back as it.
pub fromisoformat_time-isoformat :
    (n : ℕ)
    → n < day_us
    → fromisoformat (isoformat (time_at n none (pos 0)) auto) ≡ ok (time_at n none (pos 0))
unfolding fromisoformat isoformat time
fromisoformat_time-isoformat n h =
    rw (iso2t-t2iso_naive n h, time_delta-tuple n (pos 0) h (inl refl), ◌>>=◌)

-- So does that of a time with an offset of whole seconds, but for the name of the time zone.
pub fromisoformat_time-isoformat_zone :
    (n : ℕ) (z : Timezone)
    → n < day_us
    → Whole z.offset
    → fromisoformat (isoformat (time_at n (some z) (pos 0)) auto)
      ≡ ok (time_at n (some (unnamed z.offset)) (pos 0))
unfolding fromisoformat isoformat time
fromisoformat_time-isoformat_zone n z h w =
    rw (iso2t-t2iso n z h w, time_delta-tuple n (pos 0) h (inl refl), ◌>>=◌)
