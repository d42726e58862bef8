-- ===== src/Datetime/Iso/RoundTrip.antt =====
-- The text of a time of day, with an offset or without, reads back as that time.
use micropython_lib.Prelude.{
  ℕ, ◌-◌, ◌*◌, ◌/◌, ◌%◌, ◌<◌, ◌≡◌, refl, arith, [], ◌++◌, inl, inr, Option, none, some, ok, ap, ◌∙◌,
}
use micropython_lib.Prelude.Int.{ℤ, ◌<ℤ◌, pos, negsuc}
use micropython_lib.Prelude.Text.{Text}
use micropython_lib.Datetime.Timedelta.{Timedelta, of_us, day_us, neg, abs}
use micropython_lib.Datetime.Timedelta.Fields.{us-in_us}
use micropython_lib.Datetime.Timedelta.Format.{fmt}
use native.Mathlib.Decide.{ℕ_discrete}
use mathlib.Core.List.{append-nil}
use micropython_lib.Datetime.Zone
use micropython_lib.Datetime.Zone.{Timezone, timezone}
use micropython_lib.Datetime.Iso.{iso2t, t2iso, auto, IsoTime, zone, zone_of}
use micropython_lib.Datetime.Iso.Written.{clock_text, fmt-east, fmt-west}
use micropython_lib.Datetime.Iso.Written.{fmt-time_text, time_text}
use micropython_lib.Datetime.Iso.Read.{
  clock-whole, fraction-six, exact, clock-exact, zone_fields-whole, zone_fields-exact, zone-east,
  zone-west, iso_time, iso2t-parts,
}

-- The offsets that the text can hold: whole seconds, less than a day.
pub data Whole : Timedelta → Type 0 where
  east : (a : ℕ) → a < 86400 → Whole (of_us (pos (a * 1000000)))
  west : (a : ℕ) → 0 < a → a < 86400 → Whole (of_us (negsuc (a * 1000000 - 1)))

abbrev pub unnamed : Timedelta → Timezone
unnamed td = record { offset = td; name = none }

zone_of-within :
    (td : Timedelta) → (abs td).us <ℤ pos day_us → zone_of (some td) ≡ ok (some (unnamed td))
unfolding timezone
zone_of-within td h = ground arith

zone_of-Whole : (td : Timedelta) → Whole td → zone_of (some td) ≡ ok (some (unnamed td))
zone_of-Whole _ (east a h) = zone_of-within _ (unfold abs in ground arith)
zone_of-Whole _ (west a p h) = zone_of-within _ (unfold abs neg in rw us-in_us (ground arith))

neg-east : (a : ℕ) → 0 < a → neg (of_us (pos (a * 1000000))) ≡ of_us (negsuc (a * 1000000 - 1))
unfolding neg
neg-east a p = us-in_us _ ∙ ap of_us (ground arith)

-- Both forms of time, `t` with the index `i` behind it, read back with an offset behind them.
record IsClock (t : Text) (i : ℕ) (h m s us : ℤ) : Type 0 where
  alone : iso2t t ≡ ok (iso_time h m s us none)
  with_offset :
      (td : Timedelta)
      → Whole td
      → iso2t (t ++ fmt td 0x12) ≡ ok (iso_time h m s us (some (unnamed td)))

whole-IsClock :
    (h m s : ℕ)
    → h < 100
    → m < 100
    → s < 100
    → IsClock (clock_text h m s 0) 8 (pos h) (pos m) (pos s) (pos 0)
whole-IsClock h m s hh hm hs = record {
  alone =
      iso2t-parts (clock_text h m s 0) 8 {td = none} (clock-whole h m s [] hh hm hs tt)
        (unfold zone in refl) refl;
  with_offset = offsets;
}
  where
    offsets :
        (td : Timedelta)
        → Whole td
        → iso2t (clock_text h m s 0 ++ fmt td 0x12)
          ≡ ok (iso_time (pos h) (pos m) (pos s) (pos 0) (some (unnamed td)))
    offsets _ (east a ha) = rw (fmt-east a ha) (
        iso2t-parts _ 8 (clock-whole h m s _ hh hm hs (inl refl))
          (zone-east _ 8 refl (omega arith) (zone_fields-whole b'+' a ha h m s))
          (zone_of-Whole _ (east a ha)))
    offsets _ (west a p ha) =
        rw (fmt-west a p ha, ← neg-east a p)
          (iso2t-parts _ 8 (clock-whole h m s _ hh hm hs (inr refl))
            (zone-west _ 8 refl (omega arith) (zone_fields-whole b'-' a ha h m s))
            (rw (neg-east a p) (zone_of-Whole _ (west a p ha))))

exact-IsClock :
    (h m s us : ℕ)
    → h < 100
    → m < 100
    → s < 100
    → us < 1000000
    → IsClock (exact h m s us) 15 (pos h) (pos m) (pos s) (pos us)
exact-IsClock h m s us hh hm hs hu = record {
  alone =
      iso2t-parts (exact h m s us) 15 {td = none} (clock-exact h m s us [] hh hm hs hu)
        (unfold zone in refl) refl;
  with_offset = offsets;
}
  where
    offsets :
        (td : Timedelta)
        → Whole td
        → iso2t (exact h m s us ++ fmt td 0x12)
          ≡ ok (iso_time (pos h) (pos m) (pos s) (pos us) (some (unnamed td)))
    offsets _ (east a ha) = rw (fmt-east a ha) (
        iso2t-parts _ 15 (clock-exact h m s us _ hh hm hs hu)
          (zone-east _ 15 refl (omega arith) (zone_fields-exact b'+' a ha h m s us))
          (zone_of-Whole _ (east a ha)))
    offsets _ (west a p ha) =
        rw (fmt-west a p ha, ← neg-east a p)
          (iso2t-parts _ 15 (clock-exact h m s us _ hh hm hs hu)
            (zone-west _ 15 refl (omega arith) (zone_fields-exact b'-' a ha h m s us))
            (rw (neg-east a p) (zone_of-Whole _ (west a p ha))))

clock_text-IsClock :
    (h m s us : ℕ)
    → h < 100
    → m < 100
    → s < 100
    → us < 1000000
    → (i : ℕ) × IsClock (clock_text h m s us) i (pos h) (pos m) (pos s) (pos us)
clock_text-IsClock h m s us hh hm hs hu = elim (ℕ_discrete us 0) [
  | yes e ↦ (8, rw e (whole-IsClock h m s hh hm hs))
  | no ne ↦ (15, rw (fraction-six us ne) (exact-IsClock h m s us hh hm hs hu))
]

-- The time of day with `n` microseconds, as `_iso2t` gives it.
abbrev pub read_time : ℕ → Option Timezone → IsoTime
read_time n tz =
    let s = n / 1000000 in
    iso_time (pos (s / 3600)) (pos (s % 3600 / 60)) (pos (s % 3600 % 60)) (pos (n % 1000000)) tz

time_text-IsClock :
    (n : ℕ)
    → n < day_us
    → let s = n / 1000000 in
      (i : ℕ) × IsClock
        (time_text n)
        i
        (pos (s / 3600))
        (pos (s % 3600 / 60))
        (pos (s % 3600 % 60))
        (pos (n % 1000000))
time_text-IsClock n h =
    clock_text-IsClock (n / 1000000 / 3600) (n / 1000000 % 3600 / 60) (n / 1000000 % 3600 % 60)
      (n % 1000000) (omega arith) (omega arith) (omega arith) (omega arith)

-- Without a time zone, the time that is written is the time that is read.
pub iso2t-t2iso_naive :
    (n : ℕ) → n < day_us → iso2t (t2iso (of_us (pos n)) auto none) ≡ ok (read_time n none)
unfolding t2iso
iso2t-t2iso_naive n h = rw (append-nil, fmt-time_text n h) (time_text-IsClock n h).1.alone

-- With a time zone too, if its offset is a number of seconds; its name is not written.
pub iso2t-t2iso :
    (n : ℕ) (z : Timezone)
    → n < day_us
    → Whole z.offset
    → iso2t (t2iso (of_us (pos n)) auto (some z)) ≡ ok (read_time n (some (unnamed z.offset)))
unfolding t2iso Zone.isoformat
iso2t-t2iso n z h w = rw (fmt-time_text n h) ((time_text-IsClock n h).1.with_offset z.offset w)
