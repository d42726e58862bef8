-- ===== src/Datetime/Iso/Written.antt =====
-- The text that `_d2iso` and `_t2iso` write, character by character.
use micropython_lib.Prelude.{
  ℕ, suc, ◌-◌, ◌*◌, ◌/◌, ◌%◌, ◌≤◌, ◌<◌, ◌≡◌, arith, [], ◌∷◌, ◌++◌, ◌==◌, if◌then◌else◌,
}
use micropython_lib.Prelude.Int.{pos, negsuc, div_ℤ, mod_ℤ}
use micropython_lib.Prelude.Text.{Text}
use micropython_lib.Prelude.Text.Digits.{
  two, three, four, zero_pad-two, zero_pad-three, zero_pad-four,
}
use micropython_lib.Datetime.Calendar.{o2ymd, dim, max_ordinal}
use micropython_lib.Datetime.Calendar.Ordinals.{o2ymd-Names}
use micropython_lib.Datetime.Timedelta.Fields.{us-in_us}
use micropython_lib.Datetime.Timedelta.{neg, of_us, day_us, tuple}
use micropython_lib.Datetime.Timedelta.Format.{fmt, fmt_parts, fmt_clock, fmt_of}
use micropython_lib.Datetime.Iso.{d2iso}

abbrev pub date_text : ℕ → ℕ → ℕ → Text
date_text y m d = four y ++ (b'-' ∷ (two m ++ (b'-' ∷ two d)))

pub dim-le : (y m : ℕ) → dim y m ≤ 31
unfolding dim
dim-le y m = ground arith

pub d2iso_lem :
    (o : ℕ) → 1 ≤ o → o ≤ max_ordinal → let (y, m, d) = o2ymd o in d2iso o ≡ date_text y m d
unfolding d2iso
d2iso_lem o lo hi = ground (
  arith,
  o2ymd-Names o lo hi,
  zero_pad-four (o2ymd o).0,
  zero_pad-two (o2ymd o).1,
  zero_pad-two (o2ymd o).2,
  dim-le (o2ymd o).0 (o2ymd o).1,
)

abbrev pub six : ℕ → Text
six us = three (us / 1000) ++ three (us % 1000)

-- The fraction is left out if it is zero, and has six digits otherwise.
abbrev pub fraction : ℕ → Text
fraction us = if us == 0 then [] else b'.' ∷ six us

abbrev pub clock_text : ℕ → ℕ → ℕ → ℕ → Text
clock_text h m s us = two h ++ (b':' ∷ (two m ++ (b':' ∷ (two s ++ fraction us))))

fmt_parts-clock :
    (h m s us : ℕ)
    → h < 24
    → m < 60
    → s < 60
    → us < 1000000
    → fmt_parts 0 [] 0 h m s us ≡ clock_text h m s us
unfolding fmt_parts fmt_clock
fmt_parts-clock h m s us hh hm hs hu =
    rw
      (
        zero_pad-two h (omega arith),
        zero_pad-two m (omega arith),
        zero_pad-two s (omega arith),
        zero_pad-three (us / 1000) (omega arith),
        zero_pad-three (us % 1000) (omega arith),
      )
      (ground arith)

-- A number of microseconds within a day, by its parts.
pub tuple-within :
    (n : ℕ)
    → n < day_us
    → tuple (of_us (pos n)) ≡ record {
      days = pos 0;
      hours = n / 1000000 / 3600;
      minutes = n / 1000000 % 3600 / 60;
      seconds = n / 1000000 % 3600 % 60;
      microseconds = n % 1000000;
    }
unfolding tuple div_ℤ mod_ℤ
tuple-within n h = ground arith

pub fmt-nonneg : (n spec : ℕ) → fmt (of_us (pos n)) spec ≡ fmt_of spec [] (tuple (of_us (pos n)))
unfolding fmt
fmt-nonneg n spec = ground arith

fmt-negative :
    (n spec : ℕ)
    → fmt (of_us (negsuc n)) spec ≡ fmt_of spec (b'-' ∷ []) (tuple (of_us (pos (suc n))))
unfolding fmt neg
fmt-negative n spec = rw us-in_us (ground arith)

-- The time of day with `n` microseconds, in text.
abbrev pub time_text : ℕ → Text
time_text n =
    let s = n / 1000000 in clock_text (s / 3600) (s % 3600 / 60) (s % 3600 % 60) (n % 1000000)

pub fmt-time_text : (n : ℕ) → n < day_us → fmt (of_us (pos n)) 0 ≡ time_text n
fmt-time_text n h =
    rw (fmt-nonneg, tuple-within n h)
      (fmt_parts-clock (n / 1000000 / 3600) (n / 1000000 % 3600 / 60) (n / 1000000 % 3600 % 60)
        (n % 1000000) (omega arith) (omega arith) (omega arith) (omega arith))

-- An offset of `a` seconds, in text: seconds are left out if they are zero.
abbrev pub offset_text : ℕ → ℕ → Text
offset_text sign a =
    sign
    ∷ (two (a / 3600)
        ++ (b':'
            ∷ (two (a % 3600 / 60)
                ++ (if a % 3600 % 60 == 0 then [] else b':' ∷ two (a % 3600 % 60)))))

fmt_parts-east :
    (h m s : ℕ)
    → h < 24
    → m < 60
    → s < 60
    → fmt_parts 0x12 [] 0 h m s 0
      ≡ b'+' ∷ (two h ++ (b':' ∷ (two m ++ (if s == 0 then [] else b':' ∷ two s))))
unfolding fmt_parts fmt_clock
fmt_parts-east h m s hh hm hs =
    rw (zero_pad-two h (omega arith), zero_pad-two m (omega arith), zero_pad-two s (omega arith))
      (ground arith)

fmt_parts-west :
    (h m s : ℕ)
    → h < 24
    → m < 60
    → s < 60
    → fmt_parts 0x12 (b'-' ∷ []) 0 h m s 0
      ≡ b'-' ∷ (two h ++ (b':' ∷ (two m ++ (if s == 0 then [] else b':' ∷ two s))))
unfolding fmt_parts fmt_clock
fmt_parts-west h m s hh hm hs =
    rw (zero_pad-two h (omega arith), zero_pad-two m (omega arith), zero_pad-two s (omega arith))
      (ground arith)

seconds_only : (a : ℕ) → (a * 1000000 / 1000000 ≡ a) × (a * 1000000 % 1000000 ≡ 0)
seconds_only a = omega arith

pub fmt-east : (a : ℕ) → a < 86400 → fmt (of_us (pos (a * 1000000))) 0x12 ≡ offset_text b'+' a
fmt-east a h =
    rw
      (fmt-nonneg, tuple-within (a * 1000000) (omega arith), (seconds_only a).0, (seconds_only a).1)
      (fmt_parts-east (a / 3600) (a % 3600 / 60) (a % 3600 % 60) (omega arith) (omega arith)
        (omega arith))

pub fmt-west :
    (a : ℕ) → 0 < a → a < 86400 → fmt (of_us (negsuc (a * 1000000 - 1))) 0x12 ≡ offset_text b'-' a
fmt-west a p h =
    rw
      (
        fmt-negative,
        back,
        tuple-within (a * 1000000) (omega arith),
        (seconds_only a).0,
        (seconds_only a).1,
      )
      (fmt_parts-west (a / 3600) (a % 3600 / 60) (a % 3600 % 60) (omega arith) (omega arith)
        (omega arith))
  where
    back : suc (a * 1000000 - 1) ≡ a * 1000000
    back = omega arith
