-- ===== src/Datetime/Iso/Read.antt =====
-- The steps of the parsers `_iso2d` and `_iso2t` on text of the forms that are written.
use micropython_lib.Prelude.{
  ℕ, ◌+◌, ◌*◌, ◌/◌, ◌%◌, ◌≤◌, ◌<◌, ◌≡◌, ◌≢◌, arith, [], ◌∷◌, ◌++◌, ◌==◌, Bool-cases, inl, inr,
  Option, some, ◌⊎◌, ok, raise, value_error, ◌>>=◌, length, get_or, ap, sym, ◌∙◌,
}
use micropython_lib.Prelude.Int.{ℤ, pos, ◌+ℤ◌, ◌*ℤ◌, int_laws}
use micropython_lib.Prelude.Text.{Text, int}
use micropython_lib.Prelude.Text.Digits.{two, three, int-two, int-three, int-four}
use micropython_lib.Datetime.Calendar.{o2ymd, max_ordinal}
use micropython_lib.Datetime.Calendar.Ordinals.{o2ymd-Names}
use micropython_lib.Datetime.Timedelta.{Timedelta, of_us, timedelta, neg}
use micropython_lib.Datetime.Zone.{Timezone}
use micropython_lib.Datetime.Iso.{iso2d, d2iso, iso2t, IsoTime, clock, zone_fields, zone, zone_of}
use micropython_lib.Datetime.Iso.Written.{
  date_text, d2iso_lem, clock_text, offset_text, fraction, six, dim-le,
}

iso2d-date_text :
    (y m d : ℕ) (rest : Text)
    → y < 10000
    → m < 100
    → d < 100
    → iso2d (date_text y m d ++ rest) ≡ ok (pos y, pos m, pos d)
unfolding iso2d
iso2d-date_text y m d rest hy hm hd = ground (arith, int-four y hy, int-two m hm, int-two d hd)

-- The date that is written is the date that is read, whatever follows it.
pub iso2d-d2iso :
    (o : ℕ) (rest : Text)
    → 1 ≤ o
    → o ≤ max_ordinal
    → let (y, m, d) = o2ymd o in iso2d (d2iso o ++ rest) ≡ ok (pos y, pos m, pos d)
iso2d-d2iso o rest lo hi = rw (d2iso_lem o lo hi) (
    iso2d-date_text _ _ _ rest (omega (arith, o2ymd-Names o lo hi))
      (omega (arith, o2ymd-Names o lo hi))
      (omega (arith, o2ymd-Names o lo hi, dim-le (o2ymd o).0 (o2ymd o).1)))

-- What may stand behind the time: nothing, or a sign.
abbrev pub Behind : Text → Type 0
Behind [] = Unit {0}
Behind (c ∷ s) = (c ≡ b'+') ⊎ (c ≡ b'-')

pub clock-whole :
    (h m s : ℕ) (rest : Text)
    → h < 100
    → m < 100
    → s < 100
    → Behind rest
    → clock (clock_text h m s 0 ++ rest) ≡ ok (pos h, pos m, pos s, pos 0, 8)
unfolding clock
clock-whole h m s [] hh hm hs b = rw (int-two h hh, int-two m hm, int-two s hs)
clock-whole h m s (c ∷ t) hh hm hs b = rw (int-two h hh, int-two m hm, int-two s hs) (ground arith)

pub fraction-six : (us : ℕ) → us ≢ 0 → fraction us ≡ b'.' ∷ six us
fraction-six us ne = ground arith

abbrev pub exact : ℕ → ℕ → ℕ → ℕ → Text
exact h m s us = two h ++ (b':' ∷ (two m ++ (b':' ∷ (two s ++ (b'.' ∷ six us)))))

micros_sum : (us : ℕ) → pos 1000 *ℤ pos (us / 1000) +ℤ pos (us % 1000) ≡ pos us
micros_sum us = omega int_laws

pub clock-exact :
    (h m s us : ℕ) (rest : Text)
    → h < 100
    → m < 100
    → s < 100
    → us < 1000000
    → clock (exact h m s us ++ rest) ≡ ok (pos h, pos m, pos s, pos us, 15)
unfolding clock
clock-exact h m s us rest hh hm hs hu =
    rw
      (
        int-two h hh,
        int-two m hm,
        int-two s hs,
        int-three (us / 1000) (omega arith),
        int-three (us % 1000) (omega arith),
      )
      (ground (arith, micros_sum us))

abbrev pub hms_us : ℕ → ℕ → ℕ → Timedelta
hms_us h m s = timedelta (pos 0) (pos s) (pos 0) (pos 0) (pos m) (pos h) (pos 0)

pub hms_us-eq :
    (a : ℕ) → hms_us (a / 3600) (a % 3600 / 60) (a % 3600 % 60) ≡ of_us (pos (a * 1000000))
unfolding timedelta
hms_us-eq a = ap of_us (omega int_laws)

-- The parser on an offset behind eight or fifteen characters of time; `z` is its last two digits.
module _ (c h m z : ℕ) (hh : h < 100) (hm : m < 100) (hz : z < 100) where
  abbrev pub short : Text
  short = c ∷ (two h ++ (b':' ∷ two m))

  pub zone_fields-short :
      (p q r : ℕ) → zone_fields (clock_text p q r 0 ++ short) 8 ≡ ok (hms_us h m 0, 14)
  unfolding zone_fields
  zone_fields-short p q r = rw (int-two h hh, int-two m hm)

  pub zone_fields-long :
      (p q r : ℕ)
      → zone_fields (clock_text p q r 0 ++ (short ++ (b':' ∷ two z))) 8 ≡ ok (hms_us h m z, 17)
  unfolding zone_fields
  zone_fields-long p q r = rw (int-two h hh, int-two m hm, int-two z hz)

  pub zone_fields-short_exact :
      (p q r us : ℕ) → zone_fields (exact p q r us ++ short) 15 ≡ ok (hms_us h m 0, 21)
  unfolding zone_fields
  zone_fields-short_exact p q r us = rw (int-two h hh, int-two m hm)

  pub zone_fields-long_exact :
      (p q r us : ℕ)
      → zone_fields (exact p q r us ++ (short ++ (b':' ∷ two z))) 15 ≡ ok (hms_us h m z, 24)
  unfolding zone_fields
  zone_fields-long_exact p q r us = rw (int-two h hh, int-two m hm, int-two z hz)

pub zone-east :
    (t : Text) (i : ℕ) {j : ℕ} {td : Timedelta}
    → get_or t i 0 ≡ b'+'
    → i + 6 ≤ length t
    → zone_fields t i ≡ ok (td, j)
    → zone t i ≡ ok (some td, j)
unfolding zone
zone-east t i e h f = ground arith

pub zone-west :
    (t : Text) (i : ℕ) {j : ℕ} {td : Timedelta}
    → get_or t i 0 ≡ b'-'
    → i + 6 ≤ length t
    → zone_fields t i ≡ ok (td, j)
    → zone t i ≡ ok (some (neg td), j)
unfolding zone
zone-west t i e h f = ground arith

abbrev pub iso_time : ℤ → ℤ → ℤ → ℤ → Option Timezone → IsoTime
iso_time h m s us tz = record { hour = h; minute = m; second = s; microsecond = us; tz = tz }

pub iso2t-parts :
    (t : Text) (i : ℕ) {h m s us : ℤ} {td : Option Timedelta} {tz : Option Timezone}
    → clock t ≡ ok (h, m, s, us, i)
    → zone t i ≡ ok (td, length t)
    → zone_of td ≡ ok tz
    → iso2t t ≡ ok (iso_time h m s us tz)
unfolding iso2t
iso2t-parts t i e f g = rw (e, f, iso2t) (rw g (ground arith))

-- A time of either form, with an offset of `a` seconds behind it.
module _ (c a : ℕ) (ha : a < 86400) where
  zone_value : a % 3600 % 60 ≡ 0 → hms_us (a / 3600) (a % 3600 / 60) 0 ≡ of_us (pos (a * 1000000))
  zone_value e = ap (hms_us (a / 3600) (a % 3600 / 60)) (sym e) ∙ hms_us-eq a

  pub zone_fields-whole :
      (p q r : ℕ)
      → let t = clock_text p q r 0 ++ offset_text c a in
        zone_fields t 8 ≡ ok (of_us (pos (a * 1000000)), length t)
  zone_fields-whole p q r = elim (Bool-cases (a % 3600 % 60 == 0)) [
    | inl e ↦ rw e (
        zone_fields-short c (a / 3600) (a % 3600 / 60) 0 (omega arith) (omega arith) (omega arith) p
          q r
        ∙ ap (λ td. ok (td, 14)) (zone_value (ground arith)))
    | inr e ↦ rw e (
        zone_fields-long c (a / 3600) (a % 3600 / 60) (a % 3600 % 60) (omega arith) (omega arith)
          (omega arith) p q r
        ∙ ap (λ td. ok (td, 17)) (hms_us-eq a))
  ]

  pub zone_fields-exact :
      (p q r us : ℕ)
      → let t = exact p q r us ++ offset_text c a in
        zone_fields t 15 ≡ ok (of_us (pos (a * 1000000)), length t)
  zone_fields-exact p q r us = elim (Bool-cases (a % 3600 % 60 == 0)) [
    | inl e ↦ rw e (
        zone_fields-short_exact c (a / 3600) (a % 3600 / 60) 0 (omega arith) (omega arith)
          (omega arith) p q r us
        ∙ ap (λ td. ok (td, 21)) (zone_value (ground arith)))
    | inr e ↦ rw e (
        zone_fields-long_exact c (a / 3600) (a % 3600 / 60) (a % 3600 % 60) (omega arith)
          (omega arith) (omega arith) p q r us
        ∙ ap (λ td. ok (td, 24)) (hms_us-eq a))
  ]

-- Milliseconds with "-" behind them: the sign and the hours are read as three more digits.
module _ (h m s ms a : ℕ) (hh : h < 100) (hm : m < 100) (hs : s < 100) (hms : ms < 1000) where
  abbrev pub millis_west : Text → Text
  millis_west rest =
      two h
      ++ (b':'
          ∷ (two m ++ (b':' ∷ (two s ++ (b'.' ∷ (three ms ++ (b'-' ∷ (two a ++ (b':' ∷ rest)))))))))

  clock-millis_west :
      (rest : Text) {w : ℤ}
      → int (b'-' ∷ two a) ≡ ok w
      → clock (millis_west rest) ≡ ok (pos h, pos m, pos s, pos 1000 *ℤ pos ms +ℤ w, 15)
  unfolding clock
  clock-millis_west rest e =
      rw (int-two h hh, int-two m hm, int-two s hs, int-three ms hms, e) (ground arith)

  zone-millis_west : (rest : Text) → zone (millis_west rest) 15 ≡ raise value_error
  unfolding zone
  zone-millis_west rest = ground arith

  pub iso2t-millis_west :
      (rest : Text) {w : ℤ}
      → int (b'-' ∷ two a) ≡ ok w
      → iso2t (millis_west rest) ≡ raise value_error
  unfolding iso2t
  iso2t-millis_west rest e = rw (clock-millis_west rest e, zone-millis_west rest, ◌>>=◌)
