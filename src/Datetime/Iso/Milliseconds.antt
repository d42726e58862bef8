-- ===== src/Datetime/Iso/Milliseconds.antt =====
-- `_t2iso` with "milliseconds" against `_iso2t`, which takes a "-" behind three digits of the
-- fraction for the beginning of three more.
use micropython_lib.Prelude.{
  ℕ, ◌*◌, ◌/◌, ◌%◌, ◌-◌, ◌<◌, ◌≡◌, [], ◌∷◌, ◌++◌, arith, some, raise, value_error,
}
use micropython_lib.Prelude.Int.{pos, negsuc}
use micropython_lib.Prelude.Text.Digits.{two, three, zero_pad-two, zero_pad-three, int-minus_two}
use micropython_lib.Datetime.Timedelta.{of_us, day_us}
use micropython_lib.Datetime.Timedelta.Format.{fmt_parts, fmt_clock}
use micropython_lib.Datetime.Zone
use micropython_lib.Datetime.Zone.{Timezone}
use micropython_lib.Datetime.Iso.{iso2t, t2iso, milliseconds}
use micropython_lib.Datetime.Iso.Written.{fmt-nonneg, tuple-within, fmt-west}
use micropython_lib.Datetime.Iso.Read.{iso2t-millis_west}

fmt_parts-millis :
    (h m s us : ℕ)
    → h < 24
    → m < 60
    → s < 60
    → us < 1000000
    → us % 1000 ≡ 0
    → fmt_parts 4 [] 0 h m s us
      ≡ two h ++ (b':' ∷ (two m ++ (b':' ∷ (two s ++ (b'.' ∷ three (us / 1000))))))
unfolding fmt_parts fmt_clock
fmt_parts-millis h m s us hh hm hs hu e =
    rw
      (
        zero_pad-two h (omega arith),
        zero_pad-two m (omega arith),
        zero_pad-two s (omega arith),
        zero_pad-three (us / 1000) (omega arith),
        e,
      )
      (ground arith)

-- The text that a time of day in whole milliseconds gets with timespec "milliseconds" and an offset
-- of whole seconds west of Greenwich, less than a day, makes `_iso2t` raise ValueError.
pub iso2t-milliseconds_west :
    (n a : ℕ) (name : Timezone)
    → n < day_us
    → n % 1000 ≡ 0
    → 0 < a
    → a < 86400
    → name.offset ≡ of_us (negsuc (a * 1000000 - 1))
    → iso2t (t2iso (of_us (pos n)) milliseconds (some name)) ≡ raise value_error
unfolding t2iso Zone.isoformat
iso2t-milliseconds_west n a z h e p ha off =
    rw (off, fmt-west a p ha, fmt-nonneg, tuple-within n h, written)
      (iso2t-millis_west (sec / 3600) (sec % 3600 / 60) (sec % 3600 % 60) (n % 1000000 / 1000)
        (a / 3600) (omega arith) (omega arith) (omega arith) (omega arith) _
        (int-minus_two (a / 3600) (omega arith)))
  where
    sec : ℕ
    sec = n / 1000000

    written :
        fmt_parts 4 [] 0 (sec / 3600) (sec % 3600 / 60) (sec % 3600 % 60) (n % 1000000)
        ≡ two (sec / 3600)
          ++ (b':'
              ∷ (two (sec % 3600 / 60)
                  ++ (b':' ∷ (two (sec % 3600 % 60) ++ (b'.' ∷ three (n % 1000000 / 1000))))))
    written =
        fmt_parts-millis _ _ _ _ (omega arith) (omega arith) (omega arith) (omega arith)
          (omega arith)
