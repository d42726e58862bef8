-- ===== src/Datetime/Timedelta/Format.antt =====
-- `timedelta._fmt`, with `__str__` and `isoformat`. The low bits of `spec` choose the precision, 1
-- for hours up to 5 for microseconds and 0 for automatic; 0x40, 0x20 and 0x10 are flags.
use micropython_lib.Prelude.{
  ℕ, ◌-◌, ◌/◌, ◌%◌, ◌++◌, Bool, not, ◌&&◌, ◌||◌, ltb, leb, ◌==◌, if◌then◌else◌, [], bit_and, bit_or,
  true, false,
}
use micropython_lib.Prelude.Int.{pos, pos_part, leb_ℤ}
use micropython_lib.Prelude.Text.{Text, codes, str, zero_pad}
use micropython_lib.Datetime.Timedelta.{Timedelta, Parts, tuple, neg}

abbrev has : ℕ → ℕ → Bool
has bit spec = not (bit_and spec bit == 0)

-- `spec &= ~bit`, where the bit is set.
abbrev clear : ℕ → ℕ → ℕ
clear bit spec = if has bit spec then spec - bit else spec

-- What `_fmt` writes behind the days: sign, hours, and as much of the rest as is asked for or not zero.
unfoldable pub fmt_clock : ℕ → Text → Text → ℕ → ℕ → ℕ → ℕ → ℕ → Text
fmt_clock spec g hr h m s ms us =
    let micros = if leb 5 spec || not (us == 0) then zero_pad 3 us else [] in
    let millis =
      if leb 4 spec || not (ms == 0) then codes "." ++ (zero_pad 3 ms ++ micros) else [] in
    let secs = if leb 3 spec || not (s == 0) then codes ":" ++ (zero_pad 2 s ++ millis) else [] in
    let mins = if leb 2 spec || not (m == 0) then codes ":" ++ (zero_pad 2 m ++ secs) else [] in
    if leb 1 spec || not (h == 0) then g ++ (hr ++ mins) else []

-- The rest of `_fmt`, once the sign `g` and the parts of the absolute value are known.
unfoldable pub fmt_parts : ℕ → Text → ℕ → ℕ → ℕ → ℕ → ℕ → Text
unfolding fmt_clock
fmt_parts spec g d h m s us =
    let ms = us / 1000 in
    let us' = us % 1000 in
    let hr = if has 0x40 spec then str h else zero_pad 2 h in
    let spec_b = clear 0x40 spec in
    let utc = has 0x20 spec_b in
    let spec_c = if utc then bit_or (spec_b - 0x20) 0x10 else spec_b in
    let prefix = if utc then codes "UTC" else [] in
    let sign = if has 0x10 spec_c && g_is_empty then codes "+" else g in
    let spec_d = clear 0x10 spec_c in
    let precision =
      if spec_d == 0 then (if not (ms == 0) || not (us' == 0) then 5 else 3) else spec_d in
    let plural = if ltb 1 d then codes "s" else [] in
    if d == 0
    then prefix ++ fmt_clock precision sign hr h m s ms us'
    else prefix
      ++ (sign
          ++ (str d
              ++ (codes " day"
                  ++ (plural ++ (codes ", " ++ fmt_clock precision [] hr h m s ms us')))))
  where
    g_is_empty : Bool
    g_is_empty = elim g [ [] ↦ true | _ ↦ false ]

abbrev pub fmt_of : ℕ → Text → Parts → Text
fmt_of spec g p = fmt_parts spec g (pos_part p.days) p.hours p.minutes p.seconds p.microseconds

unfoldable pub fmt : Timedelta → ℕ → Text
fmt td spec =
    if leb_ℤ (pos 0) td.us
    then fmt_of spec [] (tuple td)
    else fmt_of spec (codes "-") (tuple (neg td))

unfoldable pub to_string : Timedelta → Text
to_string td = fmt td 0x40

unfoldable pub isoformat : Timedelta → Text
isoformat td = fmt td 0
