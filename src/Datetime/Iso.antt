-- ===== src/Datetime/Iso.antt =====
-- `_iso2d`, `_d2iso`, `_iso2t` and `_t2iso`: dates and times against ISO 8601 text. A text is the
-- list of its code points; `s[i]` is read only where the length has been tested.
pub mod Written
pub mod Read
pub mod RoundTrip
pub mod Milliseconds
use micropython_lib.Prelude.{
  ℕ, ◌+◌, ◌-◌, ◌*◌, Bool, not, ◌&&◌, ◌||◌, ltb, ◌==◌, if◌then◌else◌, [], ◌∷◌, ◌++◌, length, get_or,
  Option, none, some, Result, ok, raise, value_error, ◌>>=◌,
}
use micropython_lib.Prelude.Int.{ℤ, pos, ◌+ℤ◌, ◌*ℤ◌}
use micropython_lib.Prelude.Text.{Text, codes, slice, zero_pad, int}
use micropython_lib.Datetime.Calendar.{o2ymd}
use micropython_lib.Datetime.Timedelta.{Timedelta, timedelta, neg}
use micropython_lib.Datetime.Timedelta.Format.{fmt}
use micropython_lib.Datetime.Zone
use micropython_lib.Datetime.Zone.{Timezone, timezone}

unfoldable pub iso2d : Text → Result (ℤ × ℤ × ℤ)
iso2d s =
    if ltb (length s) 10 || not (get_or s 4 0 == b'-') || not (get_or s 7 0 == b'-')
    then raise value_error
    else do y ← int (slice s 0 4); m ← int (slice s 5 7); d ← int (slice s 8 10); ok (y, m, d)

unfoldable pub d2iso : ℕ → Text
d2iso o =
    let (y, m, d) = o2ymd o in
    zero_pad 4 y ++ (codes "-" ++ (zero_pad 2 m ++ (codes "-" ++ zero_pad 2 d)))

-- `l > i and s[i] == c`
abbrev at : Text → ℕ → ℕ → Bool
at s i c = ltb i (length s) && (get_or s i 0 == c)

-- `if l - i < 0: raise ValueError`, then `int(s[i - w : i])`.
field : Text → ℕ → ℕ → Result ℤ
field s w i = if ltb (length s) i then raise value_error else int (slice s (i - w) i)

-- Each part of `_iso2t` takes the index `i` and gives its values and the index behind them.
-- The part behind a ".": milliseconds, and microseconds unless a "+" follows.
micros : Text → ℕ → Result (ℤ × ℕ)
unfolding field
micros s i = do
  ms ← field s 3 (i + 4)
  if ltb (i + 4) (length s) && not (get_or s (i + 4) 0 == b'+')
      then (do us ← field s 3 (i + 7); ok (pos 1000 *ℤ ms +ℤ us, i + 7))
      else ok (pos 1000 *ℤ ms, i + 4)

secs : Text → ℕ → Result (ℤ × ℤ × ℕ)
unfolding field micros
secs s i = do
  sec ← field s 2 (i + 3)
  if at s (i + 3) b'.'
      then (do (us, j) ← micros s (i + 3); ok (sec, us, j))
      else ok (sec, pos 0, i + 3)

mins : Text → ℕ → Result (ℤ × ℤ × ℤ × ℕ)
unfolding field secs
mins s i = do
  m ← field s 2 (i + 3)
  if at s (i + 3) b':'
      then (do (sec, us, j) ← secs s (i + 3); ok (m, sec, us, j))
      else ok (m, pos 0, pos 0, i + 3)

unfoldable pub clock : Text → Result (ℤ × ℤ × ℤ × ℤ × ℕ)
unfolding mins
clock s = if ltb (length s) 2 then raise value_error else do
  h ← int (slice s 0 2)
  if at s 2 b':'
      then (do (m, sec, us, i) ← mins s 2; ok (h, m, sec, us, i))
      else ok (h, pos 0, pos 0, pos 0, 2)

-- The microseconds of an offset, at a ".", and its seconds, at a ":".
zone_micros : Text → ℕ → Result (ℤ × ℕ)
unfolding field
zone_micros s i = if at s i b'.' then (do us ← field s 6 (i + 7); ok (us, i + 7)) else ok (pos 0, i)

zone_secs : Text → ℕ → Result (ℤ × ℤ × ℕ)
unfolding zone_micros
zone_secs s i =
    if at s i b':'
    then (do sec ← field s 2 (i + 3); (us, j) ← zone_micros s (i + 3); ok (sec, us, j))
    else ok (pos 0, pos 0, i)

-- The offset behind the time, whose sign is at `s[i]`.
unfoldable pub zone_fields : Text → ℕ → Result (Timedelta × ℕ)
unfolding zone_secs
zone_fields s i = do
  h ← int (slice s (i + 1) (i + 3))
  m ← int (slice s (i + 4) (i + 6))
  (sec, us, j) ← zone_secs s (i + 6)
  ok (timedelta (pos 0) sec us (pos 0) m h (pos 0), j)

-- `none` is an empty `tz_sign`.
unfoldable pub zone : Text → ℕ → Result (Option Timedelta × ℕ)
zone s i =
    if ltb i (length s)
    then (if not (get_or s i 0 == b'+') && not (get_or s i 0 == b'-')
        then raise value_error
        else if ltb (length s) (i + 6)
        then raise value_error
        else do
          (td, j) ← zone_fields s i
          ok (some (if get_or s i 0 == b'-' then neg td else td), j))
    else ok (none, i)

abbrev pub zone_of : Option Timedelta → Result (Option Timezone)
zone_of none = ok none
zone_of (some td) = do z ← timezone td none; ok (some z)

-- `_iso2t`: hour, minute, second, microsecond and time zone.
pub record IsoTime : Type 0 where
  pub hour : ℤ
  pub minute : ℤ
  pub second : ℤ
  pub microsecond : ℤ
  pub tz : Option Timezone

unfoldable pub iso2t : Text → Result IsoTime
iso2t s = do
  (h, m, sec, us, i) ← clock s
  (td, j) ← zone s i
  if j == length s
      then (do
        tz ← zone_of td
        ok (record { hour = h; minute = m; second = sec; microsecond = us; tz = tz }))
      else raise value_error

-- The names that `timespec` may have, by their place in the tuple of `_t2iso`.
pub data Timespec : Type 0 where
  auto hours minutes seconds milliseconds microseconds : Timespec

abbrev pub index : Timespec → ℕ
index auto = 0
index hours = 1
index minutes = 2
index seconds = 3
index milliseconds = 4
index microseconds = 5

abbrev zone_text : Option Timezone → Text
zone_text none = []
zone_text (some z) = Zone.isoformat z

unfoldable pub t2iso : Timedelta → Timespec → Option Timezone → Text
t2iso td timespec tz = fmt td (index timespec) ++ zone_text tz
