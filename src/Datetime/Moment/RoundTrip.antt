-- ===== src/Datetime/Moment/RoundTrip.antt =====
-- A datetime taken apart and put together again: `combine`, `replace`, the text and `astimezone`.
use micropython_lib.Prelude.{
  ℕ, ◌/◌, ◌%◌, ◌≤◌, ◌<◌, ◌≡◌, ◌++◌, [], ◌∷◌, refl, sym, ap, ◌∙◌, arith, inl, Option, none, some, ok,
  Result, ok-injective, ◌>>=◌, >>=-eq-ok, length, drop, leb, false,
}
use micropython_lib.Prelude.Int.{ℤ, pos, pos_part, ◌+ℤ◌, ◌-ℤ◌, neg_ℤ, neg_ℤ_parts, int_laws}
use micropython_lib.Prelude.Text.{Text}
use micropython_lib.Datetime.Calendar.{o2ymd, max_ordinal}
use micropython_lib.Datetime.Calendar.Inverse.{date_ordinal-o2ymd}
use micropython_lib.Datetime.Timedelta
use micropython_lib.Datetime.Timedelta.{Timedelta, of_us, day_us, tuple}
use micropython_lib.Datetime.Zone.{Timezone}
use micropython_lib.Datetime.Iso.{iso2t, d2iso, t2iso, auto}
use micropython_lib.Datetime.Iso.Written.{tuple-within, d2iso_lem, fmt-time_text}
use micropython_lib.Datetime.Iso.RoundTrip.{
  Whole, unnamed, iso2t-t2iso, iso2t-t2iso_naive, read_time,
}
use micropython_lib.Datetime.Iso.Read.{iso2d-d2iso}
use micropython_lib.Datetime.Clock.Laws.{IsFold, time_delta-tuple}
use micropython_lib.Datetime.Moment.{
  Moment, datetime, replace, no_changes, fromisoformat, isoformat, astimezone, sub_delta, fromutc,
}
use micropython_lib.Datetime.Moment.Instants.{
  IsValid, instant, moment, moment-IsValid, us-neg, add-instant_iff,
}

-- The parts of a datetime make it again.
datetime-parts :
    (d n : ℕ) (tz : Option Timezone) (f : ℤ)
    → 1 ≤ d
    → d ≤ max_ordinal
    → n < day_us
    → IsFold f
    → let (y, m, k) = o2ymd d in
      let s = n / 1000000 in
      datetime
        (pos y)
        (pos m)
        (pos k)
        (pos (s / 3600))
        (pos (s % 3600 / 60))
        (pos (s % 3600 % 60))
        (pos (n % 1000000))
        tz
        f
      ≡ ok (moment d n tz f)
unfolding datetime
datetime-parts d n tz f lo hi h k = rw (date_ordinal-o2ymd d lo hi, time_delta-tuple n f h k, ◌>>=◌)

replace-tz :
    (d n : ℕ) (tz new : Option Timezone) (f : ℤ)
    → 1 ≤ d
    → d ≤ max_ordinal
    → n < day_us
    → IsFold f
    → replace (moment d n tz f) (record no_changes { tz = some new }) ≡ ok (moment d n new f)
unfolding replace
replace-tz d n tz new f lo hi h k =
    ap
      (λ p.
        let (y, m, j) = o2ymd d in
        datetime (pos y) (pos m) (pos j) (pos p.hours) (pos p.minutes) (pos p.seconds)
          (pos p.microseconds) new f)
      (tuple-within n h)
    ∙ datetime-parts d n new f lo hi h k

-- `replace` with no new value gives a datetime back whose date, time of day and `fold` are in range.
pub replace-no_changes :
    (d n : ℕ) (tz : Option Timezone) (f : ℤ)
    → 1 ≤ d
    → d ≤ max_ordinal
    → n < day_us
    → IsFold f
    → replace (moment d n tz f) no_changes ≡ ok (moment d n tz f)
unfolding replace
replace-no_changes d n tz f lo hi h k =
    ap
      (λ p.
        let (y, m, j) = o2ymd d in
        datetime (pos y) (pos m) (pos j) (pos p.hours) (pos p.minutes) (pos p.seconds)
          (pos p.microseconds) tz f)
      (tuple-within n h)
    ∙ datetime-parts d n tz f lo hi h k

module _ (d n sep : ℕ) (lo : 1 ≤ d) (hi : d ≤ max_ordinal) (h : n < day_us) where
  read :
      (rest : Text) (tz : Option Timezone)
      → 2 ≤ length rest
      → iso2t rest ≡ ok (read_time n tz)
      → fromisoformat (d2iso d ++ (sep ∷ rest)) ≡ ok (moment d n tz (pos 0))
  unfolding fromisoformat
  read rest tz l e =
      rw (iso2d-d2iso d (sep ∷ rest) lo hi, long, behind, e, ◌>>=◌)
        (datetime-parts d n tz (pos 0) lo hi h (inl refl))
    where
      long : leb (length (d2iso d ++ (sep ∷ rest))) 12 ≡ false
      long = rw (d2iso_lem d lo hi) (ground arith)

      behind : drop 11 (d2iso d ++ (sep ∷ rest)) ≡ rest
      behind = rw (d2iso_lem d lo hi)

  long_enough : (z : Option Timezone) → 2 ≤ length (t2iso (of_us (pos n)) auto z)
  unfolding t2iso
  long_enough z = rw (fmt-time_text n h) (omega arith)

  -- The ISO text of a datetime without a time zone, with any one character as separator, reads back as
  -- the datetime, where its date and time of day are in range.
  pub fromisoformat-isoformat :
      fromisoformat (isoformat (moment d n none (pos 0)) (sep ∷ []) auto)
      ≡ ok (moment d n none (pos 0))
  unfolding isoformat
  fromisoformat-isoformat = read _ none (long_enough none) (iso2t-t2iso_naive n h)

  -- The ISO text of a datetime with an offset of whole seconds reads back as the datetime with that
  -- offset in a time zone without a name, where its date and time of day are in range.
  pub fromisoformat-isoformat_zone :
      (z : Timezone)
      → Whole z.offset
      → fromisoformat (isoformat (moment d n (some z) (pos 0)) (sep ∷ []) auto)
        ≡ ok (moment d n (some (unnamed z.offset)) (pos 0))
  unfolding isoformat
  fromisoformat-isoformat_zone z w =
      read _ (some (unnamed z.offset)) (long_enough (some z)) (iso2t-t2iso n z h w)

abbrev to_zone : Timezone → Moment → Result Moment
to_zone z a = replace a (record no_changes { tz = some (some z) })

moved-to_zone :
    (utc moved : Moment) (z : Timezone)
    → IsValid utc
    → utc.fold ≡ pos 0
    → to_zone z utc ≡ ok moved
    → (moved.tz ≡ some z) × (instant moved ≡ instant utc)
moved-to_zone utc moved z v f r = (ap (λ (m : Moment). m.tz) shape, ap instant shape ∙ kept)
  where
    n : ℕ
    n = pos_part utc.t.us

    whole : (n < day_us) × (utc ≡ moment utc.d n utc.tz utc.fold)
    whole = moment-IsValid utc v

    shape : moved ≡ moment utc.d n (some z) utc.fold
    shape = ok-injective (
        sym r
        ∙ ap (to_zone z) whole.1
        ∙ replace-tz utc.d n utc.tz (some z) utc.fold v.from_first v.to_last whole.0 (inl f))

    kept : instant (moment utc.d n (some z) utc.fold) ≡ instant utc
    kept = ap instant (sym whole.1)

offsets : (b m u a p q : ℤ) → b ≡ m +ℤ q → m ≡ u → u ≡ a +ℤ neg_ℤ p → b -ℤ q ≡ a -ℤ p
offsets b m u a p q e f g = rw (e, f, g) (omega (int_laws, neg_ℤ_parts p))

-- Where `astimezone` moves a datetime with a time zone to another one, the result has the new time
-- zone, and the same instant once the offsets are taken off.
pub instant-astimezone :
    (a b : Moment) (y z : Timezone)
    → astimezone false a y z ≡ ok b
    → (b.tz ≡ some z) × (instant b -ℤ z.offset.us ≡ instant a -ℤ y.offset.us)
unfolding astimezone fromutc
instant-astimezone a b y z e =
    let (utc, s, rest) = >>=-eq-ok (sub_delta a y.offset) (λ utc. to_zone z utc >>= fromutc z) e in
    let (moved, r, last) = >>=-eq-ok (to_zone z utc) (fromutc z) rest in
    let (v, i, _, f) = (add-instant_iff a (Timedelta.neg y.offset) utc).0 (unfold sub_delta in s) in
    let (t, k) = moved-to_zone utc moved z v f r in
    let (_, j, t', _) = (add-instant_iff moved z.offset b).0 last in
    (t' ∙ t, offsets _ _ _ _ _ _ j k (i ∙ ap (λ w. instant a +ℤ w) (us-neg y.offset)))
