-- ===== src/Datetime/Moment/Distance.antt =====
-- The duration between two datetimes, `-` of the class `datetime`.
use micropython_lib.Prelude.{
  ℕ, ◌≡◌, refl, sym, ap, ◌∙◌, arith, ok, ◌>>=◌, ok-injective, Option, none, some,
}
use micropython_lib.Prelude.Int.{ℤ, pos, ◌-ℤ◌, int_laws, divmod_parts}
use micropython_lib.Datetime.Timedelta
use micropython_lib.Datetime.Timedelta.{Timedelta, of_us, timedelta, day_us}
use micropython_lib.Datetime.Zone.{Timezone}
use micropython_lib.Datetime.Moment.{Moment, add, difference, sub_parts, sub_zones, sub}
use micropython_lib.Datetime.Moment.Instants.{IsValid, instant, add_complete}

us-difference :
    (a b : Moment)
    → let (d, us) = difference a b in
      (timedelta d (pos 0) (pos us) (pos 0) (pos 0) (pos 0) (pos 0)).us ≡ instant a -ℤ instant b
unfolding difference timedelta
us-difference a b = omega (int_laws, divmod_parts (a.t.us -ℤ b.t.us) day_us (omega arith))

-- `a - b` is the distance of the two instants, where neither has a time zone or the offsets agree.
pub data Aligned : Option Timezone → Option Timezone → Type 0 where
  both_naive : Aligned none none
  same_offset : (y z : Timezone) → y.offset ≡ z.offset → Aligned (some y) (some z)

sub_zones-Aligned :
    (y z : Option Timezone) → Aligned y z → (a b : Moment) → sub_zones y z a b ≡ ok (difference a b)
unfolding sub_zones Timedelta.eq
sub_zones-Aligned _ _ both_naive a b = refl
sub_zones-Aligned _ _ (same_offset y z e) a b = rw e (ground arith)

pub sub_parts-Aligned : (a b : Moment) → Aligned a.tz b.tz → sub_parts a b ≡ ok (difference a b)
unfolding sub_parts
sub_parts-Aligned a b h = sub_zones-Aligned a.tz b.tz h a b

abbrev duration : ℤ × ℕ → Timedelta
duration (d, us) = timedelta d (pos 0) (pos us) (pos 0) (pos 0) (pos 0) (pos 0)

pub sub-Aligned : (a b : Moment) → Aligned a.tz b.tz → sub a b ≡ ok (of_us (instant a -ℤ instant b))
sub-Aligned a b h = value ∙ ap (λ z. ok (of_us z)) (us-difference a b)
  where
    value : sub a b ≡ ok (duration (difference a b))
    value = unfold sub in rw (sub_parts-Aligned a b h, ◌>>=◌)

equal-Aligned : (y z : Option Timezone) → y ≡ z → Aligned y z
equal-Aligned none none e = both_naive
equal-Aligned none (some z) e = absurd (none-ne-some e)
  where
    none-ne-some : {A : Type 0} {z : A} → none ≡ some z → ⊥
    none-ne-some q = cc
equal-Aligned (some y) none e = absurd (some-ne-none e)
  where
    some-ne-none : {A : Type 0} {z : A} → some z ≡ none → ⊥
    some-ne-none q = cc
equal-Aligned (some y) (some z) e = same_offset y z (cc)

-- Where the distance from a datetime to a valid one with the same time zone and `fold` 0 is computed,
-- adding it to the first reaches the second.
pub add-sub :
    (a b : Moment) (td : Timedelta)
    → IsValid b
    → b.fold ≡ pos 0
    → b.tz ≡ a.tz
    → sub b a ≡ ok td
    → add a td ≡ ok b
add-sub a b td v f z e = add_complete a td b v (rw (← distance) (omega int_laws)) z f
  where
    distance : instant b -ℤ instant a ≡ td.us
    distance =
        ap (λ (t : Timedelta). t.us)
          (ok-injective (sym (sub-Aligned b a (equal-Aligned b.tz a.tz z)) ∙ e))
