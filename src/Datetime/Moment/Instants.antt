-- ===== src/Datetime/Moment/Instants.antt =====
-- Moving a datetime by a duration. An instant is the number of
-- microseconds since the day before 0001-01-01.
use micropython_lib.Prelude.{
  ℕ, ◌*◌, ◌≤◌, ◌<◌, ◌≡◌, ◌↔◌, refl, sym, ap, ◌∙◌, arith, ok, Result-cases, raise-ne-ok, Error,
  raise, inl, inr, ◌>>=◌, Option,
}
use micropython_lib.Prelude.Int.{
  ℤ, pos, pos_part, ◌+ℤ◌, ◌-ℤ◌, neg_ℤ, int_laws, neg_ℤ_parts, parts_of_eq, eq_pos_of_nonneg, ◌≤ℤ◌,
  ◌<ℤ◌, div_ℤ, mod_ℤ, divmod_parts,
}
use micropython_lib.Datetime.Calendar.{date_ordinal, max_ordinal}
use micropython_lib.Datetime.Timedelta
use micropython_lib.Datetime.Timedelta.{Timedelta, of_us, timedelta, day_us}
use micropython_lib.Datetime.Timedelta.Fields.{us-in_us, divmod_unique}
use micropython_lib.Datetime.Zone.{Timezone}
use micropython_lib.Datetime.Clock.{time_delta}
use micropython_lib.Datetime.Moment.{Moment, datetime, at, add, sub_delta}

-- A date of the calendar and a time within the day.
pub record IsValid (a : Moment) : Type 0 where
  pub from_first : 1 ≤ a.d
  pub to_last : a.d ≤ max_ordinal
  pub not_before : pos 0 ≤ℤ a.t.us
  pub not_after : a.t.us <ℤ pos day_us

abbrev pub instant : Moment → ℤ
instant a = pos (a.d * day_us) +ℤ a.t.us

abbrev pub moment : ℕ → ℕ → Option Timezone → ℤ → Moment
moment d us tz fold = record { d = d; t = of_us (pos us); tz = tz; fold = fold }

time_delta-us :
    (us : ℕ)
    → us < day_us
    → time_delta (pos 0) (pos 0) (pos 0) (pos us) (pos 0) ≡ ok (of_us (pos us))
time_delta-us us h = accepted ∙ ap ok (us-in_us (pos us))
  where
    accepted :
        time_delta (pos 0) (pos 0) (pos 0) (pos us) (pos 0)
        ≡ ok (timedelta (pos 0) (pos 0) (pos us) (pos 0) (pos 0) (pos 0) (pos 0))
    accepted = unfold time_delta in ground arith

-- The only form of arguments that the arithmetic uses.
pub at-ok :
    (d us : ℕ) (tz : Option Timezone)
    → 1 ≤ d
    → d ≤ max_ordinal
    → us < day_us
    → at (pos d) (pos us) tz (pos 0) ≡ ok (moment d us tz (pos 0))
unfolding datetime
at-ok d us tz lo hi h = rw (ordinal_accepted, time_delta-us us h, ◌>>=◌)
  where
    ordinal_accepted : date_ordinal (pos 0) (pos 0) (pos d) ≡ ok d
    ordinal_accepted = unfold date_ordinal in ground arith

pub at-inv :
    (z : ℤ) (us : ℕ) (tz : Option Timezone) (b : Moment)
    → us < day_us
    → at z (pos us) tz (pos 0) ≡ ok b
    → (1 ≤ b.d) × (b.d ≤ max_ordinal) × (z ≡ pos b.d) × (b ≡ moment b.d us tz (pos 0))
at-inv z us tz b h e = elim (Result-cases (date_ordinal (pos 0) (pos 0) z)) [
  | inl (o, p) ↦ ground (arith, found o p, bare o p)
  | inr (x, p) ↦ absurd (failed x p)
]
  where
    bare :
        (o : ℕ) → date_ordinal (pos 0) (pos 0) z ≡ ok o → (z ≡ pos o) × (1 ≤ o) × (o ≤ max_ordinal)
    bare o p = unfold date_ordinal in ground arith

    found : (o : ℕ) → date_ordinal (pos 0) (pos 0) z ≡ ok o → ok (moment o us tz (pos 0)) ≡ ok b
    found o p = sym made ∙ e
      where
        made : at z (pos us) tz (pos 0) ≡ ok (moment o us tz (pos 0))
        made = unfold datetime in rw (p, time_delta-us us h, ◌>>=◌)

    failed : (x : Error) → date_ordinal (pos 0) (pos 0) z ≡ raise x → ⊥
    failed x p = raise-ne-ok (sym raised ∙ e)
      where
        raised : at z (pos us) tz (pos 0) ≡ raise x
        raised = unfold datetime in rw (p, ◌>>=◌)

time_of-IsValid : {b : Moment} → IsValid b → b.t.us ≡ pos (pos_part b.t.us)
time_of-IsValid {b} v = eq_pos_of_nonneg b.t.us v.not_before

pub moment-IsValid :
    (b : Moment)
    → IsValid b
    → (pos_part b.t.us < day_us) × (b ≡ moment b.d (pos_part b.t.us) b.tz b.fold)
moment-IsValid b v = (
  omega (arith, v, parts_of_eq _ _ (time_of-IsValid v)),
  ground (arith, ap of_us (time_of-IsValid v)),
)

-- The carry of `__add__`.
carry :
    (d e us : ℕ) (t td : ℤ)
    → div_ℤ (t +ℤ td) day_us +ℤ pos d ≡ pos e
    → mod_ℤ (t +ℤ td) day_us ≡ us
    → pos (e * day_us) +ℤ pos us ≡ pos (d * day_us) +ℤ t +ℤ td
carry d e us t td p q =
    omega (int_laws, parts_of_eq _ _ p, divmod_parts (t +ℤ td) day_us (omega arith))

uncarry :
    (d e us : ℕ) (t td : ℤ)
    → us < day_us
    → pos (e * day_us) +ℤ pos us ≡ pos (d * day_us) +ℤ t +ℤ td
    → (div_ℤ (t +ℤ td) day_us ≡ pos e -ℤ pos d) × (mod_ℤ (t +ℤ td) day_us ≡ us)
uncarry d e us t td h p =
    divmod_unique (t +ℤ td) (pos e -ℤ pos d) day_us us (omega arith)
      (omega (int_laws, parts_of_eq _ _ p)) h

add_sound :
    (a : Moment) (td : Timedelta) (b : Moment)
    → add a td ≡ ok b
    → IsValid b × (instant b ≡ instant a +ℤ td.us) × (b.tz ≡ a.tz) × (b.fold ≡ pos 0)
unfolding add
add_sound a td b e = rw shape (
  record {
    from_first = inv.0;
    to_last = inv.1;
    not_before = omega arith;
    not_after = omega (arith, in_day);
  },
  carry a.d b.d _ a.t.us td.us inv.2 refl,
  refl,
  refl,
)
  where
    in_day : mod_ℤ (a.t.us +ℤ td.us) day_us < day_us
    in_day = (divmod_parts (a.t.us +ℤ td.us) day_us (omega arith)).1

    inv :
        (1 ≤ b.d)
        × (b.d ≤ max_ordinal)
        × (div_ℤ (a.t.us +ℤ td.us) day_us +ℤ pos a.d ≡ pos b.d)
        × (b ≡ moment b.d (mod_ℤ (a.t.us +ℤ td.us) day_us) a.tz (pos 0))
    inv = at-inv _ _ a.tz b in_day e

    shape : b ≡ moment b.d (mod_ℤ (a.t.us +ℤ td.us) day_us) a.tz (pos 0)
    shape = inv.3

pub add_complete :
    (a : Moment) (td : Timedelta) (b : Moment)
    → IsValid b
    → instant b ≡ instant a +ℤ td.us
    → b.tz ≡ a.tz
    → b.fold ≡ pos 0
    → add a td ≡ ok b
unfolding add
add_complete a td b v i z f =
    rw (split.0, split.1, reach)
      (at-ok b.d (pos_part b.t.us) a.tz v.from_first v.to_last in_day ∙ ap ok (sym shape))
  where
    in_day : pos_part b.t.us < day_us
    in_day = omega (arith, v, parts_of_eq _ _ (time_of-IsValid v))

    shape : b ≡ moment b.d (pos_part b.t.us) a.tz (pos 0)
    shape = ground (arith, ap of_us (time_of-IsValid v), z, f)

    split :
        (div_ℤ (a.t.us +ℤ td.us) day_us ≡ pos b.d -ℤ pos a.d)
        × (mod_ℤ (a.t.us +ℤ td.us) day_us ≡ pos_part b.t.us)
    split =
        uncarry a.d b.d (pos_part b.t.us) a.t.us td.us in_day
          (ap (λ t. pos (b.d * day_us) +ℤ t) (sym (time_of-IsValid v)) ∙ i)

    reach : pos b.d -ℤ pos a.d +ℤ pos a.d ≡ pos b.d
    reach = omega int_laws

-- Adding a duration to a datetime gives `b` exactly where `b` is valid, its instant is the sum, its
-- time zone is the same and its `fold` is 0.
pub add-instant_iff :
    (a : Moment) (td : Timedelta) (b : Moment)
    → (add a td ≡ ok b)
      ↔ (IsValid b × (instant b ≡ instant a +ℤ td.us) × (b.tz ≡ a.tz) × (b.fold ≡ pos 0))
add-instant_iff a td b = (add_sound a td b, λ (v, i, z, f). add_complete a td b v i z f)

pub us-neg : (td : Timedelta) → (Timedelta.neg td).us ≡ neg_ℤ td.us
unfolding Timedelta.neg
us-neg td = ap (λ (t : Timedelta). t.us) (us-in_us (neg_ℤ td.us))

back : (x y z : ℤ) → y ≡ x +ℤ z → x ≡ y +ℤ neg_ℤ z
back x y z e = rw e (undo x z)
  where
    undo : (x z : ℤ) → x ≡ x +ℤ z +ℤ neg_ℤ z
    undo x z = omega (int_laws, neg_ℤ_parts z)

-- Where adding a duration to a valid datetime with `fold` 0 succeeds, subtracting the duration again
-- gives the datetime back.
pub sub_delta-add :
    (a b : Moment) (td : Timedelta)
    → IsValid a
    → a.fold ≡ pos 0
    → add a td ≡ ok b
    → sub_delta b td ≡ ok a
unfolding sub_delta
sub_delta-add a b td v f e =
    let (_, i, z, _) = add_sound a td b e in
    add_complete b (Timedelta.neg td) a v (rw us-neg (back _ _ _ i)) (sym z) f
