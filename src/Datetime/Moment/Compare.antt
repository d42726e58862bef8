-- ===== src/Datetime/Moment/Compare.antt =====
-- Comparison of datetimes, in one time zone and across two.
use micropython_lib.Prelude.{
  ℕ, suc, ◌+◌, ◌*◌, ◌<◌, ◌≡◌, ◌↔◌, refl, sym, ap, ◌∙◌, arith, ok, inl, inr, zero, ltb, false, ◌>>=◌,
  some, true, false, Bool-cases,
}
use mathlib.Core.Path.{subst, ap₂}
use micropython_lib.Prelude.Int.{
  ℤ, pos, negsuc, pos_part, neg_part, ◌+ℤ◌, ◌-ℤ◌, neg_ℤ, neg_ℤ_parts, int_laws, eq_of_parts,
  parts_of_eq, ◌<ℤ◌, divmod_parts,
}
use micropython_lib.Datetime.Timedelta
use micropython_lib.Datetime.Timedelta.{Timedelta, of_us, day_us}
use micropython_lib.Datetime.Zone.{Timezone}
use micropython_lib.Datetime.Moment.{
  Moment, sub_delta, difference, sub_parts, sub_zones, cmp, sign_of,
}
use micropython_lib.Datetime.Moment.Instants.{instant, add-instant_iff, us-neg}
use micropython_lib.Datetime.Moment.Distance.{Aligned, same_offset, sub_parts-Aligned}

-- The three answers of a comparison, and the order of the two numbers that each stands for.
pub record Compares (x y c : ℤ) : Type 0 where
  pub less : (c ≡ negsuc 0) ↔ (x <ℤ y)
  pub same : (c ≡ pos 0) ↔ (x ≡ y)
  pub more : (c ≡ pos 1) ↔ (y <ℤ x)

-- `d` days and `us` microseconds from `y` to `x`.
abbrev Apart : ℤ → ℕ → ℤ → ℤ → Type 0
Apart d us x y =
    pos_part x + neg_part y + day_us * neg_part d
    ≡ pos_part y + neg_part x + day_us * pos_part d + us

data Answer (x y : ℤ) : ℤ → Type 0 where
  lower : x <ℤ y → Answer x y (negsuc 0)
  level : x ≡ y → Answer x y (pos 0)
  higher : y <ℤ x → Answer x y (pos 1)

sign_of-Answer :
    (d : ℤ) (us : ℕ) (x y : ℤ) → us < day_us → Apart d us x y → Answer x y (sign_of (d, us))
unfolding sign_of
sign_of-Answer (pos zero) zero x y h e = level (eq_of_parts x y (omega arith))
sign_of-Answer (pos zero) (suc us) x y h e =
    let p : ltb 0 (suc us) ≡ true = ground arith in rw p (higher (omega arith))
sign_of-Answer (pos (suc d)) us x y h e =
    let v : sign_of (pos (suc d), us) ≡ pos 1 = ground arith in
    subst (λ c. Answer x y c) (sym v) (higher (omega arith))
sign_of-Answer (negsuc d) us x y h e =
    let v : sign_of (negsuc d, us) ≡ negsuc 0 = ground arith in
    subst (λ c. Answer x y c) (sym v) (lower (omega arith))

Answer-Compares : (x y c : ℤ) → Answer x y c → Compares x y c
Answer-Compares x y _ (lower p) = record {
  less = (λ _. p, λ _. refl);
  same = (λ e. cc, λ e. absurd (omega (arith, parts_of_eq x y e)));
  more = (λ e. cc, λ q. absurd (omega arith));
}
Answer-Compares x y _ (level p) = record {
  less = (λ e. cc, λ q. absurd (omega (arith, parts_of_eq x y p)));
  same = (λ _. p, λ _. refl);
  more = (λ e. cc, λ q. absurd (omega (arith, parts_of_eq x y p)));
}
Answer-Compares x y _ (higher p) = record {
  less = (λ e. cc, λ q. absurd (omega arith));
  same = (λ e. cc, λ e. absurd (omega (arith, parts_of_eq x y e)));
  more = (λ _. p, λ _. refl);
}

difference-Apart :
    (a b : Moment)
    → let (d, us) = difference a b in (us < day_us) × Apart d us (instant a) (instant b)
unfolding difference
difference-Apart a b = omega (int_laws, divmod_parts (a.t.us -ℤ b.t.us) day_us (omega arith))

-- Of datetimes without time zones, or with equal offsets, `_cmp` returns a number whose sign is the
-- order of the instants.
pub cmp-Aligned :
    (a b : Moment)
    → Aligned a.tz b.tz
    → (c : ℤ) × (cmp a b ≡ ok c) × Compares (instant a) (instant b) c
cmp-Aligned a b h = (
  sign_of (difference a b),
  unfold cmp in rw (sub_parts-Aligned a b h, ◌>>=◌),
  Answer-Compares _ _ _ (
      sign_of-Answer _ _ (instant a) (instant b) (difference-Apart a b).0 (difference-Apart a b).1),
)

Compares-sub : (x y k c : ℤ) → Compares x y c → Compares (x -ℤ k) (y -ℤ k) c
Compares-sub x y k c h = record {
  less = (λ e. omega (int_laws, h.less.0 e), λ p. h.less.1 (omega int_laws));
  same = (
    λ e. ap (λ z. z -ℤ k) (h.same.0 e),
    λ e. h.same.1 (eq_of_parts x y (omega (int_laws, parts_of_eq _ _ e))),
  );
  more = (λ e. omega (int_laws, h.more.0 e), λ p. h.more.1 (omega int_laws));
}

minus : (x o i : ℤ) → i ≡ x +ℤ neg_ℤ o → x -ℤ o ≡ i
minus x o i h = rw h (omega (int_laws, neg_ℤ_parts o))

moved : (a b : Moment) (off : Timedelta) → sub_delta a off ≡ ok b → instant a -ℤ off.us ≡ instant b
unfolding sub_delta
moved a b off e =
    minus _ off.us _
      (((add-instant_iff a (Timedelta.neg off) b).0 e).1 ∙ ap (λ z. instant a +ℤ z) (us-neg off))

sub_zones_across :
    (a b a' b' : Moment) (y z : Timezone)
    → sub_delta a y.offset ≡ ok a'
    → sub_delta b z.offset ≡ ok b'
    → Timedelta.eq y.offset z.offset ≡ false
    → sub_zones (some y) (some z) a b ≡ ok (difference a' b')
unfolding sub_zones
sub_zones_across a b a' b' y z sa sb e = rw (e, sa, sb, ◌>>=◌)

-- Of datetimes with time zones, both of which can be moved to UTC, `_cmp` returns a number whose sign
-- is the order of the instants with the offsets taken off.
pub cmp_across :
    (a b a' b' : Moment) (y z : Timezone)
    → a.tz ≡ some y
    → b.tz ≡ some z
    → sub_delta a y.offset ≡ ok a'
    → sub_delta b z.offset ≡ ok b'
    → (c : ℤ) × (cmp a b ≡ ok c) × Compares (instant a -ℤ y.offset.us) (instant b -ℤ z.offset.us) c
cmp_across a b a' b' y z ea eb sa sb = elim (Bool-cases (Timedelta.eq y.offset z.offset)) [
  | inl same ↦
      let (c, r, k) = cmp-Aligned a b (rw (ea, eb) (same_offset y z (offsets_eq same))) in
      (c, r, rw (offsets_eq same) (Compares-sub _ _ z.offset.us c k))
  | inr different ↦ (
    sign_of (difference a' b'),
    unfold cmp in rw (both different, ◌>>=◌),
    rw (moved a a' y.offset sa, moved b b' z.offset sb)
        (Answer-Compares _ _ _ (
          sign_of-Answer _ _ (instant a') (instant b') (difference-Apart a' b').0
            (difference-Apart a' b').1)),
  )
]
  where
    offsets_eq : Timedelta.eq y.offset z.offset ≡ true → y.offset ≡ z.offset
    offsets_eq e = ap of_us (unfold Timedelta.eq in ground arith)

    both : Timedelta.eq y.offset z.offset ≡ false → sub_parts a b ≡ ok (difference a' b')
    both e =
        unfold sub_parts in
        ap₂ (λ s t. sub_zones s t a b) ea eb ∙ sub_zones_across a b a' b' y z sa sb e
