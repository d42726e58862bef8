-- ===== src/Datetime/Timedelta/Fields.antt =====
-- The fields of a `timedelta` and the arithmetic on it.
use micropython_lib.Prelude.{ℕ, zero, suc, ◌+◌, ◌*◌, ◌<◌, ◌≡◌, ◌≢◌, refl, sym, ap, ◌∙◌, arith, ok}
use micropython_lib.Prelude.Int.{
  ℤ, pos, negsuc, pos_part, neg_part, ◌+ℤ◌, ◌*ℤ◌, neg_ℤ, div_ℤ, mod_ℤ, divmod_parts, int_laws,
  neg_ℤ_parts, eq_of_parts, ◌≤ℤ◌, ◌<ℤ◌,
}
use micropython_lib.Datetime.Timedelta.{
  Timedelta, of_us, day_us, timedelta, in_us, Parts, tuple, days, seconds, microseconds, add, mul,
  floor_div, floor_mod, floordiv, modulo, divmod,
}

pub us-in_us : (z : ℤ) → in_us z ≡ of_us z
unfolding timedelta
us-in_us z = ap of_us (omega int_laws)

-- Python's normal form of a duration: every part but the days has its usual range.
pub record IsNormal (p : Parts) : Type 0 where
  pub hours_in : p.hours < 24
  pub minutes_in : p.minutes < 60
  pub seconds_in : p.seconds < 60
  pub microseconds_in : p.microseconds < 1000000

pub tuple-IsNormal : (td : Timedelta) → IsNormal (tuple td)
unfolding tuple
tuple-IsNormal td = omega (arith, divmod_parts td.us day_us (omega arith))

-- The duration that the parts stand for, built by the constructor.
abbrev pub of_parts : Parts → Timedelta
of_parts p =
    timedelta p.days (pos p.seconds) (pos p.microseconds) (pos 0) (pos p.minutes) (pos p.hours)
      (pos 0)

pub of_parts-tuple : (td : Timedelta) → of_parts (tuple td) ≡ td
unfolding timedelta tuple
of_parts-tuple td = ap of_us (omega (int_laws, divmod_parts td.us day_us (omega arith)))

-- A duration is built again from its `days`, `seconds` and `microseconds`, and these are normal:
-- `seconds` below 86400 and `microseconds` below 1000000.
pub timedelta-properties :
    (td : Timedelta)
    → (timedelta
          (days td)
          (pos (seconds td))
          (pos (microseconds td))
          (pos 0)
          (pos 0)
          (pos 0)
          (pos 0)
        ≡ td)
      × (seconds td < 86400)
      × (microseconds td < 1000000)
unfolding timedelta days seconds microseconds
timedelta-properties td = (
  ap of_us (omega (int_laws, divmod_parts td.us day_us (omega arith))),
  omega (arith, divmod_parts td.us day_us (omega arith)),
  omega (arith, divmod_parts td.us day_us (omega arith)),
)

euclid : (d u v r s : ℕ) → d * u + r ≡ d * v + s → r < d → s < d → u ≡ v
euclid d u v r s e hr hs = grind arith

-- A quotient with a remainder in range is the one that is found.
pub divmod_unique :
    (z q : ℤ) (d r : ℕ)
    → 0 < d
    → pos_part z + d * neg_part q ≡ neg_part z + d * pos_part q + r
    → r < d
    → (div_ℤ z d ≡ q) × (mod_ℤ z d ≡ r)
divmod_unique z q d r h e lt = (
  eq_of_parts (div_ℤ z d) q (omega (arith, euclid d _ _ r (mod_ℤ z d) both lt found.1)),
  omega (arith, both, ap (λ (t : ℕ). d * t) (euclid d _ _ r (mod_ℤ z d) both lt found.1)),
)
  where
    found :
        (pos_part z + d * neg_part (div_ℤ z d) ≡ neg_part z + d * pos_part (div_ℤ z d) + mod_ℤ z d)
        × (mod_ℤ z d < d)
    found = divmod_parts z d h

    both :
        d * (neg_part (div_ℤ z d) + pos_part q) + r
        ≡ d * (pos_part (div_ℤ z d) + neg_part q) + mod_ℤ z d
    both = omega (arith, e, found)

-- The parts of a duration that is built from parts in their ranges are those parts.
pub tuple-of_parts : (p : Parts) → IsNormal p → tuple (of_parts p) ≡ p
unfolding tuple
tuple-of_parts p n = ground (arith, split)
  where
    clock : ℕ
    clock = ((p.hours * 60 + p.minutes) * 60 + p.seconds) * 1000000 + p.microseconds

    split : (div_ℤ (of_parts p).us day_us ≡ p.days) × (mod_ℤ (of_parts p).us day_us ≡ clock)
    split =
        unfold timedelta in
        divmod_unique _ p.days day_us clock (omega arith) (omega int_laws) (omega arith)

-- `__divmod__` of a duration by one that is not zero: quotient and remainder make up the first, the
-- remainder is smaller than the second and has its sign, and `//` and `%` give the two alone.
pub record Divides (a b : Timedelta) (q : ℤ) (r : Timedelta) : Type 0 where
  pub returns : divmod a b ≡ ok (q, r)
  pub quotient : floordiv a b ≡ ok q
  pub remainder : modulo a b ≡ ok r
  pub sum_is : add (mul b q) r ≡ a
  pub above : pos 0 <ℤ b.us → (pos 0 ≤ℤ r.us) × (r.us <ℤ b.us)
  pub below : b.us <ℤ pos 0 → (r.us ≤ℤ pos 0) × (b.us <ℤ r.us)

abbrev pub quotient_of : ℤ → ℤ → ℤ
quotient_of a (pos n) = div_ℤ a n
quotient_of a (negsuc n) = div_ℤ (neg_ℤ a) (suc n)

abbrev pub remainder_of : ℤ → ℤ → ℤ
remainder_of a (pos n) = pos (mod_ℤ a n)
remainder_of a (negsuc n) = neg_ℤ (pos (mod_ℤ (neg_ℤ a) (suc n)))

sum_lem : (a b q r : ℤ) → a ≡ q *ℤ b +ℤ r → add (mul (of_us b) q) (of_us r) ≡ of_us a
unfolding add mul
sum_lem a b q r e =
    us-in_us _
    ∙ ap (λ z. of_us (z +ℤ r)) (ap (λ (t : Timedelta). t.us) (us-in_us (q *ℤ b)))
    ∙ ap of_us (sym e)

floor_div-eq-ok : (a b : ℤ) → b ≢ pos 0 → floor_div a b ≡ ok (quotient_of a b)
unfolding floor_div
floor_div-eq-ok a (pos zero) h = absurd (h refl)
floor_div-eq-ok a (pos (suc n)) h = ground arith
floor_div-eq-ok a (negsuc n) h = refl

floor_mod-eq-ok : (a b : ℤ) → b ≢ pos 0 → floor_mod a b ≡ ok (remainder_of a b)
unfolding floor_mod
floor_mod-eq-ok a (pos zero) h = absurd (h refl)
floor_mod-eq-ok a (pos (suc n)) h = ground arith
floor_mod-eq-ok a (negsuc n) h = refl

record Quotient (a b q r : ℤ) : Type 0 where
  sum : a ≡ q *ℤ b +ℤ r
  above : pos 0 <ℤ b → (pos 0 ≤ℤ r) × (r <ℤ b)
  below : b <ℤ pos 0 → (r ≤ℤ pos 0) × (b <ℤ r)

-- -a = (n + 1) * q + r, read as a = q * -(n + 1) + -r.
negated_sum :
    (a c q m : ℤ) (n r : ℕ)
    → pos_part c + suc n * neg_part q ≡ neg_part c + suc n * pos_part q + r
    → pos_part a + pos_part c ≡ neg_part a + neg_part c
    → pos_part m + r ≡ neg_part m
    → a ≡ q *ℤ negsuc n +ℤ m
negated_sum a c q m n r e f g = omega int_laws

negated_bounds : (r n : ℕ) → r < suc n → (neg_ℤ (pos r) ≤ℤ pos 0) × (negsuc n <ℤ neg_ℤ (pos r))
negated_bounds r n h = ground arith

quotient_lem : (a b : ℤ) → b ≢ pos 0 → Quotient a b (quotient_of a b) (remainder_of a b)
quotient_lem a (pos zero) h = absurd (h refl)
quotient_lem a (pos (suc n)) h = record {
  sum = omega (int_laws, divmod_parts a (suc n) (omega arith));
  above = λ p. omega (arith, divmod_parts a (suc n) (omega arith));
  below = λ p. absurd (omega arith);
}
quotient_lem a (negsuc n) h = record {
  sum =
      negated_sum a (neg_ℤ a) _ _ n _ (divmod_parts (neg_ℤ a) (suc n) (omega arith)).0
        (neg_ℤ_parts a) (ground arith);
  above = λ p. absurd (omega arith);
  below = λ p. negated_bounds _ n (divmod_parts (neg_ℤ a) (suc n) (omega arith)).1;
}

-- For a divisor other than zero, `divmod` returns the quotient and the remainder that `//` and `%`
-- return, quotient times divisor plus remainder is the dividend, and the remainder lies between zero
-- and the divisor, on its side.
pub divmod-Divides :
    (a b : Timedelta)
    → b.us ≢ pos 0
    → Divides a b (quotient_of a.us b.us) (of_us (remainder_of a.us b.us))
unfolding divmod floordiv modulo
divmod-Divides a b h = record {
  returns = rw (floor_div-eq-ok a.us b.us h, floor_mod-eq-ok a.us b.us h, us-in_us, divmod);
  quotient = floor_div-eq-ok a.us b.us h;
  remainder = rw (floor_mod-eq-ok a.us b.us h, us-in_us, modulo);
  sum_is = sum_lem a.us b.us _ _ (quotient_lem a.us b.us h).sum;
  above = (quotient_lem a.us b.us h).above;
  below = (quotient_lem a.us b.us h).below;
}
