-- ===== src/Datetime/Timedelta.antt =====
-- The class `timedelta` of python-stdlib/datetime/datetime.py, with whole numbers as arguments. A
-- float argument, `total_seconds` and the true division give floats and are not modelled.
pub mod Format
pub mod Fields
use micropython_lib.Prelude.{
  ℕ, ◌+◌, ◌-◌, ◌*◌, ◌/◌, ◌%◌, ◌++◌, Bool, not, ◌&&◌, ◌||◌, ltb, leb, ◌==◌, if◌then◌else◌, List, [],
  ◌∷◌, Result, ok, raise, zero_division_error, bit_and, bit_or, suc,
}
use micropython_lib.Prelude.Int.{
  ℤ, pos, negsuc, pos_part, neg_part, ◌+ℤ◌, ◌-ℤ◌, ◌*ℤ◌, neg_ℤ, div_ℤ, mod_ℤ, ltb_ℤ, leb_ℤ, eqb_ℤ,
}
use micropython_lib.Prelude.Text.{Text, codes, str, zero_pad}

pub record Timedelta : Type 0 where
  pub us : ℤ

abbrev pub day_us : ℕ
day_us = 86400000000

abbrev pub of_us : ℤ → Timedelta
of_us z = record { us = z }

-- `timedelta(days, seconds, microseconds, milliseconds, minutes, hours, weeks)`; `round` of a whole
-- number is that number.
unfoldable pub timedelta : ℤ → ℤ → ℤ → ℤ → ℤ → ℤ → ℤ → Timedelta
timedelta days seconds microseconds milliseconds minutes hours weeks =
    let s =
      (((weeks *ℤ pos 7 +ℤ days) *ℤ pos 24 +ℤ hours) *ℤ pos 60 +ℤ minutes) *ℤ pos 60 +ℤ seconds in
    of_us ((s *ℤ pos 1000 +ℤ milliseconds) *ℤ pos 1000 +ℤ microseconds)

-- `timedelta(0, 0, us)`
abbrev pub in_us : ℤ → Timedelta
in_us z = timedelta (pos 0) (pos 0) z (pos 0) (pos 0) (pos 0) (pos 0)

-- The tuple of `_tuple(5)`: days, hours, minutes, seconds, microseconds.
pub record Parts : Type 0 where
  pub days : ℤ
  pub hours : ℕ
  pub minutes : ℕ
  pub seconds : ℕ
  pub microseconds : ℕ

-- `_tuple(n)` for the three values of `n` that are used.
unfoldable pub days : Timedelta → ℤ
days td = div_ℤ td.us day_us

unfoldable pub tuple_dsu : Timedelta → ℤ × ℕ × ℕ
tuple_dsu td = let r = mod_ℤ td.us day_us in (div_ℤ td.us day_us, r / 1000000, r % 1000000)

unfoldable pub tuple : Timedelta → Parts
tuple td =
    let r = mod_ℤ td.us day_us in
    let s = r / 1000000 in
    record {
      days = div_ℤ td.us day_us;
      hours = s / 3600;
      minutes = s % 3600 / 60;
      seconds = s % 3600 % 60;
      microseconds = r % 1000000;
    }

unfoldable pub seconds : Timedelta → ℕ
unfolding tuple_dsu
seconds td = (tuple_dsu td).1

unfoldable pub microseconds : Timedelta → ℕ
unfolding tuple_dsu
microseconds td = (tuple_dsu td).2

-- `__add__` of two timedeltas.
unfoldable pub add : Timedelta → Timedelta → Timedelta
add a b = in_us (a.us +ℤ b.us)

unfoldable pub sub : Timedelta → Timedelta → Timedelta
sub a b = in_us (a.us -ℤ b.us)

unfoldable pub neg : Timedelta → Timedelta
neg a = in_us (neg_ℤ a.us)

unfoldable pub abs : Timedelta → Timedelta
unfolding neg
abs a = if ltb_ℤ a.us (pos 0) then neg a else a

unfoldable pub mul : Timedelta → ℤ → Timedelta
mul a k = in_us (k *ℤ a.us)

-- Python's `a // b` and `a % b` on integers of either sign.
unfoldable pub floor_div : ℤ → ℤ → Result ℤ
floor_div a (pos n) = if n == 0 then raise zero_division_error else ok (div_ℤ a n)
floor_div a (negsuc n) = ok (div_ℤ (neg_ℤ a) (suc n))

unfoldable pub floor_mod : ℤ → ℤ → Result ℤ
floor_mod a (pos n) = if n == 0 then raise zero_division_error else ok (pos (mod_ℤ a n))
floor_mod a (negsuc n) = ok (neg_ℤ (pos (mod_ℤ (neg_ℤ a) (suc n))))

abbrev map_ok : {A B : Type 0} → (A → B) → Result A → Result B
map_ok f (ok a) = ok (f a)
map_ok f (raise e) = raise e

-- `__floordiv__`, by a timedelta and by a number.
unfoldable pub floordiv : Timedelta → Timedelta → Result ℤ
floordiv a b = floor_div a.us b.us

unfoldable pub floordiv_int : Timedelta → ℤ → Result Timedelta
floordiv_int a k = map_ok in_us (floor_div a.us k)

unfoldable pub modulo : Timedelta → Timedelta → Result Timedelta
modulo a b = map_ok in_us (floor_mod a.us b.us)

unfoldable pub divmod : Timedelta → Timedelta → Result (ℤ × Timedelta)
divmod a b = elim (floor_div a.us b.us) [
  | raise e ↦ raise e
  | ok q ↦ map_ok (λ r. (q, in_us r)) (floor_mod a.us b.us)
]

unfoldable pub eq : Timedelta → Timedelta → Bool
eq a b = eqb_ℤ a.us b.us

unfoldable pub le : Timedelta → Timedelta → Bool
le a b = leb_ℤ a.us b.us

unfoldable pub lt : Timedelta → Timedelta → Bool
lt a b = ltb_ℤ a.us b.us

unfoldable pub ge : Timedelta → Timedelta → Bool
ge a b = leb_ℤ b.us a.us

unfoldable pub gt : Timedelta → Timedelta → Bool
gt a b = ltb_ℤ b.us a.us

unfoldable pub is_nonzero : Timedelta → Bool
is_nonzero a = not (eqb_ℤ a.us (pos 0))
