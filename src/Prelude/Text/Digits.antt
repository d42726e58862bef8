-- ===== src/Prelude/Text/Digits.antt =====
-- Padded decimals of two, three and four digits, and reading them back.
use Prim.Native.Nat.{ℕ, ◌+◌, ◌/◌, ◌%◌, ◌<◌}
use mathlib.Core.Path.{◌≡◌, refl}
use mathlib.Core.Bool.{Bool, true, false, ◌&&◌}
use mathlib.Core.List.{[], ◌∷◌}
use native.Mathlib.Omega.{arith}
use micropython_lib.Prelude.Tests.{◌==◌, upto, upto_sound}
use micropython_lib.Prelude.Results.{ok}
use micropython_lib.Prelude.Int.{pos, neg_ℤ}
use micropython_lib.Prelude.Text.{Text, zero_pad, int, int_digits}

text_eq : Text → Text → Bool
text_eq [] [] = true
text_eq (a ∷ s) (b ∷ t) = (a == b) && text_eq s t
text_eq _ _ = false

text_eq_sound : (s t : Text) → text_eq s t ≡ true → s ≡ t
unfolding text_eq
text_eq_sound [] [] h = refl
text_eq_sound (a ∷ s) (b ∷ t) h = ground (arith, text_eq_sound s t)
text_eq_sound [] (b ∷ t) h = cc
text_eq_sound (a ∷ s) [] h = cc

-- The character of a digit.
abbrev pub digit : ℕ → ℕ
digit n = 48 + n % 10

abbrev pub two : ℕ → Text
two n = digit (n / 10) ∷ digit n ∷ []

abbrev pub three : ℕ → Text
three n = digit (n / 100) ∷ digit (n / 10) ∷ digit n ∷ []

abbrev pub four : ℕ → Text
four n = digit (n / 1000) ∷ digit (n / 100) ∷ digit (n / 10) ∷ digit n ∷ []

pub zero_pad-two : (n : ℕ) → n < 100 → zero_pad 2 n ≡ two n
unfolding text_eq zero_pad upto
zero_pad-two n h = text_eq_sound _ _ (upto_sound (λ n. text_eq (zero_pad 2 n) (two n)) 100 n refl h)

pub zero_pad-three : (n : ℕ) → n < 1000 → zero_pad 3 n ≡ three n
unfolding text_eq zero_pad upto
zero_pad-three n h =
    text_eq_sound _ _ (upto_sound (λ n. text_eq (zero_pad 3 n) (three n)) 1000 n refl h)

pub zero_pad-four : (n : ℕ) → n < 10000 → zero_pad 4 n ≡ four n
unfolding text_eq zero_pad upto
zero_pad-four n h =
    text_eq_sound _ _ (upto_sound (λ n. text_eq (zero_pad 4 n) (four n)) 10000 n refl h)

pub int-two : (n : ℕ) → n < 100 → int (two n) ≡ ok (pos n)
unfolding int int_digits
int-two n h = ground arith

pub int-three : (n : ℕ) → n < 1000 → int (three n) ≡ ok (pos n)
unfolding int int_digits
int-three n h = ground arith

pub int-four : (n : ℕ) → n < 10000 → int (four n) ≡ ok (pos n)
unfolding int int_digits
int-four n h = ground arith

pub int-minus_two : (n : ℕ) → n < 100 → int (b'-' ∷ two n) ≡ ok (neg_ℤ (pos n))
unfolding int int_digits
int-minus_two n h = ground arith
