-- ===== src/Prelude/Text.antt =====
-- Text as the list of its code points, with what the sources use of Python's formatting and `int`.
pub mod Digits
use Prim.Native.Char.{code}
use Prim.Native.String.{String}
use Prim.Native.Nat.{ℕ, zero, suc, ◌+◌, ◌-◌, ◌*◌, ◌/◌, ◌%◌, ◌<◌}
use mathlib.Core.Path.{◌≡◌, refl}
use mathlib.Core.Bool.{Bool, true, false, not, ◌&&◌, ◌||◌}
use mathlib.Core.List.{List, [], ◌∷◌, ◌++◌}
use native.Mathlib.Omega.{arith}
use micropython_lib.Prelude.Tests.{ltb, leb, ◌==◌, if◌then◌else◌, upto, upto_sound}
use micropython_lib.Prelude.Lists.{length, take, drop, replicate}
use micropython_lib.Prelude.Results.{Result, ok, raise, value_error}
use micropython_lib.Prelude.Int.{ℤ, pos, neg_ℤ}

abbrev pub Text : Type 0
Text = List ℕ

abbrev pub codes : String → Text
codes String.[] = []
codes (String.◌∷◌ c s) = code c ∷ codes s

-- `s[a:b]`, for 0 <= a <= b.
abbrev pub slice : Text → ℕ → ℕ → Text
slice s a b = take (b - a) (drop a s)

-- `str(n)` for n >= 0; n + 1 rounds are enough, since each divides by ten.
dec_rounds : ℕ → ℕ → Text
dec_rounds zero n = []
dec_rounds (suc f) n =
    let rest = dec_rounds f (n / 10) in
    if ltb n 10 then (48 + n) ∷ [] else rest ++ (48 + n % 10) ∷ []

unfoldable pub str : ℕ → Text
unfolding dec_rounds
str n = dec_rounds (n + 1) n

-- `f"{n:0wd}"`, and `%0wd`, for n >= 0.
unfoldable pub zero_pad : ℕ → ℕ → Text
unfolding str
zero_pad w n = replicate (w - length (str n)) 48 ++ str n

abbrev pub is_digit : ℕ → Bool
is_digit c = leb 48 c && leb c 57

abbrev pub is_space : ℕ → Bool
is_space c = (c == 32) || (leb 9 c && leb c 13)

unfoldable pub all_space : Text → Bool
all_space [] = true
all_space (c ∷ s) = is_space c && all_space s

-- The digits of a number, then spaces up to the end.
int_digits : ℕ → Text → Result ℤ
unfolding all_space
int_digits acc [] = ok (pos acc)
int_digits acc (c ∷ s) =
    let rest = int_digits (acc * 10 + (c - 48)) s in
    if is_digit c then rest else if all_space (c ∷ s) then ok (pos acc) else raise value_error

int_unsigned : Text → Result ℤ
unfolding int_digits
int_unsigned [] = raise value_error
int_unsigned (c ∷ s) = if is_digit c then int_digits (c - 48) s else raise value_error

negate : Result ℤ → Result ℤ
negate (ok z) = ok (neg_ℤ z)
negate (raise e) = raise e

-- `int(s)`: spaces, a sign, decimal digits, spaces; anything else is a ValueError.
unfoldable pub int : Text → Result ℤ
unfolding int_unsigned negate
int [] = raise value_error
int (c ∷ s) =
    let rest = int s in
    if is_space c
    then rest
    else if c == 45
    then negate (int_unsigned s)
    else if c == 43
    then int_unsigned s
    else int_unsigned (c ∷ s)
