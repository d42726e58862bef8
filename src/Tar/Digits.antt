-- ===== src/Tar/Digits.antt =====
-- The octal digits of a number in a header, as they are written and read.
use micropython_lib.Prelude.{
  ℕ, zero, suc, ◌+◌, ◌*◌, ◌/◌, ◌%◌, ◌<◌, ◌≡◌, ap, sym, ◌∙◌, arith, true, false, [], ◌∷◌, ◌++◌, ok,
  length, length-append,
}
use micropython_lib.Prelude.Text.{is_space}
use micropython_lib.Prelude.Slices.{append_assoc, append-nil}
use micropython_lib.Tar.{Bytes, is_octal, octal_digits, int_octal, octal, digits}

abbrev pub pow8 : ℕ → ℕ
pow8 zero = 1
pow8 (suc w) = 8 * pow8 w

-- No digit is written for what is left of a number that fits.
octal-none : (n : ℕ) → n < 1 → octal 0 n ≡ []
unfolding octal digits
octal-none n h = ap (λ m. digits m m) {x = n} {y = 0} (omega arith)

pub length-octal : (w n : ℕ) → n < pow8 w → length (octal w n) ≡ w
unfolding octal
length-octal zero n h = ap length (octal-none n h)
length-octal (suc w) n h = omega (
  arith,
  length-append (octal w (n / 8)) ((48 + n % 8) ∷ []),
  length-octal w (n / 8) (omega arith),
)

-- A digit is read as itself.
octal_digits_step :
    (acc d : ℕ) (ys : Bytes)
    → d < 8
    → octal_digits acc ((48 + d) ∷ ys) ≡ octal_digits (acc * 8 + d) ys
unfolding octal_digits
octal_digits_step acc d ys h =
    rw (digit d h) (ap (λ n. octal_digits (acc * 8 + n) ys) (omega arith))
  where
    digit : (n : ℕ) → n < 8 → is_octal (48 + n) ≡ true
    digit n small = ground arith

octal_digits-octal :
    (w n acc : ℕ) (ys : Bytes)
    → n < pow8 w
    → octal_digits acc (octal w n ++ ys) ≡ octal_digits (acc * pow8 w + n) ys
unfolding octal
octal_digits-octal zero n acc ys h =
    ap (λ b. octal_digits acc (b ++ ys)) (octal-none n h)
    ∙ ap (λ m. octal_digits m ys) (omega arith)
octal_digits-octal (suc w) n acc ys h =
    ap (octal_digits acc) (append_assoc (octal w (n / 8)) ((48 + n % 8) ∷ []) ys)
    ∙ octal_digits-octal w (n / 8) acc ((48 + n % 8) ∷ ys) (omega arith)
    ∙ octal_digits_step (acc * pow8 w + n / 8) (n % 8) ys (omega arith)
    ∙ ap (λ m. octal_digits m ys) (omega arith)

-- The first byte is a digit.
abbrev StartsOctal : Bytes → Type 0
StartsOctal [] = ⊥
StartsOctal (c ∷ s) = is_octal c ≡ true

StartsOctal-append : (xs ys : Bytes) → StartsOctal xs → StartsOctal (xs ++ ys)
StartsOctal-append [] ys h = absurd h
StartsOctal-append (x ∷ xs) ys h = h

octal-StartsOctal : (w n : ℕ) → n < pow8 (suc w) → StartsOctal (octal (suc w) n)
unfolding octal
octal-StartsOctal zero n h = rw (octal-none (n / 8) (omega arith)) (ground arith)
octal-StartsOctal (suc w) n h =
    StartsOctal-append (octal w (n / 8 / 8) ++ (48 + n / 8 % 8) ∷ []) ((48 + n % 8) ∷ [])
      (octal-StartsOctal w (n / 8) (omega arith))

int_octal-digits : (s : Bytes) → StartsOctal s → int_octal s ≡ octal_digits 0 s
unfolding int_octal octal_digits
int_octal-digits [] h = absurd h
int_octal-digits (c ∷ s) h = rw (h, no_space c h) (ap (λ n. octal_digits n s) (omega arith))
  where
    no_space : (n : ℕ) → is_octal n ≡ true → is_space n ≡ false
    no_space n e = ground arith

-- The digits of a number are read back.
pub int_octal-octal : (w n : ℕ) → n < pow8 (suc w) → int_octal (octal (suc w) n) ≡ ok n
unfolding octal_digits
int_octal-octal w n h =
    int_octal-digits (octal (suc w) n) (octal-StartsOctal w n h)
    ∙ ap (octal_digits 0) (sym (append-nil (octal (suc w) n)))
    ∙ octal_digits-octal (suc w) n 0 [] h
    ∙ ap ok (omega arith)
