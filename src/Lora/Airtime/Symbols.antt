-- ===== src/Lora/Airtime/Symbols.antt =====
-- The air time against the formula of the data sheets.
use micropython_lib.Prelude.{
  ℕ, ◌+◌, ◌-◌, ◌*◌, ◌/◌, ◌^◌, ◌≤◌, ◌<◌, ◌≡◌, refl, sym, ap, arith, Bool, true, false, leb,
  if◌then◌else◌,
}
use micropython_lib.Prelude.Int.{ℤ, pos, pos_part, int_laws, ◌≤ℤ◌, ◌+ℤ◌, ◌-ℤ◌}
use micropython_lib.Lora.Airtime.{
  Settings, signed_bits, payload_bits, bits_per_symbol, get_ldr_en, get_n_symbols_x4, get_t_sym_us,
  get_time_on_air_us,
}

-- `q` is `a / b` rounded up: the least number of groups of `b` that hold `a`.
pub record IsCeiling (a b q : ℕ) : Type 0 where
  pub holds : a ≤ q * b
  pub least : (r : ℕ) → a ≤ r * b → q ≤ r

rounded_up : (a b : ℕ) → 0 < b → IsCeiling a b ((a + b - 1) / b)
rounded_up a b h = record { holds = grind arith; least = λ r g. grind arith }

-- A configured symbol carries at least one bit.
positive : (c : Settings) → 3 ≤ c.sf → 0 < bits_per_symbol c
unfolding bits_per_symbol
positive c h = ground arith

pos_part_mono : (y z : ℤ) → y ≤ℤ z → pos_part y ≤ pos_part z
pos_part_mono y z h = ground arith

signed_bits_mono : (c : Settings) (n m : ℕ) → n ≤ m → signed_bits c n ≤ℤ signed_bits c m
unfolding signed_bits
signed_bits_mono c n m h = omega int_laws

payload_bits_mono : (c : Settings) (n m : ℕ) → n ≤ m → payload_bits c n ≤ payload_bits c m
unfolding payload_bits
payload_bits_mono c n m h =
    pos_part_mono (signed_bits c n) (signed_bits c m) (signed_bits_mono c n m h)

-- The quantities of the data sheets. A symbol is slow where it takes 16 ms or more.
abbrev pub is_slow : Settings → Bool
is_slow c = leb (16000 * c.bw_hz) (1000000 * 2 ^ c.sf)

abbrev pub sheet_bits : Settings → ℕ → ℕ
sheet_bits c n = pos_part (
    pos (8 * n)
    -ℤ pos (4 * c.sf)
    +ℤ pos (if c.crc_en then 16 else 0)
    +ℤ pos (if c.implicit_header then 8 else 28)
    +ℤ c.bit_offset)

abbrev pub sheet_group : Settings → ℕ
sheet_group c = if is_slow c then 4 * c.sf - 8 else 4 * c.sf

to_product : (k n d : ℕ) → 0 < d → k ≤ n / d → k * d ≤ n
to_product k n d h g = grind arith

of_product : (k n d : ℕ) → 0 < d → k * d ≤ n → k ≤ n / d
of_product k n d h g = grind arith

slow_symbol : (n d : ℕ) → 0 < d → leb 16000 (n / d) ≡ leb (16000 * d) n
slow_symbol n d h = ground (arith, to_product 16000 n d h, of_product 16000 n d h)

same_bits :
    (crc implicit : Bool) (n s : ℕ) (o : ℤ)
    → pos (8 * n + (if crc then 16 else 0))
        -ℤ pos s
        +ℤ pos 8
        +ℤ o
        +ℤ pos (if implicit then 0 else 20)
      ≡ pos (8 * n) -ℤ pos s +ℤ pos (if crc then 16 else 0) +ℤ pos (if implicit then 8 else 28) +ℤ o
same_bits true true n s o = omega int_laws
same_bits true false n s o = omega int_laws
same_bits false true n s o = omega int_laws
same_bits false false n s o = omega int_laws

payload_bits-sheet : (c : Settings) (n : ℕ) → payload_bits c n ≡ sheet_bits c n
unfolding payload_bits signed_bits
payload_bits-sheet c n =
    ap pos_part (same_bits c.crc_en c.implicit_header n (4 * c.sf) c.bit_offset)

bits_per_symbol-sheet : (c : Settings) → 0 < c.bw_hz → bits_per_symbol c ≡ sheet_group c
unfolding bits_per_symbol get_ldr_en get_t_sym_us
bits_per_symbol-sheet c h = rw (slow_symbol (1000000 * 2 ^ c.sf) c.bw_hz h) (times (is_slow c) c.sf)
  where
    times :
        (b : Bool) (n : ℕ) → (n - 2 * (if b then 1 else 0)) * 4 ≡ (if b then 4 * n - 8 else 4 * n)
    times true n = omega arith
    times false n = omega arith

-- The symbols of a payload, times 4, are those of the data sheet: 4.25 and the configured symbols of
-- preamble, the offset of the driver, 8 symbols, and the coding rate for each group of the bits,
-- whose number is the quotient rounded up. The bits are 8 for each byte, 16 for a checksum, 28 with
-- and 8 without an explicit header, and the driver's offset, less 4 times the spreading factor, and
-- never negative; a group has 4 times the spreading factor, and 8 less where a symbol takes 16 ms or
-- more. For a spreading factor of 3 at least and a bandwidth above 0.
pub get_n_symbols_x4-IsCeiling :
    (c : Settings) (n : ℕ)
    → 3 ≤ c.sf
    → 0 < c.bw_hz
    → (q : ℕ) × IsCeiling (sheet_bits c n) (sheet_group c) q
      × (get_n_symbols_x4 c n ≡ 17 + 4 * (c.preamble_len + c.symbol_offset + 8 + q * c.coding_rate))
unfolding get_n_symbols_x4
get_n_symbols_x4-IsCeiling c n h w = (
  (payload_bits c n + bits_per_symbol c - 1) / bits_per_symbol c,
  rw (sym (payload_bits-sheet c n), sym (bits_per_symbol-sheet c w))
      (rounded_up (payload_bits c n) (bits_per_symbol c) (positive c h)),
  refl,
)

div_mono : (a b d : ℕ) → 0 < d → a ≤ b → a / d ≤ b / d
div_mono a b d h g = grind arith

mul_mono : (a b k : ℕ) → a ≤ b → a * k ≤ b * k
mul_mono a b k h = grind arith

get_n_symbols_x4_mono :
    (c : Settings) (n m : ℕ) → 3 ≤ c.sf → n ≤ m → get_n_symbols_x4 c n ≤ get_n_symbols_x4 c m
unfolding get_n_symbols_x4
get_n_symbols_x4_mono c n m h g = omega (
  arith,
  mul_mono _ _ c.coding_rate (
      div_mono (payload_bits c n + bits_per_symbol c - 1) (payload_bits c m + bits_per_symbol c - 1)
        (bits_per_symbol c) (positive c h) (omega (arith, payload_bits_mono c n m g))),
)

-- A longer payload never takes less time on air, for a spreading factor of 3 at least.
pub get_time_on_air_us_mono :
    (c : Settings) (n m : ℕ) → 3 ≤ c.sf → n ≤ m → get_time_on_air_us c n ≤ get_time_on_air_us c m
unfolding get_time_on_air_us
get_time_on_air_us_mono c n m h g =
    div_mono _ _ 4 (omega arith) (mono_right (get_t_sym_us c) _ _ (get_n_symbols_x4_mono c n m h g))
  where
    mono_right : (k a b : ℕ) → a ≤ b → k * a ≤ k * b
    mono_right k a b e = grind arith
