-- ===== src/Lora/Tests.antt =====
-- Runs of the air time calculation, and its theorems at concrete values.
use micropython_lib.Prelude.{
  ℕ, ◌+◌, ◌*◌, ◌≤◌, ◌≡◌, refl, arith, true, false, [], ◌∷◌, ok, raise, value_error,
}
use micropython_lib.Prelude.Int.{pos, ◌+ℤ◌, ◌-ℤ◌}
use micropython_lib.Lora.Airtime.{
  Settings, get_t_sym_us, get_ldr_en, signed_bits, payload_bits, bits_per_symbol, get_n_symbols_x4,
  get_time_on_air_us, get_pa_ramp_val, ramp_from,
}
use micropython_lib.Lora.Airtime.Symbols.{
  IsCeiling, sheet_bits, sheet_group, get_n_symbols_x4-IsCeiling, get_time_on_air_us_mono,
}

-- The settings of `BaseModem` after a reset.
abbrev reset : Settings
reset = record {
  sf = 7;
  bw_hz = 125000;
  coding_rate = 5;
  preamble_len = 12;
  crc_en = true;
  implicit_header = false;
  symbol_offset = 0;
  bit_offset = pos 0;
}

airtime : Unit {0}
unfolding get_t_sym_us get_ldr_en signed_bits payload_bits bits_per_symbol get_n_symbols_x4
    get_time_on_air_us get_pa_ramp_val ramp_from ◌+ℤ◌ ◌-ℤ◌
airtime = tt

ten_bytes : get_time_on_air_us reset 10 ≡ 45312
unfolding airtime
ten_bytes = refl

-- The ramp times of the SX126x.
ramp :
    (get_pa_ramp_val 40 (10 ∷ 20 ∷ 40 ∷ 80 ∷ []) ≡ ok 2)
    × (get_pa_ramp_val 81 (10 ∷ 80 ∷ []) ≡ raise value_error)
unfolding airtime
ramp = (refl, refl)

get_n_symbols_x4-IsCeiling_example :
    (q : ℕ) × IsCeiling (sheet_bits reset 10) (sheet_group reset) q
    × (get_n_symbols_x4 reset 10 ≡ 17 + 4 * (12 + 0 + 8 + q * 5))
get_n_symbols_x4-IsCeiling_example = get_n_symbols_x4-IsCeiling reset 10 (omega arith) (omega arith)

get_time_on_air_us_mono_example : get_time_on_air_us reset 10 ≤ get_time_on_air_us reset 11
get_time_on_air_us_mono_example = get_time_on_air_us_mono reset 10 11 (omega arith) (omega arith)
