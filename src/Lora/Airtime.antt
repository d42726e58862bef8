-- ===== src/Lora/Airtime.antt =====
-- The air time of a packet and the choice of a ramp time: `_get_t_sym_us`, `_get_ldr_en`,
-- `_get_pa_ramp_val`, `get_n_symbols_x4` and `get_time_on_air_us` of the class `BaseModem` in
-- micropython/lora/lora/lora/modem.py. The drivers keep the bandwidth and the spreading factor
-- positive, so no division is by zero.
pub mod Symbols
pub mod Ramp
use micropython_lib.Prelude.{
  ℕ, suc, ◌+◌, ◌-◌, ◌*◌, ◌/◌, ◌^◌, Bool, leb, if◌then◌else◌, List, [], ◌∷◌, Result, ok, raise,
  value_error,
}
use micropython_lib.Prelude.Int.{ℤ, pos, pos_part, ◌+ℤ◌, ◌-ℤ◌}

-- The settings of the modem that the calculation reads, and the two numbers that `_symbol_offsets`
-- returns, which a driver may override.
pub record Settings : Type 0 where
  pub sf : ℕ
  pub bw_hz : ℕ
  pub coding_rate : ℕ
  pub preamble_len : ℕ
  pub crc_en : Bool
  pub implicit_header : Bool
  pub symbol_offset : ℕ
  pub bit_offset : ℤ

unfoldable pub get_t_sym_us : Settings → ℕ
get_t_sym_us c = 1000000 * 2 ^ c.sf / c.bw_hz

unfoldable pub get_ldr_en : Settings → Bool
get_ldr_en c = leb 16000 (get_t_sym_us c)

-- `bits` before and after `max(bits, 0)`, which is `pos_part`.
unfoldable pub signed_bits : Settings → ℕ → ℤ
signed_bits c payload_len =
    pos (8 * payload_len + (if c.crc_en then 16 else 0))
    -ℤ pos (4 * c.sf)
    +ℤ pos 8
    +ℤ c.bit_offset
    +ℤ pos (if c.implicit_header then 0 else 20)

unfoldable pub payload_bits : Settings → ℕ → ℕ
payload_bits c payload_len = pos_part (signed_bits c payload_len)

-- `bps`, where True counts as 1.
unfoldable pub bits_per_symbol : Settings → ℕ
bits_per_symbol c = (c.sf - 2 * (if get_ldr_en c then 1 else 0)) * 4

unfoldable pub get_n_symbols_x4 : Settings → ℕ → ℕ
get_n_symbols_x4 c payload_len =
    let bits = payload_bits c payload_len in
    let bps = bits_per_symbol c in
    17 + 4 * (c.preamble_len + c.symbol_offset + 8 + ((bits + bps - 1) / bps) * c.coding_rate)

unfoldable pub get_time_on_air_us : Settings → ℕ → ℕ
get_time_on_air_us c payload_len = get_t_sym_us c * get_n_symbols_x4 c payload_len / 4

-- The loop of `_get_pa_ramp_val` from index `i`; a ConfigError is a ValueError.
unfoldable pub ramp_from : ℕ → ℕ → List ℕ → Result ℕ
ramp_from us i [] = raise value_error
ramp_from us i (v ∷ supported) =
    let rest = ramp_from us (suc i) supported in if leb us v then ok i else rest

unfoldable pub get_pa_ramp_val : ℕ → List ℕ → Result ℕ
get_pa_ramp_val us supported = ramp_from us 0 supported
