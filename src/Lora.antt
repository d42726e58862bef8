-- ===== src/Lora.antt =====
-- The LoRa package micropython/lora: the base class of its radio drivers.
pub mod Airtime
pub mod Modem
mod Tests
