-- ===== src/Nrf24/Spi.antt =====
-- The commands of the radio chip in drivers/nrf24l01p/nrf24l01p_reg.h.
use zephyr_app.Common.{ℕ}

abbrev pub r_register : ℕ
r_register = 0x00

abbrev pub w_register : ℕ
w_register = 0x20

abbrev pub r_rx_payload : ℕ
r_rx_payload = 0x61

abbrev pub w_tx_payload : ℕ
w_tx_payload = 0xA0

abbrev pub flush_tx : ℕ
flush_tx = 0xE1

abbrev pub flush_rx : ℕ
flush_rx = 0xE2

abbrev pub r_rx_pl_wid : ℕ
r_rx_pl_wid = 0x60

abbrev pub nop : ℕ
nop = 0xFF
