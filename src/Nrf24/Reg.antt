-- ===== src/Nrf24/Reg.antt =====
-- The registers of the radio chip in drivers/nrf24l01p/nrf24l01p_reg.h that the driver writes or
-- reads.
use zephyr_app.Common.{ℕ}

abbrev pub config : ℕ
config = 0x00

abbrev pub enaa : ℕ
enaa = 0x01

abbrev pub en_rxaddr : ℕ
en_rxaddr = 0x02

abbrev pub setup_aw : ℕ
setup_aw = 0x03

abbrev pub setup_retr : ℕ
setup_retr = 0x04

abbrev pub rf_ch : ℕ
rf_ch = 0x05

abbrev pub rf_setup : ℕ
rf_setup = 0x06

abbrev pub status : ℕ
status = 0x07

abbrev pub observe_tx : ℕ
observe_tx = 0x08

abbrev pub rx_addr_p0 : ℕ
rx_addr_p0 = 0x0A

abbrev pub tx_addr : ℕ
tx_addr = 0x10

abbrev pub rx_pw_p0 : ℕ
rx_pw_p0 = 0x11

abbrev pub dynpd : ℕ
dynpd = 0x1C

abbrev pub feature : ℕ
feature = 0x1D
