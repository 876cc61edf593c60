-- ===== src/Nrf24/Setup.antt =====
-- Configuration, power and set-up of the radio's driver: nrf24_configure, nrf24_power_enable and
-- nrf24_init of nrf24l01p.c, with the texts of the device tree.
pub mod Written
use zephyr_app.Common.{
  Bool, List, Option, [], bit_and, bit_or, drop, false, if◌then◌else◌, leb, list_eq, none, not,
  some, take, true, u8, ℕ, ◌&&◌, ◌*◌, ◌++◌, ◌+◌, ◌==◌, ◌^◌, ◌∷◌,
}
use zephyr_app.Nrf24.{
  Bus, Io, act, caught, change, cmd_locked, err, ignored, is_prx, of_bus, ok, power_down, prx, pure,
  reg_read_locked, reg_write_locked, reg_write_multi_locked, rx_dr, set_mode_locked, standby,
  tx_bits, ◌>>=◌, ◌>>◌,
}
use zephyr_app.Nrf24.Reg
use zephyr_app.Nrf24.Spi

pub data DataRate : Type 0 where
  rate_250k rate_1m rate_2m : DataRate

pub data TxPower : Type 0 where
  pwr_18dbm pwr_12dbm pwr_6dbm pwr_0dbm : TxPower

pub data PayloadMode : Type 0 where
  dynamic fixed : PayloadMode

pub data CrcMode : Type 0 where
  one_byte two_byte : CrcMode

-- The texts "250k", "1m", "2m", "-18dbm", "-12dbm", "-6dbm", "0dbm", "1-byte", "2-byte", "fixed".
pub data_rate_to_str : DataRate → List ℕ
data_rate_to_str rate_250k = b'2' ∷ b'5' ∷ b'0' ∷ b'k' ∷ []
data_rate_to_str rate_1m = b'1' ∷ b'm' ∷ []
data_rate_to_str rate_2m = b'2' ∷ b'm' ∷ []

pub tx_power_to_str : TxPower → List ℕ
tx_power_to_str pwr_18dbm = b'-' ∷ b'1' ∷ b'8' ∷ b'd' ∷ b'b' ∷ b'm' ∷ []
tx_power_to_str pwr_12dbm = b'-' ∷ b'1' ∷ b'2' ∷ b'd' ∷ b'b' ∷ b'm' ∷ []
tx_power_to_str pwr_6dbm = b'-' ∷ b'6' ∷ b'd' ∷ b'b' ∷ b'm' ∷ []
tx_power_to_str pwr_0dbm = b'0' ∷ b'd' ∷ b'b' ∷ b'm' ∷ []

pub crc_mode_to_str : CrcMode → List ℕ
crc_mode_to_str one_byte = b'1' ∷ b'-' ∷ b'b' ∷ b'y' ∷ b't' ∷ b'e' ∷ []
crc_mode_to_str two_byte = b'2' ∷ b'-' ∷ b'b' ∷ b'y' ∷ b't' ∷ b'e' ∷ []

pub parse_data_rate : List ℕ → DataRate
unfolding data_rate_to_str
parse_data_rate s =
    if list_eq s (data_rate_to_str rate_250k)
    then rate_250k
    else if list_eq s (data_rate_to_str rate_2m)
    then rate_2m
    else rate_1m

pub parse_tx_power : List ℕ → TxPower
unfolding tx_power_to_str
parse_tx_power s =
    if list_eq s (tx_power_to_str pwr_18dbm)
    then pwr_18dbm
    else if list_eq s (tx_power_to_str pwr_12dbm)
    then pwr_12dbm
    else if list_eq s (tx_power_to_str pwr_6dbm)
    then pwr_6dbm
    else pwr_0dbm

abbrev pub fixed_text : List ℕ
fixed_text = b'f' ∷ b'i' ∷ b'x' ∷ b'e' ∷ b'd' ∷ []

unfoldable pub parse_payload_mode : List ℕ → PayloadMode
parse_payload_mode s = if list_eq s fixed_text then fixed else dynamic

pub parse_crc_mode : List ℕ → CrcMode
unfolding crc_mode_to_str
parse_crc_mode s = if list_eq s (crc_mode_to_str one_byte) then one_byte else two_byte

-- `struct nrf24_config` without the bus and the pins; `has_power` where there is a pin for the power
-- supply, and the wait of CONFIG_NRF24L01P_POWER_ON_DELAY_MS after it.
pub record Config : Type 0 where
  pub channel : ℕ
  pub data_rate : List ℕ
  pub tx_power : List ℕ
  pub address_width : ℕ
  pub payload_mode : List ℕ
  pub rx_payload_width : ℕ
  pub crc_mode : List ℕ
  pub ard : ℕ
  pub arc : ℕ
  pub tx_addr : List ℕ
  pub has_power : Bool
  pub power_on_delay : ℕ

-- `struct nrf24_cfg`
pub record Cfg : Type 0 where
  pub channel : ℕ
  pub data_rate : DataRate
  pub tx_power : TxPower
  pub crc_mode : CrcMode
  pub address_width : ℕ
  pub tx_addr : Option (List ℕ)

pub data_rate_bits : DataRate → ℕ
data_rate_bits rate_250k = 32
data_rate_bits rate_2m = 8
data_rate_bits rate_1m = 0

pub tx_power_bits : TxPower → ℕ
tx_power_bits pwr_18dbm = 0
tx_power_bits pwr_12dbm = 2
tx_power_bits pwr_6dbm = 4
tx_power_bits pwr_0dbm = 6

pub addr_aw_bits : ℕ → ℕ
addr_aw_bits aw = if aw == 3 then 1 else if aw == 4 then 2 else 3

-- `aw`, the width that the addresses have.
abbrev pub width_of : Config → ℕ
width_of c = if leb 3 c.address_width && leb c.address_width 5 then c.address_width else 5

-- The last value of the register CONFIG: EN_CRC, CRCO, PWR_UP and PRIM_RX.
pub config_bits : Config → Bool → ℕ
config_bits c prim_rx =
    8
    + elim (parse_crc_mode c.crc_mode) [ one_byte ↦ 0 | two_byte ↦ 4 ]
    + 2
    + (if prim_rx then 1 else 0)

module _ {W : Type 0} (bus : Bus W) where
  pub apply_payload_mode : Config → PayloadMode → Io W (Unit {0})
  apply_payload_mode c dynamic = do
    reg_write_locked bus Reg.dynpd 1
    reg_write_locked bus Reg.feature 6
  apply_payload_mode c fixed = do
    reg_write_locked bus Reg.dynpd 0
    reg_write_locked bus Reg.feature 0
    reg_write_locked bus Reg.rx_pw_p0 (bit_and c.rx_payload_width 0x3F)

  pub apply_config_with : Config → Bool → Io W (Unit {0})
  apply_config_with c prim_rx = do
    reg_write_locked bus Reg.config 0
    reg_write_locked bus Reg.setup_aw (addr_aw_bits (width_of c))
    reg_write_locked bus Reg.setup_retr (u8 (bit_or c.ard (bit_and c.arc 0x0F)))
    reg_write_locked bus Reg.rf_ch (bit_and c.channel 0x7F)
    reg_write_locked bus Reg.rf_setup (
        bit_or (data_rate_bits (parse_data_rate c.data_rate))
          (tx_power_bits (parse_tx_power c.tx_power)))
    reg_write_locked bus Reg.enaa 1
    reg_write_locked bus Reg.en_rxaddr 1
    reg_write_locked bus Reg.config (config_bits c prim_rx)
    apply_payload_mode c (parse_payload_mode c.payload_mode)
    reg_write_multi_locked bus Reg.tx_addr (take (width_of c) c.tx_addr)
    reg_write_multi_locked bus Reg.rx_addr_p0 (take (width_of c) c.tx_addr)
    ignored (cmd_locked bus Spi.flush_tx)
    ignored (cmd_locked bus Spi.flush_rx)
    ignored (reg_write_locked bus Reg.status (2 ^ rx_dr + tx_bits))
    act (bus.sleep_us 2000)

  nrf24_power_apply : Config → Bool → Io W (Unit {0})
  nrf24_power_apply c enable d =
      let go : Io W (Unit {0}) = (λ e.
        let (code, w) = bus.configure_power e.world in
        elim code [
          | some n ↦ (err (of_bus n), record e { world = w })
          | none ↦
              let on = bus.set_power enable w in
              (
                ok tt,
                record e {
                  world = if enable then bus.sleep_us (1000 * c.power_on_delay) on else on;
                },
              )
        ]) in
      if c.has_power then go d else (ok tt, d)

  -- The chip has lost its registers without power: they are written again.
  nrf24_power_enable : Config → Bool → Io W (Unit {0})
  nrf24_power_enable c enable =
      let up : Io W (Unit {0}) = (do
        applied ← caught (do nrf24_power_apply c true; apply_config_with c true)
        elim applied [
          | err code ↦ λ d. (err code, record d { ready = false })
          | ok done ↦ do
            change (λ d. record d { ready = true; mode = prx })
            act (bus.set_ce true)
            change (λ d. record d { irq_sem = d.irq_sem + 1 })
        ]) in
      let down : Io W (Unit {0}) = (do
        ignored (set_mode_locked bus power_down)
        change (λ d. record d { ready = false })
        ignored (nrf24_power_apply c false)) in
      if not c.has_power then pure tt else if enable then up else down

  -- `tmp` of nrf24_configure
  abbrev pub merged : Config → Option Cfg → Config
  merged c none = c
  merged c (some n) =
      let wide : Bool = leb 3 n.address_width && leb n.address_width 5 in
      let aw : ℕ = if wide then n.address_width else c.address_width in
      record c {
        channel = n.channel;
        data_rate = data_rate_to_str n.data_rate;
        tx_power = tx_power_to_str n.tx_power;
        crc_mode = crc_mode_to_str n.crc_mode;
        address_width = aw;
        tx_addr = elim n.tx_addr [ none ↦ c.tx_addr | some a ↦ take aw a ++ drop aw c.tx_addr ];
      }

  pub nrf24_configure : Config → Option Cfg → Io W (Unit {0})
  nrf24_configure c new d = apply_config_with (merged c new) (is_prx d.mode) d

  -- `bus_init` stands for nrf24_bus_init, the set-up of the pins and of the interrupt.
  nrf24_init : Io W (Unit {0}) → Config → Io W (Unit {0})
  nrf24_init bus_init c = do
    change (λ d. record d { irq_sem = 0; tx_done = false; mode = standby; ready = false })
    nrf24_power_apply c true
    bus_init
    apply_config_with c true
    ignored (reg_read_locked bus Reg.setup_aw)
    change (λ d. record d { ready = true; mode = prx })
    act (bus.set_ce true)
