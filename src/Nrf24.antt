-- ===== src/Nrf24.antt =====
-- The driver of the nRF24L01+ radio chip, drivers/nrf24l01p/nrf24l01p.c: its state, the exchanges over
-- SPI and the change of mode. Set-up, receiving and sending are in the modules below.
pub mod Reg
pub mod Spi
pub mod Setup
pub mod Receive
pub mod Send
pub mod Chip
pub mod Kept
mod Tests
use zephyr_app.Common.{
  Bool, List, Option, [], bit_and, bit_or, drop, false, get_or, if◌then◌else◌, inl, inr, length,
  ltb, not, replicate, take, true, ℕ, ◌+◌, ◌==◌, ◌^◌, ◌||◌, ◌∷◌, ◌⊎◌,
}
use zephyr_app.Nrf24.Reg
use zephyr_app.Nrf24.Spi

-- `enum nrf24_mode`
pub data Mode : Type 0 where
  ptx prx standby power_down : Mode

-- SPI, the pins, the clock and the kernel's queues of frames, over their state `W`. An exchange gives
-- the bytes that came in, or the code of the error; so does the set-up of the pin of the power supply.
-- `msgq_put` is `k_msgq_put` without waiting, `msgq_get` is `k_msgq_get` with its time-out, none where
-- that has passed. A frame has its length with it.
pub record Bus (W : Type 0) : Type 0 where
  pub transceive : List ℕ → W → (ℕ ⊎ List ℕ) × W
  pub set_ce : Bool → W → W
  pub configure_power : W → Option ℕ × W
  pub set_power : Bool → W → W
  pub sleep_us : ℕ → W → W
  pub uptime : W → ℕ
  pub msgq_put : ℕ → List ℕ → W → W
  pub msgq_get : ℕ → W → Option (List ℕ) × W

-- `struct nrf24_data`, with the state of the bus, the counts of the semaphores and the frames with
-- which the callback was called. A pointer to a queue is its number, none for null.
pub record Dev (W : Type 0) : Type 0 where
  pub world : W
  pub mode : Mode
  pub ready : Bool
  pub irq_sem : ℕ
  pub tx_done : Bool
  pub last_status : ℕ
  pub last_observe_tx : ℕ
  pub rx_msgq : Option ℕ
  pub rx_cb : Bool
  pub fallback_msgq : Option ℕ
  pub called : List (List ℕ)

-- The codes of errors: those of the bus and of the pins, and those of the driver.
pub data Code : Type 0 where
  of_bus : ℕ → Code
  einval eio eagain enotsup : Code

pub data Ret (A : Type 0) : Type 0 where
  ok : A → Ret A
  err : Code → Ret A

-- What an error leaves done stays done.
abbrev pub Io : Type 0 → Type 0 → Type 0
Io W A = Dev W → Ret A × Dev W

abbrev pub pure : {W A : Type 0} → A → Io W A
pure a d = (ok a, d)

abbrev pub bind_from : {W A B : Type 0} → (A → Io W B) → Ret A → Io W B
bind_from f (ok a) d = f a d
bind_from f (err c) d = (err c, d)

infixl 5 ◌>>=◌ ◌>>◌
abbrev pub ◌>>=◌ : {W A B : Type 0} → Io W A → (A → Io W B) → Io W B
◌>>=◌ m f d = bind_from f (m d).0 (m d).1

abbrev pub ◌>>◌ : {W B : Type 0} → Io W (Unit {0}) → Io W B → Io W B
m >> k = m >>= λ _. k

-- What a call returns as a value, and a call whose return is not looked at.
abbrev pub caught : {W A : Type 0} → Io W A → Io W (Ret A)
caught m d = (ok (m d).0, (m d).1)

abbrev pub ignored : {W A : Type 0} → Io W A → Io W (Unit {0})
ignored m d = (ok tt, (m d).1)

abbrev pub act : {W : Type 0} → (W → W) → Io W (Unit {0})
act f d = (ok tt, record d { world = f d.world })

abbrev pub look : {W A : Type 0} → (Dev W → A) → Io W A
look f d = (ok (f d), d)

abbrev pub change : {W : Type 0} → (Dev W → Dev W) → Io W (Unit {0})
change f d = (ok tt, f d)

abbrev pub has_bit : ℕ → ℕ → Bool
has_bit v n = not (bit_and v (2 ^ n) == 0)

-- Bits of STATUS.
abbrev pub rx_dr : ℕ
rx_dr = 6

abbrev pub tx_ds : ℕ
tx_ds = 5

abbrev pub max_rt : ℕ
max_rt = 4

abbrev pub pwr_up : ℕ
pwr_up = 1

abbrev pub max_payload : ℕ
max_payload = 32

-- Both bits of a transmission that is over.
abbrev pub tx_bits : ℕ
tx_bits = 2 ^ tx_ds + 2 ^ max_rt

-- What the switch of `set_mode_locked` sets of PWR_UP and PRIM_RX.
abbrev pub mode_bits : Mode → ℕ
mode_bits prx = 3
mode_bits ptx = 2
mode_bits standby = 2
mode_bits power_down = 0

abbrev pub is_prx : Mode → Bool
is_prx prx = true
is_prx ptx = false
is_prx standby = false
is_prx power_down = false

abbrev pub is_power_down : Mode → Bool
is_power_down power_down = true
is_power_down ptx = false
is_power_down prx = false
is_power_down standby = false

abbrev bus_answer : ℕ ⊎ List ℕ → Ret (List ℕ)
bus_answer (inl c) = err (of_bus c)
bus_answer (inr rx) = ok rx

module _ {W : Type 0} (bus : Bus W) where
  pub nrf24_xfer : List ℕ → Io W (List ℕ)
  nrf24_xfer tx d = let (r, w) = bus.transceive tx d.world in (bus_answer r, record d { world = w })

  pub reg_read_locked : ℕ → Io W ℕ
  reg_read_locked reg = do
    rx ← nrf24_xfer (bit_or Spi.r_register (bit_and reg 0x1F) ∷ Spi.nop ∷ [])
    pure (get_or rx 1 0)

  pub reg_write_locked : ℕ → ℕ → Io W (Unit {0})
  reg_write_locked reg v = do
    rx ← nrf24_xfer (bit_or Spi.w_register (bit_and reg 0x1F) ∷ v ∷ [])
    pure tt

  reg_read_multi_locked : ℕ → ℕ → Io W (List ℕ)
  reg_read_multi_locked reg len d =
      if len == 0 || ltb max_payload len
      then (err einval, d)
      else (do
        rx ← nrf24_xfer (bit_or Spi.r_register (bit_and reg 0x1F) ∷ replicate len 0)
        pure (take len (drop 1 rx)))
          d

  pub reg_write_multi_locked : ℕ → List ℕ → Io W (Unit {0})
  reg_write_multi_locked reg buf d =
      if length buf == 0 || ltb max_payload (length buf)
      then (err einval, d)
      else (do rx ← nrf24_xfer (bit_or Spi.w_register (bit_and reg 0x1F) ∷ buf); pure tt) d

  pub cmd_locked : ℕ → Io W (Unit {0})
  cmd_locked cmd = do rx ← nrf24_xfer (cmd ∷ []); pure tt

  pub read_rx_pl_wid_locked : Io W ℕ
  read_rx_pl_wid_locked = do rx ← nrf24_xfer (Spi.r_rx_pl_wid ∷ Spi.nop ∷ []); pure (get_or rx 1 0)

  pub read_rx_payload_locked : ℕ → Io W (List ℕ)
  read_rx_payload_locked len = do
    rx ← nrf24_xfer (Spi.r_rx_payload ∷ replicate len Spi.nop)
    pure (take len (drop 1 rx))

  pub write_tx_payload_locked : List ℕ → Io W (Unit {0})
  write_tx_payload_locked buf = do rx ← nrf24_xfer (Spi.w_tx_payload ∷ buf); pure tt

  -- With the wait for the oscillator where the chip was off.
  pub set_mode_locked : Mode → Io W (Unit {0})
  set_mode_locked mode = do
    config ← reg_read_locked Reg.config
    reg_write_locked Reg.config (bit_or (bit_and config 0xFC) (mode_bits mode))
    act (λ w. if has_bit config pwr_up || is_power_down mode then w else bus.sleep_us 2000 w)
    act (bus.set_ce (is_prx mode))
    change (λ d. record d { mode = mode })
