-- ===== src/Nrf24/Chip.antt =====
-- A radio chip that answers: what the driver's theorems take for granted of it, and what the change
-- of mode then does.
use zephyr_app.Common.{
  Bool, List, [], bit_and, bit_or, false, get_or, if_both, if◌then◌else◌, inr, refl, ℕ, ◌==◌, ◌||◌,
  ◌∙◌, ◌∷◌, ◌≡◌,
}
use zephyr_app.Nrf24.{
  Bus, Dev, Mode, has_bit, is_power_down, is_prx, mode_bits, nrf24_xfer, ok, pwr_up,
  reg_read_locked, reg_write_locked, set_mode_locked,
}
use zephyr_app.Nrf24.Spi

-- No exchange fails; `config` is the register CONFIG and `ce` the pin. The register is written by its
-- write command and read by its read command, and nothing else touches it.
pub record Chip {W : Type 0} (bus : Bus W) : Type 0 where
  pub config : W → ℕ
  pub ce : W → Bool
  pub reply : List ℕ → W → List ℕ
  pub after : List ℕ → W → W
  pub answers : (tx : List ℕ) (w : W) → bus.transceive tx w ≡ (inr (reply tx w), after tx w)
  pub reads : (w : W) → get_or (reply (0x00 ∷ 0xFF ∷ []) w) 1 0 ≡ config w
  pub writes : (v : ℕ) (w : W) → config (after (0x20 ∷ v ∷ []) w) ≡ v
  pub spares :
      (c : ℕ) (bytes : List ℕ) (w : W)
      → (c == 0x20) ≡ false
      → config (after (c ∷ bytes) w) ≡ config w
  pub after_ce : (tx : List ℕ) (w : W) → ce (after tx w) ≡ ce w
  pub sets_ce : (b : Bool) (w : W) → ce (bus.set_ce b w) ≡ b
  pub ce_config : (b : Bool) (w : W) → config (bus.set_ce b w) ≡ config w
  pub sleep_ce : (t : ℕ) (w : W) → ce (bus.sleep_us t w) ≡ ce w
  pub sleep_config : (t : ℕ) (w : W) → config (bus.sleep_us t w) ≡ config w

-- What CONFIG holds in a mode, where it held `v` before.
abbrev pub moded : Mode → ℕ → ℕ
moded mode v = bit_or (bit_and v 0xFC) (mode_bits mode)

module _ {W : Type 0} (bus : Bus W) (chip : Chip bus) where
  pub nrf24_xfer-ok :
      (tx : List ℕ) (d : Dev W)
      → nrf24_xfer bus tx d
        ≡ (ok (chip.reply tx d.world), record d { world = chip.after tx d.world })
  unfolding nrf24_xfer
  nrf24_xfer-ok tx d = rw (chip.answers tx d.world) refl

  -- The state of the bus from the new mode's CONFIG on.
  pub moved : Mode → W → W
  moved mode w =
      let read = chip.after (Spi.r_register ∷ Spi.nop ∷ []) w in
      let written = chip.after (Spi.w_register ∷ moded mode (chip.config w) ∷ []) read in
      let slept =
        if has_bit (chip.config w) pwr_up || is_power_down mode
        then written
        else bus.sleep_us 2000 written in
      bus.set_ce (is_prx mode) slept

  pub set_mode_locked-ok :
      (mode : Mode) (d : Dev W)
      → set_mode_locked bus mode d ≡ (ok tt, record d { world = moved mode d.world; mode = mode })
  unfolding set_mode_locked reg_read_locked reg_write_locked moved
  set_mode_locked-ok mode d = rw (nrf24_xfer-ok (Spi.r_register ∷ Spi.nop ∷ []) d) (
      rw (chip.reads d.world) (
        rw
          (nrf24_xfer-ok (Spi.w_register ∷ moded mode (chip.config d.world) ∷ [])
            (record d { world = chip.after (Spi.r_register ∷ Spi.nop ∷ []) d.world }))
          refl))

  pub moved-config : (mode : Mode) (w : W) → chip.config (moved mode w) ≡ moded mode (chip.config w)
  unfolding moved
  moved-config mode w =
      let read = chip.after (Spi.r_register ∷ Spi.nop ∷ []) w in
      let v = moded mode (chip.config w) in
      let written = chip.after (Spi.w_register ∷ v ∷ []) read in
      chip.ce_config (is_prx mode) _
      ∙ if_both (λ t. chip.config t ≡ v) (has_bit (chip.config w) pwr_up || is_power_down mode)
          written (bus.sleep_us 2000 written) (λ e. chip.writes v read)
          (λ e. chip.sleep_config 2000 written ∙ chip.writes v read)

  pub moved-ce : (mode : Mode) (w : W) → chip.ce (moved mode w) ≡ is_prx mode
  unfolding moved
  moved-ce mode w = chip.sets_ce (is_prx mode) _
