-- ===== src/Nrf24/Send/Restore.antt =====
-- What nrf24_send tells, and that the radio listens again after it.
use zephyr_app.Common.{
  Bool, List, Option, [], ap, arith, bit_and, bit_or, bit_or_step, false, if◌then◌else◌, none, refl,
  some, true, ℕ, ◌%◌, ◌/◌, ◌∙◌, ◌∷◌, ◌≡◌,
}
use zephyr_app.Nrf24.{
  Bus, Dev, Ret, bind_from, cmd_locked, eagain, eio, err, has_bit, ignored, max_rt, ok, prx, ptx,
  pure, reg_write_locked, set_mode_locked, tx_bits, write_tx_payload_locked, ◌>>◌,
}
use zephyr_app.Nrf24.Send.{Sent, ended, is_empty_or_long, nrf24_send, on_air, timed_out}
use zephyr_app.Nrf24.Chip.{
  Chip, moded, moved, moved-ce, moved-config, nrf24_xfer-ok, set_mode_locked-ok,
}
use zephyr_app.Nrf24.Reg
use zephyr_app.Nrf24.Spi

-- The chip transmits: the state in which the driver waits. In CONFIG, whose value was `config` before,
-- PWR_UP is set and PRIM_RX clear, and the bits above them are as they were; CE is high.
abbrev pub IsOnAir : {W : Type 0} (bus : Bus W) → Chip bus → ℕ → Dev W → Type 0
IsOnAir bus chip config d =
    (d.mode ≡ ptx)
    × (d.tx_done ≡ false)
    × (chip.ce d.world ≡ true)
    × (chip.config d.world ≡ bit_or (bit_and config 0xFC) 0x02)

-- The chip receives: PWR_UP and PRIM_RX are set, and CE is high.
abbrev pub IsListening : {W : Type 0} (bus : Bus W) → Chip bus → Dev W → Type 0
IsListening bus chip d = (d.mode ≡ prx) × (chip.ce d.world ≡ true) × (chip.config d.world % 4 ≡ 3)

-- What there is to tell of a transmission, by whether the wait ended in time and by the status that
-- the thread has left: the return, whether it was acknowledged, and how often it was repeated.
abbrev pub verdict : {W : Type 0} → Bool × Dev W → Ret (Unit {0}) × Bool × ℕ
verdict (false, d) = (err eagain, false, 0)
verdict (true, d) =
    if has_bit d.last_status max_rt
    then (err eio, false, bit_and d.last_observe_tx 0x0F)
    else (ok tt, true, bit_and d.last_observe_tx 0x0F)

abbrev told : Sent → Option (Ret (Unit {0}) × Bool × ℕ)
told s = elim s.result [ none ↦ none | some r ↦ some (s.ret, r.acked, r.retransmits) ]

abbrev pub told_of : Ret Sent → Option (Ret (Unit {0}) × Bool × ℕ)
told_of (ok s) = told s
told_of (err c) = none

moded-prx : (v : ℕ) → moded prx v % 4 ≡ 3
moded-prx v = omega (arith, bit_or_step (bit_and v 0xFC) 3, bit_or_step (bit_and v 0xFC / 2) 1)

module _ {W : Type 0} (bus : Bus W) (chip : Chip bus) where
  restored : (d : Dev W) → IsListening bus chip (ignored (set_mode_locked bus prx) d).1
  restored d = rw (set_mode_locked-ok bus chip prx d) (
    refl,
    moved-ce bus chip prx d.world,
    ap (λ (v : ℕ). v % 4) (moved-config bus chip prx d.world) ∙ moded-prx (chip.config d.world),
  )

  -- The state when the payload is in the chip, and when the pulse on CE has begun.
  loaded : Dev W → List ℕ → Dev W
  loaded d bytes =
      let ready = moved bus chip ptx d.world in
      let flushed = chip.after (0xE1 ∷ []) ready in
      let cleared = chip.after (0x27 ∷ 0x30 ∷ []) flushed in
      record d { world = chip.after (0xA0 ∷ bytes) cleared; tx_done = false; mode = ptx }

  pub sending : Dev W → List ℕ → Dev W
  sending d bytes =
      let e = loaded d bytes in record e { world = bus.sleep_us 15 (bus.set_ce true e.world) }

  sending-IsOnAir :
      (d : Dev W) (bytes : List ℕ) → IsOnAir bus chip (chip.config d.world) (sending d bytes)
  unfolding sending loaded
  sending-IsOnAir d bytes =
      let ready = moved bus chip ptx d.world in
      let flushed = chip.after (Spi.flush_tx ∷ []) ready in
      let clear = tx_bits ∷ [] in
      let cleared = chip.after (39 ∷ clear) flushed in
      let full = chip.after (Spi.w_tx_payload ∷ bytes) cleared in
      let on = bus.set_ce true full in
      (
        refl,
        refl,
        chip.sleep_ce 15 on ∙ chip.sets_ce true full,
        chip.sleep_config 15 on
            ∙ chip.ce_config true full
            ∙ chip.spares Spi.w_tx_payload bytes cleared refl
            ∙ chip.spares 39 clear flushed refl
            ∙ chip.spares Spi.flush_tx [] ready refl
            ∙ moved-config bus chip ptx d.world,
      )

  on_air-told :
      (wait : Dev W → Bool × Dev W) (d : Dev W)
      → told_of (on_air bus wait d).0
        ≡ some (verdict (wait (record d { world = bus.sleep_us 15 (bus.set_ce true d.world) })))
  unfolding on_air ended timed_out
  on_air-told wait d = ground arith

  -- The end of a transmission of which something was told.
  listening :
      (out : Ret Sent × Dev W) (v : Ret (Unit {0}) × Bool × ℕ)
      → told_of out.0 ≡ some v
      → let last = bind_from (λ s. ignored (set_mode_locked bus prx) >> pure s) out.0 out.1 in
        (told_of last.0 ≡ some v) × IsListening bus chip last.1
  listening (ok s, d) v e = (e, restored d)
  listening (err c, d) v e = absurd (cc (e))

  -- With a payload of a length that it takes, nrf24_send is the transmission and the way back.
  sends :
      (wait : Dev W → Bool × Dev W) (bytes : List ℕ) (d : Dev W)
      → is_empty_or_long bytes ≡ false
      → nrf24_send bus wait bytes d ≡ (
          let out = on_air bus wait (loaded d bytes) in
          bind_from (λ s. ignored (set_mode_locked bus prx) >> pure s) out.0 out.1)
  unfolding nrf24_send cmd_locked reg_write_locked write_tx_payload_locked loaded
  sends wait bytes d h =
      let begun = record d { tx_done = false } in
      let ready = record begun { world = moved bus chip ptx d.world; mode = ptx } in
      let flushed = record ready { world = chip.after (Spi.flush_tx ∷ []) ready.world } in
      let clear = bit_or Spi.w_register Reg.status ∷ tx_bits ∷ [] in
      let cleared = record flushed { world = chip.after clear flushed.world } in
      rw h (
        rw (set_mode_locked-ok bus chip ptx begun) (
          rw (nrf24_xfer-ok bus chip (Spi.flush_tx ∷ []) ready) (
            rw (nrf24_xfer-ok bus chip clear flushed)
              (rw (nrf24_xfer-ok bus chip (Spi.w_tx_payload ∷ bytes) cleared) refl))))

  -- A payload of 1 to 32 bytes, on a chip that answers: the driver waits with CE high, PWR_UP set and
  -- PRIM_RX clear in CONFIG and the bits above them as they were, after the payload was loaded;
  -- whatever happens while it waits, and whether it waits in vain, what nrf24_send tells is the verdict
  -- on that; and in the end the chip receives again.
  pub nrf24_send_lem :
      (wait : Dev W → Bool × Dev W) (bytes : List ℕ) (d : Dev W)
      → is_empty_or_long bytes ≡ false
      → IsOnAir bus chip (chip.config d.world) (sending d bytes)
        × (told_of (nrf24_send bus wait bytes d).0 ≡ some (verdict (wait (sending d bytes))))
        × IsListening bus chip (nrf24_send bus wait bytes d).1
  unfolding sending
  nrf24_send_lem wait bytes d h =
      let last =
        listening _ (verdict (wait (sending d bytes))) (on_air-told wait (loaded d bytes)) in
      rw (sends wait bytes d h) (sending-IsOnAir d bytes, last.0, last.1)
