-- ===== src/Nrf24/Receive.antt =====
-- Receiving in nrf24l01p.c: one pass of nrf24_irq_thread, and nrf24_recv.
pub mod Callback
use zephyr_app.Common.{
  Bool, List, Option, [], false, if◌then◌else◌, ltb, min, none, some, suc, take, true, zero, ℕ,
  ◌++◌, ◌^◌, ◌||◌, ◌∷◌,
}
use zephyr_app.Nrf24.{
  Bus, Dev, Io, Ret, caught, change, cmd_locked, eagain, enotsup, err, has_bit, ignored, is_prx,
  max_payload, max_rt, ok, prx, pure, read_rx_payload_locked, read_rx_pl_wid_locked,
  reg_read_locked, reg_write_locked, rx_dr, set_mode_locked, tx_bits, tx_ds, ◌>>=◌, ◌>>◌,
}
use zephyr_app.Nrf24.Setup.{Config, dynamic, fixed, parse_payload_mode}
use zephyr_app.Nrf24.Reg
use zephyr_app.Nrf24.Spi

pub nrf24_add_rx_msgq : {W : Type 0} → ℕ → Dev W → Dev W
nrf24_add_rx_msgq q d = record d { rx_msgq = some q; rx_cb = false }

pub nrf24_add_rx_callback : {W : Type 0} → Dev W → Dev W
nrf24_add_rx_callback d = record d { rx_msgq = none; rx_cb = true }

-- What a call read, or what its variable held before.
abbrev pub or_else : {A : Type 0} → A → Ret A → A
or_else before (ok a) = a
or_else before (err c) = before

module _ {W : Type 0} (bus : Bus W) where
  -- To the user's queue or the driver's own, and else to the callback. An empty frame goes nowhere.
  pub deliver : List ℕ → Dev W → Dev W
  deliver [] d = d
  deliver (c ∷ frame) d = elim d.rx_msgq [
    | some q ↦ record d { world = bus.msgq_put q (c ∷ frame) d.world }
    | none ↦ elim d.fallback_msgq [
      | some q ↦ record d { world = bus.msgq_put q (c ∷ frame) d.world }
      | none ↦ if d.rx_cb then record d { called = d.called ++ ((c ∷ frame) ∷ []) } else d
    ]
  ]

  abbrev read_frame : ℕ → Io W (List ℕ)
  read_frame plen = do bytes ← caught (read_rx_payload_locked bus plen); pure (or_else [] bytes)

  -- A transmission that is over wakes the sender.
  pub tx_check : ℕ → Io W (Unit {0})
  tx_check status =
      let over : Io W (Unit {0}) = (do
        change (λ d. record d { last_status = status })
        seen ← caught (reg_read_locked bus Reg.observe_tx)
        change (λ d. record d { last_observe_tx = or_else d.last_observe_tx seen })
        ignored (reg_write_locked bus Reg.status tx_bits)
        change (λ d. record d { tx_done = true })) in
      if has_bit status tx_ds || has_bit status max_rt then over else pure tt

  nrf24_rx_ready : Io W Bool
  nrf24_rx_ready = do
    status ← caught (reg_read_locked bus Reg.status)
    pure (has_bit (or_else 0 status) rx_dr)

  -- A frame of the driver's queue; what comes while it waits is a pass of the thread before.
  pub nrf24_recv : ℕ → Io W (List ℕ)
  nrf24_recv max_len =
      let take_frame : Io W (List ℕ) = (λ d. elim d.fallback_msgq [
        | none ↦ (err enotsup, d)
        | some q ↦
            let (got, w) = bus.msgq_get q d.world in
            (
              elim got as (λ _. Ret (List ℕ)) [ none ↦ err eagain | some f ↦ ok (take max_len f) ],
              record d { world = w },
            )
      ]) in
      λ d. if is_prx d.mode then take_frame d else (do set_mode_locked bus prx; take_frame) d

module _ {W : Type 0} (bus : Bus W) (cfg : Config) where
  -- The frame, empty where it could not be read.
  pub fetch_rx_payload_locked : Io W (List ℕ)
  fetch_rx_payload_locked = elim (parse_payload_mode cfg.payload_mode) [
    | fixed ↦ read_frame bus (min cfg.rx_payload_width max_payload)
    | dynamic ↦ do
      wid ← caught (read_rx_pl_wid_locked bus)
      elim wid [
        | err c ↦ pure []
        | ok plen ↦
            if ltb max_payload plen
            then (do ignored (cmd_locked bus Spi.flush_rx); pure [])
            else read_frame bus plen
      ]
  ]

  -- The loop over received frames, and the last STATUS: none where it goes on after `fuel` passes. A
  -- status that cannot be read stays what it was.
  pub rx_loop : ℕ → ℕ → Io W (Option ℕ)
  rx_loop zero status = if has_bit status rx_dr then pure none else pure (some status)
  rx_loop (suc fuel) status =
      let more : Io W (Option ℕ) = (do
        frame ← fetch_rx_payload_locked
        ignored (cmd_locked bus Spi.flush_rx)
        ignored (reg_write_locked bus Reg.status (2 ^ rx_dr))
        change (deliver bus frame)
        next ← caught (reg_read_locked bus Reg.status)
        rx_loop fuel (or_else status next)) in
      if has_bit status rx_dr then more else pure (some status)

  -- What a pass of the thread does under the lock; `stack` is what stands in `status` before.
  pub locked_pass : ℕ → ℕ → Io W (Option ℕ)
  locked_pass fuel stack = do
    seen ← caught (reg_read_locked bus Reg.status)
    tx_check bus (or_else stack seen)
    last ← rx_loop fuel (or_else stack seen)
    elim last [ none ↦ pure none | some status ↦ do tx_check bus status; pure (some status) ]

  -- A pass of the thread from where its wait is over.
  pub irq_pass : ℕ → ℕ → Io W (Option ℕ)
  irq_pass fuel stack d = if d.ready then locked_pass fuel stack d else (ok (some stack), d)
