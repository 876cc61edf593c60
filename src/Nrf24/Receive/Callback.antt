-- ===== src/Nrf24/Receive/Callback.antt =====
-- The callback of nrf24_add_rx_callback.
use zephyr_app.Common.{
  Bool, List, Option, [], arith, false, if_both, if◌then◌else◌, ltb, min, none, refl, some, suc,
  true, zero, ℕ, ◌^◌, ◌||◌, ◌≡◌,
}
use zephyr_app.Nrf24.{
  Bus, Dev, Io, Ret, caught, change, cmd_locked, err, has_bit, ignored, max_payload, max_rt, ok,
  pure, read_rx_pl_wid_locked, reg_read_locked, reg_write_locked, rx_dr, tx_bits, tx_ds, ◌>>=◌,
  ◌>>◌,
}
use zephyr_app.Nrf24.Reg
use zephyr_app.Nrf24.Spi
use zephyr_app.Nrf24.Setup.{Config, PayloadMode, dynamic, fixed, parse_payload_mode}
use zephyr_app.Nrf24.Receive.{
  deliver, fetch_rx_payload_locked, irq_pass, locked_pass, nrf24_add_rx_callback, or_else,
  read_frame, rx_loop, tx_check,
}
use zephyr_app.Nrf24.Kept.{
  Kept, bind-Kept, caught-Kept, change-Kept, cmd_locked-Kept, if-Kept, ignored-Kept, pure-Kept,
  read_rx_payload_locked-Kept, read_rx_pl_wid_locked-Kept, reg_read_locked-Kept,
  reg_write_locked-Kept,
}

-- The device has its queue, and the callback was called with `frames`.
abbrev Quiet : {W : Type 0} → List (List ℕ) → Dev W → Type 0
Quiet frames d =
    (d.called ≡ frames) × (elim d.fallback_msgq [ none ↦ false | some q ↦ true ] ≡ true)

module _ {W : Type 0} (bus : Bus W) (cfg : Config) (frames : List (List ℕ)) where
  blind : (d : Dev W) (w : W) → Quiet frames d → Quiet frames (record d { world = w })
  blind d w q = q

  deliver-Quiet : (frame : List ℕ) (d : Dev W) → Quiet frames d → Quiet frames (deliver bus frame d)
  unfolding deliver
  deliver-Quiet frame d q = ground arith

  Calm : {A : Type 0} → Io W A → Type 0
  Calm m = Kept (Quiet frames) m

  bind-Calm :
      {A B : Type 0} (m : Io W A) (f : A → Io W B)
      → Calm m
      → ((a : A) → Calm (f a))
      → Calm (m >>= f)
  unfolding Calm
  bind-Calm m f h k = bind-Kept (Quiet frames) m f h k

  unseen : {A : Type 0} (m : Io W A) → Calm m → Calm (caught m)
  unfolding Calm
  unseen m h = caught-Kept (Quiet frames) m h

  -- What SPI does, the result looked at or not.
  read-Calm : (reg : ℕ) → Calm (caught (reg_read_locked bus reg))
  unfolding Calm
  read-Calm reg = unseen _ (reg_read_locked-Kept (Quiet frames) bus blind reg)

  write-Calm : (reg v : ℕ) → Calm (ignored (reg_write_locked bus reg v))
  unfolding Calm
  write-Calm reg v =
      ignored-Kept (Quiet frames) _ (reg_write_locked-Kept (Quiet frames) bus blind reg v)

  cmd-Calm : (cmd : ℕ) → Calm (ignored (cmd_locked bus cmd))
  unfolding Calm
  cmd-Calm cmd = ignored-Kept (Quiet frames) _ (cmd_locked-Kept (Quiet frames) bus blind cmd)

  pure-Calm : {A : Type 0} (a : A) → Calm (pure a)
  unfolding Calm
  pure-Calm a = pure-Kept (Quiet frames) a

  if-Calm : {A : Type 0} (b : Bool) (m k : Io W A) → Calm m → Calm k → Calm (if b then m else k)
  unfolding Calm
  if-Calm b m k h l = if-Kept (Quiet frames) b m k h l

  change-Calm :
      (f : Dev W → Dev W) → ((d : Dev W) → Quiet frames d → Quiet frames (f d)) → Calm (change f)
  unfolding Calm
  change-Calm f h = change-Kept (Quiet frames) f h

  frame-Calm : (plen : ℕ) → Calm (read_frame bus plen)
  unfolding Calm
  frame-Calm plen =
      bind-Calm _ _ (unseen _ (read_rx_payload_locked-Kept (Quiet frames) bus blind plen))
        (λ bytes. pure-Calm (or_else [] bytes))

  wid-Calm : Calm (read_rx_pl_wid_locked bus)
  unfolding Calm
  wid-Calm = read_rx_pl_wid_locked-Kept (Quiet frames) bus blind

  fetch-Calm : Calm (fetch_rx_payload_locked bus cfg)
  unfolding fetch_rx_payload_locked
  fetch-Calm = by_mode (parse_payload_mode cfg.payload_mode)
    where
      by_width :
          (wid : Ret ℕ)
          → Calm (elim wid as (λ _. Io W (List ℕ)) [
            | err c ↦ pure []
            | ok plen ↦
                if ltb max_payload plen
                then (do ignored (cmd_locked bus Spi.flush_rx); pure [])
                else read_frame bus plen
          ])
      by_width (err c) = pure-Calm []
      by_width (ok plen) =
          if-Calm (ltb max_payload plen) _ _
            (bind-Calm _ _ (cmd-Calm Spi.flush_rx) (λ u. pure-Calm [])) (frame-Calm plen)

      by_mode :
          (m : PayloadMode)
          → Calm (elim m as (λ _. Io W (List ℕ)) [
            | fixed ↦ read_frame bus (min cfg.rx_payload_width max_payload)
            | dynamic ↦ do
              wid ← caught (read_rx_pl_wid_locked bus)
              elim wid [
                | err c ↦ pure []
                | ok plen ↦
                    if ltb max_payload plen
                    then (do ignored (cmd_locked bus Spi.flush_rx); pure [])
                    else read_frame bus plen
              ]
          ])
      by_mode fixed = frame-Calm (min cfg.rx_payload_width max_payload)
      by_mode dynamic = bind-Calm _ _ (unseen _ wid-Calm) by_width

  tx_check-Calm : (status : ℕ) → Calm (tx_check bus status)
  unfolding tx_check
  tx_check-Calm status =
      if-Calm (has_bit status tx_ds || has_bit status max_rt) _ _
        (bind-Calm _ _ (change-Calm (λ d. record d { last_status = status }) (λ d q. q)) (λ u.
          bind-Calm _ _ (read-Calm Reg.observe_tx) (λ seen.
            bind-Calm _ _
              (change-Calm (λ d. record d { last_observe_tx = or_else d.last_observe_tx seen })
                (λ d q. q))
              (λ v.
                bind-Calm _ _ (write-Calm Reg.status tx_bits)
                  (λ w. change-Calm (λ d. record d { tx_done = true }) (λ d q. q))))))
        (pure-Calm tt)

  rx_loop-Calm : (fuel status : ℕ) → Calm (rx_loop bus cfg fuel status)
  unfolding rx_loop
  rx_loop-Calm zero status =
      if-Calm (has_bit status rx_dr) _ _ (pure-Calm none) (pure-Calm (some status))
  rx_loop-Calm (suc fuel) status =
      if-Calm (has_bit status rx_dr) _ _
        (bind-Calm _ _ fetch-Calm (λ frame. bind-Calm _ _ (cmd-Calm Spi.flush_rx) (λ u.
          bind-Calm _ _ (write-Calm Reg.status (2 ^ rx_dr)) (λ v.
            bind-Calm _ _ (change-Calm (deliver bus frame) (deliver-Quiet frame)) (λ w.
              bind-Calm _ _ (read-Calm Reg.status)
                (λ next. rx_loop-Calm fuel (or_else status next)))))))
        (pure-Calm (some status))

  locked_pass-Calm : (fuel stack : ℕ) → Calm (locked_pass bus cfg fuel stack)
  unfolding locked_pass
  locked_pass-Calm fuel stack = bind-Calm _ _ (read-Calm Reg.status) (λ seen.
      bind-Calm _ _ (tx_check-Calm (or_else stack seen))
        (λ u. bind-Calm _ _ (rx_loop-Calm fuel (or_else stack seen)) last-Calm))
    where
      last-Calm :
          (last : Option ℕ)
          → Calm (elim last as (λ _. Io W (Option ℕ)) [
            | none ↦ pure none
            | some status ↦ do tx_check bus status; pure (some status)
          ])
      last-Calm none = pure-Calm {A = Option ℕ} none
      last-Calm (some status) = bind-Calm _ _ (tx_check-Calm status) (λ u. pure-Calm (some status))

  irq_pass-Quiet :
      (fuel stack : ℕ) (d : Dev W) → Quiet frames d → Quiet frames (irq_pass bus cfg fuel stack d).1
  unfolding irq_pass Calm Kept
  irq_pass-Quiet fuel stack d q =
      if_both (λ out. Quiet frames out.1) d.ready (locked_pass bus cfg fuel stack d)
        (ok (some stack), d) (λ e. locked_pass-Calm fuel stack d q) (λ e. q)

-- Where the driver has its own queue, as `NRF24_DEVICE` gives it, the callback that was added is
-- never called: a pass of the thread leaves the calls as they are, whatever SPI does and whatever
-- frames come in.
pub callback_unheard :
    {W : Type 0} (bus : Bus W) (cfg : Config) (q : ℕ) (fuel stack : ℕ) (d : Dev W)
    → d.fallback_msgq ≡ some q
    → (irq_pass bus cfg fuel stack (nrf24_add_rx_callback d)).1.called ≡ d.called
unfolding nrf24_add_rx_callback
callback_unheard bus cfg q fuel stack d e =
    (irq_pass-Quiet bus cfg d.called fuel stack _ (refl, rw e refl)).0
