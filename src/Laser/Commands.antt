-- ===== src/Laser/Commands.antt =====
-- What the CAN commands can do to the registers.
use zephyr_app.Common.{List, false, if_both, not, refl, true, ℕ, ◌==◌, ◌||◌, ◌≡◌}
use zephyr_app.Zephyr.{CanFrame}
use zephyr_app.Laser.{
  Action, Laser, Parts, cob_id1, cob_id2, laser_canrx_msg_handler, laser_ctrl,
  laser_flash_read_mode, laser_flash_write, laser_flash_write_mode, register_of,
}
use zephyr_app.Laser.Cob

module _ {S : Type 0} (io : Parts S) where
  -- Neither the registers nor their being loaded change.
  abbrev pub IsKept : Laser S → Laser S × List Action → Type 0
  IsKept l out = (out.0.laser_regs ≡ l.laser_regs) × (out.0.inited ≡ true)

  mode-IsKept :
      (l : Laser S)
      → l.inited ≡ true
      → ((laser_flash_read_mode io l).0.laser_regs ≡ l.laser_regs)
        × ((laser_flash_read_mode io l).0.inited ≡ true)
        × ((laser_flash_write_mode io l).0.laser_regs ≡ l.laser_regs)
        × ((laser_flash_write_mode io l).0.inited ≡ true)
  unfolding laser_flash_read_mode laser_flash_write_mode
  mode-IsKept l i = rw i (refl, refl, refl, refl)

  laser_ctrl-IsKept : (l : Laser S) (arg : ℕ) → l.inited ≡ true → IsKept l (laser_ctrl io l arg)
  unfolding laser_ctrl
  laser_ctrl-IsKept l arg i =
      if_both (IsKept l) (arg == 1) _ _
        (λ e. if_both (IsKept l) (io.laser_on l.parts).1 _ _ (λ e. (refl, i)) (λ e. (refl, i)))
        (λ e.
          if_both (IsKept l) (arg == 0) _ _
            (λ e.
              if_both (IsKept l) (io.is_measuring l.parts) _ _ (λ e. (refl, i)) (λ e. (refl, i)))
            (λ e. (refl, i)))

  cob_id1-IsKept : (l : Laser S) (cmd arg : ℕ) → l.inited ≡ true → IsKept l (cob_id1 io l cmd arg)
  unfolding cob_id1
  cob_id1-IsKept l cmd arg i =
      let (read_regs, read_inited, write_regs, write_inited) = mode-IsKept l i in
      if_both (IsKept l) (cmd == Cob.read_conword) _ _ (λ e. (refl, i))
        (λ e.
          if_both (IsKept l) (cmd == Cob.write_conword || cmd == Cob.write_conword_new) _ _
            (λ e. (refl, i))
            (λ e.
              if_both (IsKept l) (cmd == Cob.read_xaxis_realval) _ _ (λ e. (refl, i))
                (λ e.
                  if_both (IsKept l) (cmd == Cob.read_yaxis_realval) _ _ (λ e. (refl, i))
                    (λ e.
                      if_both (IsKept l) (cmd == Cob.read_xaxis) _ _ (λ e. (refl, i))
                        (λ e.
                          if_both (IsKept l) (cmd == Cob.read_yaxis) _ _ (λ e. (refl, i))
                            (λ e.
                              if_both (IsKept l) (cmd == Cob.write_xaxis) _ _ (λ e. (refl, i))
                                (λ e.
                                  if_both (IsKept l) (cmd == Cob.write_yaxis) _ _ (λ e. (refl, i))
                                    (λ e.
                                      if_both (IsKept l) (cmd == Cob.read_system_status) _ _
                                        (λ e. (read_regs, read_inited))
                                        (λ e.
                                          if_both (IsKept l)
                                            (cmd == Cob.write_system_status
                                              || cmd == Cob.write_system_status_new)
                                            _ _ (λ e. (write_regs, write_inited))
                                            (λ e.
                                              if_both (IsKept l)
                                                (cmd == Cob.laser_ctrl || cmd == Cob.laser_ctrl_new)
                                                _ _ (λ e. laser_ctrl-IsKept l arg i)
                                                (λ e.
                                                  if_both (IsKept l)
                                                    (cmd == Cob.peroid_conf
                                                      || cmd == Cob.peroid_confn)
                                                    _ _ (λ e. (refl, i))
                                                    (λ e.
                                                      if_both (IsKept l) (cmd == Cob.peroid_get) _ _
                                                        (λ e. (refl, i))
                                                        (λ e. (refl, i))))))))))))))

  laser_flash_write_blocked :
      (l : Laser S) (a v : ℕ)
      → (not l.write_mode || l.fw_updating) ≡ true
      → laser_flash_write io l a v ≡ (l, false)
  unfolding laser_flash_write
  laser_flash_write_blocked l a v b = rw b refl

  cob_id2-IsKept :
      (l : Laser S) (op low tens val stale : ℕ)
      → l.inited ≡ true
      → (not l.write_mode || l.fw_updating) ≡ true
      → IsKept l (cob_id2 io l op low tens val stale)
  unfolding cob_id2
  cob_id2-IsKept l op low tens val stale i b =
      let a = register_of low tens in
      let unchanged = laser_flash_write_blocked l a val b in
      if_both (IsKept l) (op == 0x22) _ _ (λ e. rw unchanged (refl, i))
        (λ e. if_both (IsKept l) (op == 0x40) _ _ (λ e. (refl, i)) (λ e. (refl, i)))

  -- Once the registers are loaded, no frame whatever changes them while the controller is not in
  -- write mode or updates its firmware, and none unloads them.
  pub laser_canrx_msg_handler-IsKept :
      (stale : ℕ) (l : Laser S) (frame : CanFrame)
      → l.inited ≡ true
      → (not l.write_mode || l.fw_updating) ≡ true
      → IsKept l (laser_canrx_msg_handler io stale l frame)
  unfolding laser_canrx_msg_handler
  laser_canrx_msg_handler-IsKept stale l frame i b =
      if_both (IsKept l) (frame.id == Cob.cob_id1_rx) _ _ (λ e. cob_id1-IsKept l _ _ i)
        (λ e.
          if_both (IsKept l) (frame.id == Cob.cob_id2_rx) _ _
            (λ e. cob_id2-IsKept l _ _ _ _ stale i b)
            (λ e.
              if_both (IsKept l) (frame.id == Cob.platform_rx || frame.id == Cob.fw_data_rx) _ _
                (λ e. (refl, i)) (λ e. (refl, i))))
