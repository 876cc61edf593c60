-- ===== src/Laser/Firmware.antt =====
-- The firmware upgrade of the laser controller, applications/laser_ctrl/src/firmware.c.
pub mod Transfer
use zephyr_app.Common.{
  Bool, Bool-cases, List, [], arith, false, if_both, if◌then◌else◌, inl, inr, not, refl, take, true,
  u32, ℕ, ◌%◌, ◌&&◌, ◌++◌, ◌+◌, ◌==◌, ◌∷◌, ◌≡◌,
}
use zephyr_app.Zephyr.{CanFrame, Dlc, Slot, data_32}
use zephyr_app.Laser.Cob

-- `msg` with the state of its image writer and slot, and the bit LASER_FW_UPDATE.
pub record Firmware (S : Type 0) : Type 0 where
  pub slot : S
  pub total_size : ℕ
  pub offset : ℕ
  pub updating : Bool

-- An answer of `fw_can_recevie`, `boot_request_upgrade`, a reboot.
pub data Effect : Type 0 where
  fw_can_recevie : ℕ → ℕ → Effect
  boot_request_upgrade : ℕ → Effect
  sys_reboot : Effect

module _ {S : Type 0} (io : Slot S) (flatten : S → ℕ × S) (dlc : Dlc)
    (app_version fpga_version : ℕ) where
  pub start_update : Firmware S → CanFrame → Firmware S × List Effect
  start_update m frame =
      let failed = fw_can_recevie Cob.flash_error 0 ∷ [] in
      let (ret, ready) = io.img_init m.slot in
      let (err, erased) = flatten ready in
      if not (dlc.to_bytes frame.dlc == 8)
      then (record m { updating = false }, failed)
      else if not (ret == 0)
      then (record { slot = ready; total_size = 0; offset = 0; updating = false }, failed)
      else if not (err == 0)
      then (record { slot = erased; total_size = 0; offset = 0; updating = false }, failed)
      else (
        record { slot = erased; total_size = data_32 frame 1; offset = 0; updating = true },
        fw_can_recevie Cob.offset 0 ∷ [],
      )

  pub confirm : Firmware S → CanFrame → Firmware S × List Effect
  confirm m frame =
      let flushed = (io.img_write m.slot [] true).1 in
      let requested = (io.boot_request flushed (data_32 frame 1)).1 in
      if not (m.total_size == io.bytes_written flushed)
      then (record m { slot = flushed }, fw_can_recevie Cob.tranfer_error m.offset ∷ [])
      else (
        record m { slot = requested },
        boot_request_upgrade (data_32 frame 1) ∷ fw_can_recevie Cob.confirm 0x55AA55AA ∷ [],
      )

  pub fw_data : Firmware S → CanFrame → Firmware S × List Effect
  fw_data m frame =
      let size = dlc.to_bytes frame.dlc in
      let (ret, slot) = io.img_write m.slot (take size frame.bytes) false in
      let offset = u32 (m.offset + size) in
      let t = record m { slot = slot; offset = offset } in
      if not (ret == 0)
      then (record m { slot = slot; updating = false }, fw_can_recevie Cob.flash_error 0 ∷ [])
      else if offset == m.total_size
      then (record t { updating = false }, fw_can_recevie Cob.update_success m.total_size ∷ [])
      else (t, if offset % 64 == 0 then fw_can_recevie Cob.offset offset ∷ [] else [])

  pub fw_update : Firmware S → CanFrame → Firmware S × List Effect
  fw_update m frame =
      let code = data_32 frame 0 in
      if frame.id == Cob.platform_rx
      then (if code == Cob.board_start_update
          then start_update m frame
          else if code == Cob.board_confirm
          then confirm m frame
          else if code == Cob.board_version
          then (m, fw_can_recevie Cob.version app_version ∷ [])
          else if code == Cob.board_fpga_version
          then (m, fw_can_recevie Cob.fpga_version fpga_version ∷ [])
          else if code == Cob.board_reboot
          then (m, sys_reboot ∷ [])
          else (m, []))
      else if frame.id == Cob.fw_data_rx
      then fw_data m frame
      else (m, [])

  -- the frames one after the other
  pub run : Firmware S → List CanFrame → Firmware S × List Effect
  run m [] = (m, [])
  run m (f ∷ fs) = let (t, done) = fw_update m f in let (u, rest) = run t fs in (u, done ++ rest)

-- the upgrades that are asked for
abbrev pub requests : List Effect → List ℕ
requests [] = []
requests (fw_can_recevie code arg ∷ rest) = requests rest
requests (boot_request_upgrade permanent ∷ rest) = permanent ∷ requests rest
requests (sys_reboot ∷ rest) = requests rest

module _ {S : Type 0} (io : Slot S) (flatten : S → ℕ × S) (dlc : Dlc)
    (app_version fpga_version : ℕ) where
  abbrev step : Firmware S → CanFrame → Firmware S × List Effect
  step = fw_update io flatten dlc app_version fpga_version

  Silent : Firmware S × List Effect → Type 0
  Silent out = requests out.1 ≡ []

  start_update-Silent :
      (m : Firmware S) (frame : CanFrame)
      → Silent (start_update io flatten dlc app_version fpga_version m frame)
  unfolding start_update Silent
  start_update-Silent m frame =
      let ready = (io.img_init m.slot).1 in
      if_both Silent (not (dlc.to_bytes frame.dlc == 8)) _ _ (λ e. refl)
        (λ e.
          if_both Silent (not ((io.img_init m.slot).0 == 0)) _ _ (λ e. refl)
            (λ e. if_both Silent (not ((flatten ready).0 == 0)) _ _ (λ e. refl) (λ e. refl)))

  fw_data-Silent :
      (m : Firmware S) (frame : CanFrame)
      → Silent (fw_data io flatten dlc app_version fpga_version m frame)
  unfolding fw_data Silent
  fw_data-Silent m frame =
      let size = dlc.to_bytes frame.dlc in
      let offset = u32 (m.offset + size) in
      if_both Silent (not ((io.img_write m.slot (take size frame.bytes) false).0 == 0)) _ _
        (λ e. refl)
        (λ e.
          if_both Silent (offset == m.total_size) _ _ (λ e. refl)
            (λ e.
              if_both (λ sent. requests sent ≡ []) (offset % 64 == 0) _ _ (λ e. refl) (λ e. refl)))

  requests-confirm :
      (m : Firmware S) (frame : CanFrame)
      → requests (confirm io flatten dlc app_version fpga_version m frame).1 ≡ (
          if m.total_size == io.bytes_written (io.img_write m.slot [] true).1
          then data_32 frame 1 ∷ []
          else [])
  unfolding confirm
  requests-confirm m frame =
      elim (Bool-cases (m.total_size == io.bytes_written (io.img_write m.slot [] true).1)) [
        | inl e ↦ rw e refl
        | inr e ↦ rw e refl
      ]

  -- An upgrade is asked for by no frame but a confirmation, and by it exactly if the flushed slot
  -- holds as many bytes as were announced; then with the word of the frame.
  pub fw_update_requests :
      (m : Firmware S) (frame : CanFrame)
      → let flushed = (io.img_write m.slot [] true).1 in
        requests (step m frame).1 ≡ (
          if frame.id == Cob.platform_rx
            && data_32 frame 0 == Cob.board_confirm
            && m.total_size == io.bytes_written flushed
          then data_32 frame 1 ∷ []
          else [])
  unfolding fw_update Silent
  fw_update_requests m frame = elim (Bool-cases (frame.id == Cob.platform_rx)) [
    | inr p ↦
        rw p (
          if_both Silent (frame.id == Cob.fw_data_rx) _ _ (λ e. fw_data-Silent m frame) (λ e. refl))
    | inl p ↦ elim (Bool-cases (data_32 frame 0 == Cob.board_confirm)) [
      | inl c ↦
          let no_start : (data_32 frame 0 == Cob.board_start_update) ≡ false = ground (arith, c) in
          rw (p, c, no_start) (requests-confirm m frame)
      | inr c ↦
          rw (p, c)
            (if_both Silent (data_32 frame 0 == Cob.board_start_update) _ _
              (λ e. start_update-Silent m frame)
              (λ e.
                if_both Silent (data_32 frame 0 == Cob.board_version) _ _ (λ e. refl)
                  (λ e.
                    if_both Silent (data_32 frame 0 == Cob.board_fpga_version) _ _ (λ e. refl)
                      (λ e.
                        if_both Silent (data_32 frame 0 == Cob.board_reboot) _ _ (λ e. refl)
                          (λ e. refl)))))
    ]
  ]
