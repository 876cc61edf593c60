-- ===== src/Laser/Tests.antt =====
-- Runs of a controller whose flash takes nothing.
use zephyr_app.Common.{
  Bool, List, [], ap, append-nil, arith, false, if_both, if◌then◌else◌, length, refl, replicate,
  some, true, ℕ, ◌∷◌, ◌≡◌,
}
use zephyr_app.Laser.Firmware.{
  Firmware, boot_request_upgrade, fw_can_recevie, fw_update, fw_update_requests, requests, run,
}
use zephyr_app.Laser.Firmware.Transfer.{Counts, laser_transfer}
use zephyr_app.Zephyr.Ram.{Ram, blank, classic, ram_slot}
use zephyr_app.Laser.{Laser, Parts, cob_id2, cob_msg, laser_canrx_msg_handler, register_of}
use zephyr_app.Zephyr.{CanFrame}
use zephyr_app.Laser.Cob
use zephyr_app.Laser.Commands.{IsKept, laser_canrx_msg_handler-IsKept}
use zephyr_app.Laser.Registers.{Stores, read_after_write}

-- the flash as the registers in it, and whether it takes writes
pub record Area : Type 0 where
  held : List ℕ
  sound : Bool

abbrev bench : Parts Area
bench = record {
  area_open = λ s. true;
  area_read = λ s. some s.held;
  area_flatten = λ s. (s, true);
  area_write = λ s regs. if s.sound then (record s { held = regs }, true) else (s, false);
  laser_on = λ s. (s, true);
  laser_con_measure = λ s period. (s, true);
  laser_stopclear = λ s. (s, true);
  is_measuring = λ s. false;
}

bench-Stores : Stores bench
bench-Stores = record { read_write = stored }
  where
    stored :
        (s : Area) (regs : List ℕ)
        → (bench.area_write s regs).1 ≡ true
        → bench.area_read (bench.area_write s regs).0 ≡ some regs
    stored s regs h =
        if_both (λ (out : Area × Bool). out.1 ≡ true → some out.0.held ≡ some regs) s.sound
          (record s { held = regs }, true) (s, false) (λ e f. refl) (λ e f. cc) h

abbrev controller : Bool → Laser Area
controller sound = record {
  laser_regs = replicate 50 0;
  inited = true;
  device_status = false;
  write_mode = true;
  need_close = false;
  fw_updating = false;
  system_status = Cob.system_eeprom;
  laser_period = 100;
  x_init_value = 0;
  y_init_value = 0;
  parts = record { held = replicate 50 0; sound = sound };
}

read_after_write_example :
    let t = (cob_id2 bench (controller false) 0x22 4 1 77 0).0 in
    cob_id2 bench t 0x40 4 1 0 0 ≡ (t, cob_msg 1 77 Cob.cob_id2_tx ∷ [])
unfolding register_of
read_after_write_example =
    read_after_write bench (controller false) 4 1 4 1 77 0 0 0 (refl, refl, refl) refl (omega arith)
      (omega arith)

-- not in write mode
abbrev reading : Laser Area
reading = record (controller true) { write_mode = false }

abbrev write_frame : CanFrame
write_frame = record {
  id = Cob.cob_id2_rx;
  dlc = 8;
  bytes = 0x22 ∷ 4 ∷ 1 ∷ 0 ∷ 0 ∷ 0 ∷ 0 ∷ 77 ∷ [];
}

laser_canrx_msg_handler-IsKept_example :
    IsKept bench reading (laser_canrx_msg_handler bench 0 reading write_frame)
laser_canrx_msg_handler-IsKept_example =
    laser_canrx_msg_handler-IsKept bench 0 reading write_frame refl refl

-- just after the start
abbrev unstarted : Firmware Ram
unstarted = record { slot = blank; total_size = 0; offset = 0; updating = false }

abbrev confirmation : CanFrame
confirmation = record { id = Cob.platform_rx; dlc = 8; bytes = 1 ∷ 0 ∷ 0 ∷ 0 ∷ 1 ∷ 0 ∷ 0 ∷ 0 ∷ [] }

fw_update_requests_example :
    requests (fw_update ram_slot (λ s. (0, s)) classic 3 0 unstarted confirmation).1 ≡ 1 ∷ []
fw_update_requests_example =
    fw_update_requests ram_slot (λ s. (0, s)) classic 3 0 unstarted confirmation

abbrev erase : Ram → ℕ × Ram
erase s = (0, record s { written = [] })

ram-Counts : Counts ram_slot erase (λ x. x.written)
ram-Counts = record {
  inits = λ x. refl;
  erases = λ x. refl;
  empties = λ x. refl;
  writes = λ x d. refl;
  appends = λ x d. refl;
  counts = λ x fits. ap length (append-nil x.written);
}

-- 12 bytes are announced, and come in two frames
abbrev begin : CanFrame
begin = record { id = Cob.platform_rx; dlc = 8; bytes = 0 ∷ 0 ∷ 0 ∷ 0 ∷ 12 ∷ 0 ∷ 0 ∷ 0 ∷ [] }

abbrev first_part : CanFrame
first_part = record { id = Cob.fw_data_rx; dlc = 8; bytes = 9 ∷ 8 ∷ 7 ∷ 6 ∷ 5 ∷ 4 ∷ 3 ∷ 2 ∷ [] }

abbrev second_part : CanFrame
second_part = record { id = Cob.fw_data_rx; dlc = 4; bytes = 1 ∷ 2 ∷ 3 ∷ 4 ∷ [] }

abbrev parts : List CanFrame
parts = first_part ∷ second_part ∷ []

laser_transfer_example :
    let before = (run ram_slot erase classic 3 0 unstarted (begin ∷ parts)).0 in
    (before.slot.written ≡ 9 ∷ 8 ∷ 7 ∷ 6 ∷ 5 ∷ 4 ∷ 3 ∷ 2 ∷ 1 ∷ 2 ∷ 3 ∷ 4 ∷ [])
    × (before.updating ≡ false)
    × ((fw_update ram_slot erase classic 3 0 before confirmation).1
        ≡ boot_request_upgrade 1 ∷ fw_can_recevie Cob.confirm 0x55AA55AA ∷ [])
laser_transfer_example =
    laser_transfer ram_slot erase classic 3 0 (λ x. x.written) ram-Counts unstarted begin parts
      confirmation refl refl refl ((refl, refl), ((refl, refl), tt)) (omega arith) refl refl
