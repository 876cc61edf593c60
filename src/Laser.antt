-- ===== src/Laser.antt =====
-- The laser controller: the registers of applications/laser_ctrl/src/flash.c and the CAN commands of
-- src/can.c. The flash area and the serial line of the laser are parameters.
pub mod Cob
pub mod Registers
pub mod Commands
pub mod Firmware
mod Tests
use zephyr_app.Common.{
  Bool, List, Option, [], false, get_be32, get_or, if◌then◌else◌, leb, none, not, set, some, true,
  ℕ, ◌%◌, ◌*◌, ◌+◌, ◌-◌, ◌==◌, ◌^◌, ◌||◌, ◌∷◌,
}
use zephyr_app.Zephyr.{CanFrame}
use zephyr_app.Handset.Parse.{sign_extend}
use zephyr_app.Laser.Cob

-- Over a state `S` of the flash area and the laser: `flash_area_open`, `flash_area_read` of the 50
-- registers, `flash_area_flatten`, `flash_area_write`, with true for success; `laser_on`,
-- `laser_con_measure` and `laser_stopclear` of src/laser_serial.c, and whether LASER_ON and
-- LASER_CON_MESURE are both set, which these maintain.
pub record Parts (S : Type 0) : Type 0 where
  pub area_open : S → Bool
  pub area_read : S → Option (List ℕ)
  pub area_flatten : S → S × Bool
  pub area_write : S → List ℕ → S × Bool
  pub laser_on : S → S × Bool
  pub laser_con_measure : S → ℕ → S × Bool
  pub laser_stopclear : S → S × Bool
  pub is_measuring : S → Bool

-- The static variables of flash.c and can.c and the bits of `laser_status`, over the parts. A signed
-- axis value is the 16 bits of its two's complement.
pub record Laser (S : Type 0) : Type 0 where
  pub laser_regs : List ℕ
  pub inited : Bool
  pub device_status : Bool
  pub write_mode : Bool
  pub need_close : Bool
  pub fw_updating : Bool
  pub system_status : ℕ
  pub laser_period : ℕ
  pub x_init_value : ℕ
  pub y_init_value : ℕ
  pub parts : S

-- A frame of two words and an identifier from `cob_msg_send`, the delayed work of 2 s, and a frame for
-- `fw_update`.
pub data Action : Type 0 where
  cob_msg : ℕ → ℕ → ℕ → Action
  schedule_stop : Action
  fw_update : CanFrame → Action

abbrev pub laser_regs_count : ℕ
laser_regs_count = 50

-- the register of two address bytes; addresses 0 and 1 are both register 0
pub register_of : ℕ → ℕ → ℕ
register_of low tens = let address = low + tens * 10 in (if address == 0 then 1 else address) - 1

module _ {S : Type 0} (io : Parts S) where
  pub laser_flash_init : Laser S → Laser S × Bool
  laser_flash_init l =
      if not (io.area_open l.parts)
      then (record l { inited = false }, false)
      else elim (io.area_read l.parts) [
        | none ↦ (l, false)
        | some regs ↦ (record l { laser_regs = regs; inited = true }, true)
      ]

  pub laser_flash_read_mode : Laser S → Laser S × Bool
  laser_flash_read_mode l =
      let (t, ok) = if l.inited then (l, true) else laser_flash_init l in
      if ok then (record t { write_mode = false }, true) else (t, false)

  pub laser_flash_write_mode : Laser S → Laser S × Bool
  laser_flash_write_mode l =
      let (t, ok) = if l.inited then (l, true) else laser_flash_init l in
      if ok then (record t { write_mode = true }, true) else (t, false)

  pub laser_flash_write : Laser S → ℕ → ℕ → Laser S × Bool
  laser_flash_write l address val =
      let regs = set l.laser_regs address val in
      let (erased, flat) = io.area_flatten l.parts in
      let (written, done) = io.area_write erased regs in
      if not l.write_mode || l.fw_updating
      then (l, false)
      else if leb laser_regs_count address
      then (l, false)
      else if get_or l.laser_regs address 0 == val
      then (l, true)
      else if not flat
      then (record l { laser_regs = regs; parts = erased }, false)
      else (record l { laser_regs = regs; parts = written }, done)

  pub laser_flash_read : Laser S → ℕ → Option ℕ
  laser_flash_read l address =
      if not l.inited
      then none
      else if leb laser_regs_count address
      then none
      else some (get_or l.laser_regs address 0)

  -- the case CANCMD_LASER_CTRL, for a board with the RS485 pins
  pub laser_ctrl : Laser S → ℕ → Laser S × List Action
  laser_ctrl l arg =
      let ack = Cob.laser_ctrl_ack in
      let nack = Cob.laser_ctrl_nack in
      let reply = λ (cmd : ℕ). cob_msg cmd arg Cob.cob_id1_tx ∷ [] in
      let (lit, on) = io.laser_on l.parts in
      let (measuring, ok) = io.laser_con_measure lit l.laser_period in
      let (stopped, done) = io.laser_stopclear l.parts in
      if arg == 1
      then (if on
          then (record l { parts = measuring }, reply (if ok then ack else nack))
          else (record l { parts = lit }, reply nack))
      else if arg == 0
      then (if io.is_measuring l.parts
          then (record l { need_close = true }, schedule_stop ∷ reply nack)
          else (record l { parts = stopped }, reply (if done then ack else nack)))
      else (l, reply nack)

  -- the case COB_ID1_RX, for the two words of the frame
  pub cob_id1 : Laser S → ℕ → ℕ → Laser S × List Action
  cob_id1 l cmd arg =
      let reply = λ (data1 data2 : ℕ). cob_msg data1 data2 Cob.cob_id1_tx ∷ [] in
      let low = arg % 2 ^ 16 in
      if cmd == Cob.read_conword
      then (l, reply 0x43406200 (if l.device_status then 1 else 0))
      else if cmd == Cob.write_conword || cmd == Cob.write_conword_new
      then (record l { device_status = not (arg == 0) }, reply 0x60406200 arg)
      else if cmd == Cob.read_xaxis_realval
      then (l, reply 0x43466200 0x1234)
      else if cmd == Cob.read_yaxis_realval
      then (l, reply 0x43486200 0x1234)
      else if cmd == Cob.read_xaxis
      then (l, reply 0x43016200 (sign_extend l.x_init_value))
      else if cmd == Cob.read_yaxis
      then (l, reply 0x43026200 (sign_extend l.y_init_value))
      else if cmd == Cob.write_xaxis
      then (record l { x_init_value = low }, reply 0x60016200 (sign_extend low))
      else if cmd == Cob.write_yaxis
      then (record l { y_init_value = low }, reply 0x60026200 (sign_extend low))
      else if cmd == Cob.read_system_status
      then (
        record (laser_flash_read_mode l).0 { system_status = Cob.system_working },
        reply Cob.system_working Cob.read_system_status,
      )
      else if cmd == Cob.write_system_status || cmd == Cob.write_system_status_new
      then (
        record (laser_flash_write_mode l).0 { system_status = Cob.system_eeprom },
        reply Cob.system_eeprom Cob.write_system_status,
      )
      else if cmd == Cob.laser_ctrl || cmd == Cob.laser_ctrl_new
      then laser_ctrl l arg
      else if cmd == Cob.peroid_conf || cmd == Cob.peroid_confn
      then (record l { laser_period = arg }, reply Cob.peroid_conf_ack arg)
      else if cmd == Cob.peroid_get
      then (l, reply Cob.peroid_get_ack l.laser_period)
      else (l, [])

  -- the case COB_ID2_RX, for the first three bytes and the second word; `stale` is the word that an
  -- unsuccessful read leaves in `val`
  pub cob_id2 : Laser S → ℕ → ℕ → ℕ → ℕ → ℕ → Laser S × List Action
  cob_id2 l op low tens val stale =
      let address = register_of low tens in
      let (t, ok) = laser_flash_write l address val in
      let reply = λ (data1 data2 : ℕ). cob_msg data1 data2 Cob.cob_id2_tx ∷ [] in
      if op == 0x22
      then (t, reply (if ok then 1 else 0x12) val)
      else if op == 0x40
      then (l, elim (laser_flash_read l address) [ some v ↦ reply 1 v | none ↦ reply 0x11 stale ])
      else (l, [])

  pub laser_canrx_msg_handler : ℕ → Laser S → CanFrame → Laser S × List Action
  laser_canrx_msg_handler stale l frame =
      let b = frame.bytes in
      if frame.id == Cob.cob_id1_rx
      then cob_id1 l (get_be32 b 0) (get_be32 b 4)
      else if frame.id == Cob.cob_id2_rx
      then cob_id2 l (get_or b 0 0) (get_or b 1 0) (get_or b 2 0) (get_be32 b 4) stale
      else if frame.id == Cob.platform_rx || frame.id == Cob.fw_data_rx
      then (l, fw_update frame ∷ [])
      else (l, [])

  pub laser_stop_work_handler : Laser S → Laser S
  laser_stop_work_handler l =
      if l.need_close
      then record l { need_close = false; parts = (io.laser_stopclear l.parts).0 }
      else l
