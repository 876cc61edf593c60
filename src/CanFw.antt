-- ===== src/CanFw.antt =====
-- libs/can_fw_upgrade/can_fw_upgrade.c: firmware upgrade over CAN, in the build with a signature
-- key (CONFIG_MCUBOOT_SIGNATURE_KEY_FILE, the default). Slot 1 and the image writer are the state
-- `S` of Zephyr's `Slot`. A handler returns the new state and what it did towards the outside.
pub mod Cmd
pub mod Code
pub mod Version
pub mod Keyhash
pub mod Transfer
mod Tests
use zephyr_app.Common.{
  Bool, List, [], bit_and, bit_or, drop, false, get_or, if◌then◌else◌, le32_bytes, leb, length,
  list_eq, ltb, map, min, not, replicate, suc, take, true, u32, u8, zero, ℕ, ◌%◌, ◌*◌, ◌++◌, ◌+◌,
  ◌-◌, ◌/◌, ◌==◌, ◌^◌, ◌||◌, ◌∷◌,
}
use zephyr_app.Zephyr.{CanFrame, Dlc, Slot, data_32}
use zephyr_app.Handlers.{Handler, broadcast}

-- CAN frame ids
abbrev pub can_fw_platform_rx : ℕ
can_fw_platform_rx = 0x101

abbrev pub can_fw_platform_tx : ℕ
can_fw_platform_tx = 0x102

abbrev pub can_fw_fw_data_rx : ℕ
can_fw_fw_data_rx = 0x103

abbrev pub can_fw_keyhash_rx : ℕ
can_fw_keyhash_rx = 0x104

abbrev pub can_fw_version_tx : ℕ
can_fw_version_tx = 0x105

-- FW_KEYHASH_KEY_LEN of the generated header, and the chunks of 7 bytes
abbrev pub fw_keyhash_key_len : ℕ
fw_keyhash_key_len = 32

abbrev pub keyhash_chunk_bytes : ℕ
keyhash_chunk_bytes = 7

abbrev pub keyhash_chunks : ℕ
keyhash_chunks = (fw_keyhash_key_len + keyhash_chunk_bytes - 1) / keyhash_chunk_bytes

abbrev pub keyhash_full_mask : ℕ
keyhash_full_mask = 2 ^ keyhash_chunks - 1

-- The static variables. `fw_written` and `fw_total_size` are 32-bit.
pub record CanFw (S : Type 0) : Type 0 where
  pub handlers : List Handler
  pub slot : S
  pub fw_img_initialized : Bool
  pub fw_written : ℕ
  pub fw_total_size : ℕ
  pub rx_keybuf : List ℕ
  pub key_chunk_mask : ℕ

-- What the thread does towards the outside, in order: a frame sent, a call of
-- `boot_request_upgrade` with its argument, a warm reboot, a call of a callback.
pub data Action : Type 0 where
  send : CanFrame → Action
  boot_request_upgrade : ℕ → Action
  sys_reboot : Action
  call : Handler → Action

module _ (dlc : Dlc) where
  -- the frame of `fw_can_reply`
  abbrev pub fw_can_reply : ℕ → ℕ → Action
  fw_can_reply code offset = send (record {
    id = can_fw_platform_tx;
    dlc = dlc.of_bytes 8;
    bytes = le32_bytes code ++ le32_bytes offset;
  })

  -- `fw_can_send_version_string`: `text` is what lies ahead of `off`, of which `left` bytes count.
  -- Each pass takes a byte at least, so fuel `len` is enough.
  version_loop : ℕ → List ℕ → ℕ → ℕ → List Action
  version_loop zero text left seq = []
  version_loop (suc fuel) text left seq =
      let chunk = if ltb 7 left then 7 else left in
      let frame : CanFrame = record {
        id = can_fw_version_tx;
        dlc = dlc.of_bytes 8;
        bytes = u8 seq ∷ take chunk text ++ replicate (7 - chunk) 0;
      } in
      let rest = version_loop fuel (drop 7 text) (left - 7) (seq + 1) in
      if left == 0 then [] else send frame ∷ rest

  pub fw_can_send_version_string : List ℕ → ℕ → List Action
  unfolding version_loop
  fw_can_send_version_string ver len = version_loop len ver len 0

module _ {S : Type 0} (io : Slot S) (dlc : Dlc) (fw_keyhash version : List ℕ) where
  -- The check of a complete key: false is a mismatch.
  pub keyhash_check : CanFw S → CanFw S × Bool
  keyhash_check s =
      if bit_and s.key_chunk_mask keyhash_full_mask == keyhash_full_mask
      then (record s { key_chunk_mask = 0 }, list_eq s.rx_keybuf fw_keyhash)
      else (s, true)

  -- Slot 1 is opened, erased and given to the image writer, unless that is done already.
  pub image_init : CanFw S → CanFw S × Bool
  image_init s =
      let erased = io.area_erase s.slot in
      let (ret, slot) = io.img_init erased in
      if s.fw_img_initialized
      then (s, true)
      else if not (io.area_open s.slot == 0)
      then (s, false)
      else if not (ret == 0)
      then (record s { slot = slot }, false)
      else (record s { slot = slot; fw_img_initialized = true; fw_written = 0 }, true)

  pub start_update : CanFw S → CanFrame → CanFw S × List Action
  start_update s frame =
      let (t, same) = keyhash_check s in
      let (u, ready) = image_init t in
      if not (dlc.to_bytes frame.dlc == 8)
      then (s, fw_can_reply dlc Code.flash_error 0 ∷ [])
      else if not same
      then (t, fw_can_reply dlc Code.keyhash_error 0 ∷ [])
      else if not ready
      then (u, fw_can_reply dlc Code.flash_error 0 ∷ [])
      else (record u { fw_total_size = data_32 frame 1 }, fw_can_reply dlc Code.offset 0 ∷ [])

  pub confirm : CanFw S → CanFrame → CanFw S × List Action
  confirm s frame =
      let permanent = data_32 frame 1 in
      let flushed = (io.img_write s.slot [] true).1 in
      let (ret, requested) = io.boot_request flushed permanent in
      if not s.fw_img_initialized
      then (s, fw_can_reply dlc Code.tranfer_error 0 ∷ [])
      else if not (s.fw_written == s.fw_total_size)
      then (
        record s { slot = flushed; fw_img_initialized = false },
        fw_can_reply dlc Code.tranfer_error 0 ∷ [],
      )
      else if ret == 0
      then (
        record s { slot = requested; fw_img_initialized = false },
        boot_request_upgrade permanent ∷ fw_can_reply dlc Code.confirm 0x55AA55AA ∷ [],
      )
      else (
        record s { slot = requested; fw_img_initialized = false },
        boot_request_upgrade permanent ∷ fw_can_reply dlc Code.tranfer_error 0 ∷ [],
      )

  -- `version` is the text that `snprintf` is to print; 23 bytes of it fit `ver`.
  pub handle_platform_rx : CanFw S → CanFrame → CanFw S × List Action
  handle_platform_rx s frame =
      let cmd = data_32 frame 0 in
      if cmd == Cmd.start_update
      then start_update s frame
      else if cmd == Cmd.confirm
      then confirm s frame
      else if cmd == Cmd.version
      then (
        s,
        fw_can_reply dlc Code.version (length version)
            ∷ fw_can_send_version_string dlc (take 23 version) (u8 (length version)),
      )
      else if cmd == Cmd.reboot
      then (s, sys_reboot ∷ [])
      else (s, [])

  -- `rem` and `bytes` are `uint8_t`.
  pub handle_keyhash_frame : CanFw S → CanFrame → CanFw S
  handle_keyhash_frame s frame =
      let seq = get_or frame.bytes 0 0 in
      let rem = u8 (2 ^ 16 + fw_keyhash_key_len - seq * keyhash_chunk_bytes) in
      let chunk = min rem keyhash_chunk_bytes in
      let at = seq * keyhash_chunk_bytes in
      if leb keyhash_chunks seq || ltb (u8 (dlc.to_bytes frame.dlc)) (1 + chunk)
      then s
      else record s {
        rx_keybuf =
            take at s.rx_keybuf
            ++ (take chunk (drop 1 frame.bytes) ++ drop (at + chunk) s.rx_keybuf);
        key_chunk_mask = u8 (bit_or s.key_chunk_mask (2 ^ seq));
      }

  pub handle_fw_data : CanFw S → CanFrame → CanFw S × List Action
  handle_fw_data s frame =
      let size = dlc.to_bytes frame.dlc in
      let (ret, slot) = io.img_write s.slot (take size frame.bytes) false in
      let written = u32 (s.fw_written + size) in
      let t = record s { slot = slot; fw_written = written } in
      if not s.fw_img_initialized
      then (s, fw_can_reply dlc Code.tranfer_error 0 ∷ [])
      else if not (ret == 0)
      then (record s { slot = slot }, fw_can_reply dlc Code.flash_error 0 ∷ [])
      else if written == s.fw_total_size
      then (t, fw_can_reply dlc Code.update_success s.fw_total_size ∷ [])
      else if written % 64 == 0
      then (t, fw_can_reply dlc Code.offset written ∷ [])
      else (t, [])

  -- One pass of `can_fw_rx_thread_fn`, for what the callbacks answer to the frame.
  pub rx_thread_step : (CanFrame → ℕ → ℕ → Bool) → CanFw S → CanFrame → CanFw S × List Action
  rx_thread_step answer s frame =
      if frame.id == can_fw_platform_rx
      then handle_platform_rx s frame
      else if frame.id == can_fw_fw_data_rx
      then handle_fw_data s frame
      else if frame.id == can_fw_keyhash_rx
      then (handle_keyhash_frame s frame, [])
      else (s, map call (broadcast (answer frame) s.handlers).0)
