-- ===== src/Boot.antt =====
-- applications/stm32_bootloader: the upgrade over CAN and UART (src/fw_upgrade.c, src/fw_can.c) and
-- the choice at reset (src/main.c). The serial framing (src/fw_uart.c) is in Boot/Uart.antt. The
-- flash device of Zephyr is a parameter over a state `S`.
pub mod Uart
pub mod Stream
pub mod Erase
pub mod Reset
pub mod Upgrade
pub mod Overrun
mod Tests
use zephyr_app.Common.{
  Bool, List, Option, [], false, if◌then◌else◌, leb, ltb, none, not, set, some, suc, take, true,
  u16, u32, zero, ℕ, ◌%◌, ◌++◌, ◌+◌, ◌-◌, ◌==◌, ◌||◌, ◌∷◌,
}
use zephyr_app.Zephyr.{CanFrame, Dlc, data_32}

abbrev pub flash_buffer_size : ℕ
flash_buffer_size = 64

abbrev pub flash_app_start_addr : ℕ
flash_app_start_addr = 0x08010000

abbrev pub flash_app_end_addr : ℕ
flash_app_end_addr = 0x08040000

abbrev pub flash_flag_addr : ℕ
flash_flag_addr = 0x0803F800

abbrev pub upgrade_flag_value : ℕ
upgrade_flag_value = 0x55AADEAD

abbrev pub app_start_addr : ℕ
app_start_addr = 0x08010000

abbrev pub can_id_platform_rx : ℕ
can_id_platform_rx = 0x101

abbrev pub can_id_fw_data_rx : ℕ
can_id_fw_data_rx = 0x103

-- `enum fw_error_code`
abbrev pub fw_code_offset : ℕ
fw_code_offset = 0

abbrev pub fw_code_update_success : ℕ
fw_code_update_success = 1

abbrev pub fw_code_version : ℕ
fw_code_version = 2

abbrev pub fw_code_confirm : ℕ
fw_code_confirm = 3

abbrev pub fw_code_flash_error : ℕ
fw_code_flash_error = 4

abbrev pub fw_code_tranfer_error : ℕ
fw_code_tranfer_error = 5

-- `enum board_option`
abbrev pub board_start_update : ℕ
board_start_update = 0

abbrev pub board_confirm : ℕ
board_confirm = 1

abbrev pub board_version : ℕ
board_version = 2

abbrev pub board_reboot : ℕ
board_reboot = 3

-- `flash_get_page_info_by_offs` (the start and the size of the page), `flash_erase`, `flash_write`,
-- and `flash_read` of a word, at addresses; 0 is success.
pub record FlashDev (S : Type 0) : Type 0 where
  pub page_info : S → ℕ → Option (ℕ × ℕ)
  pub erase : S → ℕ → ℕ → ℕ × S
  pub write : S → ℕ → List ℕ → ℕ × S
  pub read_word : S → ℕ → Option ℕ

-- `response_cb`: NULL, or the function of one of the two transports
pub data Transport : Type 0 where
  unset over_can over_uart : Transport

-- A response that was sent, with the transport that sent it; a warm reboot; a jump to the app.
pub data Action : Type 0 where
  respond : Transport → ℕ → ℕ → Action
  sys_reboot : Action
  jump_to_app : ℕ → Action

-- The static variables of fw_upgrade.c.
pub record Boot (S : Type 0) : Type 0 where
  pub flash : S
  pub flash_buffer : List ℕ
  pub flash_buffer_index : ℕ
  pub current_flash_addr : ℕ
  pub total_fw_size : ℕ
  pub received_fw_size : ℕ
  pub response_cb : Transport

-- `fw_send_response`
pub fw_send_response : Transport → ℕ → ℕ → List Action
fw_send_response unset code value = []
fw_send_response over_can code value = respond over_can code value ∷ []
fw_send_response over_uart code value = respond over_uart code value ∷ []

module _ {S : Type 0} (dev : FlashDev S) where
  -- The `while (erase_size > 0)` of a start command: whether it went through, and the flash. Each
  -- pass takes a page off the size, so with pages of one byte at least fuel `erase_size` is enough.
  pub erase_loop : ℕ → S → ℕ → ℕ → Bool × S
  erase_loop zero flash addr size = (true, flash)
  erase_loop (suc fuel) flash addr size = elim (size == 0) [
    | true ↦ (true, flash)
    | false ↦ elim (dev.page_info flash addr) [
      | none ↦ (false, flash)
      | some (start, page) ↦
          let (ret, erased) = dev.erase flash start page in
          let rest =
            erase_loop fuel erased (u32 (addr + page)) (if leb page size then size - page else 0) in
          if ret == 0 then rest else (false, erased)
    ]
  ]

  -- One byte of a data frame: the new state, the responses, and whether the loop goes on (a failed
  -- write returns). A store behind the buffer is left out here.
  pub byte_step : Boot S → ℕ → Boot S × List Action × Bool
  byte_step s byte =
      let index = u16 (s.flash_buffer_index + 1) in
      let received = u32 (s.received_fw_size + 1) in
      let buffer = set s.flash_buffer s.flash_buffer_index byte in
      let stored = record s {
        flash_buffer = buffer;
        flash_buffer_index = index;
        received_fw_size = received;
      } in
      let (ret, flash) = dev.write s.flash s.current_flash_addr (take index buffer) in
      let written = record stored {
        flash = flash;
        flash_buffer_index = 0;
        current_flash_addr = u32 (s.current_flash_addr + index);
      } in
      if not (leb flash_buffer_size index || leb s.total_fw_size received)
      then (stored, [], true)
      else if not (ret == 0)
      then (
        record stored { flash = flash },
        fw_send_response s.response_cb fw_code_flash_error received,
        false,
      )
      else if leb s.total_fw_size received
      then (written, fw_send_response s.response_cb fw_code_update_success received, true)
      else if received % 4096 == 0
      then (written, [], true)
      else if received % 64 == 0
      then (written, fw_send_response s.response_cb fw_code_offset received, true)
      else (written, [], true)

  -- The `for` over the bytes of a data frame, and its result: true is 0, false is -1.
  pub data_loop : Boot S → List ℕ → Boot S × List Action × Bool
  data_loop s [] = (s, [], true)
  data_loop s (byte ∷ bytes) =
      let (t, done, go_on) = byte_step s byte in
      let (u, more, ret) = data_loop t bytes in
      if not (ltb s.received_fw_size s.total_fw_size)
      then (s, [], true)
      else if go_on
      then (u, done ++ more, ret)
      else (t, done, false)

  pub start_update : Boot S → CanFrame → Boot S × List Action × Bool
  unfolding erase_loop
  start_update s frame =
      let total = data_32 frame 1 in
      let room = flash_app_end_addr - flash_app_start_addr in
      let erase_size = if ltb room total then room else total in
      let (erased, flash) = erase_loop erase_size s.flash flash_app_start_addr erase_size in
      let begun = record s {
        flash = flash;
        total_fw_size = total;
        received_fw_size = 0;
        current_flash_addr = flash_app_start_addr;
        flash_buffer_index = 0;
      } in
      if erased
      then (begun, fw_send_response s.response_cb fw_code_offset 0, true)
      else (begun, fw_send_response s.response_cb fw_code_flash_error 0, false)

  pub confirm : Boot S → Boot S × List Action × Bool
  confirm s =
      let flushed = record s {
        flash =
            (dev.write s.flash s.current_flash_addr (take s.flash_buffer_index s.flash_buffer)).1;
        current_flash_addr = u32 (s.current_flash_addr + s.flash_buffer_index);
        flash_buffer_index = 0;
      } in
      let t = if ltb 0 s.flash_buffer_index then flushed else s in
      if not (s.received_fw_size == s.total_fw_size)
      then (t, fw_send_response s.response_cb fw_code_tranfer_error s.received_fw_size, false)
      else (
        t,
        fw_send_response s.response_cb fw_code_confirm 0x55AA55AA
            ++ (jump_to_app app_start_addr ∷ []),
        true,
      )

  -- `fw_update`, with APPVERSION of the generated header
  pub fw_update : Dlc → ℕ → Boot S → CanFrame → Boot S × List Action × Bool
  unfolding start_update confirm data_loop byte_step
  fw_update dlc app_version s frame =
      let size = dlc.to_bytes frame.dlc in
      let option = data_32 frame 0 in
      if frame.id == can_id_platform_rx
      then if option == board_start_update
        then if not (size == 8)
          then (s, fw_send_response s.response_cb fw_code_flash_error 0, false)
          else start_update s frame
        else if option == board_confirm
        then confirm s
        else if option == board_version
        then (s, fw_send_response s.response_cb fw_code_version app_version, true)
        else if option == board_reboot
        then (s, sys_reboot ∷ [], true)
        else (s, [], true)
      else if frame.id == can_id_fw_data_rx
      then if leb s.total_fw_size s.received_fw_size
        then (s, [], false)
        else data_loop s (take size frame.bytes)
      else (s, [], true)

  -- `fw_canrx_msg_handler`
  pub fw_canrx_msg_handler : Dlc → ℕ → Boot S → CanFrame → Boot S × List Action
  fw_canrx_msg_handler dlc app_version s frame =
      let t = record s { response_cb = over_can } in
      let (u, done, ret) = fw_update dlc app_version t frame in
      if frame.id == can_id_platform_rx || frame.id == can_id_fw_data_rx then (u, done) else (t, [])
