-- ===== src/Boot/Uart.antt =====
-- applications/stm32_bootloader/src/fw_uart.c: the serial line. Its frames are head, type, two bytes
-- of length, the bytes, two bytes of checksum, tail; they come out of the interrupt byte by byte
-- and go through a queue of 8 to the thread that hands them to `fw_update`.
pub mod Receiver
pub mod RoundTrip
use zephyr_app.Common.{
  Bool, List, Option, [], bit_and, bit_or, bit_xor, if◌then◌else◌, le32_bytes, leb, length, ltb,
  none, replicate, set, some, suc, take, u16, u8, zero, ℕ, ◌%◌, ◌*◌, ◌++◌, ◌+◌, ◌-◌, ◌/◌, ◌==◌, ◌^◌,
  ◌||◌, ◌∷◌,
}
use zephyr_app.Zephyr.{CanFrame, Dlc}
use zephyr_app.Boot.{
  Action, Boot, FlashDev, can_id_fw_data_rx, can_id_platform_rx, fw_update, over_uart,
}

abbrev pub uart_frame_head : ℕ
uart_frame_head = 0xAA

abbrev pub uart_frame_tail : ℕ
uart_frame_tail = 0x55

abbrev pub uart_frame_cmd : ℕ
uart_frame_cmd = 0x01

abbrev pub uart_frame_data : ℕ
uart_frame_data = 0x02

-- `uart_rx_state_t`
pub data UartState : Type 0 where
  idle type_byte len_h len_l payload crc_h crc_l : UartState

-- `fw_uart_frame_t`, of whose 8 bytes of data the first `len` are set
pub record UartFrame : Type 0 where
  pub kind : ℕ
  pub bytes : List ℕ

-- the static variables of the receiver, and the queue, oldest frame first
pub record UartRx : Type 0 where
  pub rx_state : UartState
  pub rx_type : ℕ
  pub rx_len : ℕ
  pub rx_index : ℕ
  pub rx_buffer : List ℕ
  pub rx_crc : ℕ
  pub uart_msgq : List UartFrame

-- the bit loop of `crc16_ccitt`
pub crc_bits : ℕ → ℕ → ℕ
crc_bits zero crc = crc
crc_bits (suc j) crc = crc_bits j (if bit_and crc 1 == 0 then crc / 2 else bit_xor (crc / 2) 0xA001)

pub crc_bytes : ℕ → List ℕ → ℕ
crc_bytes crc [] = crc
crc_bytes crc (b ∷ bs) = crc_bytes (crc_bits 8 (bit_xor crc b)) bs

unfoldable pub crc16_ccitt : List ℕ → ℕ
unfolding crc_bytes crc_bits
crc16_ccitt bytes = crc_bytes 0xFFFF bytes

-- `uart_send_frame`: the bytes it sends
pub uart_send_frame : ℕ → List ℕ → List ℕ
unfolding crc16_ccitt
uart_send_frame kind bytes =
    let crc = crc16_ccitt bytes in
    uart_frame_head ∷ kind ∷ 0 ∷ u8 (length bytes) ∷ bytes
    ++ ((crc / 2 ^ 8) % 256 ∷ crc % 256 ∷ uart_frame_tail ∷ [])

-- `fw_uart_send_response`: the bytes it sends
pub fw_uart_send_response : ℕ → ℕ → List ℕ
unfolding uart_send_frame
fw_uart_send_response code value =
    uart_send_frame uart_frame_cmd (le32_bytes code ++ le32_bytes value)

-- `k_msgq_put` without waiting: a frame that finds the queue full is dropped.
pub msgq_put : List UartFrame → UartFrame → List UartFrame
msgq_put q f = if ltb (length q) 8 then q ++ (f ∷ []) else q

-- One round of `uart_isr`, with the byte it reads. A store behind `rx_buffer` is left out here.
pub uart_byte : UartRx → ℕ → UartRx
unfolding crc16_ccitt msgq_put
uart_byte r byte = elim r.rx_state [
  | idle ↦ if byte == uart_frame_head then record r { rx_state = type_byte } else r
  | type_byte ↦
      if byte == uart_frame_cmd || byte == uart_frame_data
      then record r { rx_type = byte; rx_index = 0; rx_state = len_h }
      else record r { rx_state = idle }
  | len_h ↦ record r { rx_len = u8 (byte * 2 ^ 8); rx_state = len_l }
  | len_l ↦
      let len = bit_or r.rx_len byte in
      if leb len 8
      then record r { rx_len = len; rx_state = if ltb 0 len then payload else crc_h }
      else record r { rx_len = len; rx_state = idle }
  | payload ↦
      let index = u8 (r.rx_index + 1) in
      record r {
        rx_buffer = set r.rx_buffer r.rx_index byte;
        rx_index = index;
        rx_state = if leb r.rx_len index then crc_h else payload;
      }
  | crc_h ↦ record r { rx_crc = u16 (byte * 2 ^ 8); rx_state = crc_l }
  | crc_l ↦
      let crc = bit_or r.rx_crc byte in
      let data_bytes = take r.rx_len r.rx_buffer in
      record r {
        rx_crc = crc;
        rx_state = idle;
        uart_msgq =
            if crc16_ccitt data_bytes == crc
            then msgq_put r.uart_msgq (record { kind = r.rx_type; bytes = data_bytes })
            else r.uart_msgq;
      }
]

-- `uart_isr`, over the bytes that are ready
pub uart_isr : UartRx → List ℕ → UartRx
uart_isr r [] = r
uart_isr r (b ∷ bs) = uart_isr (uart_byte r b) bs

-- the CAN frame that `fw_uart_process_thread` makes of a frame from the queue
pub to_can_frame : Dlc → UartFrame → CanFrame
to_can_frame dlc f = record {
  id =
      if f.kind == uart_frame_cmd
      then can_id_platform_rx
      else if f.kind == uart_frame_data
      then can_id_fw_data_rx
      else 0;
  dlc = dlc.of_bytes (length f.bytes);
  bytes = f.bytes ++ replicate (8 - length f.bytes) 0;
}

-- One round of `fw_uart_process_thread`: it takes the oldest frame. None: it waits.
pub uart_process :
    {S : Type 0}
    → FlashDev S
    → Dlc
    → ℕ
    → UartRx
    → Boot S
    → Option (UartRx × (Boot S × List Action × Bool))
unfolding to_can_frame fw_update
uart_process dev dlc app_version r s = elim r.uart_msgq [
  | [] ↦ none
  | f ∷ rest ↦ some (
    record r { uart_msgq = rest },
    fw_update dev dlc app_version (record s { response_cb = over_uart }) (to_can_frame dlc f),
  )
]
