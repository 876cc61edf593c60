-- ===== src/Boot/Tests.antt =====
-- Runs of the bootloader on small devices.
use zephyr_app.Common.{
  Bool, List, [], arith, false, if◌then◌else◌, inl, length, none, refl, replicate, some, take, true,
  ℕ, ◌*◌, ◌++◌, ◌/◌, ◌<◌, ◌∷◌, ◌≡◌,
}
use zephyr_app.Boot.Overrun.{failed_write_overrun}
use zephyr_app.Zephyr.{CanFrame}
use zephyr_app.Zephyr.Ram.{classic}
use zephyr_app.Boot.{
  Boot, FlashDev, app_start_addr, flash_app_start_addr, fw_code_confirm, fw_code_flash_error,
  fw_send_response, fw_update, jump_to_app, over_can, over_uart, upgrade_flag_value,
}
use zephyr_app.Boot.Erase.{Pages, erase_pages}
use zephyr_app.Boot.Stream.{Programs, feed, joined}
use zephyr_app.Boot.Uart.{UartRx, idle, uart_isr, uart_send_frame}
use zephyr_app.Boot.Uart.Receiver.{IsReceiver, uart_isr-IsReceiver}
use zephyr_app.Boot.Uart.RoundTrip.{receive_frame}
use zephyr_app.Boot.Upgrade.{boot_upgrade}

-- a flash with pages of 2048 bytes, as the bytes programmed since the last erase
abbrev tape : FlashDev (List ℕ)
tape = record {
  page_info = λ x addr. some (addr / 2048 * 2048, 2048);
  erase = λ x start size. (0, []);
  write = λ x addr d. (0, x ++ d);
  read_word = λ x addr. none;
}

tape-Pages : Pages tape 2048
tape-Pages = record {
  positive = omega arith;
  paged = λ x addr. refl;
  erases = λ x start size. refl;
}

tape-blank : erase_pages tape 2048 tape-Pages 1 (9 ∷ []) flash_app_start_addr ≡ []
unfolding erase_pages
tape-blank = refl

tape-Programs : Programs tape (λ x. x)
tape-Programs = record { writes = λ x d h. refl; appends = λ x d h. refl }

abbrev idle_boot : Boot (List ℕ)
idle_boot = record {
  flash = 9 ∷ [];
  flash_buffer = replicate 64 0;
  flash_buffer_index = 5;
  current_flash_addr = 0;
  total_fw_size = 0;
  received_fw_size = 0;
  response_cb = over_can;
}

abbrev start_70 : CanFrame
start_70 = record { id = 0x101; dlc = 8; bytes = 0 ∷ 0 ∷ 0 ∷ 0 ∷ 70 ∷ 0 ∷ 0 ∷ 0 ∷ [] }

abbrev eight_bytes : CanFrame
eight_bytes = record { id = 0x103; dlc = 8; bytes = 1 ∷ 2 ∷ 3 ∷ 4 ∷ 5 ∷ 6 ∷ 7 ∷ 8 ∷ [] }

abbrev confirm_frame : CanFrame
confirm_frame = record { id = 0x101; dlc = 8; bytes = 1 ∷ 0 ∷ 0 ∷ 0 ∷ 0 ∷ 0 ∷ 0 ∷ 0 ∷ [] }

-- 70 bytes are announced; of the nine frames of eight bytes, the last two bytes are not taken.
boot_upgrade_example :
    let begun = (fw_update tape classic 1 idle_boot start_70).0 in
    let (t, done, ret) =
      fw_update tape classic 1
        (feed tape classic 1 begun (replicate 9 eight_bytes))
        confirm_frame in
    (t.flash ≡ take 70 (joined classic (replicate 9 eight_bytes)))
    × (ret ≡ true)
    × (done
        ≡ fw_send_response over_can fw_code_confirm 0x55AA55AA ++ (jump_to_app app_start_addr ∷ []))
boot_upgrade_example =
    boot_upgrade tape 2048 tape-Pages (λ x. x) tape-Programs classic 1 idle_boot start_70
      (replicate 9 eight_bytes) confirm_frame 1 70 refl refl refl refl refl (omega arith)
      (omega arith) (omega arith) tape-blank (omega arith) refl refl

-- a flash that cannot be written, the request word being what it holds
abbrev worn : FlashDev Bool
worn = record {
  page_info = λ x addr. some (addr / 2048 * 2048, 2048);
  erase = λ x start size. (0, false);
  write = λ x addr d. (5, x);
  read_word = λ x addr. if x then some upgrade_flag_value else some 0xFFFFFFFF;
}

abbrev nearly_full : Boot Bool
nearly_full = record {
  flash = true;
  flash_buffer = replicate 64 0;
  flash_buffer_index = 63;
  current_flash_addr = 0x08010000;
  total_fw_size = 100;
  received_fw_size = 63;
  response_cb = over_uart;
}

failed_write_overrun_example :
    let (t, done, ret) = fw_update worn classic 1 nearly_full eight_bytes in
    (ret ≡ false)
    × (done ≡ fw_send_response over_uart fw_code_flash_error 64)
    × (t.flash_buffer_index ≡ length t.flash_buffer)
    × (t.received_fw_size < t.total_fw_size)
failed_write_overrun_example =
    failed_write_overrun worn classic 1 nearly_full eight_bytes 1 (2 ∷ 3 ∷ 4 ∷ 5 ∷ 6 ∷ 7 ∷ 8 ∷ [])
      refl refl refl refl (omega arith) (omega arith) (omega arith)

abbrev quiet_line : UartRx
quiet_line = record {
  rx_state = idle;
  rx_type = 0;
  rx_len = 0;
  rx_index = 0;
  rx_buffer = replicate 8 0;
  rx_crc = 0;
  uart_msgq = [];
}

uart_isr-IsReceiver_example :
    IsReceiver
      (uart_isr quiet_line (0xAA ∷ 2 ∷ 0 ∷ 8 ∷ 1 ∷ 2 ∷ 3 ∷ 4 ∷ 5 ∷ 6 ∷ 7 ∷ 8 ∷ 9 ∷ 10 ∷ 11 ∷ []))
uart_isr-IsReceiver_example =
    uart_isr-IsReceiver quiet_line
      (0xAA ∷ 2 ∷ 0 ∷ 8 ∷ 1 ∷ 2 ∷ 3 ∷ 4 ∷ 5 ∷ 6 ∷ 7 ∷ 8 ∷ 9 ∷ 10 ∷ 11 ∷ [])
      (record { buffer = refl; ready = tt; few = omega arith; short = tt })

receive_frame_example :
    let t = uart_isr quiet_line ((0 ∷ 0x55 ∷ []) ++ uart_send_frame 1 (1 ∷ 2 ∷ 3 ∷ [])) in
    (t.rx_state ≡ idle)
    × (length t.rx_buffer ≡ 8)
    × (t.uart_msgq ≡ record { kind = 1; bytes = 1 ∷ 2 ∷ 3 ∷ [] } ∷ [])
receive_frame_example =
    receive_frame quiet_line (0 ∷ 0x55 ∷ []) 1 (1 ∷ 2 ∷ 3 ∷ []) refl refl (omega arith)
      (omega arith) (inl refl) (omega arith) (omega arith)
