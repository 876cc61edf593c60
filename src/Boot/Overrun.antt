-- ===== src/Boot/Overrun.antt =====
-- The flash buffer after a write that failed.
use zephyr_app.Common.{
  List, arith, false, leb, length, length-set, ltb, refl, set, sym, take, true, u32, ℕ, ◌+◌, ◌<◌,
  ◌==◌, ◌^◌, ◌∙◌, ◌∷◌, ◌≡◌, ◌≢◌,
}
use zephyr_app.Zephyr.{CanFrame, Dlc}
use zephyr_app.Boot.{
  Boot, FlashDev, byte_step, can_id_fw_data_rx, data_loop, flash_buffer_size, fw_code_flash_error,
  fw_send_response, fw_update,
}

short_of : (a b : ℕ) → a + 1 < b → (leb b a ≡ false) × (ltb a b ≡ true)
short_of a b h = ground arith

module _ {S : Type 0} (dev : FlashDev S) where
  step :
      (s : Boot S) (byte : ℕ)
      → length s.flash_buffer ≡ flash_buffer_size
      → s.flash_buffer_index ≡ 63
      → s.received_fw_size + 1 < s.total_fw_size
      → s.total_fw_size < 2 ^ 32
      → (dev.write s.flash s.current_flash_addr (take 64 (set s.flash_buffer 63 byte))).0 ≢ 0
      → let (t, done, go_on) = byte_step dev s byte in
        (go_on ≡ false)
        × (done ≡ fw_send_response s.response_cb fw_code_flash_error (s.received_fw_size + 1))
        × (t.flash_buffer_index ≡ 64)
        × (length t.flash_buffer ≡ 64)
        × (t.received_fw_size ≡ s.received_fw_size + 1)
        × (t.total_fw_size ≡ s.total_fw_size)
  unfolding byte_step
  step s byte buffer full more fits fails =
      let failed : ((dev.write s.flash s.current_flash_addr
              (take 64 (set s.flash_buffer 63 byte))).0
            == 0)
          ≡ false =
        ground (arith, fails) in
      let received : u32 (s.received_fw_size + 1) ≡ s.received_fw_size + 1 =
        omega (arith, more, fits) in
      let early : leb s.total_fw_size (s.received_fw_size + 1) ≡ false = ground (arith, more) in
      rw (full, failed, received)
        (refl, refl, refl, length-set s.flash_buffer 63 byte ∙ buffer, refl, refl)

  -- A failed write of a full buffer: where the first byte of a frame fills the buffer, is not the last
  -- one of the upgrade, and the write of the buffer fails, the frame is given up with a flash error,
  -- the index stays at the buffer's length, one behind its last byte, and what has been received is
  -- still short of the upgrade's size.
  pub failed_write_overrun :
      (dlc : Dlc) (app_version : ℕ) (s : Boot S) (frame : CanFrame) (byte : ℕ) (rest : List ℕ)
      → frame.id ≡ can_id_fw_data_rx
      → take (dlc.to_bytes frame.dlc) frame.bytes ≡ byte ∷ rest
      → length s.flash_buffer ≡ flash_buffer_size
      → s.flash_buffer_index ≡ 63
      → s.received_fw_size + 1 < s.total_fw_size
      → s.total_fw_size < 2 ^ 32
      → (dev.write s.flash s.current_flash_addr (take 64 (set s.flash_buffer 63 byte))).0 ≢ 0
      → let (t, done, ret) = fw_update dev dlc app_version s frame in
        (ret ≡ false)
        × (done ≡ fw_send_response s.response_cb fw_code_flash_error (s.received_fw_size + 1))
        × (t.flash_buffer_index ≡ length t.flash_buffer)
        × (t.received_fw_size < t.total_fw_size)
  unfolding fw_update data_loop
  failed_write_overrun dlc app_version s frame byte rest id bytes buffer full more fits fails =
      let h = step s byte buffer full more fits fails in
      let early = short_of s.received_fw_size s.total_fw_size more in
      rw (id, bytes, early.0, data_loop, early.1, h.0)
        (refl, h.1, h.2 ∙ sym h.3, omega (arith, h, more))
