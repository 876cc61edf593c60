-- ===== src/Boot/Upgrade.antt =====
-- A whole upgrade of the bootloader: a start command, data frames, and the confirm command.
use zephyr_app.Common.{
  All, List, [], arith, if◌then◌else◌, length, ltb, take, true, ℕ, ◌*◌, ◌++◌, ◌+◌, ◌<◌, ◌==◌, ◌∷◌,
  ◌≡◌, ◌≤◌,
}
use zephyr_app.Zephyr.{CanFrame, Dlc, data_32}
use zephyr_app.Boot.{
  Boot, FlashDev, app_start_addr, board_confirm, board_start_update, can_id_fw_data_rx,
  can_id_platform_rx, flash_app_start_addr, flash_buffer_size, fw_code_confirm, fw_code_offset,
  fw_code_tranfer_error, fw_send_response, fw_update, jump_to_app, start_update,
}
use zephyr_app.Boot.Erase.{Pages, erase_loop_lem, erase_pages}
use zephyr_app.Boot.Stream.{IsStream, Programs, confirm_step, feed, feed_lem, joined}

module _ {S : Type 0} (dev : FlashDev S) (page : ℕ) (pages : Pages dev page) (image : S → List ℕ)
    (ok : Programs dev image) (dlc : Dlc) (app_version : ℕ) where
  -- `n` pages hold `total` bytes, and no fewer do
  abbrev pub IsPages : ℕ → ℕ → Type 0
  IsPages n total = (total ≤ n * page) × (n * page < total + page)

  start_step :
      (s : Boot S) (first : CanFrame) (n total : ℕ)
      → length s.flash_buffer ≡ flash_buffer_size
      → first.id ≡ can_id_platform_rx
      → dlc.to_bytes first.dlc ≡ 8
      → data_32 first 0 ≡ board_start_update
      → data_32 first 1 ≡ total
      → total ≤ 0x30000
      → page ≤ 0x30000
      → IsPages n total
      → image (erase_pages dev page pages n s.flash flash_app_start_addr) ≡ []
      → let (t, done, ret) = fw_update dev dlc app_version s first in
        IsStream dev image ok t s.response_cb total []
        × (done ≡ fw_send_response s.response_cb fw_code_offset 0)
        × (ret ≡ true)
  unfolding fw_update start_update
  start_step s first n total buffer id eight command size fits paged held empty =
      let erased =
        erase_loop_lem dev page pages total n s.flash flash_app_start_addr total (omega arith)
          held.1 held.0 (omega (arith, held.1)) in
      let whole : (if ltb 0x30000 total then 0x30000 else total) ≡ total = ground (arith, fits) in
      rw (id, eight, command, size, whole, erased) (ground (arith, empty, buffer))

  -- A start command for at most 0x30000 bytes, data frames, and a confirm command, all over one
  -- transport, on a flash with pages of one size, at most 0x30000 bytes, that erases and programs
  -- without failing and whose area is empty once its pages are erased; the flash buffer has its 64
  -- bytes. In the end the app's area holds the bytes of the data frames in their order, up to the
  -- announced size. If as many bytes came as
  -- announced, the bootloader answers the confirm command and jumps to the app; else it answers
  -- with the number of bytes that came, as a transfer error, and does not jump.
  pub boot_upgrade :
      (s : Boot S) (first : CanFrame) (frames : List CanFrame) (last : CanFrame) (n total : ℕ)
      → length s.flash_buffer ≡ flash_buffer_size
      → first.id ≡ can_id_platform_rx
      → dlc.to_bytes first.dlc ≡ 8
      → data_32 first 0 ≡ board_start_update
      → data_32 first 1 ≡ total
      → total ≤ 0x30000
      → page ≤ 0x30000
      → IsPages n total
      → image (erase_pages dev page pages n s.flash flash_app_start_addr) ≡ []
      → All (λ (f : CanFrame). f.id ≡ can_id_fw_data_rx) frames
      → last.id ≡ can_id_platform_rx
      → data_32 last 0 ≡ board_confirm
      → let begun = (fw_update dev dlc app_version s first).0 in
        let (t, done, ret) =
          fw_update dev dlc app_version (feed dev dlc app_version begun frames) last in
        let received = take total (joined dlc frames) in
        (image t.flash ≡ received)
        × (ret ≡ (length received == total))
        × (done ≡ (
            if length received == total
            then fw_send_response s.response_cb fw_code_confirm 0x55AA55AA
              ++ (jump_to_app app_start_addr ∷ [])
            else fw_send_response s.response_cb fw_code_tranfer_error (length received)))
  unfolding fw_update
  boot_upgrade s first frames last n total buffer id eight command size fits paged held empty all
        last_id last_command =
      let begun = start_step s first n total buffer id eight command size fits paged held empty in
      let running =
        feed_lem dev image ok dlc app_version (fw_update dev dlc app_version s first).0
          s.response_cb total [] frames begun.0 all in
      rw (last_id, last_command)
        (confirm_step dev image ok dlc app_version
          (feed dev dlc app_version (fw_update dev dlc app_version s first).0 frames) s.response_cb
          total (take total (joined dlc frames)) running)
