-- ===== src/Boot/Stream.antt =====
-- The bytes of an upgrade on their way through the flash buffer to the app's area.
use zephyr_app.Common.{
  All, Bool-cases, List, [], ap, append-nil, append_assoc, arith, if◌then◌else◌, inl, inr, leb,
  length, length-append, length-set, length-take, ltb, refl, set, suc, sym, take, take-append_left,
  take-set, take_all, true, u16, u32, zero, ℕ, ◌++◌, ◌+◌, ◌<◌, ◌==◌, ◌∷◌, ◌≡◌, ◌≤◌,
}
use zephyr_app.Zephyr.{CanFrame, Dlc}
use zephyr_app.Boot.{
  Boot, FlashDev, Transport, app_start_addr, byte_step, can_id_fw_data_rx, confirm, data_loop,
  flash_app_start_addr, flash_buffer_size, fw_code_confirm, fw_code_tranfer_error, fw_send_response,
  fw_update, jump_to_app,
}

pub take-take_append :
    {A : Type 0} → (n : ℕ) (xs ys : List A) → take n (take n xs ++ ys) ≡ take n (xs ++ ys)
take-take_append zero xs ys = refl
take-take_append (suc n) [] ys = refl
take-take_append (suc n) (x ∷ xs) ys = ap (λ l. x ∷ l) (take-take_append n xs ys)

-- `image` is what has been programmed in the app's area, from its start on. Programming the bytes
-- that follow it succeeds within the area.
pub record Programs {S : Type 0} (dev : FlashDev S) (image : S → List ℕ) : Type 0 where
  pub writes :
      (x : S) (d : List ℕ)
      → length (image x) + length d ≤ 0x30000
      → (dev.write x (flash_app_start_addr + length (image x)) d).0 ≡ 0
  pub appends :
      (x : S) (d : List ℕ)
      → length (image x) + length d ≤ 0x30000
      → image (dev.write x (flash_app_start_addr + length (image x)) d).1 ≡ image x ++ d

module _ {S : Type 0} (dev : FlashDev S) (image : S → List ℕ) (ok : Programs dev image) where
  -- In an upgrade of `total` bytes by `via`, `d` has been received: it is what is programmed, then what is
  -- in the buffer; and nothing is left in the buffer once everything has come.
  pub record IsStream (s : Boot S) (via : Transport) (total : ℕ) (d : List ℕ) : Type 0 where
    pub fits : total ≤ 0x30000
    pub answers : s.response_cb ≡ via
    pub of_total : s.total_fw_size ≡ total
    pub buffer : length s.flash_buffer ≡ flash_buffer_size
    pub room : s.flash_buffer_index < flash_buffer_size
    pub holds : image s.flash ++ take s.flash_buffer_index s.flash_buffer ≡ d
    pub at_end : s.current_flash_addr ≡ flash_app_start_addr + length (image s.flash)
    pub counted : s.received_fw_size ≡ length d
    pub bounded : length d ≤ total
    pub flushed : length d ≡ total → s.flash_buffer_index ≡ 0

  pub byte_step_lem :
      (s : Boot S) (via : Transport) (total : ℕ) (d : List ℕ) (byte : ℕ)
      → IsStream s via total d
      → length d < total
      → let (t, done, go_on) = byte_step dev s byte in
        IsStream t via total (d ++ (byte ∷ [])) × (go_on ≡ true)
  unfolding byte_step
  byte_step_lem s via total d byte h more =
      let i = s.flash_buffer_index in
      let new = set s.flash_buffer i byte in
      let within : i < length s.flash_buffer = omega (arith, h.room, h.buffer) in
      let one : i + 1 ≡ suc i = omega arith in
      let index : u16 (i + 1) ≡ i + 1 = omega (arith, h.room) in
      let received : u32 (s.received_fw_size + 1) ≡ length d + 1 =
        omega (arith, h.counted, h.bounded, h.fits) in
      let part : take (i + 1) new ≡ take i s.flash_buffer ++ (byte ∷ []) =
        rw one (take-set i s.flash_buffer byte within) in
      let whole : image s.flash ++ take (i + 1) new ≡ d ++ (byte ∷ []) =
        rw part
          (rw (← append_assoc (image s.flash) (take i s.flash_buffer) (byte ∷ []), h.holds) refl) in
      let sized : length (image s.flash) + i ≡ length d = omega (
        arith,
        ap length h.holds,
        length-append (image s.flash) (take i s.flash_buffer),
        length-take i s.flash_buffer,
      ) in
      let longer : length (d ++ (byte ∷ [])) ≡ length d + 1 = length-append d (byte ∷ []) in
      let wrote : length (take (i + 1) new) ≡ i + 1 =
        omega (arith, length-take (i + 1) new, length-set s.flash_buffer i byte) in
      let small : length (image s.flash) + length (take (i + 1) new) ≤ 0x30000 =
        omega (arith, h.fits) in
      ground (
        arith,
        index,
        received,
        whole,
        longer,
        wrote,
        sized,
        h.fits,
        h.bounded,
        h.counted,
        length-set s.flash_buffer i byte,
        rw (← h.at_end) at (ok.writes s.flash (take (i + 1) new) small),
        rw (← h.at_end) at (ok.appends s.flash (take (i + 1) new) small),
        length-append (image s.flash) (take (i + 1) new),
        append-nil (d ++ (byte ∷ [])),
      )

  pub data_loop_lem :
      (s : Boot S) (via : Transport) (total : ℕ) (d bytes : List ℕ)
      → IsStream s via total d
      → let (t, done, ret) = data_loop dev s bytes in
        IsStream t via total (take total (d ++ bytes)) × (ret ≡ true)
  unfolding data_loop
  data_loop_lem s via total d [] h = rw (append-nil d, take_all total d h.bounded) (h, refl)
  data_loop_lem s via total d (byte ∷ bytes) h =
      elim (Bool-cases (ltb s.received_fw_size s.total_fw_size)) [
        | inl more ↦
            let step =
              byte_step_lem s via total d byte h (ground (arith, more, h.counted, h.of_total)) in
            let rest =
              data_loop_lem (byte_step dev s byte).0 via total (d ++ (byte ∷ [])) bytes step.0 in
            rw (more, step.1, ← append_assoc d (byte ∷ []) bytes) rest
        | inr full ↦
            let whole : length d ≡ total = ground (arith, full, h.bounded, h.counted, h.of_total) in
            rw (full, take-append_left total d (byte ∷ bytes) (sym whole)) (h, refl)
      ]

  -- A data frame in an upgrade carries its bytes on, up to the announced size.
  data_step :
      (dlc : Dlc) (app_version : ℕ) (s : Boot S) (via : Transport) (total : ℕ) (d : List ℕ)
      (frame : CanFrame)
      → IsStream s via total d
      → frame.id ≡ can_id_fw_data_rx
      → IsStream
          (fw_update dev dlc app_version s frame).0
          via
          total
          (take total (d ++ take (dlc.to_bytes frame.dlc) frame.bytes))
  unfolding fw_update
  data_step dlc app_version s via total d frame h id =
      let bytes = take (dlc.to_bytes frame.dlc) frame.bytes in
      elim (Bool-cases (leb s.total_fw_size s.received_fw_size)) [
        | inl full ↦
            let whole : length d ≡ total = ground (arith, full, h.bounded, h.counted, h.of_total) in
            rw (id, full, take-append_left total d bytes (sym whole)) h
        | inr more ↦ rw (id, more) (data_loop_lem s via total d bytes h).0
      ]

-- the bytes of data frames, one after the other
abbrev pub joined : Dlc → List CanFrame → List ℕ
joined dlc [] = []
joined dlc (f ∷ fs) = take (dlc.to_bytes f.dlc) f.bytes ++ joined dlc fs

module _ {S : Type 0} (dev : FlashDev S) (dlc : Dlc) (app_version : ℕ) where
  -- `fw_update` on one frame after the other
  pub feed : Boot S → List CanFrame → Boot S
  feed s [] = s
  feed s (f ∷ fs) = feed (fw_update dev dlc app_version s f).0 fs

module _ {S : Type 0} (dev : FlashDev S) (image : S → List ℕ) (ok : Programs dev image) (dlc : Dlc)
    (app_version : ℕ) where
  pub feed_lem :
      (s : Boot S) (via : Transport) (total : ℕ) (d : List ℕ) (frames : List CanFrame)
      → IsStream dev image ok s via total d
      → All (λ (f : CanFrame). f.id ≡ can_id_fw_data_rx) frames
      → IsStream dev image ok
          (feed dev dlc app_version s frames)
          via
          total
          (take total (d ++ joined dlc frames))
  unfolding feed
  feed_lem s via total d [] h id = rw (append-nil d, take_all total d h.bounded) h
  feed_lem s via total d (f ∷ fs) h id =
      let bytes = take (dlc.to_bytes f.dlc) f.bytes in
      let step = data_step dev image ok dlc app_version s via total d f h id.0 in
      rw
        (
          ← append_assoc d bytes (joined dlc fs),
          ← take-take_append total (d ++ bytes) (joined dlc fs),
        )
        (feed_lem (fw_update dev dlc app_version s f).0 via total (take total (d ++ bytes)) fs step
          id.1)

  -- The confirm command programs what is left in the buffer, and goes by the count of the bytes.
  pub confirm_step :
      (s : Boot S) (via : Transport) (total : ℕ) (d : List ℕ)
      → IsStream dev image ok s via total d
      → let (t, done, ret) = confirm dev s in
        (image t.flash ≡ d)
        × (ret ≡ (length d == total))
        × (done ≡ (
            if length d == total
            then fw_send_response via fw_code_confirm 0x55AA55AA
              ++ (jump_to_app app_start_addr ∷ [])
            else fw_send_response via fw_code_tranfer_error (length d)))
  unfolding confirm
  confirm_step s via total d h =
      let left = take s.flash_buffer_index s.flash_buffer in
      let sized : length (image s.flash) + length left ≡ length d =
        omega (arith, ap length h.holds, length-append (image s.flash) left) in
      let small : length (image s.flash) + length left ≤ 0x30000 =
        omega (arith, sized, h.bounded, h.fits) in
      rw (h.counted, h.of_total, h.answers)
        (ground (
          arith,
          h.holds,
          append-nil (image s.flash),
          rw (← h.at_end) at (ok.appends s.flash left small),
        ))
