-- ===== src/Laser/Firmware/Transfer.antt =====
-- An upgrade of the laser controller from its start command to its confirmation.
use zephyr_app.Common.{
  All, Bool, List, [], ap, append-nil, append_assoc, arith, false, if◌then◌else◌, length,
  length-append, not, refl, take, true, u32, ℕ, ◌&&◌, ◌++◌, ◌+◌, ◌<◌, ◌==◌, ◌^◌, ◌||◌, ◌∷◌, ◌≡◌,
}
use zephyr_app.Zephyr.{CanFrame, Dlc, Slot, data_32}
use zephyr_app.Laser.Cob
use zephyr_app.Laser.Firmware.{
  Effect, Firmware, boot_request_upgrade, confirm, fw_can_recevie, fw_data, fw_update, run,
  start_update,
}

-- The image writer and the erasing succeed. `image` is what has been handed to the writer since it
-- was made ready; after a flush the writer counts its bytes, as far as 32 bits count.
pub record Counts {S : Type 0} (io : Slot S) (flatten : S → ℕ × S) (image : S → List ℕ)
    : Type 0 where
  pub inits : (x : S) → (io.img_init x).0 ≡ 0
  pub erases : (x : S) → (flatten (io.img_init x).1).0 ≡ 0
  pub empties : (x : S) → image (flatten (io.img_init x).1).1 ≡ []
  pub writes : (x : S) (d : List ℕ) → (io.img_write x d false).0 ≡ 0
  pub appends : (x : S) (d : List ℕ) → image (io.img_write x d false).1 ≡ image x ++ d
  pub counts :
      (x : S)
      → length (image x) < 2 ^ 32
      → io.bytes_written (io.img_write x [] true).1 ≡ length (image x)

-- the bytes that a frame carries
abbrev pub carried : Dlc → CanFrame → List ℕ
carried dlc f = take (dlc.to_bytes f.dlc) f.bytes

abbrev pub joined : Dlc → List CanFrame → List ℕ
joined dlc [] = []
joined dlc (f ∷ fs) = carried dlc f ++ joined dlc fs

-- A data frame with as many bytes as its code says.
abbrev pub IsData : Dlc → CanFrame → Type 0
IsData dlc f = (f.id ≡ Cob.fw_data_rx) × (length (carried dlc f) ≡ dlc.to_bytes f.dlc)

-- After one of the frames, `n` bytes having come before them, exactly `total` bytes have come.
abbrev pub reaches : Dlc → ℕ → ℕ → List CanFrame → Bool
reaches dlc total n [] = false
reaches dlc total n (f ∷ fs) =
    let m = n + length (carried dlc f) in m == total || reaches dlc total m fs

module _ {S : Type 0} (io : Slot S) (flatten : S → ℕ × S) (dlc : Dlc) (app_version fpga_version : ℕ)
    (image : S → List ℕ) (ok : Counts io flatten image) where
  abbrev step : Firmware S → CanFrame → Firmware S × List Effect
  step = fw_update io flatten dlc app_version fpga_version

  -- the state in an upgrade of `total` bytes that was handed the bytes `d`
  record IsRunning (m : Firmware S) (d : List ℕ) (total : ℕ) (updating : Bool) : Type 0 where
    handed : image m.slot ≡ d
    counted : m.offset ≡ u32 (length d)
    announced : m.total_size ≡ total
    flagged : m.updating ≡ updating

  start_step :
      (m : Firmware S) (frame : CanFrame)
      → frame.id ≡ Cob.platform_rx
      → data_32 frame 0 ≡ Cob.board_start_update
      → dlc.to_bytes frame.dlc ≡ 8
      → IsRunning (step m frame).0 [] (data_32 frame 1) true
  unfolding fw_update start_update
  start_step m frame id code eight =
      ground (arith, ok.inits m.slot, ok.erases m.slot, ok.empties m.slot)

  data_step :
      (m : Firmware S) (frame : CanFrame) (d : List ℕ) (total : ℕ) (u : Bool)
      → IsData dlc frame
      → length d + length (carried dlc frame) < 2 ^ 32
      → IsRunning m d total u
      → IsRunning
          (step m frame).0
          (d ++ carried dlc frame)
          total
          (u && not (length d + length (carried dlc frame) == total))
  unfolding fw_update fw_data
  data_step m frame d total u sized fits r = ground (
    arith,
    ok.writes m.slot (carried dlc frame),
    ok.appends m.slot (carried dlc frame),
    length-append d (carried dlc frame),
  )

  both_not : (u a b : Bool) → ((u && not a) && not b) ≡ (u && not (a || b))
  both_not false a b = refl
  both_not true true b = refl
  both_not true false b = refl

  data_run :
      (m : Firmware S) (frames : List CanFrame) (d : List ℕ) (total : ℕ) (u : Bool)
      → All (IsData dlc) frames
      → length d + length (joined dlc frames) < 2 ^ 32
      → IsRunning m d total u
      → IsRunning
          (run io flatten dlc app_version fpga_version m frames).0
          (d ++ joined dlc frames)
          total
          (u && not (reaches dlc total (length d) frames))
  unfolding run
  data_run m [] d total u sized fits r = rw (append-nil d) record {
    handed = r.handed;
    counted = r.counted;
    announced = r.announced;
    flagged = rw r.flagged (ground arith);
  }
  data_run m (f ∷ fs) d total u sized fits r =
      let c = carried dlc f in
      let sum = length-append d c in
      let split = length-append c (joined dlc fs) in
      let now = data_step m f d total u sized.0 (omega (arith, fits, split)) r in
      let rest =
        data_run (step m f).0 fs (d ++ c) total _ sized.1 (omega (arith, fits, split, sum)) now in
      rw (append_assoc d c (joined dlc fs), sum, both_not u _ _) at rest

  confirm_lem :
      (m : Firmware S) (frame : CanFrame) (d : List ℕ) (total : ℕ) (u : Bool)
      → frame.id ≡ Cob.platform_rx
      → data_32 frame 0 ≡ Cob.board_confirm
      → length d < 2 ^ 32
      → IsRunning m d total u
      → (step m frame).1 ≡ (
          if length d == total
          then boot_request_upgrade (data_32 frame 1) ∷ fw_can_recevie Cob.confirm 0x55AA55AA ∷ []
          else fw_can_recevie Cob.tranfer_error (length d) ∷ [])
  unfolding fw_update confirm
  confirm_lem m frame d total u id code fits r =
      let small : length (image m.slot) < 2 ^ 32 = rw r.handed fits in
      let written = ok.counts m.slot small in ground (arith, written, r.handed, ap length r.handed)

  -- A start command, data frames with as many bytes as their codes say, fewer than 2 ^ 32 in all,
  -- and a confirmation, with a flash that does not fail: what is handed to the image writer is the
  -- bytes of the data frames in their order. The update's bit is set until, after one of the frames,
  -- exactly the announced number of bytes has come. The confirmation asks for the upgrade if that
  -- number has come in all, and else answers with the number that came.
  pub laser_transfer :
      (m : Firmware S) (start : CanFrame) (frames : List CanFrame) (last : CanFrame)
      → start.id ≡ Cob.platform_rx
      → data_32 start 0 ≡ Cob.board_start_update
      → dlc.to_bytes start.dlc ≡ 8
      → All (IsData dlc) frames
      → length (joined dlc frames) < 2 ^ 32
      → last.id ≡ Cob.platform_rx
      → data_32 last 0 ≡ Cob.board_confirm
      → let before = (run io flatten dlc app_version fpga_version m (start ∷ frames)).0 in
        let came = length (joined dlc frames) in
        let announced = data_32 start 1 in
        (image before.slot ≡ joined dlc frames)
        × (before.updating ≡ not (reaches dlc announced 0 frames))
        × ((fw_update io flatten dlc app_version fpga_version before last).1 ≡ (
            if came == announced
            then boot_request_upgrade (data_32 last 1) ∷ fw_can_recevie Cob.confirm 0x55AA55AA ∷ []
            else fw_can_recevie Cob.tranfer_error came ∷ []))
  unfolding run
  laser_transfer m start frames last id code eight sized fits last_id last_code =
      let t = (step m start).0 in
      let begun = start_step m start id code eight in
      let r = data_run t frames [] (data_32 start 1) true sized (omega (arith, fits)) begun in
      (r.handed, r.flagged, confirm_lem _ last _ _ _ last_id last_code fits r)
