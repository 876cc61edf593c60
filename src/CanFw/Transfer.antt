-- ===== src/CanFw/Transfer.antt =====
-- An upgrade from its start command to its confirmation.
use zephyr_app.Common.{
  All, Bool, List, [], ap, arith, drop, false, if◌then◌else◌, length, map, refl, suc, take, true,
  u32, u8, zero, ℕ, ◌++◌, ◌+◌, ◌-◌, ◌<◌, ◌==◌, ◌^◌, ◌∙◌, ◌∷◌, ◌≡◌, ◌≢◌,
}
use zephyr_app.Zephyr.{CanFrame, Dlc, Slot, data_32}
use zephyr_app.Handlers.{Handler, broadcast}
use zephyr_app.CanFw.{
  Action, CanFw, boot_request_upgrade, call, can_fw_fw_data_rx, can_fw_platform_rx, confirm,
  fw_can_reply, fw_can_send_version_string, handle_fw_data, handle_keyhash_frame,
  handle_platform_rx, image_init, keyhash_check, rx_thread_step, send, start_update, sys_reboot,
  version_loop,
}
use zephyr_app.CanFw.Cmd
use zephyr_app.CanFw.Code
use native.Mathlib.Nat.{add-zero, add_assoc}

-- the arguments of the calls of `boot_request_upgrade`
unfoldable pub requests : List Action → List ℕ
requests [] = []
requests (send f ∷ rest) = requests rest
requests (boot_request_upgrade p ∷ rest) = p ∷ requests rest
requests (sys_reboot ∷ rest) = requests rest
requests (call h ∷ rest) = requests rest

requests-calls : (hs : List Handler) → requests (map call hs) ≡ []
unfolding requests
requests-calls [] = refl
requests-calls (h ∷ hs) = requests-calls hs

requests-version_loop :
    (dlc : Dlc) (fuel : ℕ) (text : List ℕ) (left seq : ℕ)
    → requests (version_loop dlc fuel text left seq) ≡ []
unfolding requests version_loop
requests-version_loop dlc zero text left seq = refl
requests-version_loop dlc (suc fuel) text left seq =
    ground (arith, requests-version_loop dlc fuel (drop 7 text) (left - 7) (seq + 1))

requests-version :
    (dlc : Dlc) (text : List ℕ) (len : ℕ) → requests (fw_can_send_version_string dlc text len) ≡ []
unfolding fw_can_send_version_string
requests-version dlc text len = requests-version_loop dlc len text len 0

requests-append : (xs ys : List Action) → requests (xs ++ ys) ≡ requests xs ++ requests ys
unfolding requests
requests-append [] ys = refl
requests-append (send f ∷ xs) ys = requests-append xs ys
requests-append (boot_request_upgrade p ∷ xs) ys = ap (λ l. p ∷ l) (requests-append xs ys)
requests-append (sys_reboot ∷ xs) ys = requests-append xs ys
requests-append (call h ∷ xs) ys = requests-append xs ys

-- a start command
abbrev pub IsStart : CanFrame → Type 0
IsStart frame = (frame.id ≡ can_fw_platform_rx) × (data_32 frame 0 ≡ Cmd.start_update)

-- the bytes that a list of frames carries
unfoldable pub total_bytes : Dlc → List CanFrame → ℕ
total_bytes dlc [] = 0
total_bytes dlc (f ∷ fs) = dlc.to_bytes f.dlc + total_bytes dlc fs

-- No call on slot 1, on the image writer or on the bootloader fails.
pub record Works {S : Type 0} (io : Slot S) : Type 0 where
  pub opens : (x : S) → io.area_open x ≡ 0
  pub inits : (x : S) → (io.img_init x).0 ≡ 0
  pub writes : (x : S) (d : List ℕ) (flush : Bool) → (io.img_write x d flush).0 ≡ 0
  pub boots : (x : S) (p : ℕ) → (io.boot_request x p).0 ≡ 0

module _ {S : Type 0} (io : Slot S) (dlc : Dlc) (fw_keyhash version : List ℕ)
    (answer : CanFrame → ℕ → ℕ → Bool) where
  -- the thread over the frames of its queue
  unfoldable pub run : CanFw S → List CanFrame → CanFw S × List Action
  run s [] = (s, [])
  run s (f ∷ fs) =
      let (t, done) = rx_thread_step io dlc fw_keyhash version answer s f in
      let (u, more) = run t fs in (u, done ++ more)

  -- The bootloader is asked for an upgrade only by a confirm command, with that command's argument,
  -- and only when an upgrade was started and exactly the announced number of bytes was written.
  pub upgrade_needs_image :
      (s : CanFw S) (frame : CanFrame)
      → requests (rx_thread_step io dlc fw_keyhash version answer s frame).1 ≢ []
      → (frame.id ≡ can_fw_platform_rx)
        × (data_32 frame 0 ≡ Cmd.confirm)
        × (s.fw_img_initialized ≡ true)
        × (s.fw_written ≡ s.fw_total_size)
        × (requests (rx_thread_step io dlc fw_keyhash version answer s frame).1
            ≡ data_32 frame 1 ∷ [])
  unfolding rx_thread_step handle_platform_rx start_update confirm handle_fw_data requests
  upgrade_needs_image s frame ne = ground (
    arith,
    requests-calls (broadcast (answer frame) s.handlers).0,
    requests-version dlc (take 23 version) (u8 (length version)),
  )

  idle_step :
      (s : CanFw S) (frame : CanFrame)
      → s.fw_img_initialized ≡ false
      → ¬ IsStart frame
      → let (t, done) = rx_thread_step io dlc fw_keyhash version answer s frame in
        (t.slot ≡ s.slot) × (t.fw_img_initialized ≡ false) × (requests done ≡ [])
  unfolding rx_thread_step handle_platform_rx confirm handle_fw_data handle_keyhash_frame requests
  idle_step s frame i ns = ground (
    arith,
    requests-calls (broadcast (answer frame) s.handlers).0,
    requests-version dlc (take 23 version) (u8 (length version)),
  )

  -- Until a start command comes, no frame whatever reaches slot 1 or the bootloader.
  pub run_idle :
      (s : CanFw S) (frames : List CanFrame)
      → s.fw_img_initialized ≡ false
      → All (λ f. ¬ IsStart f) frames
      → let (t, done) = run s frames in
        (t.slot ≡ s.slot) × (t.fw_img_initialized ≡ false) × (requests done ≡ [])
  unfolding run requests
  run_idle s [] i ns = (refl, i, refl)
  run_idle s (f ∷ fs) i ns =
      let (t, done) = rx_thread_step io dlc fw_keyhash version answer s f in
      let (slot, idle, quiet) = idle_step s f i ns.0 in
      let (slot', idle', quiet') = run_idle t fs idle ns.1 in
      (slot' ∙ slot, idle', rw (requests-append done (run t fs).1, quiet) quiet')

  -- the state while an upgrade runs: `w` bytes written of `total`
  record IsRunning (s : CanFw S) (w total : ℕ) : Type 0 where
    initialized : s.fw_img_initialized ≡ true
    written : s.fw_written ≡ u32 w
    announced : s.fw_total_size ≡ total

  data_step :
      (s : CanFw S) (frame : CanFrame) {w total : ℕ}
      → Works io
      → frame.id ≡ can_fw_fw_data_rx
      → IsRunning s w total
      → IsRunning
          (rx_thread_step io dlc fw_keyhash version answer s frame).0
          (w + dlc.to_bytes frame.dlc)
          total
  unfolding rx_thread_step handle_fw_data
  data_step s frame ok id r =
      ground (arith, ok.writes s.slot (take (dlc.to_bytes frame.dlc) frame.bytes) false)

  data_run :
      (s : CanFw S) (frames : List CanFrame) (w total : ℕ)
      → Works io
      → All (λ f. f.id ≡ can_fw_fw_data_rx) frames
      → IsRunning s w total
      → IsRunning (run s frames).0 (w + total_bytes dlc frames) total
  unfolding run total_bytes
  data_run s [] w total ok ids r = rw add-zero r
  data_run s (f ∷ fs) w total ok ids r =
      let t = (rx_thread_step io dlc fw_keyhash version answer s f).0 in
      rw (← add_assoc w (dlc.to_bytes f.dlc) (total_bytes dlc fs))
        (data_run t fs (w + dlc.to_bytes f.dlc) total ok ids.1 (data_step s f ok ids.0 r))

  -- what a start command makes of the count: it restarts only when no upgrade runs
  abbrev kept : CanFw S → ℕ
  kept s = if s.fw_img_initialized then s.fw_written else 0

  start_step :
      (s : CanFw S) (frame : CanFrame)
      → Works io
      → IsStart frame
      → dlc.to_bytes frame.dlc ≡ 8
      → (keyhash_check io dlc fw_keyhash version s).1 ≡ true
      → s.fw_written < 2 ^ 32
      → let (t, done) = rx_thread_step io dlc fw_keyhash version answer s frame in
        IsRunning t (kept s) (data_32 frame 1) × (done ≡ fw_can_reply dlc Code.offset 0 ∷ [])
  unfolding rx_thread_step handle_platform_rx start_update image_init keyhash_check
  start_step s frame ok st eight key fits =
      ground (arith, ok.opens s.slot, ok.inits (io.area_erase s.slot))

  confirm_step :
      (s : CanFw S) (frame : CanFrame) (w total : ℕ)
      → Works io
      → frame.id ≡ can_fw_platform_rx
      → data_32 frame 0 ≡ Cmd.confirm
      → IsRunning s w total
      → let (t, done) = rx_thread_step io dlc fw_keyhash version answer s frame in
        (t.fw_img_initialized ≡ false)
        × (done ≡ (
            if u32 w == total
            then boot_request_upgrade (data_32 frame 1)
              ∷ fw_can_reply dlc Code.confirm 0x55AA55AA
              ∷ []
            else fw_can_reply dlc Code.tranfer_error 0 ∷ []))
  unfolding rx_thread_step handle_platform_rx confirm
  confirm_step s frame w total ok id cmd r =
      ground (arith, ok.boots (io.img_write s.slot [] true).1 (data_32 frame 1))

  -- A start command, data frames and a confirm command, with a flash that does not fail and no
  -- wrong key: the confirmation asks for the upgrade and reports it exactly when the count that
  -- was kept at the start, plus the bytes of the data frames, modulo 2 ^ 32, is the announced
  -- size. Otherwise it reports a transfer error. In both cases the upgrade is over. The kept count
  -- is 0 unless an upgrade was running at the start command.
  pub can_transfer :
      (s : CanFw S) (start : CanFrame) (frames : List CanFrame) (last : CanFrame)
      → Works io
      → IsStart start
      → dlc.to_bytes start.dlc ≡ 8
      → (keyhash_check io dlc fw_keyhash version s).1 ≡ true
      → s.fw_written < 2 ^ 32
      → All (λ f. f.id ≡ can_fw_fw_data_rx) frames
      → last.id ≡ can_fw_platform_rx
      → data_32 last 0 ≡ Cmd.confirm
      → let before = (run s (start ∷ frames)).0 in
        let (after, done) = rx_thread_step io dlc fw_keyhash version answer before last in
        (after.fw_img_initialized ≡ false)
        × (done ≡ (
            if u32 (kept s + total_bytes dlc frames) == data_32 start 1
            then boot_request_upgrade (data_32 last 1)
              ∷ fw_can_reply dlc Code.confirm 0x55AA55AA
              ∷ []
            else fw_can_reply dlc Code.tranfer_error 0 ∷ []))
  unfolding run
  can_transfer s start frames last ok st eight key fits ids id cmd =
      let t = (rx_thread_step io dlc fw_keyhash version answer s start).0 in
      let (running, reply) = start_step s start ok st eight key fits in
      confirm_step (run t frames).0 last _ _ ok id cmd
        (data_run t frames (kept s) (data_32 start 1) ok ids running)

  -- A start command while an upgrade runs that has written some bytes is answered with offset 0,
  -- but the count goes on: when the whole image of the announced size is sent again, the
  -- confirmation reports a transfer error and asks for no upgrade.
  pub restart_fails :
      (s : CanFw S) (start : CanFrame) (frames : List CanFrame) (last : CanFrame)
      → Works io
      → IsStart start
      → dlc.to_bytes start.dlc ≡ 8
      → (keyhash_check io dlc fw_keyhash version s).1 ≡ true
      → s.fw_img_initialized ≡ true
      → 0 < s.fw_written
      → s.fw_written < 2 ^ 32
      → All (λ f. f.id ≡ can_fw_fw_data_rx) frames
      → total_bytes dlc frames ≡ data_32 start 1
      → data_32 start 1 < 2 ^ 32
      → last.id ≡ can_fw_platform_rx
      → data_32 last 0 ≡ Cmd.confirm
      → let before = (run s (start ∷ frames)).0 in
        ((rx_thread_step io dlc fw_keyhash version answer s start).1
          ≡ fw_can_reply dlc Code.offset 0 ∷ [])
        × ((rx_thread_step io dlc fw_keyhash version answer before last).1
            ≡ fw_can_reply dlc Code.tranfer_error 0 ∷ [])
  restart_fails s start frames last ok st eight key i pos fits ids sum small id cmd =
      let (over, done) = can_transfer s start frames last ok st eight key fits ids id cmd in
      let off : (u32 (kept s + total_bytes dlc frames) == data_32 start 1) ≡ false =
        rw i (ground arith) in
      ((start_step s start ok st eight key fits).1, rw off at done)
