-- ===== src/CanFw/Tests.antt =====
-- Upgrades over CAN on concrete frames.
use zephyr_app.Common.{
  Bool, List, [], arith, false, length, refl, replicate, some, true, ℕ, ◌++◌, ◌∷◌, ◌≡◌, ◌≢◌,
}
use zephyr_app.Zephyr.{CanFrame, data_32}
use zephyr_app.Zephyr.Ram.{Ram, blank, classic, ram_slot}
use zephyr_app.Handlers.{no_handler}
use zephyr_app.CanFw.{
  CanFw, boot_request_upgrade, confirm, fw_can_reply, handle_fw_data, handle_platform_rx,
  image_init, keyhash_check, keyhash_full_mask, rx_thread_step, start_update,
}
use zephyr_app.CanFw.Code
use zephyr_app.CanFw.Cmd
use zephyr_app.CanFw.Keyhash.{collect, collect_complete, covers, start_update-keyhash}
use zephyr_app.CanFw.Transfer.{Works, can_transfer, requests, run, total_bytes, upgrade_needs_image}

abbrev device_key : List ℕ
device_key = 1 ∷ 2 ∷ 3 ∷ 4 ∷ 5 ∷ 6 ∷ 7 ∷ 8 ∷ 9 ∷ 10 ∷ replicate 22 0xAB

abbrev other_key : List ℕ
other_key = 2 ∷ 2 ∷ 3 ∷ 4 ∷ 5 ∷ 6 ∷ 7 ∷ 8 ∷ 9 ∷ 10 ∷ replicate 22 0xAB

-- "v0.1.0_6e199a"
abbrev text : List ℕ
text = 118 ∷ 48 ∷ 46 ∷ 49 ∷ 46 ∷ 48 ∷ 95 ∷ 54 ∷ 101 ∷ 49 ∷ 57 ∷ 57 ∷ 97 ∷ []

abbrev idle : CanFw Ram
idle = record {
  handlers = no_handler ∷ [];
  slot = blank;
  fw_img_initialized = false;
  fw_written = 0;
  fw_total_size = 0;
  rx_keybuf = replicate 32 0;
  key_chunk_mask = 0;
}

abbrev busy : CanFw Ram
busy = record idle { fw_img_initialized = true; fw_written = 8; fw_total_size = 11 }

abbrev start : CanFrame
start = record { id = 0x101; dlc = 8; bytes = 0 ∷ 0 ∷ 0 ∷ 0 ∷ 11 ∷ 0 ∷ 0 ∷ 0 ∷ [] }

abbrev confirmation : CanFrame
confirmation = record { id = 0x101; dlc = 8; bytes = 1 ∷ 0 ∷ 0 ∷ 0 ∷ 1 ∷ 0 ∷ 0 ∷ 0 ∷ [] }

abbrev image : List CanFrame
image =
    record { id = 0x103; dlc = 8; bytes = 9 ∷ 8 ∷ 7 ∷ 6 ∷ 5 ∷ 4 ∷ 3 ∷ 2 ∷ [] }
    ∷ record { id = 0x103; dlc = 3; bytes = 1 ∷ 1 ∷ 1 ∷ 0 ∷ 0 ∷ 0 ∷ 0 ∷ 0 ∷ [] }
    ∷ []

abbrev silent : CanFrame → ℕ → ℕ → Bool
silent f cb ud = false

ram_slot-Works : Works ram_slot
ram_slot-Works = record {
  opens = λ x. refl;
  inits = λ x. refl;
  writes = λ x d flush. refl;
  boots = λ x p. refl;
}

upgrade_runs :
    let (s, done) =
      run ram_slot classic device_key text silent idle (start ∷ image ++ (confirmation ∷ [])) in
    (requests done ≡ 1 ∷ []) × (s.slot.requested ≡ some 1) × (length s.slot.written ≡ 11)
unfolding run rx_thread_step handle_platform_rx start_update keyhash_check image_init confirm
    handle_fw_data requests
upgrade_runs = (refl, refl, refl)

collect_complete_example :
    collect ram_slot classic device_key text other_key idle (3 ∷ 0 ∷ 4 ∷ 0 ∷ 1 ∷ 2 ∷ [])
    ≡ record idle { rx_keybuf = other_key; key_chunk_mask = keyhash_full_mask }
unfolding covers
collect_complete_example =
    collect_complete ram_slot classic device_key text other_key idle (3 ∷ 0 ∷ 4 ∷ 0 ∷ 1 ∷ 2 ∷ [])
      refl refl refl (omega arith) (omega arith) refl

start_update-keyhash_example :
    let clean : CanFw Ram = record idle { rx_keybuf = other_key; key_chunk_mask = 0 } in
    let result =
      start_update ram_slot classic device_key text
        (collect ram_slot classic device_key text other_key idle (0 ∷ 1 ∷ 2 ∷ 3 ∷ 4 ∷ []))
        start in
    (other_key ≢ device_key → result ≡ (clean, fw_can_reply classic Code.keyhash_error 0 ∷ []))
    × (other_key ≡ device_key → result ≡ start_update ram_slot classic device_key text clean start)
unfolding covers
start_update-keyhash_example =
    start_update-keyhash ram_slot classic device_key text other_key idle (0 ∷ 1 ∷ 2 ∷ 3 ∷ 4 ∷ [])
      start refl refl refl refl (omega arith) (omega arith) refl

abbrev ready : CanFw Ram
ready = record busy { fw_written = 11 }

confirms :
    requests (rx_thread_step ram_slot classic device_key text silent ready confirmation).1 ≢ []
unfolding rx_thread_step handle_platform_rx confirm requests
confirms e = cc

upgrade_needs_image_example :
    (confirmation.id ≡ 0x101)
    × (data_32 confirmation 0 ≡ Cmd.confirm)
    × (ready.fw_img_initialized ≡ true)
    × (ready.fw_written ≡ 11)
    × (requests (rx_thread_step ram_slot classic device_key text silent ready confirmation).1
        ≡ 1 ∷ [])
upgrade_needs_image_example =
    upgrade_needs_image ram_slot classic device_key text silent ready confirmation confirms

can_transfer_example :
    let before = (run ram_slot classic device_key text silent idle (start ∷ image)).0 in
    let (after, done) =
      rx_thread_step ram_slot classic device_key text silent before confirmation in
    (after.fw_img_initialized ≡ false)
    × (done ≡ boot_request_upgrade 1 ∷ fw_can_reply classic Code.confirm 0x55AA55AA ∷ [])
unfolding total_bytes keyhash_check
can_transfer_example =
    can_transfer ram_slot classic device_key text silent idle start image confirmation
      ram_slot-Works (refl, refl) refl refl (omega arith) (refl, (refl, tt)) refl refl
