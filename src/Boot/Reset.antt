-- ===== src/Boot/Reset.antt =====
-- The choice at reset: src/main.c with the checks of src/fw_upgrade.c.
use zephyr_app.Common.{Bool, false, if◌then◌else◌, leb, ltb, none, some, true, ℕ, ◌&&◌, ◌+◌, ◌==◌}
use zephyr_app.Boot.{
  FlashDev, flash_app_end_addr, flash_app_start_addr, flash_flag_addr, upgrade_flag_value,
}

-- What the bootloader does after a reset: it waits for an upgrade with LED 1 on, jumps to the app,
-- or stays with LED 2 on.
pub data Outcome : Type 0 where
  upgrade_mode run_app stay : Outcome

module _ {S : Type 0} (dev : FlashDev S) where
  -- a `flash_read` into a word that is 0 before: a failed read leaves the 0
  abbrev pub read_or_zero : S → ℕ → ℕ
  read_or_zero flash addr = elim (dev.read_word flash addr) [ none ↦ 0 | some w ↦ w ]

  -- `VerifyAppFirmware`
  pub verify_app_firmware : S → Bool
  verify_app_firmware flash =
      let app_stack_ptr = read_or_zero flash flash_app_start_addr in
      let app_reset_vec = read_or_zero flash (flash_app_start_addr + 4) in
      leb 0x20000000 app_stack_ptr
      && ltb app_stack_ptr 0x2000C000
      && leb flash_app_start_addr app_reset_vec
      && ltb app_reset_vec flash_app_end_addr

  -- `CheckUpgradeFlag`
  unfoldable pub check_upgrade_flag : S → Bool
  check_upgrade_flag flash = read_or_zero flash flash_flag_addr == upgrade_flag_value

  -- `ClearUpgradeFlag`. The result of the page lookup is not checked in the code; where it fails,
  -- the erased page is not determined, and the flash is left as it is here.
  unfoldable pub clear_upgrade_flag : S → S
  clear_upgrade_flag flash = elim (dev.page_info flash flash_flag_addr) [
    | none ↦ flash
    | some (start, page) ↦ (dev.erase flash start page).1
  ]

  -- `enter_upgrade_mode`, on a board with the button: `level` is the level of its pin.
  pub enter_upgrade_mode : ℕ → S → Bool × S
  enter_upgrade_mode level flash =
      if level == 0
      then (true, flash)
      else if check_upgrade_flag flash
      then (true, clear_upgrade_flag flash)
      else (false, flash)

  -- `main` up to its endless sleep
  pub main : ℕ → S → Outcome × S
  unfolding enter_upgrade_mode check_upgrade_flag verify_app_firmware
  main level flash =
      let (upgrade, flash') = enter_upgrade_mode level flash in
      if upgrade
      then (upgrade_mode, flash')
      else if verify_app_firmware flash'
      then (run_app, flash')
      else (stay, flash')
