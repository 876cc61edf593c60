-- ===== src/CanFw/Cmd.antt =====
-- `enum fw_cmd` of libs/can_fw_upgrade/can_fw_upgrade.c.
use zephyr_app.Common.{ℕ}

abbrev pub start_update : ℕ
start_update = 0

abbrev pub confirm : ℕ
confirm = 1

abbrev pub version : ℕ
version = 2

abbrev pub reboot : ℕ
reboot = 3
