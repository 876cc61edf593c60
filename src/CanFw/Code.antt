-- ===== src/CanFw/Code.antt =====
-- `enum fw_code` of libs/can_fw_upgrade/can_fw_upgrade.c.
use zephyr_app.Common.{ℕ}

abbrev pub offset : ℕ
offset = 0

abbrev pub update_success : ℕ
update_success = 1

abbrev pub version : ℕ
version = 2

abbrev pub confirm : ℕ
confirm = 3

abbrev pub flash_error : ℕ
flash_error = 4

abbrev pub tranfer_error : ℕ
tranfer_error = 5

abbrev pub keyhash_error : ℕ
keyhash_error = 6
