-- ===== src/UdpFw/Cmd.antt =====
-- `enum fw_cmd` and `enum fw_start_status` of libs/udp_fw_upgrade/udp_fw_upgrade.c.
use zephyr_app.Common.{ℕ}

abbrev pub start : ℕ
start = 1

abbrev pub fw_data : ℕ
fw_data = 2

abbrev pub end : ℕ
end = 3

abbrev pub get_version : ℕ
get_version = 4

abbrev pub reboot : ℕ
reboot = 5

abbrev pub start_err_fail : ℕ
start_err_fail = 0

abbrev pub start_ok : ℕ
start_ok = 1

abbrev pub start_err_keyhash : ℕ
start_err_keyhash = 2
