-- ===== src/Laser/Cob.antt =====
-- The identifiers and commands of applications/laser_ctrl/include/laser-can.h, the answers that
-- can.c derives from them (the low 24 bits of the command under 0x60 or 0x80), and the options and
-- codes of laser-common.h.
use zephyr_app.Common.{ℕ}

abbrev pub cob_id1_rx : ℕ
cob_id1_rx = 0x664

abbrev pub cob_id1_tx : ℕ
cob_id1_tx = 0x5E4

abbrev pub cob_id2_rx : ℕ
cob_id2_rx = 0x665

abbrev pub cob_id2_tx : ℕ
cob_id2_tx = 0x5E5

abbrev pub platform_rx : ℕ
platform_rx = 0x101

abbrev pub fw_data_rx : ℕ
fw_data_rx = 0x103

abbrev pub read_xaxis_realval : ℕ
read_xaxis_realval = 0x40466200

abbrev pub read_yaxis_realval : ℕ
read_yaxis_realval = 0x40486200

abbrev pub read_yaxis : ℕ
read_yaxis = 0x40026200

abbrev pub write_yaxis : ℕ
write_yaxis = 0x22026200

abbrev pub read_xaxis : ℕ
read_xaxis = 0x40016200

abbrev pub write_xaxis : ℕ
write_xaxis = 0x22016200

abbrev pub read_conword : ℕ
read_conword = 0x40406200

abbrev pub write_conword : ℕ
write_conword = 0x22406200

abbrev pub write_conword_new : ℕ
write_conword_new = 0x23406200

abbrev pub laser_ctrl : ℕ
laser_ctrl = 0x22416200

abbrev pub laser_ctrl_new : ℕ
laser_ctrl_new = 0x23416200

abbrev pub peroid_conf : ℕ
peroid_conf = 0x22426200

abbrev pub peroid_confn : ℕ
peroid_confn = 0x23426200

abbrev pub peroid_get : ℕ
peroid_get = 0x40426200

abbrev pub write_system_status : ℕ
write_system_status = 0x22000000

abbrev pub write_system_status_new : ℕ
write_system_status_new = 0x23000000

abbrev pub read_system_status : ℕ
read_system_status = 0x40000000

abbrev pub system_working : ℕ
system_working = 0x01

abbrev pub system_eeprom : ℕ
system_eeprom = 0x10

abbrev pub laser_ctrl_ack : ℕ
laser_ctrl_ack = 0x60416200

abbrev pub laser_ctrl_nack : ℕ
laser_ctrl_nack = 0x80416200

abbrev pub peroid_conf_ack : ℕ
peroid_conf_ack = 0x60426200

abbrev pub peroid_get_ack : ℕ
peroid_get_ack = 0x60426200

abbrev pub board_start_update : ℕ
board_start_update = 0

abbrev pub board_confirm : ℕ
board_confirm = 1

abbrev pub board_version : ℕ
board_version = 2

abbrev pub board_reboot : ℕ
board_reboot = 3

abbrev pub board_fpga_version : ℕ
board_fpga_version = 4

abbrev pub offset : ℕ
offset = 0

abbrev pub update_success : ℕ
update_success = 1

abbrev pub version : ℕ
version = 2

abbrev pub confirm : ℕ
confirm = 3

abbrev pub flash_error : ℕ
flash_error = 4

abbrev pub tranfer_error : ℕ
tranfer_error = 5

abbrev pub fpga_version : ℕ
fpga_version = 6
