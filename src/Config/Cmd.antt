-- ===== src/Config/Cmd.antt =====
-- `enum udp_cmd` of applications/data_collect/include/data_collect.h.
use zephyr_app.Common.{ℕ}

abbrev pub set_net : ℕ
set_net = 0x12

abbrev pub get_net : ℕ
get_net = 0x13

abbrev pub set_net_mode : ℕ
set_net_mode = 0x16

abbrev pub get_net_mode : ℕ
get_net_mode = 0x17

abbrev pub set_modbus : ℕ
set_modbus = 0x18

abbrev pub get_modbus : ℕ
get_modbus = 0x19

abbrev pub set_sample : ℕ
set_sample = 0x1A

abbrev pub get_sample : ℕ
get_sample = 0x1B

abbrev pub set_can : ℕ
set_can = 0x1C

abbrev pub get_can : ℕ
get_can = 0x1D

abbrev pub set_heart : ℕ
set_heart = 0x1E

abbrev pub get_heart : ℕ
get_heart = 0x1F

abbrev pub set_time : ℕ
set_time = 0x20

abbrev pub get_info : ℕ
get_info = 0x21
