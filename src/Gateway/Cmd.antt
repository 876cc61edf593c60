-- ===== src/Gateway/Cmd.antt =====
-- `enum udp_cmd` of applications/gateway/include/gateway.h, and the sub-commands of test frames.
use zephyr_app.Common.{ℕ}

abbrev pub set_ip : ℕ
set_ip = 0x10

abbrev pub get_net : ℕ
get_net = 0x11

abbrev pub set_rf24 : ℕ
set_rf24 = 0x12

abbrev pub get_rf24 : ℕ
get_rf24 = 0x13

abbrev pub set_host : ℕ
set_host = 0x14

abbrev pub discover : ℕ
discover = 0x15

abbrev pub test_ping : ℕ
test_ping = 0x01

abbrev pub test_echo : ℕ
test_echo = 0x02
