-- ===== src/Modbus/Idx.antt =====
-- `holding_idx` (applications/data_collect/src/modbus/init.h): the holding registers' addresses.
use zephyr_app.Common.{ℕ}

abbrev pub digital_out : ℕ
digital_out = 0

abbrev pub di_en : ℕ
di_en = 1

abbrev pub ai_en : ℕ
ai_en = 2

abbrev pub di_si : ℕ
di_si = 3

abbrev pub ai_si : ℕ
ai_si = 4

abbrev pub his_save : ℕ
his_save = 5

abbrev pub can_id : ℕ
can_id = 6

abbrev pub can_bps : ℕ
can_bps = 7

abbrev pub rs485_bps : ℕ
rs485_bps = 8

abbrev pub slave_id : ℕ
slave_id = 9

abbrev pub ip_addr_1 : ℕ
ip_addr_1 = 10

abbrev pub ip_addr_2 : ℕ
ip_addr_2 = 11

abbrev pub ip_addr_3 : ℕ
ip_addr_3 = 12

abbrev pub ip_addr_4 : ℕ
ip_addr_4 = 13

abbrev pub timestamph : ℕ
timestamph = 14

abbrev pub timestampl : ℕ
timestampl = 15

abbrev pub cfg_save : ℕ
cfg_save = 16

abbrev pub reboot : ℕ
reboot = 17

abbrev pub heart_en : ℕ
heart_en = 18

abbrev pub heart_timeout : ℕ
heart_timeout = 19

abbrev pub tcp_port : ℕ
tcp_port = 21

abbrev pub net_mode : ℕ
net_mode = 22
