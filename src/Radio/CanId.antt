-- ===== src/Radio/CanId.antt =====
-- `enum can_ids` of applications/gateway/include/gateway.h, the identifiers of the frames.
use zephyr_app.Common.{ℕ}

abbrev pub cobid_heatbeat : ℕ
cobid_heatbeat = 0x763

abbrev pub test_frame : ℕ
test_frame = 0x777

abbrev pub handler_state : ℕ
handler_state = 0x1E3

abbrev pub overbreak_laser : ℕ
overbreak_laser = 0x263

abbrev pub coord_xy : ℕ
coord_xy = 0x363

abbrev pub coord_z : ℕ
coord_z = 0x463
