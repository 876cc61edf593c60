-- ===== src/Handset/Parse.antt =====
-- `mod_can_parse_scanner` of applications/mod_handler/src/can.c. A signed field holds the bits of its
-- two's complement: 32 of a value, 8 of a validity, where 1 is valid and 0xFF, which is -1, is not.
use zephyr_app.Common.{
  List, bit_and, get_be16, get_be32, get_or, if◌then◌else◌, ltb, ℕ, ◌+◌, ◌==◌, ◌^◌,
}
use zephyr_app.Radio.CanId

-- `scanner_data_t`
pub record Scanner : Type 0 where
  pub overbreak_valid : ℕ
  pub overbreak_value : ℕ
  pub laser_valid : ℕ
  pub laser_distance : ℕ
  pub coord_xy_valid : ℕ
  pub coord_x : ℕ
  pub coord_y : ℕ
  pub coord_z_valid : ℕ
  pub coord_z : ℕ

-- an int16_t as an int32_t
pub sign_extend : ℕ → ℕ
sign_extend w = if ltb w (2 ^ 15) then w else w + 0xFFFF0000

-- `(byte & mask) ? 1 : -1`
pub valid_if : ℕ → ℕ → ℕ
valid_if byte mask = if bit_and byte mask == 0 then 0xFF else 1

pub mod_can_parse_scanner : ℕ → List ℕ → Scanner → Scanner
mod_can_parse_scanner can_id bytes s =
    let flags = get_or bytes 0 0 in
    let z_valid = valid_if (get_or bytes 4 0) 0x01 in
    if can_id == CanId.overbreak_laser
    then record s {
      overbreak_valid = valid_if flags 0x01;
      laser_valid = valid_if flags 0x02;
      overbreak_value = sign_extend (get_be16 bytes 2);
      laser_distance = get_be32 bytes 4;
    }
    else if can_id == CanId.coord_xy
    then record s { coord_x = get_be32 bytes 0; coord_y = get_be32 bytes 4; coord_xy_valid = 1 }
    else if can_id == CanId.coord_z
    then record s { coord_z = get_be32 bytes 0; coord_z_valid = z_valid; coord_xy_valid = z_valid }
    else s
