-- ===== src/Zephyr.antt =====
-- What the firmware uses of the Zephyr system, as parameters: the DFU image writer with the slot it
-- writes to, the bootloader request and the codes of CAN frame lengths. A result is 0 for success,
-- else the magnitude of a negative errno.
pub mod Ram
use zephyr_app.Common.{Bool, List, Option, get_le32, ℕ, ◌*◌}

-- `struct can_frame`: `data_32[i]` is the little-endian word at byte `4 * i` of `bytes`.
pub record CanFrame : Type 0 where
  pub id : ℕ
  pub dlc : ℕ
  pub bytes : List ℕ

abbrev pub data_32 : CanFrame → ℕ → ℕ
data_32 f i = get_le32 f.bytes (4 * i)

-- Over a state `S` of slot 1 and of the `flash_img` context:
-- `flash_area_open`, `flash_area_erase` of the whole area, `flash_img_init`,
-- `flash_img_buffered_write` (with its flush argument), `flash_img_bytes_written`,
-- `flash_area_read` at an offset and a length, `boot_request_upgrade`.
pub record Slot (S : Type 0) : Type 0 where
  pub area_open : S → ℕ
  pub area_erase : S → S
  pub img_init : S → ℕ × S
  pub img_write : S → List ℕ → Bool → ℕ × S
  pub bytes_written : S → ℕ
  pub area_read : S → ℕ → ℕ → Option (List ℕ)
  pub boot_request : S → ℕ → ℕ × S

-- `can_dlc_to_bytes` and `can_bytes_to_dlc`
pub record Dlc : Type 0 where
  pub to_bytes : ℕ → ℕ
  pub of_bytes : ℕ → ℕ
