-- ===== src/Modbus/Tests.antt =====
-- Runs on the arrays of the default build.
use zephyr_app.Common.{List, [], get_or, if◌then◌else◌, refl, replicate, set, ℕ, ◌∷◌, ◌≡◌}
use zephyr_app.Modbus.Settings.{mb_handle_export}
use zephyr_app.Modbus.Restore.{first_part, has_index, restore, restore_lem, saved}
use zephyr_app.Modbus.{Registers}

abbrev zeros : Registers
zeros = record {
  holding_reg = replicate 23 0;
  input_reg = replicate 6 0;
  coils_state = 0 ∷ 255 ∷ 0 ∷ 0 ∷ 0 ∷ 0 ∷ 0 ∷ 0 ∷ [];
}

-- the address 192.168.1.20, and a station number
abbrev set_up : List ℕ
set_up = set (set (set (set (set (replicate 23 0) 9 5) 10 192) 11 168) 12 1) 13 20

restore_lem_example :
    get_or (restore first_part (replicate 23 1) (mb_handle_export set_up)) 13 0
    ≡ (if has_index 13 (saved set_up) then 20 else 1)
restore_lem_example = restore_lem first_part (λ name. refl) set_up (replicate 23 1) 13 refl
