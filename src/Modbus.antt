-- ===== src/Modbus.antt =====
-- applications/data_collect/src/modbus/function.c: the Modbus registers and coils, the callbacks of
-- the Modbus server, and what writing a register sets off.
pub mod Idx
pub mod Coils
pub mod Store
pub mod Settings
pub mod Restore
mod Tests
use zephyr_app.Common.{
  Bool, List, Option, [], bit_and, bit_or, false, get_or, if◌then◌else◌, leb, length, ltb, none,
  not, set, some, true, u32, u8, ℕ, ◌%◌, ◌*◌, ◌-◌, ◌/◌, ◌==◌, ◌^◌, ◌||◌, ◌∷◌,
}
use zephyr_app.Modbus.Idx

-- The static arrays; their lengths are the numbers that the build configures.
pub record Registers : Type 0 where
  pub holding_reg : List ℕ
  pub input_reg : List ℕ
  pub coils_state : List ℕ

-- What the write of a holding register sets off outside: `mb_set_do`, `history_enable_write`,
-- `set_timestamp`, `settings_save`, a cold reboot.
pub data Effect : Type 0 where
  mb_set_do : ℕ → Effect
  history_enable_write : Bool → Effect
  set_timestamp : ℕ → Effect
  settings_save : Effect
  sys_reboot : Effect

-- `BIT(n)`
abbrev pub bit : ℕ → ℕ
bit n = 2 ^ n

-- A result none or false is -ENOTSUP; some and true are 0.
pub coil_rd : Registers → ℕ → Option Bool
coil_rd r addr =
    if leb (length r.coils_state) addr
    then none
    else some (not (bit_and (get_or r.coils_state (addr / 8) 0) (bit (addr % 8)) == 0))

pub coil_wr : Registers → ℕ → Bool → Registers × Bool
coil_wr r addr state =
    let byte = get_or r.coils_state (addr / 8) 0 in
    let on = bit_or byte (bit (addr % 8)) in
    let off = bit_and byte (0xFFFFFFFF - bit (addr % 8)) in
    if leb (length r.coils_state) addr then (r, false) else (
      record r { coils_state = set r.coils_state (addr / 8) (if state then on else u8 off) },
      true,
    )

pub holding_reg_rd : Registers → ℕ → Option ℕ
holding_reg_rd r addr =
    if leb (length r.holding_reg) addr then none else some (get_or r.holding_reg addr 0)

unfoldable pub get_holding_reg : Registers → ℕ → ℕ
get_holding_reg r addr = if leb (length r.holding_reg) addr then 0 else get_or r.holding_reg addr 0

unfoldable pub update_holding_reg : Registers → ℕ → ℕ → Registers × Bool
update_holding_reg r addr reg =
    if leb (length r.holding_reg) addr
    then (r, false)
    else (record r { holding_reg = set r.holding_reg addr reg }, true)

-- The store, and then the `switch` on the address.
pub holding_reg_wr : Registers → ℕ → ℕ → Registers × List Effect × Bool
holding_reg_wr r addr reg =
    let stored = set r.holding_reg addr reg in
    let t = record r { holding_reg = stored } in
    let time =
      bit_or (u32 (get_or stored Idx.timestamph 0 * 2 ^ 16)) (get_or stored Idx.timestampl 0) in
    if leb (length r.holding_reg) addr
    then (r, [], false)
    else if addr == Idx.digital_out
    then (t, mb_set_do (bit_and reg 0xFF) ∷ [], true)
    else if addr == Idx.his_save
    then (t, history_enable_write (not (reg == 0)) ∷ [], true)
    else if addr == Idx.timestamph || addr == Idx.timestampl
    then (t, set_timestamp time ∷ [], true)
    else if addr == Idx.cfg_save
    then (record t { holding_reg = set stored addr 0 }, settings_save ∷ [], true)
    else if addr == Idx.reboot
    then (t, sys_reboot ∷ [], true)
    else (t, [], true)

pub update_input_reg : Registers → ℕ → ℕ → Registers × Bool
update_input_reg r addr reg =
    if leb (length r.input_reg) addr
    then (r, false)
    else (record r { input_reg = set r.input_reg addr reg }, true)

pub input_reg_rd : Registers → ℕ → Option ℕ
input_reg_rd r addr =
    if leb (length r.input_reg) addr then none else some (get_or r.input_reg addr 0)

pub get_input_reg : Registers → ℕ → ℕ
get_input_reg r index = if ltb index (length r.input_reg) then get_or r.input_reg index 0 else 0
