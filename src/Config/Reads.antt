-- ===== src/Config/Reads.antt =====
-- Reads of holding registers after writes.
use zephyr_app.Common.{
  Bool-cases, arith, if◌then◌else◌, inl, inr, length, length-set, ltb, u16, ℕ, ◌&&◌, ◌==◌, ◌≡◌,
}
use zephyr_app.Modbus.{Registers, get_holding_reg, update_holding_reg}
use zephyr_app.Modbus.Coils.{get_or-set}
use zephyr_app.Config.{update}

-- The array has HOLDING_MAX_IDX entries.
abbrev pub IsSized : Registers → Type 0
IsSized r = length r.holding_reg ≡ 23

pub update-IsSized :
    (r : Registers) (i v : ℕ) → length (update r i v).holding_reg ≡ length r.holding_reg
unfolding update update_holding_reg
update-IsSized r i v = ground (arith, length-set r.holding_reg i (u16 v))

pub get_holding_reg-update :
    (r : Registers) (i v j : ℕ)
    → get_holding_reg (update r i v) j
      ≡ (if ltb i (length r.holding_reg) && i == j then u16 v else get_holding_reg r j)
unfolding update update_holding_reg get_holding_reg
get_holding_reg-update r i v j = elim (Bool-cases (ltb i (length r.holding_reg))) [
  | inl inside ↦ ground (
    arith,
    inside,
    length-set r.holding_reg i (u16 v),
    get_or-set r.holding_reg i j (u16 v) (ground (arith, inside)),
  )
  | inr out ↦ ground (arith, out)
]
