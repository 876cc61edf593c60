-- ===== src/Modbus/Store.antt =====
-- Reads after writes of registers, and what a write sets off.
use zephyr_app.Common.{
  Bool-cases, [], arith, bit_or-shift, if◌then◌else◌, inl, inr, length, length-set, ltb, none, set,
  some, ℕ, ◌&&◌, ◌*◌, ◌+◌, ◌<◌, ◌==◌, ◌^◌, ◌∷◌, ◌≡◌,
}
use zephyr_app.Modbus.{Registers, get_holding_reg, holding_reg_rd, holding_reg_wr, set_timestamp}
use zephyr_app.Modbus.Idx
use zephyr_app.Modbus.Coils.{get_or-set}

-- After the write of a holding register within the array that register reads as it was written,
-- but the save command's register as 0; every other one reads as before. Out of range nothing is
-- written and nothing set off. In both cases `get_holding_reg` agrees with the server's read.
pub holding_reg_rd-holding_reg_wr :
    (r : Registers) (a b v : ℕ)
    → let (t, done, ok) = holding_reg_wr r a v in
      (ok ≡ ltb a (length r.holding_reg))
      × (holding_reg_rd t b ≡ (
          if ok && a == b then some (if a == Idx.cfg_save then 0 else v) else holding_reg_rd r b))
      × (get_holding_reg t b ≡ elim (holding_reg_rd t b) [ none ↦ 0 | some w ↦ w ])
unfolding holding_reg_rd get_holding_reg holding_reg_wr
holding_reg_rd-holding_reg_wr r a b v = elim (Bool-cases (ltb a (length r.holding_reg))) [
  | inl within ↦
      let inside : a < length r.holding_reg = ground (arith, within) in
      ground (
        arith,
        within,
        get_or-set r.holding_reg a b v inside,
        length-set r.holding_reg a v,
        length-set (set r.holding_reg a v) a 0,
        get_or-set (set r.holding_reg a v) a b 0
            (omega (arith, inside, length-set r.holding_reg a v)),
      )
  | inr out ↦ ground (arith, out)
]

-- Where both registers exist, writing the high and then the low 16 bits of a time sets the clock to
-- it with the second write.
pub set_time :
    (r : Registers) (high low : ℕ)
    → Idx.timestampl < length r.holding_reg
    → high < 2 ^ 16
    → low < 2 ^ 16
    → (holding_reg_wr (holding_reg_wr r Idx.timestamph high).0 Idx.timestampl low).1
      ≡ set_timestamp (high * 2 ^ 16 + low) ∷ []
unfolding holding_reg_wr
set_time r high low long h l =
    let stored = set r.holding_reg Idx.timestamph high in
    let size = length-set r.holding_reg Idx.timestamph high in
    ground (
      arith,
      long,
      size,
      get_or-set r.holding_reg Idx.timestamph Idx.timestamph high (omega (arith, long)),
      get_or-set stored Idx.timestampl Idx.timestamph low (omega (arith, long, size)),
      get_or-set stored Idx.timestampl Idx.timestampl low (omega (arith, long, size)),
      bit_or-shift 16 high low l,
    )
