-- ===== src/Config.antt =====
-- applications/data_collect/src/modbus/udp.c: the commands that set and get the parameters, which
-- are kept in the holding registers.
pub mod Cmd
pub mod Can
pub mod Reads
pub mod Echo
pub mod Limits
mod Tests
use zephyr_app.Common.{
  Bool, List, Option, [], be16_bytes, be32_bytes, false, get_be16, get_be32, get_or, if◌then◌else◌,
  leb, length, ltb, none, not, some, true, u16, u32, u8, ℕ, ◌%◌, ◌&&◌, ◌++◌, ◌/◌, ◌==◌, ◌^◌, ◌||◌,
  ◌∷◌,
}
use zephyr_app.Modbus.{
  Effect, Registers, get_holding_reg, history_enable_write, set_timestamp, settings_save,
  update_holding_reg,
}
use zephyr_app.Modbus.Idx
use zephyr_app.Config.Cmd

-- What a command finds outside the registers: the address that the interface has now
-- (`dc_get_live_ipv4`), the clock, the seconds since the start and APPVERSION.
pub record Env : Type 0 where
  pub live_ipv4 : Option (List ℕ)
  pub now : ℕ
  pub uptime : ℕ
  pub app_version : ℕ

-- A call of `update_holding_reg` for its effect, with a value cut to the register's 16 bits.
pub update : Registers → ℕ → ℕ → Registers
update r i v = (update_holding_reg r i (u16 v)).0

-- The first part of each SET case: the registers, what it sets off, and `saved`.
pub set_net : Registers → List ℕ → Registers × List Effect × Bool
set_net r req =
    let addressed =
      update
        (update (update (update r Idx.ip_addr_1 (get_or req 0 0)) Idx.ip_addr_2 (get_or req 1 0))
          Idx.ip_addr_3 (get_or req 2 0))
        Idx.ip_addr_4 (get_or req 3 0) in
    let t = if get_holding_reg r Idx.net_mode == 0 then addressed else r in
    if leb 6 (length req)
    then (update t Idx.tcp_port (get_be16 req 4), [], true)
    else (r, [], false)

pub set_net_mode : Registers → List ℕ → Registers × List Effect × Bool
set_net_mode r req =
    if leb 1 (length req) && leb (get_or req 0 0) 1
    then (update r Idx.net_mode (get_or req 0 0), [], true)
    else (r, [], false)

pub set_modbus : Registers → List ℕ → Registers × List Effect × Bool
set_modbus r req =
    let slave_id = get_be16 req 0 in
    let bps = get_be32 req 2 in
    let good_bps = ltb 0 bps && leb bps 0xFFFF in
    let good_id = ltb 0 slave_id && ltb slave_id 0x100 in
    let t = if good_bps then update r Idx.rs485_bps bps else r in
    if leb 6 (length req)
    then (if good_id then update t Idx.slave_id slave_id else t, [], good_bps || good_id)
    else (r, [], false)

pub set_sample : Registers → List ℕ → Registers × List Effect × Bool
set_sample r req =
    let t = update (update r Idx.di_si (get_be16 req 0)) Idx.ai_si (get_be16 req 2) in
    if leb 5 (length req)
    then (
      update t Idx.his_save (get_or req 4 0),
      history_enable_write (not (get_or req 4 0 == 0)) ∷ [],
      true,
    )
    else (r, [], false)

pub set_can : Registers → List ℕ → Registers × List Effect × Bool
set_can r req =
    if leb 4 (length req)
    then (update (update r Idx.can_id (get_be16 req 0)) Idx.can_bps (get_be16 req 2), [], true)
    else (r, [], false)

pub set_heart : Registers → List ℕ → Registers × List Effect × Bool
set_heart r req =
    let t = update r Idx.heart_en (if get_or req 0 0 == 0 then 0 else 1) in
    let timeout = get_be16 req 1 in
    if leb 3 (length req)
    then (update t Idx.heart_timeout (if ltb 500 timeout then timeout else 500), [], true)
    else (r, [], false)

-- `t` of the case SET_TIME
pub asked_time : List ℕ → ℕ
asked_time req = if leb 4 (length req) then get_be32 req 0 else 0

pub set_time : Registers → List ℕ → Registers × List Effect × Bool
set_time r req =
    let t = asked_time req in
    if t == 0 then (r, [], false) else (
      update (update r Idx.timestamph (t / 2 ^ 16)) Idx.timestampl (t % 2 ^ 16),
      set_timestamp t ∷ [],
      false,
    )

pub apply_set : Registers → ℕ → List ℕ → Registers × List Effect × Bool
apply_set r cmd req =
    if cmd == Cmd.set_net
    then set_net r req
    else if cmd == Cmd.set_net_mode
    then set_net_mode r req
    else if cmd == Cmd.set_modbus
    then set_modbus r req
    else if cmd == Cmd.set_sample
    then set_sample r req
    else if cmd == Cmd.set_can
    then set_can r req
    else if cmd == Cmd.set_heart
    then set_heart r req
    else if cmd == Cmd.set_time
    then set_time r req
    else (r, [], false)

-- `holding_reg` as a byte, and in network order
pub byte_of : Registers → ℕ → ℕ
byte_of r i = u8 (get_holding_reg r i)

pub word_of : Registers → ℕ → List ℕ
word_of r i = be16_bytes (get_holding_reg r i)

-- the interface's address, or else the one in the registers
pub own_address : Registers → Option (List ℕ) → List ℕ
own_address r (some ip) = ip
own_address r none =
    byte_of r Idx.ip_addr_1
    ∷ byte_of r Idx.ip_addr_2
    ∷ byte_of r Idx.ip_addr_3
    ∷ byte_of r Idx.ip_addr_4
    ∷ []

pub get_net : Env → Registers → List ℕ
get_net e r = own_address r e.live_ipv4 ++ word_of r Idx.tcp_port

-- The second part of each case, the answer; none is -1.
pub answer : Env → Registers → ℕ → List ℕ → ℕ → Option (List ℕ)
answer e r cmd req out_len =
    let now = if asked_time req == 0 then u32 e.now else asked_time req in
    let fits = λ (n : ℕ) (out : List ℕ). if leb n out_len then some out else none in
    if cmd == Cmd.set_net || cmd == Cmd.get_net
    then fits 6 (get_net e r)
    else if cmd == Cmd.set_net_mode || cmd == Cmd.get_net_mode
    then fits 1 (byte_of r Idx.net_mode ∷ [])
    else if cmd == Cmd.set_modbus || cmd == Cmd.get_modbus
    then fits 6 (word_of r Idx.slave_id ++ be32_bytes (get_holding_reg r Idx.rs485_bps))
    else if cmd == Cmd.set_sample || cmd == Cmd.get_sample
    then fits 5 (word_of r Idx.di_si ++ (word_of r Idx.ai_si ++ (byte_of r Idx.his_save ∷ [])))
    else if cmd == Cmd.set_can || cmd == Cmd.get_can
    then fits 4 (word_of r Idx.can_id ++ word_of r Idx.can_bps)
    else if cmd == Cmd.set_heart || cmd == Cmd.get_heart
    then fits 3 (byte_of r Idx.heart_en ∷ word_of r Idx.heart_timeout)
    else if cmd == Cmd.set_time
    then fits 4 (be32_bytes now)
    else if cmd == Cmd.get_info
    then fits 8 (be32_bytes e.app_version ++ be32_bytes (u32 e.uptime))
    else none

-- The registers, what is set off, the settings being saved last, and the answer.
pub dc_build_config_payload :
    Env → Registers → ℕ → List ℕ → ℕ → Registers × List Effect × Option (List ℕ)
dc_build_config_payload e r cmd req out_len =
    let (t, done, saved) = apply_set r cmd req in
    (t, if saved then done ++ (settings_save ∷ []) else done, answer e t cmd req out_len)

-- The handler of the UDP library: the registers, what is set off, and the answer for
-- `udp_fw_reply`; none leaves the command to the other handlers.
pub app_cmd_handler : Env → Registers → ℕ → List ℕ → Registers × List Effect × Option (List ℕ)
app_cmd_handler e r cmd data_bytes = dc_build_config_payload e r cmd data_bytes 8
