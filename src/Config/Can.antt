-- ===== src/Config/Can.antt =====
-- applications/data_collect/src/can.c: the commands on the CAN bus, and the heartbeat frame.
pub mod Reply
use zephyr_app.Common.{
  Bool, List, [], be16_bytes, bit_and, bit_or, drop, false, get_or, if◌then◌else◌, length, ltb, min,
  none, not, replicate, some, suc, take, true, u16, u8, zero, ℕ, ◌*◌, ◌++◌, ◌+◌, ◌-◌, ◌==◌, ◌^◌,
  ◌∷◌,
}
use zephyr_app.Zephyr.{CanFrame, Dlc}
use zephyr_app.Modbus.{Effect, Registers, get_holding_reg, get_input_reg}
use zephyr_app.Modbus.Idx
use zephyr_app.Config.{Env, dc_build_config_payload}

abbrev pub dc_can_heartbeat : ℕ
dc_can_heartbeat = 0x763

abbrev pub dc_can_cfg_cmd : ℕ
dc_can_cfg_cmd = 0x1A0

abbrev pub dc_can_cfg_resp : ℕ
dc_can_cfg_resp = 0x1A1

-- `INPUT_DI_IDX`
abbrev pub input_di : ℕ
input_di = 5

-- The frames that go to the driver; none before `can_dev` is set.
pub dc_can_send : Bool → CanFrame → List CanFrame
dc_can_send can_dev frame = if can_dev then frame ∷ [] else []

-- One pass of the loop of `dc_can_heart_thread`.
pub dc_can_heart_step : Dlc → Bool → ℕ → ℕ → Registers → List CanFrame
dc_can_heart_step dlc can_dev major minor r =
    let ver = u16 (bit_or (major * 2 ^ 8) minor) in
    dc_can_send can_dev (record {
      id = dc_can_heartbeat;
      dlc = dlc.of_bytes 8;
      bytes =
          be16_bytes ver
          ++ (be16_bytes (get_input_reg r input_di)
              ++ (bit_and (get_holding_reg r Idx.digital_out) 0xFF ∷ replicate 3 0));
    })

-- The frame of one pass: `chunk` bytes of the payload from `off`, and zeros.
pub resp_frame : Dlc → ℕ → List ℕ → ℕ → ℕ → CanFrame
resp_frame dlc sub payload off seq =
    let chunk = u8 (min (length payload - off) 6) in
    record {
      id = dc_can_cfg_resp;
      dlc = dlc.of_bytes 8;
      bytes = sub ∷ seq ∷ (take chunk (drop off payload) ++ replicate (6 - chunk) 0);
    }

-- `off` and `seq` are `uint8_t`; the first pass is made whatever the length.
pub resp_loop : ℕ → Dlc → Bool → ℕ → List ℕ → ℕ → ℕ → List CanFrame
resp_loop zero dlc can_dev sub payload off seq = []
resp_loop (suc fuel) dlc can_dev sub payload off seq =
    let chunk = u8 (min (length payload - off) 6) in
    let sent = dc_can_send can_dev (resp_frame dlc sub payload off seq) in
    let rest = resp_loop fuel dlc can_dev sub payload (u8 (off + chunk)) (u8 (seq + 1)) in
    if ltb (u8 (off + chunk)) (length payload) then sent ++ rest else sent

pub can_send_config_resp : Dlc → Bool → ℕ → List ℕ → List CanFrame
can_send_config_resp dlc can_dev sub payload =
    resp_loop (suc (length payload)) dlc can_dev sub payload 0 0

-- The registers, what is set off, the frames sent, and whether the frame was for this handler.
pub dc_can_app_rx :
    Dlc → Bool → Env → Registers → CanFrame → Registers × List Effect × List CanFrame × Bool
dc_can_app_rx dlc can_dev e r frame =
    let sub = get_or frame.bytes 0 0 in
    let req_len = u8 (min (dlc.to_bytes frame.dlc - 1) 7) in
    let (t, done, out) = dc_build_config_payload e r sub (take req_len (drop 1 frame.bytes)) 8 in
    if not (frame.id == dc_can_cfg_cmd)
    then (r, [], [], false)
    else if ltb (dlc.to_bytes frame.dlc) 2
    then (r, [], [], true)
    else (
      t,
      done,
      elim out [ none ↦ [] | some resp ↦ can_send_config_resp dlc can_dev sub resp ],
      true,
    )
