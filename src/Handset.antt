-- ===== src/Handset.antt =====
-- The radio handset: applications/mod_handler/src/gpio.c, the link's part of src/common.c, the frames
-- of src/can.c and the receiving thread and signal level of src/rf24.c.
pub mod Parse
pub mod Signal
pub mod Power
pub mod Link
pub mod Plain
mod Tests
use zephyr_app.Common.{
  Bool, List, [], drop, false, get_be16, get_or, if◌then◌else◌, leb, length, not, replicate, take,
  true, ℕ, ◌&&◌, ◌++◌, ◌-◌, ◌==◌, ◌||◌, ◌∷◌,
}
use zephyr_app.Crypt.{Crypt, rx_reset, set_key}
use zephyr_app.Radio.{open_packet, open_plain, rf24_id_size}
use zephyr_app.Radio.CanId
use zephyr_app.Gateway.Cmd
use zephyr_app.Handset.Parse.{Scanner, mod_can_parse_scanner}

-- `CAN_TYPE` and `RF24_TYPE`
abbrev pub can_type : ℕ
can_type = 1

abbrev pub rf24_type : ℕ
rf24_type = 2

-- `global_params` as far as the links, sleep and the scanner go, with its event bits, the levels of
-- the power pins, whether the radio has power, the value of `connect_type` in the settings, and
-- `waking` of gpio.c.
pub record Handset : Type 0 where
  pub connect_type : ℕ
  pub saved_type : ℕ
  pub wake_event : Bool
  pub can_event : Bool
  pub rf24_event : Bool
  pub sleeping : Bool
  pub waking : Bool
  pub can_power : Bool
  pub dis_power : Bool
  pub handler_power : Bool
  pub rf24_power : Bool
  pub stop_forced : Bool
  pub rf24_addr : List ℕ
  pub crypt : Crypt
  pub scanner : Scanner

-- `rf24_init` and `rf24_deinit`, for a radio that is ready or not
pub rf24_init : Bool → Handset → Handset
rf24_init ready h =
    if ready
    then record h { rf24_power = true; crypt = rx_reset (set_key h.crypt h.rf24_addr) }
    else h

pub rf24_deinit : Bool → Handset → Handset
rf24_deinit ready h = if ready then record h { rf24_power = false } else h

pub connect_switch : Bool → Handset → Handset
connect_switch ready h =
    let down = rf24_deinit ready (record h { rf24_event = false }) in
    let up = rf24_init ready (record h { can_event = false; can_power = false }) in
    if h.connect_type == can_type
    then record down { can_power = true; can_event = true; saved_type = down.connect_type }
    else record up { rf24_event = true; saved_type = up.connect_type }

-- for the level of the pin
pub linksw_work_handler : Bool → Bool → Handset → Handset
linksw_work_handler ready pin h =
    let other = if h.connect_type == can_type then rf24_type else can_type in
    if pin then h else connect_switch ready (record h { connect_type = other })

-- `system_sleep` up to its pause of 100 ms, and from there on.
pub sleep_begin : Handset → Handset
sleep_begin h = record h { wake_event = false; sleeping = true }

pub sleep_end : Bool → Handset → Handset
sleep_end ready h =
    let off =
      if h.connect_type == can_type then record h { can_power = false } else rf24_deinit ready h in
    record off { dis_power = false; handler_power = false; stop_forced = true }

-- `system_wake` up to its pause of 200 ms, and from there on.
pub wake_begin : Bool → Handset → Handset
wake_begin ready h =
    let t = record h { waking = true; handler_power = true; dis_power = true } in
    if h.connect_type == can_type then record t { can_power = true } else rf24_init ready t

pub wake_end : Handset → Handset
wake_end h = record h { sleeping = false; waking = false; wake_event = true }

-- Whether `sleep_work_handler` starts `system_wake`, for the level of the power button.
pub sleep_work_handler : Bool → Handset → Bool
sleep_work_handler pin h = not pin && (h.sleeping && not h.waking)

-- Whether `pm_policy_next_state` gives the STOP state.
pub pm_policy_next_state : Handset → Bool
pm_policy_next_state h = h.sleeping && not h.waking

-- `power_init`: CAN and all power on, and the key's address from the serial number.
pub power_init : List ℕ → Handset → Handset
power_init sn h = record h {
  connect_type = can_type;
  rf24_addr = sn;
  can_event = true;
  dis_power = true;
  can_power = true;
  handler_power = true;
}

-- What is sent: a frame on the CAN bus, or a packet by `rf24_data_send`.
pub data Sent : Type 0 where
  can_frame : ℕ → List ℕ → Sent
  rf24_packet : ℕ → List ℕ → Sent

-- An answer of false is -EBUSY.
pub send_handler_state : Handset → List ℕ → List Sent × Bool
send_handler_state h bytes =
    if h.sleeping
    then ([], false)
    else if h.connect_type == can_type
    then (can_frame CanId.handler_state bytes ∷ [], true)
    else (rf24_packet CanId.handler_state bytes ∷ [], true)

-- One pass of `heart_thread`, when one of the link events is set.
pub heart_step : Handset → List Sent
heart_step h =
    if not (h.can_event || h.rf24_event) || h.sleeping
    then []
    else if h.connect_type == can_type
    then can_frame CanId.cobid_heatbeat (5 ∷ []) ∷ []
    else rf24_packet CanId.cobid_heatbeat (5 ∷ []) ∷ []

-- `rf24_test_handle_rx`, for the answer to a ping alone
pub rf24_test_answer : List ℕ → List Sent
rf24_test_answer bytes =
    let seq = if leb 2 (length bytes) then get_or bytes 1 0 else 0xFF in
    if leb 1 (length bytes) && get_or bytes 0 0 == Cmd.test_ping
    then rf24_packet CanId.test_frame (Cmd.test_echo ∷ seq ∷ 0 ∷ []) ∷ []
    else []

-- `cf.data` after the `memcpy`, the bytes behind the 8 of its frame included.
pub frame_bytes : List ℕ → List ℕ
frame_bytes bytes = bytes ++ drop (length bytes) (replicate 8 0)

-- What `rf24_rx_thread` does with the `got` bytes of an opened frame.
pub rf24_dispatch : Handset → List ℕ → ℕ → Handset × List Sent
rf24_dispatch h bytes got =
    let can_id = get_be16 bytes 0 in
    let payload = take (got - rf24_id_size) (drop rf24_id_size bytes) in
    if got == 0
    then (h, [])
    else if can_id == CanId.test_frame
    then (h, rf24_test_answer payload)
    else if can_id == CanId.overbreak_laser || can_id == CanId.coord_xy || can_id == CanId.coord_z
    then (record h { scanner = mod_can_parse_scanner can_id (frame_bytes payload) h.scanner }, [])
    else (h, [])

-- One pass of `rf24_rx_thread`, awake and with the radio chosen, with CONFIG_NRF24L01P_CRYPT and
-- without.
pub rf24_rx_step : Handset → List ℕ → ℕ → Handset × List Sent
rf24_rx_step h frame len =
    let (crypt, bytes, got) = open_packet h.crypt frame len in
    let t = record h { crypt = crypt } in
    if h.sleeping || not h.rf24_event then (h, []) else rf24_dispatch t bytes got

pub rf24_rx_step_plain : Handset → List ℕ → ℕ → Handset × List Sent
rf24_rx_step_plain h frame len =
    if h.sleeping || not h.rf24_event then (h, []) else rf24_dispatch h frame (open_plain len)
