-- ===== src/UdpFw.antt =====
-- libs/udp_fw_upgrade/udp_fw_upgrade.c: firmware upgrade and configuration commands over UDP, in the
-- build with a signature key. A packet is the list of the bytes received (512 at most), of which the
-- first is the command. An address is a 32-bit word in the byte order in which it is compared.
pub mod Cmd
pub mod Crc
pub mod Upgrade
pub mod Transfer
pub mod Routing
mod Tests
use zephyr_app.Common.{
  Bool, List, Option, [], bit_and, drop, false, get_le16, get_le32, get_or, if◌then◌else◌,
  le32_bytes, leb, length, list_eq, ltb, map, none, not, some, suc, take, true, u32, u8, zero, ℕ,
  ◌&&◌, ◌++◌, ◌+◌, ◌-◌, ◌==◌, ◌||◌, ◌∷◌,
}
use zephyr_app.Zephyr.{Slot}
use zephyr_app.Handlers.{Handler, broadcast}

pub record Address : Type 0 where
  pub ip : ℕ
  pub port : ℕ

-- The static variables. `config_sock` is whether the socket is open; `bcast_allowed_cmds` holds the
-- first `bcast_allowed_cnt` entries of the array.
pub record UdpFw (S : Type 0) : Type 0 where
  pub handlers : List Handler
  pub slot : S
  pub config_sock : Bool
  pub udp_fw_started : Bool
  pub config_remote_addr : Address
  pub bcast_allowed_cmds : List ℕ
  pub fw_started : Bool
  pub fw_size : ℕ
  pub fw_received : ℕ

-- Towards the outside, in order: a datagram with its destination, a call of
-- `boot_request_upgrade`, a cold reboot, a call of a callback.
pub data Action : Type 0 where
  sendto : Address → List ℕ → Action
  boot_request_upgrade : ℕ → Action
  sys_reboot : Action
  call : Handler → Action

-- What the build and the network stack fix: CONFIG_UDP_FW_CONFIG_PORT,
-- CONFIG_UDP_FW_REPLY_BCAST_RESTRICT, CONFIG_UDP_FW_UPGRADE_MAX_BCAST_CMDS, the key hash and the
-- version text of the generated headers, `crc16_ccitt`, and the default interface with its address
-- and netmask, if there is an interface and it has an address.
pub record Env : Type 0 where
  pub config_port : ℕ
  pub bcast_restrict : Bool
  pub max_bcast_cmds : ℕ
  pub fw_keyhash : List ℕ
  pub version : List ℕ
  pub crc16 : ℕ → List ℕ → ℕ
  pub iface : Option (Option (ℕ × ℕ))

abbrev pub fw_crc_chunk : ℕ
fw_crc_chunk = 64

abbrev pub inaddr_broadcast : ℕ
inaddr_broadcast = 0xFFFFFFFF

pub bcast_cmd_allowed : List ℕ → ℕ → Bool
bcast_cmd_allowed [] cmd = false
bcast_cmd_allowed (c ∷ cs) cmd = c == cmd || bcast_cmd_allowed cs cmd

module _ (env : Env) where
  pub is_same_subnet : ℕ → Bool
  is_same_subnet sender = elim env.iface [
    | none ↦ true
    | some none ↦ true
    | some (some (local, mask)) ↦ bit_and sender mask == bit_and local mask
  ]

  -- `udp_fw_reply`, with `len` the `uint8_t` of the data's length
  pub udp_fw_reply : Bool → Address → ℕ → List ℕ → List Action
  udp_fw_reply config_sock remote cmd payload =
      let len = u8 (length payload) in
      let body = if ltb 0 len && leb len 63 then take len payload else [] in
      let dst : Address =
        if is_same_subnet remote.ip
        then remote
        else record { ip = inaddr_broadcast; port = env.config_port + 1 } in
      if not config_sock then [] else sendto dst (cmd ∷ body) ∷ []

module _ {S : Type 0} (io : Slot S) (env : Env) where
  abbrev pub reply : UdpFw S → ℕ → List ℕ → List Action
  reply s cmd payload = udp_fw_reply env s.config_sock s.config_remote_addr cmd payload

  -- The loop of `fw_verify_crc` from offset `off`: the checksum, or a failed read. Each pass takes
  -- a byte at least, so fuel `written` is enough.
  crc_loop : ℕ → S → ℕ → ℕ → ℕ → Option ℕ
  crc_loop zero slot off written calc_crc = some calc_crc
  crc_loop (suc fuel) slot off written calc_crc =
      let len = if ltb (written - off) fw_crc_chunk then written - off else fw_crc_chunk in
      let rest = λ (buf : List ℕ).
        crc_loop fuel slot (off + fw_crc_chunk) written (env.crc16 calc_crc buf) in
      if ltb off written
      then elim (io.area_read slot off len) [ none ↦ none | some buf ↦ rest buf ]
      else some calc_crc

  pub fw_verify_crc : S → ℕ → Bool
  unfolding crc_loop
  fw_verify_crc slot recv_crc =
      let written = io.bytes_written slot in
      if not (io.area_open slot == 0) then false else elim (crc_loop written slot 0 written 0) [
        | none ↦ false
        | some calc_crc ↦ calc_crc == recv_crc
      ]

  -- FW_CMD_START
  pub fw_cmd_start : UdpFw S → ℕ → List ℕ → UdpFw S × List Action
  fw_cmd_start s cmd payload =
      let len = length payload in
      let sized = record s { fw_size = get_le32 payload 0 } in
      let (ret, slot) = io.img_init (io.area_erase s.slot) in
      let wrong_key = len == 4 + 32 && not (list_eq (take 32 (drop 4 payload)) env.fw_keyhash) in
      if not (not s.fw_started && leb 4 len)
      then (s, reply s cmd (Cmd.start_err_fail ∷ []))
      else if wrong_key
      then (sized, reply s cmd (Cmd.start_err_keyhash ∷ []))
      else if not (io.area_open s.slot == 0)
      then (sized, reply s cmd (Cmd.start_err_fail ∷ []))
      else if not (ret == 0)
      then (record sized { slot = slot }, reply s cmd (Cmd.start_err_fail ∷ []))
      else (
        record sized { slot = slot; fw_started = true; fw_received = 0 },
        reply s cmd (Cmd.start_ok ∷ []),
      )

  -- FW_CMD_DATA
  pub fw_cmd_data : UdpFw S → ℕ → List ℕ → UdpFw S × List Action
  fw_cmd_data s cmd payload =
      let (ret, slot) = io.img_write s.slot payload false in
      let received = u32 (s.fw_received + length payload) in
      if not (s.fw_started && ltb 0 (length payload))
      then (s, reply s cmd (0 ∷ 0 ∷ 0 ∷ 0 ∷ []))
      else if ret == 0
      then (record s { slot = slot; fw_received = received }, reply s cmd (le32_bytes received))
      else (record s { slot = slot; fw_started = false }, reply s cmd (0 ∷ 0 ∷ 0 ∷ 0 ∷ []))

  -- FW_CMD_END
  pub fw_cmd_end : UdpFw S → ℕ → List ℕ → UdpFw S × List Action
  fw_cmd_end s cmd payload =
      let test_mode = get_or payload 0 0 in
      let recv_crc = get_le16 payload 1 in
      let flushed = (io.img_write s.slot [] true).1 in
      let permanent = if test_mode == 0 then 1 else 0 in
      let (ret, requested) = io.boot_request flushed permanent in
      if not (s.fw_started && leb 3 (length payload))
      then (s, reply s cmd (0 ∷ []))
      else if not (fw_verify_crc flushed recv_crc)
      then (record s { slot = flushed; fw_started = false }, reply s cmd (0 ∷ []))
      else (
        record s { slot = requested; fw_started = false },
        boot_request_upgrade permanent ∷ reply s cmd ((if ret == 0 then 1 else 0) ∷ []),
      )

  -- `handle_fw_cmd`: none is its `false`. The version text is taken to fit `ver`: 23 bytes at
  -- most.
  pub handle_fw_cmd : UdpFw S → ℕ → List ℕ → Option (UdpFw S × List Action)
  handle_fw_cmd s cmd payload =
      if cmd == Cmd.start
      then some (fw_cmd_start s cmd payload)
      else if cmd == Cmd.fw_data
      then some (fw_cmd_data s cmd payload)
      else if cmd == Cmd.end
      then some (fw_cmd_end s cmd payload)
      else if cmd == Cmd.get_version
      then some (s, reply s cmd env.version)
      else if cmd == Cmd.reboot
      then some (s, reply s cmd [] ++ (sys_reboot ∷ []))
      else none

  dispatch : (ℕ → List ℕ → ℕ → ℕ → Bool) → UdpFw S → ℕ → List ℕ → UdpFw S × List Action
  dispatch answer s cmd payload = elim (handle_fw_cmd s cmd payload) [
    | none ↦ (s, map call (broadcast (answer cmd payload) s.handlers).0)
    | some r ↦ r
  ]

  -- One pass of `udp_fw_rx_thread` at a packet from `src`, for what the callbacks answer.
  pub rx_thread_step :
      (ℕ → List ℕ → ℕ → ℕ → Bool) → UdpFw S → Address → List ℕ → UdpFw S × List Action
  unfolding dispatch
  rx_thread_step answer s src [] = (s, [])
  rx_thread_step answer s src (cmd ∷ payload) =
      let heard = record s { config_remote_addr = src } in
      let shut =
        not (is_same_subnet env src.ip) && not (bcast_cmd_allowed s.bcast_allowed_cmds cmd) in
      if env.bcast_restrict && shut then (heard, []) else dispatch answer heard cmd payload

  -- `udp_fw_allow_broadcast_cmd`
  pub udp_fw_allow_broadcast_cmd : UdpFw S → ℕ → UdpFw S
  udp_fw_allow_broadcast_cmd s cmd =
      if not env.bcast_restrict
      then s
      else if bcast_cmd_allowed s.bcast_allowed_cmds cmd
      then s
      else if ltb (length s.bcast_allowed_cmds) env.max_bcast_cmds
      then record s { bcast_allowed_cmds = s.bcast_allowed_cmds ++ (cmd ∷ []) }
      else s

-- `udp_fw_start`, for whether `socket` and `bind` succeed: the new state, and whether the RX thread
-- is started.
pub udp_fw_start : {S : Type 0} → UdpFw S → Bool → Bool → UdpFw S × Bool
udp_fw_start s socket bind =
    if s.udp_fw_started
    then (s, false)
    else if not socket
    then (record s { config_sock = false }, false)
    else if not bind
    then (record s { config_sock = false }, false)
    else (record s { config_sock = true; udp_fw_started = true }, true)

-- `udp_fw_init` and `if_up_handler`: an interface event, that it is up or another.
pub if_up_handler : {S : Type 0} → UdpFw S → Bool → Bool → Bool → UdpFw S × Bool
unfolding udp_fw_start
if_up_handler s if_up socket bind = if if_up then udp_fw_start s socket bind else (s, false)
