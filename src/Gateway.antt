-- ===== src/Gateway.antt =====
-- The radio gateway: applications/gateway/src/udp.c, the receiving thread of src/rf24.c and the test
-- frames of src/rf24_shell.c. Addresses in text are what `inet_ntop` writes; it and `inet_pton` are
-- parameters.
pub mod Cmd
pub mod Led
pub mod Orders
pub mod Forward
mod Tests
use zephyr_app.Common.{
  Bool, List, Option, [], be16_bytes, drop, false, get_be16, get_be32, get_or, if◌then◌else◌, leb,
  length, ltb, none, not, replicate, some, take, true, u8, ℕ, ◌&&◌, ◌++◌, ◌-◌, ◌/◌, ◌==◌, ◌^◌, ◌||◌,
  ◌∷◌,
}
use zephyr_app.Crypt.{Crypt, set_key}
use zephyr_app.Radio.{open_packet, open_plain, rf24_id_size}
use zephyr_app.Radio.CanId
use zephyr_app.Gateway.Cmd

-- `inet_pton` and `inet_ntop` on IPv4 addresses of four bytes
pub record Inet : Type 0 where
  pub pton : List ℕ → Option (List ℕ)
  pub ntop : List ℕ → List ℕ

-- `gw_params`, the static variables of udp.c and rf24_shell.c, and those of the encryption.
pub record Gateway : Type 0 where
  pub rf24_addr : List ℕ
  pub ip_addr : List ℕ
  pub data_port : ℕ
  pub use_dhcp : Bool
  pub host_ip : List ℕ
  pub host_port : ℕ
  pub data_sock : Bool
  pub net_link_up : Bool
  pub ping_wait_seq : ℕ
  pub crypt : Crypt

-- What the gateway does outside: a datagram from the data socket, an answer by `udp_fw_reply`, the
-- settings that are saved, the configuration of the radio, a frame for `gw_rf24_send`, and an echo
-- for a waiting ping.
pub data Action : Type 0 where
  sendto : List ℕ → ℕ → List ℕ → Action
  udp_fw_reply : ℕ → List ℕ → Action
  save_network : Action
  save_rf24 : Action
  nrf24_configure : List ℕ → Action
  nrf24_start_rx : Action
  rf24_send : ℕ → List ℕ → Action
  ping_put : ℕ → Action

abbrev pub rf24_addr_len : ℕ
rf24_addr_len = 5

-- Neither 0.0.0.0 nor broadcast, loopback, multicast or reserved.
pub ip_is_valid : List ℕ → Bool
ip_is_valid addr =
    let a = get_be32 addr 0 in
    let b0 = u8 (a / 2 ^ 24) in
    if a == 0
    then false
    else if a == 0xFFFFFFFF
    then false
    else if b0 == 127
    then false
    else if leb 224 b0
    then false
    else true

-- `gw_rf24_set_config`, for a radio that is ready or not
pub gw_rf24_set_config : Bool → Gateway → List ℕ → Gateway × List Action
gw_rf24_set_config ready g addr =
    let t = record g { rf24_addr = addr; crypt = set_key g.crypt addr } in
    (t, if ready then nrf24_configure addr ∷ nrf24_start_rx ∷ [] else [])

module _ (inet : Inet) where
  -- The four bytes of an address in text, zeros for what is none.
  pub parsed : List ℕ → List ℕ
  parsed text = elim (inet.pton text) [ some ip ↦ ip | none ↦ replicate 4 0 ]

  pub pack_host : Gateway → List ℕ
  pack_host g = parsed g.host_ip ++ be16_bytes g.host_port

  pub gw_udp_send : Gateway → List ℕ → List Action
  gw_udp_send g bytes =
      if not g.data_sock || length bytes == 0
      then []
      else if not g.net_link_up
      then []
      else elim (inet.pton g.host_ip) [ some ip ↦ sendto ip g.host_port bytes ∷ [] | none ↦ [] ]

  pub set_ip : Gateway → List ℕ → Gateway × List Action
  set_ip g bytes =
      let addr = take 4 bytes in
      if leb 4 (length bytes) && not g.use_dhcp && ip_is_valid addr
      then (
        record g { ip_addr = inet.ntop addr },
        save_network ∷ udp_fw_reply Cmd.set_ip (1 ∷ []) ∷ [],
      )
      else (g, udp_fw_reply Cmd.set_ip (0 ∷ []) ∷ [])

  pub set_rf24 : Bool → Gateway → List ℕ → Gateway × List Action
  set_rf24 ready g bytes =
      let addr = take rf24_addr_len bytes in
      let (t, done) = gw_rf24_set_config ready (record g { rf24_addr = addr }) addr in
      if leb rf24_addr_len (length bytes)
      then (t, save_rf24 ∷ (done ++ (udp_fw_reply Cmd.set_rf24 t.rf24_addr ∷ [])))
      else (g, [])

  pub set_host : Gateway → List ℕ → Gateway × List Action
  set_host g bytes =
      let t = record g { host_ip = inet.ntop (take 4 bytes); host_port = get_be16 bytes 4 } in
      if leb 6 (length bytes)
      then (t, save_network ∷ udp_fw_reply Cmd.set_host (pack_host t) ∷ [])
      else (g, [])

  -- The address that the interface has now, or else the one of the settings.
  pub discover : ℕ → Option (List ℕ) → Gateway → List Action
  discover config_port live g =
      let ip : List ℕ = elim live [ some ip ↦ ip | none ↦ parsed g.ip_addr ] in
      udp_fw_reply Cmd.discover (ip ++ be16_bytes config_port) ∷ []

  -- The handler of the UDP library: false leaves a command to others.
  pub app_cmd_handler :
      Bool → ℕ → Option (List ℕ) → Gateway → ℕ → List ℕ → Gateway × List Action × Bool
  app_cmd_handler ready config_port live g cmd bytes =
      let ip = set_ip g bytes in
      let rf24 = set_rf24 ready g bytes in
      let host = set_host g bytes in
      if cmd == Cmd.set_ip
      then (ip.0, ip.1, true)
      else if cmd == Cmd.get_net
      then (
        g,
        udp_fw_reply cmd (be16_bytes g.data_port ++ (parsed g.host_ip ++ be16_bytes g.host_port))
            ∷ [],
        true,
      )
      else if cmd == Cmd.set_rf24
      then (rf24.0, rf24.1, true)
      else if cmd == Cmd.get_rf24
      then (g, udp_fw_reply cmd g.rf24_addr ∷ [], true)
      else if cmd == Cmd.set_host
      then (host.0, host.1, true)
      else if cmd == Cmd.discover
      then (g, discover config_port live g, true)
      else (g, [], false)

  -- A datagram on the data port, of `received` bytes: one pass of `udp_data_rx_thread`.
  pub udp_data_rx_step : List ℕ → List Action
  udp_data_rx_step buf =
      let can_id = get_be16 buf 0 in
      if ltb (length buf) 2
      then []
      else if can_id == CanId.overbreak_laser || can_id == CanId.coord_xy || can_id == CanId.coord_z
      then rf24_send can_id (drop 2 buf) ∷ []
      else []

  -- `rf24_test_handle_rx`: a ping is answered, an echo goes to the ping that waits for it; text is
  -- only logged.
  pub rf24_test_handle_rx : Gateway → List ℕ → List Action
  rf24_test_handle_rx g bytes =
      let sub = get_or bytes 0 0 in
      let seq = if leb 2 (length bytes) then get_or bytes 1 0 else 0xFF in
      if ltb (length bytes) 1
      then []
      else if sub == Cmd.test_ping
      then rf24_send CanId.test_frame (Cmd.test_echo ∷ seq ∷ 0 ∷ []) ∷ []
      else if sub == Cmd.test_echo && leb 2 (length bytes) && g.ping_wait_seq == seq
      then ping_put seq ∷ []
      else []

  -- What `rf24_rx_thread` does with the `got` bytes of an opened frame.
  pub rf24_dispatch : Gateway → List ℕ → ℕ → List Action
  rf24_dispatch g bytes got =
      let can_id = get_be16 bytes 0 in
      if got == 0
      then []
      else if can_id == CanId.test_frame
      then rf24_test_handle_rx g (take (got - rf24_id_size) (drop rf24_id_size bytes))
      else if not (can_id == CanId.handler_state) && not (can_id == CanId.cobid_heatbeat)
      then []
      else gw_udp_send g (take got bytes)

  -- One pass of `rf24_rx_thread`, for a frame and its length, with CONFIG_NRF24L01P_CRYPT and without.
  pub rf24_rx_step : Gateway → List ℕ → ℕ → Gateway × List Action
  rf24_rx_step g frame len =
      let (crypt, bytes, got) = open_packet g.crypt frame len in
      let t = record g { crypt = crypt } in (t, rf24_dispatch t bytes got)

  pub rf24_rx_step_plain : Gateway → List ℕ → ℕ → List Action
  rf24_rx_step_plain g frame len = rf24_dispatch g frame (open_plain len)

-- `net_if_event_handler`: the link went up or down. The second result starts the DHCP client.
pub net_if_event_handler : Gateway → Bool → Gateway × Bool
net_if_event_handler g up = (record g { net_link_up = up }, up && g.use_dhcp)
