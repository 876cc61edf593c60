-- ===== src/Gateway/Orders.antt =====
-- What the configuration commands of the gateway do.
use zephyr_app.Common.{
  All, Bool, Bool-cases, List, Option, [], arith, be16_bytes, false, if◌then◌else◌, inl, inr,
  length, ltb, none, not, refl, some, true, ℕ, ◌%◌, ◌&&◌, ◌*◌, ◌++◌, ◌+◌, ◌/◌, ◌<◌, ◌==◌, ◌^◌, ◌∷◌,
  ◌≡◌, ◌≤◌,
}
use zephyr_app.Crypt.{Crypt, set_key}
use zephyr_app.Crypt.Link.{IsBehind, set_key-IsBehind}
use zephyr_app.Gateway.{
  Gateway, Inet, app_cmd_handler, discover, gw_rf24_set_config, gw_udp_send, ip_is_valid,
  nrf24_configure, nrf24_start_rx, pack_host, parsed, save_network, save_rf24, sendto, set_host,
  set_ip, set_rf24, udp_fw_reply,
}
use zephyr_app.Gateway.Cmd

-- `inet_pton` reads what `inet_ntop` writes.
abbrev pub ReadsBack : Inet → Type 0
ReadsBack inet = (ip : List ℕ) → length ip ≡ 4 → inet.pton (inet.ntop ip) ≡ some ip

parsed_back :
    (inet : Inet) (ip : List ℕ) → ReadsBack inet → length ip ≡ 4 → parsed inet (inet.ntop ip) ≡ ip
unfolding parsed
parsed_back inet ip back h = rw (parsed, back ip h) refl

-- SET_HOST answers with the request; GET_NET then gives the data port and the request, and what is
-- forwarded goes to the new address and port, the socket being open and the link up.
pub set_host_lem :
    (inet : Inet) (ready : Bool) (port : ℕ) (live : Option (List ℕ)) (g : Gateway) (a b c d p q : ℕ)
    (bytes : List ℕ)
    → ReadsBack inet
    → All (λ x. x < 256) (a ∷ b ∷ c ∷ d ∷ p ∷ q ∷ [])
    → g.data_sock ≡ true
    → g.net_link_up ≡ true
    → 1 ≤ length bytes
    → let req = a ∷ b ∷ c ∷ d ∷ p ∷ q ∷ [] in
      let (t, done, mine) = app_cmd_handler inet ready port live g Cmd.set_host req in
      (done ≡ save_network ∷ udp_fw_reply Cmd.set_host req ∷ [])
      × ((app_cmd_handler inet ready port live t Cmd.get_net []).1
          ≡ udp_fw_reply Cmd.get_net (be16_bytes g.data_port ++ req) ∷ [])
      × (gw_udp_send inet t bytes ≡ sendto (a ∷ b ∷ c ∷ d ∷ []) (p * 2 ^ 8 + q) bytes ∷ [])
unfolding app_cmd_handler set_host pack_host gw_udp_send
set_host_lem inet ready port live g a b c d p q bytes back h sock up some_bytes =
    let host = back (a ∷ b ∷ c ∷ d ∷ []) refl in
    let read = parsed_back inet (a ∷ b ∷ c ∷ d ∷ []) back refl in
    let full : (length bytes == 0) ≡ false = ground (arith, some_bytes) in
    let hi : (p * 2 ^ 8 + q) / 2 ^ 8 % 256 ≡ p = omega (arith, h) in
    let low : (p * 2 ^ 8 + q) % 256 ≡ q = omega (arith, h) in
    rw (read, host, sock, up, full, hi, low) (refl, refl, refl)

-- SET_RF24 answers with the new address, which GET_RF24 then gives, and derives the key of the link
-- from it: with a handset that derives its key from the same address the gateway is in step, as the
-- sender and as the receiver.
pub set_rf24_lem :
    (inet : Inet) (port : ℕ) (live : Option (List ℕ)) (g : Gateway) (peer : Crypt) (a b c d e : ℕ)
    → g.crypt.rx_counter < 2 ^ 32
    → peer.rx_counter < 2 ^ 32
    → let req = a ∷ b ∷ c ∷ d ∷ e ∷ [] in
      let (t, done, mine) = app_cmd_handler inet true port live g Cmd.set_rf24 req in
      (done ≡ save_rf24 ∷ nrf24_configure req ∷ nrf24_start_rx ∷ udp_fw_reply Cmd.set_rf24 req ∷ [])
      × ((app_cmd_handler inet true port live t Cmd.get_rf24 []).1
          ≡ udp_fw_reply Cmd.get_rf24 req ∷ [])
      × IsBehind 1 t.crypt (set_key peer req)
      × IsBehind 1 (set_key peer req) t.crypt
unfolding app_cmd_handler set_rf24 gw_rf24_set_config
set_rf24_lem inet port live g peer a b c d e mine other =
    let req = a ∷ b ∷ c ∷ d ∷ e ∷ [] in
    (refl, refl, set_key-IsBehind g.crypt peer req other, set_key-IsBehind peer g.crypt req mine)

-- Addresses of single hosts: below 224.0.0.0, not loopback and not 0.0.0.0.
abbrev pub unicast : ℕ → ℕ → ℕ → ℕ → Bool
unicast a b c d = ltb a 224 && not (a == 127) && not (a == 0 && b == 0 && c == 0 && d == 0)

ip_is_valid_lem :
    (a b c d : ℕ) (rest : List ℕ)
    → All (λ x. x < 256) (a ∷ b ∷ c ∷ d ∷ [])
    → ip_is_valid (a ∷ b ∷ c ∷ d ∷ rest) ≡ unicast a b c d
unfolding ip_is_valid
ip_is_valid_lem a b c d rest h =
    let word = a * 2 ^ 24 + b * 2 ^ 16 + c * 2 ^ 8 + d in
    let top : word / 2 ^ 24 % 256 ≡ a = omega (arith, h) in rw top (ground (arith, h))

-- SET_IP takes the address of a single host while the address is static, and saves it: DISCOVER then
-- gives it as long as the interface has none. Otherwise it answers 0 and changes nothing.
pub set_ip_lem :
    (inet : Inet) (ready : Bool) (port : ℕ) (g : Gateway) (a b c d : ℕ)
    → ReadsBack inet
    → All (λ x. x < 256) (a ∷ b ∷ c ∷ d ∷ [])
    → let req = a ∷ b ∷ c ∷ d ∷ [] in
      let taken = not g.use_dhcp && unicast a b c d in
      let (t, done, mine) = app_cmd_handler inet ready port none g Cmd.set_ip req in
      (done ≡ (
        if taken
        then save_network ∷ udp_fw_reply Cmd.set_ip (1 ∷ []) ∷ []
        else udp_fw_reply Cmd.set_ip (0 ∷ []) ∷ []))
      × ((app_cmd_handler inet ready port none t Cmd.discover []).1 ≡ (
          if taken
          then udp_fw_reply Cmd.discover (req ++ be16_bytes port) ∷ []
          else (app_cmd_handler inet ready port none g Cmd.discover []).1))
unfolding app_cmd_handler set_ip discover
set_ip_lem inet ready port g a b c d back h =
    let valid = ip_is_valid_lem a b c d [] h in
    let read = parsed_back inet (a ∷ b ∷ c ∷ d ∷ []) back refl in
    elim (Bool-cases (not g.use_dhcp && unicast a b c d)) [
      | inl e ↦ rw (valid, e, read) (refl, refl)
      | inr e ↦ rw (valid, e) (refl, refl)
    ]
