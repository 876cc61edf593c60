-- ===== src/Gateway/Forward.antt =====
-- What the gateway forwards, in both directions.
use zephyr_app.Common.{
  All, Bool, List, Option, [], ap, arith, be16_bytes, false, get_be16, get_or, get_or-take, if_both,
  if◌then◌else◌, inl, inr, leb, length, ltb, none, not, refl, some, sym, take, true, ℕ, ◌%◌, ◌&&◌,
  ◌*◌, ◌++◌, ◌+◌, ◌/◌, ◌<◌, ◌==◌, ◌^◌, ◌||◌, ◌∙◌, ◌∷◌, ◌≡◌, ◌≢◌, ◌≤◌, ◌⊎◌,
}
use zephyr_app.Crypt.{Crypt}
use zephyr_app.Crypt.Link.{IsBehind}
use zephyr_app.Radio.{open_packet, seal_packet}
use zephyr_app.Radio.CanId
use zephyr_app.Radio.Packet.{open_packet-seal_packet, open_packet_got, open_plain_frame}
use zephyr_app.Gateway.Cmd
use zephyr_app.Gateway.{
  Action, Gateway, Inet, gw_udp_send, nrf24_configure, nrf24_start_rx, ping_put, rf24_dispatch,
  rf24_rx_step, rf24_rx_step_plain, rf24_send, rf24_test_handle_rx, save_network, save_rf24, sendto,
  udp_data_rx_step, udp_fw_reply,
}

-- The identifiers that go on to the host.
abbrev pub for_host : ℕ → Bool
for_host can_id = can_id == CanId.handler_state || can_id == CanId.cobid_heatbeat

-- The identifier at the front of what was opened
pub get_be16-opened :
    (out bytes : List ℕ) (can_id got : ℕ)
    → 2 ≤ got
    → can_id < 2 ^ 16
    → take got out ≡ be16_bytes can_id ++ bytes
    → get_be16 out 0 ≡ can_id
get_be16-opened out bytes can_id got h fits e =
    let first : get_or out 0 0 ≡ can_id / 2 ^ 8 % 256 =
      sym (get_or-take got out 0 0 (omega (arith, h))) ∙ ap (λ l. get_or l 0 0) e in
    let second : get_or out 1 0 ≡ can_id % 256 =
      sym (get_or-take got out 1 0 (omega (arith, h))) ∙ ap (λ l. get_or l 1 0) e in
    rw (first, second) (omega (arith, fits))

neither {ℓ} :
    {A : Type ℓ} (a b : Bool) (x y : A)
    → (if not a && not b then y else x) ≡ (if a || b then x else y)
neither true b x y = refl
neither false true x y = refl
neither false false x y = refl

one_of : (a b : Bool) → (not a && not b) ≡ false → (a || b) ≡ true
one_of true b h = refl
one_of false true h = refl
one_of false false h = cc

rf24_dispatch_host :
    (inet : Inet) (g : Gateway) (can_id got : ℕ) (bytes out ip : List ℕ)
    → got ≡ length bytes + 2
    → take got out ≡ be16_bytes can_id ++ bytes
    → can_id < 2 ^ 16
    → can_id ≢ CanId.test_frame
    → g.data_sock ≡ true
    → g.net_link_up ≡ true
    → inet.pton g.host_ip ≡ some ip
    → rf24_dispatch inet g out got
      ≡ (if for_host can_id then sendto ip g.host_port (be16_bytes can_id ++ bytes) ∷ [] else [])
unfolding rf24_dispatch gw_udp_send
rf24_dispatch_host inet g can_id got bytes out ip size same fits other sock up host =
    let id = get_be16-opened out bytes can_id got (omega (arith, size)) fits same in
    let no_test : (can_id == CanId.test_frame) ≡ false = ground (arith, other) in
    let some_got : (got == 0) ≡ false = ground (arith, size) in
    let full : (length (be16_bytes can_id ++ bytes) == 0) ≡ false = ground arith in
    simp (some_got, id, no_test, same, sock, up, host, full)
      (neither (can_id == CanId.handler_state) (can_id == CanId.cobid_heatbeat) _ _)

-- With the encryption built in (CONFIG_NRF24L01P_CRYPT), both ends under one key and the gateway from
-- 1 to 32 frames behind, a packet of at most 29 bytes that the handset sends reaches the host as it
-- was sent, the identifier in front, if it is a state or a heartbeat; any other packet but a test is
-- dropped. The socket is open, the link up and the host's address legible. The gateway has caught up
-- afterwards.
pub forward_up :
    (inet : Inet) (g : Gateway) (d : ℕ) (s : Crypt) (stack : List ℕ) (can_id : ℕ)
    (bytes junk ip : List ℕ)
    → IsBehind d s g.crypt
    → 1 ≤ d
    → d ≤ 32
    → length bytes ≤ 29
    → length stack ≡ 32
    → can_id < 2 ^ 16
    → can_id ≢ CanId.test_frame
    → g.data_sock ≡ true
    → g.net_link_up ≡ true
    → inet.pton g.host_ip ≡ some ip
    → let (sealed, buf, frame_len) = seal_packet s stack can_id bytes in
      let (t, done) = rf24_rx_step inet g (take frame_len buf ++ junk) frame_len in
      (done
        ≡ (if for_host can_id then sendto ip g.host_port (be16_bytes can_id ++ bytes) ∷ [] else []))
      × IsBehind 1 sealed t.crypt
unfolding rf24_rx_step
forward_up inet g d s stack can_id bytes junk ip b lo hi short whole fits other sock up host =
    let (size, got, same, next) =
      open_packet-seal_packet d s g.crypt stack can_id bytes junk b lo hi short whole in
    (rf24_dispatch_host inet _ can_id _ bytes _ ip got same fits other sock up host, next)

pub rf24_rx_step_plain_host :
    (inet : Inet) (g : Gateway) (can_id : ℕ) (bytes frame ip : List ℕ)
    → take (length bytes + 2) frame ≡ be16_bytes can_id ++ bytes
    → can_id < 2 ^ 16
    → can_id ≢ CanId.test_frame
    → g.data_sock ≡ true
    → g.net_link_up ≡ true
    → inet.pton g.host_ip ≡ some ip
    → rf24_rx_step_plain inet g frame (length bytes + 2)
      ≡ (if for_host can_id then sendto ip g.host_port (be16_bytes can_id ++ bytes) ∷ [] else [])
unfolding rf24_rx_step_plain
rf24_rx_step_plain_host inet g can_id bytes frame ip same fits other sock up host =
    rw (open_plain_frame (length bytes))
      (rf24_dispatch_host inet g can_id _ bytes frame ip refl same fits other sock up host)

-- What a received frame may set off: a datagram to the configured host over an open socket and a
-- link that is up, which starts with one of the two forwarded identifiers; the answer to a test; an
-- echo of the number in `ping_wait_seq`.
pub IsForwarding : Inet → Gateway → Action → Type 0
IsForwarding inet g (sendto ip port bytes) =
    (inet.pton g.host_ip ≡ some ip)
    × (port ≡ g.host_port)
    × (for_host (get_be16 bytes 0) ≡ true)
    × (g.data_sock ≡ true)
    × (g.net_link_up ≡ true)
IsForwarding inet g (udp_fw_reply cmd bytes) = ⊥
IsForwarding inet g save_network = ⊥
IsForwarding inet g save_rf24 = ⊥
IsForwarding inet g (nrf24_configure addr) = ⊥
IsForwarding inet g nrf24_start_rx = ⊥
IsForwarding inet g (rf24_send can_id bytes) = can_id ≡ CanId.test_frame
IsForwarding inet g (ping_put seq) = seq ≡ g.ping_wait_seq

gw_udp_send-IsForwarding :
    (inet : Inet) (g : Gateway) (bytes : List ℕ)
    → for_host (get_be16 bytes 0) ≡ true
    → All (IsForwarding inet g) (gw_udp_send inet g bytes)
unfolding gw_udp_send IsForwarding
gw_udp_send-IsForwarding inet g bytes h =
    if_both (All (IsForwarding inet g)) (not g.data_sock || length bytes == 0) _ _ (λ e. tt)
      (λ e.
        if_both (All (IsForwarding inet g)) (not g.net_link_up) _ _ (λ f. tt)
          (λ f. resolved _ refl e f))
  where
    resolved :
        (host : Option (List ℕ))
        → inet.pton g.host_ip ≡ host
        → (not g.data_sock || length bytes == 0) ≡ false
        → not g.net_link_up ≡ false
        → All
            (IsForwarding inet g)
            (elim host [ some ip ↦ sendto ip g.host_port bytes ∷ [] | none ↦ [] ])
    resolved none q e f = tt
    resolved (some ip) q e f = ((q, refl, h, ground (arith, e), ground (arith, f)), tt)

rf24_test_handle_rx-IsForwarding :
    (inet : Inet) (g : Gateway) (bytes : List ℕ)
    → All (IsForwarding inet g) (rf24_test_handle_rx inet g bytes)
unfolding rf24_test_handle_rx IsForwarding
rf24_test_handle_rx-IsForwarding inet g bytes =
    if_both (All (IsForwarding inet g)) (ltb (length bytes) 1) _ _ (λ e. tt)
      (λ e.
        if_both (All (IsForwarding inet g)) (get_or bytes 0 0 == Cmd.test_ping) _ _
          (λ e. (refl, tt))
          (λ e.
            if_both (All (IsForwarding inet g))
              (get_or bytes 0 0 == Cmd.test_echo && leb 2 (length bytes) && g.ping_wait_seq == _) _
              _ (λ e. (ground (arith, e), tt)) (λ e. tt)))

rf24_dispatch-IsForwarding :
    (inet : Inet) (g : Gateway) (out : List ℕ) (got : ℕ)
    → (got ≡ 0) ⊎ (2 ≤ got)
    → All (IsForwarding inet g) (rf24_dispatch inet g out got)
unfolding rf24_dispatch
rf24_dispatch-IsForwarding inet g out got (inl z) = rw z tt
rf24_dispatch-IsForwarding inet g out got (inr two) =
    let first = get_or-take got out 0 0 (omega (arith, two)) in
    let second = get_or-take got out 1 0 (omega (arith, two)) in
    let id : get_be16 (take got out) 0 ≡ get_be16 out 0 = rw (first, second) refl in
    if_both (All (IsForwarding inet g)) (got == 0) _ _ (λ e. tt)
      (λ e.
        if_both (All (IsForwarding inet g)) (get_be16 out 0 == CanId.test_frame) _ _
          (λ e. rf24_test_handle_rx-IsForwarding inet g _)
          (λ e.
            if_both (All (IsForwarding inet g))
              (not (get_be16 out 0 == CanId.handler_state)
                && not (get_be16 out 0 == CanId.cobid_heatbeat))
              _ _ (λ f. tt)
              (λ f. gw_udp_send-IsForwarding inet g (take got out) (rw id (one_of _ _ f)))))

-- Whatever the frame and its length, and whoever sent it, all that one pass of the receiving thread
-- sets off is: datagrams to the configured host, over an open socket and with the link up, that
-- start with one of the two forwarded identifiers; radio frames with the identifier of the tests;
-- and the echo of the number in `ping_wait_seq`, also where that is the 0xFF of no ping. The build is
-- the one with the encryption.
pub rf24_rx_step-IsForwarding :
    (inet : Inet) (g : Gateway) (frame : List ℕ) (len : ℕ)
    → All (IsForwarding inet g) (rf24_rx_step inet g frame len).1
unfolding rf24_rx_step IsForwarding
rf24_rx_step-IsForwarding inet g frame len =
    let (crypt, out, got) = open_packet g.crypt frame len in
    rf24_dispatch-IsForwarding inet (record g { crypt = crypt }) out got
      (open_packet_got g.crypt frame len)

-- A datagram with one of the scanner's identifiers goes out over the radio.
pub udp_data_rx_step_scanner :
    (inet : Inet) (hi lo : ℕ) (bytes : List ℕ)
    → let can_id = hi * 2 ^ 8 + lo in
      (can_id == CanId.overbreak_laser || can_id == CanId.coord_xy || can_id == CanId.coord_z)
        ≡ true
      → udp_data_rx_step inet (hi ∷ lo ∷ bytes) ≡ rf24_send can_id bytes ∷ []
unfolding udp_data_rx_step
udp_data_rx_step_scanner inet hi lo bytes h =
    let long : ltb (length (hi ∷ lo ∷ bytes)) 2 ≡ false = ground arith in rw (long, h) refl
