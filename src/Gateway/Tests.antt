-- ===== src/Gateway/Tests.antt =====
-- Runs of a gateway whose addresses in text are the bytes behind a letter.
use zephyr_app.Common.{
  All, List, Option, [], arith, be16_bytes, false, if◌then◌else◌, length, ltb, none, not, refl,
  replicate, some, suc, take, true, ℕ, ◌&&◌, ◌*◌, ◌++◌, ◌+◌, ◌==◌, ◌^◌, ◌∷◌, ◌≡◌, ◌≤◌,
}
use zephyr_app.Crypt.{Crypt, set_key}
use zephyr_app.Crypt.Link.{IsBehind, set_key-IsBehind}
use zephyr_app.Radio.{Radio, gw_rf24_send, seal_packet}
use zephyr_app.Radio.CanId
use zephyr_app.Radio.Backoff.{IsBackoff, any_acked, gw_rf24_send_lem, reports, sum}
use zephyr_app.Gateway.{
  Gateway, Inet, app_cmd_handler, gw_udp_send, rf24_rx_step, save_network, sendto, udp_fw_reply,
}
use zephyr_app.Gateway.Cmd
use zephyr_app.Gateway.Forward.{IsForwarding, forward_up, rf24_rx_step-IsForwarding}
use zephyr_app.Gateway.Orders.{ReadsBack, set_host_lem}
use zephyr_app.Gateway.Led.{Led}

abbrev letters : Inet
letters = record { pton = read; ntop = λ ip. 65 ∷ ip }
  where
    read : List ℕ → Option (List ℕ)
    read [] = none
    read (c ∷ ip) = if c == 65 then some ip else none

letters-ReadsBack : ReadsBack letters
letters-ReadsBack ip h = refl

abbrev blank_crypt : Crypt
blank_crypt = record { crypt_key = []; tx_counter = 0; rx_counter = 0; rx_initialized = false }

abbrev addr : List ℕ
addr = 1 ∷ 2 ∷ 3 ∷ 4 ∷ 5 ∷ []

abbrev gateway : Gateway
gateway = record {
  rf24_addr = addr;
  ip_addr = 65 ∷ 192 ∷ 168 ∷ 11 ∷ 100 ∷ [];
  data_port = 9600;
  use_dhcp = false;
  host_ip = 65 ∷ 192 ∷ 168 ∷ 11 ∷ 150 ∷ [];
  host_port = 9602;
  data_sock = true;
  net_link_up = true;
  ping_wait_seq = 255;
  crypt = set_key blank_crypt addr;
}

-- the handset, and what it reports
abbrev handset : Crypt
handset = set_key blank_crypt addr

abbrev state : List ℕ
state = 0 ∷ 5 ∷ 0 ∷ 9 ∷ 1 ∷ 255 ∷ 255 ∷ 255 ∷ []

in_step : IsBehind 1 handset gateway.crypt
in_step = set_key-IsBehind blank_crypt blank_crypt addr (omega arith)

forward_up_example :
    let (sealed, buf, frame_len) = seal_packet handset (replicate 32 0) CanId.handler_state state in
    let (t, done) = rf24_rx_step letters gateway (take frame_len buf ++ (7 ∷ [])) frame_len in
    (done ≡ sendto (192 ∷ 168 ∷ 11 ∷ 150 ∷ []) 9602 (be16_bytes CanId.handler_state ++ state) ∷ [])
    × IsBehind 1 sealed t.crypt
forward_up_example =
    forward_up letters gateway 1 handset (replicate 32 0) CanId.handler_state state (7 ∷ [])
      (192 ∷ 168 ∷ 11 ∷ 150 ∷ []) in_step (omega arith) (omega arith) (omega arith) refl
      (omega arith) (λ e. omega arith) refl refl refl

rf24_rx_step-IsForwarding_example :
    let (sealed, buf, frame_len) = seal_packet handset (replicate 32 0) CanId.handler_state state in
    All
      (IsForwarding letters gateway)
      (rf24_rx_step letters gateway (take frame_len buf) frame_len).1
rf24_rx_step-IsForwarding_example =
    let (sealed, buf, frame_len) = seal_packet handset (replicate 32 0) CanId.handler_state state in
    rf24_rx_step-IsForwarding letters gateway (take frame_len buf) frame_len

set_host_lem_example :
    let req : List ℕ = 10 ∷ 0 ∷ 0 ∷ 7 ∷ 37 ∷ 130 ∷ [] in
    let (t, done, mine) = app_cmd_handler letters true 8600 none gateway Cmd.set_host req in
    (done ≡ save_network ∷ udp_fw_reply Cmd.set_host req ∷ [])
    × ((app_cmd_handler letters true 8600 none t Cmd.get_net []).1
        ≡ udp_fw_reply Cmd.get_net (be16_bytes 9600 ++ req) ∷ [])
    × (gw_udp_send letters t state ≡ sendto (10 ∷ 0 ∷ 0 ∷ 7 ∷ []) (37 * 2 ^ 8 + 130) state ∷ [])
set_host_lem_example =
    set_host_lem letters true 8600 none gateway 10 0 0 7 37 130 state letters-ReadsBack
      (ground arith) refl refl (omega arith)

-- a radio that fails twice, at a clock of 1000 ms
abbrev flaky : Radio ℕ
flaky = record {
  nrf24_send = λ n frame.
      (suc n, record { ret = if ltb n 2 then 5 else 0; acked = ltb 1 n; retransmits = 15 });
  uptime = λ n. 1000;
  msleep = λ n ms. n;
}

gw_rf24_send_lem_example :
    let (sealed, buf, frame_len) = seal_packet handset (replicate 32 0) CanId.test_frame state in
    let (after, t, pauses, ok) =
      gw_rf24_send flaky true handset 0 (replicate 32 0) CanId.test_frame state in
    IsBackoff 0 pauses
    × (length pauses ≤ 5)
    × (sum pauses ≤ 67)
    × (ok ≡ (not (frame_len == 0) && any_acked flaky (reports flaky 5 0 0 (take frame_len buf))))
gw_rf24_send_lem_example =
    gw_rf24_send_lem flaky true handset 0 (replicate 32 0) CanId.test_frame state

abbrev dark : Led
dark = record {
  led_rf24 = false;
  led_err = false;
  led_sys = false;
  rf24_last_activity = 0;
  blinking = false;
  error_latched = false;
  blink_scheduled = false;
  selftest_scheduled = false;
}

abbrev tested : Led
tested = record dark { led_rf24 = true; led_err = true; error_latched = true }
