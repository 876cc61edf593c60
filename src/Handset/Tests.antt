-- ===== src/Handset/Tests.antt =====
-- Runs of a handset with the key of a gateway.
use zephyr_app.Common.{
  List, [], arith, false, length, none, refl, replicate, some, take, true, ℕ, ◌++◌, ◌∷◌, ◌≡◌,
}
use zephyr_app.Crypt.{Crypt, set_key}
use zephyr_app.Crypt.Link.{IsBehind, set_key-IsBehind}
use zephyr_app.Radio.{seal_packet}
use zephyr_app.Radio.CanId
use zephyr_app.Handset.{
  Handset, can_type, connect_switch, frame_bytes, rf24_deinit, rf24_init, rf24_rx_step,
  rf24_rx_step_plain, rf24_type, sleep_begin, sleep_end, sleep_work_handler, wake_begin, wake_end,
}
use zephyr_app.Handset.Parse.{Scanner, mod_can_parse_scanner}
use zephyr_app.Handset.Link.{forward_down}
use zephyr_app.Handset.Power.{
  IsOff, IsPowered, Reach-IsPowered, cross, dark, dim, next, press, sleep, start, wake_race,
}
use zephyr_app.Handset.Signal.{Report, Signal}
use zephyr_app.Gateway.{
  Gateway, Inet, rf24_send, udp_data_rx_step, rf24_rx_step_plain as gateway_rx_step,
}

abbrev no_names : Inet
no_names = record { pton = λ text. none; ntop = λ ip. [] }

abbrev fresh : Crypt
fresh = record { crypt_key = []; tx_counter = 0; rx_counter = 0; rx_initialized = false }

abbrev addr : List ℕ
addr = 1 ∷ 2 ∷ 3 ∷ 4 ∷ 5 ∷ []

abbrev nothing_seen : Scanner
nothing_seen = record {
  overbreak_valid = 0;
  overbreak_value = 0;
  laser_valid = 0;
  laser_distance = 0;
  coord_xy_valid = 0;
  coord_x = 0;
  coord_y = 0;
  coord_z_valid = 0;
  coord_z = 0;
}

-- on the radio, awake
abbrev handset : Handset
handset = record {
  connect_type = rf24_type;
  saved_type = rf24_type;
  wake_event = true;
  can_event = false;
  rf24_event = true;
  sleeping = false;
  waking = false;
  can_power = false;
  dis_power = true;
  handler_power = true;
  rf24_power = true;
  stop_forced = false;
  rf24_addr = addr;
  crypt = set_key fresh addr;
  scanner = nothing_seen;
}

-- X and Y
abbrev coordinates : List ℕ
coordinates = 0 ∷ 0 ∷ 1 ∷ 0 ∷ 0 ∷ 0 ∷ 2 ∷ 0 ∷ []

forward_down_example :
    let s = set_key fresh addr in
    let (sealed, buf, frame_len) = seal_packet s (replicate 32 0) CanId.coord_xy coordinates in
    let (t, sent) = rf24_rx_step handset (take frame_len buf ++ (9 ∷ [])) frame_len in
    (udp_data_rx_step no_names (3 ∷ 99 ∷ coordinates) ≡ rf24_send CanId.coord_xy coordinates ∷ [])
    × (t.scanner ≡ mod_can_parse_scanner CanId.coord_xy (frame_bytes coordinates) nothing_seen)
    × IsBehind 1 sealed t.crypt
    × (length (frame_bytes coordinates) ≡ 8)
forward_down_example =
    forward_down no_names handset 1 (set_key fresh addr) (replicate 32 0) 3 99 coordinates (9 ∷ [])
      (set_key-IsBehind fresh fresh addr (omega arith)) (omega arith) (omega arith) (omega arith)
      refl refl refl refl

-- before `main`
abbrev before : Handset
before = record handset {
  connect_type = can_type;
  can_event = true;
  rf24_event = false;
  can_power = true;
  rf24_power = false;
}

abbrev pressed : Handset
pressed = wake_begin true (sleep_begin (connect_switch true before))

Reach-IsPowered_example : IsPowered true dark (wake_end (sleep_end true pressed))
unfolding sleep_work_handler sleep_begin connect_switch rf24_init rf24_deinit
Reach-IsPowered_example = Reach-IsPowered true before refl refl refl refl refl (
    next
      (next
        (next (next start (sleep (connect_switch true before)))
          (press (sleep_begin (connect_switch true before)) false refl))
        (cross pressed))
      (dim (sleep_end true pressed)))

wake_race_example :
    (sleep_work_handler false (sleep_begin handset) ≡ true)
    × (let t = wake_end (sleep_end true (wake_begin true (sleep_begin handset))) in
        (t.sleeping ≡ false) × (t.waking ≡ false) × IsOff true t)
wake_race_example = wake_race true handset refl (refl, refl, refl, refl)

abbrev weak : Signal
weak = record { rf24_quality = 27; rssi = 3 }

abbrev success : Report
success = record { acked = true; retransmits = 0 }

-- the host's end of the radio link
abbrev plain_gateway : Gateway
plain_gateway = record {
  rf24_addr = addr;
  ip_addr = [];
  data_port = 9600;
  use_dhcp = false;
  host_ip = [];
  host_port = 9602;
  data_sock = true;
  net_link_up = true;
  ping_wait_seq = 255;
  crypt = fresh;
}

abbrev one_name : Inet
one_name = record { pton = λ text. some (10 ∷ 0 ∷ 0 ∷ 7 ∷ []); ntop = λ ip. [] }
