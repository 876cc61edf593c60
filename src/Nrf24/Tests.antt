-- ===== src/Nrf24/Tests.antt =====
-- Runs of the radio's driver with a chip in memory.
use zephyr_app.Common.{
  Bool, List, [], arith, false, get_or, if_both, if◌then◌else◌, inr, none, refl, some, true, ℕ,
  ◌==◌, ◌∷◌, ◌≡◌,
}
use zephyr_app.Nrf24.{Bus, Dev, ok, prx}
use zephyr_app.Nrf24.Setup.{Cfg, Config, nrf24_configure, pwr_6dbm, rate_2m, two_byte}
use zephyr_app.Nrf24.Chip.{Chip}
use zephyr_app.Nrf24.Setup.Written.{
  after_all, exchanges, nrf24_configure-exchanges, payload_exchanges,
}
use zephyr_app.Nrf24.Send.{nrf24_send}
use zephyr_app.Nrf24.Send.Restore.{IsListening, IsOnAir, nrf24_send_lem, sending, told_of, verdict}
use zephyr_app.Nrf24.Receive.{irq_pass, nrf24_add_rx_callback}
use zephyr_app.Nrf24.Receive.Callback.{callback_unheard}

-- The register CONFIG, the pin CE, and whether a frame of two bytes waits.
record Sim : Type 0 where
  config : ℕ
  ce : Bool
  waiting : Bool

abbrev sim_reply : List ℕ → Sim → List ℕ
sim_reply [] w = []
sim_reply (c ∷ tx) w =
    if c == 0x07
    then 14 ∷ (if w.waiting then 64 else 0) ∷ []
    else if c == 0x60
    then 14 ∷ 2 ∷ []
    else if c == 0x61
    then 14 ∷ 7 ∷ 8 ∷ []
    else 14 ∷ w.config ∷ []

abbrev sim_after : List ℕ → Sim → Sim
sim_after [] w = w
sim_after (c ∷ tx) w =
    if c == 0x20
    then record w { config = get_or tx 0 0 }
    else if c == 0x27
    then record w { waiting = false }
    else w

abbrev sim_bus : Bus Sim
sim_bus = record {
  transceive = λ tx w. (inr (sim_reply tx w), sim_after tx w);
  set_ce = λ b w. record w { ce = b };
  configure_power = λ w. (none, w);
  set_power = λ b w. w;
  sleep_us = λ t w. w;
  uptime = λ w. 5;
  msgq_put = λ q f w. w;
  msgq_get = λ q w. (none, w);
}

sim_spares :
    (c : ℕ) (bytes : List ℕ) (w : Sim)
    → (c == 0x20) ≡ false
    → (sim_after (c ∷ bytes) w).config ≡ w.config
sim_spares c bytes w h =
    rw h (if_both (λ (t : Sim). t.config ≡ w.config) (c == 0x27) _ w (λ e. refl) (λ e. refl))

sim_after_ce : (tx : List ℕ) (w : Sim) → (sim_after tx w).ce ≡ w.ce
sim_after_ce [] w = refl
sim_after_ce (c ∷ tx) w = ground arith

abbrev sim_chip : Chip sim_bus
sim_chip = record {
  config = λ w. w.config;
  ce = λ w. w.ce;
  reply = sim_reply;
  after = sim_after;
  answers = λ tx w. refl;
  reads = λ w. refl;
  writes = λ v w. refl;
  spares = sim_spares;
  after_ce = sim_after_ce;
  sets_ce = λ b w. refl;
  ce_config = λ b w. refl;
  sleep_ce = λ t w. refl;
  sleep_config = λ t w. refl;
}

abbrev sim_cfg : Config
sim_cfg = record {
  channel = 40;
  data_rate = b'1' ∷ b'm' ∷ [];
  tx_power = b'0' ∷ b'd' ∷ b'b' ∷ b'm' ∷ [];
  address_width = 5;
  payload_mode = b'd' ∷ b'y' ∷ b'n' ∷ [];
  rx_payload_width = 32;
  crc_mode = b'2' ∷ [];
  ard = 16;
  arc = 15;
  tx_addr = 1 ∷ 2 ∷ 3 ∷ 4 ∷ 5 ∷ [];
  has_power = false;
  power_on_delay = 100;
}

abbrev sim_dev : Dev Sim
sim_dev = record {
  world = record { config = 15; ce = true; waiting = true };
  mode = prx;
  ready = true;
  irq_sem = 1;
  tx_done = false;
  last_status = 0;
  last_observe_tx = 0;
  rx_msgq = none;
  rx_cb = false;
  fallback_msgq = some 0;
  called = [];
}

-- the thread ends the transmission: acknowledged after three repetitions
abbrev sim_wait : Dev Sim → Bool × Dev Sim
sim_wait d = (true, record d { last_status = 46; last_observe_tx = 3 })

callback_unheard_example :
    (irq_pass sim_bus sim_cfg 2 0 (nrf24_add_rx_callback sim_dev)).1.called ≡ []
callback_unheard_example = callback_unheard sim_bus sim_cfg 0 2 0 sim_dev refl

nrf24_send_lem_example :
    IsOnAir sim_bus sim_chip 15 (sending sim_bus sim_chip sim_dev (9 ∷ 8 ∷ []))
    × (told_of (nrf24_send sim_bus sim_wait (9 ∷ 8 ∷ []) sim_dev).0
        ≡ some (verdict (sim_wait (sending sim_bus sim_chip sim_dev (9 ∷ 8 ∷ [])))))
    × IsListening sim_bus sim_chip (nrf24_send sim_bus sim_wait (9 ∷ 8 ∷ []) sim_dev).1
nrf24_send_lem_example = nrf24_send_lem sim_bus sim_chip sim_wait (9 ∷ 8 ∷ []) sim_dev refl

-- channel 76 at 2 Mbit/s and -6 dBm, the address as it is
abbrev sim_settings : Cfg
sim_settings = record {
  channel = 76;
  data_rate = rate_2m;
  tx_power = pwr_6dbm;
  crc_mode = two_byte;
  address_width = 0;
  tx_addr = none;
}

nrf24_configure-exchanges_example :
    let txs = exchanges 3 31 76 0x0C 15 (payload_exchanges false 32) (1 ∷ 2 ∷ 3 ∷ 4 ∷ 5 ∷ []) in
    nrf24_configure sim_bus sim_cfg (some sim_settings) sim_dev
    ≡ (ok tt, record sim_dev { world = after_all sim_bus sim_chip txs sim_dev.world })
nrf24_configure-exchanges_example =
    nrf24_configure-exchanges sim_bus sim_chip sim_cfg sim_settings sim_dev (omega arith)
      (omega arith) refl tt
