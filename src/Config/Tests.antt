-- ===== src/Config/Tests.antt =====
-- Runs on the registers of the default build, at address 192.168.1.20.
use zephyr_app.Config.Cmd
use zephyr_app.Common.{
  All, List, [], arith, none, refl, replicate, some, true, ℕ, ◌++◌, ◌<◌, ◌∷◌, ◌≡◌,
}
use zephyr_app.Modbus.{Registers, get_holding_reg}
use zephyr_app.Config.Can.Reply.{Carries, can_udp_same, command_frame}
use zephyr_app.Zephyr.Ram.{classic}
use zephyr_app.Config.{Env, app_cmd_handler, dc_build_config_payload}
use zephyr_app.Config.Can.{dc_can_app_rx}
use zephyr_app.Config.Echo.{config_echo}
use zephyr_app.Config.Limits.{IsConfigured, dc_build_config_payload-IsConfigured}

abbrev holding : List ℕ
holding =
    0 ∷ 0 ∷ 0 ∷ 500 ∷ 1000 ∷ 0 ∷ 1 ∷ 250 ∷ 9600 ∷ 1 ∷ 192 ∷ 168 ∷ 1 ∷ 20 ∷ 0 ∷ 0 ∷ 0 ∷ 0 ∷ 1 ∷ 500
    ∷ 0 ∷ 502 ∷ 0 ∷ []

abbrev factory : Registers
factory = record { holding_reg = holding; input_reg = replicate 6 0; coils_state = replicate 8 0 }

-- before the interface has an address
abbrev offline : Env
offline = record { live_ipv4 = none; now = 1700000000; uptime = 60; app_version = 0x010203 }

-- station 5 at 19200 baud
abbrev station : List ℕ
station = 0 ∷ 5 ∷ 0 ∷ 0 ∷ 75 ∷ 0 ∷ []

station-AreBytes : All (λ x. x < 256) station
station-AreBytes = ground arith

config_echo_example :
    let (t, done, out) = dc_build_config_payload offline factory Cmd.set_modbus station 8 in
    (out ≡ some station)
    × ((dc_build_config_payload offline t Cmd.get_modbus [] 8).2 ≡ some station)
config_echo_example =
    config_echo offline factory Cmd.set_modbus station refl refl station-AreBytes refl refl

factory-IsConfigured : IsConfigured factory
unfolding get_holding_reg
factory-IsConfigured =
    (refl, omega arith, omega arith, omega arith, omega arith, omega arith, omega arith)

dc_build_config_payload-IsConfigured_example :
    IsConfigured (dc_build_config_payload offline factory Cmd.set_modbus station 8).0
dc_build_config_payload-IsConfigured_example =
    dc_build_config_payload-IsConfigured offline factory Cmd.set_modbus station 8 station-AreBytes
      factory-IsConfigured

can_udp_same_example :
    let (t, done, frames, mine) =
      dc_can_app_rx classic true offline factory
        (command_frame Cmd.set_modbus 7 (station ++ (0 ∷ []))) in
    let (u, sets, out) = app_cmd_handler offline factory Cmd.set_modbus station in
    (t ≡ u) × (done ≡ sets) × (mine ≡ true) × Carries Cmd.set_modbus out frames
can_udp_same_example =
    can_udp_same classic offline factory Cmd.set_modbus 7 station (0 ∷ []) tt refl (omega arith)
      (omega arith)
