-- ===== src/UdpFw/Tests.antt =====
-- Upgrades over UDP on concrete packets.
use zephyr_app.Common.{
  Bool, List, [], append-nil, arith, false, if◌then◌else◌, length, refl, replicate, some, subst,
  true, ℕ, ◌++◌, ◌+◌, ◌==◌, ◌∷◌, ◌≡◌, ◌≢◌, ◌≤◌,
}
use zephyr_app.Zephyr.Ram.{Ram, blank, ram_slot}
use zephyr_app.Handlers.{no_handler}
use zephyr_app.UdpFw.{
  Address, Env, UdpFw, boot_request_upgrade, fw_cmd_end, fw_verify_crc, handle_fw_cmd,
  is_same_subnet, rx_thread_step, udp_fw_reply,
}
use zephyr_app.UdpFw.Cmd
use zephyr_app.UdpFw.Crc.{Readable, fw_verify_crc_lem}
use zephyr_app.UdpFw.Upgrade.{requests, upgrade_needs_crc}
use zephyr_app.UdpFw.Transfer.{Writes, feed, udp_transfer}
use zephyr_app.UdpFw.Routing.{IfEvent}

-- A stand-in for the checksum: the sum of the bytes.
sum_bytes : ℕ → List ℕ → ℕ
sum_bytes c [] = c
sum_bytes c (x ∷ xs) = sum_bytes (c + x) xs

sum_bytes-append : (c : ℕ) (a b : List ℕ) → sum_bytes (sum_bytes c a) b ≡ sum_bytes c (a ++ b)
unfolding sum_bytes
sum_bytes-append c [] b = refl
sum_bytes-append c (x ∷ a) b = sum_bytes-append (c + x) a b

abbrev net : Env
net = record {
  config_port = 8600;
  bcast_restrict = true;
  max_bcast_cmds = 2;
  fw_keyhash = replicate 32 7;
  version = 118 ∷ 49 ∷ [];
  crc16 = sum_bytes;
  iface = some (some (0xC0A80C65, 0xFFFFFF00));
}

abbrev host : Address
host = record { ip = 0xC0A80C01; port = 4000 }

abbrev stranger : Address
stranger = record { ip = 0x0A000001; port = 4000 }

abbrev device : UdpFw Ram
device = record {
  handlers = no_handler ∷ [];
  slot = blank;
  config_sock = true;
  udp_fw_started = true;
  config_remote_addr = stranger;
  bcast_allowed_cmds = 0x10 ∷ [];
  fw_started = false;
  fw_size = 0;
  fw_received = 0;
}

abbrev mute : ℕ → List ℕ → ℕ → ℕ → Bool
mute cmd payload cb ud = false

readable : (x : Ram) → Readable ram_slot net x x.written
unfolding sum_bytes
readable x = record {
  opens = refl;
  counted = refl;
  reads = λ off len h. refl;
  crc_nil = λ c. refl;
  crc_append = sum_bytes-append;
}

ram-Writes : Writes ram_slot net (λ x. x.written)
ram-Writes = record {
  opens = λ x. refl;
  inits = λ x. refl;
  empties = λ x. refl;
  writes = λ x d. refl;
  appends = λ x d. refl;
  flushes = λ x.
      let e : x.written ++ [] ≡ x.written = append-nil x.written in
      subst (λ img. Readable ram_slot net (record x { written = x.written ++ [] }) img) e
        (readable (record x { written = x.written ++ [] }));
  boots = λ x p. refl;
}

abbrev begin : List ℕ
begin = 5 ∷ 0 ∷ 0 ∷ 0 ∷ []

abbrev pieces : List (List ℕ)
pieces = (1 ∷ 2 ∷ 3 ∷ []) ∷ (4 ∷ 5 ∷ []) ∷ []

fw_verify_crc_lem_example :
    fw_verify_crc ram_slot net (record blank { written = 1 ∷ 2 ∷ 3 ∷ [] }) 6
    ≡ (sum_bytes 0 (1 ∷ 2 ∷ 3 ∷ []) == 6)
fw_verify_crc_lem_example =
    fw_verify_crc_lem ram_slot net (record blank { written = 1 ∷ 2 ∷ 3 ∷ [] }) (1 ∷ 2 ∷ 3 ∷ [])
      (readable (record blank { written = 1 ∷ 2 ∷ 3 ∷ [] })) 6

host_near : is_same_subnet net host.ip ≡ true
unfolding is_same_subnet
host_near = refl

udp_transfer_example :
    let begun = (rx_thread_step ram_slot net mute device host (Cmd.start ∷ begin)).0 in
    let fed = feed ram_slot net mute (λ x. x.written) ram-Writes host host_near begun pieces in
    let (t, done) = rx_thread_step ram_slot net mute fed host (Cmd.end ∷ 0 ∷ 15 ∷ 0 ∷ []) in
    (t.fw_started ≡ false)
    × (done ≡ (
        if sum_bytes 0 (1 ∷ 2 ∷ 3 ∷ 4 ∷ 5 ∷ []) == 15
        then boot_request_upgrade 1 ∷ udp_fw_reply net true host Cmd.end (1 ∷ [])
        else udp_fw_reply net true host Cmd.end (0 ∷ [])))
udp_transfer_example =
    udp_transfer ram_slot net mute (λ x. x.written) ram-Writes host host_near device begin pieces
      (0 ∷ 15 ∷ 0 ∷ []) refl (omega arith) refl (omega arith, (omega arith, tt)) (omega arith)

abbrev armed : UdpFw Ram
armed = record device { fw_started = true; slot = record blank { written = 6 ∷ [] } }

armed_asks :
    requests (rx_thread_step ram_slot net mute armed host (Cmd.end ∷ 0 ∷ 6 ∷ 0 ∷ [])).1 ≢ []
unfolding rx_thread_step handle_fw_cmd fw_cmd_end fw_verify_crc udp_fw_reply is_same_subnet requests
    sum_bytes
armed_asks e = cc

upgrade_needs_crc_example :
    let payload : List ℕ = 0 ∷ 6 ∷ 0 ∷ [] in
    let (t, done) = rx_thread_step ram_slot net mute armed host (Cmd.end ∷ payload) in
    (Cmd.end ≡ 3)
    × (armed.fw_started ≡ true)
    × (3 ≤ length payload)
    × (fw_verify_crc ram_slot net (record blank { written = 6 ∷ [] }) 6 ≡ true)
    × (requests done ≡ 1 ∷ [])
    × (t.fw_started ≡ false)
upgrade_needs_crc_example =
    upgrade_needs_crc ram_slot net mute armed host Cmd.end (0 ∷ 6 ∷ 0 ∷ []) armed_asks

abbrev keyed : List ℕ
keyed = 5 ∷ 0 ∷ 0 ∷ 0 ∷ replicate 32 9

stranger_far : is_same_subnet net stranger.ip ≡ false
unfolding is_same_subnet
stranger_far = refl

abbrev events : List IfEvent
events =
    record { if_up = true; socket = true; bind = false }
    ∷ record { if_up = true; socket = true; bind = true }
    ∷ record { if_up = true; socket = true; bind = true }
    ∷ []
