-- ===== src/UdpFw/Routing.antt =====
-- Which commands are heard and where replies go.
use zephyr_app.Common.{
  Bool, List, [], arith, false, if◌then◌else◌, leb, length, length-append, ltb, refl, take_all,
  true, u8, ℕ, ◌&&◌, ◌++◌, ◌+◌, ◌<◌, ◌==◌, ◌||◌, ◌∷◌, ◌≡◌, ◌≤◌,
}
use zephyr_app.Zephyr.{Slot}
use zephyr_app.UdpFw.{
  Address, Env, UdpFw, bcast_cmd_allowed, if_up_handler, inaddr_broadcast, is_same_subnet,
  rx_thread_step, sendto, udp_fw_allow_broadcast_cmd, udp_fw_reply,
}

-- A reply goes out only on an open socket. It is one datagram of the command and the data, to the
-- sender if that is in the subnet and else broadcast to the port above the configuration port; data
-- of more than 63 bytes is left out, and the datagram never has more than 64 bytes.
pub udp_fw_reply_lem :
    (env : Env) (remote : Address) (cmd : ℕ) (payload : List ℕ)
    → length payload < 256
    → (udp_fw_reply env false remote cmd payload ≡ [])
      × (udp_fw_reply env true remote cmd payload
          ≡ sendto
              (if is_same_subnet env remote.ip
                then remote
                else record { ip = inaddr_broadcast; port = env.config_port + 1 })
              (cmd ∷ (if leb (length payload) 63 then payload else []))
            ∷ [])
      × (length (cmd ∷ (if leb (length payload) 63 then payload else [])) ≤ 64)
unfolding udp_fw_reply
udp_fw_reply_lem env remote cmd [] h = ground arith
udp_fw_reply_lem env remote cmd (x ∷ xs) h =
    let fits : u8 (length (x ∷ xs)) ≡ length (x ∷ xs) = omega arith in
    rw fits (ground (arith, take_all (length (x ∷ xs)) (x ∷ xs)))

bcast_cmd_allowed-append :
    (cs : List ℕ) (c d : ℕ)
    → bcast_cmd_allowed (cs ++ (c ∷ [])) d ≡ (bcast_cmd_allowed cs d || c == d)
unfolding bcast_cmd_allowed
bcast_cmd_allowed-append [] c d = ground arith
bcast_cmd_allowed-append (x ∷ cs) c d = ground (arith, bcast_cmd_allowed-append cs c d)

module _ {S : Type 0} (io : Slot S) (env : Env) (answer : ℕ → List ℕ → ℕ → ℕ → Bool) where
  -- In the restricted build, a packet from outside the subnet whose command was not allowed does
  -- nothing: no reply, no callback, no change but the sender's address.
  pub rx_thread_step_shut :
      (s : UdpFw S) (src : Address) (cmd : ℕ) (payload : List ℕ)
      → env.bcast_restrict ≡ true
      → is_same_subnet env src.ip ≡ false
      → bcast_cmd_allowed s.bcast_allowed_cmds cmd ≡ false
      → rx_thread_step io env answer s src (cmd ∷ payload)
        ≡ (record s { config_remote_addr = src }, [])
  unfolding rx_thread_step
  rx_thread_step_shut s src cmd payload r far shut = ground arith

  -- Allowing a command, in the restricted build, allows it and changes nothing for the others, as
  -- long as the table has room or holds it already; in a full table it changes nothing. The table
  -- never outgrows its size.
  pub udp_fw_allow_broadcast_cmd_lem :
      (s : UdpFw S) (cmd other : ℕ)
      → env.bcast_restrict ≡ true
      → length s.bcast_allowed_cmds ≤ env.max_bcast_cmds
      → let before = s.bcast_allowed_cmds in
        let after = (udp_fw_allow_broadcast_cmd io env s cmd).bcast_allowed_cmds in
        (bcast_cmd_allowed after other ≡ (
          bcast_cmd_allowed before other
          || (cmd == other && ltb (length before) env.max_bcast_cmds)))
        × (length after ≤ env.max_bcast_cmds)
  unfolding udp_fw_allow_broadcast_cmd
  udp_fw_allow_broadcast_cmd_lem s cmd other r fits = ground (
    arith,
    bcast_cmd_allowed-append s.bcast_allowed_cmds cmd other,
    length-append s.bcast_allowed_cmds (cmd ∷ []),
  )

-- An interface event: whether the interface is up, and whether `socket` and `bind` would succeed.
pub record IfEvent : Type 0 where
  pub if_up : Bool
  pub socket : Bool
  pub bind : Bool

-- how often the RX thread is started over a list of events
unfoldable pub starts : {S : Type 0} → UdpFw S → List IfEvent → ℕ
starts s [] = 0
starts s (e ∷ es) =
    let (t, started) = if_up_handler s e.if_up e.socket e.bind in
    (if started then 1 else 0) + starts t es

abbrev pub can_start : List IfEvent → Bool
can_start [] = false
can_start (e ∷ es) = (e.if_up && e.socket && e.bind) || can_start es

starts_over :
    {S : Type 0} (s : UdpFw S) (es : List IfEvent) → s.udp_fw_started ≡ true → starts s es ≡ 0
unfolding starts if_up_handler
starts_over s [] h = refl
starts_over s (e ∷ es) h =
    let same : if_up_handler s e.if_up e.socket e.bind ≡ (s, false) = ground arith in
    rw same (omega (arith, starts_over s es h))

-- Whatever the order of interface events and of socket failures, the RX thread is started once if
-- some event finds the interface up and `socket` and `bind` working, and never otherwise.
pub starts_lem :
    {S : Type 0} (s : UdpFw S) (es : List IfEvent)
    → s.udp_fw_started ≡ false
    → starts s es ≡ (if can_start es then 1 else 0)
unfolding starts if_up_handler
starts_lem s [] h = refl
starts_lem s (e ∷ es) h = ground (
  arith,
  starts_lem s es h,
  starts_lem (record s { config_sock = false }) es h,
  starts_over (record s { config_sock = true; udp_fw_started = true }) es refl,
)
