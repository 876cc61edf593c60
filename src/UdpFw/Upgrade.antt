-- ===== src/UdpFw/Upgrade.antt =====
-- An upgrade over UDP from its start command to its end.
use zephyr_app.Common.{
  Bool, Bool-cases, List, [], arith, drop, false, get_le16, get_le32, get_or, if◌then◌else◌, inl,
  inr, le32_bytes, length, list_eq, list_eq→eq, map, refl, take, true, u32, ℕ, ◌++◌, ◌+◌, ◌==◌, ◌∷◌,
  ◌≡◌, ◌≢◌, ◌≤◌, ◌⊎◌,
}
use zephyr_app.Zephyr.{Slot}
use zephyr_app.Handlers.{Handler, broadcast}
use zephyr_app.UdpFw.{
  Action, Address, Env, UdpFw, boot_request_upgrade, call, fw_cmd_data, fw_cmd_end, fw_cmd_start,
  fw_verify_crc, handle_fw_cmd, reply, rx_thread_step, sendto, sys_reboot, udp_fw_reply,
}
use zephyr_app.UdpFw.Cmd

-- the arguments of the calls of `boot_request_upgrade`
unfoldable pub requests : List Action → List ℕ
requests [] = []
requests (sendto dst b ∷ rest) = requests rest
requests (boot_request_upgrade p ∷ rest) = p ∷ requests rest
requests (sys_reboot ∷ rest) = requests rest
requests (call h ∷ rest) = requests rest

requests-calls : (hs : List Handler) → requests (map call hs) ≡ []
unfolding requests
requests-calls [] = refl
requests-calls (h ∷ hs) = requests-calls hs

requests-reply :
    (env : Env) (open_sock : Bool) (remote : Address) (cmd : ℕ) (payload : List ℕ)
    (rest : List Action)
    → requests (udp_fw_reply env open_sock remote cmd payload ++ rest) ≡ requests rest
unfolding requests udp_fw_reply
requests-reply env open_sock remote cmd payload rest = ground arith

requests-reply_alone :
    (env : Env) (open_sock : Bool) (remote : Address) (cmd : ℕ) (payload : List ℕ)
    → requests (udp_fw_reply env open_sock remote cmd payload) ≡ []
unfolding requests udp_fw_reply
requests-reply_alone env open_sock remote cmd payload = ground arith

module _ {S : Type 0} (io : Slot S) (env : Env) (answer : ℕ → List ℕ → ℕ → ℕ → Bool) where
  quiet : (s : UdpFw S) (cmd : ℕ) (payload : List ℕ) → requests (reply io env s cmd payload) ≡ []
  quiet s cmd payload = requests-reply_alone env s.config_sock s.config_remote_addr cmd payload

  start_quiet :
      (s : UdpFw S) (cmd : ℕ) (payload : List ℕ)
      → requests (fw_cmd_start io env s cmd payload).1 ≡ []
  unfolding fw_cmd_start
  start_quiet s cmd payload = ground (
    arith,
    quiet s cmd (Cmd.start_err_fail ∷ []),
    quiet s cmd (Cmd.start_err_keyhash ∷ []),
    quiet s cmd (Cmd.start_ok ∷ []),
  )

  data_quiet :
      (s : UdpFw S) (cmd : ℕ) (payload : List ℕ)
      → requests (fw_cmd_data io env s cmd payload).1 ≡ []
  unfolding fw_cmd_data
  data_quiet s cmd payload = ground (
    arith,
    quiet s cmd (0 ∷ 0 ∷ 0 ∷ 0 ∷ []),
    quiet s cmd (le32_bytes (u32 (s.fw_received + length payload))),
  )

  end_requests :
      (s : UdpFw S) (cmd : ℕ) (payload : List ℕ)
      → let (t, done) = fw_cmd_end io env s cmd payload in
        (requests done ≡ [])
        ⊎ ((s.fw_started ≡ true)
            × (3 ≤ length payload)
            × (fw_verify_crc io env (io.img_write s.slot [] true).1 (get_le16 payload 1) ≡ true)
            × (requests done ≡ (if get_or payload 0 0 == 0 then 1 else 0) ∷ [])
            × (t.fw_started ≡ false))
  unfolding fw_cmd_end requests
  end_requests s cmd payload = ground (arith, quiet s cmd (0 ∷ []), quiet s cmd (1 ∷ []))

  data_idle :
      (s : UdpFw S) (cmd : ℕ) (payload : List ℕ)
      → s.fw_started ≡ false
      → (fw_cmd_data io env s cmd payload).0 ≡ s
  unfolding fw_cmd_data
  data_idle s cmd payload h = ground arith

  end_idle :
      (s : UdpFw S) (cmd : ℕ) (payload : List ℕ)
      → s.fw_started ≡ false
      → let (t, done) = fw_cmd_end io env s cmd payload in (t ≡ s) × (requests done ≡ [])
  unfolding fw_cmd_end
  end_idle s cmd payload h = ground (arith, quiet s cmd (0 ∷ []))

  -- The bootloader is asked for an upgrade only by an end command of at least 3 bytes in a started
  -- upgrade whose checksum, over the flushed slot, is the received one; the request is permanent
  -- (1) when the test byte is 0, and temporary (0) otherwise. The upgrade is then over.
  pub upgrade_needs_crc :
      (s : UdpFw S) (src : Address) (cmd : ℕ) (payload : List ℕ)
      → let (t, done) = rx_thread_step io env answer s src (cmd ∷ payload) in
        requests done ≢ []
        → (cmd ≡ Cmd.end)
          × (s.fw_started ≡ true)
          × (3 ≤ length payload)
          × (fw_verify_crc io env (io.img_write s.slot [] true).1 (get_le16 payload 1) ≡ true)
          × (requests done ≡ (if get_or payload 0 0 == 0 then 1 else 0) ∷ [])
          × (t.fw_started ≡ false)
  unfolding rx_thread_step handle_fw_cmd requests
  upgrade_needs_crc s src cmd payload =
      let heard = record s { config_remote_addr = src } in
      ground (
        arith,
        start_quiet heard cmd payload,
        data_quiet heard cmd payload,
        end_requests heard cmd payload,
        quiet heard cmd env.version,
        requests-reply env s.config_sock src cmd [] (sys_reboot ∷ []),
        requests-calls (broadcast (answer cmd payload) s.handlers).0,
      )

  -- Until a start command comes, no packet reaches slot 1 or the bootloader.
  pub packet_idle :
      (s : UdpFw S) (src : Address) (cmd : ℕ) (payload : List ℕ)
      → s.fw_started ≡ false
      → cmd ≢ Cmd.start
      → let (t, done) = rx_thread_step io env answer s src (cmd ∷ payload) in
        (t.slot ≡ s.slot) × (t.fw_started ≡ false) × (requests done ≡ [])
  unfolding rx_thread_step handle_fw_cmd requests
  packet_idle s src cmd payload idle ne =
      let heard = record s { config_remote_addr = src } in
      ground (
        arith,
        data_quiet heard cmd payload,
        data_idle heard cmd payload idle,
        end_idle heard cmd payload idle,
        quiet heard cmd env.version,
        requests-reply env s.config_sock src cmd [] (sys_reboot ∷ []),
        requests-calls (broadcast (answer cmd payload) s.handlers).0,
      )

  -- A start packet of 36 bytes, outside an upgrade, with another key than the device's is refused
  -- with the status 2: slot 1 is not touched and no upgrade starts.
  pub start_keyhash :
      (s : UdpFw S) (payload : List ℕ)
      → s.fw_started ≡ false
      → length payload ≡ 36
      → take 32 (drop 4 payload) ≢ env.fw_keyhash
      → fw_cmd_start io env s Cmd.start payload ≡ (
        record s { fw_size = get_le32 payload 0 },
        reply io env s Cmd.start (Cmd.start_err_keyhash ∷ []),
      )
  unfolding fw_cmd_start
  start_keyhash s payload idle long wrong =
      elim (Bool-cases (list_eq (take 32 (drop 4 payload)) env.fw_keyhash)) [
        | inl same ↦ absurd (wrong (list_eq→eq _ _ same))
        | inr other ↦ rw (other, idle) (ground arith)
      ]
