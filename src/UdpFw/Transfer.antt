-- ===== src/UdpFw/Transfer.antt =====
-- A whole transfer over UDP, with a flash that does not fail.
use zephyr_app.Common.{
  All, Bool, List, [], append-nil, append_assoc, arith, drop, false, get_le16, get_le32, get_or,
  if◌then◌else◌, le32_bytes, length, length-append, list_eq, not, refl, take, true, u32, ℕ, ◌&&◌,
  ◌++◌, ◌+◌, ◌<◌, ◌==◌, ◌∙◌, ◌∷◌, ◌≡◌, ◌≤◌,
}
use zephyr_app.Zephyr.{Slot}
use zephyr_app.UdpFw.{
  Address, Env, UdpFw, boot_request_upgrade, fw_cmd_data, fw_cmd_end, fw_cmd_start, handle_fw_cmd,
  is_same_subnet, rx_thread_step, udp_fw_reply,
}
use zephyr_app.UdpFw.Cmd
use zephyr_app.UdpFw.Crc.{Readable, fw_verify_crc_lem}

-- the payloads of the data packets, one after the other
abbrev pub joined : List (List ℕ) → List ℕ
joined [] = []
joined (p ∷ ps) = p ++ joined ps

-- Slot 1 and the image writer succeed, and `image` is what has been handed to the writer since it
-- was made ready; after a flush the slot can be read back.
pub record Writes {S : Type 0} (io : Slot S) (env : Env) (image : S → List ℕ) : Type 0 where
  pub opens : (x : S) → io.area_open x ≡ 0
  pub inits : (x : S) → (io.img_init (io.area_erase x)).0 ≡ 0
  pub empties : (x : S) → image (io.img_init (io.area_erase x)).1 ≡ []
  pub writes : (x : S) (d : List ℕ) → (io.img_write x d false).0 ≡ 0
  pub appends : (x : S) (d : List ℕ) → image (io.img_write x d false).1 ≡ image x ++ d
  pub flushes : (x : S) → Readable io env (io.img_write x [] true).1 (image x)
  pub boots : (x : S) (p : ℕ) → (io.boot_request x p).0 ≡ 0

-- The start packet carries no key, or the device's.
abbrev pub has_wrong_key : Env → List ℕ → Bool
has_wrong_key env payload =
    length payload == 36 && not (list_eq (take 32 (drop 4 payload)) env.fw_keyhash)

module _ {S : Type 0} (io : Slot S) (env : Env) (answer : ℕ → List ℕ → ℕ → ℕ → Bool)
    (image : S → List ℕ) (ok : Writes io env image) (src : Address)
    (near : is_same_subnet env src.ip ≡ true) where
  -- the thread over data packets with these payloads, all from `src`
  pub feed : UdpFw S → List (List ℕ) → UdpFw S
  feed s [] = s
  feed s (p ∷ ps) = feed (rx_thread_step io env answer s src (Cmd.fw_data ∷ p)).0 ps

  -- the state in an upgrade that was handed the bytes `d`
  pub record IsRunning (s : UdpFw S) (d : List ℕ) : Type 0 where
    pub started : s.fw_started ≡ true
    pub handed : image s.slot ≡ d
    pub counted : s.fw_received ≡ u32 (length d)

  -- Outside an upgrade, a start packet of 4 bytes or more without a wrong key is answered with 1,
  -- and the upgrade runs with no byte handed over.
  pub start_step :
      (s : UdpFw S) (payload : List ℕ)
      → s.fw_started ≡ false
      → 4 ≤ length payload
      → has_wrong_key env payload ≡ false
      → let (t, done) = rx_thread_step io env answer s src (Cmd.start ∷ payload) in
        IsRunning t []
        × (t.fw_size ≡ get_le32 payload 0)
        × (done ≡ udp_fw_reply env s.config_sock src Cmd.start (Cmd.start_ok ∷ []))
  unfolding rx_thread_step handle_fw_cmd fw_cmd_start
  start_step s payload idle long key =
      ground (arith, near, ok.opens s.slot, ok.inits s.slot, ok.empties s.slot)

  -- A data packet with bytes is handed over, and answered with the count so far, modulo 2 ^ 32.
  pub data_step :
      (s : UdpFw S) (d payload : List ℕ)
      → IsRunning s d
      → 0 < length payload
      → let (t, done) = rx_thread_step io env answer s src (Cmd.fw_data ∷ payload) in
        IsRunning t (d ++ payload)
        × (done
            ≡ udp_fw_reply env s.config_sock src Cmd.fw_data
                (le32_bytes (u32 (length d + length payload))))
  unfolding rx_thread_step handle_fw_cmd fw_cmd_data
  data_step s d payload r some_bytes =
      ground
        (arith, near, ok.writes s.slot payload, ok.appends s.slot payload, length-append d payload)

  feed_lem :
      (s : UdpFw S) (d : List ℕ) (ps : List (List ℕ))
      → IsRunning s d
      → All (λ p. 0 < length p) ps
      → IsRunning (feed s ps) (d ++ joined ps)
  unfolding feed
  feed_lem s d [] r h = rw append-nil r
  feed_lem s d (p ∷ ps) r h = rw (← append_assoc d p (joined ps)) (
      feed_lem (rx_thread_step io env answer s src (Cmd.fw_data ∷ p)).0 (d ++ p) ps
        (data_step s d p r h.0).0 h.1)

  sock-step :
      (s : UdpFw S) (cmd : ℕ) (payload : List ℕ)
      → (rx_thread_step io env answer s src (cmd ∷ payload)).0.config_sock ≡ s.config_sock
  unfolding rx_thread_step handle_fw_cmd fw_cmd_start fw_cmd_data fw_cmd_end
  sock-step s cmd payload = ground arith

  sock-feed : (s : UdpFw S) (ps : List (List ℕ)) → (feed s ps).config_sock ≡ s.config_sock
  unfolding feed
  sock-feed s [] = refl
  sock-feed s (p ∷ ps) =
      sock-feed (rx_thread_step io env answer s src (Cmd.fw_data ∷ p)).0 ps
      ∙ sock-step s Cmd.fw_data p

  end_step :
      (s : UdpFw S) (sock : Bool) (d payload : List ℕ)
      → s.config_sock ≡ sock
      → IsRunning s d
      → 3 ≤ length payload
      → let (t, done) = rx_thread_step io env answer s src (Cmd.end ∷ payload) in
        (t.fw_started ≡ false)
        × (done ≡ (
            if env.crc16 0 d == get_le16 payload 1
            then boot_request_upgrade (if get_or payload 0 0 == 0 then 1 else 0)
              ∷ udp_fw_reply env sock src Cmd.end (1 ∷ [])
            else udp_fw_reply env sock src Cmd.end (0 ∷ [])))
  unfolding rx_thread_step handle_fw_cmd fw_cmd_end
  end_step s sock d payload same r long = ground (
    arith,
    near,
    fw_verify_crc_lem io env (io.img_write s.slot [] true).1 d (rw r.handed at (ok.flushes s.slot))
        (get_le16 payload 1),
    ok.boots (io.img_write s.slot [] true).1 (if get_or payload 0 0 == 0 then 1 else 0),
  )

  -- Where slot 1, the image writer and the bootloader's request never fail, however many bytes come,
  -- and the slot gives back what was written, from one host in the subnet: a start packet of 4 bytes or more without a wrong key, outside an
  -- upgrade, then data packets with bytes, then an end packet with the test byte and a checksum.
  -- The end packet is answered with 1, and the upgrade asked for, exactly when the checksum is that
  -- of the joined payloads of the data packets; else it is answered with 0. The upgrade is over.
  pub udp_transfer :
      (s : UdpFw S) (first : List ℕ) (ps : List (List ℕ)) (last : List ℕ)
      → s.fw_started ≡ false
      → 4 ≤ length first
      → has_wrong_key env first ≡ false
      → All (λ p. 0 < length p) ps
      → 3 ≤ length last
      → let begun = (rx_thread_step io env answer s src (Cmd.start ∷ first)).0 in
        let (t, done) = rx_thread_step io env answer (feed begun ps) src (Cmd.end ∷ last) in
        (t.fw_started ≡ false)
        × (done ≡ (
            if env.crc16 0 (joined ps) == get_le16 last 1
            then boot_request_upgrade (if get_or last 0 0 == 0 then 1 else 0)
              ∷ udp_fw_reply env s.config_sock src Cmd.end (1 ∷ [])
            else udp_fw_reply env s.config_sock src Cmd.end (0 ∷ [])))
  udp_transfer s first ps last idle long key some_bytes enough =
      let begun = (rx_thread_step io env answer s src (Cmd.start ∷ first)).0 in
      let running = feed_lem begun [] ps (start_step s first idle long key).0 some_bytes in
      end_step (feed begun ps) s.config_sock (joined ps) last
        (sock-feed begun ps ∙ sock-step s Cmd.start first) running enough
