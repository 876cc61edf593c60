-- ===== src/Handset/Link.antt =====
-- The handset and the gateway together: from the host's datagram to the scanner's values, and what a
-- handset that starts its counters again has to expect.
use zephyr_app.Common.{
  Bool, List, [], ap, arith, be16_bytes, drop, drop-take, false, get_be16, if_both, if◌then◌else◌,
  inl, inr, length, length-append, length-drop, ltb, not, refl, replicate, subst, sym, take, true,
  u8, ℕ, ◌*◌, ◌++◌, ◌+◌, ◌-◌, ◌<◌, ◌==◌, ◌^◌, ◌||◌, ◌∙◌, ◌∷◌, ◌≡◌, ◌≢◌, ◌≤◌, ◌⊎◌,
}
use zephyr_app.Crypt.{Crypt, ctr_xor}
use zephyr_app.Crypt.Link.{IsBehind}
use zephyr_app.Radio.{open_packet, seal_packet}
use zephyr_app.Radio.CanId
use zephyr_app.Radio.Packet.{open_packet-seal_packet, open_packet_adopts, seal_packet_frame}
use zephyr_app.Handset.{Handset, Sent, frame_bytes, rf24_dispatch, rf24_rx_step}
use zephyr_app.Gateway.{Inet, rf24_send, udp_data_rx_step}
use zephyr_app.Crypt.Window.{infer_counter_above}
use zephyr_app.Gateway.Forward.{get_be16-opened, udp_data_rx_step_scanner}
use zephyr_app.Handset.Parse.{mod_can_parse_scanner}

-- the identifiers of the scanner's frames
abbrev pub for_scanner : ℕ → Bool
for_scanner can_id =
    can_id == CanId.overbreak_laser || can_id == CanId.coord_xy || can_id == CanId.coord_z

scanner_id :
    (can_id : ℕ) → for_scanner can_id ≡ true → (can_id < 2 ^ 16) × (can_id ≢ CanId.test_frame)
scanner_id can_id h = (ground (arith, h), λ e. ground (arith, h, e))

rf24_dispatch_scanner :
    (h : Handset) (can_id got : ℕ) (bytes out : List ℕ)
    → for_scanner can_id ≡ true
    → got ≡ length bytes + 2
    → take got out ≡ be16_bytes can_id ++ bytes
    → (rf24_dispatch h out got).0.scanner
      ≡ mod_can_parse_scanner can_id (frame_bytes bytes) h.scanner
unfolding rf24_dispatch
rf24_dispatch_scanner h can_id got bytes out known size same =
    let (fits, other) = scanner_id can_id known in
    let id = get_be16-opened out bytes can_id got (omega (arith, size)) fits same in
    let no_test : (can_id == CanId.test_frame) ≡ false = ground (arith, other) in
    let some_got : (got == 0) ≡ false = ground (arith, size) in
    let payload : take (got - 2) (drop 2 out) ≡ bytes =
      sym (drop-take 2 got out) ∙ ap (λ l. drop 2 l) same in
    rw (some_got, id, no_test, known, payload) refl

length-frame_bytes :
    (bytes : List ℕ)
    → length (frame_bytes bytes) ≡ (if ltb 8 (length bytes) then length bytes else 8)
unfolding frame_bytes
length-frame_bytes bytes = ground (
  arith,
  length-append bytes (drop (length bytes) (replicate 8 0)),
  length-drop (length bytes) (replicate {A = ℕ} 8 0),
)

rf24_rx_step_awake :
    (h : Handset) (frame : List ℕ) (len : ℕ)
    → h.sleeping ≡ false
    → h.rf24_event ≡ true
    → let (crypt, bytes, got) = open_packet h.crypt frame len in
      rf24_rx_step h frame len ≡ rf24_dispatch (record h { crypt = crypt }) bytes got
unfolding rf24_rx_step
rf24_rx_step_awake h frame len up chosen =
    let heard : (h.sleeping || not h.rf24_event) ≡ false = ground (arith, up, chosen) in
    rw heard refl

rf24_dispatch-crypt :
    (h : Handset) (out : List ℕ) (got : ℕ) → (rf24_dispatch h out got).0.crypt ≡ h.crypt
unfolding rf24_dispatch
rf24_dispatch-crypt h out got =
    let Kept = λ (r : Handset × List Sent). r.0.crypt ≡ h.crypt in
    if_both Kept (got == 0) _ _ (λ e. refl)
      (λ e.
        if_both Kept (get_be16 out 0 == CanId.test_frame) _ _ (λ e. refl)
          (λ e. if_both Kept (for_scanner (get_be16 out 0)) _ _ (λ e. refl) (λ e. refl)))

-- With the encryption built in (CONFIG_NRF24L01P_CRYPT), both ends under one key and the handset from
-- 1 to 32 frames behind: a datagram of the host with one of the scanner's identifiers and up to 29
-- bytes of payload goes out over the radio as it is; the handset, awake and with the radio chosen,
-- takes from it the values of the payload, and has caught up. The frame that it parses has 8 bytes for payloads of
-- at most 8; a longer payload is copied whole, past the 8 bytes that the frame has.
pub forward_down :
    (inet : Inet) (h : Handset) (d : ℕ) (s : Crypt) (stack : List ℕ) (hi lo : ℕ)
    (bytes junk : List ℕ)
    → IsBehind d s h.crypt
    → 1 ≤ d
    → d ≤ 32
    → length bytes ≤ 29
    → length stack ≡ 32
    → for_scanner (hi * 2 ^ 8 + lo) ≡ true
    → h.sleeping ≡ false
    → h.rf24_event ≡ true
    → let can_id = hi * 2 ^ 8 + lo in
      let (sealed, buf, frame_len) = seal_packet s stack can_id bytes in
      let (t, sent) = rf24_rx_step h (take frame_len buf ++ junk) frame_len in
      (udp_data_rx_step inet (hi ∷ lo ∷ bytes) ≡ rf24_send can_id bytes ∷ [])
      × (t.scanner ≡ mod_can_parse_scanner can_id (frame_bytes bytes) h.scanner)
      × IsBehind 1 sealed t.crypt
      × (length (frame_bytes bytes) ≡ (if ltb 8 (length bytes) then length bytes else 8))
forward_down inet h d s stack hi lo bytes junk b one most short whole known up chosen =
    let can_id = hi * 2 ^ 8 + lo in
    let (size, got, same, next) =
      open_packet-seal_packet d s h.crypt stack can_id bytes junk b one most short whole in
    let frame =
      take (seal_packet s stack can_id bytes).2 (seal_packet s stack can_id bytes).1 ++ junk in
    let (crypt, out, len) = open_packet h.crypt frame (seal_packet s stack can_id bytes).2 in
    rw (rf24_rx_step_awake h frame (seal_packet s stack can_id bytes).2 up chosen) (
      udp_data_rx_step_scanner inet hi lo bytes known,
      rf24_dispatch_scanner (record h { crypt = crypt }) can_id len bytes out known got same,
      subst (λ c. IsBehind 1 (seal_packet s stack can_id bytes).0 c)
          (sym (rf24_dispatch-crypt (record h { crypt = crypt }) out len)) next,
      length-frame_bytes bytes,
    )

-- A sender whose counter is not above the receiver's, as in a handset that has just woken, since
-- `rf24_init` starts the counter at 0 again, is not understood: each of its packets is dropped, or
-- opened under a counter that is not the sender's. This holds until the counter has caught up, short
-- of the end of the counters.
pub unheard :
    (s r : Crypt) (stack : List ℕ) (can_id : ℕ) (bytes junk : List ℕ)
    → length bytes ≤ 29
    → length stack ≡ 32
    → r.rx_initialized ≡ true
    → r.rx_counter < 2 ^ 32 - 512
    → s.tx_counter ≤ r.rx_counter
    → let (sealed, buf, frame_len) = seal_packet s stack can_id bytes in
      let (opened, out, got) = open_packet r (take frame_len buf ++ junk) frame_len in
      (got ≡ 0) ⊎ (s.tx_counter < opened.rx_counter)
unheard s r stack can_id bytes junk short whole started top behind =
    let n = length bytes + 2 in
    let plain = be16_bytes can_id ++ bytes in
    let (sealed, size, frame) =
      seal_packet_frame s stack can_id bytes short whole (omega (arith, top, behind)) in
    let coded = ctr_xor s.crypt_key plain n s.tx_counter in
    rw (size, frame)
      (elim (open_packet_adopts r ((u8 s.tx_counter ∷ coded) ++ junk) (n + 1)) [
        | inl e ↦ inl e
        | inr e ↦ inr (
            omega
              (arith, behind, infer_counter_above r (u8 s.tx_counter) started top (omega arith) e))
      ])
