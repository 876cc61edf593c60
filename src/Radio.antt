-- ===== src/Radio.antt =====
-- The radio link of the gateway and of the handset (applications/gateway/src/rf24.c and
-- applications/mod_handler/src/rf24.c): the frames, their encryption and the repeated sending. The
-- driver of the radio is a parameter. Both builds are here: with CONFIG_NRF24L01P_CRYPT, and without it,
-- as the applications' prj.conf have it (the names with `plain`).
pub mod CanId
pub mod Backoff
pub mod Packet
use zephyr_app.Common.{
  Bool, List, [], be16_bytes, drop, false, if◌then◌else◌, length, ltb, not, suc, take, zero, ℕ, ◌%◌,
  ◌++◌, ◌+◌, ◌-◌, ◌==◌, ◌^◌, ◌||◌, ◌∷◌,
}
use zephyr_app.Crypt.{Crypt, crypt_open, crypt_seal}

-- `struct nrf24_tx_result` with what `nrf24_send` returns, 0 for success.
pub record Tx : Type 0 where
  pub ret : ℕ
  pub acked : Bool
  pub retransmits : ℕ

-- `nrf24_send` of a frame, `k_uptime_get_32` and `k_msleep`, over a state `S` of
-- the radio and the clock.
pub record Radio (S : Type 0) : Type 0 where
  pub nrf24_send : S → List ℕ → S × Tx
  pub uptime : S → ℕ
  pub msleep : S → ℕ → S

abbrev pub rf24_payload_max : ℕ
rf24_payload_max = 32

abbrev pub rf24_id_size : ℕ
rf24_id_size = 2

abbrev pub rf24_tx_retries : ℕ
rf24_tx_retries = 5

-- `buf` and `frame_len` after the encryption, in a build with CONFIG_NRF24L01P_CRYPT, over what the
-- stack held: [counter] [id] [data], the last two enciphered. A length of 0 is a refusal.
pub seal_packet : Crypt → List ℕ → ℕ → List ℕ → Crypt × List ℕ × ℕ
seal_packet s stack can_id data_bytes =
    let size = length data_bytes + rf24_id_size in
    let buf = be16_bytes can_id ++ (data_bytes ++ drop size stack) in
    if ltb (rf24_payload_max - rf24_id_size - 1) (length data_bytes)
    then (s, stack, 0)
    else crypt_seal s buf size

-- The same in a build without CONFIG_NRF24L01P_CRYPT: [id] [data], the data of at most 30 bytes.
pub plain_packet : List ℕ → ℕ → List ℕ → List ℕ × ℕ
plain_packet stack can_id data_bytes =
    let size = length data_bytes + rf24_id_size in
    if ltb (rf24_payload_max - rf24_id_size) (length data_bytes)
    then (stack, 0)
    else (be16_bytes can_id ++ (data_bytes ++ drop size stack), size)

-- The start of a pass of the receiving thread in such a build: the frame's bytes and length after
-- decryption. A length of 0 drops the frame.
pub open_packet : Crypt → List ℕ → ℕ → Crypt × List ℕ × ℕ
open_packet s frame len = if ltb len rf24_id_size then (s, frame, 0) else crypt_open s frame len

-- The same without CONFIG_NRF24L01P_CRYPT: the length of the frame alone.
pub open_plain : ℕ → ℕ
open_plain len = if ltb len rf24_id_size then 0 else len

-- The pause before attempt `attempt + 1`.
pub backoff : ℕ → ℕ → ℕ
backoff attempt now = 1 + now % (2 ^ (attempt + 1) + 1)

module _ {S : Type 0} (radio : Radio S) where
  -- The `for` loop from attempt `attempt` on, with `left` of the RF24_TX_RETRIES to come: the last
  -- result, and the pauses made.
  pub send_loop : ℕ → ℕ → S → List ℕ → S × Tx × List ℕ
  unfolding backoff
  send_loop zero attempt s frame = let (t, result) = radio.nrf24_send s frame in (t, result, [])
  send_loop (suc left) attempt s frame =
      let (t, result) = radio.nrf24_send s frame in
      let pause = backoff attempt (radio.uptime t) in
      let (u, last, pauses) = send_loop left (suc attempt) (radio.msleep t pause) frame in
      if result.ret == 0 then (t, result, []) else (u, last, pause ∷ pauses)

  -- `gw_rf24_send` with the encryption, with `ready` for `device_is_ready`: the encryption's state, the radio's, the pauses, and the result.
  pub gw_rf24_send : Bool → Crypt → S → List ℕ → ℕ → List ℕ → Crypt × S × List ℕ × Bool
  gw_rf24_send ready c s stack can_id data_bytes =
      let (sealed, buf, frame_len) = seal_packet c stack can_id data_bytes in
      let (t, result, pauses) = send_loop rf24_tx_retries 0 s (take frame_len buf) in
      if not ready
      then (c, s, [], false)
      else if frame_len == 0
      then (sealed, s, [], false)
      else (sealed, t, pauses, result.ret == 0)

  -- The same without CONFIG_NRF24L01P_CRYPT.
  pub gw_rf24_send_plain : Bool → S → List ℕ → ℕ → List ℕ → S × List ℕ × Bool
  gw_rf24_send_plain ready s stack can_id data_bytes =
      let (buf, frame_len) = plain_packet stack can_id data_bytes in
      let (t, result, pauses) = send_loop rf24_tx_retries 0 s (take frame_len buf) in
      if not ready || frame_len == 0 then (s, [], false) else (t, pauses, result.ret == 0)
