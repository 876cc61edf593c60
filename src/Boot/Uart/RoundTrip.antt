-- ===== src/Boot/Uart/RoundTrip.antt =====
-- A frame that is sent comes out of the receiver.
use zephyr_app.Common.{
  All, List, [], append_assoc, arith, bit_and, bit_or, bit_or-shift, bit_xor, bit_xor-lt, false,
  if◌then◌else◌, leb, length, length-set, ltb, refl, set, suc, take, take-set, u16, u8, zero, ℕ,
  ◌%◌, ◌*◌, ◌++◌, ◌+◌, ◌/◌, ◌<◌, ◌==◌, ◌^◌, ◌∙◌, ◌∷◌, ◌≡◌, ◌≢◌, ◌≤◌, ◌⊎◌,
}
use zephyr_app.Boot.Uart.{
  UartRx, crc16_ccitt, crc_bits, crc_bytes, crc_h, idle, msgq_put, payload, uart_byte,
  uart_frame_cmd, uart_frame_data, uart_frame_head, uart_frame_tail, uart_isr, uart_send_frame,
}

uart_isr-append :
    (r : UartRx) (xs ys : List ℕ) → uart_isr r (xs ++ ys) ≡ uart_isr (uart_isr r xs) ys
unfolding uart_isr
uart_isr-append r [] ys = refl
uart_isr-append r (x ∷ xs) ys = uart_isr-append (uart_byte r x) xs ys

uart_isr-cons :
    (r : UartRx) (x : ℕ) (xs : List ℕ) → uart_isr r (x ∷ xs) ≡ uart_isr (uart_byte r x) xs
unfolding uart_isr
uart_isr-cons r x xs = refl

crc_bits-lt : (j crc : ℕ) → crc < 2 ^ 16 → crc_bits j crc < 2 ^ 16
unfolding crc_bits
crc_bits-lt zero crc h = h
crc_bits-lt (suc j) crc h =
    crc_bits-lt j (if bit_and crc 1 == 0 then crc / 2 else bit_xor (crc / 2) 0xA001)
      (ground (arith, bit_xor-lt 16 (crc / 2) 0xA001 (omega arith) (omega arith)))

crc_bytes-lt :
    (crc : ℕ) (bytes : List ℕ)
    → crc < 2 ^ 16
    → All (λ b. b < 256) bytes
    → crc_bytes crc bytes < 2 ^ 16
unfolding crc_bytes
crc_bytes-lt crc [] h all = h
crc_bytes-lt crc (b ∷ bs) h all =
    crc_bytes-lt (crc_bits 8 (bit_xor crc b)) bs
      (crc_bits-lt 8 (bit_xor crc b) (bit_xor-lt 16 crc b h (omega (arith, all.0)))) all.1

crc16_ccitt-lt : (bytes : List ℕ) → All (λ b. b < 256) bytes → crc16_ccitt bytes < 2 ^ 16
unfolding crc16_ccitt
crc16_ccitt-lt bytes all = crc_bytes-lt 0xFFFF bytes (omega arith) all

-- Bytes without a head are skipped between frames.
skip_noise :
    (r : UartRx) (noise : List ℕ)
    → r.rx_state ≡ idle
    → All (λ b. b ≢ uart_frame_head) noise
    → uart_isr r noise ≡ r
unfolding uart_isr uart_byte
skip_noise r [] e h = refl
skip_noise r (b ∷ bs) e h =
    let same : uart_byte r b ≡ r = ground (arith, e, h.0) in rw same (skip_noise r bs e h.1)

header :
    (r : UartRx) (kind n : ℕ)
    → r.rx_state ≡ idle
    → (kind ≡ uart_frame_cmd) ⊎ (kind ≡ uart_frame_data)
    → n ≤ 8
    → let t = uart_isr r (uart_frame_head ∷ kind ∷ 0 ∷ n ∷ []) in
      (t.rx_state ≡ (if ltb 0 n then payload else crc_h))
      × (t.rx_type ≡ kind)
      × (t.rx_index ≡ 0)
      × (t.rx_len ≡ n)
      × (t.rx_buffer ≡ r.rx_buffer)
      × (t.uart_msgq ≡ r.uart_msgq)
unfolding uart_isr uart_byte
header r kind n e known fits = ground (arith, bit_or-shift 8 0 n (omega (arith, fits)))

payload_byte :
    (r : UartRx) (b : ℕ)
    → r.rx_state ≡ payload
    → r.rx_index < 8
    → uart_byte r b ≡ record r {
      rx_buffer = set r.rx_buffer r.rx_index b;
      rx_index = r.rx_index + 1;
      rx_state = if leb r.rx_len (r.rx_index + 1) then crc_h else payload;
    }
unfolding uart_byte
payload_byte r b e small = ground arith

-- the bytes of data, from the index on
payload_lem :
    (r : UartRx) (b : ℕ) (bs : List ℕ)
    → r.rx_state ≡ payload
    → length r.rx_buffer ≡ 8
    → r.rx_len ≤ 8
    → r.rx_index + suc (length bs) ≡ r.rx_len
    → let t = uart_isr r (b ∷ bs) in
      (t.rx_state ≡ crc_h)
      × (t.rx_type ≡ r.rx_type)
      × (t.rx_len ≡ r.rx_len)
      × (take r.rx_len t.rx_buffer ≡ take r.rx_index r.rx_buffer ++ (b ∷ bs))
      × (length t.rx_buffer ≡ 8)
      × (t.uart_msgq ≡ r.uart_msgq)
unfolding uart_isr
payload_lem r b [] e buffer fits whole =
    let i = r.rx_index in
    let part : take (suc i) (set r.rx_buffer i b) ≡ take i r.rx_buffer ++ (b ∷ []) =
      take-set i r.rx_buffer b (omega arith) in
    let last : r.rx_len ≡ suc i = omega arith in
    rw (uart_isr-cons r b [], payload_byte r b e (omega arith))
      (ground (arith, part, last, length-set r.rx_buffer i b))
payload_lem r b (c ∷ bs) e buffer fits whole =
    let i = r.rx_index in
    let part : take (suc i) (set r.rx_buffer i b) ≡ take i r.rx_buffer ++ (b ∷ []) =
      take-set i r.rx_buffer b (omega arith) in
    let one : i + 1 ≡ suc i = omega arith in
    let more : leb r.rx_len (i + 1) ≡ false = ground arith in
    let t : UartRx = record r {
      rx_buffer = set r.rx_buffer i b;
      rx_index = suc i;
      rx_state = payload;
    } in
    let rest = payload_lem t c bs refl (length-set r.rx_buffer i b ∙ buffer) fits (omega arith) in
    rw (uart_isr-cons r b (c ∷ bs), payload_byte r b e (omega arith), more, one)
      (rw (part, append_assoc (take i r.rx_buffer) (b ∷ []) (c ∷ bs)) at rest)

-- up to the last byte of data
body :
    (r : UartRx) (kind : ℕ) (bytes : List ℕ)
    → r.rx_state ≡ idle
    → length r.rx_buffer ≡ 8
    → (kind ≡ uart_frame_cmd) ⊎ (kind ≡ uart_frame_data)
    → length bytes ≤ 8
    → let t = uart_isr r (uart_frame_head ∷ kind ∷ 0 ∷ length bytes ∷ bytes) in
      (t.rx_state ≡ crc_h)
      × (t.rx_type ≡ kind)
      × (take t.rx_len t.rx_buffer ≡ bytes)
      × (length t.rx_buffer ≡ 8)
      × (t.uart_msgq ≡ r.uart_msgq)
body r kind [] e buffer known short =
    let h = header r kind 0 e known (omega arith) in ground (arith, h, buffer)
body r kind (b ∷ bs) e buffer known short =
    let n = suc (length bs) in
    let head = uart_frame_head ∷ kind ∷ 0 ∷ n ∷ [] in
    let h = header r kind n e known short in
    let running : (uart_isr r head).rx_state ≡ payload = h.0 ∙ ground arith in
    let p =
      payload_lem (uart_isr r head) b bs running (rw h.4 buffer) (rw h.3 short)
        (rw (h.2, h.3) (omega arith)) in
    rw (uart_isr-append r head (b ∷ bs)) (ground (arith, p, h))

check :
    (r : UartRx) (bytes : List ℕ)
    → r.rx_state ≡ crc_h
    → length r.uart_msgq < 8
    → crc16_ccitt bytes < 2 ^ 16
    → take r.rx_len r.rx_buffer ≡ bytes
    → let crc = crc16_ccitt bytes in
      let t = uart_isr r ((crc / 2 ^ 8) % 256 ∷ crc % 256 ∷ uart_frame_tail ∷ []) in
      (t.rx_state ≡ idle)
      × (t.rx_buffer ≡ r.rx_buffer)
      × (t.uart_msgq ≡ r.uart_msgq ++ (record { kind = r.rx_type; bytes = bytes } ∷ []))
unfolding uart_isr uart_byte msgq_put
check r bytes e room small held =
    let crc = crc16_ccitt bytes in
    let high : u16 ((crc / 2 ^ 8) % 256 * 2 ^ 8) ≡ crc / 2 ^ 8 * 2 ^ 8 = omega (arith, small) in
    let whole : bit_or (u16 ((crc / 2 ^ 8) % 256 * 2 ^ 8)) (crc % 256) ≡ crc =
      rw high (omega (arith, bit_or-shift 8 (crc / 2 ^ 8) (crc % 256) (omega arith))) in
    ground (arith, whole, held, room)

-- Between frames, with room in the queue: bytes without a head, then a frame of at most 8 bytes of
-- one of the two types, as `uart_send_frame` sends it. The noise is skipped, the frame comes out
-- at the end of the queue with its type and its bytes, and the receiver waits for the next head.
pub receive_frame :
    (r : UartRx) (noise : List ℕ) (kind : ℕ) (bytes : List ℕ)
    → r.rx_state ≡ idle
    → length r.rx_buffer ≡ 8
    → length r.uart_msgq < 8
    → All (λ b. b ≢ uart_frame_head) noise
    → (kind ≡ uart_frame_cmd) ⊎ (kind ≡ uart_frame_data)
    → length bytes ≤ 8
    → All (λ b. b < 256) bytes
    → let t = uart_isr r (noise ++ uart_send_frame kind bytes) in
      (t.rx_state ≡ idle)
      × (length t.rx_buffer ≡ 8)
      × (t.uart_msgq ≡ r.uart_msgq ++ (record { kind = kind; bytes = bytes } ∷ []))
unfolding uart_send_frame
receive_frame r noise kind bytes e buffer room quiet known short all =
    let crc = crc16_ccitt bytes in
    let front = uart_frame_head ∷ kind ∷ 0 ∷ length bytes ∷ bytes in
    let tail = (crc / 2 ^ 8) % 256 ∷ crc % 256 ∷ uart_frame_tail ∷ [] in
    let b = body r kind bytes e buffer known short in
    let byte : u8 (length bytes) ≡ length bytes = omega (arith, short) in
    let c = check (uart_isr r front) bytes b.0 (rw b.4 room) (crc16_ccitt-lt bytes all) b.2 in
    rw
      (
        uart_isr-append r noise (uart_frame_head ∷ kind ∷ 0 ∷ u8 (length bytes) ∷ bytes ++ tail),
        skip_noise r noise e quiet,
        byte,
        uart_isr-append r front tail,
      )
      (ground (arith, c, b))
