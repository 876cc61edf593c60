-- ===== src/Boot/Uart/Receiver.antt =====
-- The receiver of the serial line.
use zephyr_app.Common.{
  All, Bool-cases, List, [], arith, inl, inr, length, length-append, length-set, length-take, ltb,
  take, ℕ, ◌++◌, ◌<◌, ◌∙◌, ◌∷◌, ◌≡◌, ◌≤◌,
}
use zephyr_app.Boot.Uart.{
  UartFrame, UartRx, UartState, crc_h, crc_l, idle, len_h, len_l, msgq_put, payload, type_byte,
  uart_byte, uart_isr,
}

-- What holds of the indices in each state of the receiver.
abbrev pub IsReady : UartState → UartRx → Type 0
IsReady idle r = Unit
IsReady type_byte r = Unit
IsReady len_h r = r.rx_index ≡ 0
IsReady len_l r = (r.rx_index ≡ 0) × (r.rx_len ≡ 0)
IsReady payload r = (r.rx_index < r.rx_len) × (r.rx_len ≤ 8)
IsReady crc_h r = r.rx_len ≤ 8
IsReady crc_l r = r.rx_len ≤ 8

-- The buffer has its 8 bytes, a byte of data goes to one of them, and no more than 8 frames of at
-- most 8 bytes wait.
pub record IsReceiver (r : UartRx) : Type 0 where
  pub buffer : length r.rx_buffer ≡ 8
  pub ready : IsReady r.rx_state r
  pub few : length r.uart_msgq ≤ 8
  pub short : All (λ (f : UartFrame). length f.bytes ≤ 8) r.uart_msgq

All-append :
    {A : Type 0} (P : A → Type 0) → (xs : List A) (y : A) → All P xs → P y → All P (xs ++ (y ∷ []))
All-append P [] y h p = (p, tt)
All-append P (x ∷ xs) y h p = (h.0, All-append P xs y h.1 p)

msgq_put-short :
    (q : List UartFrame) (f : UartFrame)
    → length q ≤ 8
    → All (λ (g : UartFrame). length g.bytes ≤ 8) q
    → length f.bytes ≤ 8
    → (length (msgq_put q f) ≤ 8) × All (λ (g : UartFrame). length g.bytes ≤ 8) (msgq_put q f)
unfolding msgq_put
msgq_put-short q f few short p = elim (Bool-cases (ltb (length q) 8)) [
  | inl room ↦ rw room (
    ground (arith, room, length-append q (f ∷ [])),
    All-append (λ (g : UartFrame). length g.bytes ≤ 8) q f short p,
  )
  | inr full ↦ rw full (few, short)
]

buffer-uart_byte :
    (r : UartRx) (byte : ℕ) → length (uart_byte r byte).rx_buffer ≡ length r.rx_buffer
unfolding uart_byte
buffer-uart_byte r byte = ground (arith, length-set r.rx_buffer r.rx_index byte)

ready-uart_byte :
    (r : UartRx) (byte : ℕ)
    → IsReady r.rx_state r
    → IsReady (uart_byte r byte).rx_state (uart_byte r byte)
unfolding uart_byte
ready-uart_byte r byte h = ground arith

queue-uart_byte :
    (r : UartRx) (byte : ℕ)
    → IsReceiver r
    → (length (uart_byte r byte).uart_msgq ≤ 8)
      × All (λ (g : UartFrame). length g.bytes ≤ 8) (uart_byte r byte).uart_msgq
unfolding uart_byte
queue-uart_byte r byte h =
    let data_bytes = take r.rx_len r.rx_buffer in
    ground (
      arith,
      h.few,
      h.short,
      msgq_put-short r.uart_msgq (record { kind = r.rx_type; bytes = data_bytes }) h.few h.short
          (omega (arith, length-take r.rx_len r.rx_buffer, h.buffer)),
    )

-- Each byte keeps the receiver's invariant.
uart_byte-IsReceiver : (r : UartRx) (byte : ℕ) → IsReceiver r → IsReceiver (uart_byte r byte)
uart_byte-IsReceiver r byte h = record {
  buffer = buffer-uart_byte r byte ∙ h.buffer;
  ready = ready-uart_byte r byte h.ready;
  few = (queue-uart_byte r byte h).0;
  short = (queue-uart_byte r byte h).1;
}

-- Whatever bytes come in, in whatever order, a receiver in order stays so: no byte of data is stored outside the 8 bytes of the
-- buffer, and no more than 8 frames of at most 8 bytes wait in the queue.
pub uart_isr-IsReceiver : (r : UartRx) (line : List ℕ) → IsReceiver r → IsReceiver (uart_isr r line)
unfolding uart_isr
uart_isr-IsReceiver r [] h = h
uart_isr-IsReceiver r (b ∷ bs) h =
    uart_isr-IsReceiver (uart_byte r b) bs (uart_byte-IsReceiver r b h)
