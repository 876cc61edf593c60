-- ===== src/Crypt.antt =====
-- drivers/nrf24l01p/nrf24_crypt.c: the XXTEA-CTR encryption of the radio link, with its 32-bit
-- counters of which a frame carries the low 8 bits, and the receive window.
-- A buffer is the list of the bytes of the caller's array.
pub mod Stream
pub mod Window
pub mod Link
mod Tests
use zephyr_app.Common.{
  Bool, List, Option, [], be32_bytes, bit_and, bit_xor, drop, false, get_be32, get_or,
  if◌then◌else◌, ltb, memmove, none, not, set, some, suc, take, true, u32, u8, zero, ℕ, ◌%◌, ◌*◌,
  ◌++◌, ◌+◌, ◌-◌, ◌/◌, ◌==◌, ◌^◌, ◌||◌, ◌∷◌,
}

abbrev pub xxtea_delta : ℕ
xxtea_delta = 0x9E3779B9

abbrev pub rx_window : ℕ
rx_window = 32

abbrev pub nrf24_crypt_addr_len : ℕ
nrf24_crypt_addr_len = 5

-- The two words under encryption, and the locals `z` and `sum`.
record Xxtea : Type 0 where
  v0 : ℕ
  v1 : ℕ
  z : ℕ
  sum : ℕ

-- The mixing expression, at `z`, `y`, `sum` and the key word `k`.
mix : ℕ → ℕ → ℕ → ℕ → ℕ
mix z y sum k =
    bit_xor (u32 (bit_xor (z / 2 ^ 5) (u32 (y * 2 ^ 2)) + bit_xor (y / 2 ^ 3) (u32 (z * 2 ^ 4))))
      (u32 (bit_xor sum y + bit_xor k z))

-- One pass of the `do` loop. With n = 2 the inner loop runs once, at p = 0.
xxtea_round : List ℕ → Xxtea → Xxtea
unfolding mix
xxtea_round key s =
    let sum = u32 (s.sum + xxtea_delta) in
    let e = bit_and (sum / 2 ^ 2) 3 in
    let v0 = u32 (s.v0 + mix s.z s.v1 sum (get_or key (bit_xor (bit_and 0 3) e) 0)) in
    let v1 = u32 (s.v1 + mix v0 v0 sum (get_or key (bit_xor (bit_and 1 3) e) 0)) in
    record { v0 = v0; v1 = v1; z = v1; sum = sum }

xxtea_rounds : ℕ → List ℕ → Xxtea → Xxtea
xxtea_rounds zero key s = s
xxtea_rounds (suc rounds) key s = xxtea_rounds rounds key (xxtea_round key s)

-- `xxtea_encrypt_block`: 6 + 52 / 2 rounds on the words `v0` and `v1`.
xxtea_encrypt_block : List ℕ → ℕ → ℕ → ℕ × ℕ
unfolding xxtea_rounds xxtea_round
xxtea_encrypt_block key v0 v1 =
    let s = xxtea_rounds (6 + 52 / 2) key (record { v0 = v0; v1 = v1; z = v1; sum = 0 }) in
    (s.v0, s.v1)

-- The static variables of the module.
pub record Crypt : Type 0 where
  pub crypt_key : List ℕ
  pub tx_counter : ℕ
  pub rx_counter : ℕ
  pub rx_initialized : Bool

-- `kbytes[i] = addr[i % 5]` for the `n` indices from `i` on
key_bytes : List ℕ → ℕ → ℕ → List ℕ
key_bytes addr i zero = []
key_bytes addr i (suc n) = get_or addr (i % nrf24_crypt_addr_len) 0 ∷ key_bytes addr (i + 1) n

-- `nrf24_crypt_set_key`
pub set_key : Crypt → List ℕ → Crypt
unfolding key_bytes
set_key s addr =
    let kbytes = key_bytes addr 0 16 in
    record s {
      crypt_key =
          get_be32 kbytes 0 ∷ get_be32 kbytes 4 ∷ get_be32 kbytes 8 ∷ get_be32 kbytes 12 ∷ [];
      tx_counter = 0;
      rx_initialized = false;
    }

-- `nrf24_crypt_rx_reset`
pub rx_reset : Crypt → Crypt
rx_reset s = record s { rx_initialized = false }

-- The 8 bytes `ks` that `ctr_xor` makes for one counter: the block is { counter, ~counter }.
pub keystream : List ℕ → ℕ → List ℕ
unfolding xxtea_encrypt_block
keystream key counter =
    let block = xxtea_encrypt_block key counter (2 ^ 32 - 1 - counter) in
    be32_bytes block.0 ++ be32_bytes block.1

-- `for (i = 0; i < n; i++) buf[i] ^= ks[i]`; it stops early only where a buffer ends.
xor_prefix : ℕ → List ℕ → List ℕ → List ℕ
xor_prefix zero buf ks = buf
xor_prefix (suc n) [] ks = []
xor_prefix (suc n) (b ∷ buf) [] = b ∷ buf
xor_prefix (suc n) (b ∷ buf) (k ∷ ks) = bit_xor b k ∷ xor_prefix n buf ks

-- The `while` of `ctr_xor`, with `buf` and `len` what lies ahead of `off`. Each pass takes one byte
-- at least, so fuel `len` is enough.
ctr_loop : ℕ → List ℕ → List ℕ → ℕ → ℕ → List ℕ
unfolding xor_prefix
ctr_loop zero key buf len counter = buf
ctr_loop (suc fuel) key buf len counter =
    let chunk = if ltb len 8 then len else 8 in
    let out = xor_prefix chunk buf (keystream key counter) in
    let rest = ctr_loop fuel key (drop chunk out) (len - chunk) (u32 (counter + 1)) in
    if len == 0 then buf else take chunk out ++ rest

-- `ctr_xor(buf, len, counter)` under the key
pub ctr_xor : List ℕ → List ℕ → ℕ → ℕ → List ℕ
unfolding ctr_loop keystream
ctr_xor key buf len counter = ctr_loop len key buf len counter

-- `nrf24_crypt_seal`: the new state, the buffer, and the returned length.
pub crypt_seal : Crypt → List ℕ → ℕ → Crypt × List ℕ × ℕ
crypt_seal s buf plaintext_len =
    let ctr = s.tx_counter in
    let moved = memmove 1 0 plaintext_len buf in
    let enciphered = take 1 moved ++ ctr_xor s.crypt_key (drop 1 moved) plaintext_len ctr in
    if ltb plaintext_len 2 || ltb 31 plaintext_len
    then (s, buf, 0)
    else (record s { tx_counter = u32 (ctr + 1) }, set enciphered 0 (u8 ctr), plaintext_len + 1)

-- The counter that `nrf24_crypt_open` infers from the frame's first byte, or a refusal.
-- `x & 0xFF` is `x % 256`, and `x & ~0xFFu` is `x / 256 * 256`.
pub infer_counter : Crypt → ℕ → Option ℕ
infer_counter s ctr_byte =
    let rx_low = u8 (s.rx_counter % 256) in
    let diff = u8 (ctr_byte + 256 - rx_low) in
    let high = s.rx_counter / 256 * 256 in
    if not s.rx_initialized
    then some ctr_byte
    else if diff == 0 || ltb rx_window diff
    then none
    else if ltb ctr_byte rx_low
    then some (u32 (high + 256 + ctr_byte))
    else some (u32 (high + ctr_byte))

pub accept_frame : Crypt → List ℕ → ℕ → Option ℕ → Crypt × List ℕ × ℕ
accept_frame s buf frame_len none = (s, buf, 0)
accept_frame s buf frame_len (some ctr) =
    let deciphered = take 1 buf ++ ctr_xor s.crypt_key (drop 1 buf) (frame_len - 1) ctr in
    (
      record s { rx_counter = ctr; rx_initialized = true },
      memmove 0 1 (frame_len - 1) deciphered,
      frame_len - 1,
    )

-- `nrf24_crypt_open`
pub crypt_open : Crypt → List ℕ → ℕ → Crypt × List ℕ × ℕ
unfolding accept_frame
crypt_open s buf frame_len =
    if ltb frame_len 3 || ltb 32 frame_len
    then (s, buf, 0)
    else accept_frame s buf frame_len (infer_counter s (get_or buf 0 0))
