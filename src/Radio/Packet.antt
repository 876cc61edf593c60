-- ===== src/Radio/Packet.antt =====
-- What one end seals and sends, the other opens, whatever lies behind the frame in the two buffers.
use zephyr_app.Common.{
  List, ap, arith, be16_bytes, drop, false, get_or, get_or-take, get_or_ext, if_both, inl, length,
  length-append, length-drop, length-take, ltb, refl, some, suc, sym, take, take-append_left, true,
  u32, u8, ℕ, ◌%◌, ◌++◌, ◌+◌, ◌-◌, ◌/◌, ◌<◌, ◌^◌, ◌∙◌, ◌∷◌, ◌≡◌, ◌≤◌, ◌⊎◌,
}
use zephyr_app.Crypt.Window.{crypt_open-accepted, crypt_open_adopts, crypt_open_got}
use zephyr_app.Crypt.{Crypt, ctr_xor, infer_counter}
use zephyr_app.Crypt.Stream.{ctr_xor_twice, get_or-ctr_xor, length-ctr_xor}
use zephyr_app.Crypt.Link.{
  IsBehind, IsBehind-infer, IsBehind-kept, crypt_seal-accepted, length-room, room, take-room,
}
use zephyr_app.Radio.{open_packet, open_plain, plain_packet, seal_packet}

-- The bytes behind the first `n` do not matter to them.
take-ctr_xor :
    (key xs : List ℕ) (n ctr : ℕ)
    → n ≤ length xs
    → ctr < 2 ^ 32
    → take n (ctr_xor key xs n ctr) ≡ ctr_xor key (take n xs) n ctr
take-ctr_xor key xs n ctr h c =
    let size = length-take n xs in
    let left = length-take n (ctr_xor key xs n ctr) in
    let whole = length-ctr_xor key xs n ctr h in
    let right = length-ctr_xor key (take n xs) n ctr (omega (arith, size, h)) in
    get_or_ext 0 _ _ (omega (arith, size, left, whole, right, h)) λ i lt.
      let inside : i < n = omega (arith, lt, left) in
      let test : ltb i n ≡ true = ground (arith, inside) in
      rw
        (
          get_or-take n (ctr_xor key xs n ctr) i 0 inside,
          get_or-ctr_xor key xs n ctr i h c,
          get_or-ctr_xor key (take n xs) n ctr i (omega (arith, size, h)) c,
          get_or-take n xs i 0 inside,
        )
        refl

-- the frame of a packet that is not refused
pub seal_packet_frame :
    (s : Crypt) (stack : List ℕ) (can_id : ℕ) (bytes : List ℕ)
    → length bytes ≤ 29
    → length stack ≡ 32
    → s.tx_counter < 2 ^ 32
    → let n = length bytes + 2 in
      let (sealed, buf, frame_len) = seal_packet s stack can_id bytes in
      (sealed ≡ record s { tx_counter = u32 (s.tx_counter + 1) })
      × (frame_len ≡ n + 1)
      × (take (n + 1) buf
          ≡ u8 s.tx_counter ∷ ctr_xor s.crypt_key (be16_bytes can_id ++ bytes) n s.tx_counter)
unfolding seal_packet
seal_packet_frame s stack can_id bytes short whole fits =
    let n = length bytes + 2 in
    let plain = be16_bytes can_id ++ bytes in
    let buf = be16_bytes can_id ++ (bytes ++ drop n stack) in
    let fine : ltb 29 (length bytes) ≡ false = ground (arith, short) in
    let left : length (drop n stack) ≡ 32 - n = omega (arith, length-drop n stack, whole) in
    let size : length buf ≡ 32 = omega (arith, left, length-append bytes (drop n stack), short) in
    let measured : length (room buf n) + 1 ≡ length buf =
      length-room buf n (omega (arith, size, short)) in
    let front : take n buf ≡ plain = take-append_left n plain (drop n stack) (omega arith) in
    let moved : take n (room buf n) ≡ plain =
      take-room buf n (omega (arith, size, short)) ∙ front in
    let coded : take n (ctr_xor s.crypt_key (room buf n) n s.tx_counter)
        ≡ ctr_xor s.crypt_key plain n s.tx_counter =
      take-ctr_xor s.crypt_key (room buf n) n s.tx_counter (omega (arith, measured, size, short))
        fits
      ∙ ap (λ l. ctr_xor s.crypt_key l n s.tx_counter) moved in
    let one_more : n + 1 ≡ suc n = omega arith in
    rw
      (
        fine,
        crypt_seal-accepted s (can_id / 2 ^ 8 % 256) (can_id % 256 ∷ (bytes ++ drop n stack)) n
            (omega arith) (omega (arith, short)),
      )
      (refl, refl, rw one_more (ap (λ l. u8 s.tx_counter ∷ l) coded))

-- a frame whose counter the receiver infers
open_packet_frame :
    (r : Crypt) (low ctr n : ℕ) (plain junk : List ℕ)
    → infer_counter r low ≡ some ctr
    → ctr < 2 ^ 32
    → 2 ≤ n
    → n ≤ 31
    → length plain ≡ n
    → let (opened, out, got) =
        open_packet r ((low ∷ ctr_xor r.crypt_key plain n ctr) ++ junk) (n + 1) in
      (opened ≡ record r { rx_counter = ctr; rx_initialized = true })
      × (got ≡ n)
      × (take n out ≡ plain)
unfolding open_packet
open_packet_frame r low ctr n plain junk infer fits lo hi size =
    let once = ctr_xor r.crypt_key plain n ctr in
    let long : ltb (n + 1) 2 ≡ false = ground (arith, lo) in
    let less : n + 1 - 1 ≡ n = omega arith in
    let same_size = length-ctr_xor r.crypt_key plain n ctr (omega (arith, size)) in
    let twice = ctr_xor r.crypt_key (once ++ junk) n ctr in
    let joined = length-append once junk in
    let longer =
      length-ctr_xor r.crypt_key (once ++ junk) n ctr (omega (arith, joined, same_size, size)) in
    let back : take n twice ≡ plain =
      take-ctr_xor r.crypt_key (once ++ junk) n ctr (omega (arith, joined, same_size, size)) fits
      ∙ ap (λ l. ctr_xor r.crypt_key l n ctr)
          (take-append_left n once junk (omega (arith, same_size, size)))
      ∙ ctr_xor_twice r.crypt_key plain n ctr (omega (arith, size)) fits in
    rw
      (
        long,
        crypt_open-accepted r low (once ++ junk) (n + 1) ctr (omega arith) (omega arith) infer,
        less,
      )
      (
        refl,
        refl,
        take-append_left n (take n twice) _
              (omega (arith, length-take n twice, longer, joined, same_size, size))
            ∙ back,
      )

-- A receiver that is at most 32 frames behind gets the identifier and the data that were sent, from
-- a payload of up to 29 bytes: the frame has 3 bytes more than the data, opens to 2 more, adopts
-- the counter and brings the two ends in step.
pub open_packet-seal_packet :
    (d : ℕ) (s r : Crypt) (stack : List ℕ) (can_id : ℕ) (bytes junk : List ℕ)
    → IsBehind d s r
    → 1 ≤ d
    → d ≤ 32
    → length bytes ≤ 29
    → length stack ≡ 32
    → let (sealed, buf, frame_len) = seal_packet s stack can_id bytes in
      let (opened, out, got) = open_packet r (take frame_len buf ++ junk) frame_len in
      (frame_len ≡ length bytes + 3)
      × (got ≡ length bytes + 2)
      × (take got out ≡ be16_bytes can_id ++ bytes)
      × IsBehind 1 sealed opened
open_packet-seal_packet d s r stack can_id bytes junk b lo hi short whole =
    let n = length bytes + 2 in
    let plain = be16_bytes can_id ++ bytes in
    let three : length bytes + 3 ≡ n + 1 = omega arith in
    let (sealed, size, frame) = seal_packet_frame s stack can_id bytes short whole b.tx_fits in
    let (opened, got, out) =
      open_packet_frame r (u8 s.tx_counter) s.tx_counter n plain junk (IsBehind-infer d s r b lo hi)
        b.tx_fits (omega arith) (omega (arith, short)) (omega arith) in
    let keyed : u8 s.tx_counter ∷ ctr_xor s.crypt_key plain n s.tx_counter
        ≡ u8 s.tx_counter ∷ ctr_xor r.crypt_key plain n s.tx_counter =
      ap (λ k. u8 s.tx_counter ∷ ctr_xor k plain n s.tx_counter) (sym b.one_key) in
    rw (three, size, sealed, frame ∙ keyed, opened, got)
      (refl, refl, out, IsBehind-kept s r b.one_key b.tx_fits)

-- What is opened is nothing, or holds an identifier at least.
pub open_packet_got :
    (s : Crypt) (frame : List ℕ) (len : ℕ)
    → ((open_packet s frame len).2 ≡ 0) ⊎ (2 ≤ (open_packet s frame len).2)
unfolding open_packet
open_packet_got s frame len =
    if_both (λ (out : Crypt × List ℕ × ℕ). (out.2 ≡ 0) ⊎ (2 ≤ out.2)) (ltb len 2) _ _
      (λ e. inl refl) (λ e. crypt_open_got s frame len)

-- A frame that is opened leaves the counter that was inferred from its first byte.
pub open_packet_adopts :
    (s : Crypt) (frame : List ℕ) (len : ℕ)
    → ((open_packet s frame len).2 ≡ 0)
      ⊎ (infer_counter s (get_or frame 0 0) ≡ some (open_packet s frame len).0.rx_counter)
unfolding open_packet
open_packet_adopts s frame len =
    if_both
      (λ (out : Crypt × List ℕ × ℕ).
        (out.2 ≡ 0) ⊎ (infer_counter s (get_or frame 0 0) ≡ some out.0.rx_counter))
      (ltb len 2) _ _ (λ e. inl refl) (λ e. crypt_open_adopts s frame len)

-- the frame without encryption, and its length to the receiver
pub plain_packet_frame :
    (stack : List ℕ) (can_id : ℕ) (bytes : List ℕ)
    → length bytes ≤ 30
    → plain_packet stack can_id bytes
      ≡ (be16_bytes can_id ++ (bytes ++ drop (length bytes + 2) stack), length bytes + 2)
unfolding plain_packet
plain_packet_frame stack can_id bytes short =
    let fine : ltb 30 (length bytes) ≡ false = ground (arith, short) in rw fine refl

pub open_plain_frame : (n : ℕ) → open_plain (n + 2) ≡ n + 2
unfolding open_plain
open_plain_frame n = let long : ltb (n + 2) 2 ≡ false = ground arith in rw long refl
