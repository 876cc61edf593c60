-- ===== src/Crypt/Link.antt =====
-- The two ends of the link together: what one end seals, the other opens.
use zephyr_app.Common.{
  Bool, Bool-cases, List, [], ap, arith, drop, false, if◌then◌else◌, inl, inr, length,
  length-append, length-drop, length-take, ltb, not, refl, some, take, take-append_left, true, u32,
  u8, ℕ, ◌%◌, ◌++◌, ◌+◌, ◌-◌, ◌<◌, ◌==◌, ◌^◌, ◌||◌, ◌∷◌, ◌≡◌, ◌≢◌, ◌≤◌,
}
use zephyr_app.Crypt.{Crypt, crypt_open, crypt_seal, ctr_xor, infer_counter, rx_reset, set_key}
use zephyr_app.Crypt.Stream.{ctr_xor_twice}
use zephyr_app.Crypt.Window.{crypt_open-accepted, infer_counter_ahead}

-- the plaintext, moved up by one byte, and the bytes behind it
pub room : List ℕ → ℕ → List ℕ
room buf n = take n buf ++ drop (1 + n) buf

-- What `nrf24_crypt_seal` does with a plaintext of an acceptable length.
pub crypt_seal-accepted :
    (s : Crypt) (b : ℕ) (bs : List ℕ) (n : ℕ)
    → 2 ≤ n
    → n ≤ 31
    → crypt_seal s (b ∷ bs) n ≡ (
      record s { tx_counter = u32 (s.tx_counter + 1) },
      u8 s.tx_counter ∷ ctr_xor s.crypt_key (room (b ∷ bs) n) n s.tx_counter,
      n + 1,
    )
unfolding crypt_seal room
crypt_seal-accepted s b bs n lo hi =
    let in_range : (ltb n 2 || ltb 31 n) ≡ false = ground arith in rw in_range refl

-- The receiver `r` has the sender's key and is one to 32 frames behind it, `d` in all; before its
-- first frame, the sender has sent `d - 1`.
pub record IsBehind (d : ℕ) (s r : Crypt) : Type 0 where
  pub one_key : r.crypt_key ≡ s.crypt_key
  pub tx_fits : s.tx_counter < 2 ^ 32
  pub rx_fits : r.rx_counter < 2 ^ 32
  pub started : r.rx_initialized ≡ true → s.tx_counter ≡ u32 (r.rx_counter + d)
  pub fresh : r.rx_initialized ≡ false → s.tx_counter + 1 ≡ d

pub IsBehind-infer :
    (d : ℕ) (s r : Crypt)
    → IsBehind d s r
    → 1 ≤ d
    → d ≤ 32
    → infer_counter r (u8 s.tx_counter) ≡ some s.tx_counter
IsBehind-infer d s r b lo hi = elim (Bool-cases r.rx_initialized) [
  | inl i ↦
      let low : u8 s.tx_counter ≡ u8 (r.rx_counter + d) = omega (arith, b.started i) in
      rw low (ground (arith, infer_counter_ahead r d i b.rx_fits (omega arith), b.started i))
  | inr i ↦
      let low : u8 s.tx_counter ≡ s.tx_counter = omega (arith, b.fresh i) in
      rw low (unfold infer_counter in ground arith)
]

-- the two buffers of a frame: what `nrf24_crypt_seal` leaves behind, and what is opened of it
abbrev sealed : Crypt → List ℕ → ℕ → Crypt × List ℕ × ℕ
sealed s buf n = crypt_seal s buf n

abbrev opened : Crypt → Crypt → List ℕ → ℕ → Crypt × List ℕ × ℕ
opened s r buf n = crypt_open r (sealed s buf n).1 (sealed s buf n).2

pub length-room : (buf : List ℕ) (n : ℕ) → n + 1 ≤ length buf → length (room buf n) + 1 ≡ length buf
unfolding room
length-room buf n h = omega (
  arith,
  length-append (take n buf) (drop (1 + n) buf),
  length-take n buf,
  length-drop (1 + n) buf,
)

pub take-room : (buf : List ℕ) (n : ℕ) → n + 1 ≤ length buf → take n (room buf n) ≡ take n buf
unfolding room
take-room buf n h =
    take-append_left n (take n buf) (drop (1 + n) buf) (omega (arith, length-take n buf))

-- A receiver that is at most 32 frames behind opens what the sender seals: it gets the plaintext
-- and its length back, and adopts the sender's counter. The sender counts one frame.
pub open-seal :
    (d : ℕ) (s r : Crypt) (buf : List ℕ) (n : ℕ)
    → IsBehind d s r
    → 1 ≤ d
    → d ≤ 32
    → 2 ≤ n
    → n ≤ 31
    → n + 1 ≤ length buf
    → (take n (opened s r buf n).1 ≡ take n buf)
      × ((opened s r buf n).2 ≡ n)
      × ((opened s r buf n).0 ≡ record r { rx_counter = s.tx_counter; rx_initialized = true })
      × ((sealed s buf n).0 ≡ record s { tx_counter = u32 (s.tx_counter + 1) })
open-seal d s r [] n b lo hi nlo nhi fits = absurd (omega arith)
open-seal d s r (x ∷ xs) n b lo hi nlo nhi fits =
    let ctr = s.tx_counter in
    let plain = room (x ∷ xs) n in
    let ciphered = ctr_xor s.crypt_key plain n ctr in
    let received = ctr_xor r.crypt_key ciphered n ctr in
    let same : received ≡ plain = rw b.one_key (
      ctr_xor_twice s.crypt_key plain n ctr (omega (arith, length-room (x ∷ xs) n fits))
        b.tx_fits) in
    let less : n + 1 - 1 ≡ n = omega arith in
    rw (crypt_seal-accepted s x xs n nlo nhi) (
      rw
        (crypt_open-accepted r (u8 ctr) ciphered (n + 1) ctr (omega arith) (omega arith)
          (IsBehind-infer d s r b lo hi))
        (rw (less, same)
          (
            rw (take-room (x ∷ xs) n fits)
                (take-append_left n (take n (x ∷ xs)) _ (omega (arith, length-take n (x ∷ xs)))),
            refl,
            refl,
            refl,
          )))

-- A frame on its way: its plaintext, and whether the radio delivers it.
pub record Sending : Type 0 where
  pub plaintext : List ℕ
  pub delivered : Bool

-- One frame is sealed in a buffer with one byte to spare, and opened if it arrives. The result is
-- the list of the plaintexts that the receiver hands on (a length of 0 hands on nothing).
pub transmit : Crypt → Crypt → List Sending → List (List ℕ)
transmit s r [] = []
transmit s r (f ∷ fs) =
    let n = length f.plaintext in
    let buf = f.plaintext ++ (0 ∷ []) in
    let s' = (sealed s buf n).0 in
    let (r', out, got) = opened s r buf n in
    let lost = transmit s' r fs in
    let kept = transmit s' r' fs in
    if not f.delivered then lost else if got == 0 then kept else take got out ∷ kept

-- The plaintexts are of lawful lengths, and the next frame to arrive is at most the 32nd, `d`
-- counting the frames since the last arrival.
abbrev pub IsCarried : ℕ → List Sending → Type 0
IsCarried d [] = Unit
IsCarried d (f ∷ fs) =
    (2 ≤ length f.plaintext)
    × (length f.plaintext ≤ 31)
    × (d ≤ 32)
    × IsCarried (if f.delivered then 1 else d + 1) fs

-- the plaintexts of the frames that arrive
pub arrivals : List Sending → List (List ℕ)
arrivals [] = []
arrivals (f ∷ fs) = let rest = arrivals fs in if f.delivered then f.plaintext ∷ rest else rest

pub IsBehind-kept :
    (s r : Crypt)
    → r.crypt_key ≡ s.crypt_key
    → s.tx_counter < 2 ^ 32
    → IsBehind 1
        (record s { tx_counter = u32 (s.tx_counter + 1) })
        (record r { rx_counter = s.tx_counter; rx_initialized = true })
IsBehind-kept s r k h = ground arith

IsBehind-lost :
    (d : ℕ) (s r : Crypt)
    → IsBehind d s r
    → d ≤ 32
    → IsBehind (d + 1) (record s { tx_counter = u32 (s.tx_counter + 1) }) r
IsBehind-lost d s r b h = ground arith

-- Over a link that never loses 32 frames on end, the receiver hands on exactly the plaintexts of
-- the frames that arrive, in order, however far the counters have run.
pub transmit_lem :
    (d : ℕ) (s r : Crypt) (fs : List Sending)
    → IsBehind d s r
    → 1 ≤ d
    → IsCarried d fs
    → transmit s r fs ≡ arrivals fs
unfolding transmit arrivals
transmit_lem d s r [] b lo c = refl
transmit_lem d s r (f ∷ fs) b lo c =
    let n = length f.plaintext in
    let buf = f.plaintext ++ (0 ∷ []) in
    let fits : n + 1 ≤ length buf = omega (arith, length-append f.plaintext (0 ∷ [])) in
    let (same, got, r', s') = open-seal d s r buf n b lo c.2 c.0 c.1 fits in
    let plain : take n buf ≡ f.plaintext = take-append_left n f.plaintext (0 ∷ []) refl in
    let some_got : (n == 0) ≡ false = ground (arith, c.0) in
    elim (Bool-cases f.delivered) [
      | inl e ↦
          let c' : IsCarried 1 fs = rw e at c.3 in
          rw (e, got, r', s', some_got, same, plain)
            (ap (λ l. f.plaintext ∷ l)
              (transmit_lem 1 _ _ fs (IsBehind-kept s r b.one_key b.tx_fits) (omega arith) c'))
      | inr e ↦
          let c' : IsCarried (d + 1) fs = rw e at c.3 in
          rw (e, s') (transmit_lem (d + 1) _ _ fs (IsBehind-lost d s r b c.2) (omega arith) c')
    ]

-- Two ends that have just derived their key from one address are in step.
pub set_key-IsBehind :
    (s r : Crypt) (addr : List ℕ)
    → r.rx_counter < 2 ^ 32
    → IsBehind 1 (set_key s addr) (set_key r addr)
unfolding set_key
set_key-IsBehind s r addr h = ground arith

-- After `nrf24_crypt_rx_reset`, with a sender that has sent 256 frames or more, the next frame is
-- accepted with its full length, but under the counter `tx_counter % 256`, which is not the
-- sender's: what the sender enciphered under its counter, the receiver deciphers under that one.
pub rx_reset_out_of_step :
    (s r : Crypt) (buf : List ℕ) (n : ℕ)
    → 256 ≤ s.tx_counter
    → 2 ≤ n
    → n ≤ 31
    → n + 1 ≤ length buf
    → (let ciphered = ctr_xor s.crypt_key (room buf n) n s.tx_counter in
        let deciphered = ctr_xor r.crypt_key ciphered n (s.tx_counter % 256) in
        (opened s (rx_reset r) buf n).1
        ≡ take n deciphered ++ drop n (u8 s.tx_counter ∷ deciphered))
      × ((opened s (rx_reset r) buf n).2 ≡ n)
      × ((opened s (rx_reset r) buf n).0.rx_counter ≡ s.tx_counter % 256)
      × ((opened s (rx_reset r) buf n).0.rx_counter ≢ s.tx_counter)
rx_reset_out_of_step s r [] n h nlo nhi fits = absurd (omega arith)
rx_reset_out_of_step s r (x ∷ xs) n h nlo nhi fits =
    let less : n + 1 - 1 ≡ n = omega arith in
    let no_gap : 0 + n ≡ n = omega arith in
    let low : infer_counter (rx_reset r) (u8 s.tx_counter) ≡ some (u8 s.tx_counter) =
      unfold infer_counter rx_reset in refl in
    rw (crypt_seal-accepted s x xs n nlo nhi) (
      rw
        (crypt_open-accepted (rx_reset r) (u8 s.tx_counter) _ (n + 1) _ (omega arith) (omega arith)
          low)
        (rw (less, no_gap) (unfold rx_reset in refl), less, refl, λ e. omega arith))
