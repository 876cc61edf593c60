-- ===== src/Crypt/Window.antt =====
-- The receive window: which counters `nrf24_crypt_open` infers from the byte of a frame.
use zephyr_app.Common.{
  Bool-cases, List, Option, ap, arith, drop, false, get_or, if◌then◌else◌, inl, inr, leb, ltb, none,
  refl, some, take, true, u32, u8, ℕ, ◌&&◌, ◌++◌, ◌+◌, ◌-◌, ◌<◌, ◌^◌, ◌||◌, ◌∷◌, ◌≡◌, ◌≢◌, ◌≤◌, ◌⊎◌,
}
use zephyr_app.Crypt.{Crypt, accept_frame, crypt_open, ctr_xor, infer_counter, rx_window}

-- At a receiver that has accepted a frame, the byte of a counter `d` ahead (`d < 256`) gives that
-- whole 32-bit counter, carry into the high bits and wrap at 2 ^ 32 included, exactly when `d` is
-- from 1 to 32; it is refused for every other `d`.
pub infer_counter_ahead :
    (s : Crypt) (d : ℕ)
    → s.rx_initialized ≡ true
    → s.rx_counter < 2 ^ 32
    → d < 256
    → infer_counter s (u8 (s.rx_counter + d))
      ≡ (if leb 1 d && leb d rx_window then some (u32 (s.rx_counter + d)) else none)
unfolding infer_counter
infer_counter_ahead s d i r h = ground arith

-- The byte of a counter `k` behind the last accepted one (`k` from 0 to 255) is refused when `k` is
-- at most 223. A frame from 224 to 255 behind is taken for a new one, `256 - k` ahead.
pub infer_counter_behind :
    (s : Crypt) (k : ℕ)
    → s.rx_initialized ≡ true
    → s.rx_counter < 2 ^ 32
    → k < 256
    → infer_counter s (u8 (s.rx_counter + 2 ^ 32 - k))
      ≡ (if leb k 223 then none else some (u32 (s.rx_counter + 256 - k)))
unfolding infer_counter
infer_counter_behind s k i r h = ground arith

-- What `nrf24_crypt_open` does with a frame of an acceptable length and counter.
pub crypt_open-accepted :
    (s : Crypt) (c : ℕ) (xs : List ℕ) (frame_len ctr : ℕ)
    → 3 ≤ frame_len
    → frame_len ≤ 32
    → infer_counter s c ≡ some ctr
    → let out = ctr_xor s.crypt_key xs (frame_len - 1) ctr in
      crypt_open s (c ∷ xs) frame_len ≡ (
        record s { rx_counter = ctr; rx_initialized = true },
        take (frame_len - 1) out ++ drop (0 + (frame_len - 1)) (c ∷ out),
        frame_len - 1,
      )
unfolding crypt_open
crypt_open-accepted s c xs frame_len ctr lo hi e =
    let in_range : (ltb frame_len 3 || ltb 32 frame_len) ≡ false = ground arith in
    rw in_range (rw e)

-- A frame of a refused length or counter changes neither the state nor the buffer, and gives 0.
pub crypt_open-refused :
    (s : Crypt) (buf : List ℕ) (frame_len : ℕ)
    → (frame_len < 3) ⊎ (32 < frame_len) ⊎ (infer_counter s (get_or buf 0 0) ≡ none)
    → crypt_open s buf frame_len ≡ (s, buf, 0)
unfolding crypt_open
crypt_open-refused s buf frame_len (inl h) = ground arith
crypt_open-refused s buf frame_len (inr (inl h)) = ground arith
crypt_open-refused s buf frame_len (inr (inr h)) = ground arith

-- The inferred counter has the frame's byte in its low 8 bits.
pub infer_counter_low :
    (s : Crypt) (c : ℕ) {ctr : ℕ}
    → c < 256
    → infer_counter s c ≡ some ctr
    → (u8 ctr ≡ c) × (ctr < 2 ^ 32)
unfolding infer_counter
infer_counter_low s c h e = ground arith

-- the receiver when its counter has gone on by `k`
abbrev pub later : Crypt → ℕ → Crypt
later t k = record t { rx_counter = u32 (t.rx_counter + k) }

infer_counter_again :
    (t : Crypt) (c k : ℕ)
    → t.rx_initialized ≡ true
    → t.rx_counter < 2 ^ 32
    → u8 t.rx_counter ≡ c
    → k ≤ 223
    → infer_counter (later t k) c ≡ none
infer_counter_again t c k i r e h =
    let byte : u8 (u32 (t.rx_counter + k) + 2 ^ 32 - k) ≡ c = omega (arith, r, e, h) in
    let inside : leb k 223 ≡ true = ground (arith, h) in
    let behind = infer_counter_behind (later t k) k i (omega arith) (omega (arith, h)) in
    rw (byte, inside) at behind

-- A frame that was accepted is refused when it comes again, at once or after the receiver's counter
-- has gone on by up to 223: the state stays, and the result is 0.
pub crypt_open_replay :
    (s : Crypt) (c : ℕ) (xs : List ℕ) (frame_len k : ℕ)
    → c < 256
    → (crypt_open s (c ∷ xs) frame_len).2 ≢ 0
    → k ≤ 223
    → let t = later (crypt_open s (c ∷ xs) frame_len).0 k in
      crypt_open t (c ∷ xs) frame_len ≡ (t, c ∷ xs, 0)
crypt_open_replay s c xs frame_len k h ne near =
    elim (Bool-cases (ltb frame_len 3 || ltb 32 frame_len)) [
      | inl out ↦
          absurd (ne (ap (λ r. r.2) (crypt_open-refused s (c ∷ xs) frame_len (ground arith))))
      | inr fits ↦ go (infer_counter s c) refl (ground arith) (ground arith)
    ]
  where
    go :
        (o : Option ℕ)
        → infer_counter s c ≡ o
        → 3 ≤ frame_len
        → frame_len ≤ 32
        → let t = later (crypt_open s (c ∷ xs) frame_len).0 k in
          crypt_open t (c ∷ xs) frame_len ≡ (t, c ∷ xs, 0)
    go none e lo hi =
        absurd (ne (ap (λ r. r.2) (crypt_open-refused s (c ∷ xs) frame_len (inr (inr e)))))
    go (some ctr) e lo hi = rw (crypt_open-accepted s c xs frame_len ctr lo hi e) (
        let (low, fits) = infer_counter_low s c h e in
        let t = record s { rx_counter = ctr; rx_initialized = true } in
        crypt_open-refused (later t k) (c ∷ xs) frame_len
          (inr (inr (infer_counter_again t c k refl fits low near))))

-- What is opened is nothing, or has two bytes at least.
pub crypt_open_got :
    (s : Crypt) (buf : List ℕ) (frame_len : ℕ)
    → ((crypt_open s buf frame_len).2 ≡ 0) ⊎ (2 ≤ (crypt_open s buf frame_len).2)
unfolding crypt_open accept_frame
crypt_open_got s buf frame_len = elim (Bool-cases (ltb frame_len 3 || ltb 32 frame_len)) [
  | inl e ↦ rw e (inl refl)
  | inr e ↦ rw e (accepted (infer_counter s (get_or buf 0 0)) (ground (arith, e)))
]
  where
    accepted :
        (ctr : Option ℕ)
        → 3 ≤ frame_len
        → ((accept_frame s buf frame_len ctr).2 ≡ 0) ⊎ (2 ≤ (accept_frame s buf frame_len ctr).2)
    accepted none h = inl refl
    accepted (some ctr) h = inr (omega (arith, h))

-- A counter that is inferred is above the last one, short of the end of the counters.
pub infer_counter_above :
    (s : Crypt) (c : ℕ) {ctr : ℕ}
    → s.rx_initialized ≡ true
    → s.rx_counter < 2 ^ 32 - 512
    → c < 256
    → infer_counter s c ≡ some ctr
    → s.rx_counter < ctr
unfolding infer_counter
infer_counter_above s c i top h e = ground (arith, i, top, h, e)

-- A frame that is opened leaves the counter that was inferred.
pub crypt_open_adopts :
    (s : Crypt) (buf : List ℕ) (frame_len : ℕ)
    → ((crypt_open s buf frame_len).2 ≡ 0)
      ⊎ (infer_counter s (get_or buf 0 0) ≡ some (crypt_open s buf frame_len).0.rx_counter)
unfolding crypt_open accept_frame
crypt_open_adopts s buf frame_len = elim (Bool-cases (ltb frame_len 3 || ltb 32 frame_len)) [
  | inl e ↦ rw e (inl refl)
  | inr e ↦ rw e (adopted (infer_counter s (get_or buf 0 0)) refl)
]
  where
    adopted :
        (ctr : Option ℕ)
        → infer_counter s (get_or buf 0 0) ≡ ctr
        → ((accept_frame s buf frame_len ctr).2 ≡ 0)
          ⊎ (infer_counter s (get_or buf 0 0)
              ≡ some (accept_frame s buf frame_len ctr).0.rx_counter)
    adopted none e = inl refl
    adopted (some ctr) e = inr e
