-- ===== src/CanFw/Keyhash.antt =====
-- The key in five chunks (0x104), and the check of it at the start of an upgrade.
use zephyr_app.Common.{
  All, Bool, Bool-cases, List, [], ap, ap₂, arith, bit_or, drop, false, get_or, get_or-append_left,
  get_or-drop, get_or-splice, get_or-take, get_or_ext, if◌then◌else◌, inl, inr, leb, length,
  length-append, length-drop, length-replicate, length-take, list_eq, list_eq_refl, list_eq→eq, ltb,
  min, passes_under, passes_under→passes, refl, replicate, suc, sym, take, true, u8, zero, ℕ, ◌%◌,
  ◌&&◌, ◌*◌, ◌++◌, ◌+◌, ◌-◌, ◌/◌, ◌<◌, ◌==◌, ◌^◌, ◌||◌, ◌∙◌, ◌∷◌, ◌≡◌, ◌≢◌, ◌≤◌,
}
use zephyr_app.Zephyr.{CanFrame, Dlc, Slot}
use zephyr_app.CanFw.{
  CanFw, can_fw_keyhash_rx, fw_can_reply, handle_keyhash_frame, keyhash_check, keyhash_full_mask,
  start_update,
}
use zephyr_app.CanFw.Code

-- The frame that a host sends for chunk `seq` of `key`: seven bytes of it, padded with zeros.
abbrev pub key_frame : List ℕ → ℕ → CanFrame
key_frame key seq = record {
  id = can_fw_keyhash_rx;
  dlc = 8;
  bytes = seq ∷ take 7 (drop (seq * 7) key ++ replicate 7 0);
}

elem : ℕ → List ℕ → Bool
elem j [] = false
elem j (x ∷ xs) = j == x || elem j xs

-- All five chunks are among `seqs`.
unfoldable pub covers : List ℕ → Bool
unfolding elem
covers seqs = elem 0 seqs && elem 1 seqs && elem 2 seqs && elem 3 seqs && elem 4 seqs

-- bit `j` of `m`, and the table of `m |= 1 << seq`
abbrev bit : ℕ → ℕ → ℕ
bit m j = m / 2 ^ j % 2

abbrev or_bit : ℕ → ℕ → ℕ → Bool
or_bit seq j m =
    let m' = u8 (bit_or m (2 ^ seq)) in ltb m' 32 && (bit m' j == (if j == seq then 1 else bit m j))

or_bit_table : passes_under (λ seq. passes_under (λ j. passes_under (or_bit seq j) 32) 5) 5 ≡ true
unfolding passes_under
or_bit_table = refl

or_bit_lem :
    (m seq j : ℕ)
    → m < 32
    → seq < 5
    → j < 5
    → let m' = u8 (bit_or m (2 ^ seq)) in (m' < 32) × (bit m' j ≡ (if j == seq then 1 else bit m j))
or_bit_lem m seq j hm hs hj =
    let row = passes_under→passes _ 5 hs or_bit_table in
    let cell = passes_under→passes _ 5 hj row in
    let e : or_bit seq j m ≡ true = passes_under→passes (or_bit seq j) 32 hm cell in ground arith

elem_of_covers : (seqs : List ℕ) (j : ℕ) → covers seqs ≡ true → j < 5 → elem j seqs ≡ true
unfolding covers
elem_of_covers seqs zero h lt = ground arith
elem_of_covers seqs (suc zero) h lt = ground arith
elem_of_covers seqs (suc (suc zero)) h lt = ground arith
elem_of_covers seqs (suc (suc (suc zero))) h lt = ground arith
elem_of_covers seqs (suc (suc (suc (suc zero)))) h lt = ground arith
elem_of_covers seqs (suc (suc (suc (suc (suc j))))) h lt = absurd (omega arith)

module _ {S : Type 0} (io : Slot S) (dlc : Dlc) (fw_keyhash version : List ℕ) where
  -- the key frames of the chunks `seqs`, in the order given
  pub collect : List ℕ → CanFw S → List ℕ → CanFw S
  collect key s [] = s
  collect key s (seq ∷ seqs) =
      collect key (handle_keyhash_frame io dlc fw_keyhash version s (key_frame key seq)) seqs

  abbrev chunk_len : ℕ → ℕ
  chunk_len seq = min (u8 (2 ^ 16 + 32 - seq * 7)) 7

  abbrev keep : List ℕ → List ℕ → ℕ → List ℕ
  keep key buf seq =
      take (seq * 7) buf
      ++ (take (chunk_len seq) (take 7 (drop (seq * 7) key ++ replicate 7 0))
          ++ drop (seq * 7 + chunk_len seq) buf)

  handle_keyhash_frame-key :
      (key : List ℕ) (s : CanFw S) (seq : ℕ)
      → dlc.to_bytes 8 ≡ 8
      → seq < 5
      → handle_keyhash_frame io dlc fw_keyhash version s (key_frame key seq) ≡ record s {
        rx_keybuf = keep key s.rx_keybuf seq;
        key_chunk_mask = u8 (bit_or s.key_chunk_mask (2 ^ seq));
      }
  unfolding handle_keyhash_frame
  handle_keyhash_frame-key key s seq e h =
      let guard : (leb 5 seq || ltb (u8 (dlc.to_bytes 8)) (1 + chunk_len seq)) ≡ false =
        rw e (ground arith) in
      rw guard refl

  get_or-keep :
      (key buf : List ℕ) (seq i : ℕ)
      → length key ≡ 32
      → length buf ≡ 32
      → seq < 5
      → i < 32
      → (get_or (keep key buf seq) i 0 ≡ (if i / 7 == seq then get_or key i 0 else get_or buf i 0))
        × (length (keep key buf seq) ≡ 32)
  get_or-keep key buf seq i hk hb hs hi =
      let at = seq * 7 in
      let c = chunk_len seq in
      let padded = drop at key ++ replicate 7 0 in
      let chunk = take 7 padded in
      let above = drop (at + c) buf in
      let tail = take c chunk ++ above in
      let long : length chunk ≡ 7 = omega (
        arith,
        length-take 7 padded,
        length-append (drop at key) (replicate 7 0),
        length-replicate {A = ℕ} 7 0,
      ) in
      let at_i : i / 7 ≡ seq → get_or chunk (i - at) 0 ≡ get_or key i 0 = λ e.
        get_or-take 7 padded (i - at) 0 (omega arith)
        ∙ get_or-append_left (drop at key) _ (i - at) 0 (omega (arith, length-drop at key))
        ∙ get_or-drop at key (i - at) 0
        ∙ ap (λ k. get_or key k 0) (omega arith) in
      let past : at + c ≤ i → get_or above (i - at - c) 0 ≡ get_or buf i 0 =
        λ e. get_or-drop (at + c) buf (i - at - c) 0 ∙ ap (λ k. get_or buf k 0) (omega arith) in
      (
        ground (
          arith,
          get_or-splice at buf tail i 0,
          get_or-splice c chunk above (i - at) 0,
          at_i,
          past,
        ),
        omega (
          arith,
          long,
          length-append (take at buf) tail,
          length-append (take c chunk) above,
          length-take at buf,
          length-take c chunk,
          length-drop (at + c) buf,
        ),
      )

  -- What the frames of `seqs` have done to the buffer and to the bits of the mask.
  record Collected (key : List ℕ) (s t : CanFw S) (seqs : List ℕ) : Type 0 where
    sized : length t.rx_keybuf ≡ 32
    small : t.key_chunk_mask < 32
    bytes :
        (i : ℕ)
        → i < 32
        → get_or t.rx_keybuf i 0
          ≡ (if elem (i / 7) seqs then get_or key i 0 else get_or s.rx_keybuf i 0)
    bits :
        (j : ℕ)
        → j < 5
        → bit t.key_chunk_mask j ≡ (if elem j seqs then 1 else bit s.key_chunk_mask j)
    rest : t ≡ record s { rx_keybuf = t.rx_keybuf; key_chunk_mask = t.key_chunk_mask }

  collect-Collected :
      (key : List ℕ) (s : CanFw S) (seqs : List ℕ)
      → dlc.to_bytes 8 ≡ 8
      → length key ≡ 32
      → length s.rx_keybuf ≡ 32
      → s.key_chunk_mask < 32
      → All (λ q. q < 5) seqs
      → Collected key s (collect key s seqs) seqs
  unfolding collect elem
  collect-Collected key s [] e hk hb hm hs = record {
    sized = hb;
    small = hm;
    bytes = λ i h. refl;
    bits = λ j h. refl;
    rest = refl;
  }
  collect-Collected key s (seq ∷ seqs) e hk hb hm hs =
      let t : CanFw S = record s {
        rx_keybuf = keep key s.rx_keybuf seq;
        key_chunk_mask = u8 (bit_or s.key_chunk_mask (2 ^ seq));
      } in
      let c =
        collect-Collected key t seqs e hk
          (get_or-keep key s.rx_keybuf seq 0 hk hb hs.0 (omega arith)).1
          (or_bit_lem s.key_chunk_mask seq 0 hm hs.0 (omega arith)).0 hs.1 in
      rw (handle_keyhash_frame-key key s seq e hs.0) (record {
        sized = c.sized;
        small = c.small;
        bytes = λ i h. ground (arith, c.bytes i h, get_or-keep key s.rx_keybuf seq i hk hb hs.0 h);
        bits = λ j h. ground (arith, c.bits j h, or_bit_lem s.key_chunk_mask seq j hm hs.0 h);
        rest = c.rest;
      })

  -- When the frames of all five chunks of a 32-byte key have come, in any order and any number of
  -- times, the buffer holds the key and the mask is full; nothing else has changed.
  pub collect_complete :
      (key : List ℕ) (s : CanFw S) (seqs : List ℕ)
      → dlc.to_bytes 8 ≡ 8
      → length key ≡ 32
      → length s.rx_keybuf ≡ 32
      → s.key_chunk_mask < 32
      → All (λ q. q < 5) seqs
      → covers seqs ≡ true
      → collect key s seqs ≡ record s { rx_keybuf = key; key_chunk_mask = keyhash_full_mask }
  unfolding covers
  collect_complete key s seqs e hk hb hm hs all =
      let c = collect-Collected key s seqs e hk hb hm hs in
      let t = collect key s seqs in
      let each = λ (j : ℕ) (h : j < 5). elem_of_covers seqs j all h in
      let mask : t.key_chunk_mask ≡ keyhash_full_mask = ground (
        arith,
        c.small,
        c.bits 0 (omega arith),
        c.bits 1 (omega arith),
        c.bits 2 (omega arith),
        c.bits 3 (omega arith),
        c.bits 4 (omega arith),
        each 0 (omega arith),
        each 1 (omega arith),
        each 2 (omega arith),
        each 3 (omega arith),
        each 4 (omega arith),
      ) in
      let buf : t.rx_keybuf ≡ key = get_or_ext 0 t.rx_keybuf key (c.sized ∙ sym hk) (λ i h. ground (
        arith,
        c.sized,
        c.bytes i (omega (arith, c.sized)),
        each (i / 7) (omega (arith, c.sized)),
      )) in
      c.rest ∙ ap₂ (λ b m. record s { rx_keybuf = b; key_chunk_mask = m }) buf mask

  -- A start command of 8 bytes after a complete key. With another key than the device's the answer
  -- is the keyhash error and nothing but the mask has changed: slot 1 and the image writer are as
  -- they were before the key frames. With the device's key the command does what it does without
  -- any key frame.
  pub start_update-keyhash :
      (key : List ℕ) (s : CanFw S) (seqs : List ℕ) (frame : CanFrame)
      → dlc.to_bytes 8 ≡ 8
      → dlc.to_bytes frame.dlc ≡ 8
      → length key ≡ 32
      → length s.rx_keybuf ≡ 32
      → s.key_chunk_mask < 32
      → All (λ q. q < 5) seqs
      → covers seqs ≡ true
      → let clean : CanFw S = record s { rx_keybuf = key; key_chunk_mask = 0 } in
        let result = start_update io dlc fw_keyhash version (collect key s seqs) frame in
        (key ≢ fw_keyhash → result ≡ (clean, fw_can_reply dlc Code.keyhash_error 0 ∷ []))
        × (key ≡ fw_keyhash → result ≡ start_update io dlc fw_keyhash version clean frame)
  unfolding start_update keyhash_check
  start_update-keyhash key s seqs frame e he hk hb hm hs all =
      let sized : (dlc.to_bytes frame.dlc == 8) ≡ true = ground arith in
      rw (collect_complete key s seqs e hk hb hm hs all) (
        (λ ne. elim (Bool-cases (list_eq key fw_keyhash)) [
          | inl p ↦ absurd (ne (list_eq→eq key fw_keyhash p))
          | inr p ↦ rw (sized, p)
        ]),
        (λ eq. rw (sized, eq, list_eq_refl)),
      )
