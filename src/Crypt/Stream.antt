-- ===== src/Crypt/Stream.antt =====
-- `ctr_xor` against its description byte by byte.
use zephyr_app.Common.{
  List, [], ap, ap₂, arith, bit_xor, drop, get_or, get_or-drop, get_or-splice, get_or_ext,
  if◌then◌else◌, length, length-append, length-drop, length-take, ltb, refl, suc, take, u32,
  xor_cancel, zero, ℕ, ◌%◌, ◌+◌, ◌-◌, ◌/◌, ◌<◌, ◌^◌, ◌∙◌, ◌∷◌, ◌≡◌, ◌≤◌,
}
use zephyr_app.Crypt.{ctr_loop, ctr_xor, keystream, xor_prefix}

-- The key byte for place `i` of a frame whose counter is `counter`.
abbrev pub stream_byte : List ℕ → ℕ → ℕ → ℕ
stream_byte key counter i = get_or (keystream key (u32 (counter + i / 8))) (i % 8) 0

pub length-keystream : (key : List ℕ) (counter : ℕ) → length (keystream key counter) ≡ 8
unfolding keystream
length-keystream key counter = refl

length-xor_prefix : (n : ℕ) (buf ks : List ℕ) → length (xor_prefix n buf ks) ≡ length buf
unfolding xor_prefix
length-xor_prefix zero buf ks = refl
length-xor_prefix (suc n) [] ks = refl
length-xor_prefix (suc n) (b ∷ buf) [] = refl
length-xor_prefix (suc n) (b ∷ buf) (k ∷ ks) = ap suc (length-xor_prefix n buf ks)

get_or-xor_prefix :
    (n : ℕ) (buf ks : List ℕ) (i : ℕ)
    → n ≤ length buf
    → n ≤ length ks
    → get_or (xor_prefix n buf ks) i 0
      ≡ (if ltb i n then bit_xor (get_or buf i 0) (get_or ks i 0) else get_or buf i 0)
unfolding xor_prefix
get_or-xor_prefix zero buf ks i p q = ground arith
get_or-xor_prefix (suc n) [] ks i p q = absurd (omega arith)
get_or-xor_prefix (suc n) (b ∷ buf) [] i p q = absurd (omega arith)
get_or-xor_prefix (suc n) (b ∷ buf) (k ∷ ks) zero p q = ground arith
get_or-xor_prefix (suc n) (b ∷ buf) (k ∷ ks) (suc i) p q =
    ground (arith, get_or-xor_prefix n buf ks i)

length-ctr_loop :
    (fuel : ℕ) (key buf : List ℕ) (len counter : ℕ)
    → len ≤ length buf
    → length (ctr_loop fuel key buf len counter) ≡ length buf
unfolding ctr_loop
length-ctr_loop zero key buf len counter p = refl
length-ctr_loop (suc fuel) key buf len counter p =
    let chunk = if ltb len 8 then len else 8 in
    let out = xor_prefix chunk buf (keystream key counter) in
    let rest = ctr_loop fuel key (drop chunk out) (len - chunk) (u32 (counter + 1)) in
    ground (
      arith,
      length-append (take chunk out) rest,
      length-take chunk out,
      length-drop chunk out,
      length-xor_prefix chunk buf (keystream key counter),
      length-ctr_loop fuel key (drop chunk out) (len - chunk) (u32 (counter + 1)),
    )

stream_byte_first :
    (key : List ℕ) (counter i : ℕ)
    → i < 8
    → counter < 2 ^ 32
    → stream_byte key counter i ≡ get_or (keystream key counter) i 0
stream_byte_first key counter i h r =
    let e : u32 (counter + i / 8) ≡ counter = omega arith in
    let f : i % 8 ≡ i = omega arith in ap₂ (λ c j. get_or (keystream key c) j 0) e f

stream_byte_next :
    (key : List ℕ) (counter i : ℕ)
    → 8 ≤ i
    → stream_byte key (u32 (counter + 1)) (i - 8) ≡ stream_byte key counter i
stream_byte_next key counter i h =
    let e : u32 (u32 (counter + 1) + (i - 8) / 8) ≡ u32 (counter + i / 8) = omega arith in
    let f : (i - 8) % 8 ≡ i % 8 = omega arith in ap₂ (λ c j. get_or (keystream key c) j 0) e f

-- The bytes ahead of the loop: place `i` is enciphered if it is below `len`, else kept.
get_or-ctr_loop :
    (fuel : ℕ) (key buf : List ℕ) (len counter i : ℕ)
    → len ≤ fuel
    → len ≤ length buf
    → counter < 2 ^ 32
    → get_or (ctr_loop fuel key buf len counter) i 0
      ≡ (if ltb i len then bit_xor (get_or buf i 0) (stream_byte key counter i) else get_or buf i 0)
unfolding ctr_loop
get_or-ctr_loop zero key buf len counter i p q r = ground arith
get_or-ctr_loop (suc fuel) key buf len counter i p q r =
    let chunk = if ltb len 8 then len else 8 in
    let ks = keystream key counter in
    let out = xor_prefix chunk buf ks in
    let rest = ctr_loop fuel key (drop chunk out) (len - chunk) (u32 (counter + 1)) in
    ground (
      arith,
      get_or-splice chunk out rest i 0,
      length-xor_prefix chunk buf ks,
      length-keystream key counter,
      length-drop chunk out,
      get_or-xor_prefix chunk buf ks i,
      get_or-drop chunk out (i - chunk) 0,
      get_or-ctr_loop fuel key (drop chunk out) (len - chunk) (u32 (counter + 1)) (i - chunk),
      stream_byte_first key counter i,
      stream_byte_next key counter i,
    )

-- `ctr_xor` enciphers byte `i` of the first `len` with byte `i % 8` of the key stream of counter
-- `counter + i / 8`, and changes nothing else.
pub get_or-ctr_xor :
    (key buf : List ℕ) (len counter i : ℕ)
    → len ≤ length buf
    → counter < 2 ^ 32
    → get_or (ctr_xor key buf len counter) i 0
      ≡ (if ltb i len then bit_xor (get_or buf i 0) (stream_byte key counter i) else get_or buf i 0)
unfolding ctr_xor
get_or-ctr_xor key buf len counter i = get_or-ctr_loop len key buf len counter i (omega arith)

pub length-ctr_xor :
    (key buf : List ℕ) (len counter : ℕ)
    → len ≤ length buf
    → length (ctr_xor key buf len counter) ≡ length buf
unfolding ctr_xor
length-ctr_xor key buf len counter = length-ctr_loop len key buf len counter

-- Enciphering twice with one counter gives the buffer back.
pub ctr_xor_twice :
    (key buf : List ℕ) (len counter : ℕ)
    → len ≤ length buf
    → counter < 2 ^ 32
    → ctr_xor key (ctr_xor key buf len counter) len counter ≡ buf
ctr_xor_twice key buf len counter p r =
    let once = ctr_xor key buf len counter in
    let e : length once ≡ length buf = length-ctr_xor key buf len counter p in
    get_or_ext 0 _ _ (length-ctr_xor key once len counter (omega arith) ∙ e) λ i lt. ground (
      arith,
      get_or-ctr_xor key once len counter i (omega arith) r,
      get_or-ctr_xor key buf len counter i p r,
      xor_cancel (get_or buf i 0) (stream_byte key counter i),
    )
