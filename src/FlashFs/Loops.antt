-- ===== src/FlashFs/Loops.antt =====
-- The loops of the file-backed flash over short reads and writes.
use zephyr_app.Common.{
  Bool-cases, List, [], ap, arith, drop, drop-drop, get_or, get_or-drop, if◌then◌else◌, inl, inr,
  leb, length, length-drop, length-take, ltb, refl, some, suc, sym, take, take_split, true, zero, ℕ,
  ◌&&◌, ◌++◌, ◌+◌, ◌-◌, ◌<◌, ◌∙◌, ◌∷◌, ◌≡◌, ◌≤◌,
}
use zephyr_app.FlashFs.{BackingFile, read_loop, write_loop}

-- A file with `content` and a position. Seeking, reading and writing succeed within the file, and
-- a read or write takes one byte at least, but maybe fewer than asked for.
pub record Stores {F : Type 0} (io : BackingFile F) (content : F → List ℕ) (pos : F → ℕ)
    : Type 0 where
  pub opens : (f : F) → (io.fs_open f).0 ≡ true
  pub open_content : (f : F) → content (io.fs_open f).1 ≡ content f
  pub seeks : (f : F) (p : ℕ) → (io.fs_seek f p).0 ≡ true
  pub seek_pos : (f : F) (p : ℕ) → pos (io.fs_seek f p).1 ≡ p
  pub seek_content : (f : F) (p : ℕ) → content (io.fs_seek f p).1 ≡ content f
  pub taken : F → ℕ → ℕ
  pub takes : (f : F) (n : ℕ) → 0 < n → (1 ≤ taken f n) × (taken f n ≤ n)
  pub writes :
      (f : F) (d : List ℕ)
      → pos f + length d ≤ length (content f)
      → (io.fs_write f d).0 ≡ some (taken f (length d))
  pub write_pos : (f : F) (d : List ℕ) → pos (io.fs_write f d).1 ≡ pos f + taken f (length d)
  pub write_length :
      (f : F) (d : List ℕ) → length (content (io.fs_write f d).1) ≡ length (content f)
  pub write_content :
      (f : F) (d : List ℕ)
      → 0 < length d
      → pos f + length d ≤ length (content f)
      → (i : ℕ)
      → get_or (content (io.fs_write f d).1) i 0 ≡ (
          if leb (pos f) i && ltb i (pos f + taken f (length d))
          then get_or d (i - pos f) 0
          else get_or (content f) i 0)
  pub reads :
      (f : F) (n : ℕ)
      → pos f + n ≤ length (content f)
      → (io.fs_read f n).0 ≡ some (take (taken f n) (drop (pos f) (content f)))
  pub read_pos : (f : F) (n : ℕ) → pos (io.fs_read f n).1 ≡ pos f + taken f n
  pub read_content : (f : F) (n : ℕ) → content (io.fs_read f n).1 ≡ content f

drop_shift :
    (d : List ℕ) (k p i : ℕ) → p + k ≤ i → get_or (drop k d) (i - (p + k)) 0 ≡ get_or d (i - p) 0
drop_shift d k p i h =
    let e : k + (i - (p + k)) ≡ i - p = omega arith in
    get_or-drop k d (i - (p + k)) 0 ∙ ap (λ j. get_or d j 0) e

-- what two adjacent writes leave at a place
write_point :
    (d : List ℕ) (k p i old : ℕ)
    → k ≤ length d
    → (if leb (p + k) i && ltb i (p + k + (length d - k))
        then get_or (drop k d) (i - (p + k)) 0
        else if leb p i && ltb i (p + k)
        then get_or d (i - p) 0
        else old)
      ≡ (if leb p i && ltb i (p + length d) then get_or d (i - p) 0 else old)
write_point d k p i old h = elim (Bool-cases (leb (p + k) i)) [
  | inl late ↦
      let after : p + k ≤ i = ground (arith, late) in
      ground (arith, h, after, drop_shift d k p i after)
  | inr early ↦ ground (arith, h, early)
]

module _ {F : Type 0} (io : BackingFile F) (content : F → List ℕ) (pos : F → ℕ)
    (ok : Stores io content pos) where
  write_step :
      (fuel : ℕ) (f : F) (d : List ℕ) (k : ℕ)
      → 0 < length d
      → 0 < k
      → (io.fs_write f d).0 ≡ some k
      → write_loop io (suc fuel) f d ≡ write_loop io fuel (io.fs_write f d).1 (drop k d)
  unfolding write_loop
  write_step fuel f d k more some_taken wrote = ground arith

  read_step :
      (fuel : ℕ) (f : F) (n : ℕ) (bytes : List ℕ)
      → 0 < n
      → 0 < length bytes
      → (io.fs_read f n).0 ≡ some bytes
      → let rest = read_loop io fuel (io.fs_read f n).1 (n - length bytes) in
        read_loop io (suc fuel) f n ≡ (rest.0, bytes ++ rest.1, rest.2)
  unfolding read_loop
  read_step fuel f n bytes more some_read read = ground arith

  -- A write that ends writes everything, at its place, and nothing else.
  pub write_loop_lem :
      (fuel : ℕ) (f : F) (d : List ℕ)
      → length d ≤ fuel
      → pos f + length d ≤ length (content f)
      → let (ret, g) = write_loop io fuel f d in
        (ret ≡ true)
        × (length (content g) ≡ length (content f))
        × ((i : ℕ)
            → get_or (content g) i 0 ≡ (
                if leb (pos f) i && ltb i (pos f + length d)
                then get_or d (i - pos f) 0
                else get_or (content f) i 0))
  unfolding write_loop
  write_loop_lem zero f [] h within = (refl, refl, λ i. ground arith)
  write_loop_lem zero f (x ∷ d) h within = absurd (omega arith)
  write_loop_lem (suc fuel) f [] h within = (refl, refl, λ i. ground arith)
  write_loop_lem (suc fuel) f (x ∷ d) h within =
      let all = x ∷ d in
      let k = ok.taken f (length all) in
      let some_taken = ok.takes f (length all) (omega arith) in
      let g = (io.fs_write f all).1 in
      let short : length (drop k all) ≤ fuel = omega (arith, length-drop k all, some_taken, h) in
      let fits : pos g + length (drop k all) ≤ length (content g) =
        omega (
          arith,
          length-drop k all,
          some_taken,
          ok.write_pos f all,
          ok.write_length f all,
          within,
        ) in
      let rest = write_loop_lem fuel g (drop k all) short fits in
      let point = λ (i : ℕ).
        rw (ok.write_content f all (omega arith) within i, ok.write_pos f all, length-drop k all) at
          (rest.2 i) in
      rw (write_step fuel f all k (omega arith) some_taken.0 (ok.writes f all within)) (
        rest.0,
        rest.1 ∙ ok.write_length f all,
        λ i. point i ∙ write_point all k (pos f) i (get_or (content f) i 0) some_taken.1,
      )

  -- A read that ends gives the bytes from the position on, and leaves the content.
  pub read_loop_lem :
      (fuel : ℕ) (f : F) (n : ℕ)
      → n ≤ fuel
      → pos f + n ≤ length (content f)
      → let (ret, out, g) = read_loop io fuel f n in
        (ret ≡ true) × (out ≡ take n (drop (pos f) (content f))) × (content g ≡ content f)
  unfolding read_loop
  read_loop_lem zero f zero h within = (refl, refl, refl)
  read_loop_lem zero f (suc n) h within = absurd (omega arith)
  read_loop_lem (suc fuel) f zero h within = (refl, refl, refl)
  read_loop_lem (suc fuel) f (suc n) h within =
      let all = drop (pos f) (content f) in
      let k = ok.taken f (suc n) in
      let some_taken = ok.takes f (suc n) (omega arith) in
      let g = (io.fs_read f (suc n)).1 in
      let size : length (take k all) ≡ k =
        omega (arith, length-take k all, length-drop (pos f) (content f), some_taken, within) in
      let same : content g ≡ content f = ok.read_content f (suc n) in
      let here : pos g ≡ pos f + k = ok.read_pos f (suc n) in
      let fits : pos g + (suc n - k) ≤ length (content g) =
        rw (same, here) (omega (arith, some_taken, within)) in
      let rest = read_loop_lem fuel g (suc n - k) (omega (arith, some_taken, h)) fits in
      let joined : take k all ++ take (suc n - k) (drop (pos f + k) (content f))
          ≡ take (suc n) all =
        sym (
          take_split k (suc n) all some_taken.1
          ∙ ap (λ (l : List ℕ). take k all ++ take (suc n - k) l)
              (drop-drop k (pos f) (content f))) in
      rw
        (
          read_step fuel f (suc n) (take k all) (omega arith) (omega (arith, size, some_taken))
              (ok.reads f (suc n) within),
          size,
        )
        (
          rest.0,
          ap (λ (l : List ℕ). take k all ++ l) (rw (same, here) at rest.1) ∙ joined,
          rest.2 ∙ same,
        )
