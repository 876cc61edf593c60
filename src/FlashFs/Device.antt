-- ===== src/FlashFs/Device.antt =====
-- Reads after writes of the file-backed flash, and its semaphore.
use zephyr_app.Common.{
  Bool, List, [], ap, ap₂, arith, drop, false, get_or, get_or-drop, get_or-take, get_or_ext,
  if◌then◌else◌, leb, length, length-drop, length-take, ltb, refl, some, take, true, u32, ℕ, ◌&&◌,
  ◌+◌, ◌-◌, ◌<◌, ◌==◌, ◌^◌, ◌∙◌, ◌≡◌, ◌≤◌, ◌⊎◌,
}
use zephyr_app.FlashFs.{
  BackingFile, FlashFs, acquire_device, flash_fs_read, flash_fs_write, read_acquired,
  read_write_init, release_device, write_acquired,
}
use zephyr_app.FlashFs.Loops.{Stores, read_loop_lem, write_loop_lem}

-- A read or a write past the end is answered with an error, and releases the device without having
-- acquired it: from a free device (count 1), two callers are then let in at once.
pub range_error_releases :
    {F : Type 0}
    → (io : BackingFile F) (s : FlashFs F) (addr size other : ℕ) (src : List ℕ) → s.sem ≡ 1
    → s.flash_size < u32 (addr + size)
    → s.flash_size < u32 (other + length src)
    → let t = record s { sem = 2 } in
      (flash_fs_read io s addr size ≡ some (t, false, []))
      × (flash_fs_write io s other src ≡ some (t, false))
      × (acquire_device t ≡ some (record s { sem = 1 }))
      × (acquire_device (record s { sem = 1 }) ≡ some (record s { sem = 0 }))
unfolding flash_fs_read flash_fs_write acquire_device release_device
range_error_releases io s addr size other src free past past_write = ground arith

module _ {F : Type 0} (io : BackingFile F) (s : FlashFs F) (addr : ℕ) (free : 0 < s.sem) where
  accepted_write :
      (src : List ℕ)
      → ltb s.flash_size (u32 (addr + length src)) ≡ false
      → flash_fs_write io s addr src
        ≡ some (write_acquired io (record s { sem = s.sem - 1 }) addr src)
  unfolding flash_fs_write acquire_device
  accepted_write src h =
      let counted : (s.sem == 0) ≡ false = ground (arith, free) in rw (h, counted) refl

  accepted_read :
      (size : ℕ)
      → ltb s.flash_size (u32 (addr + size)) ≡ false
      → flash_fs_read io s addr size
        ≡ some (read_acquired io (record s { sem = s.sem - 1 }) addr size)
  unfolding flash_fs_read acquire_device
  accepted_read size h =
      let counted : (s.sem == 0) ≡ false = ground (arith, free) in rw (h, counted) refl

module _ {F : Type 0} (io : BackingFile F) (content : F → List ℕ) (pos : F → ℕ)
    (ok : Stores io content pos) where
  init_lem :
      (s : FlashFs F)
      → let (opened, t) = read_write_init io s in
        (opened ≡ true)
        × (t.sem ≡ s.sem)
        × (t.flash_size ≡ s.flash_size)
        × (content t.file ≡ content s.file)
  unfolding read_write_init
  init_lem s = ground (arith, ok.opens s.file, ok.open_content s.file)

  -- what the device holds after a write
  pub record IsWritten (s t : FlashFs F) (addr : ℕ) (src : List ℕ) : Type 0 where
    pub counted : t.sem ≡ s.sem + 1
    pub sized : t.flash_size ≡ s.flash_size
    pub long : length (content t.file) ≡ length (content s.file)
    pub holds :
        (i : ℕ)
        → get_or (content t.file) i 0 ≡ (
            if leb addr i && ltb i (addr + length src)
            then get_or src (i - addr) 0
            else get_or (content s.file) i 0)

  write_lem :
      (s : FlashFs F) (addr : ℕ) (src : List ℕ)
      → addr + length src ≤ length (content s.file)
      → let (t, ret) = write_acquired io s addr src in (ret ≡ true) × IsWritten s t addr src
  unfolding write_acquired release_device
  write_lem s addr src within =
      let t = (read_write_init io s).1 in
      let i = init_lem s in
      let f = (io.fs_seek t.file addr).1 in
      let same : content f ≡ content s.file = ok.seek_content t.file addr ∙ i.3 in
      let fits : pos f + length src ≤ length (content f) =
        rw (ok.seek_pos t.file addr, same) within in
      let w = write_loop_lem io content pos ok (length src) f src (omega arith) fits in
      rw (i.0, ok.seeks t.file addr)
        (
          w.0,
          record {
            counted = ap (λ (n : ℕ). n + 1) i.1;
            sized = i.2;
            long = w.1 ∙ ap length same;
            holds = λ j. rw (ok.seek_pos t.file addr, same) at (w.2 j);
          },
        )

  read_lem :
      (s : FlashFs F) (addr size : ℕ)
      → addr + size ≤ length (content s.file)
      → let (t, ret, out) = read_acquired io s addr size in
        (ret ≡ true) × (out ≡ take size (drop addr (content s.file))) × (t.sem ≡ s.sem + 1)
  unfolding read_acquired release_device
  read_lem s addr size within =
      let t = (read_write_init io s).1 in
      let i = init_lem s in
      let f = (io.fs_seek t.file addr).1 in
      let same : content f ≡ content s.file = ok.seek_content t.file addr ∙ i.3 in
      let fits : pos f + size ≤ length (content f) = rw (ok.seek_pos t.file addr, same) within in
      let r = read_loop_lem io content pos ok size f size (omega arith) fits in
      rw (i.0, ok.seeks t.file addr)
        (r.0, rw (ok.seek_pos t.file addr, same) at r.1, ap (λ (n : ℕ). n + 1) i.1)

  holds→read :
      (s t : FlashFs F) (addr : ℕ) (src : List ℕ)
      → IsWritten s t addr src
      → addr + length src ≤ length (content s.file)
      → take (length src) (drop addr (content t.file)) ≡ src
  holds→read s t addr src w within =
      let c = content t.file in
      let size : length (take (length src) (drop addr c)) ≡ length src =
        omega (arith, length-take (length src) (drop addr c), length-drop addr c, w.long, within) in
      get_or_ext 0 (take (length src) (drop addr c)) src size (λ i lt.
        let less : i < length src = omega (arith, lt, size) in
        let back : addr + i - addr ≡ i = omega arith in
        get_or-take (length src) (drop addr c) i 0 less
        ∙ (get_or-drop addr c i 0 ∙ ground (arith, w.holds (addr + i), back, less)))

  -- On a free or counted device, over a file at least as long as the flash whose open, seek, read and
  -- write never fail: a write within the flash succeeds, a read of the same range then gives the
  -- written bytes back, whatever short writes and reads the file makes; no other byte of the file has
  -- changed, and both calls give the semaphore's count back.
  pub write_read :
      (s : FlashFs F) (addr : ℕ) (src : List ℕ)
      → 0 < s.sem
      → addr + length src ≤ s.flash_size
      → s.flash_size < 2 ^ 32
      → s.flash_size ≤ length (content s.file)
      → (t : FlashFs F) × (u : FlashFs F) × (flash_fs_write io s addr src ≡ some (t, true))
        × (flash_fs_read io t addr (length src) ≡ some (u, true, src))
        × ((t.sem ≡ s.sem) × (u.sem ≡ s.sem))
        × ((i : ℕ)
            → (i < addr) ⊎ (addr + length src ≤ i)
            → get_or (content t.file) i 0 ≡ get_or (content s.file) i 0)
  write_read s addr src free inside word backed =
      let taken = record s { sem = s.sem - 1 } in
      let within : addr + length src ≤ length (content s.file) = omega (arith, inside, backed) in
      let t = (write_acquired io taken addr src).0 in
      let w = write_lem taken addr src within in
      let count : t.sem ≡ s.sem = omega (arith, free, w.1.counted) in
      let again = record t { sem = t.sem - 1 } in
      let r = read_lem again addr (length src) (rw w.1.long within) in
      let back = holds→read taken t addr src w.1 within in
      let u = (read_acquired io again addr (length src)).0 in
      let count' : u.sem ≡ s.sem = omega (arith, count, free, r.2) in
      let fine : ltb s.flash_size (u32 (addr + length src)) ≡ false =
        ground (arith, inside, word) in
      let fine' : ltb t.flash_size (u32 (addr + length src)) ≡ false = rw w.1.sized fine in
      let wrote : flash_fs_write io s addr src ≡ some (t, true) =
        accepted_write io s addr free src fine ∙ ap (λ (b : Bool). some (t, b)) w.0 in
      let read : flash_fs_read io t addr (length src) ≡ some (u, true, src) =
        accepted_read io t addr (rw count free) (length src) fine'
        ∙ ap₂ (λ (b : Bool) (out : List ℕ). some (u, b, out)) r.0 (r.1 ∙ back) in
      (t, u, wrote, read, (count, count'), λ i far. ground (arith, far, w.1.holds i))
