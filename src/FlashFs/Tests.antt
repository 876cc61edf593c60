-- ===== src/FlashFs/Tests.antt =====
-- Runs on a file in memory whose writes and reads go one byte at a time.
use zephyr_app.Common.{
  Bool-cases, List, [], arith, drop, false, get_or, if◌then◌else◌, inl, inr, leb, length,
  length-set, ltb, refl, replicate, set, some, suc, take, true, zero, ℕ, ◌&&◌, ◌+◌, ◌-◌, ◌<◌, ◌∙◌,
  ◌∷◌, ◌≡◌, ◌≤◌, ◌⊎◌,
}
use zephyr_app.FlashFs.{BackingFile, FlashFs, acquire_device, flash_fs_read, flash_fs_write}
use zephyr_app.FlashFs.Loops.{Stores}
use zephyr_app.FlashFs.Device.{range_error_releases, write_read}

-- the content and the position
abbrev Memory : Type 0
Memory = List ℕ × ℕ

abbrev first_byte : List ℕ → ℕ
first_byte d = get_or d 0 0

abbrev slow : BackingFile Memory
slow = record {
  fs_open = λ f. (true, f);
  fs_seek = λ f p. (true, (f.0, p));
  fs_read = λ f n. (some (take 1 (drop f.1 f.0)), (f.0, f.1 + 1));
  fs_write = λ f d. (some 1, (set f.0 f.1 (first_byte d), f.1 + 1));
}

get_or-set :
    (xs : List ℕ) (p i v : ℕ)
    → p + 1 ≤ length xs
    → get_or (set xs p v) i 0 ≡ (if leb p i && ltb i (p + 1) then v else get_or xs i 0)
get_or-set [] p i v h = absurd (omega arith)
get_or-set (x ∷ xs) zero zero v h = refl
get_or-set (x ∷ xs) zero (suc i) v h = ground arith
get_or-set (x ∷ xs) (suc p) zero v h = ground arith
get_or-set (x ∷ xs) (suc p) (suc i) v h = ground (arith, get_or-set xs p i v (omega arith))

first_of :
    (d : List ℕ) (p i old : ℕ)
    → 0 < length d
    → (if leb p i && ltb i (p + 1) then get_or d 0 0 else old)
      ≡ (if leb p i && ltb i (p + 1) then get_or d (i - p) 0 else old)
first_of d p i old h = elim (Bool-cases (leb p i && ltb i (p + 1))) [
  | inl here ↦ let e : i - p ≡ 0 = ground (arith, here) in rw (here, e) refl
  | inr far ↦ rw far refl
]

slow-Stores : Stores slow (λ f. f.0) (λ f. f.1)
slow-Stores = record {
  opens = λ f. refl;
  open_content = λ f. refl;
  seeks = λ f p. refl;
  seek_pos = λ f p. refl;
  seek_content = λ f p. refl;
  taken = λ f n. 1;
  takes = λ f n h. (omega arith, h);
  writes = λ f d h. refl;
  write_pos = λ f d. refl;
  write_length = λ f d. length-set f.0 f.1 (first_byte d);
  write_content = λ f d more within i.
      get_or-set f.0 f.1 i (first_byte d) (omega (arith, more, within))
      ∙ first_of d f.1 i (get_or f.0 i 0) more;
  reads = λ f n h. refl;
  read_pos = λ f n. refl;
  read_content = λ f n. refl;
}

abbrev eight : FlashFs Memory
eight = record { flash_size = 8; sem = 1; file = (replicate 8 255, 0); is_open = false }

range_error_releases_example :
    (flash_fs_read slow eight 5 4 ≡ some (record eight { sem = 2 }, false, []))
    × (flash_fs_write slow eight 7 (1 ∷ 2 ∷ []) ≡ some (record eight { sem = 2 }, false))
    × (acquire_device (record eight { sem = 2 }) ≡ some (record eight { sem = 1 }))
    × (acquire_device (record eight { sem = 1 }) ≡ some (record eight { sem = 0 }))
range_error_releases_example =
    range_error_releases slow eight 5 4 7 (1 ∷ 2 ∷ []) refl (omega arith) (omega arith)

write_read_example :
    (t : FlashFs Memory) × (u : FlashFs Memory) × (flash_fs_write slow eight 2 (7 ∷ 8 ∷ 9 ∷ [])
      ≡ some (t, true))
    × (flash_fs_read slow t 2 3 ≡ some (u, true, 7 ∷ 8 ∷ 9 ∷ []))
    × ((t.sem ≡ 1) × (u.sem ≡ 1))
    × ((i : ℕ) → (i < 2) ⊎ (5 ≤ i) → get_or t.file.0 i 0 ≡ get_or (replicate 8 255) i 0)
write_read_example =
    write_read slow (λ f. f.0) (λ f. f.1) slow-Stores eight 2 (7 ∷ 8 ∷ 9 ∷ []) (omega arith)
      (omega arith) (omega arith) (omega arith)
