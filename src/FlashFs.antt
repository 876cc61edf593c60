-- ===== src/FlashFs.antt =====
-- drivers/flash/flashfs.c: a flash device over a file of the file system, built with threads. The
-- file is a parameter; a negative errno is `false` or none. `size_t` has 32 bits.
pub mod Loops
pub mod Device
mod Tests
use zephyr_app.Common.{
  Bool, List, Option, [], drop, false, if◌then◌else◌, length, ltb, none, not, some, suc, true, u32,
  zero, ℕ, ◌++◌, ◌+◌, ◌-◌, ◌==◌,
}

-- The backing file: `fs_open`, `fs_seek` from the start, `fs_read` of at most so many bytes, and
-- `fs_write`, which tells how many bytes it took.
pub record BackingFile (F : Type 0) : Type 0 where
  pub fs_open : F → Bool × F
  pub fs_seek : F → ℕ → Bool × F
  pub fs_read : F → ℕ → Option (List ℕ) × F
  pub fs_write : F → List ℕ → Option ℕ × F

-- `struct flashfs_config`, with the count of its semaphore
pub record FlashFs (F : Type 0) : Type 0 where
  pub flash_size : ℕ
  pub sem : ℕ
  pub file : F
  pub is_open : Bool

-- `acquire_device`: none where the caller waits
pub acquire_device : {F : Type 0} → FlashFs F → Option (FlashFs F)
acquire_device s = if s.sem == 0 then none else some (record s { sem = s.sem - 1 })

pub release_device : {F : Type 0} → FlashFs F → FlashFs F
release_device s = record s { sem = s.sem + 1 }

module _ {F : Type 0} (io : BackingFile F) where
  pub read_write_init : FlashFs F → Bool × FlashFs F
  read_write_init s =
      let (ok, file) = io.fs_open s.file in
      if s.is_open
      then (true, s)
      else if ok
      then (true, record s { file = file; is_open = true })
      else (false, record s { file = file })

  -- The `while` of `flash_fs_read`: the bytes read, and whether all came. Each pass takes a byte at
  -- least, so fuel `len_left` is enough.
  pub read_loop : ℕ → F → ℕ → Bool × List ℕ × F
  read_loop zero file len_left = (true, [], file)
  read_loop (suc fuel) file len_left = elim (len_left == 0) [
    | true ↦ (true, [], file)
    | false ↦
        let (ret, after) = io.fs_read file len_left in
        elim ret [
          | none ↦ (false, [], after)
          | some bytes ↦
              let (ok, more, last) = read_loop fuel after (len_left - length bytes) in
              if length bytes == 0 then (false, [], after) else (ok, bytes ++ more, last)
        ]
  ]

  -- The `while` of `flash_fs_write`, with what is left to write.
  pub write_loop : ℕ → F → List ℕ → Bool × F
  write_loop zero file left = (true, file)
  write_loop (suc fuel) file left = elim (length left == 0) [
    | true ↦ (true, file)
    | false ↦
        let (ret, after) = io.fs_write file left in
        elim ret [
          | none ↦ (false, after)
          | some n ↦
              let rest = write_loop fuel after (drop n left) in
              if n == 0 then (false, after) else rest
        ]
  ]

  read_acquired : FlashFs F → ℕ → ℕ → FlashFs F × Bool × List ℕ
  unfolding read_loop
  read_acquired s addr size =
      let (opened, t) = read_write_init s in
      let (sought, file) = io.fs_seek t.file addr in
      let (ok, bytes, last) = read_loop size file size in
      if not opened
      then (release_device t, false, [])
      else if not sought
      then (release_device (record t { file = file }), false, [])
      else (release_device (record t { file = last }), ok, bytes)

  write_acquired : FlashFs F → ℕ → List ℕ → FlashFs F × Bool
  unfolding write_loop
  write_acquired s addr src =
      let (opened, t) = read_write_init s in
      let (sought, file) = io.fs_seek t.file addr in
      let (ok, last) = write_loop (length src) file src in
      if not opened
      then (release_device t, false)
      else if not sought
      then (release_device (record t { file = file }), false)
      else (release_device (record t { file = last }), ok)

  -- `flash_fs_read`; none where it waits for the device
  pub flash_fs_read : FlashFs F → ℕ → ℕ → Option (FlashFs F × Bool × List ℕ)
  unfolding read_acquired
  flash_fs_read s addr size =
      if ltb s.flash_size (u32 (addr + size))
      then some (release_device s, false, [])
      else elim (acquire_device s) [ none ↦ none | some t ↦ some (read_acquired t addr size) ]

  -- `flash_fs_write` of all of `src`
  pub flash_fs_write : FlashFs F → ℕ → List ℕ → Option (FlashFs F × Bool)
  unfolding write_acquired
  flash_fs_write s addr src =
      if ltb s.flash_size (u32 (addr + length src))
      then some (release_device s, false)
      else elim (acquire_device s) [ none ↦ none | some t ↦ some (write_acquired t addr src) ]
