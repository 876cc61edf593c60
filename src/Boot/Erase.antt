-- ===== src/Boot/Erase.antt =====
-- The erase loop of a start command.
use zephyr_app.Common.{
  arith, false, if◌then◌else◌, leb, refl, some, suc, true, u32, zero, ℕ, ◌*◌, ◌+◌, ◌-◌, ◌/◌, ◌<◌,
  ◌==◌, ◌^◌, ◌≡◌, ◌≤◌,
}
use zephyr_app.Boot.{FlashDev, erase_loop}

-- Every address has a page of `page` bytes, and every erase succeeds.
pub record Pages {S : Type 0} (dev : FlashDev S) (page : ℕ) : Type 0 where
  pub positive : 1 ≤ page
  pub paged : (x : S) (addr : ℕ) → dev.page_info x addr ≡ some (addr / page * page, page)
  pub erases : (x : S) (start size : ℕ) → (dev.erase x start size).0 ≡ 0

module _ {S : Type 0} (dev : FlashDev S) (page : ℕ) (pages : Pages dev page) where
  -- `n` pages erased one after the other, from the page of `addr` on
  unfoldable pub erase_pages : ℕ → S → ℕ → S
  erase_pages zero x addr = x
  erase_pages (suc n) x addr = erase_pages n (dev.erase x (addr / page * page) page).1 (addr + page)

  -- The erase loop goes through, and erases as many pages as `size` bytes need, from the page of
  -- `addr` on, for any enough fuel and as long as no address passes 2 ^ 32.
  pub erase_loop_lem :
      (fuel n : ℕ) (x : S) (addr size : ℕ)
      → size ≤ fuel
      → n * page < size + page
      → size ≤ n * page
      → addr + n * page < 2 ^ 32
      → erase_loop dev fuel x addr size ≡ (true, erase_pages n x addr)
  unfolding erase_loop erase_pages
  erase_loop_lem zero zero x addr size f lo hi fits = refl
  erase_loop_lem zero (suc n) x addr size f lo hi fits = absurd (omega arith)
  erase_loop_lem (suc fuel) zero x addr size f lo hi fits =
      let e : size ≡ 0 = omega arith in rw e refl
  erase_loop_lem (suc fuel) (suc n) x addr size f lo hi fits =
      let start = addr / page * page in
      let more : (size == 0) ≡ false = ground arith in
      let next : u32 (addr + page) ≡ addr + page = omega arith in
      rw (more, erase_loop, pages.paged x addr)
        (rw (pages.erases x start page, next)
          (erase_loop_lem fuel n (dev.erase x start page).1 (addr + page)
            (if leb page size then size - page else 0) (ground (arith, pages.positive))
            (ground arith) (ground arith) (omega arith)))
