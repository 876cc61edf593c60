-- ===== src/Laser/Registers.antt =====
-- The registers of the laser controller: reads after writes, and what the flash holds.
use zephyr_app.Common.{
  ==_iff, Bool, Bool-cases, List, [], ap, arith, false, get_or, if_both, if◌then◌else◌, inl, inr,
  leb, length, length-set, not, refl, set, some, sym, true, ℕ, ◌<◌, ◌==◌, ◌||◌, ◌∙◌, ◌∷◌, ◌≡◌,
}
use zephyr_app.Laser.Cob
use zephyr_app.Modbus.Coils.{get_or-set}
use zephyr_app.Laser.{
  Laser, Parts, cob_id2, cob_msg, laser_flash_read, laser_flash_write, laser_regs_count,
  register_of,
}

module _ {S : Type 0} (io : Parts S) where
  -- Writes are let through.
  abbrev pub IsWritable : Laser S → Type 0
  IsWritable l = (l.write_mode ≡ true) × (l.fw_updating ≡ false) × (l.inited ≡ true)

  -- The registers after an attempt to write one, whether or not the flash took it.
  abbrev pub IsWritten : Laser S → ℕ → ℕ → Laser S → Type 0
  IsWritten l a v t =
      IsWritable t
      × (length t.laser_regs ≡ laser_regs_count)
      × ((j : ℕ) → get_or t.laser_regs j 0 ≡ (if a == j then v else get_or l.laser_regs j 0))

  set-IsWritten :
      (l : Laser S) (a v : ℕ) (parts : S)
      → IsWritable l
      → length l.laser_regs ≡ laser_regs_count
      → a < laser_regs_count
      → IsWritten l a v (record l { laser_regs = set l.laser_regs a v; parts = parts })
  set-IsWritten l a v parts w size h = (
    w,
    length-set l.laser_regs a v ∙ size,
    λ j. get_or-set l.laser_regs a j v (omega (arith, h, size)),
  )

  kept_value :
      (regs : List ℕ) (a v j : ℕ)
      → (get_or regs a 0 == v) ≡ true
      → get_or regs j 0 ≡ (if a == j then v else get_or regs j 0)
  kept_value regs a v j e = elim (Bool-cases (a == j)) [
    | inl g ↦
        let same : a ≡ j = (==_iff a j).0 g in
        rw g (ap (λ k. get_or regs k 0) (sym same) ∙ (==_iff _ v).0 e)
    | inr g ↦ rw g refl
  ]

  pub laser_flash_write-IsWritten :
      (l : Laser S) (a v : ℕ)
      → IsWritable l
      → length l.laser_regs ≡ laser_regs_count
      → a < laser_regs_count
      → IsWritten l a v (laser_flash_write io l a v).0
  unfolding laser_flash_write
  laser_flash_write-IsWritten l a v w size h =
      let erased = (io.area_flatten l.parts).0 in
      let written = (io.area_write erased (set l.laser_regs a v)).0 in
      let Good = λ (out : Laser S × Bool). IsWritten l a v out.0 in
      if_both Good (not l.write_mode || l.fw_updating) _ _ (λ e. absurd (ground (arith, e, w)))
        (λ e.
          if_both Good (leb laser_regs_count a) _ _ (λ e. absurd (ground (arith, e, h)))
            (λ e.
              if_both Good (get_or l.laser_regs a 0 == v) _ _
                (λ e. (w, size, λ j. kept_value l.laser_regs a v j e))
                (λ e.
                  if_both Good (not (io.area_flatten l.parts).1) _ _
                    (λ e. set-IsWritten l a v erased w size h)
                    (λ e. set-IsWritten l a v written w size h))))

  laser_flash_write_same :
      (l : Laser S) (a v : ℕ)
      → IsWritable l
      → a < laser_regs_count
      → get_or l.laser_regs a 0 ≡ v
      → laser_flash_write io l a v ≡ (l, true)
  unfolding laser_flash_write
  laser_flash_write_same l a v w h e =
      let free : (not l.write_mode || l.fw_updating) ≡ false = ground (arith, w) in
      let inside : leb laser_regs_count a ≡ false = ground (arith, h) in
      let same : (get_or l.laser_regs a 0 == v) ≡ true = (==_iff _ v).1 e in
      rw (free, inside, same) refl

  -- Writing a value twice in write mode: the second attempt reports success and does nothing, even
  -- where the first reported that the flash did not take the value.
  pub laser_flash_write_twice :
      (l : Laser S) (a v : ℕ)
      → IsWritable l
      → length l.laser_regs ≡ laser_regs_count
      → a < laser_regs_count
      → let t = (laser_flash_write io l a v).0 in laser_flash_write io t a v ≡ (t, true)
  laser_flash_write_twice l a v w size h =
      let (writable, long, reads) = laser_flash_write-IsWritten l a v w size h in
      let self : (a == a) ≡ true = ground arith in
      let one : (if a == a then v else get_or l.laser_regs a 0) ≡ v = rw self refl in
      laser_flash_write_same _ a v writable h (reads a ∙ one)

  laser_flash_read_lem :
      (l : Laser S) (a : ℕ)
      → l.inited ≡ true
      → a < laser_regs_count
      → laser_flash_read io l a ≡ some (get_or l.laser_regs a 0)
  unfolding laser_flash_read
  laser_flash_read_lem l a i h =
      let ready : not l.inited ≡ false = ground (arith, i) in
      let inside : leb laser_regs_count a ≡ false = ground (arith, h) in rw (ready, inside) refl

  -- Once the registers are loaded, a write command in write mode, outside a firmware update, and then
  -- a read command, of any two registers within the array: the read answers
  -- with the written value where the registers are the same, and with the old one otherwise.
  pub read_after_write :
      (l : Laser S) (low tens other_low other_tens v stale w x : ℕ)
      → IsWritable l
      → length l.laser_regs ≡ laser_regs_count
      → register_of low tens < laser_regs_count
      → register_of other_low other_tens < laser_regs_count
      → let a = register_of low tens in
        let b = register_of other_low other_tens in
        let t = (cob_id2 io l 0x22 low tens v stale).0 in
        cob_id2 io t 0x40 other_low other_tens w x
        ≡ (t, cob_msg 1 (if a == b then v else get_or l.laser_regs b 0) Cob.cob_id2_tx ∷ [])
  unfolding cob_id2
  read_after_write l low tens other_low other_tens v stale w x ok size h g =
      let a = register_of low tens in
      let b = register_of other_low other_tens in
      let (writable, long, reads) = laser_flash_write-IsWritten l a v ok size h in
      let found = laser_flash_read_lem (laser_flash_write io l a v).0 b writable.2 g in
      rw (found, reads b) refl

  -- What the flash takes it gives back.
  pub record Stores : Type 0 where
    pub read_write :
        (s : S) (regs : List ℕ)
        → (io.area_write s regs).1 ≡ true
        → io.area_read (io.area_write s regs).0 ≡ some regs

  -- A write that reports success leaves the registers in the flash, where they were in it before: the
  -- next start reads them.
  pub laser_flash_write_saves :
      (l : Laser S) (a v : ℕ)
      → Stores
      → io.area_read l.parts ≡ some l.laser_regs
      → (laser_flash_write io l a v).1 ≡ true
      → let t = (laser_flash_write io l a v).0 in io.area_read t.parts ≡ some t.laser_regs
  unfolding laser_flash_write
  laser_flash_write_saves l a v io_stores saved =
      let Saved =
        λ (out : Laser S × Bool). out.1 ≡ true → io.area_read out.0.parts ≡ some out.0.laser_regs in
      if_both Saved (not l.write_mode || l.fw_updating) _ _ (λ e f. saved)
        (λ e.
          if_both Saved (leb laser_regs_count a) _ _ (λ e f. saved)
            (λ e.
              if_both Saved (get_or l.laser_regs a 0 == v) _ _ (λ e f. saved)
                (λ e.
                  if_both Saved (not (io.area_flatten l.parts).1) _ _ (λ e f. cc)
                    (λ e f. io_stores.read_write _ _ f))))
