-- ===== src/UdpFw/Crc.antt =====
-- The checksum of the image, read back in chunks.
use zephyr_app.Common.{
  Bool-cases, List, [], append-nil, arith, drop, drop-drop, drop_all, inl, inr, length, length-drop,
  ltb, refl, some, suc, take, take-append-drop, take_all, zero, ℕ, ◌++◌, ◌+◌, ◌-◌, ◌==◌, ◌≡◌, ◌≤◌,
}
use zephyr_app.Zephyr.{Slot}
use zephyr_app.UdpFw.{Env, crc_loop, fw_verify_crc}

-- What the check relies on at a state `x` of slot 1: the area opens, the image writer counts the
-- bytes of `img`, and reads within them give them; and Zephyr's checksum of a text is that of its
-- end, seeded with that of its beginning.
pub record Readable {S : Type 0} (io : Slot S) (env : Env) (x : S) (img : List ℕ) : Type 0 where
  pub opens : io.area_open x ≡ 0
  pub counted : io.bytes_written x ≡ length img
  pub reads :
      (off len : ℕ)
      → off + len ≤ length img
      → io.area_read x off len ≡ some (take len (drop off img))
  pub crc_nil : (c : ℕ) → env.crc16 c [] ≡ c
  pub crc_append : (c : ℕ) (a b : List ℕ) → env.crc16 (env.crc16 c a) b ≡ env.crc16 c (a ++ b)

module _ {S : Type 0} (io : Slot S) (env : Env) (x : S) (img : List ℕ)
    (readable : Readable io env x img) where
  crc_loop_lem :
      (fuel : ℕ) (off c : ℕ)
      → length img ≤ off + fuel
      → crc_loop io env fuel x off (length img) c ≡ some (env.crc16 c (drop off img))
  unfolding crc_loop
  crc_loop_lem zero off c h = rw (drop_all off img (omega arith), readable.crc_nil) refl
  crc_loop_lem (suc fuel) off c h = elim (Bool-cases (ltb off (length img))) [
    | inr e ↦ rw (e, drop_all off img (ground arith), readable.crc_nil)
    | inl e ↦ elim (Bool-cases (ltb (length img - off) 64)) [
      | inl short ↦
          let rest : drop (off + 64) img ≡ [] = drop_all (off + 64) img (ground arith) in
          let all : take (length img - off) (drop off img) ≡ drop off img =
            take_all (length img - off) (drop off img) (omega (arith, length-drop off img)) in
          rw (e, short, readable.reads off (length img - off) (ground arith))
            (rw
              (crc_loop_lem fuel (off + 64) (env.crc16 c (take (length img - off) (drop off img)))
                (ground arith))
              (rw (readable.crc_append, rest, append-nil, all)))
      | inr long ↦
          let rest : take 64 (drop off img) ++ drop (off + 64) img ≡ drop off img =
            rw (← drop-drop 64 off img) (take-append-drop 64 (drop off img)) in
          rw (e, long, readable.reads off 64 (ground arith))
            (rw (crc_loop_lem fuel (off + 64) (env.crc16 c (take 64 (drop off img))) (ground arith))
              (rw (readable.crc_append, rest)))
    ]
  ]

  -- `fw_verify_crc` accepts exactly when the checksum of the whole content of slot 1, in one piece,
  -- is the received one: the chunks of 64 bytes miss and repeat nothing.
  pub fw_verify_crc_lem :
      (recv_crc : ℕ) → fw_verify_crc io env x recv_crc ≡ (env.crc16 0 img == recv_crc)
  unfolding fw_verify_crc
  fw_verify_crc_lem recv_crc =
      let whole = crc_loop_lem (length img) 0 0 (omega arith) in
      rw (readable.opens, readable.counted, whole)
