-- ===== src/CanFw/Version.antt =====
-- The version text in frames of 7 bytes.
use zephyr_app.Common.{
  Bool-cases, List, [], ap, append-nil, arith, drop, false, get_or, if◌then◌else◌, inl, inr, length,
  length-append, length-drop, length-replicate, length-take, ltb, refl, replicate, suc, sym, take,
  take-append_left, take-append_right, take_all, take_split, u8, zero, ℕ, ◌++◌, ◌+◌, ◌-◌, ◌/◌, ◌==◌,
  ◌∙◌, ◌∷◌, ◌≡◌, ◌≤◌,
}
use zephyr_app.Zephyr.{Dlc}
use zephyr_app.CanFw.{
  Action, boot_request_upgrade, call, can_fw_version_tx, fw_can_send_version_string, send,
  sys_reboot, version_loop,
}

-- What the host collects: the bytes behind the sequence number of each frame.
pub version_text : List Action → List ℕ
version_text [] = []
version_text (send f ∷ rest) = drop 1 f.bytes ++ version_text rest
version_text (boot_request_upgrade p ∷ rest) = version_text rest
version_text (sys_reboot ∷ rest) = version_text rest
version_text (call h ∷ rest) = version_text rest

-- Frames 0x105 of 8 bytes, numbered from `seq` on.
abbrev pub IsVersionRun : ℕ → List Action → Type 0
IsVersionRun seq [] = Unit
IsVersionRun seq (send f ∷ rest) =
    (f.id ≡ can_fw_version_tx)
    × (length f.bytes ≡ 8)
    × (get_or f.bytes 0 0 ≡ u8 seq)
    × IsVersionRun (seq + 1) rest
IsVersionRun seq (boot_request_upgrade p ∷ rest) = ⊥
IsVersionRun seq (sys_reboot ∷ rest) = ⊥
IsVersionRun seq (call h ∷ rest) = ⊥

take-zero : (left : ℕ) (text : List ℕ) → left ≡ 0 → take left [] ≡ take left text
take-zero zero text e = refl
take-zero (suc left) text e = absurd (omega arith)

module _ (dlc : Dlc) where
  version_loop-zero : (fuel : ℕ) (text : List ℕ) (seq : ℕ) → version_loop dlc fuel text 0 seq ≡ []
  unfolding version_loop
  version_loop-zero zero text seq = refl
  version_loop-zero (suc fuel) text seq = refl

  version_loop-text :
      (fuel : ℕ) (text : List ℕ) (left seq : ℕ)
      → left ≤ fuel
      → left ≤ length text
      → take left (version_text (version_loop dlc fuel text left seq)) ≡ take left text
  unfolding version_loop version_text
  version_loop-text zero text left seq p q = take-zero left text (omega arith)
  version_loop-text (suc fuel) text zero seq p q = refl
  version_loop-text (suc fuel) text (suc k) seq p q =
      let left = suc k in
      let more : (left == 0) ≡ false = ground arith in
      let head = take 7 text in
      let tail = version_text (version_loop dlc fuel (drop 7 text) (left - 7) (seq + 1)) in
      elim (Bool-cases (ltb 7 left)) [
        | inl e ↦
            let seven : length head ≡ 7 = ground (arith, length-take 7 text) in
            rw (more, e, append-nil, take-append_right left head tail (ground arith), seven)
              (rw
                (version_loop-text fuel (drop 7 text) (left - 7) (seq + 1) (omega arith)
                  (omega (arith, length-drop 7 text)))
                (sym (take_split 7 left text (ground arith))))
        | inr e ↦
            let none_left : left - 7 ≡ 0 = ground arith in
            rw (more, e)
              (rw (none_left, version_loop-zero fuel, append-nil)
                (take-append_left left (take left text) _ (omega (arith, length-take left text))))
      ]

  version_loop-IsVersionRun :
      (fuel : ℕ) (text : List ℕ) (left seq : ℕ)
      → left ≤ fuel
      → left ≤ length text
      → IsVersionRun seq (version_loop dlc fuel text left seq)
        × (length (version_loop dlc fuel text left seq) ≡ (left + 6) / 7)
  unfolding version_loop
  version_loop-IsVersionRun zero text left seq p q = (tt, omega arith)
  version_loop-IsVersionRun (suc fuel) text left seq p q =
      let chunk = if ltb 7 left then 7 else left in
      let bytes = take chunk text ++ replicate (7 - chunk) 0 in
      let eight : left ≤ length text → length bytes ≡ 7 = λ h. ground (
        arith,
        length-append (take chunk text) (replicate (7 - chunk) 0),
        length-take chunk text,
        length-replicate {A = ℕ} (7 - chunk) 0,
      ) in
      elim (Bool-cases (left == 0)) [
        | inl e ↦ rw e (tt, ground arith)
        | inr e ↦
            let (run, count) =
              version_loop-IsVersionRun fuel (drop 7 text) (left - 7) (seq + 1) (omega arith)
                (omega (arith, length-drop 7 text)) in
            rw e ((refl, ap suc (eight q), refl, run), ground (arith, count))
      ]

  -- The frames of a version text: 8 bytes each, with id 0x105, numbered from
  -- 0, one for every 7 bytes begun; their bytes behind the number begin with the text.
  pub version_frames :
      (ver : List ℕ)
      → let frames = fw_can_send_version_string dlc ver (length ver) in
        IsVersionRun 0 frames
        × (length frames ≡ (length ver + 6) / 7)
        × (take (length ver) (version_text frames) ≡ ver)
  unfolding fw_can_send_version_string
  version_frames ver =
      let (run, count) =
        version_loop-IsVersionRun (length ver) ver (length ver) 0 (omega arith) (omega arith) in
      (
        run,
        count,
        version_loop-text (length ver) ver (length ver) 0 (omega arith) (omega arith)
            ∙ take_all (length ver) ver (omega arith),
      )
