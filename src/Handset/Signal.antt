-- ===== src/Handset/Signal.antt =====
-- The signal level of applications/mod_handler/src/rf24.c.
use zephyr_app.Common.{
  Bool, List, Option, [], ap, arith, false, if_both, if◌then◌else◌, leb, none, not, refl, some, sym,
  true, ℕ, ◌*◌, ◌+◌, ◌-◌, ◌/◌, ◌<◌, ◌==◌, ◌∙◌, ◌∷◌, ◌≡◌, ◌≤◌,
}

-- `rf24_quality` and `global_params.rssi`.
pub record Signal : Type 0 where
  pub rf24_quality : ℕ
  pub rssi : ℕ

abbrev pub rf24_qual_alpha_num : ℕ
rf24_qual_alpha_num = 1

abbrev pub rf24_qual_alpha_den : ℕ
rf24_qual_alpha_den = 8

abbrev pub rf24_qual_fail_drop : ℕ
rf24_qual_fail_drop = 2 * rf24_qual_alpha_den

abbrev pub rf24_qual_init : ℕ
rf24_qual_init = 4 * rf24_qual_alpha_den

pub rf24_tx_level : Bool → ℕ → ℕ
rf24_tx_level acked retrans =
    if not acked
    then 0
    else if leb retrans 1
    then 4
    else if leb retrans 4
    then 3
    else if leb retrans 9
    then 2
    else 1

-- the level shown for a quality
pub shown_level : ℕ → ℕ
shown_level q =
    if leb 28 q then 4 else if leb 20 q then 3 else if leb 12 q then 2 else if leb 4 q then 1 else 0

-- The subtraction stops at 0, which is what the code makes of a negative value.
pub next_quality : ℕ → Bool → ℕ → ℕ
next_quality q acked retrans =
    let lv = rf24_tx_level acked retrans in
    let mixed =
      (lv * rf24_qual_alpha_den * rf24_qual_alpha_num
        + q * (rf24_qual_alpha_den - rf24_qual_alpha_num))
      / rf24_qual_alpha_den in
    if not acked then mixed - rf24_qual_fail_drop else mixed

-- The second result is what goes to the display, if anything.
pub rf24_update_rssi : Signal → Bool → ℕ → Signal × Option ℕ
rf24_update_rssi s acked retrans =
    let q = next_quality s.rf24_quality acked retrans in
    let level = shown_level q in
    if s.rssi == level
    then (record s { rf24_quality = q }, none)
    else (record s { rf24_quality = q; rssi = level }, some level)

-- The results of a sequence of transmissions, as `acked` and `retransmits`.
pub record Report : Type 0 where
  pub acked : Bool
  pub retransmits : ℕ

abbrev pub after : Signal → List Report → Signal
after s [] = s
after s (x ∷ xs) = after (rf24_update_rssi s x.acked x.retransmits).0 xs

rf24_tx_level_le : (acked : Bool) (retrans : ℕ) → rf24_tx_level acked retrans ≤ 4
unfolding rf24_tx_level
rf24_tx_level_le acked retrans = ground arith

-- Nothing lifts the quality above 25 once it is below.
next_quality_le :
    (q : ℕ) (acked : Bool) (retrans : ℕ) (top : ℕ)
    → q ≤ top
    → 25 ≤ top
    → top ≤ 32
    → next_quality q acked retrans ≤ top
unfolding next_quality
next_quality_le q false retrans top h lo hi = omega (arith, rf24_tx_level_le false retrans)
next_quality_le q true retrans top h lo hi = omega (arith, rf24_tx_level_le true retrans)

-- The level is the quality's.
abbrev pub IsShown : ℕ → Signal → Type 0
IsShown top s = (s.rf24_quality ≤ top) × (s.rssi ≡ shown_level s.rf24_quality)

rf24_update_rssi_lem :
    (s : Signal) (acked : Bool) (retrans : ℕ)
    → let q = next_quality s.rf24_quality acked retrans in
      let t = (rf24_update_rssi s acked retrans).0 in
      (t.rf24_quality ≡ q) × (t.rssi ≡ shown_level q)
unfolding rf24_update_rssi
rf24_update_rssi_lem s acked retrans =
    let q = next_quality s.rf24_quality acked retrans in
    if_both (λ (out : Signal × Option ℕ). (out.0.rf24_quality ≡ q) × (out.0.rssi ≡ shown_level q))
      (s.rssi == shown_level q) _ _ (λ e. (refl, ground (arith, e))) (λ e. (refl, refl))

rf24_update_rssi-IsShown :
    (s : Signal) (acked : Bool) (retrans top : ℕ)
    → s.rf24_quality ≤ top
    → 25 ≤ top
    → top ≤ 32
    → IsShown top (rf24_update_rssi s acked retrans).0
rf24_update_rssi-IsShown s acked retrans top h lo hi =
    let (quality, level) = rf24_update_rssi_lem s acked retrans in
    (
      omega (arith, quality, next_quality_le s.rf24_quality acked retrans top h lo hi),
      level ∙ ap shown_level (sym quality),
    )

after-IsShown :
    (xs : List Report) (s : Signal) (top : ℕ)
    → IsShown top s
    → 25 ≤ top
    → top ≤ 32
    → IsShown top (after s xs)
after-IsShown [] s top h lo hi = h
after-IsShown (x ∷ xs) s top h lo hi =
    after-IsShown xs _ top (rf24_update_rssi-IsShown s x.acked x.retransmits top h.0 lo hi) lo hi

shown_level_le : (q : ℕ) → (shown_level q ≤ 4) × (q < 28 → shown_level q ≤ 3)
unfolding shown_level
shown_level_le q = (ground arith, λ h. ground (arith, h))

-- From a quality of at most 32, as `rf24_init` sets it, the quality stays at most 32 through every
-- sequence of results, and after at least one of them the level is the quality's and at most 4.
pub rssi_bounds :
    (s : Signal) (x : Report) (xs : List Report)
    → s.rf24_quality ≤ 32
    → let t = after s (x ∷ xs) in
      (t.rf24_quality ≤ 32) × (t.rssi ≡ shown_level t.rf24_quality) × (t.rssi ≤ 4)
rssi_bounds s x xs h =
    let first = rf24_update_rssi-IsShown s x.acked x.retransmits 32 h (omega arith) (omega arith) in
    let (quality, level) = after-IsShown xs _ 32 first (omega arith) (omega arith) in
    (quality, level, omega (arith, level, (shown_level_le (after s (x ∷ xs)).rf24_quality).0))

-- Once the quality is below 28, no sequence of results brings the full level back, not even
-- transmissions that all succeed at the first attempt.
pub full_level_lost :
    (s : Signal) (x : Report) (xs : List Report) → s.rf24_quality < 28 → (after s (x ∷ xs)).rssi ≤ 3
full_level_lost s x xs h =
    let first =
      rf24_update_rssi-IsShown s x.acked x.retransmits 27 (omega (arith, h)) (omega arith)
        (omega arith) in
    let (quality, level) = after-IsShown xs _ 27 first (omega arith) (omega arith) in
    omega
      (arith, level, (shown_level_le (after s (x ∷ xs)).rf24_quality).1 (omega (arith, quality)))

next_quality_failed : (q n : ℕ) → next_quality q false n ≡ q * 7 / 8 - 16
unfolding next_quality rf24_tx_level
next_quality_failed q n = omega arith

abbrev pub failure : ℕ → Report
failure n = record { acked = false; retransmits = n }

-- Two failures on end bring every quality of at most 32 down to 0, and the level with it.
pub two_failures :
    (s : Signal) (m n : ℕ)
    → s.rf24_quality ≤ 32
    → let t = after s (failure m ∷ failure n ∷ []) in (t.rf24_quality ≡ 0) × (t.rssi ≡ 0)
unfolding shown_level
two_failures s m n h =
    let u = (rf24_update_rssi s false m).0 in
    let (first, l) = rf24_update_rssi_lem s false m in
    let (second, level) = rf24_update_rssi_lem u false n in
    let once = next_quality_failed s.rf24_quality m in
    let twice = next_quality_failed u.rf24_quality n in
    let zero_quality : next_quality u.rf24_quality false n ≡ 0 =
      omega (arith, h, first, once, twice) in
    (second ∙ zero_quality, level ∙ ap shown_level zero_quality)
