-- ===== src/Radio/Backoff.antt =====
-- How often a frame is sent, and how long the sender pauses.
use zephyr_app.Common.{
  Bool, Bool-cases, List, [], arith, false, inl, inr, length, not, refl, suc, take, true, zero, ℕ,
  ◌%◌, ◌&&◌, ◌+◌, ◌<◌, ◌==◌, ◌^◌, ◌||◌, ◌∷◌, ◌≡◌, ◌≤◌,
}
use zephyr_app.Crypt.{Crypt}
use zephyr_app.Radio.{Radio, Tx, backoff, gw_rf24_send, seal_packet, send_loop}

-- Pauses from attempt `attempt` on: each is at least 1 ms and at most 2 ^ (attempt + 1) + 1 ms.
abbrev pub IsBackoff : ℕ → List ℕ → Type 0
IsBackoff attempt [] = Unit
IsBackoff attempt (p ∷ ps) = (1 ≤ p) × (p ≤ 2 ^ (attempt + 1) + 1) × IsBackoff (suc attempt) ps

abbrev pub sum : List ℕ → ℕ
sum [] = 0
sum (p ∷ ps) = p + sum ps

backoff_bounds :
    (attempt now : ℕ) → (1 ≤ backoff attempt now) × (backoff attempt now ≤ 2 ^ (attempt + 1) + 1)
unfolding backoff
backoff_bounds attempt now =
    let below : now % (2 ^ (attempt + 1) + 1) < 2 ^ (attempt + 1) + 1 = omega arith in
    (omega arith, omega (arith, below))

module _ {S : Type 0} (radio : Radio S) where
  -- What `left + 1` transmissions would report, each after the pause that follows the one before.
  pub reports : ℕ → ℕ → S → List ℕ → List Tx
  reports zero attempt s frame = (radio.nrf24_send s frame).1 ∷ []
  reports (suc left) attempt s frame =
      let (t, result) = radio.nrf24_send s frame in
      result ∷ reports left (suc attempt) (radio.msleep t (backoff attempt (radio.uptime t))) frame

  abbrev pub any_acked : List Tx → Bool
  any_acked [] = false
  any_acked (x ∷ xs) = x.ret == 0 || any_acked xs

  send_loop-any :
      (left attempt : ℕ) (s : S) (frame : List ℕ)
      → ((send_loop radio left attempt s frame).1.ret == 0)
        ≡ any_acked (reports left attempt s frame)
  unfolding send_loop reports
  send_loop-any zero attempt s frame = ground arith
  send_loop-any (suc left) attempt s frame =
      let (t, result) = radio.nrf24_send s frame in
      let u = radio.msleep t (backoff attempt (radio.uptime t)) in
      let ih = send_loop-any left (suc attempt) u frame in
      elim (Bool-cases (result.ret == 0)) [ inl e ↦ rw e e | inr e ↦ rw e ih ]

  send_loop-IsBackoff :
      (left attempt : ℕ) (s : S) (frame : List ℕ)
      → let pauses = (send_loop radio left attempt s frame).2 in
        IsBackoff attempt pauses × (length pauses ≤ left)
  unfolding send_loop
  send_loop-IsBackoff zero attempt s frame = (tt, omega arith)
  send_loop-IsBackoff (suc left) attempt s frame =
      let (t, result) = radio.nrf24_send s frame in
      let (ok, short) =
        send_loop-IsBackoff left (suc attempt) (radio.msleep t (backoff attempt (radio.uptime t)))
          frame in
      let (lo, hi) = backoff_bounds attempt (radio.uptime t) in
      elim (Bool-cases (result.ret == 0)) [
        | inl e ↦ rw e (tt, omega arith)
        | inr e ↦ rw e ((lo, hi, ok), omega (arith, short))
      ]

-- at most five pauses make 3 + 5 + 9 + 17 + 33 ms
sum-IsBackoff : (ps : List ℕ) → length ps ≤ 5 → IsBackoff 0 ps → sum ps ≤ 67
sum-IsBackoff [] h b = omega arith
sum-IsBackoff (p ∷ []) h b = omega (arith, b)
sum-IsBackoff (p ∷ q ∷ []) h b = omega (arith, b)
sum-IsBackoff (p ∷ q ∷ r ∷ []) h b = omega (arith, b)
sum-IsBackoff (p ∷ q ∷ r ∷ s ∷ []) h b = omega (arith, b)
sum-IsBackoff (p ∷ q ∷ r ∷ s ∷ t ∷ []) h b = omega (arith, b)
sum-IsBackoff (p ∷ q ∷ r ∷ s ∷ t ∷ u ∷ ps) h b = absurd (omega (arith, h))

-- `gw_rf24_send` pauses at most five times and 67 ms in all; the pause after attempt n is from 1 to
-- 2 ^ (n + 1) + 1 ms. Where the radio is ready and the frame is not refused, it succeeds exactly if
-- one of the six transmissions that it may make does.
pub gw_rf24_send_lem :
    {S : Type 0} (radio : Radio S) (ready : Bool) (c : Crypt) (s : S) (stack : List ℕ) (can_id : ℕ)
    (bytes : List ℕ)
    → let (sealed, buf, frame_len) = seal_packet c stack can_id bytes in
      let (after, t, pauses, ok) = gw_rf24_send radio ready c s stack can_id bytes in
      IsBackoff 0 pauses
      × (length pauses ≤ 5)
      × (sum pauses ≤ 67)
      × (ok ≡ (
          ready
          && (not (frame_len == 0) && any_acked radio (reports radio 5 0 s (take frame_len buf)))))
unfolding gw_rf24_send
gw_rf24_send_lem radio false c s stack can_id bytes = (tt, omega arith, omega arith, refl)
gw_rf24_send_lem radio true c s stack can_id bytes =
    let (sealed, buf, frame_len) = seal_packet c stack can_id bytes in
    let (ok, short) = send_loop-IsBackoff radio 5 0 s (take frame_len buf) in
    elim (Bool-cases (frame_len == 0)) [
      | inl z ↦ rw z (tt, omega arith, omega arith, refl)
      | inr z ↦
          rw z (ok, short, sum-IsBackoff _ short ok, send_loop-any radio 5 0 s (take frame_len buf))
    ]
