-- ===== src/Common/Or.antt =====
-- Inclusive or, where it puts a byte beside another one.
use Prim.Native.Nat.{ℕ, zero, suc, ◌+◌, ◌*◌, ◌/◌, ◌%◌, ◌^◌, ◌≤◌, ◌<◌, max}
use Prim.Native.Nat.{bit_or, digits, bit_or-bitwise}
use mathlib.Core.Path.{◌≡◌, refl, ap}
use native.Mathlib.Nat.{pow-suc}
use native.Mathlib.Omega.{arith}

or_digits : ℕ → ℕ → ℕ → ℕ
or_digits n a b = digits (λ b. b) max n a b

or_digits_stable : (n : ℕ) (a b : ℕ) (m : ℕ) → (a ≤ n) × (a ≤ m) → or_digits n a b ≡ or_digits m a b
unfolding or_digits
or_digits_stable (suc n) (suc a) b (suc m) (p, q) =
    ap (λ (high : ℕ). high * 2 + max (suc a % 2) (b % 2))
      (or_digits_stable n (suc a / 2) (b / 2) m (omega arith, omega arith))
or_digits_stable (suc n) (suc a) b zero (p, q) = absurd (omega arith)
or_digits_stable zero (suc a) b m (p, q) = absurd (omega arith)
or_digits_stable (suc n) zero b zero h = refl
or_digits_stable (suc n) zero b (suc m) h = refl
or_digits_stable zero zero b zero h = refl
or_digits_stable zero zero b (suc m) h = refl

pub bit_or_step : (a b : ℕ) → bit_or a b ≡ bit_or (a / 2) (b / 2) * 2 + max (a % 2) (b % 2)
unfolding or_digits
bit_or_step zero b = omega (arith, bit_or-bitwise zero b, bit_or-bitwise zero (b / 2))
bit_or_step (suc a) b = omega (
  arith,
  bit_or-bitwise (suc a) b,
  bit_or-bitwise (suc a / 2) (b / 2),
  or_digits_stable a (suc a / 2) (b / 2) (suc a / 2) (omega arith, omega arith),
)

or_zero : (n a : ℕ) → a ≤ n → bit_or a 0 ≡ a
or_zero zero zero h = refl
or_zero zero (suc a) h = absurd (omega arith)
or_zero (suc n) a h = omega (arith, bit_or_step a 0, or_zero n (a / 2) (omega arith))

-- The low `w` bits of a number that has none of them: `high << w | low`
pub bit_or-shift : (w high low : ℕ) → low < 2 ^ w → bit_or (high * 2 ^ w) low ≡ high * 2 ^ w + low
bit_or-shift zero high zero h =
    let one : high * 2 ^ 0 ≡ high = omega arith in
    omega (arith, ap (λ (t : ℕ). bit_or t 0) one, or_zero high high (omega arith))
bit_or-shift zero high (suc low) h = absurd (omega arith)
bit_or-shift (suc w) high low h =
    let double : high * 2 ^ suc w ≡ (high * 2 ^ w) * 2 =
      omega (arith, ap (λ (t : ℕ). high * t) (pow-suc 2 w)) in
    let half : high * 2 ^ suc w / 2 ≡ high * 2 ^ w = omega (arith, double) in
    omega (
      arith,
      double,
      ap (λ (t : ℕ). bit_or t (low / 2)) half,
      bit_or_step (high * 2 ^ suc w) low,
      bit_or-shift w high (low / 2) (omega (arith, pow-suc 2 w)),
    )
