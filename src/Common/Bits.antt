-- ===== src/Common/Bits.antt =====
-- Exclusive or at variables: its digit recursion, and that a key cancels.
use Prim.Native.Nat.{ℕ, zero, suc, ◌+◌, ◌*◌, ◌/◌, ◌%◌, ◌^◌, ◌≤◌, ◌<◌}
use Prim.Native.Nat.{bit_xor, digits, differ, bit_xor-bitwise}
use mathlib.Core.Path.{◌≡◌, refl, ap}
use native.Mathlib.Nat.{pow-suc}
use mathlib.Core.Bool.{Bool, true, ◌&&◌}
use native.Mathlib.Decide.{ℕ_discrete}
use native.Mathlib.Omega.{arith}

xor_digits : ℕ → ℕ → ℕ → ℕ
xor_digits n a b = digits (λ b. b) differ n a b

-- Any two counts of rounds that reach the end of the first number agree.
xor_digits_stable :
    (n : ℕ) (a b : ℕ) (m : ℕ) → (a ≤ n) × (a ≤ m) → xor_digits n a b ≡ xor_digits m a b
unfolding xor_digits
xor_digits_stable (suc n) (suc a) b (suc m) (p, q) =
    let low = differ (suc a % 2) (b % 2) in
    ap (λ (high : ℕ). high * 2 + low)
      (xor_digits_stable n (suc a / 2) (b / 2) m (omega arith, omega arith))
xor_digits_stable (suc n) (suc a) b zero (p, q) = absurd (omega arith)
xor_digits_stable zero (suc a) b m (p, q) = absurd (omega arith)
xor_digits_stable (suc n) zero b zero h = refl
xor_digits_stable (suc n) zero b (suc m) h = refl
xor_digits_stable zero zero b zero h = refl
xor_digits_stable zero zero b (suc m) h = refl

differ_bits : (x y : ℕ) → x < 2 → y < 2 → differ x y ≡ (x + y) % 2
differ_bits zero y p q = omega arith
differ_bits (suc zero) zero p q = refl
differ_bits (suc zero) (suc zero) p q = refl
differ_bits (suc zero) (suc (suc y)) p q = absurd (omega arith)
differ_bits (suc (suc x)) y p q = absurd (omega arith)

-- the lowest digit, and the rest
pub bit_xor_step : (a b : ℕ) → bit_xor a b ≡ bit_xor (a / 2) (b / 2) * 2 + (a % 2 + b % 2) % 2
unfolding xor_digits
bit_xor_step zero b = omega (arith, bit_xor-bitwise zero b, bit_xor-bitwise zero (b / 2))
bit_xor_step (suc a) b = omega (
  arith,
  bit_xor-bitwise (suc a) b,
  bit_xor-bitwise (suc a / 2) (b / 2),
  xor_digits_stable a (suc a / 2) (b / 2) (suc a / 2) (omega arith, omega arith),
  differ_bits (suc a % 2) (b % 2) (omega arith) (omega arith),
)

-- Two applications of one key cancel, at every width (`n` bounds the number).
xor_cancel_fuel : (n a k : ℕ) → a ≤ n → k ≤ n → bit_xor (bit_xor a k) k ≡ a
xor_cancel_fuel zero zero zero p q = refl
xor_cancel_fuel zero zero (suc k) p q = absurd (omega arith)
xor_cancel_fuel zero (suc a) k p q = absurd (omega arith)
xor_cancel_fuel (suc n) a k p q = ground (
  arith,
  bit_xor_step a k,
  bit_xor_step (bit_xor a k) k,
  xor_cancel_fuel n (a / 2) (k / 2) (omega arith) (omega arith),
)

pub xor_cancel : (a k : ℕ) → bit_xor (bit_xor a k) k ≡ a
xor_cancel a k = xor_cancel_fuel (a + k) a k (omega arith) (omega arith)

-- An exclusive or of two numbers of `w` bits has `w` bits.
pub bit_xor-lt : (w a k : ℕ) → a < 2 ^ w → k < 2 ^ w → bit_xor a k < 2 ^ w
bit_xor-lt zero zero zero p q = omega arith
bit_xor-lt zero zero (suc k) p q = absurd (omega arith)
bit_xor-lt zero (suc a) k p q = absurd (omega arith)
bit_xor-lt (suc w) a k p q = omega (
  arith,
  pow-suc 2 w,
  bit_xor_step a k,
  bit_xor-lt w (a / 2) (k / 2) (omega (arith, pow-suc 2 w)) (omega (arith, pow-suc 2 w)),
)

-- Whether a test passes at every number under a bound, by running it at each.
unfoldable pub passes_under : (ℕ → Bool) → ℕ → Bool
passes_under test zero = true
passes_under test (suc k) = passes_under test k && test k

pub passes_under→passes :
    (test : ℕ → Bool) (k : ℕ) {i : ℕ} → i < k → passes_under test k ≡ true → test i ≡ true
unfolding passes_under
passes_under→passes test zero h all = absurd (omega arith)
passes_under→passes test (suc k) {i} h all = elim (ℕ_discrete i k) [
  | yes e ↦ rw e (ground arith)
  | no ne ↦ passes_under→passes test k (omega arith) (ground arith)
]
