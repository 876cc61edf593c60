-- ===== src/Modbus/Coils.antt =====
-- Reads after writes of coils.
use zephyr_app.Common.{
  All, Bool, Bool-cases, List, [], and_split, arith, bit_and, bit_or, false, get_or, if◌then◌else◌,
  inl, inr, length, length-set, ltb, not, passes_under, passes_under→passes, refl, set, some, suc,
  sym, true, u8, zero, ℕ, ◌%◌, ◌&&◌, ◌-◌, ◌/◌, ◌<◌, ◌==◌, ◌||◌, ◌∷◌, ◌≡◌,
}
use zephyr_app.Modbus.{Registers, bit, coil_rd, coil_wr}

same : Bool → Bool → Bool
same true b = b
same false b = not b

same→eq : (a b : Bool) → same a b ≡ true → a ≡ b
unfolding same
same→eq true b h = sym h
same→eq false true h = cc
same→eq false false h = refl

abbrev has_bit : ℕ → ℕ → Bool
has_bit byte n = not (bit_and byte (bit n) == 0)

abbrev turn_on : ℕ → ℕ → ℕ
turn_on byte n = bit_or byte (bit n)

abbrev turn_off : ℕ → ℕ → ℕ
turn_off byte n = u8 (bit_and byte (0xFFFFFFFF - bit n))

-- one bit written and one read, tried at every byte
bit_test : ℕ → ℕ → ℕ → Bool
unfolding same
bit_test byte n m =
    same (has_bit (turn_on byte n) m) (n == m || has_bit byte m)
    && (same (has_bit (turn_off byte n) m) (not (n == m) && has_bit byte m)
        && ltb (turn_on byte n) 256)

bit_table :
    passes_under (λ byte. passes_under (λ n. passes_under (λ m. bit_test byte n m) 8) 8) 256 ≡ true
unfolding passes_under bit_test
bit_table = refl

bit_facts :
    (byte n m : ℕ)
    → byte < 256
    → n < 8
    → m < 8
    → (has_bit (turn_on byte n) m ≡ (n == m || has_bit byte m))
      × (has_bit (turn_off byte n) m ≡ (not (n == m) && has_bit byte m))
      × (turn_on byte n < 256)
unfolding bit_test
bit_facts byte n m p q r =
    let at_byte =
      passes_under→passes (λ byte. passes_under (λ n. passes_under (λ m. bit_test byte n m) 8) 8)
        256 p bit_table in
    let at_bit = passes_under→passes (λ n. passes_under (λ m. bit_test byte n m) 8) 8 q at_byte in
    let all = passes_under→passes (λ m. bit_test byte n m) 8 r at_bit in
    let first = and_split _ _ all in
    let rest = and_split _ _ first.1 in
    (same→eq _ _ first.0, same→eq _ _ rest.0, ground (arith, rest.1))

-- `get_or` of a list of bytes is a byte
All-get_or : (xs : List ℕ) (i : ℕ) → All (λ b. b < 256) xs → get_or xs i 0 < 256
All-get_or [] i h = omega arith
All-get_or (x ∷ xs) zero h = h.0
All-get_or (x ∷ xs) (suc i) h = All-get_or xs i h.1

All-set :
    (xs : List ℕ) (i v : ℕ) → All (λ b. b < 256) xs → v < 256 → All (λ b. b < 256) (set xs i v)
All-set [] i v h p = h
All-set (x ∷ xs) zero v h p = (p, h.1)
All-set (x ∷ xs) (suc i) v h p = (h.0, All-set xs i v h.1 p)

coil_bytes :
    (r : Registers) (a : ℕ) (v : Bool)
    → All (λ b. b < 256) r.coils_state
    → All (λ b. b < 256) (coil_wr r a v).0.coils_state
unfolding coil_wr
coil_bytes r a v h =
    let byte = get_or r.coils_state (a / 8) 0 in
    let small = All-get_or r.coils_state (a / 8) h in
    let f = bit_facts byte (a % 8) 0 small (omega arith) (omega arith) in
    ground (
      arith,
      h,
      All-set r.coils_state (a / 8) (turn_on byte (a % 8)) h f.2,
      All-set r.coils_state (a / 8) (turn_off byte (a % 8)) h (omega arith),
    )

pub get_or-set :
    (xs : List ℕ) (i j v : ℕ)
    → i < length xs
    → get_or (set xs i v) j 0 ≡ (if i == j then v else get_or xs j 0)
get_or-set [] i j v h = absurd (omega arith)
get_or-set (x ∷ xs) zero zero v h = refl
get_or-set (x ∷ xs) zero (suc j) v h = ground arith
get_or-set (x ∷ xs) (suc i) zero v h = ground arith
get_or-set (x ∷ xs) (suc i) (suc j) v h = ground (arith, get_or-set xs i j v (omega arith))

module _ (r : Registers) (a b : ℕ) (h : All (λ byte. byte < 256) r.coils_state)
    (within : a < length r.coils_state) where
  coil_byte : ℕ
  coil_byte = get_or r.coils_state (a / 8) 0

  coil_on : coil_rd (coil_wr r a true).0 b ≡ (if a == b then some true else coil_rd r b)
  unfolding coil_rd coil_wr coil_byte
  coil_on =
      let f =
        bit_facts coil_byte (a % 8) (b % 8) (All-get_or r.coils_state (a / 8) h) (omega arith)
          (omega arith) in
      ground (
        arith,
        within,
        f,
        length-set r.coils_state (a / 8) (turn_on coil_byte (a % 8)),
        get_or-set r.coils_state (a / 8) (b / 8) (turn_on coil_byte (a % 8))
            (omega (arith, within)),
      )

  coil_off : coil_rd (coil_wr r a false).0 b ≡ (if a == b then some false else coil_rd r b)
  unfolding coil_rd coil_wr coil_byte
  coil_off =
      let f =
        bit_facts coil_byte (a % 8) (b % 8) (All-get_or r.coils_state (a / 8) h) (omega arith)
          (omega arith) in
      ground (
        arith,
        within,
        f,
        length-set r.coils_state (a / 8) (turn_off coil_byte (a % 8)),
        get_or-set r.coils_state (a / 8) (b / 8) (turn_off coil_byte (a % 8))
            (omega (arith, within)),
      )

  coil_written : (v : Bool) → coil_rd (coil_wr r a v).0 b ≡ (if a == b then some v else coil_rd r b)
  coil_written true = coil_on
  coil_written false = coil_off

coil_out :
    (r : Registers) (a : ℕ) (v : Bool)
    → ltb a (length r.coils_state) ≡ false
    → coil_wr r a v ≡ (r, false)
unfolding coil_wr
coil_out r a v h = ground arith

coil_in :
    (r : Registers) (a : ℕ) (v : Bool)
    → ltb a (length r.coils_state) ≡ true
    → (coil_wr r a v).1 ≡ true
unfolding coil_wr
coil_in r a v h = ground arith

-- The write of a coil succeeds exactly below the length of the array. Then that coil reads as it
-- was written and every other coil as before; out of range nothing is written. The array's entries
-- stay bytes.
pub coil_rd-coil_wr :
    (r : Registers) (a b : ℕ) (v : Bool)
    → All (λ byte. byte < 256) r.coils_state
    → let (t, ok) = coil_wr r a v in
      (ok ≡ ltb a (length r.coils_state))
      × (coil_rd t b ≡ (if ok && a == b then some v else coil_rd r b))
      × All (λ byte. byte < 256) t.coils_state
coil_rd-coil_wr r a b v h = elim (Bool-cases (ltb a (length r.coils_state))) [
  | inr out ↦ rw (coil_out r a v out, out) (refl, refl, h)
  | inl within ↦
      rw (within, coil_in r a v within)
        (refl, coil_written r a b h (ground (arith, within)) v, coil_bytes r a v h)
]
