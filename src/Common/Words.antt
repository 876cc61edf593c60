-- ===== src/Common/Words.antt =====
-- Machine integers as native numbers: the casts of C, and the byte orders.
use Prim.Native.Nat.{ℕ, ◌+◌, ◌*◌, ◌/◌, ◌%◌, ◌^◌, ◌<◌}
use mathlib.Core.Path.{◌≡◌}
use mathlib.Core.List.{List, [], ◌∷◌}
use native.Mathlib.Omega.{arith}
use zephyr_app.Common.Lists.{get_or}

abbrev pub u8 : ℕ → ℕ
u8 n = n % 2 ^ 8

abbrev pub u16 : ℕ → ℕ
u16 n = n % 2 ^ 16

abbrev pub u32 : ℕ → ℕ
u32 n = n % 2 ^ 32

-- `sys_put_be32`, `sys_put_le32`: the four bytes of a word
abbrev pub be32_bytes : ℕ → List ℕ
be32_bytes w = (w / 2 ^ 24) % 256 ∷ (w / 2 ^ 16) % 256 ∷ (w / 2 ^ 8) % 256 ∷ w % 256 ∷ []

abbrev pub le32_bytes : ℕ → List ℕ
le32_bytes w = w % 256 ∷ (w / 2 ^ 8) % 256 ∷ (w / 2 ^ 16) % 256 ∷ (w / 2 ^ 24) % 256 ∷ []

-- `sys_put_be16`
abbrev pub be16_bytes : ℕ → List ℕ
be16_bytes w = (w / 2 ^ 8) % 256 ∷ w % 256 ∷ []

-- `sys_get_be16`, `sys_get_be32`, `sys_get_le32`, `sys_get_le16` at a byte offset
abbrev pub get_be16 : List ℕ → ℕ → ℕ
get_be16 b i = get_or b i 0 * 2 ^ 8 + get_or b (i + 1) 0

abbrev pub get_be32 : List ℕ → ℕ → ℕ
get_be32 b i =
    get_or b i 0 * 2 ^ 24
    + get_or b (i + 1) 0 * 2 ^ 16
    + get_or b (i + 2) 0 * 2 ^ 8
    + get_or b (i + 3) 0

abbrev pub get_le32 : List ℕ → ℕ → ℕ
get_le32 b i =
    get_or b i 0
    + get_or b (i + 1) 0 * 2 ^ 8
    + get_or b (i + 2) 0 * 2 ^ 16
    + get_or b (i + 3) 0 * 2 ^ 24

abbrev pub get_le16 : List ℕ → ℕ → ℕ
get_le16 b i = get_or b i 0 + get_or b (i + 1) 0 * 2 ^ 8

pub get_le32-le32_bytes : (w : ℕ) → w < 2 ^ 32 → get_le32 (le32_bytes w) 0 ≡ w
get_le32-le32_bytes w h = omega arith
