-- ===== src/Modbus/Settings.antt =====
-- The settings handlers of applications/data_collect/src/modbus/function.c: names under `modbus` for
-- the registers that are kept over a reset. A name is its bytes, without the final NUL; values are
-- counted in registers, each a `uint16_t`; a read behind the array gives 0 here.
use zephyr_app.Common.{
  Bool, List, Option, [], drop, false, get_or, if◌then◌else◌, leb, none, not, set, some, suc, true,
  zero, ℕ, ◌&&◌, ◌++◌, ◌+◌, ◌==◌, ◌∷◌,
}
use zephyr_app.Modbus.Idx

-- `strncmp(a, b, n) == 0`
unfoldable pub strncmp_eq : List ℕ → List ℕ → ℕ → Bool
strncmp_eq a b zero = true
strncmp_eq [] [] (suc n) = true
strncmp_eq [] (y ∷ b) (suc n) = false
strncmp_eq (x ∷ a) [] (suc n) = false
strncmp_eq (x ∷ a) (y ∷ b) (suc n) = x == y && strncmp_eq a b n

-- A key of one part, with its first register and how many registers it has.
pub record Key : Type 0 where
  pub name : List ℕ
  pub idx : ℕ
  pub count : ℕ

abbrev pub key : List ℕ → ℕ → ℕ → Key
key name idx count = record { name = name; idx = idx; count = count }

abbrev pub text_history : List ℕ
text_history = b'h' ∷ b'i' ∷ b's' ∷ b't' ∷ b'o' ∷ b'r' ∷ b'y' ∷ []

abbrev pub text_rs485_bps : List ℕ
text_rs485_bps = b'r' ∷ b's' ∷ b'4' ∷ b'8' ∷ b'5' ∷ b'_' ∷ b'b' ∷ b'p' ∷ b's' ∷ []

abbrev pub text_slave_id : List ℕ
text_slave_id = b's' ∷ b'l' ∷ b'a' ∷ b'v' ∷ b'e' ∷ b'_' ∷ b'i' ∷ b'd' ∷ []

abbrev pub text_tcp_port : List ℕ
text_tcp_port = b't' ∷ b'c' ∷ b'p' ∷ b'_' ∷ b'p' ∷ b'o' ∷ b'r' ∷ b't' ∷ []

abbrev pub text_net_mode : List ℕ
text_net_mode = b'n' ∷ b'e' ∷ b't' ∷ b'_' ∷ b'm' ∷ b'o' ∷ b'd' ∷ b'e' ∷ []

abbrev pub text_ip : List ℕ
text_ip = b'i' ∷ b'p' ∷ []

abbrev pub text_ai : List ℕ
text_ai = b'a' ∷ b'i' ∷ []

abbrev pub text_di : List ℕ
text_di = b'd' ∷ b'i' ∷ []

abbrev pub text_can : List ℕ
text_can = b'c' ∷ b'a' ∷ b'n' ∷ []

abbrev pub text_heart : List ℕ
text_heart = b'h' ∷ b'e' ∷ b'a' ∷ b'r' ∷ b't' ∷ []

abbrev pub text_enable : List ℕ
text_enable = b'e' ∷ b'n' ∷ b'a' ∷ b'b' ∷ b'l' ∷ b'e' ∷ []

abbrev pub text_time : List ℕ
text_time = b't' ∷ b'i' ∷ b'm' ∷ b'e' ∷ []

abbrev pub text_id : List ℕ
text_id = b'i' ∷ b'd' ∷ []

abbrev pub text_bps : List ℕ
text_bps = b'b' ∷ b'p' ∷ b's' ∷ []

-- the names of one part, in the order of the tests
abbrev pub single_keys : List Key
single_keys =
    key text_history Idx.his_save 1
    ∷ key text_rs485_bps Idx.rs485_bps 1
    ∷ key text_slave_id Idx.slave_id 1
    ∷ key text_tcp_port Idx.tcp_port 1
    ∷ key text_net_mode Idx.net_mode 1
    ∷ key text_ip Idx.ip_addr_1 4
    ∷ []

-- the names of two parts, in the order of the tests
abbrev pub group_keys : List (List ℕ × List Key)
group_keys =
    (text_ai, key text_enable Idx.ai_en 1 ∷ key text_time Idx.ai_si 1 ∷ [])
    ∷ (text_di, key text_enable Idx.di_en 1 ∷ key text_time Idx.di_si 1 ∷ [])
    ∷ (text_can, key text_id Idx.can_id 1 ∷ key text_bps Idx.can_bps 1 ∷ [])
    ∷ (text_heart, key text_enable Idx.heart_en 1 ∷ key text_time Idx.heart_timeout 1 ∷ [])
    ∷ []

-- the first key that the tests accept
unfoldable pub find_key : List ℕ → ℕ → List Key → Option Key
find_key name len [] = none
find_key name len (k ∷ ks) = if strncmp_eq name k.name len then some k else find_key name len ks

unfoldable pub find_group : List ℕ → ℕ → List (List ℕ × List Key) → Option (List Key)
find_group name len [] = none
find_group name len ((group, keys) ∷ gs) =
    if strncmp_eq name group len then some keys else find_group name len gs

-- `settings_name_next` is a parameter: the length of a name's first part, and whether more follows.
module _ (name_next : List ℕ → ℕ × Bool) where
  -- The tests that the get and the set handler share: no group of that name, or a group (or none
  -- needed) with the key, if there is one.
  unfoldable pub lookup : List ℕ → Option (Option Key)
  unfolding find_key find_group strncmp_eq
  lookup name =
      let (name_len, more) = name_next name in
      let rest = drop (name_len + 1) name in
      let (rest_len, rest_more) = name_next rest in
      if not more
      then some (find_key name name_len single_keys)
      else elim (find_group name name_len group_keys) [
        | none ↦ none
        | some keys ↦ some (if rest_more then none else find_key rest rest_len keys)
      ]

-- the registers `idx`, `idx + 1`, …
unfoldable pub words : List ℕ → ℕ → ℕ → List ℕ
words holding_reg idx zero = []
words holding_reg idx (suc n) = get_or holding_reg idx 0 ∷ words holding_reg (idx + 1) n

unfoldable pub put_words : List ℕ → ℕ → List ℕ → List ℕ
put_words holding_reg idx [] = holding_reg
put_words holding_reg idx (w ∷ ws) = put_words (set holding_reg idx w) (idx + 1) ws

-- `mb_handle_get` for a buffer of `val_len` registers: what it copies, if anything, and whether it
-- returns 0.
unfoldable pub mb_handle_get : (List ℕ → ℕ × Bool) → List ℕ → List ℕ → ℕ → Option (List ℕ) × Bool
unfolding lookup words
mb_handle_get name_next holding_reg name val_len = elim (lookup name_next name) [
  | none ↦ (none, false)
  | some found ↦ elim found [
    | none ↦ (none, true)
    | some k ↦ (some (words holding_reg k.idx val_len), true)
  ]
]

-- `mb_handle_set`, with `read_cb` as the registers it fills of so many; true is 0 and false -ENOENT.
unfoldable pub mb_handle_set : (List ℕ → ℕ × Bool) → List ℕ → List ℕ → (ℕ → List ℕ) → List ℕ × Bool
unfolding lookup put_words
mb_handle_set name_next holding_reg name read_cb = elim (lookup name_next name) [
  | none ↦ (holding_reg, false)
  | some found ↦ elim found [
    | none ↦ (holding_reg, false)
    | some k ↦ (put_words holding_reg k.idx (read_cb k.count), true)
  ]
]

-- The test of an address before it is saved.
pub ip_is_valid : List ℕ → Bool
ip_is_valid h =
    let first = get_or h Idx.ip_addr_1 0 in
    not (get_or h Idx.ip_addr_4 0 == 0xFF)
    && (not (get_or h Idx.ip_addr_4 0 == 0) && not (leb 224 first && leb first 239))

-- `mb_handle_export`: the names, without their common `modbus/`, and the registers handed to `cb`.
unfoldable pub mb_handle_export : List ℕ → List (List ℕ × List ℕ)
unfolding ip_is_valid words
mb_handle_export h =
    let ip = if ip_is_valid h then (text_ip, words h Idx.ip_addr_1 4) ∷ [] else [] in
    let heart =
      (text_heart ++ (b'/' ∷ text_enable), words h Idx.heart_en 1)
      ∷ (text_heart ++ (b'/' ∷ text_time), words h Idx.heart_timeout 1)
      ∷ [] in
    (text_ai ++ (b'/' ∷ text_enable), words h Idx.ai_en 1)
      ∷ (text_ai ++ (b'/' ∷ text_time), words h Idx.ai_si 1)
      ∷ (text_di ++ (b'/' ∷ text_enable), words h Idx.di_en 1)
      ∷ (text_di ++ (b'/' ∷ text_time), words h Idx.di_si 1)
      ∷ (text_history, words h Idx.his_save 1)
      ∷ (text_can ++ (b'/' ∷ text_id), words h Idx.can_id 1)
      ∷ (text_can ++ (b'/' ∷ text_bps), words h Idx.can_bps 1)
      ∷ (text_rs485_bps, words h Idx.rs485_bps 1)
      ∷ (text_slave_id, words h Idx.slave_id 1)
      ∷ (text_tcp_port, words h Idx.tcp_port 1)
      ∷ (text_net_mode, words h Idx.net_mode 1)
      ∷ ip
    ++ heart
