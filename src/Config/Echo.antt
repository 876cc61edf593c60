-- ===== src/Config/Echo.antt =====
-- What a command answers to the values it was given.
use zephyr_app.Config.Cmd
use zephyr_app.Modbus.Idx
use zephyr_app.Common.{
  ==_iff, All, Bool, Bool-cases, List, Option, [], and_split, ap, arith, drop, false, get_be16,
  get_be32, get_or, if◌then◌else◌, inl, inr, leb, length, ltb, none, refl, some, subst, suc, sym,
  true, zero, ℕ, ◌&&◌, ◌*◌, ◌+◌, ◌<◌, ◌==◌, ◌^◌, ◌||◌, ◌∷◌, ◌≡◌, ◌≤◌,
}
use zephyr_app.Modbus.{Registers, get_holding_reg}
use zephyr_app.Config.{
  Env, answer, apply_set, byte_of, dc_build_config_payload, get_net, own_address, set_can,
  set_heart, set_modbus, set_net, set_net_mode, set_sample, word_of,
}
use zephyr_app.Config.Reads.{IsSized, get_holding_reg-update, update-IsSized}

-- The command sets parameters, and each has a GET command with the next number.
abbrev pub setter : ℕ → Bool
setter cmd =
    cmd == Cmd.set_net
    || cmd == Cmd.set_net_mode
    || cmd == Cmd.set_modbus
    || cmd == Cmd.set_sample
    || cmd == Cmd.set_can
    || cmd == Cmd.set_heart

-- The lengths of the payloads
abbrev pub needed : ℕ → ℕ
needed cmd =
    if cmd == Cmd.set_net || cmd == Cmd.set_modbus
    then 6
    else if cmd == Cmd.set_sample
    then 5
    else if cmd == Cmd.set_can
    then 4
    else if cmd == Cmd.set_heart
    then 3
    else 1

-- What each command takes as it is: an address only while the address is static and the interface
-- has no live one, a mode of 0 or 1, a station from 1 to 255 and a rate from 1 to 65535, a
-- flag of 0 or 1 with a timeout of 500 or more.
abbrev pub takes : Env → Registers → ℕ → List ℕ → Bool
takes e r cmd req =
    if cmd == Cmd.set_net
    then get_holding_reg r Idx.net_mode == 0 && elim e.live_ipv4 [ none ↦ true | some ip ↦ false ]
    else if cmd == Cmd.set_net_mode
    then leb (get_or req 0 0) 1
    else if cmd == Cmd.set_modbus
    then ltb 0 (get_be16 req 0)
      && ltb (get_be16 req 0) 256
      && (ltb 0 (get_be32 req 2) && ltb (get_be32 req 2) 0x10000)
    else if cmd == Cmd.set_heart
    then leb (get_or req 0 0) 1 && leb 500 (get_be16 req 1)
    else true

-- The answer to a request is the request, and so is what the GET command answers after it.
abbrev Echoes : Env → Registers → ℕ → List ℕ → Type 0
Echoes e r cmd req =
    let (t, done, out) = dc_build_config_payload e r cmd req 8 in
    (out ≡ some req) × ((dc_build_config_payload e t (suc cmd) [] 8).2 ≡ some req)

can_echo :
    (e : Env) (r : Registers) (a b c d : ℕ)
    → IsSized r
    → All (λ x. x < 256) (a ∷ b ∷ c ∷ d ∷ [])
    → Echoes e r Cmd.set_can (a ∷ b ∷ c ∷ d ∷ [])
unfolding dc_build_config_payload apply_set answer set_can word_of
can_echo e r a b c d s h = simp (get_holding_reg-update, update-IsSized, s) (ground (arith, h))

sample_echo :
    (e : Env) (r : Registers) (a b c d f : ℕ)
    → IsSized r
    → All (λ x. x < 256) (a ∷ b ∷ c ∷ d ∷ f ∷ [])
    → Echoes e r Cmd.set_sample (a ∷ b ∷ c ∷ d ∷ f ∷ [])
unfolding dc_build_config_payload apply_set answer set_sample word_of byte_of
sample_echo e r a b c d f s h = simp (get_holding_reg-update, update-IsSized, s) (ground (arith, h))

mode_echo :
    (e : Env) (r : Registers) (a : ℕ)
    → IsSized r
    → leb a 1 ≡ true
    → Echoes e r Cmd.set_net_mode (a ∷ [])
unfolding dc_build_config_payload apply_set answer set_net_mode byte_of
mode_echo e r a s ok = simp (ok, get_holding_reg-update, s) (ground (arith, ok))

heart_echo :
    (e : Env) (r : Registers) (a b c : ℕ)
    → IsSized r
    → All (λ x. x < 256) (a ∷ b ∷ c ∷ [])
    → takes e r Cmd.set_heart (a ∷ b ∷ c ∷ []) ≡ true
    → Echoes e r Cmd.set_heart (a ∷ b ∷ c ∷ [])
unfolding dc_build_config_payload apply_set answer set_heart word_of byte_of
heart_echo e r a b c s h t =
    let p : a ≤ 1 = ground (arith, t) in
    let q : 500 ≤ b * 2 ^ 8 + c = ground (arith, t) in
    let on : (if a == 0 then 0 else 1) ≡ a = ground (arith, p) in
    let out : (if ltb 500 (get_be16 (a ∷ b ∷ c ∷ []) 1) then get_be16 (a ∷ b ∷ c ∷ []) 1 else 500)
        ≡ b * 2 ^ 8 + c =
      ground (arith, q) in
    simp (on, out, get_holding_reg-update, update-IsSized, s) (ground (arith, h, p))

modbus_echo :
    (e : Env) (r : Registers) (a b c d f g : ℕ)
    → IsSized r
    → All (λ x. x < 256) (a ∷ b ∷ c ∷ d ∷ f ∷ g ∷ [])
    → takes e r Cmd.set_modbus (a ∷ b ∷ c ∷ d ∷ f ∷ g ∷ []) ≡ true
    → Echoes e r Cmd.set_modbus (a ∷ b ∷ c ∷ d ∷ f ∷ g ∷ [])
unfolding dc_build_config_payload apply_set answer set_modbus word_of
modbus_echo e r a b c d f g s h t =
    let req = a ∷ b ∷ c ∷ d ∷ f ∷ g ∷ [] in
    let bps : (ltb 0 (get_be32 req 2) && leb (get_be32 req 2) 0xFFFF) ≡ true = ground (arith, t) in
    let id : (ltb 0 (get_be16 req 0) && ltb (get_be16 req 0) 0x100) ≡ true = ground (arith, t) in
    let c0 : c ≡ 0 = ground (arith, t) in
    let d0 : d ≡ 0 = ground (arith, t) in
    simp (bps, id, get_holding_reg-update, update-IsSized, s) (ground (arith, h, c0, d0))

net_echo :
    (e : Env) (r : Registers) (a b c d f g : ℕ)
    → IsSized r
    → All (λ x. x < 256) (a ∷ b ∷ c ∷ d ∷ f ∷ g ∷ [])
    → e.live_ipv4 ≡ none
    → (get_holding_reg r Idx.net_mode == 0) ≡ true
    → Echoes e r Cmd.set_net (a ∷ b ∷ c ∷ d ∷ f ∷ g ∷ [])
unfolding dc_build_config_payload apply_set answer set_net get_net own_address word_of byte_of
net_echo e r a b c d f g s h live mode =
    simp (live, mode, get_holding_reg-update, update-IsSized, s) (ground (arith, h))

-- the first `n` entries, spelled out
abbrev listed : ℕ → List ℕ → List ℕ
listed zero xs = []
listed (suc n) xs = get_or xs 0 0 ∷ listed n (drop 1 xs)

listed_lem : (n : ℕ) (xs : List ℕ) → length xs ≡ n → listed n xs ≡ xs
listed_lem zero [] h = refl
listed_lem zero (x ∷ xs) h = absurd (omega arith)
listed_lem (suc n) [] h = absurd (omega arith)
listed_lem (suc n) (x ∷ xs) h = ap (λ l. x ∷ l) (listed_lem n xs (omega arith))

-- what is to be shown of a command
abbrev Answered : Env → Registers → List ℕ → ℕ → Type 0
Answered e r req cmd =
    All (λ x. x < 256) req → length req ≡ needed cmd → takes e r cmd req ≡ true → Echoes e r cmd req

from_listed :
    (e : Env) (r : Registers) (req : List ℕ) (cmd : ℕ)
    → (All (λ x. x < 256) (listed (needed cmd) req)
        → takes e r cmd (listed (needed cmd) req) ≡ true
        → Echoes e r cmd (listed (needed cmd) req))
    → Answered e r req cmd
from_listed e r req cmd f h len t =
    let l = listed_lem (needed cmd) req len in
    subst (λ q. Echoes e r cmd q) l
      (f (subst (λ q. All (λ x. x < 256) q) (sym l) h)
        (subst (λ q. takes e r cmd q ≡ true) (sym l) t))

has_none :
    (live : Option (List ℕ)) → elim live [ none ↦ true | some ip ↦ false ] ≡ true → live ≡ none
has_none none h = refl
has_none (some ip) h = cc

set_net-Answered :
    (e : Env) (r : Registers) (req : List ℕ) → IsSized r → Answered e r req Cmd.set_net
set_net-Answered e r req s = from_listed e r req Cmd.set_net (λ h t.
    net_echo e r _ _ _ _ _ _ s h (has_none e.live_ipv4 (and_split _ _ t).1) (and_split _ _ t).0)

-- A property of each of the six commands holds of every setter.
setter_cases {κ} :
    (P : ℕ → Type κ) (cmd : ℕ)
    → setter cmd ≡ true
    → P Cmd.set_net
    → P Cmd.set_net_mode
    → P Cmd.set_modbus
    → P Cmd.set_sample
    → P Cmd.set_can
    → P Cmd.set_heart
    → P cmd
setter_cases P cmd is_set net mode modbus sample can heart =
    let at = λ (c : ℕ) (g : (cmd == c) ≡ true) (p : P c). subst P (sym ((==_iff cmd c).0 g)) p in
    elim (Bool-cases (cmd == Cmd.set_net)) [
      | inl g ↦ at Cmd.set_net g net
      | inr g0 ↦ elim (Bool-cases (cmd == Cmd.set_net_mode)) [
        | inl g ↦ at Cmd.set_net_mode g mode
        | inr g1 ↦ elim (Bool-cases (cmd == Cmd.set_modbus)) [
          | inl g ↦ at Cmd.set_modbus g modbus
          | inr g2 ↦ elim (Bool-cases (cmd == Cmd.set_sample)) [
            | inl g ↦ at Cmd.set_sample g sample
            | inr g3 ↦ elim (Bool-cases (cmd == Cmd.set_can)) [
              | inl g ↦ at Cmd.set_can g can
              | inr g4 ↦ elim (Bool-cases (cmd == Cmd.set_heart)) [
                | inl g ↦ at Cmd.set_heart g heart
                | inr g5 ↦ absurd (ground (arith, is_set, g0, g1, g2, g3, g4, g5))
              ]
            ]
          ]
        ]
      ]
    ]

-- A SET request of the length that its command asks for, with values which the command takes as
-- they are, is answered with itself; and the GET command sent after it gives the same bytes. SET_NET
-- only where the address is static and the interface has no live address: with one, the answers give
-- that. The other values: a mode of 0 or 1, a station from 1 to 255 and a rate from 1 to 65535, a
-- flag of 0 or 1 with a timeout of 500 or more; any for the sample and CAN settings.
pub config_echo :
    (e : Env) (r : Registers) (cmd : ℕ) (req : List ℕ)
    → IsSized r
    → setter cmd ≡ true
    → All (λ x. x < 256) req
    → length req ≡ needed cmd
    → takes e r cmd req ≡ true
    → let (t, done, out) = dc_build_config_payload e r cmd req 8 in
      (out ≡ some req) × ((dc_build_config_payload e t (suc cmd) [] 8).2 ≡ some req)
config_echo e r cmd req s is_set =
    setter_cases (Answered e r req) cmd is_set (set_net-Answered e r req s)
      (from_listed e r req Cmd.set_net_mode (λ h t. mode_echo e r _ s t))
      (from_listed e r req Cmd.set_modbus (λ h t. modbus_echo e r _ _ _ _ _ _ s h t))
      (from_listed e r req Cmd.set_sample (λ h t. sample_echo e r _ _ _ _ _ s h))
      (from_listed e r req Cmd.set_can (λ h t. can_echo e r _ _ _ _ s h))
      (from_listed e r req Cmd.set_heart (λ h t. heart_echo e r _ _ _ s h t))

short_of : (n : ℕ) (req : List ℕ) → length req < n → leb n (length req) ≡ false
short_of n req h = ground (arith, h)

-- A SET request shorter than its command asks for changes nothing, sets nothing off, and is answered
-- as the GET command would be.
pub short_set :
    (e : Env) (r : Registers) (cmd : ℕ) (req : List ℕ) (out_len : ℕ)
    → setter cmd ≡ true
    → length req < needed cmd
    → dc_build_config_payload e r cmd req out_len ≡ dc_build_config_payload e r (suc cmd) [] out_len
unfolding dc_build_config_payload apply_set answer set_net set_net_mode set_modbus set_sample
    set_can set_heart
short_set e r cmd req out_len is_set =
    setter_cases
      (λ c.
        length req < needed c
        → dc_build_config_payload e r c req out_len
          ≡ dc_build_config_payload e r (suc c) [] out_len)
      cmd is_set (λ h. rw (short_of 6 req h) refl) (λ h. rw (short_of 1 req h) refl)
      (λ h. rw (short_of 6 req h) refl) (λ h. rw (short_of 5 req h) refl)
      (λ h. rw (short_of 4 req h) refl) (λ h. rw (short_of 3 req h) refl)
