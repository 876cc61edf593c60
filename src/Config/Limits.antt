-- ===== src/Config/Limits.antt =====
-- What the commands keep, and the limits on their answers.
use zephyr_app.Config.Cmd
use zephyr_app.Modbus.Idx
use zephyr_app.Common.{
  All, Bool, List, Option, [], arith, get_be16, get_be32, get_or, if_both, if◌then◌else◌, leb,
  length, length-append, ltb, none, refl, some, subst, suc, true, zero, ℕ, ◌&&◌, ◌<◌, ◌==◌, ◌||◌,
  ◌∷◌, ◌≡◌, ◌≤◌,
}
use zephyr_app.Modbus.{Effect, Registers, get_holding_reg}
use zephyr_app.Config.{
  Env, answer, apply_set, asked_time, dc_build_config_payload, get_net, own_address, set_can,
  set_heart, set_modbus, set_net, set_net_mode, set_sample, set_time, update, word_of,
}
use zephyr_app.Config.Reads.{IsSized, get_holding_reg-update, update-IsSized}

-- The parameters are within the ranges that the commands let through.
abbrev pub IsConfigured : Registers → Type 0
IsConfigured r =
    IsSized r
    × (get_holding_reg r Idx.net_mode ≤ 1)
    × (1 ≤ get_holding_reg r Idx.slave_id)
    × (get_holding_reg r Idx.slave_id ≤ 255)
    × (1 ≤ get_holding_reg r Idx.rs485_bps)
    × (get_holding_reg r Idx.heart_en ≤ 1)
    × (500 ≤ get_holding_reg r Idx.heart_timeout)

-- the values that keep a register in its range
abbrev allowed : ℕ → ℕ → Bool
allowed i v =
    if i == Idx.net_mode || i == Idx.heart_en
    then leb v 1
    else if i == Idx.slave_id
    then leb 1 v && leb v 255
    else if i == Idx.rs485_bps
    then leb 1 v && leb v 0xFFFF
    else if i == Idx.heart_timeout
    then leb 500 v && leb v 0xFFFF
    else true

update-IsConfigured :
    (r : Registers) (i v : ℕ) → allowed i v ≡ true → IsConfigured r → IsConfigured (update r i v)
update-IsConfigured r i v a h = ground (
  arith,
  a,
  h,
  update-IsSized r i v,
  get_holding_reg-update r i v Idx.net_mode,
  get_holding_reg-update r i v Idx.slave_id,
  get_holding_reg-update r i v Idx.rs485_bps,
  get_holding_reg-update r i v Idx.heart_en,
  get_holding_reg-update r i v Idx.heart_timeout,
)

-- the registers that a SET case leaves
abbrev Keeps : Registers × List Effect × Bool → Type 0
Keeps out = IsConfigured out.0

set_modbus-IsConfigured : (r : Registers) (req : List ℕ) → IsConfigured r → Keeps (set_modbus r req)
unfolding set_modbus
set_modbus-IsConfigured r req h =
    let bps = get_be32 req 2 in
    let slave = get_be16 req 0 in
    let good_bps = ltb 0 bps && leb bps 0xFFFF in
    let good_id = ltb 0 slave && ltb slave 0x100 in
    let t = if good_bps then update r Idx.rs485_bps bps else r in
    let k : IsConfigured t =
      if_both IsConfigured good_bps _ _
        (λ e. update-IsConfigured r Idx.rs485_bps bps (ground (arith, e)) h) (λ e. h) in
    if_both Keeps (leb 6 (length req)) _ _
      (λ e.
        if_both IsConfigured good_id _ _
          (λ g. update-IsConfigured t Idx.slave_id slave (ground (arith, g)) k) (λ g. k))
      (λ e. h)

set_net-IsConfigured : (r : Registers) (req : List ℕ) → IsConfigured r → Keeps (set_net r req)
unfolding set_net
set_net-IsConfigured r req h =
    if_both Keeps (leb 6 (length req)) _ _
      (λ e. update-IsConfigured _ Idx.tcp_port _ refl (
        if_both IsConfigured (get_holding_reg r Idx.net_mode == 0) _ _
          (λ g. update-IsConfigured _ Idx.ip_addr_4 _ refl (
            update-IsConfigured _ Idx.ip_addr_3 _ refl (
              update-IsConfigured _ Idx.ip_addr_2 _ refl
                (update-IsConfigured _ Idx.ip_addr_1 _ refl h))))
          (λ g. h)))
      (λ e. h)

set_net_mode-IsConfigured :
    (r : Registers) (req : List ℕ) → IsConfigured r → Keeps (set_net_mode r req)
unfolding set_net_mode
set_net_mode-IsConfigured r req h =
    if_both Keeps (leb 1 (length req) && leb (get_or req 0 0) 1) _ _
      (λ e. update-IsConfigured _ Idx.net_mode _ (ground (arith, e)) h) (λ e. h)

set_sample-IsConfigured : (r : Registers) (req : List ℕ) → IsConfigured r → Keeps (set_sample r req)
unfolding set_sample
set_sample-IsConfigured r req h =
    if_both Keeps (leb 5 (length req)) _ _
      (λ e.
        update-IsConfigured _ Idx.his_save _ refl
          (update-IsConfigured _ Idx.ai_si _ refl (update-IsConfigured _ Idx.di_si _ refl h)))
      (λ e. h)

set_can-IsConfigured : (r : Registers) (req : List ℕ) → IsConfigured r → Keeps (set_can r req)
unfolding set_can
set_can-IsConfigured r req h =
    if_both Keeps (leb 4 (length req)) _ _
      (λ e. update-IsConfigured _ Idx.can_bps _ refl (update-IsConfigured _ Idx.can_id _ refl h))
      (λ e. h)

set_time-IsConfigured : (r : Registers) (req : List ℕ) → IsConfigured r → Keeps (set_time r req)
unfolding set_time
set_time-IsConfigured r req h =
    if_both Keeps (asked_time req == 0) _ _ (λ e. h)
      (λ e.
        update-IsConfigured _ Idx.timestampl _ refl (update-IsConfigured _ Idx.timestamph _ refl h))

get_or-IsByte : (xs : List ℕ) (i : ℕ) → All (λ b. b < 256) xs → get_or xs i 0 < 256
get_or-IsByte [] i h = omega arith
get_or-IsByte (x ∷ xs) zero h = h.0
get_or-IsByte (x ∷ xs) (suc i) h = get_or-IsByte xs i h.1

set_heart-IsConfigured :
    (r : Registers) (req : List ℕ)
    → All (λ b. b < 256) req
    → IsConfigured r
    → Keeps (set_heart r req)
unfolding set_heart
set_heart-IsConfigured r req q h =
    let high = get_or-IsByte req 1 q in
    let low = get_or-IsByte req 2 q in
    if_both Keeps (leb 3 (length req)) _ _
      (λ e. update-IsConfigured _ Idx.heart_timeout _ (ground (arith, high, low)) (
        update-IsConfigured _ Idx.heart_en _
          (if_both (λ (v : ℕ). leb v 1 ≡ true) (get_or req 0 0 == 0) _ _ (λ g. refl) (λ g. refl))
          h))
      (λ e. h)

-- Every command, of any length and whether known or not, keeps the parameters within the ranges
-- which the commands let through, and the array its size, if the payload is made of bytes.
pub dc_build_config_payload-IsConfigured :
    (e : Env) (r : Registers) (cmd : ℕ) (req : List ℕ) (out_len : ℕ)
    → All (λ b. b < 256) req
    → IsConfigured r
    → IsConfigured (dc_build_config_payload e r cmd req out_len).0
unfolding dc_build_config_payload apply_set
dc_build_config_payload-IsConfigured e r cmd req out_len q h =
    if_both Keeps (cmd == Cmd.set_net) _ _ (λ g. set_net-IsConfigured r req h)
      (λ g.
        if_both Keeps (cmd == Cmd.set_net_mode) _ _ (λ g. set_net_mode-IsConfigured r req h)
          (λ g.
            if_both Keeps (cmd == Cmd.set_modbus) _ _ (λ g. set_modbus-IsConfigured r req h)
              (λ g.
                if_both Keeps (cmd == Cmd.set_sample) _ _ (λ g. set_sample-IsConfigured r req h)
                  (λ g.
                    if_both Keeps (cmd == Cmd.set_can) _ _ (λ g. set_can-IsConfigured r req h)
                      (λ g.
                        if_both Keeps (cmd == Cmd.set_heart) _ _
                          (λ g. set_heart-IsConfigured r req q h)
                          (λ g.
                            if_both Keeps (cmd == Cmd.set_time) _ _
                              (λ g. set_time-IsConfigured r req h) (λ g. h)))))))

-- An address of the interface has four bytes.
abbrev pub HasAddress : Option (List ℕ) → Type 0
HasAddress none = Unit
HasAddress (some ip) = length ip ≡ 4

-- what the limits ask of an answer
abbrev IsLimited : ℕ → Option (List ℕ) → Type 0
IsLimited out_len none = Unit
IsLimited out_len (some out) = (length out ≤ out_len) × (1 ≤ length out) × (length out ≤ 8)

fits-IsLimited :
    (out_len n : ℕ) (out : List ℕ)
    → length out ≡ n
    → (1 ≤ n) × (n ≤ 8)
    → IsLimited out_len (if leb n out_len then some out else none)
fits-IsLimited out_len n out e h =
    if_both (IsLimited out_len) (leb n out_len) _ _ (λ g. ground (arith, e, h, g)) (λ g. tt)

length-own_address :
    (r : Registers) (live : Option (List ℕ)) → HasAddress live → length (own_address r live) ≡ 4
unfolding own_address
length-own_address r none h = refl
length-own_address r (some ip) h = h

length-get_net : (e : Env) (r : Registers) → HasAddress e.live_ipv4 → length (get_net e r) ≡ 6
unfolding get_net word_of
length-get_net e r h = omega (
  arith,
  length-own_address r e.live_ipv4 h,
  length-append (own_address r e.live_ipv4) (word_of r Idx.tcp_port),
)

answer-IsLimited :
    (e : Env) (r : Registers) (cmd : ℕ) (req : List ℕ) (out_len : ℕ)
    → HasAddress e.live_ipv4
    → IsLimited out_len (answer e r cmd req out_len)
unfolding answer word_of
answer-IsLimited e r cmd req out_len h =
    if_both (IsLimited out_len) (cmd == Cmd.set_net || cmd == Cmd.get_net) _ _
      (λ g.
        fits-IsLimited out_len 6 (get_net e r) (length-get_net e r h) (omega arith, omega arith))
      (λ g.
        if_both (IsLimited out_len) (cmd == Cmd.set_net_mode || cmd == Cmd.get_net_mode) _ _
          (λ g. fits-IsLimited out_len 1 _ refl (omega arith, omega arith))
          (λ g.
            if_both (IsLimited out_len) (cmd == Cmd.set_modbus || cmd == Cmd.get_modbus) _ _
              (λ g. fits-IsLimited out_len 6 _ refl (omega arith, omega arith))
              (λ g.
                if_both (IsLimited out_len) (cmd == Cmd.set_sample || cmd == Cmd.get_sample) _ _
                  (λ g. fits-IsLimited out_len 5 _ refl (omega arith, omega arith))
                  (λ g.
                    if_both (IsLimited out_len) (cmd == Cmd.set_can || cmd == Cmd.get_can) _ _
                      (λ g. fits-IsLimited out_len 4 _ refl (omega arith, omega arith))
                      (λ g.
                        if_both (IsLimited out_len) (cmd == Cmd.set_heart || cmd == Cmd.get_heart) _
                          _ (λ g. fits-IsLimited out_len 3 _ refl (omega arith, omega arith))
                          (λ g.
                            if_both (IsLimited out_len) (cmd == Cmd.set_time) _ _
                              (λ g. fits-IsLimited out_len 4 _ refl (omega arith, omega arith))
                              (λ g.
                                if_both (IsLimited out_len) (cmd == Cmd.get_info) _ _
                                  (λ g. fits-IsLimited out_len 8 _ refl (omega arith, omega arith))
                                  (λ g. tt))))))))

-- Where the interface's address has four bytes, an answer has from 1 to 8 bytes and no more than the
-- caller's buffer holds.
pub length-dc_build_config_payload :
    (e : Env) (r : Registers) (cmd : ℕ) (req : List ℕ) (out_len : ℕ) (out : List ℕ)
    → HasAddress e.live_ipv4
    → (dc_build_config_payload e r cmd req out_len).2 ≡ some out
    → (length out ≤ out_len) × (1 ≤ length out) × (length out ≤ 8)
unfolding dc_build_config_payload
length-dc_build_config_payload e r cmd req out_len out h g =
    subst (IsLimited out_len) g (answer-IsLimited e (apply_set r cmd req).0 cmd req out_len h)
