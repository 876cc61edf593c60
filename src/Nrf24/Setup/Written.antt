-- ===== src/Nrf24/Setup/Written.antt =====
-- What nrf24_configure sends to the chip.
use zephyr_app.Common.{
  Bool, List, Option, [], ap, ap₂, arith, bit_and, bit_or, drop, false, if◌then◌else◌, leb, length,
  length-append, length-take, list_eq, ltb, none, refl, some, sym, take, take-append_left, take_all,
  true, u8, ℕ, ◌&&◌, ◌++◌, ◌+◌, ◌-◌, ◌<◌, ◌==◌, ◌||◌, ◌∙◌, ◌∷◌, ◌≡◌, ◌≤◌,
}
use zephyr_app.Nrf24.{
  Bus, Dev, Io, Ret, act, cmd_locked, ignored, is_prx, max_payload, ok, reg_write_locked,
  reg_write_multi_locked, ◌>>◌,
}
use zephyr_app.Nrf24.Setup.{
  Cfg, Config, CrcMode, DataRate, PayloadMode, TxPower, addr_aw_bits, apply_config_with,
  apply_payload_mode, config_bits, crc_mode_to_str, data_rate_bits, data_rate_to_str, dynamic,
  fixed, fixed_text, merged, nrf24_configure, one_byte, parse_crc_mode, parse_data_rate,
  parse_payload_mode, parse_tx_power, pwr_0dbm, pwr_12dbm, pwr_18dbm, pwr_6dbm, rate_1m, rate_250k,
  rate_2m, two_byte, tx_power_bits, tx_power_to_str, width_of,
}
use zephyr_app.Nrf24.Chip.{Chip, nrf24_xfer-ok}

-- The exchanges for the payload mode, and all of them: each command with its bytes.
abbrev pub payload_exchanges : Bool → ℕ → List (List ℕ)
payload_exchanges false width = (60 ∷ 1 ∷ []) ∷ (61 ∷ 6 ∷ []) ∷ []
payload_exchanges true width = (60 ∷ 0 ∷ []) ∷ (61 ∷ 0 ∷ []) ∷ (49 ∷ bit_and width 0x3F ∷ []) ∷ []

abbrev pub exchanges : (aw retr channel rf config : ℕ) → List (List ℕ) → List ℕ → List (List ℕ)
exchanges aw retr channel rf config payload addr =
    (32 ∷ 0 ∷ [])
    ∷ ((35 ∷ aw ∷ [])
        ∷ ((36 ∷ retr ∷ [])
            ∷ ((37 ∷ channel ∷ [])
                ∷ ((38 ∷ rf ∷ [])
                    ∷ ((33 ∷ 1 ∷ [])
                        ∷ ((34 ∷ 1 ∷ [])
                            ∷ ((32 ∷ config ∷ [])
                                ∷ (payload
                                    ++ ((48 ∷ addr)
                                        ∷ ((42 ∷ addr)
                                            ∷ ((225 ∷ [])
                                                ∷ ((226 ∷ []) ∷ ((39 ∷ 112 ∷ []) ∷ [])))))))))))))

-- What the chip's data sheet says of a setting: the bits of RF_SETUP for a rate and a power, and
-- EN_CRC with CRCO.
abbrev pub rate_code : DataRate → ℕ
rate_code rate_250k = 0x20
rate_code rate_1m = 0x00
rate_code rate_2m = 0x08

abbrev pub power_code : TxPower → ℕ
power_code pwr_18dbm = 0x00
power_code pwr_12dbm = 0x02
power_code pwr_6dbm = 0x04
power_code pwr_0dbm = 0x06

abbrev pub crc_code : CrcMode → ℕ
crc_code one_byte = 0x08
crc_code two_byte = 0x0C

-- The width of the address: the new one if it is lawful, or else the device's.
abbrev pub new_width : Config → Cfg → ℕ
new_width c n =
    if leb 3 n.address_width && leb n.address_width 5 then n.address_width else c.address_width

-- The address: the new one if there is one, or else the device's.
abbrev pub new_addr : Config → Cfg → List ℕ
new_addr c n = elim n.tx_addr [ none ↦ take (new_width c n) c.tx_addr | some a ↦ a ]

-- A new address has the new width.
abbrev pub IsGiven : Config → Cfg → Type 0
IsGiven c n = elim n.tx_addr [ none ↦ Unit {0} | some a ↦ length a ≡ new_width c n ]

abbrev is_fixed : PayloadMode → Bool
is_fixed fixed = true
is_fixed dynamic = false

parse-data_rate : (r : DataRate) → parse_data_rate (data_rate_to_str r) ≡ r
unfolding parse_data_rate data_rate_to_str
parse-data_rate rate_250k = refl
parse-data_rate rate_1m = refl
parse-data_rate rate_2m = refl

parse-tx_power : (p : TxPower) → parse_tx_power (tx_power_to_str p) ≡ p
unfolding parse_tx_power tx_power_to_str
parse-tx_power pwr_18dbm = refl
parse-tx_power pwr_12dbm = refl
parse-tx_power pwr_6dbm = refl
parse-tx_power pwr_0dbm = refl

parse-crc_mode : (m : CrcMode) → parse_crc_mode (crc_mode_to_str m) ≡ m
unfolding parse_crc_mode crc_mode_to_str
parse-crc_mode one_byte = refl
parse-crc_mode two_byte = refl

module _ {W : Type 0} (bus : Bus W) (chip : Chip bus) where
  -- The bus after exchanges, one after the other.
  pub after_all : List (List ℕ) → W → W
  after_all [] w = w
  after_all (tx ∷ more) w = after_all more (chip.after tx w)

  after-append :
      (txs more : List (List ℕ)) (w : W)
      → after_all (txs ++ more) w ≡ after_all more (after_all txs w)
  unfolding after_all
  after-append [] more w = refl
  after-append (tx ∷ txs) more w = after-append txs more (chip.after tx w)

  -- A run that succeeds, sends exactly these exchanges, and then does `g` on the bus.
  SendsAnd : (W → W) → Io W (Unit {0}) → List (List ℕ) → Type 0
  SendsAnd g m txs = (d : Dev W) → m d ≡ (ok tt, record d { world = g (after_all txs d.world) })

  abbrev Sends : Io W (Unit {0}) → List (List ℕ) → Type 0
  Sends m txs = SendsAnd (λ w. w) m txs

  seq-SendsAnd :
      (g : W → W) (m k : Io W (Unit {0})) (txs more : List (List ℕ))
      → Sends m txs
      → SendsAnd g k more
      → SendsAnd g (m >> k) (txs ++ more)
  unfolding SendsAnd
  seq-SendsAnd g m k txs more h l d = rw (h d) (
      rw (l (record d { world = after_all txs d.world }))
        (ap (λ (w : W). (ok tt, record d { world = g w })) (sym (after-append txs more d.world))))

  one-SendsAnd :
      (g : W → W) (m k : Io W (Unit {0})) (tx : List ℕ) (more : List (List ℕ))
      → Sends m (tx ∷ [])
      → SendsAnd g k more
      → SendsAnd g (m >> k) (tx ∷ more)
  one-SendsAnd g m k tx more h l = seq-SendsAnd g m k (tx ∷ []) more h l

  slept-Sends : SendsAnd (bus.sleep_us 2000) (act (bus.sleep_us 2000)) []
  unfolding SendsAnd after_all
  slept-Sends d = refl

  write-Sends :
      (reg v : ℕ)
      → Sends (reg_write_locked bus reg v) ((bit_or 32 (bit_and reg 0x1F) ∷ v ∷ []) ∷ [])
  unfolding SendsAnd reg_write_locked after_all
  write-Sends reg v d = rw (nrf24_xfer-ok bus chip (bit_or 32 (bit_and reg 0x1F) ∷ v ∷ []) d) refl

  cmd-Sends : (c : ℕ) → Sends (ignored (cmd_locked bus c)) ((c ∷ []) ∷ [])
  unfolding SendsAnd cmd_locked after_all
  cmd-Sends c d = rw (nrf24_xfer-ok bus chip (c ∷ []) d) refl

  ignored-Sends : (m : Io W (Unit {0})) (txs : List (List ℕ)) → Sends m txs → Sends (ignored m) txs
  unfolding SendsAnd
  ignored-Sends m txs h d = rw (h d) refl

  multi-Sends :
      (reg : ℕ) (buf : List ℕ)
      → 0 < length buf
      → length buf ≤ 32
      → Sends (reg_write_multi_locked bus reg buf) ((bit_or 32 (bit_and reg 0x1F) ∷ buf) ∷ [])
  unfolding SendsAnd reg_write_multi_locked after_all
  multi-Sends reg buf p q d =
      let short : (length buf == 0 || ltb max_payload (length buf)) ≡ false =
        ground (arith, p, q) in
      rw short (rw (nrf24_xfer-ok bus chip (bit_or 32 (bit_and reg 0x1F) ∷ buf) d) refl)

  payload-Sends :
      (c : Config) (m : PayloadMode)
      → Sends (apply_payload_mode bus c m) (payload_exchanges (is_fixed m) c.rx_payload_width)
  unfolding apply_payload_mode
  payload-Sends c dynamic = one-SendsAnd (λ w. w) _ _ _ _ (write-Sends 28 1) (write-Sends 29 6)
  payload-Sends c fixed =
      one-SendsAnd (λ w. w) _ _ _ _ (write-Sends 28 0)
        (one-SendsAnd (λ w. w) _ _ _ _ (write-Sends 29 0)
          (write-Sends 17 (bit_and c.rx_payload_width 0x3F)))

  abbrev slept : W → W
  slept w = bus.sleep_us 2000 w

  config-bits :
      (c : Config) (m : CrcMode) (prim_rx : Bool)
      → parse_crc_mode c.crc_mode ≡ m
      → config_bits c prim_rx ≡ crc_code m + 2 + (if prim_rx then 1 else 0)
  unfolding config_bits
  config-bits c one_byte prim_rx e = rw e refl
  config-bits c two_byte prim_rx e = rw e refl

  address_fits :
      (c : Config)
      → 0 < length c.tx_addr
      → (0 < length (take (width_of c) c.tx_addr)) × (length (take (width_of c) c.tx_addr) ≤ 32)
  address_fits c h = rw (length-take (width_of c) c.tx_addr) (ground (arith, h), ground (arith, h))

  apply_config_with-Sends :
      (c : Config) (prim_rx : Bool)
      → 0 < length c.tx_addr
      → SendsAnd slept (apply_config_with bus c prim_rx) (
          exchanges
            (addr_aw_bits (width_of c))
            (u8 (bit_or c.ard (bit_and c.arc 0x0F)))
            (bit_and c.channel 0x7F)
            (bit_or
              (data_rate_bits (parse_data_rate c.data_rate))
              (tx_power_bits (parse_tx_power c.tx_power)))
            (config_bits c prim_rx)
            (payload_exchanges (is_fixed (parse_payload_mode c.payload_mode)) c.rx_payload_width)
            (take (width_of c) c.tx_addr))
  unfolding apply_config_with
  apply_config_with-Sends c prim_rx h =
      let (p, q) = address_fits c h in
      (one-SendsAnd slept _ _ _ _ (write-Sends 0 0) (
        one-SendsAnd slept _ _ _ _ (write-Sends 3 _) (
          one-SendsAnd slept _ _ _ _ (write-Sends 4 _) (
            one-SendsAnd slept _ _ _ _ (write-Sends 5 _) (
              one-SendsAnd slept _ _ _ _ (write-Sends 6 _) (
                one-SendsAnd slept _ _ _ _ (write-Sends 1 1) (
                  one-SendsAnd slept _ _ _ _ (write-Sends 2 1) (
                    one-SendsAnd slept _ _ _ _ (write-Sends 0 _) (
                      seq-SendsAnd slept _ _ _ _ (payload-Sends c _) (
                        one-SendsAnd slept _ _ _ _ (multi-Sends 16 _ p q) (
                          one-SendsAnd slept _ _ _ _ (multi-Sends 10 _ p q) (
                            one-SendsAnd slept _ _ _ _ (cmd-Sends 225) (
                              one-SendsAnd slept _ _ _ _ (cmd-Sends 226) (
                                one-SendsAnd slept _ _ _ _ (ignored-Sends _ _ (write-Sends 7 112))
                                  slept-Sends))))))))))))))

  -- The codes of what `merged` makes of the new settings.
  rate_lem : (r : DataRate) → data_rate_bits (parse_data_rate (data_rate_to_str r)) ≡ rate_code r
  unfolding data_rate_bits
  rate_lem r = ap data_rate_bits (parse-data_rate r) ∙ coded r
    where
      coded : (r : DataRate) → data_rate_bits r ≡ rate_code r
      coded rate_250k = refl
      coded rate_1m = refl
      coded rate_2m = refl

  power_lem : (p : TxPower) → tx_power_bits (parse_tx_power (tx_power_to_str p)) ≡ power_code p
  unfolding tx_power_bits
  power_lem p = ap tx_power_bits (parse-tx_power p) ∙ coded p
    where
      coded : (p : TxPower) → tx_power_bits p ≡ power_code p
      coded pwr_18dbm = refl
      coded pwr_12dbm = refl
      coded pwr_6dbm = refl
      coded pwr_0dbm = refl

  payload_lem : (text : List ℕ) → is_fixed (parse_payload_mode text) ≡ list_eq text fixed_text
  unfolding parse_payload_mode
  payload_lem text = ground arith

  aw_lem : (aw : ℕ) → 3 ≤ aw → aw ≤ 5 → addr_aw_bits aw ≡ aw - 2
  unfolding addr_aw_bits
  aw_lem aw lo hi = ground (arith, lo, hi)

  new_width_fits :
      (c : Config) (n : Cfg)
      → 3 ≤ c.address_width
      → c.address_width ≤ 5
      → (3 ≤ new_width c n) × (new_width c n ≤ 5)
  new_width_fits c n lo hi = ground (arith, lo, hi)

  lawful : (aw : ℕ) → 3 ≤ aw → aw ≤ 5 → (if leb 3 aw && leb aw 5 then aw else 5) ≡ aw
  lawful aw lo hi = ground (arith, lo, hi)

  width_lem :
      (c : Config) (n : Cfg)
      → 3 ≤ c.address_width
      → c.address_width ≤ 5
      → width_of (merged bus c (some n)) ≡ new_width c n
  width_lem c n lo hi = let (p, q) = new_width_fits c n lo hi in lawful (new_width c n) p q

  addr_lem :
      (c : Config) (n : Cfg) (given : Option (List ℕ))
      → elim given as (λ _. Type 0) [ none ↦ Unit {0} | some a ↦ length a ≡ new_width c n ]
      → take (new_width c n) (elim given [
        | none ↦ c.tx_addr
        | some a ↦ take (new_width c n) a ++ drop (new_width c n) c.tx_addr
      ])
        ≡ elim given [ none ↦ take (new_width c n) c.tx_addr | some a ↦ a ]
  addr_lem c n none h = refl
  addr_lem c n (some a) h =
      let whole : take (new_width c n) a ≡ a = take_all (new_width c n) a (omega (arith, h)) in
      take-append_left (new_width c n) (take (new_width c n) a) (drop (new_width c n) c.tx_addr)
        (sym h ∙ ap (λ l. length {A = ℕ} l) (sym whole))
      ∙ whole

  merged_some :
      (c : Config) (n : Cfg) (given : Option (List ℕ))
      → length c.tx_addr ≡ 5
      → 3 ≤ new_width c n
      → elim given as (λ _. Type 0) [ none ↦ Unit {0} | some a ↦ length a ≡ new_width c n ]
      → 0
        < length (elim given as (λ _. List ℕ) [
          | none ↦ c.tx_addr
          | some a ↦ take (new_width c n) a ++ drop (new_width c n) c.tx_addr
        ])
  merged_some c n none long wide h = omega (arith, long)
  merged_some c n (some a) long wide h =
      let front = take (new_width c n) a in
      omega (
        arith,
        length-append front (drop (new_width c n) c.tx_addr),
        length-take (new_width c n) a,
        h,
        wide,
      )

  -- New settings for a device with an address of 3 to 5 bytes, the new address, if there is one, of
  -- the new width, on a chip that answers: nrf24_configure succeeds. It sends SETUP_AW for the new
  -- width, or the device's where that is not from 3 to 5; the new channel, rate, power and checksum;
  -- the repetitions and the payload mode of the device tree; the new address, or the device's, to
  -- both address registers; and the commands that empty the buffers and clear the interrupts, in this
  -- order and nothing else. Then it waits two milliseconds.
  pub nrf24_configure-exchanges :
      (c : Config) (n : Cfg) (d : Dev W)
      → 3 ≤ c.address_width
      → c.address_width ≤ 5
      → length c.tx_addr ≡ 5
      → IsGiven c n
      → let txs =
          exchanges
            (new_width c n - 2)
            (u8 (bit_or c.ard (bit_and c.arc 0x0F)))
            (bit_and n.channel 0x7F)
            (bit_or (rate_code n.data_rate) (power_code n.tx_power))
            (crc_code n.crc_mode + 2 + (if is_prx d.mode then 1 else 0))
            (payload_exchanges (list_eq c.payload_mode fixed_text) c.rx_payload_width)
            (new_addr c n) in
        nrf24_configure bus c (some n) d
        ≡ (ok tt, record d { world = bus.sleep_us 2000 (after_all txs d.world) })
  unfolding nrf24_configure SendsAnd
  nrf24_configure-exchanges c n d lo hi long given =
      let m = merged bus c (some n) in
      let (p, q) = new_width_fits c n lo hi in
      let width = width_lem c n lo hi in
      let addr = ap (λ w. take w m.tx_addr) width ∙ addr_lem c n n.tx_addr given in
      let aw = ap addr_aw_bits width ∙ aw_lem (new_width c n) p q in
      let rf = ap₂ bit_or (rate_lem n.data_rate) (power_lem n.tx_power) in
      let crc = config-bits m n.crc_mode (is_prx d.mode) (parse-crc_mode n.crc_mode) in
      let payload = ap (λ b. payload_exchanges b c.rx_payload_width) (payload_lem c.payload_mode) in
      let retr = u8 (bit_or c.ard (bit_and c.arc 0x0F)) in
      let channel = bit_and n.channel 0x7F in
      let sent : List (List ℕ) → Ret (Unit {0}) × Dev W =
        (λ txs. (ok tt, record d { world = bus.sleep_us 2000 (after_all txs d.world) })) in
      let w = new_width c n - 2 in
      let r = bit_or (rate_code n.data_rate) (power_code n.tx_power) in
      let k = crc_code n.crc_mode + 2 + (if is_prx d.mode then 1 else 0) in
      let l = payload_exchanges (list_eq c.payload_mode fixed_text) c.rx_payload_width in
      let r0 =
        bit_or (data_rate_bits (parse_data_rate m.data_rate))
          (tx_power_bits (parse_tx_power m.tx_power)) in
      let k0 = config_bits m (is_prx d.mode) in
      let l0 =
        payload_exchanges (is_fixed (parse_payload_mode c.payload_mode)) c.rx_payload_width in
      let a0 = take (width_of m) m.tx_addr in
      apply_config_with-Sends m (is_prx d.mode) (merged_some c n n.tx_addr long p given) d
      ∙ ap (λ a. sent (exchanges a retr channel r0 k0 l0 a0)) aw
      ∙ ap (λ a. sent (exchanges w retr channel a k0 l0 a0)) rf
      ∙ ap (λ a. sent (exchanges w retr channel r a l0 a0)) crc
      ∙ ap (λ a. sent (exchanges w retr channel r k a a0)) payload
      ∙ ap (λ a. sent (exchanges w retr channel r k l a)) addr
