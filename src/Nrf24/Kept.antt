-- ===== src/Nrf24/Kept.antt =====
-- What the driver's exchanges over SPI leave as it is: predicates on the state that do not look at
-- the bus.
use zephyr_app.Common.{Bool, List, drop, false, get_or, if◌then◌else◌, take, true, ℕ}
use zephyr_app.Nrf24.{
  Bus, Dev, Io, Ret, bind_from, caught, change, cmd_locked, err, ignored, nrf24_xfer, ok, pure,
  read_rx_payload_locked, read_rx_pl_wid_locked, reg_read_locked, reg_write_locked, ◌>>=◌,
}

module _ {W : Type 0} (P : Dev W → Type 0) where
  unfoldable pub Kept : {A : Type 0} → Io W A → Type 0
  Kept m = (d : Dev W) → P d → P (m d).1

  pub pure-Kept : {A : Type 0} (a : A) → Kept (pure a)
  unfolding Kept
  pure-Kept a d p = p

  pub bind-Kept :
      {A B : Type 0} (m : Io W A) (f : A → Io W B)
      → Kept m
      → ((a : A) → Kept (f a))
      → Kept (m >>= f)
  unfolding Kept
  bind-Kept {A} m f h k d p = next (m d).0 (m d).1 (h d p)
    where
      next : (r : Ret A) (e : Dev W) → P e → P (bind_from f r e).1
      next (ok a) e q = k a e q
      next (err c) e q = q

  pub caught-Kept : {A : Type 0} (m : Io W A) → Kept m → Kept (caught m)
  unfolding Kept
  caught-Kept m h d p = h d p

  pub ignored-Kept : {A : Type 0} (m : Io W A) → Kept m → Kept (ignored m)
  unfolding Kept
  ignored-Kept m h d p = h d p

  pub change-Kept : (f : Dev W → Dev W) → ((d : Dev W) → P d → P (f d)) → Kept (change f)
  unfolding Kept
  change-Kept f h d p = h d p

  pub if-Kept : {A : Type 0} (b : Bool) (m k : Io W A) → Kept m → Kept k → Kept (if b then m else k)
  if-Kept true m k h l = h
  if-Kept false m k h l = l

  module _ (bus : Bus W) (blind : (d : Dev W) (w : W) → P d → P (record d { world = w })) where
    nrf24_xfer-Kept : (tx : List ℕ) → Kept (nrf24_xfer bus tx)
    unfolding Kept nrf24_xfer
    nrf24_xfer-Kept tx d p = blind d _ p

    pub reg_read_locked-Kept : (reg : ℕ) → Kept (reg_read_locked bus reg)
    unfolding reg_read_locked
    reg_read_locked-Kept reg = bind-Kept _ _ (nrf24_xfer-Kept _) (λ rx. pure-Kept (get_or rx 1 0))

    pub reg_write_locked-Kept : (reg v : ℕ) → Kept (reg_write_locked bus reg v)
    unfolding reg_write_locked
    reg_write_locked-Kept reg v = bind-Kept _ _ (nrf24_xfer-Kept _) (λ rx. pure-Kept tt)

    pub cmd_locked-Kept : (cmd : ℕ) → Kept (cmd_locked bus cmd)
    unfolding cmd_locked
    cmd_locked-Kept cmd = bind-Kept _ _ (nrf24_xfer-Kept _) (λ rx. pure-Kept tt)

    pub read_rx_pl_wid_locked-Kept : Kept (read_rx_pl_wid_locked bus)
    unfolding read_rx_pl_wid_locked
    read_rx_pl_wid_locked-Kept = bind-Kept _ _ (nrf24_xfer-Kept _) (λ rx. pure-Kept (get_or rx 1 0))

    pub read_rx_payload_locked-Kept : (len : ℕ) → Kept (read_rx_payload_locked bus len)
    unfolding read_rx_payload_locked
    read_rx_payload_locked-Kept len =
        bind-Kept _ _ (nrf24_xfer-Kept _) (λ rx. pure-Kept (take len (drop 1 rx)))
