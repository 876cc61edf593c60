-- ===== src/Nrf24/Send.antt =====
-- Sending in nrf24l01p.c: nrf24_send.
pub mod Restore
use zephyr_app.Common.{
  Bool, List, Option, bit_and, false, if◌then◌else◌, length, ltb, none, not, some, true, u32, ℕ,
  ◌+◌, ◌-◌, ◌==◌, ◌^◌, ◌||◌,
}
use zephyr_app.Nrf24.{
  Bus, Code, Dev, Io, Ret, act, caught, change, cmd_locked, eagain, einval, eio, err, has_bit,
  ignored, look, max_payload, max_rt, ok, prx, ptx, pure, reg_write_locked, set_mode_locked,
  tx_bits, write_tx_payload_locked, ◌>>=◌, ◌>>◌,
}
use zephyr_app.Nrf24.Reg
use zephyr_app.Nrf24.Spi

-- `struct nrf24_tx_result`
pub record TxResult : Type 0 where
  pub acked : Bool
  elapsed_ms : ℕ
  pub retransmits : ℕ

-- What nrf24_send returns, with what it writes of a result.
pub record Sent : Type 0 where
  pub ret : Ret (Unit {0})
  pub result : Option TxResult

abbrev pub failed : Code → Sent
failed c = record { ret = err c; result = none }

abbrev pub is_empty_or_long : List ℕ → Bool
is_empty_or_long bytes = length bytes == 0 || ltb max_payload (length bytes)

module _ {W : Type 0} (bus : Bus W) where
  -- The transmission that nothing has ended, and the ones that the chip has.
  pub timed_out : ℕ → Io W Sent
  timed_out elapsed = do
    ignored (cmd_locked bus Spi.flush_tx)
    ignored (reg_write_locked bus Reg.status tx_bits)
    pure (record {
      ret = err eagain;
      result = some (record { acked = false; elapsed_ms = elapsed; retransmits = 0 });
    })

  pub ended : ℕ → Io W Sent
  ended elapsed d =
      let lost : Bool = has_bit d.last_status max_rt in
      let sent : Sent = record {
        ret = if lost then err eio else ok tt;
        result = some (record {
          acked = not lost;
          elapsed_ms = elapsed;
          retransmits = bit_and d.last_observe_tx 0x0F;
        });
      } in
      if lost then (do ignored (cmd_locked bus Spi.flush_tx); pure sent) d else (ok sent, d)

  -- From the pulse on CE on. `wait` is the time without the lock: what the other threads do, and
  -- whether the semaphore was taken.
  pub on_air : (Dev W → Bool × Dev W) → Io W Sent
  on_air wait = do
    since ← look (λ d. bus.uptime d.world)
    act (bus.set_ce true)
    act (bus.sleep_us 15)
    taken ← λ d. (ok (wait d).0, (wait d).1)
    now ← look (λ d. bus.uptime d.world)
    act (bus.set_ce false)
    let elapsed = u32 (now + 2 ^ 32 - since)
    if taken then ended elapsed else timed_out elapsed

  pub nrf24_send : (Dev W → Bool × Dev W) → List ℕ → Io W Sent
  nrf24_send wait bytes =
      let whole : Io W Sent = (do
        change (λ d. record d { tx_done = false })
        switched ← caught (set_mode_locked bus ptx)
        elim switched [
          | err c ↦ pure (failed c)
          | ok done ↦ do
            ignored (cmd_locked bus Spi.flush_tx)
            ignored (reg_write_locked bus Reg.status tx_bits)
            written ← caught (write_tx_payload_locked bus bytes)
            sent ← elim written [ err c ↦ pure (failed c) | ok done ↦ on_air wait ]
            ignored (set_mode_locked bus prx)
            pure sent
        ]) in
      if is_empty_or_long bytes then pure (failed einval) else whole
