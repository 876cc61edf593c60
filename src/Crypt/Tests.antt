-- ===== src/Crypt/Tests.antt =====
-- Runs of the link encryption on concrete frames.
use zephyr_app.Common.{
  List, [], arith, drop, false, get_or, length, refl, take, true, u32, ℕ, ◌++◌, ◌∷◌, ◌≡◌, ◌≢◌,
}
use zephyr_app.Crypt.{Crypt, crypt_open, crypt_seal, ctr_xor, infer_counter, rx_reset, set_key}
use zephyr_app.Crypt.Stream.{ctr_xor_twice}
use zephyr_app.Crypt.Window.{crypt_open_replay, later}
use zephyr_app.Crypt.Link.{
  IsBehind, Sending, arrivals, open-seal, room, rx_reset_out_of_step, set_key-IsBehind, transmit,
  transmit_lem,
}

abbrev address : List ℕ
address = 0xE7 ∷ 0xD3 ∷ 0xF0 ∷ 0x35 ∷ 0x77 ∷ []

abbrev blank : Crypt
blank = record {
  crypt_key = 0 ∷ 0 ∷ 0 ∷ 0 ∷ [];
  tx_counter = 9;
  rx_counter = 7;
  rx_initialized = true;
}

abbrev key : List ℕ
key = 0xE7D3F035 ∷ 0x77E7D3F0 ∷ 0x3577E7D3 ∷ 0xF03577E7 ∷ []

abbrev gateway : Crypt
gateway = record { crypt_key = key; tx_counter = 300; rx_counter = 0; rx_initialized = false }

abbrev handle : Crypt
handle = record { crypt_key = key; tx_counter = 0; rx_counter = 298; rx_initialized = true }

abbrev frame : List ℕ
frame = 0x02 ∷ 0xE4 ∷ 0x11 ∷ 0x22 ∷ 0x33 ∷ 0x44 ∷ 0x55 ∷ 0x66 ∷ 0x77 ∷ 0x88 ∷ 0 ∷ []

set_key_bytes : (set_key blank address).crypt_key ≡ key
unfolding set_key
set_key_bytes = refl

seal_runs :
    let (s, out, n) = crypt_seal gateway frame 10 in
    (s.tx_counter ≡ 301) × (n ≡ 11) × (get_or out 0 0 ≡ 44) × (length out ≡ 11)
unfolding crypt_seal ctr_xor
seal_runs = (refl, refl, refl, refl)

open_runs :
    let (s, out, n) = crypt_open handle (crypt_seal gateway frame 10).1 11 in
    (s.rx_counter ≡ 300) × (n ≡ 10) × (take 10 out ≡ take 10 frame)
unfolding crypt_seal crypt_open infer_counter ctr_xor
open_runs = (refl, refl, refl)

ctr_xor_twice_example : ctr_xor key (ctr_xor key frame 10 300) 10 300 ≡ frame
ctr_xor_twice_example = ctr_xor_twice key frame 10 300 (omega arith) (omega arith)

accepted_frame : (crypt_open handle (44 ∷ frame) 11).2 ≢ 0
unfolding crypt_open infer_counter
accepted_frame e = omega arith

crypt_open_replay_example :
    let t = later (crypt_open handle (44 ∷ frame) 11).0 200 in
    crypt_open t (44 ∷ frame) 11 ≡ (t, 44 ∷ frame, 0)
crypt_open_replay_example =
    crypt_open_replay handle 44 frame 11 200 (omega arith) accepted_frame (omega arith)

in_step-IsBehind : IsBehind 2 gateway handle
in_step-IsBehind = record {
  one_key = refl;
  tx_fits = omega arith;
  rx_fits = omega arith;
  started = λ i. refl;
  fresh = λ i. cc;
}

open-seal_example :
    let o = crypt_open handle (crypt_seal gateway frame 10).1 (crypt_seal gateway frame 10).2 in
    (take 10 o.1 ≡ take 10 frame)
    × (o.2 ≡ 10)
    × (o.0 ≡ record handle { rx_counter = 300; rx_initialized = true })
    × ((crypt_seal gateway frame 10).0 ≡ record gateway { tx_counter = u32 301 })
open-seal_example =
    open-seal 2 gateway handle frame 10 in_step-IsBehind (omega arith) (omega arith) (omega arith)
      (omega arith) (omega arith)

abbrev traffic : List Sending
traffic =
    record { plaintext = 1 ∷ 2 ∷ 3 ∷ []; delivered = true }
    ∷ record { plaintext = 4 ∷ 5 ∷ []; delivered = false }
    ∷ record { plaintext = 6 ∷ 7 ∷ 8 ∷ 9 ∷ []; delivered = true }
    ∷ []

transmit_lem_example : transmit gateway handle traffic ≡ arrivals traffic
transmit_lem_example =
    transmit_lem 2 gateway handle traffic in_step-IsBehind (omega arith) (omega arith)

set_key-IsBehind_example : IsBehind 1 (set_key gateway address) (set_key blank address)
set_key-IsBehind_example = set_key-IsBehind gateway blank address (omega arith)

rx_reset_out_of_step_example :
    let o =
      crypt_open
        (rx_reset handle)
        (crypt_seal gateway frame 10).1
        (crypt_seal gateway frame 10).2 in
    let ciphered = ctr_xor gateway.crypt_key (room frame 10) 10 300 in
    let deciphered = ctr_xor handle.crypt_key ciphered 10 44 in
    (o.1 ≡ take 10 deciphered ++ drop 10 (44 ∷ deciphered))
    × (o.2 ≡ 10)
    × (o.0.rx_counter ≡ 44)
    × (o.0.rx_counter ≢ 300)
rx_reset_out_of_step_example =
    rx_reset_out_of_step gateway handle frame 10 (omega arith) (omega arith) (omega arith)
      (omega arith)
