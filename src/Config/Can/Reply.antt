-- ===== src/Config/Can/Reply.antt =====
-- The answers in frames, and the two ways to send a command.
use zephyr_app.Common.{
  Bool-cases, List, Option, [], ap, append-nil, arith, drop, drop-drop, false, get_or, if_both, inl,
  inr, length, length-append, length-drop, length-replicate, length-take, ltb, min, none, refl,
  replicate, some, suc, sym, take, take-append-drop, take-append_left, take-append_right, take_all,
  true, u8, zero, ℕ, ◌++◌, ◌+◌, ◌-◌, ◌<◌, ◌∙◌, ◌∷◌, ◌≡◌, ◌≤◌,
}
use zephyr_app.Zephyr.{CanFrame, Dlc}
use zephyr_app.Config.{Env, app_cmd_handler}
use zephyr_app.Modbus.{Registers}
use zephyr_app.Config.Limits.{HasAddress, length-dc_build_config_payload}
use zephyr_app.Config.Can.{
  can_send_config_resp, dc_can_app_rx, dc_can_cfg_cmd, dc_can_cfg_resp, dc_can_send, resp_frame,
  resp_loop,
}

-- What the host collects: the bytes behind the command and the sequence number of each frame.
pub resp_text : List CanFrame → List ℕ
resp_text [] = []
resp_text (f ∷ rest) = drop 2 f.bytes ++ resp_text rest

-- Frames 0x1A1 of 8 bytes with the command, numbered from `seq` on.
abbrev pub IsRespRun : ℕ → ℕ → List CanFrame → Type 0
IsRespRun sub seq [] = Unit
IsRespRun sub seq (f ∷ rest) =
    (f.id ≡ dc_can_cfg_resp)
    × (length f.bytes ≡ 8)
    × (get_or f.bytes 0 0 ≡ sub)
    × (get_or f.bytes 1 0 ≡ seq)
    × IsRespRun sub (seq + 1) rest

chunk_of : (len off : ℕ) → u8 (min (len - off) 6) ≡ min (len - off) 6
chunk_of len off = omega arith

-- a full frame before what follows, and a last frame with its padding
full_chunk :
    (n : ℕ) (rest more : List ℕ)
    → length rest ≡ n
    → 6 < n
    → take (n - 6) more ≡ drop 6 rest
    → take n ((take 6 rest ++ []) ++ more) ≡ rest
full_chunk n rest more size h e =
    let six : length (take 6 rest) ≡ 6 = omega (arith, length-take 6 rest, size, h) in
    rw
      (
        append-nil (take 6 rest),
        take-append_right n (take 6 rest) more (omega (arith, six, h)),
        six,
        e,
      )
      (take-append-drop 6 rest)

last_chunk :
    (n : ℕ) (rest zeros : List ℕ) → length rest ≡ n → take n ((take n rest ++ zeros) ++ []) ≡ rest
last_chunk n rest zeros size =
    rw (append-nil (take n rest ++ zeros), take_all n rest (omega (arith, size)))
      (take-append_left n rest zeros (sym size))

resp_loop-text :
    (fuel : ℕ) (dlc : Dlc) (sub : ℕ) (payload : List ℕ) (off seq : ℕ)
    → length payload < 256
    → off ≤ length payload
    → length payload - off < fuel
    → take (length payload - off) (resp_text (resp_loop fuel dlc true sub payload off seq))
      ≡ drop off payload
unfolding resp_loop resp_frame resp_text dc_can_send
resp_loop-text zero dlc sub payload off seq small p q = absurd (omega arith)
resp_loop-text (suc fuel) dlc sub payload off seq small p q =
    let len = length payload in
    let rest = drop off payload in
    let size : length rest ≡ len - off = length-drop off payload in
    elim (Bool-cases (ltb 6 (len - off))) [
      | inl e ↦
          let six : min (len - off) 6 ≡ 6 = ground (arith, e) in
          let next : u8 (off + 6) ≡ off + 6 = ground (arith, e, small) in
          let more : ltb (off + 6) len ≡ true = ground (arith, e) in
          let more_text =
            resp_text (resp_loop fuel dlc true sub payload (off + 6) (u8 (seq + 1))) in
          let left : len - off - 6 ≡ len - (off + 6) = omega arith in
          let ih =
            resp_loop-text fuel dlc sub payload (off + 6) (u8 (seq + 1)) small (ground (arith, e))
              (ground (arith, e, q)) in
          rw (chunk_of len off, six, next, more)
            (full_chunk (len - off) rest more_text size (ground (arith, e))
              (ap (λ k. take k more_text) left ∙ ih ∙ sym (drop-drop 6 off payload)))
      | inr e ↦
          let all : min (len - off) 6 ≡ len - off = ground (arith, e) in
          let next : u8 (off + (len - off)) ≡ len = ground (arith, small) in
          let last : ltb len len ≡ false = ground arith in
          rw (chunk_of len off, all, next, last) (last_chunk (len - off) rest _ size)
    ]

resp_loop-IsRespRun :
    (fuel : ℕ) (dlc : Dlc) (sub : ℕ) (payload : List ℕ) (off seq : ℕ)
    → length payload < 256
    → off ≤ length payload
    → seq + (length payload - off) < 256
    → IsRespRun sub seq (resp_loop fuel dlc true sub payload off seq)
unfolding resp_loop resp_frame dc_can_send
resp_loop-IsRespRun zero dlc sub payload off seq small p h = tt
resp_loop-IsRespRun (suc fuel) dlc sub payload off seq small p h =
    let len = length payload in
    let chunk = u8 (min (len - off) 6) in
    let frame = resp_frame dlc sub payload off seq in
    let size : length (take chunk (drop off payload) ++ replicate (6 - chunk) 0) ≡ 6 = omega (
      arith,
      length-append (take chunk (drop off payload)) (replicate (6 - chunk) 0),
      length-take chunk (drop off payload),
      length-drop off payload,
      length-replicate {A = ℕ} (6 - chunk) 0,
    ) in
    if_both (IsRespRun sub seq) (ltb (u8 (off + chunk)) len) _ _
      (λ e.
        let at : u8 (off + chunk) ≡ off + 6 = ground (arith, e, small, p) in
        let seq_next : u8 (seq + 1) ≡ seq + 1 = ground (arith, e, small, p, h, at) in
        (
          refl,
          ap (λ k. suc (suc k)) size,
          refl,
          refl,
          rw (at, seq_next)
              (resp_loop-IsRespRun fuel dlc sub payload (off + 6) (seq + 1) small
                (ground (arith, e, at)) (ground (arith, e, at, h))),
        ))
      (λ e. (refl, ap (λ k. suc (suc k)) size, refl, refl, tt))

-- The frames are numbered and hold the answer in order; none are sent where there is none.
abbrev pub Carries : ℕ → Option (List ℕ) → List CanFrame → Type 0
Carries sub none frames = frames ≡ []
Carries sub (some resp) frames =
    IsRespRun sub 0 frames × (take (length resp) (resp_text frames) ≡ resp)

reply-Carries :
    (dlc : Dlc) (sub : ℕ) (out : Option (List ℕ))
    → ((resp : List ℕ) → out ≡ some resp → length resp ≤ 8)
    → Carries sub out (elim out [ none ↦ [] | some resp ↦ can_send_config_resp dlc true sub resp ])
unfolding can_send_config_resp
reply-Carries dlc sub none h = refl
reply-Carries dlc sub (some resp) h =
    let short : length resp ≤ 8 = h resp refl in
    let whole : length resp ≡ length resp - 0 = omega arith in
    (
      resp_loop-IsRespRun (suc (length resp)) dlc sub resp 0 0 (omega (arith, short)) (omega arith)
          (omega (arith, short)),
      ap (λ k. take k (resp_text (can_send_config_resp dlc true sub resp))) whole
          ∙ resp_loop-text (suc (length resp)) dlc sub resp 0 0 (omega (arith, short)) (omega arith)
              (omega arith),
    )

-- the frame of a command
abbrev pub command_frame : ℕ → ℕ → List ℕ → CanFrame
command_frame sub d bytes = record { id = dc_can_cfg_cmd; dlc = d; bytes = sub ∷ bytes }

-- A command frame on CAN with a payload of 1 to 7 bytes does what the same command does over UDP:
-- it leaves the same registers and sets off the same; the answer comes in frames 0x1A1 numbered
-- from 0, whose bytes in order begin with the answer over UDP, and no frame is sent where UDP has no
-- answer.
pub can_udp_same :
    (dlc : Dlc) (e : Env) (r : Registers) (sub d : ℕ) (req pad : List ℕ)
    → HasAddress e.live_ipv4
    → dlc.to_bytes d ≡ suc (length req)
    → 1 ≤ length req
    → length req ≤ 7
    → let (t, done, frames, mine) = dc_can_app_rx dlc true e r (command_frame sub d (req ++ pad)) in
      let (u, sets, out) = app_cmd_handler e r sub req in
      (t ≡ u) × (done ≡ sets) × (mine ≡ true) × Carries sub out frames
unfolding dc_can_app_rx app_cmd_handler
can_udp_same dlc e r sub d req pad live size one seven =
    let n : u8 (min (suc (length req) - 1) 7) ≡ length req = omega (arith, seven) in
    let long : ltb (suc (length req)) 2 ≡ false = ground (arith, one) in
    let same = take-append_left (length req) req pad refl in
    rw (size, n, long, same)
      (
        refl,
        refl,
        refl,
        reply-Carries dlc sub _
            (λ resp g. (length-dc_build_config_payload e r sub req 8 resp live g).2),
      )
