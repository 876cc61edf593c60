-- ===== src/Ftp/Server.antt =====
-- The table of sessions in ftpd.c: what the loop does for a new client and for what a client sent.
use zephyr_app.Common.{
  Bool-cases, List, Option, [], arith, false, if_both, if◌then◌else◌, inl, inr, length, ltb, none,
  some, take, ℕ, ◌+◌, ◌==◌, ◌∷◌, ◌≤◌,
}
use zephyr_app.Ftp.{Io, Os, Session, call_, fault, pure, reply, user, ◌>>◌}
use zephyr_app.Ftp.Link.{close_fd}
use zephyr_app.Ftp.Handler.{ftp_proccess}

abbrev max_clients : ℕ
max_clients = 4

-- `ftp_session_reset`
abbrev pub ftp_session_reset : Session
ftp_session_reset = record {
  fd = 0;
  is_anonymous = false;
  port_pasv_fd = none;
  pasvs_fd = none;
  offset = 0;
  type = 0;
  state = user;
  currentdir = [];
}

-- `connect_num`, as the loop counts it
connect_num : List Session → ℕ
connect_num [] = 0
connect_num (s ∷ rest) = (if ltb 0 s.fd then 1 else 0) + connect_num rest

-- The first free session gets the client: none where all are taken.
seat : ℕ → List Session → Option (List Session)
seat client [] = none
seat client (s ∷ rest) =
    if s.fd == 0
    then some (record s { fd = client; port_pasv_fd = none; pasvs_fd = none } ∷ rest)
    else elim (seat client rest) [ none ↦ none | some more ↦ some (s ∷ more) ]

module _ {W : Type 0} (os : Os W) (root torn : List ℕ) (fuel : ℕ) where
  -- `ftp_session_release`
  ftp_session_release : Session → Io W Session
  ftp_session_release s = do
    call_ (os.close s.fd)
    close_fd os s.port_pasv_fd
    close_fd os s.pasvs_fd
    pure ftp_session_reset

  -- A client that was accepted: two messages of the loop are replies without a number, 0.
  new_client : List Session → ℕ → Io W (List Session)
  new_client sessions client =
      if ltb 2 (connect_num sessions)
      then (do call_ (os.send client (reply 0 [])); call_ (os.close client); pure sessions)
      else elim (seat client sessions) [
        | none ↦ do call_ (os.close client); pure sessions
        | some seated ↦ do call_ (os.send client (reply 220 [])); pure seated
      ]

  -- What `recv` gave for a session, none for an error: nothing is the end of the connection. The last
  -- two bytes are cut off; of one byte, or an error, a byte before the buffer is written.
  pub received : Session → Option (List ℕ) → Io W Session
  received s none = fault
  received s (some []) = ftp_session_release s
  received s (some (c ∷ [])) = fault
  received s (some (c ∷ d ∷ bytes)) =
      ftp_proccess os root torn fuel s (take (length bytes) (c ∷ d ∷ bytes))

abbrev Seats : List Session → Option (List Session) → Type 0
Seats sessions none = Unit
Seats sessions (some seated) = connect_num seated ≤ connect_num sessions + 1

seat-Seats : (client : ℕ) (sessions : List Session) → Seats sessions (seat client sessions)
unfolding seat connect_num
seat-Seats client [] = tt
seat-Seats client (s ∷ rest) =
    if_both (Seats (s ∷ rest)) (s.fd == 0) _ _ (λ e. ground arith)
      (λ e. next (seat client rest) (seat-Seats client rest))
  where
    next :
        (out : Option (List Session))
        → Seats rest out
        → Seats (s ∷ rest) (elim out [ none ↦ none | some more ↦ some (s ∷ more) ])
    next none h = tt
    next (some more) h = omega (arith, h)

-- the sessions that are left, wherever there is no fault
abbrev Few : {W : Type 0} → Option (List Session × W) → Type 0
Few none = Unit
Few (some (sessions, w)) = connect_num sessions ≤ 3

-- A new client never makes more than three connections.
new_client-Few :
    {W : Type 0} (os : Os W) (root torn : List ℕ) (fuel : ℕ) (sessions : List Session) (client : ℕ)
    (w : W)
    → connect_num sessions ≤ 3
    → Few (new_client os root torn fuel sessions client w)
unfolding new_client
new_client-Few {W} os root torn fuel sessions client w h =
    elim (Bool-cases (ltb 2 (connect_num sessions))) [
      | inl e ↦ rw e h
      | inr e ↦ rw e (next (seat client sessions) (seat-Seats client sessions) (ground (arith, e)))
    ]
  where
    next :
        (out : Option (List Session))
        → Seats sessions out
        → connect_num sessions ≤ 2
        → Few (
            (elim out as (λ _. Io W (List Session)) [
              | none ↦ do call_ (os.close client); pure sessions
              | some seated ↦ do call_ (os.send client (reply 220 [])); pure seated
            ])
              w)
    next none k few = h
    next (some seated) k few = omega (arith, k, few)
