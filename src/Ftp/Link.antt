-- ===== src/Ftp/Link.antt =====
-- The data connection: PORT, EPRT, PASV and EPSV of ftp_cmds.c.
use zephyr_app.Common.{
  Bool, List, Option, [], drop, false, get_or, if◌then◌else◌, length, list_eq, ltb, none, not, some,
  suc, true, zero, ℕ, ◌%◌, ◌*◌, ◌++◌, ◌+◌, ◌/◌, ◌==◌, ◌^◌, ◌∷◌,
}
use zephyr_app.Ftp.{
  Io, Os, Outcome, Reply, Session, answer, call, call_, fault, given, look, pure, reply, stale,
  ◌>>=◌, ◌>>◌,
}
use zephyr_app.Ftp.Text.{ftp_data_port}
use zephyr_app.Ftp.Text.Cmd

-- the part before the first `c`, and the part behind it
unfoldable pub cut : ℕ → List ℕ → Option (List ℕ × List ℕ)
cut c [] = none
cut c (x ∷ text) =
    if x == c
    then some ([], text)
    else elim (cut c text) [ none ↦ none | some (before, behind) ↦ some (x ∷ before, behind) ]

-- from the first ',' on
unfoldable pub from_comma : List ℕ → Option (List ℕ)
from_comma [] = none
from_comma (x ∷ text) = if x == b',' then some (x ∷ text) else from_comma text

abbrev pub past_comma : List ℕ → List ℕ
past_comma [] = []
past_comma (x ∷ text) = if x == b',' then text else x ∷ text

abbrev pub above_zero : Option ℕ → Bool
above_zero none = false
above_zero (some fd) = ltb 0 fd

module _ {W : Type 0} (os : Os W) where
  -- The loop of PORT, for as many numbers as are missing: those up to the first that is negative or
  -- above 255.
  unfoldable pub portcom : ℕ → Option (List ℕ) → List ℕ
  portcom zero ptr = []
  portcom (suc missing) none = []
  portcom (suc missing) (some ptr) =
      let text = past_comma ptr in
      elim (os.atoi text) [
        | none ↦ []
        | some n ↦
            let more = portcom missing (from_comma text) in if ltb 255 n then [] else n ∷ more
      ]

  abbrev pub close_fd : Option ℕ → Io W (Unit {0})
  close_fd none = pure tt
  close_fd (some fd) = call_ (os.close fd)

  -- Both descriptors of the data connection, the second if it is above 0.
  unfoldable pub close_link : Session → Io W Session
  close_link s = do
    close_fd s.port_pasv_fd
    close_fd (if above_zero s.pasvs_fd then s.pasvs_fd else none)
    pure (record s {
      port_pasv_fd = none;
      pasvs_fd = if above_zero s.pasvs_fd then none else s.pasvs_fd;
    })

  -- The socket, bound to port 20 and connected.
  unfoldable pub open_port : Session → List ℕ → ℕ → Io W (Bool × Session)
  open_port s ip port = do
    fd ← call os.socket
    let t = record s { port_pasv_fd = fd }
    elim fd [
      | none ↦ pure (false, t)
      | some n ↦ do
        bound ← call (os.bind_any n ftp_data_port)
        if not bound then pure (false, t) else (do
          timed ← call (os.send_timeout n)
          if not timed
              then pure (false, t)
              else (do connected ← call (os.connect n ip port); pure (connected, t)))
    ]

  -- From where the address and the port are known.
  unfoldable pub connect_port : Session → List ℕ → ℕ → Io W Outcome
  connect_port s ip port = do
    (done, t) ← open_port s ip port
    if done then answer os t (reply 200 []) else (do
      call_ (os.send t.fd (reply 425 []))
      elim t.port_pasv_fd [ none ↦ pure (true, t) | some n ↦ do u ← close_link t; pure (true, u) ])

  -- "%d.%d.%d.%d"
  unfoldable pub address_text : List ℕ → List ℕ
  address_text n =
      os.decimal (get_or n 0 0)
      ++ (b'.'
          ∷ (os.decimal (get_or n 1 0)
              ++ (b'.' ∷ (os.decimal (get_or n 2 0) ++ (b'.' ∷ os.decimal (get_or n 3 0))))))

  -- The part of PORT.
  unfoldable pub port_numbers : Session → Option (List ℕ) → Io W Outcome
  port_numbers s param =
      let n = portcom 6 param in
      if ltb (length n) 6
      then answer os s (reply 504 [])
      else connect_port s (address_text n) (get_or n 4 0 * 2 ^ 8 + get_or n 5 0)

  -- The part of EPRT, `|1|address|port|`; without one of the two '|' behind the address a null
  -- pointer is written to.
  unfoldable pub eprt_text : Session → Option (List ℕ) → Io W Outcome
  eprt_text s param = do
    text ← given param
    if not (get_or text 1 0 == b'1') then answer os s (reply 425 []) else (do
      (ip, rest) ← given (cut b'|' (drop 3 text))
      (port, behind) ← given (cut b'|' rest)
      connect_port s ip (elim (os.atoi port) [ none ↦ 0 | some n ↦ n ]))

  -- Of another name that begins with PORT or EPRT nothing sets the address.
  unfoldable pub port_cmd_fn : Session → List ℕ → Option (List ℕ) → Io W Outcome
  port_cmd_fn s cmd param = do
    t ← elim s.port_pasv_fd [ none ↦ pure s | some n ↦ close_link s ]
    if list_eq cmd Cmd.port
        then port_numbers t param
        else if list_eq cmd Cmd.eprt
        then eprt_text t param
        else fault

  -- What PASV and EPSV answer on a listening socket; of another name the buffer is sent as it was.
  unfoldable pub pasv_reply : List ℕ → ℕ → W → Reply
  pasv_reply cmd port w =
      if list_eq cmd Cmd.pasv
      then elim (os.own_address w) [
        | none ↦ stale
        | some addr ↦ reply 227 (addr ++ (port / 2 ^ 8 ∷ (port % 2 ^ 8) ∷ []))
      ]
      else if list_eq cmd Cmd.epsv
      then reply 229 (port ∷ [])
      else stale

  abbrev finish_pasv : Session → Reply → Io W Outcome
  finish_pasv s r = do call_ (os.send s.fd r); call_ os.buf_free; pure (true, s)

  unfoldable pub pasv_cmd_fn : Session → List ℕ → Io W Outcome
  pasv_cmd_fn s cmd = do
    got ← call os.buf_alloc
    if not got then pure (false, s) else (do
      fd ← call os.socket
      let t = record s { pasvs_fd = fd }
      elim fd [
        | none ↦ finish_pasv t (reply 504 [])
        | some n ↦ do
          bound ← call (os.bind_any n 0)
          if not bound then finish_pasv t (reply 504 []) else (do
            port ← look (os.port_of n)
            heard ← call (os.listen n)
            answered ← look (pasv_reply cmd port)
            finish_pasv t (if heard then answered else reply 504 []))
      ])

  -- `pasv_accept` where a socket listens
  unfoldable pub accept_link : Session → Io W Session
  accept_link s = elim (if above_zero s.pasvs_fd then s.pasvs_fd else none) [
    | none ↦ pure s
    | some n ↦ do fd ← call (os.accept n); pure (record s { port_pasv_fd = fd })
  ]
