-- ===== src/Ftp/Transfer.antt =====
-- The commands that use the data connection: LIST, NLST, RETR and STOR of ftp_cmds.c. A loop takes
-- fuel from its caller and is a fault where that runs out.
pub mod Retr
pub mod Listing
use zephyr_app.Common.{
  Bool, List, Option, [], drop, false, if◌then◌else◌, length, ltb, none, not, some, suc, take, true,
  zero, ℕ, ◌&&◌, ◌++◌, ◌+◌, ◌-◌, ◌==◌, ◌∷◌,
}
use zephyr_app.Ftp.{
  Io, Os, Outcome, Session, Stat, answer, answer_buffered, call, call_, fault, given, look, pure,
  reply, ◌>>=◌, ◌>>◌,
}
use zephyr_app.Ftp.Path.{build_full_path, slash}
use zephyr_app.Ftp.Link.{accept_link, close_link}

-- What a buffer of the slab holds, and how much of it a list uses.
abbrev pub buf_size : ℕ
buf_size = 1024

abbrev pub list_size : ℕ
list_size = 1024 - 256

-- "drwxrwxrwx": `letters` for the bits that are set
unfoldable pub mode_text : List Bool → List ℕ → List ℕ
mode_text [] letters = []
mode_text (b ∷ bits) [] = []
mode_text (b ∷ bits) (c ∷ letters) = (if b then c else b'-') ∷ mode_text bits letters

unfoldable pub letters : List ℕ
letters = b'r' ∷ b'w' ∷ b'x' ∷ b'r' ∷ b'w' ∷ b'x' ∷ b'r' ∷ b'w' ∷ b'x' ∷ []

abbrev admin_twice : List ℕ
admin_twice = b' ' ∷ b'a' ∷ b'd' ∷ b'm' ∷ b'i' ∷ b'n' ∷ b' ' ∷ b'a' ∷ b'd' ∷ b'm' ∷ b'i' ∷ b'n' ∷ []

module _ {W : Type 0} (os : Os W) where
  -- `ftp_data_send`, in pieces of at most 256 bytes: true where all went.
  unfoldable pub ftp_data_send : ℕ → ℕ → List ℕ → Io W Bool
  ftp_data_send zero fd [] = pure true
  ftp_data_send zero fd (c ∷ left) = fault
  ftp_data_send (suc fuel) fd [] = pure true
  ftp_data_send (suc fuel) fd (c ∷ left) = do
    result ← call (os.send_data fd (take 256 (c ∷ left)))
    elim result [
      | none ↦ pure false
      | some n ↦
          let more = ftp_data_send fuel fd (drop n (c ∷ left)) in
          if n == 0 then pure false else more
    ]

  -- `list_statbuf_get`, for a line that fits in its 256 bytes
  unfoldable pub list_statbuf_get : List ℕ → Stat → W → List ℕ
  list_statbuf_get name st w =
      let links = os.decimal st.st_nlink ++ admin_twice in
      let sized = b' ' ∷ (os.decimal st.st_size ++ (b' ' ∷ os.date st.st_mtime w)) in
      let ended = b' ' ∷ (name ++ (b'\r' ∷ b'\n' ∷ [])) in
      let bits = mode_text st.mode letters in
      (if st.is_dir then b'd' else b'-') ∷ (bits ++ (b' ' ∷ (links ++ (sized ++ ended))))

  -- One pass of LIST for an entry: what waits in the buffer is sent where the line has no room
  -- behind it. An entry that `stat` does not find is left out.
  unfoldable pub list_entry : ℕ → ℕ → List ℕ → List ℕ → List ℕ → Io W (List ℕ)
  list_entry fuel fd dir waiting name = do
    found ← look (os.stat (take 255 (dir ++ (slash ∷ name))))
    elim found [
      | none ↦ pure waiting
      | some st ↦ do
        line ← look (list_statbuf_get name st)
        if ltb list_size (length waiting + length line)
            then (do sent ← ftp_data_send fuel fd waiting; pure line)
            else pure (waiting ++ line)
    ]

  -- The loop of LIST: what is left in the buffer at its end.
  unfoldable pub list_loop : ℕ → ℕ → List ℕ → List ℕ → Io W (List ℕ)
  list_loop zero fd dir waiting = fault
  list_loop (suc fuel) fd dir waiting = do
    entry ← call os.readdir
    elim entry [
      | none ↦ pure waiting
      | some name ↦ do now ← list_entry buf_size fd dir waiting name; list_loop fuel fd dir now
    ]

  unfoldable pub nlist_loop : ℕ → ℕ → Io W (Unit {0})
  nlist_loop zero fd = fault
  nlist_loop (suc fuel) fd = do
    entry ← call os.readdir
    elim entry [
      | none ↦ pure tt
      | some name ↦ do
        sent ← call (os.send_data fd (take 255 (name ++ (b'\r' ∷ b'\n' ∷ []))))
        nlist_loop fuel fd
    ]

  -- What LIST and NLST share: `body` gets the data connection.
  unfoldable pub with_list : (ℕ → List ℕ → Io W (Unit {0})) → Session → Io W Outcome
  with_list body s = do
    t ← accept_link os s
    elim t.port_pasv_fd [
      | none ↦ answer os t (reply 502 [])
      | some fd ↦ do
        opened ← call (os.opendir t.currentdir)
        if not opened then answer_buffered os t (reply 550 t.currentdir) else (do
          call_ (os.send t.fd (reply 150 []))
          body fd t.currentdir
          call_ os.closedir
          u ← close_link os t
          answer os u (reply 226 []))
    ]

  -- Without a buffer LIST writes through a null pointer. What is left in the buffer at the end of the
  -- directory is not sent.
  unfoldable pub list_body : ℕ → ℕ → List ℕ → Io W (Unit {0})
  list_body fuel fd dir = do
    got ← call os.buf_alloc
    if not got then fault else (do left ← list_loop fuel fd dir []; call_ os.buf_free)

  unfoldable pub list_cmd_fn : ℕ → Session → Io W Outcome
  list_cmd_fn fuel s = with_list (list_body fuel) s

  unfoldable pub nlist_cmd_fn : ℕ → Session → Io W Outcome
  nlist_cmd_fn fuel s = with_list (λ fd dir. nlist_loop fuel fd) s

  -- The loop of RETR: true where the file went to its end.
  unfoldable pub retr_loop : ℕ → ℕ → ℕ → Io W Bool
  retr_loop zero file fd = fault
  retr_loop (suc fuel) file fd = do
    bytes ← call (os.read file buf_size)
    elim bytes [
      | [] ↦ pure true
      | c ∷ more ↦ do
        sent ← ftp_data_send buf_size fd (c ∷ more)
        let rest = retr_loop fuel file fd
        if sent then rest else pure false
    ]

  -- From where the transfer is over.
  unfoldable pub retr_end : Session → ℕ → Bool → Io W Outcome
  retr_end s file done = do
    call_ os.buf_free
    call_ (os.close file)
    t ← close_link os s
    call_ (os.send t.fd (reply (if done then 226 else 426) []))
    pure (true, record t { offset = 0 })

  -- From where the file is open and its size known. The reply gives the number of bytes to come.
  unfoldable pub retr_file : ℕ → Session → List ℕ → ℕ → ℕ → ℕ → Io W Outcome
  retr_file fuel s path file size fd = do
    got ← call os.buf_alloc
    if not got then (do call_ (os.close file); pure (false, s)) else (do
      let from = if ltb 0 s.offset && ltb s.offset size then s.offset else 0
      let total = if from == 0 then [] else os.decimal size
      call_ (if from == 0 then (λ w. w) else os.seek file from)
      call_ (os.send s.fd (reply 150 (path ++ (os.decimal (size - from) ++ total))))
      done ← retr_loop fuel file fd
      retr_end s file done)

  -- Where the path does not name a file with bytes.
  unfoldable pub retr_refuse : Session → List ℕ → Io W Outcome
  retr_refuse s path = do
    (sent, t) ← answer_buffered os s (reply 550 path)
    pure (sent, if sent then record t { offset = 0 } else t)

  unfoldable pub retr_open : ℕ → Session → List ℕ → ℕ → Io W Outcome
  retr_open fuel s path fd = do
    opened ← call (os.open_read path)
    elim opened [
      | none ↦ retr_refuse s path
      | some file ↦ do
        found ← call (os.file_size file)
        call_ (os.seek file 0)
        let size : ℕ = elim found [ none ↦ 0 | some n ↦ n ]
        if size == 0
            then (do call_ (os.close file); retr_refuse s path)
            else retr_file fuel s path file size fd
    ]

  unfoldable pub retr_cmd_fn : ℕ → Session → Option (List ℕ) → Io W Outcome
  retr_cmd_fn fuel s param = do
    t ← accept_link os s
    elim t.port_pasv_fd [
      | none ↦ answer os (record t { offset = 0 }) (reply 502 [])
      | some fd ↦ do
        text ← given param
        elim (build_full_path t.currentdir text) [
          | none ↦ pure (false, t)
          | some path ↦ retr_open fuel t path fd
        ]
    ]

  -- `stor_cmd_receive`, for what is free in the buffer: the bytes that came before it was full or
  -- nothing came any more, none for an error.
  unfoldable pub stor_cmd_receive : ℕ → ℕ → ℕ → Io W (Option (List ℕ))
  stor_cmd_receive zero fd room = pure (some [])
  stor_cmd_receive (suc fuel) fd room =
      let body : Io W (Option (List ℕ)) = (do
        got ← call (os.receive fd room)
        elim got [
          | none ↦ pure none
          | some [] ↦ pure (some [])
          | some (c ∷ bytes) ↦ do
            more ← stor_cmd_receive fuel fd (room - length (c ∷ bytes))
            pure (elim more [ none ↦ none | some rest ↦ some (c ∷ (bytes ++ rest)) ])
        ]) in
      if room == 0 then pure (some []) else body

  -- The loop of STOR: true where the sender ended it.
  unfoldable pub stor_loop : ℕ → ℕ → ℕ → Io W Bool
  stor_loop zero file fd = fault
  stor_loop (suc fuel) file fd = do
    got ← stor_cmd_receive buf_size fd buf_size
    elim got [
      | none ↦ pure false
      | some [] ↦ pure true
      | some (c ∷ bytes) ↦ do
        written ← call (os.write file (c ∷ bytes))
        let rest = stor_loop fuel file fd
        elim written [
          | none ↦ pure false
          | some n ↦ if n == length (c ∷ bytes) then rest else pure false
        ]
    ]

  unfoldable pub stor_file : ℕ → Session → List ℕ → ℕ → Io W Outcome
  stor_file fuel s path fd = do
    opened ← call (os.open_write path)
    elim opened [
      | none ↦ answer_buffered os s (reply 550 path)
      | some file ↦ do
        got ← call os.buf_alloc
        if not got then (do call_ (os.close file); pure (false, s)) else (do
          call_ (os.send s.fd (reply 150 path))
          done ← stor_loop fuel file fd
          call_ os.buf_free
          call_ (os.close file)
          t ← close_link os s
          answer os t (reply (if done then 226 else 426) []))
    ]

  unfoldable pub stor_cmd_fn : ℕ → Session → Option (List ℕ) → Io W Outcome
  stor_cmd_fn fuel s param =
      let t = record s { offset = 0 } in
      if s.is_anonymous then answer os t (reply 550 []) else (do
        u ← accept_link os t
        elim u.port_pasv_fd [
          | none ↦ answer os u (reply 502 [])
          | some fd ↦ do
            text ← given param
            elim (build_full_path u.currentdir text) [
              | none ↦ pure (false, u)
              | some path ↦ stor_file fuel u path fd
            ]
        ])
