-- ===== src/Ftp/Dirs.antt =====
-- The commands on directories and on the session, of ftp_cmds.c.
use zephyr_app.Common.{
  Bool, List, Option, [], false, if◌then◌else◌, list_eq, none, not, some, true, ℕ,
}
use zephyr_app.Ftp.{
  Io, Os, Outcome, Reply, Session, answer, answer_buffered, call, call_, given, look, pure, reply,
  ◌>>=◌, ◌>>◌,
}
use zephyr_app.Ftp.Text.{binary, parent}
use zephyr_app.Ftp.Path.{build_full_path}

module _ {W : Type 0} (os : Os W) where
  unfoldable pub pwd_cmd_fn : Session → Io W Outcome
  pwd_cmd_fn s = answer_buffered os s (reply 257 s.currentdir)

  unfoldable pub type_cmd_fn : Session → Option (List ℕ) → Io W Outcome
  type_cmd_fn s param = do
    text ← given param
    answer os (record s { type = if list_eq text binary then 1 else 0 }) (reply 200 [])

  unfoldable pub syst_cmd_fn : Session → Io W Outcome
  syst_cmd_fn s = answer os s (reply 215 [])

  unfoldable pub quit_cmd_fn : Session → Io W Outcome
  quit_cmd_fn s = do call_ (os.send s.fd (reply 221 [])); pure (false, s)

  -- The directory of the session is changed before it is opened. Where the path has too many "..",
  -- the array keeps what ftp_normalize_path had made of it, a text without a meaning: `torn`.
  unfoldable pub change_dir : List ℕ → Session → List ℕ → Io W Outcome
  change_dir torn s path = elim (build_full_path s.currentdir path) [
    | none ↦ pure (false, record s { currentdir = torn })
    | some dir ↦ do
      let t = record s { currentdir = dir }
      opened ← call (os.opendir dir)
      if not opened
          then answer_buffered os t (reply 550 dir)
          else (do call_ os.closedir; answer_buffered os t (reply 250 dir))
  ]

  unfoldable pub cwd_cmd_fn : List ℕ → Session → Option (List ℕ) → Io W Outcome
  cwd_cmd_fn torn s param = do path ← given param; change_dir torn s path

  unfoldable pub cdup_cmd_fn : List ℕ → Session → Io W Outcome
  cdup_cmd_fn torn s = change_dir torn s parent

  unfoldable pub ftp_create_dir : List ℕ → Io W Bool
  ftp_create_dir path = do
    there ← call (os.opendir path)
    if there then (do call_ os.closedir; pure true) else call (os.mkdir path)

  -- Where a path is made from the parameter, and a buffer for the reply.
  abbrev with_path : Session → Option (List ℕ) → (List ℕ → Io W Outcome) → Io W Outcome
  with_path s param go = do
    text ← given param
    elim (build_full_path s.currentdir text) [ none ↦ pure (false, s) | some path ↦ go path ]

  abbrev finish : Session → Reply → Io W Outcome
  finish s r = do call_ (os.send s.fd r); call_ os.buf_free; pure (true, s)

  unfoldable pub mkd_cmd_fn : Session → Option (List ℕ) → Io W Outcome
  mkd_cmd_fn s param =
      if s.is_anonymous
      then answer os s (reply 550 [])
      else with_path s param λ path. do
        got ← call os.buf_alloc
        if not got
            then pure (false, s)
            else (do done ← ftp_create_dir path; finish s (reply (if done then 257 else 550) path))

  -- RMD and DELE, which answer a success with different codes.
  unfoldable pub remove : ℕ → Session → Option (List ℕ) → Io W Outcome
  remove code s param =
      if s.is_anonymous
      then answer os s (reply 550 [])
      else with_path s param λ path. do
        got ← call os.buf_alloc
        if not got then pure (false, s) else (do
          done ← call (os.unlink path)
          finish s (reply (if done then code else 550) path))

  unfoldable pub rmd_cmd_fn : Session → Option (List ℕ) → Io W Outcome
  rmd_cmd_fn s param = remove 257 s param

  unfoldable pub dele_cmd_fn : Session → Option (List ℕ) → Io W Outcome
  dele_cmd_fn s param = remove 250 s param

  unfoldable pub size_cmd_fn : Session → Option (List ℕ) → Io W Outcome
  size_cmd_fn s param = with_path s param λ path. do
    found ← look (os.stat path)
    elim found [
      | none ↦ answer_buffered os s (reply 550 path)
      | some st ↦
          if st.is_reg
          then answer_buffered os s (reply 213 (os.decimal st.st_size))
          else answer_buffered os s (reply 550 path)
    ]

  unfoldable pub rest_cmd_fn : Session → Option (List ℕ) → Io W Outcome
  rest_cmd_fn s param = do
    text ← given param
    elim (os.atoi text) [
      | none ↦ answer os (record s { offset = 0 }) (reply 504 [])
      | some n ↦ answer os (record s { offset = n }) (reply 350 [])
    ]
