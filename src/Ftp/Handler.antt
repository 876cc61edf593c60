-- ===== src/Ftp/Handler.antt =====
-- A line of the client: ftp_proccess of ftp_handler.c, and of ftp_cmds.c the commands USER and PASS
-- and the choice of a command.
use zephyr_app.Common.{
  Bool, List, Option, [], false, if◌then◌else◌, list_eq, none, not, some, true, ℕ, ◌&&◌, ◌==◌, ◌||◌,
  ◌∷◌,
}
use zephyr_app.Ftp.{
  Io, Os, Outcome, Session, State, answer, call_, given, ok, passwd, pure, reply, user, ◌>>=◌, ◌>>◌,
}
use zephyr_app.Ftp.Text.{anonymous, user_name, user_pawd}
use zephyr_app.Ftp.Text.Cmd
use zephyr_app.Ftp.Link.{cut, pasv_cmd_fn, port_cmd_fn}
use zephyr_app.Ftp.Dirs.{
  cdup_cmd_fn, cwd_cmd_fn, dele_cmd_fn, mkd_cmd_fn, pwd_cmd_fn, quit_cmd_fn, rest_cmd_fn,
  rmd_cmd_fn, size_cmd_fn, syst_cmd_fn, type_cmd_fn,
}
use zephyr_app.Ftp.Transfer.{list_cmd_fn, nlist_cmd_fn, retr_cmd_fn, stor_cmd_fn}

-- `strstr(text, prefix) == text`
abbrev pub starts_with : List ℕ → List ℕ → Bool
starts_with [] text = true
starts_with (c ∷ prefix) [] = false
starts_with (c ∷ prefix) (x ∷ text) = c == x && starts_with prefix text

-- The command and its parameter, which stands behind the first blank.
unfoldable pub split_line : List ℕ → List ℕ × Option (List ℕ)
split_line line = elim (cut b' ' line) [
  | none ↦ (line, none)
  | some (cmd, param) ↦ (cmd, some param)
]

-- `root` is ROOT, `torn` what a refused path leaves in the directory, `fuel` that of the transfers.
module _ {W : Type 0} (os : Os W) (root torn : List ℕ) (fuel : ℕ) where
  unfoldable pub login_cmd_fn : Session → Option (List ℕ) → Io W Outcome
  login_cmd_fn s param = do
    text ← given param
    if list_eq text user_name
        then answer os (record s { is_anonymous = false; state = passwd }) (reply 331 [])
        else if list_eq text anonymous
        then answer os (record s { is_anonymous = true; state = ok; currentdir = root })
            (reply 331 [])
        else (do call_ (os.send s.fd (reply 530 [])); pure (false, s))

  unfoldable pub pass_cmd_fn : Session → Io W Outcome
  pass_cmd_fn s = answer os (record s { currentdir = root }) (reply 230 [])

  -- the first entry of `session_cmds` whose name the command begins with
  unfoldable pub ftp_session_cmd_process : Session → List ℕ → Option (List ℕ) → Io W Outcome
  ftp_session_cmd_process s cmd param =
      if starts_with Cmd.port cmd || starts_with Cmd.eprt cmd
      then port_cmd_fn os s cmd param
      else if starts_with Cmd.pasv cmd || starts_with Cmd.epsv cmd
      then pasv_cmd_fn os s cmd
      else if starts_with Cmd.pwd cmd || starts_with Cmd.xpwd cmd
      then pwd_cmd_fn os s
      else if starts_with Cmd.type cmd
      then type_cmd_fn os s param
      else if starts_with Cmd.syst cmd
      then syst_cmd_fn os s
      else if starts_with Cmd.quit cmd
      then quit_cmd_fn os s
      else if starts_with Cmd.list cmd
      then list_cmd_fn os fuel s
      else if starts_with Cmd.nlst cmd
      then nlist_cmd_fn os fuel s
      else if starts_with Cmd.cwd cmd
      then cwd_cmd_fn os torn s param
      else if starts_with Cmd.cdup cmd
      then cdup_cmd_fn os torn s
      else if starts_with Cmd.mkd cmd
      then mkd_cmd_fn os s param
      else if starts_with Cmd.rmd cmd
      then rmd_cmd_fn os s param
      else if starts_with Cmd.dele cmd
      then dele_cmd_fn os s param
      else if starts_with Cmd.size cmd
      then size_cmd_fn os s param
      else if starts_with Cmd.rest cmd
      then rest_cmd_fn os s param
      else if starts_with Cmd.retr cmd
      then retr_cmd_fn os fuel s param
      else if starts_with Cmd.stor cmd
      then stor_cmd_fn os fuel s param
      else if starts_with Cmd.user cmd
      then login_cmd_fn s param
      else if starts_with Cmd.pass cmd
      then pass_cmd_fn s
      else answer os s (reply 502 [])

  abbrev say : Session → ℕ → Io W Session
  say s code = do call_ (os.send s.fd (reply code [])); pure s

  -- the first line of a client
  unfoldable pub process_user : Session → List ℕ → Option (List ℕ) → Io W Session
  process_user s cmd param = if not (starts_with Cmd.user cmd) then say s 502 else (do
    text ← given param
    if list_eq text anonymous
        then say (record s { is_anonymous = true; state = ok }) 331
        else if list_eq text user_name
        then say (record s { is_anonymous = false; state = passwd }) 331
        else say s 530)

  unfoldable pub process_passwd : Session → List ℕ → Option (List ℕ) → Io W Session
  process_passwd s cmd param =
      let welcome = say (record s { currentdir = root; state = ok }) 230 in
      if not (starts_with Cmd.pass cmd)
      then say s 502
      else if s.is_anonymous
      then welcome
      else (do text ← given param; if list_eq text user_pawd then welcome else say s 530)

  unfoldable pub process_in : State → Session → List ℕ → Option (List ℕ) → Io W Session
  process_in user s cmd param = process_user s cmd param
  process_in passwd s cmd param = process_passwd s cmd param
  process_in ok s cmd param = do (rc, t) ← ftp_session_cmd_process s cmd param; pure t

  -- What a command returns is not looked at: the result is 0 for every line.
  unfoldable pub ftp_proccess : Session → List ℕ → Io W Session
  ftp_proccess s line = let (cmd, param) = split_line line in process_in s.state s cmd param

  -- the lines of a client, one after the other
  unfoldable pub serve : Session → List (List ℕ) → Io W Session
  serve s [] = pure s
  serve s (line ∷ lines) = do t ← ftp_proccess s line; serve t lines
