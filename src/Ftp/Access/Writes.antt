-- ===== src/Ftp/Access/Writes.antt =====
-- Without the password nothing is written: the calls that would write are never made.
use zephyr_app.Common.{
  All, Bool, List, Option, [], ap, false, none, refl, some, subst, sym, true, ℕ, ◌∙◌, ◌∷◌, ◌≡◌,
}
use zephyr_app.Ftp.{Io, Os, Outcome, Session, State, answer, answer_buffered, ok, passwd, user}
use zephyr_app.Ftp.Link.{
  accept_link, address_text, close_link, connect_port, eprt_text, open_port, pasv_cmd_fn,
  pasv_reply, port_cmd_fn, port_numbers, portcom,
}
use zephyr_app.Ftp.Dirs.{
  cdup_cmd_fn, change_dir, cwd_cmd_fn, dele_cmd_fn, mkd_cmd_fn, pwd_cmd_fn, quit_cmd_fn, remove,
  rest_cmd_fn, rmd_cmd_fn, size_cmd_fn, syst_cmd_fn, type_cmd_fn,
}
use zephyr_app.Ftp.Transfer.{
  ftp_data_send, list_body, list_cmd_fn, list_entry, list_loop, list_statbuf_get, nlist_cmd_fn,
  nlist_loop, retr_cmd_fn, retr_end, retr_file, retr_loop, retr_open, retr_refuse, stor_cmd_fn,
  with_list,
}
use zephyr_app.Ftp.Handler.{
  ftp_proccess, ftp_session_cmd_process, login_cmd_fn, pass_cmd_fn, process_in, process_passwd,
  process_user, serve, split_line,
}
use zephyr_app.Ftp.Access.{
  StaysOut, anonymous_of, ftp_proccess-Trustless, gives_password, is_trusted,
}

-- The system with other calls in place of those that change the file system.
abbrev pub with_writes :
    {W : Type 0}
    → Os W
    → (List ℕ → W → Bool × W)
    → (List ℕ → W → Bool × W)
    → (List ℕ → W → Option ℕ × W)
    → (ℕ → List ℕ → W → Option ℕ × W)
    → Os W
with_writes os mkdir unlink open_write write = record os {
  mkdir = mkdir;
  unlink = unlink;
  open_write = open_write;
  write = write;
}

abbrev then_serve :
    {W : Type 0} → (Session → Io W Session) → Option (Session × W) → Option (Session × W)
then_serve f none = none
then_serve f (some (t, w)) = f t w

next_same :
    {W : Type 0} (f g : Session → Io W Session) (out : Option (Session × W))
    → StaysOut out
    → ((t : Session) (w : W) → is_trusted t ≡ false → f t w ≡ g t w)
    → then_serve f out ≡ then_serve g out
next_same f g none k h = refl
next_same f g (some (t, w)) k h = h t w k

module _ {W : Type 0} (os : Os W) (mkdir unlink : List ℕ → W → Bool × W)
    (open_write : List ℕ → W → Option ℕ × W) (write : ℕ → List ℕ → W → Option ℕ × W)
    (root torn : List ℕ) (fuel : ℕ) where
  abbrev changed : Os W
  changed = with_writes os mkdir unlink open_write write

  -- The commands that write are refused to an anonymous user before they touch anything.
  anonymous_same :
      (s : Session) (cmd : List ℕ) (param : Option (List ℕ))
      → let t = record s { is_anonymous = true } in
        ftp_session_cmd_process os root torn fuel t cmd param
        ≡ ftp_session_cmd_process changed root torn fuel t cmd param
  unfolding process_user process_passwd ftp_session_cmd_process port_cmd_fn close_link port_numbers
      portcom eprt_text connect_port open_port address_text answer pasv_cmd_fn pasv_reply
      list_cmd_fn with_list list_body list_loop list_entry list_statbuf_get ftp_data_send
      accept_link answer_buffered nlist_cmd_fn nlist_loop retr_cmd_fn retr_open retr_file retr_end
      retr_refuse retr_loop mkd_cmd_fn rmd_cmd_fn dele_cmd_fn remove stor_cmd_fn size_cmd_fn
      rest_cmd_fn cwd_cmd_fn cdup_cmd_fn change_dir pwd_cmd_fn type_cmd_fn syst_cmd_fn quit_cmd_fn
      login_cmd_fn pass_cmd_fn
  anonymous_same s cmd param = refl

  in_same :
      (st : State) (s : Session) (cmd : List ℕ) (param : Option (List ℕ))
      → s.state ≡ st
      → is_trusted s ≡ false
      → process_in os root torn fuel st s cmd param
        ≡ process_in changed root torn fuel st s cmd param
  unfolding process_in process_user process_passwd
  in_same user s cmd param e h = refl
  in_same passwd s cmd param e h = refl
  in_same ok s cmd param e h =
      let a = anonymous_of s e h in
      let same : record s { is_anonymous = true } ≡ s = λ i. record s { is_anonymous = sym a i } in
      let session : Io W Outcome → Io W Session =
        λ m w. elim (m w) [ none ↦ none | some ((rc, t), after) ↦ some (t, after) ] in
      ap session (
        subst
          (λ t.
            ftp_session_cmd_process os root torn fuel t cmd param
            ≡ ftp_session_cmd_process changed root torn fuel t cmd param)
          same (anonymous_same s cmd param))

  process_same :
      (s : Session) (line : List ℕ)
      → is_trusted s ≡ false
      → ftp_proccess os root torn fuel s line ≡ ftp_proccess changed root torn fuel s line
  unfolding ftp_proccess
  process_same s line h = in_same s.state s (split_line line).0 (split_line line).1 refl h

  -- As long as a client has not given the password, the calls that change the file system have no
  -- part in what the server does: in place of `mkdir`, `unlink`, the `open` of STOR and `write` any
  -- other calls may stand, and every line is answered alike and leaves the same session and the same
  -- state of the system.
  pub serve_writes_nothing :
      (s : Session) (lines : List (List ℕ)) (w : W)
      → is_trusted s ≡ false
      → All (λ l. gives_password l ≡ false) lines
      → serve os root torn fuel s lines w ≡ serve changed root torn fuel s lines w
  unfolding serve
  serve_writes_nothing s [] w h n = refl
  serve_writes_nothing s (line ∷ lines) w h n =
      let same : ftp_proccess os root torn fuel s line w
          ≡ ftp_proccess changed root torn fuel s line w =
        ap (λ m. m w) (process_same s line h) in
      next_same (λ t. serve os root torn fuel t lines) (λ t. serve changed root torn fuel t lines) _
        (ftp_proccess-Trustless os root torn fuel s line w h n.0)
        (λ t after k. serve_writes_nothing t lines after k n.1)
      ∙ ap (λ out. then_serve (λ t. serve changed root torn fuel t lines) out) same
