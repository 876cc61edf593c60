-- ===== src/Ftp/Access.antt =====
-- What a client can do without the password.
pub mod Writes
use zephyr_app.Common.{
  Bool, Bool-cases, List, Option, [], arith, false, if◌then◌else◌, inl, inr, list_eq, none, not,
  refl, some, true, ℕ, ◌&&◌, ◌||◌, ◌∙◌, ◌≡◌,
}
use zephyr_app.Ftp.{
  Io, Os, Outcome, Session, State, answer, answer_buffered, ok, passwd, reply, user,
}
use zephyr_app.Ftp.Text.{user_pawd}
use zephyr_app.Ftp.Text.Cmd
use zephyr_app.Ftp.Link.{
  accept_link, close_link, connect_port, eprt_text, open_port, pasv_cmd_fn, port_cmd_fn,
  port_numbers,
}
use zephyr_app.Ftp.Dirs.{
  cdup_cmd_fn, change_dir, cwd_cmd_fn, dele_cmd_fn, mkd_cmd_fn, pwd_cmd_fn, quit_cmd_fn, remove,
  rest_cmd_fn, rmd_cmd_fn, size_cmd_fn, syst_cmd_fn, type_cmd_fn,
}
use zephyr_app.Ftp.Transfer.{
  list_cmd_fn, nlist_cmd_fn, retr_cmd_fn, retr_end, retr_file, retr_open, retr_refuse, stor_cmd_fn,
  stor_file, with_list,
}
use zephyr_app.Ftp.Handler.{
  ftp_proccess, ftp_session_cmd_process, login_cmd_fn, pass_cmd_fn, process_in, process_passwd,
  process_user, split_line, starts_with,
}

-- The session of a user who has given the password.
abbrev pub is_trusted : Session → Bool
is_trusted s = elim s.state [ ok ↦ not s.is_anonymous | user ↦ false | passwd ↦ false ]

-- A line that gives the password.
abbrev pub gives_password : List ℕ → Bool
gives_password line =
    let (cmd, param) = split_line line in
    starts_with Cmd.pass cmd && elim param [ none ↦ false | some text ↦ list_eq text user_pawd ]

-- The session is still in the same state, of the same user, wherever there is no fault.
abbrev Keeps : {W : Type 0} → Session → Option (Outcome × W) → Type 0
Keeps s none = Unit
Keeps s (some ((rc, t), w)) = (t.state ≡ s.state) × (t.is_anonymous ≡ s.is_anonymous)

-- The session that a command leaves is not trusted.
abbrev Outside : {W : Type 0} → Option (Outcome × W) → Type 0
Outside none = Unit
Outside (some ((rc, t), w)) = is_trusted t ≡ false

abbrev pub StaysOut : {W : Type 0} → Option (Session × W) → Type 0
StaysOut none = Unit
StaysOut (some (t, w)) = is_trusted t ≡ false

Keeps-Outside :
    {W : Type 0} (s : Session) (out : Option (Outcome × W))
    → s.is_anonymous ≡ true
    → Keeps s out
    → Outside out
Keeps-Outside s none a k = tt
Keeps-Outside s (some ((rc, t), w)) a (k, l) = go t.state (l ∙ a)
  where
    go : (st : State) → t.is_anonymous ≡ true → is_trusted (record t { state = st }) ≡ false
    go user e = refl
    go passwd e = refl
    go ok e = rw e refl

pub anonymous_of : (s : Session) → s.state ≡ ok → is_trusted s ≡ false → s.is_anonymous ≡ true
anonymous_of s e h =
    let known : not s.is_anonymous ≡ false = rw e at h in
    elim (Bool-cases s.is_anonymous) [ inl a ↦ a | inr a ↦ absurd (ground (arith, known, a)) ]

module _ {W : Type 0} (os : Os W) (root torn : List ℕ) (fuel : ℕ) where
  Safe : Session → Io W Outcome → Type 0
  Safe s m = (w : W) → Keeps s (m w)

  port-Keeps :
      (s : Session) (cmd : List ℕ) (param : Option (List ℕ)) → Safe s (port_cmd_fn os s cmd param)
  unfolding Safe port_cmd_fn close_link port_numbers eprt_text connect_port open_port answer
  port-Keeps s cmd param w = ground arith

  pasv-Keeps : (s : Session) (cmd : List ℕ) → Safe s (pasv_cmd_fn os s cmd)
  unfolding Safe pasv_cmd_fn
  pasv-Keeps s cmd w = ground arith

  list-Keeps : (s : Session) (body : ℕ → List ℕ → Io W (Unit {0})) → Safe s (with_list os body s)
  unfolding Safe with_list accept_link close_link answer answer_buffered
  list-Keeps s body w = ground arith

  retr-Keeps : (s : Session) (param : Option (List ℕ)) → Safe s (retr_cmd_fn os fuel s param)
  unfolding Safe retr_cmd_fn retr_open retr_file retr_end retr_refuse accept_link close_link answer
      answer_buffered
  retr-Keeps s param w = ground arith

  dir-Keeps : (s : Session) (path : List ℕ) → Safe s (change_dir os torn s path)
  unfolding Safe change_dir answer_buffered
  dir-Keeps s path w = ground arith

  cwd-Keeps : (s : Session) (param : Option (List ℕ)) → Safe s (cwd_cmd_fn os torn s param)
  unfolding Safe cwd_cmd_fn
  cwd-Keeps s none w = tt
  cwd-Keeps s (some path) w = dir-Keeps s path w

  mkd-Keeps : (s : Session) (param : Option (List ℕ)) → Safe s (mkd_cmd_fn os s param)
  unfolding Safe mkd_cmd_fn answer
  mkd-Keeps s param w = ground arith

  remove-Keeps :
      (code : ℕ) (s : Session) (param : Option (List ℕ)) → Safe s (remove os code s param)
  unfolding Safe remove answer
  remove-Keeps code s param w = ground arith

  size-Keeps : (s : Session) (param : Option (List ℕ)) → Safe s (size_cmd_fn os s param)
  unfolding Safe size_cmd_fn answer_buffered
  size-Keeps s param w = ground arith

  stor-Keeps : (s : Session) (param : Option (List ℕ)) → Safe s (stor_cmd_fn os fuel s param)
  unfolding Safe stor_cmd_fn stor_file accept_link close_link answer answer_buffered
  stor-Keeps s param w = ground arith

  rest-Keeps : (s : Session) (param : Option (List ℕ)) → Safe s (rest_cmd_fn os s param)
  unfolding Safe rest_cmd_fn answer
  rest-Keeps s param w = ground arith

  type-Keeps : (s : Session) (param : Option (List ℕ)) → Safe s (type_cmd_fn os s param)
  unfolding Safe type_cmd_fn answer
  type-Keeps s param w = ground arith

  pwd-Keeps : (s : Session) → Safe s (pwd_cmd_fn os s)
  unfolding Safe pwd_cmd_fn answer_buffered
  pwd-Keeps s w = ground arith

  answer-Keeps : (s : Session) (code : ℕ) (text : List ℕ) → Safe s (answer os s (reply code text))
  unfolding Safe answer
  answer-Keeps s code text w = (refl, refl)

  syst-Keeps : (s : Session) → Safe s (syst_cmd_fn os s)
  unfolding syst_cmd_fn
  syst-Keeps s = answer-Keeps s 215 []

  quit-Keeps : (s : Session) → Safe s (quit_cmd_fn os s)
  unfolding Safe quit_cmd_fn
  quit-Keeps s w = (refl, refl)

  pass-Keeps : (s : Session) → Safe s (pass_cmd_fn os root torn fuel s)
  unfolding Safe pass_cmd_fn answer
  pass-Keeps s w = (refl, refl)

  lists-Keeps : (s : Session) → Safe s (list_cmd_fn os fuel s)
  unfolding list_cmd_fn
  lists-Keeps s = list-Keeps s _

  nlists-Keeps : (s : Session) → Safe s (nlist_cmd_fn os fuel s)
  unfolding nlist_cmd_fn
  nlists-Keeps s = list-Keeps s _

  cdup-Keeps : (s : Session) → Safe s (cdup_cmd_fn os torn s)
  unfolding cdup_cmd_fn
  cdup-Keeps s = dir-Keeps s _

  rmd-Keeps : (s : Session) (param : Option (List ℕ)) → Safe s (rmd_cmd_fn os s param)
  unfolding rmd_cmd_fn
  rmd-Keeps s param = remove-Keeps 257 s param

  dele-Keeps : (s : Session) (param : Option (List ℕ)) → Safe s (dele_cmd_fn os s param)
  unfolding dele_cmd_fn
  dele-Keeps s param = remove-Keeps 250 s param

  Barred : Io W Outcome → Type 0
  Barred m = (w : W) → Outside (m w)

  barred : (s : Session) (m : Io W Outcome) → s.is_anonymous ≡ true → Safe s m → Barred m
  unfolding Barred Safe
  barred s m a k w = Keeps-Outside s _ a (k w)

  login-Barred :
      (s : Session) (param : Option (List ℕ))
      → s.is_anonymous ≡ true
      → Barred (login_cmd_fn os root torn fuel s param)
  unfolding Barred login_cmd_fn answer
  login-Barred s param a w = ground arith

  either : (b : Bool) (m k : Io W Outcome) → Barred m → Barred k → Barred (if b then m else k)
  unfolding Barred
  either true m k h l = h
  either false m k h l = l

  command-Barred :
      (s : Session) (cmd : List ℕ) (param : Option (List ℕ))
      → s.is_anonymous ≡ true
      → Barred (ftp_session_cmd_process os root torn fuel s cmd param)
  unfolding ftp_session_cmd_process
  command-Barred s cmd param a =
      let is = λ (name : List ℕ). starts_with name cmd in
      let out = λ (m : Io W Outcome) (k : Safe s m). barred s m a k in
      either (is Cmd.port || is Cmd.eprt) _ _ (out _ (port-Keeps s cmd param)) (
        either (is Cmd.pasv || is Cmd.epsv) _ _ (out _ (pasv-Keeps s cmd)) (
          either (is Cmd.pwd || is Cmd.xpwd) _ _ (out _ (pwd-Keeps s)) (
            either (is Cmd.type) _ _ (out _ (type-Keeps s param)) (
              either (is Cmd.syst) _ _ (out _ (syst-Keeps s)) (
                either (is Cmd.quit) _ _ (out _ (quit-Keeps s)) (
                  either (is Cmd.list) _ _ (out _ (lists-Keeps s)) (
                    either (is Cmd.nlst) _ _ (out _ (nlists-Keeps s)) (
                      either (is Cmd.cwd) _ _ (out _ (cwd-Keeps s param)) (
                        either (is Cmd.cdup) _ _ (out _ (cdup-Keeps s)) (
                          either (is Cmd.mkd) _ _ (out _ (mkd-Keeps s param)) (
                            either (is Cmd.rmd) _ _ (out _ (rmd-Keeps s param)) (
                              either (is Cmd.dele) _ _ (out _ (dele-Keeps s param)) (
                                either (is Cmd.size) _ _ (out _ (size-Keeps s param)) (
                                  either (is Cmd.rest) _ _ (out _ (rest-Keeps s param)) (
                                    either (is Cmd.retr) _ _ (out _ (retr-Keeps s param)) (
                                      either (is Cmd.stor) _ _ (out _ (stor-Keeps s param)) (
                                        either (is Cmd.user) _ _ (login-Barred s param a) (
                                          either (is Cmd.pass) _ _ (out _ (pass-Keeps s))
                                            (out _ (answer-Keeps s 502 []))))))))))))))))))))

  Trustless : Io W Session → Type 0
  Trustless m = (w : W) → StaysOut (m w)

  user-Trustless :
      (s : Session) (cmd : List ℕ) (param : Option (List ℕ))
      → s.state ≡ user
      → Trustless (process_user os root torn fuel s cmd param)
  unfolding Trustless process_user
  user-Trustless s cmd param e w = ground arith

  passwd-Trustless :
      (s : Session) (cmd : List ℕ) (param : Option (List ℕ))
      → s.state ≡ passwd
      → (starts_with Cmd.pass cmd
          && elim param [ none ↦ false | some text ↦ list_eq text user_pawd ])
        ≡ false
      → Trustless (process_passwd os root torn fuel s cmd param)
  unfolding Trustless process_passwd
  passwd-Trustless s cmd param e n w = ground arith

  ok-Trustless :
      (s : Session) (cmd : List ℕ) (param : Option (List ℕ))
      → s.is_anonymous ≡ true
      → Trustless (process_in os root torn fuel ok s cmd param)
  unfolding Trustless process_in Barred
  ok-Trustless s cmd param a w = go _ (command-Barred s cmd param a w)
    where
      go :
          (out : Option (Outcome × W))
          → Outside out
          → StaysOut (elim out [ none ↦ none | some ((rc, t), after) ↦ some (t, after) ])
      go none h = tt
      go (some ((rc, t), after)) h = h

  in-Trustless :
      (st : State) (s : Session) (cmd : List ℕ) (param : Option (List ℕ))
      → s.state ≡ st
      → is_trusted s ≡ false
      → (starts_with Cmd.pass cmd
          && elim param [ none ↦ false | some text ↦ list_eq text user_pawd ])
        ≡ false
      → Trustless (process_in os root torn fuel st s cmd param)
  unfolding process_in
  in-Trustless user s cmd param e h n = user-Trustless s cmd param e
  in-Trustless passwd s cmd param e h n = passwd-Trustless s cmd param e n
  in-Trustless ok s cmd param e h n = ok-Trustless s cmd param (anonymous_of s e h)

  pub ftp_proccess-Trustless :
      (s : Session) (line : List ℕ) (w : W)
      → is_trusted s ≡ false
      → gives_password line ≡ false
      → StaysOut (ftp_proccess os root torn fuel s line w)
  unfolding ftp_proccess Trustless
  ftp_proccess-Trustless s line w h n =
      in-Trustless s.state s (split_line line).0 (split_line line).1 refl h n w
