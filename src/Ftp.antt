-- ===== src/Ftp.antt =====
-- The FTP server of applications/data_collect/src/ftp_server: the session and what its commands use
-- of the system. The commands are in the modules below.
pub mod Path
pub mod Link
pub mod Dirs
pub mod Transfer
pub mod Handler
pub mod Access
pub mod Server
mod Tests
pub mod Text
use zephyr_app.Common.{Bool, List, Option, false, if◌then◌else◌, none, some, true, ℕ}

-- What goes to the client on the command connection: the code of a reply with the text and the
-- numbers that are printed into it, or what a buffer held before.
pub data Reply : Type 0 where
  reply : ℕ → List ℕ → Reply
  stale : Reply

-- What `stat` tells: whether it is a directory or a regular file, the nine permission bits from the
-- owner's read bit on, the links, the size and the time of the last change.
pub record Stat : Type 0 where
  pub is_dir : Bool
  pub is_reg : Bool
  pub mode : List Bool
  pub st_nlink : ℕ
  pub st_size : ℕ
  pub st_mtime : ℕ

-- The system's calls over its state: false or none is an error. `buf_alloc` and `buf_free` are those
-- of the slab, `readdir` goes on in the open directory, `open_read` and `open_write` are `open` with
-- the flags of RETR and of STOR; `file_size` and `seek` are `lseek`; `receive` is `recv` after
-- `select`, where none is an error of `recv` and no byte the end or a time-out. `decimal` is `%d`,
-- `atoi` is none for a negative number, `date` is the text of `strftime`.
pub record Os (W : Type 0) : Type 0 where
  pub send : ℕ → Reply → W → W
  pub buf_alloc : W → Bool × W
  pub buf_free : W → W
  pub socket : W → Option ℕ × W
  pub bind_any : ℕ → ℕ → W → Bool × W
  pub port_of : ℕ → W → ℕ
  pub listen : ℕ → W → Bool × W
  pub accept : ℕ → W → Option ℕ × W
  pub send_timeout : ℕ → W → Bool × W
  pub connect : ℕ → List ℕ → ℕ → W → Bool × W
  pub close : ℕ → W → W
  pub own_address : W → Option (List ℕ)
  pub opendir : List ℕ → W → Bool × W
  pub readdir : W → Option (List ℕ) × W
  pub closedir : W → W
  pub mkdir : List ℕ → W → Bool × W
  pub unlink : List ℕ → W → Bool × W
  pub stat : List ℕ → W → Option Stat
  pub open_read : List ℕ → W → Option ℕ × W
  pub open_write : List ℕ → W → Option ℕ × W
  pub file_size : ℕ → W → Option ℕ × W
  pub seek : ℕ → ℕ → W → W
  pub read : ℕ → ℕ → W → List ℕ × W
  pub write : ℕ → List ℕ → W → Option ℕ × W
  pub send_data : ℕ → List ℕ → W → Option ℕ × W
  pub receive : ℕ → ℕ → W → Option (List ℕ) × W
  pub decimal : ℕ → List ℕ
  pub atoi : List ℕ → Option ℕ
  pub date : ℕ → W → List ℕ

pub data State : Type 0 where
  user passwd ok : State

-- `struct ftp_session`: none is a descriptor of -1. `time` is kept by the loop in ftpd.c.
pub record Session : Type 0 where
  pub fd : ℕ
  pub is_anonymous : Bool
  pub port_pasv_fd : Option ℕ
  pub pasvs_fd : Option ℕ
  pub offset : ℕ
  pub type : ℕ
  pub state : State
  pub currentdir : List ℕ

-- `none` is a fault: a null pointer is read, or an array that nothing has set.
abbrev pub Io : Type 0 → Type 0 → Type 0
Io W A = W → Option (A × W)

abbrev pub pure : {W A : Type 0} → A → Io W A
pure a w = some (a, w)

abbrev pub fault : {W A : Type 0} → Io W A
fault w = none

infixl 5 ◌>>=◌ ◌>>◌
abbrev pub ◌>>=◌ : {W A B : Type 0} → Io W A → (A → Io W B) → Io W B
◌>>=◌ m f w = elim (m w) [ none ↦ none | some (a, after) ↦ f a after ]

abbrev pub ◌>>◌ : {W B : Type 0} → Io W (Unit {0}) → Io W B → Io W B
m >> k = m >>= λ _. k

-- a call of the system with a result, without one, and a look at its state
abbrev pub call : {W A : Type 0} → (W → A × W) → Io W A
call f w = some (f w)

abbrev pub call_ : {W : Type 0} → (W → W) → Io W (Unit {0})
call_ f w = some (tt, f w)

abbrev pub look : {W A : Type 0} → (W → A) → Io W A
look f w = some (f w, w)

-- The parameter of a command must be there.
abbrev pub given : {W A : Type 0} → Option A → Io W A
given none w = none
given (some a) w = some (a, w)

-- What a command returns, true for 0, and the session.
abbrev pub Outcome : Type 0
Outcome = Bool × Session

module _ {W : Type 0} (os : Os W) where
  -- A reply, and the return of 0.
  pub answer : Session → Reply → Io W Outcome
  answer s r = do call_ (os.send s.fd r); pure (true, s)

  -- A reply built in a buffer of the slab: without a buffer the command returns -1.
  pub answer_buffered : Session → Reply → Io W Outcome
  answer_buffered s r = do
    got ← call os.buf_alloc
    if got then (do call_ (os.send s.fd r); call_ os.buf_free; pure (true, s)) else pure (false, s)
