-- ===== src/Ftp/Text/Cmd.antt =====
-- The names of the commands, as bytes, as they stand in `session_cmds`.
use zephyr_app.Common.{List, [], ℕ, ◌∷◌}

abbrev pub port : List ℕ
port = b'P' ∷ b'O' ∷ b'R' ∷ b'T' ∷ []

abbrev pub eprt : List ℕ
eprt = b'E' ∷ b'P' ∷ b'R' ∷ b'T' ∷ []

abbrev pub pasv : List ℕ
pasv = b'P' ∷ b'A' ∷ b'S' ∷ b'V' ∷ []

abbrev pub epsv : List ℕ
epsv = b'E' ∷ b'P' ∷ b'S' ∷ b'V' ∷ []

abbrev pub pwd : List ℕ
pwd = b'P' ∷ b'W' ∷ b'D' ∷ []

abbrev pub xpwd : List ℕ
xpwd = b'X' ∷ b'P' ∷ b'W' ∷ b'D' ∷ []

abbrev pub type : List ℕ
type = b'T' ∷ b'Y' ∷ b'P' ∷ b'E' ∷ []

abbrev pub syst : List ℕ
syst = b'S' ∷ b'Y' ∷ b'S' ∷ b'T' ∷ []

abbrev pub quit : List ℕ
quit = b'Q' ∷ b'U' ∷ b'I' ∷ b'T' ∷ []

abbrev pub list : List ℕ
list = b'L' ∷ b'I' ∷ b'S' ∷ b'T' ∷ []

abbrev pub nlst : List ℕ
nlst = b'N' ∷ b'L' ∷ b'S' ∷ b'T' ∷ []

abbrev pub cwd : List ℕ
cwd = b'C' ∷ b'W' ∷ b'D' ∷ []

abbrev pub cdup : List ℕ
cdup = b'C' ∷ b'D' ∷ b'U' ∷ b'P' ∷ []

abbrev pub mkd : List ℕ
mkd = b'M' ∷ b'K' ∷ b'D' ∷ []

abbrev pub rmd : List ℕ
rmd = b'R' ∷ b'M' ∷ b'D' ∷ []

abbrev pub dele : List ℕ
dele = b'D' ∷ b'E' ∷ b'L' ∷ b'E' ∷ []

abbrev pub size : List ℕ
size = b'S' ∷ b'I' ∷ b'Z' ∷ b'E' ∷ []

abbrev pub rest : List ℕ
rest = b'R' ∷ b'E' ∷ b'S' ∷ b'T' ∷ []

abbrev pub retr : List ℕ
retr = b'R' ∷ b'E' ∷ b'T' ∷ b'R' ∷ []

abbrev pub stor : List ℕ
stor = b'S' ∷ b'T' ∷ b'O' ∷ b'R' ∷ []

abbrev pub user : List ℕ
user = b'U' ∷ b'S' ∷ b'E' ∷ b'R' ∷ []

abbrev pub pass : List ℕ
pass = b'P' ∷ b'A' ∷ b'S' ∷ b'S' ∷ []
