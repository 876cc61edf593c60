-- ===== src/Ftp/Text.antt =====
-- The words that the server compares with, as bytes, and its port for data.
pub mod Cmd
use zephyr_app.Common.{List, [], ℕ, ◌∷◌}

abbrev pub ftp_data_port : ℕ
ftp_data_port = 20

-- USER_NAME and USER_PAWD
abbrev pub user_name : List ℕ
user_name = b'a' ∷ b'd' ∷ b'm' ∷ b'i' ∷ b'n' ∷ []

abbrev pub user_pawd : List ℕ
user_pawd = b'a' ∷ b'd' ∷ b'm' ∷ b'i' ∷ b'n' ∷ []

abbrev pub anonymous : List ℕ
anonymous = b'a' ∷ b'n' ∷ b'o' ∷ b'n' ∷ b'y' ∷ b'm' ∷ b'o' ∷ b'u' ∷ b's' ∷ []

abbrev pub binary : List ℕ
binary = b'I' ∷ []

abbrev pub parent : List ℕ
parent = b'.' ∷ b'.' ∷ []
