-- ===== src/Handlers.antt =====
-- The table of application callbacks that libs/can_fw_upgrade and libs/udp_fw_upgrade keep.
-- A callback is a number, with 0 for NULL, and so is its user data.
pub mod Laws
use zephyr_app.Common.{Bool, List, [], false, if◌then◌else◌, true, ℕ, ◌==◌, ◌||◌, ◌∷◌}

-- `struct can_fw_handler`, `struct udp_fw_handler`
pub record Handler : Type 0 where
  pub cb : ℕ
  pub user_data : ℕ

abbrev pub no_handler : Handler
no_handler = record { cb = 0; user_data = 0 }

-- the `for` of the registration: the first free entry is taken; false if there is none
pub add_first_free : List Handler → ℕ → ℕ → Bool × List Handler
add_first_free [] cb user_data = (false, [])
add_first_free (h ∷ hs) cb user_data =
    let (done, hs') = add_first_free hs cb user_data in
    if h.cb == 0 then (true, record { cb = cb; user_data = user_data } ∷ hs) else (done, h ∷ hs')

-- `can_fw_set_app_handler`: false is the NULL that it returns for a full table.
unfoldable pub set_app_handler : List Handler → ℕ → ℕ → Bool × List Handler
unfolding add_first_free
set_app_handler hs cb user_data = if cb == 0 then (true, hs) else add_first_free hs cb user_data

-- `can_fw_remove_handler`: true for 0, false for -ENOENT.
unfoldable pub remove_handler : List Handler → ℕ → Bool × List Handler
remove_handler [] cb = (false, [])
remove_handler (h ∷ hs) cb =
    let (done, hs') = remove_handler hs cb in
    if h.cb == cb then (true, no_handler ∷ hs) else (done, h ∷ hs')

-- The broadcast of a frame or command, for what each callback answers to it: the entries that are
-- called, in order, and whether one of them answered true.
unfoldable pub broadcast : (ℕ → ℕ → Bool) → List Handler → List Handler × Bool
broadcast answer [] = ([], false)
broadcast answer (h ∷ hs) =
    let (called, handled) = broadcast answer hs in
    if h.cb == 0 then (called, handled) else (h ∷ called, answer h.cb h.user_data || handled)
