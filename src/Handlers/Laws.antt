-- ===== src/Handlers/Laws.antt =====
-- What the callback table promises.
use zephyr_app.Common.{
  Bool, List, [], arith, false, if◌then◌else◌, length, refl, true, ℕ, ◌+◌, ◌==◌, ◌||◌, ◌∷◌, ◌≡◌,
  ◌≢◌,
}
use zephyr_app.Handlers.{Handler, add_first_free, broadcast, remove_handler, set_app_handler}

-- the registered entries, in table order
abbrev pub registered : List Handler → List Handler
registered [] = []
registered (h ∷ hs) = if h.cb == 0 then registered hs else h ∷ registered hs

-- no entry has the callback
abbrev pub IsAbsent : ℕ → List Handler → Type 0
IsAbsent cb [] = Unit
IsAbsent cb (h ∷ hs) = (h.cb ≢ cb) × IsAbsent cb hs

-- a free entry holds no user data, as at start and after a removal
abbrev pub IsClean : List Handler → Type 0
IsClean [] = Unit
IsClean (h ∷ hs) = (h.cb ≡ 0 → h.user_data ≡ 0) × IsClean hs

abbrev any_answer : (ℕ → ℕ → Bool) → List Handler → Bool
any_answer answer [] = false
any_answer answer (h ∷ hs) = answer h.cb h.user_data || any_answer answer hs

-- A broadcast calls every registered entry once, in table order, also after one has answered true;
-- the frame counts as handled exactly if one of them answered true.
pub broadcast-registered :
    (answer : ℕ → ℕ → Bool) (hs : List Handler)
    → broadcast answer hs ≡ (registered hs, any_answer answer (registered hs))
unfolding broadcast
broadcast-registered answer [] = refl
broadcast-registered answer (h ∷ hs) = ground (arith, broadcast-registered answer hs)

add_first_free-room :
    (hs : List Handler) (cb ud : ℕ)
    → cb ≢ 0
    → ((add_first_free hs cb ud).0 ≡ true
        → length (registered (add_first_free hs cb ud).1) ≡ length (registered hs) + 1)
      × ((add_first_free hs cb ud).0 ≡ false
          → (length (registered hs) ≡ length hs) × ((add_first_free hs cb ud).1 ≡ hs))
      × (length (add_first_free hs cb ud).1 ≡ length hs)
unfolding add_first_free
add_first_free-room [] cb ud h = ground arith
add_first_free-room (x ∷ hs) cb ud h = ground (arith, add_first_free-room hs cb ud h)

-- Registering a callback fills one entry more; it fails only when every entry is taken, and then
-- changes nothing. The table keeps its size.
pub set_app_handler-room :
    (hs : List Handler) (cb ud : ℕ)
    → cb ≢ 0
    → ((set_app_handler hs cb ud).0 ≡ true
        → length (registered (set_app_handler hs cb ud).1) ≡ length (registered hs) + 1)
      × ((set_app_handler hs cb ud).0 ≡ false
          → (length (registered hs) ≡ length hs) × ((set_app_handler hs cb ud).1 ≡ hs))
      × (length (set_app_handler hs cb ud).1 ≡ length hs)
unfolding set_app_handler
set_app_handler-room hs cb ud h = ground (arith, add_first_free-room hs cb ud h)

remove-add :
    (hs : List Handler) (cb ud : ℕ)
    → cb ≢ 0
    → IsAbsent cb hs
    → IsClean hs
    → (add_first_free hs cb ud).0 ≡ true
    → remove_handler (add_first_free hs cb ud).1 cb ≡ (true, hs)
unfolding add_first_free remove_handler
remove-add [] cb ud ne absent clean done = cc
remove-add (h ∷ hs) cb ud ne absent clean done =
    ground (arith, remove-add hs cb ud ne absent.1 clean.1)

-- Removing a callback that was just registered gives the table back.
pub remove_handler-set :
    (hs : List Handler) (cb ud : ℕ)
    → cb ≢ 0
    → IsAbsent cb hs
    → IsClean hs
    → (set_app_handler hs cb ud).0 ≡ true
    → remove_handler (set_app_handler hs cb ud).1 cb ≡ (true, hs)
unfolding set_app_handler
remove_handler-set hs cb ud ne absent clean done = ground (arith, remove-add hs cb ud)
