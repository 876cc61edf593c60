-- ===== src/Modbus/Restore.antt =====
-- What is saved under `modbus` comes back after a reset.
use mathlib.Core.Path.{fun_ext}
use zephyr_app.Common.{
  All, Bool, Bool-cases, List, [], ap, arith, false, get_or, if◌then◌else◌, inl, inr, length,
  length-set, refl, set, take, true, ℕ, ◌++◌, ◌+◌, ◌<◌, ◌==◌, ◌||◌, ◌∙◌, ◌∷◌, ◌≡◌,
}
use zephyr_app.Modbus.Settings.{ip_is_valid, mb_handle_export, mb_handle_set}
use zephyr_app.Modbus.Coils.{get_or-set}
use zephyr_app.Modbus.Idx

-- what the settings library documents of `settings_name_next`: the part before a `/`, with more to
-- come, or before a `=` or the end
pub first_part : List ℕ → ℕ × Bool
first_part [] = (0, false)
first_part (c ∷ name) =
    let (n, more) = first_part name in
    if c == b'/' then (0, true) else if c == b'=' then (0, false) else (n + 1, more)

-- the set handler at each saved item, which hands back what was saved
pub restore : (List ℕ → ℕ × Bool) → List ℕ → List (List ℕ × List ℕ) → List ℕ
restore name_next xs [] = xs
restore name_next xs ((name, ws) ∷ items) =
    restore name_next (mb_handle_set name_next xs name (λ n. take n ws)).0 items

-- the registers that are saved, in the order of the export
pub saved : List ℕ → List ℕ
saved h =
    (Idx.ai_en ∷ Idx.ai_si ∷ Idx.di_en ∷ Idx.di_si ∷ Idx.his_save ∷ Idx.can_id ∷ Idx.can_bps
      ∷ Idx.rs485_bps ∷ Idx.slave_id ∷ Idx.tcp_port ∷ Idx.net_mode ∷ [])
    ++ ((if ip_is_valid h then 10 ∷ 11 ∷ 12 ∷ 13 ∷ [] else [])
        ++ (Idx.heart_en ∷ Idx.heart_timeout ∷ []))

pub has_index : ℕ → List ℕ → Bool
has_index j [] = false
has_index j (i ∷ is) = i == j || has_index j is

copy : List ℕ → List ℕ → List ℕ → List ℕ
copy h xs [] = xs
copy h xs (i ∷ is) = copy h (set xs i (get_or h i 0)) is

copy_lem :
    (h xs is : List ℕ) (j : ℕ)
    → length xs ≡ 23
    → All (λ i. i < 23) is
    → get_or (copy h xs is) j 0 ≡ (if has_index j is then get_or h j 0 else get_or xs j 0)
unfolding copy has_index
copy_lem h xs [] j long all = refl
copy_lem h xs (i ∷ is) j long all =
    copy_lem h (set xs i (get_or h i 0)) is j (length-set xs i (get_or h i 0) ∙ long) all.1
    ∙ ground (arith, get_or-set xs i j (get_or h i 0) (omega (arith, long, all.0)))

saved-lt : (h : List ℕ) → All (λ i. i < 23) (saved h)
unfolding saved
saved-lt h = elim (Bool-cases (ip_is_valid h)) [
  | inl v ↦ rw v (omega arith)
  | inr v ↦ rw v (omega arith)
]

restore-copy : (h xs : List ℕ) → restore first_part xs (mb_handle_export h) ≡ copy h xs (saved h)
unfolding restore first_part mb_handle_export mb_handle_set saved copy
restore-copy h xs = elim (Bool-cases (ip_is_valid h)) [ inl v ↦ rw v refl | inr v ↦ rw v refl ]

-- From any registers of the default number: setting everything that was exported makes each saved
-- register what it was at the export, and leaves every other register. The address is saved only
-- if it is valid: not ending in 0 or 255, and not a group address.
pub restore_lem :
    (name_next : List ℕ → ℕ × Bool)
    → ((name : List ℕ) → name_next name ≡ first_part name)
    → (h xs : List ℕ) (j : ℕ) → length xs ≡ 23
    → get_or (restore name_next xs (mb_handle_export h)) j 0
      ≡ (if has_index j (saved h) then get_or h j 0 else get_or xs j 0)
restore_lem name_next splits h xs j long =
    ap (λ (f : List ℕ → ℕ × Bool). get_or (restore f xs (mb_handle_export h)) j 0) (fun_ext splits)
    ∙ (ap (λ (l : List ℕ). get_or l j 0) (restore-copy h xs)
        ∙ copy_lem h xs (saved h) j long (saved-lt h))
