-- ===== src/Ftp/Path/Resolve/Whole.antt =====
-- ftp_normalize_path computes what a path means.
use zephyr_app.Common.{
  ==_iff, Bool-cases, List, Option, [], ap, append-nil, append_assoc, ap₂, arith, inl, inr, length,
  none, refl, some, suc, sym, true, ℕ, ◌++◌, ◌==◌, ◌∙◌, ◌∷◌, ◌≡◌, ◌≢◌,
}
use mathlib.Core.List.{reverse, reverse-append, reverse-cons, reverse-reverse}
use zephyr_app.Ftp.Path.{
  Run, copy, ftp_normalize_path, go_on, head, normalize_loop, other, skip_slashes, slash, strip,
}
use zephyr_app.Ftp.Path.Resolve.{
  dirs, left_of, length-skip_slashes, meaning, render, resolve, resolve-skip_slashes, segments,
  step,
}
use zephyr_app.Ftp.Path.Resolve.Loop.{
  flat, flattened, has_slash, loop_lem, starts-left_of, stripped,
}

dirs-flat : (names : List (List ℕ)) → reverse (flat names) ≡ dirs names
unfolding dirs flat
dirs-flat [] = refl
dirs-flat (s ∷ names) =
    rw
      (
        reverse-cons slash (reverse s ++ flat names),
        reverse-append (reverse s) (flat names),
        reverse-reverse s,
        dirs-flat names,
      )
      (append_assoc (dirs names) s (slash ∷ []))

strip-slash : (l : List ℕ) → l ≢ [] → strip (slash ∷ l) ≡ l
unfolding strip
strip-slash [] ne = absurd (ne refl)
strip-slash (c ∷ l) ne = refl

append_ne : (xs ys : List ℕ) → ys ≢ [] → xs ++ ys ≢ []
append_ne [] ys ne e = ne e
append_ne (x ∷ xs) ys ne e = cc

reverse-strip-flat : (names : List (List ℕ)) → reverse (strip (flat names)) ≡ render names
unfolding render flat strip
reverse-strip-flat [] = refl
reverse-strip-flat ([] ∷ []) = refl
reverse-strip-flat ((c ∷ s) ∷ []) =
    let some_left : reverse (c ∷ s) ≢ [] = λ e. cc (sym (reverse-reverse (c ∷ s)) ∙ ap reverse e) in
    ap (λ l. reverse (strip (slash ∷ l))) (append-nil (reverse (c ∷ s)))
    ∙ ap reverse (strip-slash (reverse (c ∷ s)) some_left)
    ∙ reverse-reverse (c ∷ s)
reverse-strip-flat (s ∷ t ∷ names) =
    let below = flat (t ∷ names) in
    let some_below : below ≢ [] = λ e. cc in
    ap reverse (strip-slash (reverse s ++ below) (append_ne (reverse s) below some_below))
    ∙ reverse-append (reverse s) below
    ∙ ap₂ (λ a b. a ++ b) (dirs-flat (t ∷ names)) (reverse-reverse s)

head-slash : (left : List ℕ) → head (slash ∷ left) ≡ other
unfolding head
head-slash [] = refl
head-slash (d ∷ []) = refl
head-slash (d ∷ e ∷ left) = refl

slash_pass :
    (fuel : ℕ) (left : List ℕ)
    → normalize_loop (suc fuel) (slash ∷ left) []
      ≡ normalize_loop fuel (skip_slashes left) (slash ∷ [])
unfolding normalize_loop go_on copy
slash_pass fuel left = rw (head-slash left, normalize_loop) refl

starts_slash :
    (fuel : ℕ) (c : ℕ) (left : List ℕ)
    → (c == slash) ≡ true
    → normalize_loop (suc fuel) (c ∷ left) [] ≡ normalize_loop fuel (skip_slashes left) (slash ∷ [])
starts_slash fuel c left h = rw ((==_iff c slash).0 h) (slash_pass fuel left)

root_lem :
    (c : ℕ) (left : List ℕ)
    → (c == slash) ≡ true
    → resolve ([] ∷ []) (segments (c ∷ left)) ≡ resolve ([] ∷ []) (segments (skip_slashes left))
unfolding segments resolve step
root_lem c left h = rw h (sym (resolve-skip_slashes ([] ∷ []) left))

finish :
    (out : Run) (names : Option (List (List ℕ)))
    → stripped out ≡ flattened names
    → elim out as (λ _. Run) [
      | none ↦ none
      | some none ↦ some none
      | some (some dst) ↦ some (some (reverse (strip dst)))
    ]
      ≡ some (elim names [ none ↦ none | some ns ↦ some (render ns) ])
unfolding stripped flattened
finish none none e = cc
finish none (some ns) e = cc
finish (some none) none e = refl
finish (some none) (some ns) e = cc
finish (some (some dst)) none e = cc
finish (some (some dst)) (some ns) e =
    ap (λ l. some (some l)) (ap reverse (got e) ∙ reverse-strip-flat ns)
  where
    got : some (some (strip dst)) ≡ some (some (strip (flat ns))) → strip dst ≡ strip (flat ns)
    got h = cc

-- `ftp_normalize_path` ends for every path, with NULL or not, and computes its meaning: the names
-- between the slashes, "" and "." left out and ".." taking the name before it, are joined by single
-- slashes; where ".." has no name before it the result is NULL. The root counts as a name, so that
-- one ".." too many takes it and leaves the path empty or relative.
pub ftp_normalize_path_lem : (path : List ℕ) → ftp_normalize_path path ≡ some (meaning path)
unfolding ftp_normalize_path meaning flat skip_slashes left_of has_slash
ftp_normalize_path_lem [] = finish _ _ (loop_lem 1 [] [] (omega arith) refl tt)
ftp_normalize_path_lem (c ∷ left) = elim (Bool-cases (c == slash)) [
  | inl e ↦
      rw (e, meaning)
        (finish _ _ (
          rw (starts_slash (suc (length left)) c left e, root_lem c left e)
            (loop_lem (suc (length left)) (skip_slashes left) ([] ∷ [])
              (omega (arith, length-skip_slashes left)) (starts-left_of (c ∷ left)) (refl, tt))))
  | inr e ↦
      rw (e, meaning)
        (finish _ _ (loop_lem (suc (suc (length left))) (c ∷ left) [] (omega arith) e tt))
]
