-- ===== src/Ftp/Path/Resolve/Loop.antt =====
-- The loop of ftp_normalize_path, pass by pass.
use zephyr_app.Common.{
  ==_iff, All, Bool, Bool-cases, List, Option, [], ap, arith, false, if_both, inl, inr, length,
  list_eq, none, refl, some, subst, suc, sym, true, zero, ℕ, ◌++◌, ◌<◌, ◌==◌, ◌||◌, ◌∙◌, ◌∷◌, ◌≡◌,
  ◌≢◌, ◌⊎◌,
}
use mathlib.Core.List.{reverse, reverse-cons, reverse-reverse}
use zephyr_app.Ftp.Path.{
  Run, back, copy, dot, go_on, head, here, normalize_loop, other, skip_slashes, slash, strip, up,
  up_one,
}
use zephyr_app.Ftp.Path.Resolve.{
  after, begins, copy_lem, front, is_plain, last, left_of, length-after, length-left_of, name, nil,
  parent, resolve, resolve-left_of, segments, segments_lem, self, starts, step, tail_segments,
}

-- The names as `dst` holds them, its last byte first.
unfoldable pub flat : List (List ℕ) → List ℕ
flat [] = []
flat (s ∷ names) = slash ∷ (reverse s ++ flat names)

-- `dst` without the '/' at its end
unfoldable pub stripped : Run → Run
stripped none = none
stripped (some none) = some none
stripped (some (some dst)) = some (some (strip dst))

unfoldable pub flattened : Option (List (List ℕ)) → Run
flattened none = some none
flattened (some names) = some (some (strip (flat names)))

pub starts-left_of : (src : List ℕ) → starts (left_of src) ≡ false
unfolding left_of skip_slashes
starts-left_of [] = refl
starts-left_of (c ∷ src) = go src
  where
    go : (l : List ℕ) → starts (skip_slashes l) ≡ false
    go [] = refl
    go (x ∷ l) = if_both (λ k. starts k ≡ false) (x == slash) _ _ (λ e. go l) (λ e. e)

unfoldable pub has_slash : List ℕ → Bool
has_slash [] = false
has_slash (c ∷ src) = c == slash || has_slash src

no_slash_front : (src : List ℕ) → has_slash (front src) ≡ false
unfolding front has_slash
no_slash_front [] = refl
no_slash_front (c ∷ src) =
    if_both (λ k. has_slash k ≡ false) (c == slash) _ _ (λ e. refl) (λ e. rw e (no_slash_front src))

after_shape : (src : List ℕ) → (after src ≡ []) ⊎ ((x : List ℕ) × (after src ≡ slash ∷ x))
unfolding after
after_shape [] = inl refl
after_shape (c ∷ src) = elim (Bool-cases (c == slash)) [
  | inl e ↦ inr (src, rw e (ap (λ x. x ∷ src) ((==_iff c slash).0 e)))
  | inr e ↦ rw e (after_shape src)
]

step_plain :
    (names : List (List ℕ)) (s : List ℕ) → is_plain s ≡ true → step names s ≡ some (s ∷ names)
unfolding step
step_plain names s h = rw h refl

has_slash-append : (xs ys : List ℕ) → has_slash (xs ++ ys) ≡ (has_slash xs || has_slash ys)
unfolding has_slash
has_slash-append [] ys = refl
has_slash-append (x ∷ xs) ys = rw (has_slash-append xs ys) (or_assoc (x == slash) _ _)
  where
    or_assoc : (a b c : Bool) → (a || (b || c)) ≡ ((a || b) || c)
    or_assoc true b c = refl
    or_assoc false b c = refl

has_slash-reverse : (xs : List ℕ) → has_slash xs ≡ false → has_slash (reverse xs) ≡ false
unfolding has_slash
has_slash-reverse [] h = refl
has_slash-reverse (x ∷ xs) h = elim (Bool-cases (x == slash)) [
  | inl e ↦ cc
  | inr e ↦
      let rest : has_slash xs ≡ false = rw e at h in
      rw (reverse-cons x xs, has_slash-append (reverse xs) (x ∷ []), has_slash-reverse xs rest, e)
        refl
]

back_lem :
    (l : List ℕ) (names : List (List ℕ)) → has_slash l ≡ false → back (l ++ flat names) ≡ flat names
unfolding has_slash back flat
back_lem [] [] h = refl
back_lem [] (s ∷ names) h = refl
back_lem (x ∷ l) names h = elim (Bool-cases (x == slash)) [
  | inl e ↦ cc
  | inr e ↦ let rest : has_slash l ≡ false = rw e at h in rw e (back_lem l names rest)
]

strip_name :
    (l r : List ℕ) → has_slash l ≡ false → l ≢ [] → strip (slash ∷ (l ++ r)) ≡ strip (l ++ r)
unfolding has_slash strip
strip_name [] r h ne = absurd (ne refl)
strip_name (x ∷ l) r h ne = elim (Bool-cases (x == slash)) [
  | inl e ↦ cc
  | inr e ↦ unchanged (l ++ r) e
]
  where
    unchanged : (t : List ℕ) → (x == slash) ≡ false → strip (slash ∷ x ∷ t) ≡ strip (x ∷ t)
    unchanged [] e = refl
    unchanged (c ∷ t) e = rw e refl

reverse_ne : (s : List ℕ) → is_plain s ≡ true → reverse s ≢ []
reverse_ne [] h e = cc
reverse_ne (c ∷ s) h e = cc (sym (reverse-reverse (c ∷ s)) ∙ ap reverse e)

abbrev Names : List (List ℕ) → Type 0
Names = All (λ s. has_slash s ≡ false)

-- The step to the parent, for what the rest of the loop makes of it.
parent_lem :
    (names : List (List ℕ)) (rest : List ℕ → Run) (ss : List (List ℕ))
    → ((more : List (List ℕ))
        → Names more
        → stripped (rest (flat more)) ≡ flattened (resolve more ss))
    → Names names
    → stripped (elim (up_one (flat names)) [ none ↦ some none | some shorter ↦ rest shorter ])
      ≡ flattened (resolve names ((dot ∷ dot ∷ []) ∷ ss))
unfolding up_one flat resolve step flattened stripped
parent_lem [] rest ss h n = refl
parent_lem (s ∷ names) rest ss h n =
    rw (back_lem (reverse s) names (has_slash-reverse s n.0)) (h names n.1)

pass_here :
    (fuel : ℕ) (src dst left : List ℕ)
    → head src ≡ here left
    → normalize_loop (suc fuel) src dst ≡ normalize_loop fuel left dst
unfolding normalize_loop
pass_here fuel src dst left h = rw (h, normalize_loop) refl

pass_up :
    (fuel : ℕ) (src dst left : List ℕ)
    → head src ≡ up left
    → normalize_loop (suc fuel) src dst
      ≡ elim (up_one dst) [ none ↦ some none | some shorter ↦ normalize_loop fuel left shorter ]
unfolding normalize_loop
pass_up fuel src dst left h = rw (h, normalize_loop) refl

pass_name :
    (fuel : ℕ) (src dst : List ℕ)
    → head src ≡ other
    → list_eq src (dot ∷ []) ≡ false
    → normalize_loop (suc fuel) src dst
      ≡ go_on (normalize_loop fuel) (after src, reverse (front src) ++ dst)
unfolding normalize_loop
pass_name fuel src dst h r = rw (h, r, copy_lem src dst, normalize_loop) refl

pass_end : (fuel : ℕ) (dst : List ℕ) → normalize_loop (suc fuel) [] dst ≡ some (some dst)
unfolding normalize_loop head copy go_on
pass_end fuel dst = refl

pass_dot : (fuel : ℕ) (dst : List ℕ) → normalize_loop (suc fuel) (dot ∷ []) dst ≡ some (some dst)
unfolding normalize_loop head copy
pass_dot fuel dst = refl

-- The step to a name, for what the rest of the loop makes of it.
name_lem :
    (names : List (List ℕ)) (s rest : List ℕ) (go : List ℕ → List ℕ → Run)
    → is_plain s ≡ true
    → has_slash s ≡ false
    → (rest ≡ []) ⊎ ((x : List ℕ) × (rest ≡ slash ∷ x))
    → ((x : List ℕ)
        → rest ≡ slash ∷ x
        → stripped (go (skip_slashes x) (flat (s ∷ names)))
          ≡ flattened (resolve (s ∷ names) (tail_segments rest)))
    → stripped (go_on go (rest, reverse s ++ flat names))
      ≡ flattened (resolve names (s ∷ tail_segments rest))
unfolding go_on resolve stripped flattened flat tail_segments
name_lem names s rest go p q (inl e) h =
    let same = strip_name (reverse s) (flat names) (has_slash-reverse s q) (reverse_ne s p) in
    let done = ap (λ l. flattened (resolve (s ∷ names) (tail_segments l))) (sym e) in
    rw (step_plain names s p, resolve)
      (ap (λ l. stripped (go_on go (l, reverse s ++ flat names))) e
        ∙ ap (λ l. some (some l)) (sym same)
        ∙ done)
name_lem names s rest go p q (inr (x, e)) h =
    rw (step_plain names s p, resolve)
      (ap (λ l. stripped (go_on go (l, reverse s ++ flat names))) e ∙ h x e)

-- Where nothing or a dot is left, the names stay.
end_lem : (names : List (List ℕ)) → resolve names (segments []) ≡ some names
unfolding resolve step segments
end_lem names = refl

dot_lem : (names : List (List ℕ)) → resolve names (segments (dot ∷ [])) ≡ some names
unfolding resolve step segments
dot_lem names = refl

self_lem :
    (names : List (List ℕ)) (ss : List (List ℕ))
    → resolve names ((dot ∷ []) ∷ ss) ≡ resolve names ss
unfolding resolve step
self_lem names ss = refl

ended : (names : List (List ℕ)) → stripped (some (some (flat names))) ≡ flattened (some names)
unfolding stripped flattened
ended names = refl

left_slash : (x : List ℕ) → left_of (slash ∷ x) ≡ skip_slashes x
unfolding left_of
left_slash x = refl

pub loop_lem :
    (fuel : ℕ) (src : List ℕ) (names : List (List ℕ))
    → length src < fuel
    → starts src ≡ false
    → Names names
    → stripped (normalize_loop fuel src (flat names)) ≡ flattened (resolve names (segments src))
loop_lem zero src names h s n = absurd (omega (arith, h))
loop_lem (suc fuel) src names h s n =
    let rest = after src in
    let measure = length-after src in
    let shorter = length-left_of rest in
    elim (begins src s) [
      | nil e ↦ rw (e, pass_end fuel (flat names), end_lem names) (ended names)
      | last e ↦ rw (e, pass_dot fuel (flat names), dot_lem names) (ended names)
      | self p q ↦
          let less : length (left_of rest) < fuel =
            omega (arith, h, measure, shorter, ap length p) in
          rw (pass_here fuel src (flat names) _ q, segments_lem src, p, self_lem names)
            (loop_lem fuel (left_of rest) names less (starts-left_of rest) n
              ∙ ap flattened (resolve-left_of names rest))
      | parent p q ↦
          let less : length (left_of rest) < fuel =
            omega (arith, h, measure, shorter, ap length p) in
          rw (pass_up fuel src (flat names) _ q, segments_lem src, p)
            (parent_lem names (normalize_loop fuel (left_of rest)) (tail_segments rest)
              (λ more m.
                loop_lem fuel (left_of rest) more less (starts-left_of rest) m
                ∙ ap flattened (resolve-left_of more rest))
              n)
      | name p q r ↦
          rw (pass_name fuel src (flat names) q r, segments_lem src)
            (name_lem names (front src) rest (normalize_loop fuel) p (no_slash_front src)
              (after_shape src)
              (λ x e.
                let less : length (left_of rest) < fuel =
                  omega (arith, h, measure, shorter, ap length e) in
                let left : left_of rest ≡ skip_slashes x = ap left_of e ∙ left_slash x in
                subst
                  (λ l.
                    stripped (normalize_loop fuel l (flat (front src ∷ names)))
                    ≡ flattened (resolve (front src ∷ names) (tail_segments rest)))
                  left
                  (loop_lem fuel (left_of rest) (front src ∷ names) less (starts-left_of rest)
                      (no_slash_front src, n)
                    ∙ ap flattened (resolve-left_of (front src ∷ names) rest))))
    ]
