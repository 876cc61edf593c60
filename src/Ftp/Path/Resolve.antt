-- ===== src/Ftp/Path/Resolve.antt =====
-- What a path means, by its segments, and how the tests of the loop find them.
pub mod Loop
pub mod Whole
use zephyr_app.Common.{
  ==_iff, Bool, Bool-cases, List, Option, [], ap, append_assoc, arith, false, get_or, if◌then◌else◌,
  inl, inr, length, list_eq, none, not, refl, some, true, ℕ, ◌&&◌, ◌++◌, ◌+◌, ◌-◌, ◌==◌, ◌∷◌, ◌≡◌,
  ◌≤◌,
}
use mathlib.Core.List.{reverse, reverse-cons}
use zephyr_app.Ftp.Path.{copy, dot, head, here, other, skip_slashes, slash, up}

-- The segments between the slashes, empty ones included.
pub segments : List ℕ → List (List ℕ)
segments [] = [] ∷ []
segments (c ∷ src) =
    if c == slash
    then [] ∷ segments src
    else elim (segments src) [ [] ↦ (c ∷ []) ∷ [] | s ∷ ss ↦ (c ∷ s) ∷ ss ]

abbrev pub is_plain : List ℕ → Bool
is_plain s = not (list_eq s []) && not (list_eq s (dot ∷ [])) && not (list_eq s (dot ∷ dot ∷ []))

-- What a segment makes of the names so far, the last one first.
pub step : List (List ℕ) → List ℕ → Option (List (List ℕ))
step names s =
    if is_plain s
    then some (s ∷ names)
    else if list_eq s (dot ∷ dot ∷ [])
    then elim names [ [] ↦ none | n ∷ rest ↦ some rest ]
    else some names

pub resolve : List (List ℕ) → List (List ℕ) → Option (List (List ℕ))
resolve names [] = some names
resolve names (s ∷ ss) = elim (step names s) [ none ↦ none | some more ↦ resolve more ss ]

-- The names with a slash behind each. The root is the empty name at the front.
pub dirs : List (List ℕ) → List ℕ
dirs [] = []
dirs (s ∷ names) = dirs names ++ (s ++ (slash ∷ []))

pub render : List (List ℕ) → List ℕ
render [] = []
render (s ∷ []) = if list_eq s [] then slash ∷ [] else s
render (s ∷ t ∷ names) = dirs (t ∷ names) ++ s

-- An absolute path starts with the root.
pub meaning : List ℕ → Option (List ℕ)
meaning path = elim (resolve (if get_or path 0 0 == slash then [] ∷ [] else []) (segments path)) [
  | none ↦ none
  | some names ↦ some (render names)
]

-- the part before the first slash, and what stands from there
pub front : List ℕ → List ℕ
front [] = []
front (c ∷ src) = if c == slash then [] else c ∷ front src

pub after : List ℕ → List ℕ
after [] = []
after (c ∷ src) = if c == slash then c ∷ src else after src

pub tail_segments : List ℕ → List (List ℕ)
tail_segments [] = []
tail_segments (c ∷ src) = segments src

pub left_of : List ℕ → List ℕ
left_of [] = []
left_of (c ∷ src) = skip_slashes src

pub segments_lem : (src : List ℕ) → segments src ≡ front src ∷ tail_segments (after src)
unfolding segments front after tail_segments
segments_lem [] = refl
segments_lem (c ∷ src) = elim (Bool-cases (c == slash)) [
  | inl e ↦ rw e refl
  | inr e ↦ rw (e, segments_lem src) refl
]

pub copy_lem : (src dst : List ℕ) → copy src dst ≡ (after src, reverse (front src) ++ dst)
unfolding copy front after
copy_lem [] dst = refl
copy_lem (c ∷ src) dst = elim (Bool-cases (c == slash)) [
  | inl e ↦ rw e refl
  | inr e ↦
      rw (e, copy_lem src (c ∷ dst), reverse-cons c (front src))
        (rw (append_assoc (reverse (front src)) (c ∷ []) dst) refl)
]

pub resolve-skip_slashes :
    (names : List (List ℕ)) (src : List ℕ)
    → resolve names (segments (skip_slashes src)) ≡ resolve names (segments src)
unfolding segments skip_slashes resolve step
resolve-skip_slashes names [] = refl
resolve-skip_slashes names (c ∷ src) = elim (Bool-cases (c == slash)) [
  | inl e ↦ rw e (resolve-skip_slashes names src)
  | inr e ↦
      let same : skip_slashes (c ∷ src) ≡ c ∷ src = rw e refl in
      ap (λ l. resolve names (segments l)) same
]

pub resolve-left_of :
    (names : List (List ℕ)) (src : List ℕ)
    → resolve names (segments (left_of src)) ≡ resolve names (tail_segments src)
unfolding left_of tail_segments segments resolve step
resolve-left_of names [] = refl
resolve-left_of names (c ∷ src) = resolve-skip_slashes names src

pub length-skip_slashes : (src : List ℕ) → length (skip_slashes src) ≤ length src
unfolding skip_slashes
length-skip_slashes [] = omega arith
length-skip_slashes (c ∷ src) = ground (arith, length-skip_slashes src)

pub length-left_of : (src : List ℕ) → length (left_of src) ≤ length src - 1
unfolding left_of
length-left_of [] = omega arith
length-left_of (c ∷ src) = omega (arith, length-skip_slashes src)

pub length-after : (src : List ℕ) → length (front src) + length (after src) ≡ length src
unfolding front after
length-after [] = refl
length-after (c ∷ src) = ground (arith, length-after src)

-- What stands at the front of `src`, and what `head` makes of it.
pub data Begins (src : List ℕ) : Type 0 where
  nil : src ≡ [] → Begins src
  last : src ≡ dot ∷ [] → Begins src
  self : front src ≡ dot ∷ [] → head src ≡ here (left_of (after src)) → Begins src
  parent : front src ≡ dot ∷ dot ∷ [] → head src ≡ up (left_of (after src)) → Begins src
  name :
      is_plain (front src) ≡ true → head src ≡ other → list_eq src (dot ∷ []) ≡ false → Begins src

abbrev pub starts : List ℕ → Bool
starts [] = false
starts (c ∷ src) = c == slash

plain_front : (c : ℕ) (src : List ℕ) → (c == dot) ≡ false → is_plain (c ∷ src) ≡ true
plain_front c src e = rw e refl

-- a name that starts with a dot
dotted : (d : ℕ) (src : List ℕ) → (d == dot) ≡ false → is_plain (dot ∷ d ∷ src) ≡ true
dotted d src e = rw e refl

pub begins : (src : List ℕ) → starts src ≡ false → Begins src
unfolding front after head left_of skip_slashes
begins [] h = nil refl
begins (c ∷ []) h = elim (Bool-cases (c == dot)) [
  | inl e ↦ last (ap (λ x. x ∷ []) ((==_iff c dot).0 e))
  | inr e ↦ name (rw h (rw e refl)) refl (rw e refl)
]
begins (c ∷ d ∷ []) h = elim (Bool-cases (c == dot)) [
  | inr e ↦ elim (Bool-cases (d == slash)) [
    | inl s ↦ name (rw (h, s, e) refl) (rw e refl) (rw e refl)
    | inr s ↦ name (rw (h, s, e) refl) (rw e refl) (rw e refl)
  ]
  | inl e ↦
      let is_dot = (==_iff c dot).0 e in
      elim (Bool-cases (d == slash)) [
        | inl s ↦ self (rw (is_dot, s) refl) (rw (is_dot, s) refl)
        | inr s ↦ elim (Bool-cases (d == dot)) [
          | inl t ↦
              let is_dot' = (==_iff d dot).0 t in
              parent (rw (is_dot, is_dot') refl) (rw (is_dot, is_dot') refl)
          | inr t ↦ name (rw (is_dot, s, t) refl) (rw (is_dot, s, t) refl) (rw is_dot refl)
        ]
      ]
]
begins (c ∷ d ∷ e ∷ src) h = elim (Bool-cases (c == dot)) [
  | inr n ↦ name (rw h (plain_front c _ n)) (rw n refl) (rw n refl)
  | inl n ↦
      let is_dot = (==_iff c dot).0 n in
      elim (Bool-cases (d == slash)) [
        | inl s ↦ self (rw (is_dot, s) refl) (rw (is_dot, s) refl)
        | inr s ↦ elim (Bool-cases (d == dot)) [
          | inr t ↦ name (rw (is_dot, s) (dotted d _ t)) (rw (is_dot, s, t) refl) (rw is_dot refl)
          | inl t ↦
              let is_dot' = (==_iff d dot).0 t in
              elim (Bool-cases (e == slash)) [
                | inl u ↦ parent (rw (is_dot, is_dot', u) refl) (rw (is_dot, is_dot', u) refl)
                | inr u ↦
                    name (rw (is_dot, is_dot', u) refl) (rw (is_dot, is_dot', u) refl)
                      (rw is_dot refl)
              ]
        ]
      ]
]
