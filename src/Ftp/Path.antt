-- ===== src/Ftp/Path.antt =====
-- Paths: ftp_normalize_path and build_full_path of ftp_cmds.c. A path is the bytes before its zero.
pub mod Resolve
use zephyr_app.Common.{
  Bool-cases, List, Option, [], arith, get_or, if◌then◌else◌, inl, inr, leb, length, length-append,
  length-take, list_eq, ltb, lt→ltb, none, some, suc, sym, take, zero, ℕ, ◌&&◌, ◌++◌, ◌+◌, ◌-◌, ◌<◌,
  ◌==◌, ◌||◌, ◌∙◌, ◌∷◌, ◌≡◌, ◌≤◌,
}
use mathlib.Core.List.{reverse}

abbrev pub slash : ℕ
slash = b'/'

abbrev pub dot : ℕ
dot = b'.'

pub skip_slashes : List ℕ → List ℕ
skip_slashes [] = []
skip_slashes (c ∷ src) = if c == slash then skip_slashes src else c ∷ src

-- The inner copying loop: what `dst` gets up to the next '/' or the end, and what is left from
-- there. `dst` is kept with its last byte first.
pub copy : List ℕ → List ℕ → List ℕ × List ℕ
copy [] dst = ([], dst)
copy (c ∷ src) dst = if c == slash then (c ∷ src, dst) else copy src (c ∷ dst)

-- From `up_one`, after `dst--`: back to the byte after the last '/' that is left.
pub back : List ℕ → List ℕ
back [] = []
back (c ∷ dst) = if c == slash then c ∷ dst else back dst

-- `up_one`: none where `dst` would leave the path
pub up_one : List ℕ → Option (List ℕ)
up_one [] = none
up_one (c ∷ dst) = some (back dst)

-- What the tests at the head of the loop find.
pub data Head : Type 0 where
  here : List ℕ → Head
  up : List ℕ → Head
  other : Head

-- a './' or '../' or '..' at the end, with what follows it and its slashes
pub head : List ℕ → Head
head [] = other
head (c ∷ []) = other
head (c ∷ d ∷ []) =
    if c == dot && d == slash then here [] else if c == dot && d == dot then up [] else other
head (c ∷ d ∷ e ∷ src) =
    if c == dot && d == slash
    then here (skip_slashes (e ∷ src))
    else if c == dot && d == dot && e == slash
    then up (skip_slashes src)
    else other

-- What a run gives: none where its passes are used up, and in it none for NULL.
abbrev pub Run : Type 0
Run = Option (Option (List ℕ))

-- After a name: the end, or its '/' and the loop again, `go`, behind all slashes.
pub go_on : (List ℕ → List ℕ → Run) → List ℕ × List ℕ → Run
go_on go ([], dst) = some (some dst)
go_on go (c ∷ src, dst) = go (skip_slashes src) (slash ∷ dst)

-- The outer loop. Each pass takes a byte of `src` at least, so that its length and one is fuel
-- enough; a '.' at the end ends it.
pub normalize_loop : ℕ → List ℕ → List ℕ → Run
normalize_loop zero src dst = none
normalize_loop (suc fuel) src dst = elim (head src) [
  | here left ↦ normalize_loop fuel left dst
  | up left ↦ elim (up_one dst) [
    | none ↦ some none
    | some shorter ↦ normalize_loop fuel left shorter
  ]
  | other ↦
      if list_eq src (dot ∷ []) then some (some dst) else go_on (normalize_loop fuel) (copy src dst)
]

-- A '/' at the end goes, unless it is the only byte. Where nothing is left, the code looks at the
-- byte before the array.
pub strip : List ℕ → List ℕ
strip [] = []
strip (c ∷ []) = c ∷ []
strip (c ∷ d ∷ dst) = if c == slash then d ∷ dst else c ∷ d ∷ dst

-- none where the loop's passes are used up, `some none` for NULL
pub ftp_normalize_path : List ℕ → Run
ftp_normalize_path path = elim (normalize_loop (suc (length path)) path []) [
  | none ↦ none
  | some none ↦ some none
  | some (some dst) ↦ some (some (reverse (strip dst)))
]

-- The size of the arrays for paths
abbrev path_size : ℕ
path_size = 256

-- What `buf` holds before it is normalised. A relative path goes behind `buf` and a '/', as far as
-- the room goes; where the room is negative, as `size_t` it is no limit.
full_path : List ℕ → List ℕ → List ℕ
full_path buf path =
    let joined = buf ++ (slash ∷ []) in
    if get_or path 0 0 == slash
    then take (path_size - 1) path
    else if leb (length joined + 1) path_size
    then joined ++ take (path_size - length joined - 1) path
    else joined ++ path

pub build_full_path : List ℕ → List ℕ → Option (List ℕ)
build_full_path buf path = elim (ftp_normalize_path (full_path buf path)) [
  | none ↦ none
  | some out ↦ out
]

-- A path put together in an array of 256 bytes fits in it, with its zero, exactly if it is absolute
-- or the directory before it has at most 254 bytes.
full_path_fits :
    (buf path : List ℕ)
    → length buf < path_size
    → ltb (length (full_path buf path)) path_size
      ≡ (get_or path 0 0 == slash || ltb (length buf) (path_size - 1))
unfolding full_path
full_path_fits buf path h =
    let joined = buf ++ (slash ∷ []) in
    let room = path_size - length joined - 1 in
    let one_more : length joined ≡ length buf + 1 = length-append buf (slash ∷ []) in
    elim (Bool-cases (get_or path 0 0 == slash)) [
      | inl e ↦ rw (e, full_path) (lt→ltb _ _ (omega (arith, length-take (path_size - 1) path)))
      | inr e ↦ elim (Bool-cases (leb (length joined + 1) path_size)) [
        | inl f ↦
            let short : length buf < path_size - 1 = ground (arith, f, one_more) in
            let kept = length-append joined (take room path) in
            rw (e, f, full_path)
              (lt→ltb _ _ (omega (arith, kept, length-take room path, one_more, short))
                ∙ sym (lt→ltb _ _ short))
        | inr f ↦
            let long : path_size - 1 ≤ length buf = ground (arith, f, one_more) in
            let all = length-append joined path in
            let full : path_size ≤ length (joined ++ path) = omega (arith, all, one_more, long) in
            rw (e, f, full_path) (ground (arith, full, long))
      ]
    ]
