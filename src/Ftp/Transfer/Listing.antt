-- ===== src/Ftp/Transfer/Listing.antt =====
-- LIST: what goes over the data connection, and what does not.
use zephyr_app.Common.{
  All, Bool, Bool-cases, List, Option, [], ap, append-nil, append_assoc, arith, drop, false, inl,
  inr, length, length-append, ltb, none, refl, some, suc, sym, take, true, zero, ℕ, ◌++◌, ◌+◌, ◌<◌,
  ◌==◌, ◌||◌, ◌∙◌, ◌∷◌, ◌≡◌, ◌≢◌, ◌≤◌,
}
use zephyr_app.Ftp.{Io, Os, Stat}
use zephyr_app.Ftp.Path.{slash}
use zephyr_app.Ftp.Transfer.{
  buf_size, ftp_data_send, list_body, list_entry, list_loop, list_size, list_statbuf_get,
}
use zephyr_app.Ftp.Transfer.Retr.{Carries, Sends, View, ftp_data_send_lem}

-- The open directory: the entries that `readdir` has still to give, each found by `stat`, with lines
-- whose dates do not depend on the time; the other calls leave it alone.
pub record Lists {W : Type 0} (os : Os W) (v : View W) (dir : List ℕ) (now : W) : Type 0 where
  pub entries : W → List (List ℕ)
  pub stat_of : List ℕ → Stat
  pub ends : (w : W) → entries w ≡ [] → (os.readdir w).0 ≡ none
  pub gives :
      (w : W) (n : List ℕ) (ns : List (List ℕ))
      → entries w ≡ n ∷ ns
      → ((os.readdir w).0 ≡ some n) × (entries (os.readdir w).1 ≡ ns)
  pub readdir_sent : (w : W) → v.sent (os.readdir w).1 ≡ v.sent w
  pub finds : (n : List ℕ) (w : W) → os.stat (take 255 (dir ++ (slash ∷ n))) w ≡ some (stat_of n)
  pub dated :
      (n : List ℕ) (w : W)
      → list_statbuf_get os n (stat_of n) w ≡ list_statbuf_get os n (stat_of n) now
  pub alloc_entries : (w : W) → entries (os.buf_alloc w).1 ≡ entries w
  pub send_entries : (fd : ℕ) (d : List ℕ) (w : W) → entries (os.send_data fd d w).1 ≡ entries w

module _ {W : Type 0} (os : Os W) (v : View W) (law : Carries os v) (dir : List ℕ) (now : W)
    (l : Lists os v dir now) where
  abbrev pub line : List ℕ → List ℕ
  line n = list_statbuf_get os n (l.stat_of n) now

  abbrev pub lines : List (List ℕ) → List ℕ
  lines [] = []
  lines (n ∷ ns) = line n ++ lines ns

  -- The line of the name has its room of 256 bytes.
  abbrev IsShort : List ℕ → Type 0
  IsShort n = length (line n) ≤ 256

  line_ne : (n : List ℕ) → line n ≢ []
  unfolding list_statbuf_get
  line_ne n e = cc

  abbrev Keeps : W → Option (Bool × W) → Type 0
  Keeps w none = Unit
  Keeps w (some (b, x)) = l.entries x ≡ l.entries w

  Keeps-trans :
      (w u : W) (out : Option (Bool × W)) → l.entries u ≡ l.entries w → Keeps u out → Keeps w out
  Keeps-trans w u none e h = tt
  Keeps-trans w u (some (b, x)) e h = h ∙ e

  ftp_data_send-Keeps : (fuel fd : ℕ) (d : List ℕ) (w : W) → Keeps w (ftp_data_send os fuel fd d w)
  unfolding ftp_data_send
  ftp_data_send-Keeps zero fd [] w = refl
  ftp_data_send-Keeps zero fd (c ∷ d) w = tt
  ftp_data_send-Keeps (suc fuel) fd [] w = refl
  ftp_data_send-Keeps (suc fuel) fd (c ∷ d) w =
      let (n, took, sent, short, kept) = law.takes fd c (take 255 d) w in
      let some_went : (suc n == 0) ≡ false = ground arith in
      let went = l.send_entries fd (c ∷ take 255 d) w in
      let rest = ftp_data_send-Keeps fuel fd (drop n d) (os.send_data fd (c ∷ take 255 d) w).1 in
      rw (took, some_went) (Keeps-trans w _ _ went rest)

  -- After an entry: its line has gone, or waits at the end of the buffer.
  abbrev Waits : W → List ℕ → List ℕ → Option (List ℕ × W) → Type 0
  Waits w waiting text none = ⊥
  Waits w waiting text (some (after, x)) =
      (v.sent x ++ after ≡ (v.sent w ++ waiting) ++ text)
      × (l.entries x ≡ l.entries w)
      × (length after ≤ buf_size)
      × (after ≢ [])

  flushed :
      (w : W) (waiting text : List ℕ) (out : Option (Bool × W))
      → length text ≤ 256
      → text ≢ []
      → Sends os v law w waiting out
      → Keeps w out
      → Waits w waiting text (elim out [ none ↦ none | some (b, x) ↦ some (text, x) ])
  flushed w waiting text none h ne s k = elim s [ ]
  flushed w waiting text (some (b, x)) h ne (d, s, f) k =
      (ap (λ t. t ++ text) s, k, omega (arith, h), ne)

  append_some : (xs ys : List ℕ) → ys ≢ [] → xs ++ ys ≢ []
  append_some [] ys ne e = ne e
  append_some (x ∷ xs) ys ne e = cc

  list_entry-Waits :
      (fd : ℕ) (waiting n : List ℕ) (w : W)
      → length waiting ≤ buf_size
      → length (line n) ≤ 256
      → Waits w waiting (line n) (list_entry os buf_size fd dir waiting n w)
  unfolding list_entry
  list_entry-Waits fd waiting n w h short =
      elim (Bool-cases (ltb list_size (length waiting + length (line n)))) [
        | inl e ↦
            let sent = ftp_data_send_lem os v law buf_size fd waiting w h in
            let kept = ftp_data_send-Keeps buf_size fd waiting w in
            rw (l.finds n w, l.dated n w, e)
              (flushed w waiting (line n) _ short (line_ne n) sent kept)
        | inr e ↦
            let room : length waiting + length (line n) ≤ list_size = ground (arith, e) in
            rw (l.finds n w, l.dated n w, e)
              (
                sym (append_assoc (v.sent w) waiting (line n)),
                refl,
                omega (arith, length-append waiting (line n), room),
                append_some waiting (line n) (line_ne n),
              )
      ]

  -- At the end of the directory: what has gone, and what is still in the buffer.
  abbrev Leaves : W → List ℕ → List ℕ → Bool → Option (List ℕ × W) → Type 0
  Leaves w waiting text any none = ⊥
  Leaves w waiting text any (some (left, x)) =
      (v.sent x ++ left ≡ (v.sent w ++ waiting) ++ text) × (any ≡ true → left ≢ [])

  abbrev is_some : List ℕ → Bool
  is_some [] = false
  is_some (c ∷ waiting) = true

  abbrev are_some : List (List ℕ) → Bool
  are_some [] = false
  are_some (n ∷ ns) = true

  is_some-ne : (xs : List ℕ) → is_some xs ≡ true → xs ≢ []
  is_some-ne [] h e = cc
  is_some-ne (x ∷ xs) h e = cc

  ne-is_some : (xs : List ℕ) (b : Bool) → xs ≢ [] → (is_some xs || b) ≡ true
  ne-is_some [] b ne = absurd (ne refl)
  ne-is_some (x ∷ xs) b ne = refl

  or_false : (b : Bool) → b ≡ (b || false)
  or_false true = refl
  or_false false = refl

  go_on :
      (w x : W) (waiting after text more : List ℕ) (any some_next : Bool)
      (out : Option (List ℕ × W))
      → v.sent x ++ after ≡ (v.sent w ++ waiting) ++ text
      → (is_some after || some_next) ≡ true
      → Leaves x after more (is_some after || some_next) out
      → Leaves w waiting (text ++ more) any out
  go_on w x waiting after text more any some_next none p q h = elim h [ ]
  go_on w x waiting after text more any some_next (some (left, y)) p q (s, ne) =
      (s ∙ ap (λ t. t ++ more) p ∙ append_assoc (v.sent w ++ waiting) text more, λ _. ne q)

  -- An entry, and then the rest of the loop, `f`.
  after_entry :
      (w u : W) (waiting text more : List ℕ) (any some_next : Bool) (out : Option (List ℕ × W))
      (f : List ℕ → Io W (List ℕ))
      → v.sent u ≡ v.sent w
      → Waits u waiting text out
      → ((after : List ℕ) (x : W)
          → l.entries x ≡ l.entries u
          → length after ≤ buf_size
          → Leaves x after more (is_some after || some_next) (f after x))
      → Leaves w waiting (text ++ more) any (elim out [ none ↦ none | some (after, x) ↦ f after x ])
  after_entry w u waiting text more any some_next none f p h k = elim h [ ]
  after_entry w u waiting text more any some_next (some (after, x)) f p (s, e, room, ne) k =
      go_on w x waiting after text more any some_next (f after x)
        (s ∙ ap (λ t. (t ++ waiting) ++ text) p) (ne-is_some after some_next ne) (k after x e room)

  list_loop-Leaves :
      (fuel fd : ℕ) (ns : List (List ℕ)) (waiting : List ℕ) (w : W)
      → l.entries w ≡ ns
      → length ns < fuel
      → length waiting ≤ buf_size
      → All IsShort ns
      → Leaves w waiting
          (lines ns)
          (is_some waiting || are_some ns)
          (list_loop os fuel fd dir waiting w)
  unfolding list_loop
  list_loop-Leaves zero fd ns waiting w e f h short = absurd (omega (arith, f))
  list_loop-Leaves (suc fuel) fd [] waiting w e f h short = rw (l.ends w e) (
    ap (λ t. t ++ waiting) (l.readdir_sent w) ∙ sym (append-nil _),
    λ any. is_some-ne waiting (or_false _ ∙ any),
  )
  list_loop-Leaves (suc fuel) fd (n ∷ ns) waiting w e f h short =
      let (first, rest) = l.gives w n ns e in
      let u = (os.readdir w).1 in
      rw first (
        after_entry w u waiting (line n) (lines ns) _ (are_some ns) _ _ (l.readdir_sent w)
          (list_entry-Waits fd waiting n u h short.0)
          (λ after x same room.
            list_loop-Leaves fuel fd ns after x (same ∙ rest) (omega (arith, f)) room short.1))

  abbrev pub Drops : W → List ℕ → Bool → Option (Unit {0} × W) → Type 0
  Drops w text any none = ⊥
  Drops w text any (some (done, x)) =
      (left : List ℕ) × (v.sent x ++ left ≡ v.sent w ++ text) × (any ≡ true → left ≢ [])

  dropped :
      (w u : W) (text : List ℕ) (any : Bool) (out : Option (List ℕ × W))
      → v.sent u ≡ v.sent w
      → Leaves u [] text any out
      → Drops w text any (elim out [ none ↦ none | some (left, x) ↦ some (tt, os.buf_free x) ])
  dropped w u text any none p h = elim h [ ]
  dropped w u text any (some (left, x)) p (s, ne) = (
    left,
    ap (λ t. t ++ left) (law.free_sent x)
        ∙ s
        ∙ ap (λ t. (t ++ []) ++ text) p
        ∙ ap (λ t. t ++ text) (append-nil (v.sent w)),
    ne,
  )

  -- LIST drops the end of the list, where nothing fails, a buffer is free and the lines
  -- have at most 256 bytes: what has gone over the
  -- data connection and a further text, which is not sent, are together the lines of the entries in
  -- their order; the further text is not empty unless the directory is. Fuel for each entry and one
  -- is enough.
  pub list_body-Drops :
      (fuel fd : ℕ) (ns : List (List ℕ)) (w : W)
      → (os.buf_alloc w).0 ≡ true
      → l.entries w ≡ ns
      → length ns < fuel
      → All IsShort ns
      → Drops w (lines ns) (are_some ns) (list_body os fuel fd dir w)
  unfolding list_body
  list_body-Drops fuel fd ns w a e f short =
      let u = (os.buf_alloc w).1 in
      rw a (
        dropped w u (lines ns) (are_some ns) _ (law.alloc_sent w)
          (list_loop-Leaves fuel fd ns [] u (l.alloc_entries w ∙ e) f (omega arith) short))
