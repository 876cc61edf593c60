-- ===== src/Ftp/Transfer/Retr.antt =====
-- RETR: what goes over the data connection.
use zephyr_app.Common.{
  ==_iff, Bool, List, Option, [], ap, append-nil, append_assoc, ap₂, arith, drop, false, if_both,
  if◌then◌else◌, length, length-append, length-drop, ltb, none, refl, some, subst, suc, sym, take,
  take-append-drop, true, zero, ℕ, ◌&&◌, ◌++◌, ◌-◌, ◌<◌, ◌==◌, ◌∙◌, ◌∷◌, ◌≡◌, ◌≤◌,
}
use zephyr_app.Ftp.{Io, Os, Outcome, Reply, Session, pure, reply, ◌>>◌}
use zephyr_app.Ftp.Link.{close_fd, close_link}
use zephyr_app.Ftp.Transfer.{buf_size, ftp_data_send, retr_end, retr_file, retr_loop}

-- Of the system's state: what went over the data connection, what is left of the open file, and all
-- of it.
pub record View (W : Type 0) : Type 0 where
  pub sent : W → List ℕ
  pub left : W → List ℕ
  pub whole : W → List ℕ

-- Nothing fails: `send` takes a byte at least, `read` gives a byte at least before the end of the
-- file, `lseek` goes to its place; the other calls leave the connection and the file alone.
pub record Carries {W : Type 0} (os : Os W) (v : View W) : Type 0 where
  pub takes :
      (fd c : ℕ) (d : List ℕ) (w : W)
      → (n : ℕ) × ((os.send_data fd (c ∷ d) w).0 ≡ some (suc n))
        × (v.sent (os.send_data fd (c ∷ d) w).1 ≡ v.sent w ++ take (suc n) (c ∷ d))
        × (suc n ≤ length (c ∷ d))
        × (v.left (os.send_data fd (c ∷ d) w).1 ≡ v.left w)
  pub gives : (file n : ℕ) (w : W) → v.left w ≡ (os.read file n w).0 ++ v.left (os.read file n w).1
  pub limits : (file n : ℕ) (w : W) → length (os.read file n w).0 ≤ n
  pub ends : (file n : ℕ) (w : W) → 0 < n → (os.read file n w).0 ≡ [] → v.left w ≡ []
  pub read_keeps : (file n : ℕ) (w : W) → v.sent (os.read file n w).1 ≡ v.sent w
  pub seeks : (file n : ℕ) (w : W) → v.left (os.seek file n w) ≡ drop n (v.whole w)
  pub seek_keeps : (file n : ℕ) (w : W) → v.sent (os.seek file n w) ≡ v.sent w
  pub alloc_sent : (w : W) → v.sent (os.buf_alloc w).1 ≡ v.sent w
  pub alloc_left : (w : W) → v.left (os.buf_alloc w).1 ≡ v.left w
  pub alloc_whole : (w : W) → v.whole (os.buf_alloc w).1 ≡ v.whole w
  pub free_sent : (w : W) → v.sent (os.buf_free w) ≡ v.sent w
  pub reply_sent : (fd : ℕ) (r : Reply) (w : W) → v.sent (os.send fd r w) ≡ v.sent w
  pub reply_left : (fd : ℕ) (r : Reply) (w : W) → v.left (os.send fd r w) ≡ v.left w
  pub close_sent : (fd : ℕ) (w : W) → v.sent (os.close fd w) ≡ v.sent w

take-take : (n m : ℕ) (l : List ℕ) → n ≤ length (take m l) → take n (take m l) ≡ take n l
take-take zero m l h = refl
take-take (suc n) zero l h = absurd (omega (arith, h))
take-take (suc n) (suc m) [] h = refl
take-take (suc n) (suc m) (c ∷ l) h = ap (λ t. c ∷ t) (take-take n m l (omega (arith, h)))

module _ {W : Type 0} (os : Os W) (v : View W) (law : Carries os v) where
  -- The bytes have gone, and the file is as it was.
  abbrev pub Sends : W → List ℕ → Option (Bool × W) → Type 0
  Sends w d none = ⊥
  Sends w d (some (done, after)) =
      (done ≡ true) × (v.sent after ≡ v.sent w ++ d) × (v.left after ≡ v.left w)

  Sends-append :
      (w u : W) (a b : List ℕ) (out : Option (Bool × W))
      → v.sent u ≡ v.sent w ++ a
      → v.left u ≡ v.left w
      → Sends u b out
      → Sends w (a ++ b) out
  Sends-append w u a b none p q h = elim h [ ]
  Sends-append w u a b (some (done, after)) p q (d, s, l) =
      (d, s ∙ ap (λ x. x ++ b) p ∙ append_assoc (v.sent w) a b, l ∙ q)

  pub ftp_data_send_lem :
      (fuel fd : ℕ) (d : List ℕ) (w : W)
      → length d ≤ fuel
      → Sends w d (ftp_data_send os fuel fd d w)
  unfolding ftp_data_send
  ftp_data_send_lem zero fd [] w h = (refl, sym (append-nil _), refl)
  ftp_data_send_lem zero fd (c ∷ d) w h = absurd (omega (arith, h))
  ftp_data_send_lem (suc fuel) fd [] w h = (refl, sym (append-nil _), refl)
  ftp_data_send_lem (suc fuel) fd (c ∷ d) w h =
      let (n, took, sent, short, kept) = law.takes fd c (take 255 d) w in
      let some_went : (suc n == 0) ≡ false = ground arith in
      let piece : take (suc n) (c ∷ take 255 d) ≡ take (suc n) (c ∷ d) =
        take-take (suc n) 256 (c ∷ d) short in
      let less : length (drop n d) ≤ fuel = omega (arith, h, length-drop n d) in
      let rest = ftp_data_send_lem fuel fd (drop n d) (os.send_data fd (c ∷ take 255 d) w).1 less in
      let all =
        Sends-append w _ (take (suc n) (c ∷ d)) (drop n d) _ (sent ∙ ap (λ t. v.sent w ++ t) piece)
          kept rest in
      rw (took, some_went) (rw (take-append-drop (suc n) (c ∷ d)) at all)

  -- The file has gone from where it was read.
  abbrev Copies : W → Option (Bool × W) → Type 0
  Copies w none = ⊥
  Copies w (some (done, after)) = (done ≡ true) × (v.sent after ≡ v.sent w ++ v.left w)

  Copies-append :
      (w x : W) (bytes : List ℕ) (out : Option (Bool × W))
      → v.sent x ≡ v.sent w ++ bytes
      → v.left w ≡ bytes ++ v.left x
      → Copies x out
      → Copies w out
  Copies-append w x bytes none p q h = elim h [ ]
  Copies-append w x bytes (some (done, after)) p q (d, s) = (
    d,
    s
        ∙ ap (λ t. t ++ v.left x) p
        ∙ append_assoc (v.sent w) bytes (v.left x)
        ∙ ap (λ t. v.sent w ++ t) (sym q),
  )

  -- A piece that was read goes, and then the rest.
  after_piece :
      (w u : W) (bytes : List ℕ) (out : Option (Bool × W)) (go : Io W Bool)
      → v.sent u ≡ v.sent w
      → v.left w ≡ bytes ++ v.left u
      → Sends u bytes out
      → ((x : W) → v.left x ≡ v.left u → Copies x (go x))
      → Copies w (elim out [ none ↦ none | some (sent, x) ↦ (if sent then go else pure false) x ])
  after_piece w u bytes none go p q h k = elim h [ ]
  after_piece w u bytes (some (sent, x)) go p q (d, s, l) k = rw d (
      Copies-append w x bytes (go x) (s ∙ ap (λ t. t ++ bytes) p) (q ∙ ap (λ t. bytes ++ t) (sym l))
        (k x l))

  retr_pass :
      (fuel file fd : ℕ) (w : W) (bytes : List ℕ)
      → (os.read file buf_size w).0 ≡ bytes
      → length (v.left w) < suc fuel
      → ((x : W) → length (v.left x) < fuel → Copies x (retr_loop os fuel file fd x))
      → Copies w (retr_loop os (suc fuel) file fd w)
  unfolding retr_loop
  retr_pass fuel file fd w [] e h k = rw e (
    refl,
    law.read_keeps file buf_size w
        ∙ sym (
            ap (λ t. v.sent w ++ t) (law.ends file buf_size w (omega arith) e)
            ∙ append-nil (v.sent w)),
  )
  retr_pass fuel file fd w (c ∷ more) e h k =
      let u = (os.read file buf_size w).1 in
      let split : v.left w ≡ (c ∷ more) ++ v.left u =
        law.gives file buf_size w ∙ ap (λ b. b ++ v.left u) e in
      let size = ap length split ∙ length-append (c ∷ more) (v.left u) in
      let fits : length (c ∷ more) ≤ buf_size =
        subst (λ b. length b ≤ buf_size) e (law.limits file buf_size w) in
      let sent = ftp_data_send_lem buf_size fd (c ∷ more) u fits in
      rw e (
        after_piece w u (c ∷ more) _ _ (law.read_keeps file buf_size w) split sent
          (λ x l. k x (omega (arith, size, h, ap length l))))

  -- Fuel for each byte is enough.
  retr_loop_lem :
      (fuel file fd : ℕ) (w : W) → length (v.left w) < fuel → Copies w (retr_loop os fuel file fd w)
  retr_loop_lem zero file fd w h = absurd (omega (arith, h))
  retr_loop_lem (suc fuel) file fd w h =
      retr_pass fuel file fd w _ refl h (λ x k. retr_loop_lem fuel file fd x k)

  -- The data connection is closed, and nothing more has gone.
  Closes : W → Option (Session × W) → Type 0
  Closes w none = ⊥
  Closes w (some (t, after)) = (v.sent after ≡ v.sent w) × (t.port_pasv_fd ≡ none)

  close_fds-Closes :
      (a b : Option ℕ) (t : Session) (w : W)
      → t.port_pasv_fd ≡ none
      → Closes w ((close_fd os a >> (close_fd os b >> pure t)) w)
  unfolding Closes
  close_fds-Closes none none t w e = (refl, e)
  close_fds-Closes none (some n) t w e = (law.close_sent n w, e)
  close_fds-Closes (some m) none t w e = (law.close_sent m w, e)
  close_fds-Closes (some m) (some n) t w e =
      (law.close_sent n (os.close m w) ∙ law.close_sent m w, e)

  close_link-Closes : (s : Session) (w : W) → Closes w (close_link os s w)
  unfolding close_link
  close_link-Closes s w = close_fds-Closes s.port_pasv_fd _ _ w refl

  -- The command has returned 0 with the bytes sent, the offset is 0 again and the data connection
  -- closed.
  abbrev pub Serves : W → List ℕ → Option (Outcome × W) → Type 0
  Serves w d none = ⊥
  Serves w d (some ((rc, t), after)) =
      (rc ≡ true) × (v.sent after ≡ v.sent w ++ d) × (t.offset ≡ 0) × (t.port_pasv_fd ≡ none)

  last_reply :
      (w y : W) (d : List ℕ) (code : ℕ) (out : Option (Session × W))
      → v.sent y ≡ v.sent w ++ d
      → Closes y out
      → Serves w d (elim out [
        | none ↦ none
        | some (t, x) ↦ some ((true, record t { offset = 0 }), os.send t.fd (reply code []) x)
      ])
  unfolding Closes
  last_reply w y d code none p h = elim h [ ]
  last_reply w y d code (some (t, x)) p (c, e) =
      (refl, law.reply_sent t.fd (reply code []) x ∙ c ∙ p, refl, e)

  retr_end-Serves :
      (s : Session) (file : ℕ) (done : Bool) (w x : W) (d : List ℕ)
      → v.sent x ≡ v.sent w ++ d
      → Serves w d (retr_end os s file done x)
  unfolding retr_end
  retr_end-Serves s file done w x d p =
      let y = os.close file (os.buf_free x) in
      last_reply w y d _ _ (law.close_sent file (os.buf_free x) ∙ law.free_sent x ∙ p)
        (close_link-Closes s y)

  copied :
      (s : Session) (file : ℕ) (w u : W) (d : List ℕ) (out : Option (Bool × W))
      → v.sent u ≡ v.sent w
      → v.left u ≡ d
      → Copies u out
      → Serves w d (elim out [ none ↦ none | some (done, x) ↦ retr_end os s file done x ])
  copied s file w u d none p q h = elim h [ ]
  copied s file w u d (some (done, x)) p q (e, sent) =
      retr_end-Serves s file done w x d (sent ∙ ap₂ (λ a b. a ++ b) p q)

  seek_from :
      (file from : ℕ) (w : W)
      → v.left w ≡ v.whole w
      → let go = if from == 0 then (λ x. x) else os.seek file from in
        (v.sent (go w) ≡ v.sent w) × (v.left (go w) ≡ drop from (v.whole w))
  seek_from file from w l =
      if_both (λ (go : W → W). (v.sent (go w) ≡ v.sent w) × (v.left (go w) ≡ drop from (v.whole w)))
        (from == 0) (λ x. x) (os.seek file from)
        (λ e. (refl, l ∙ ap (λ n. drop n (v.whole w)) (sym ((==_iff from 0).0 e))))
        (λ e. (law.seek_keeps file from w, law.seeks file from w))

  -- RETR of a file with bytes, a buffer being free and nothing failing: over the data connection
  -- goes the file, from the offset if that lies in it and else from its start, and nothing else.
  -- The data connection is then closed and the offset 0. Fuel for each byte of the file is enough.
  pub retr_file_lem :
      (fuel : ℕ) (s : Session) (path : List ℕ) (file fd : ℕ) (w : W)
      → (os.buf_alloc w).0 ≡ true
      → v.left w ≡ v.whole w
      → length (v.whole w) < fuel
      → let size = length (v.whole w) in
        let from = if ltb 0 s.offset && ltb s.offset size then s.offset else 0 in
        Serves w (drop from (v.whole w)) (retr_file os fuel s path file size fd w)
  unfolding retr_file
  retr_file_lem fuel s path file fd w a l h =
      let size = length (v.whole w) in
      let from = if ltb 0 s.offset && ltb s.offset size then s.offset else 0 in
      let u = (os.buf_alloc w).1 in
      let still : v.left u ≡ v.whole u = law.alloc_left w ∙ l ∙ sym (law.alloc_whole w) in
      let (same, placed) = seek_from file from u still in
      let go = if from == 0 then (λ x. x) else os.seek file from in
      let y = go u in
      let said =
        reply 150
          (path ++ (os.decimal (size - from) ++ (if from == 0 then [] else os.decimal size))) in
      let begun = os.send s.fd said y in
      let at_start : v.left begun ≡ drop from (v.whole w) =
        law.reply_left s.fd said y ∙ placed ∙ ap (λ f. drop from f) (law.alloc_whole w) in
      let none_yet : v.sent begun ≡ v.sent w =
        law.reply_sent s.fd said y ∙ same ∙ law.alloc_sent w in
      let short : length (v.left begun) < fuel =
        omega (arith, h, ap length at_start, length-drop from (v.whole w)) in
      rw a (copied s file w begun _ _ none_yet at_start (retr_loop_lem fuel file fd begun short))
