-- ===== src/Ftp/Tests.antt =====
-- Runs of the FTP server over a system in memory, whose calls do not fail.
use zephyr_app.Common.{
  Bool, List, Option, [], ap, arith, drop, false, length, length-take, none, refl, some, suc, sym,
  take, take-append-drop, take_all, true, zero, ℕ, ◌%◌, ◌++◌, ◌+◌, ◌<◌, ◌∷◌, ◌≡◌,
}
use zephyr_app.Ftp.{Os, Reply, Session, Stat, ok, reply, stale}
use zephyr_app.Ftp.Path.{ftp_normalize_path}
use zephyr_app.Ftp.Path.Resolve.{meaning}
use zephyr_app.Ftp.Path.Resolve.Whole.{ftp_normalize_path_lem}
use zephyr_app.Ftp.Handler.{serve, split_line}
use zephyr_app.Ftp.Access.Writes.{serve_writes_nothing, with_writes}
use zephyr_app.Ftp.Transfer.Retr.{Carries, Serves, View, retr_file_lem}
use zephyr_app.Ftp.Transfer.Listing.{Drops, Lists, lines, list_body-Drops}
use zephyr_app.Ftp.Transfer.{letters, list_body, list_statbuf_get, mode_text, retr_file}
use zephyr_app.Ftp.Link.{cut}
use zephyr_app.Ftp.Server.{ftp_session_reset}

-- The open file and what is left of it, the entries of the open directory, the bytes that went over
-- the data connection, the codes of the replies, and the paths that were removed.
pub record World : Type 0 where
  whole : List ℕ
  left : List ℕ
  entries : List (List ℕ)
  sent : List ℕ
  replies : List ℕ
  removed : List (List ℕ)

abbrev code_of : Reply → ℕ
code_of (reply n text) = n
code_of stale = 0

abbrev next : List (List ℕ) → Option (List ℕ)
next [] = none
next (n ∷ ns) = some n

abbrev file_stat : Stat
file_stat = record {
  is_dir = false;
  is_reg = true;
  mode = true ∷ true ∷ [];
  st_nlink = 1;
  st_size = 5;
  st_mtime = 0;
}

-- All bytes go at once; `readdir` gives at most two bytes of a name.
abbrev memory : Os World
memory = record {
  send = λ fd r w. record w { replies = w.replies ++ (code_of r ∷ []) };
  buf_alloc = λ w. (true, w);
  buf_free = λ w. w;
  socket = λ w. (some 5, w);
  bind_any = λ fd port w. (true, w);
  port_of = λ fd w. 2000;
  listen = λ fd w. (true, w);
  accept = λ fd w. (some 6, w);
  send_timeout = λ fd w. (true, w);
  connect = λ fd ip port w. (true, w);
  close = λ fd w. w;
  own_address = λ w. some (10 ∷ 0 ∷ 0 ∷ 7 ∷ []);
  opendir = λ path w. (true, w);
  readdir = λ w. (next w.entries, record w { entries = drop 1 w.entries });
  closedir = λ w. w;
  mkdir = λ path w. (true, w);
  unlink = λ path w. (true, record w { removed = path ∷ w.removed });
  stat = λ path w. some file_stat;
  open_read = λ path w. (some 7, w);
  open_write = λ path w. (some 7, w);
  file_size = λ fd w. (some (length w.whole), w);
  seek = λ fd n w. record w { left = drop n w.whole };
  read = λ fd n w. (take n w.left, record w { left = drop n w.left });
  write = λ fd bytes w. (some (length bytes), w);
  send_data = λ fd bytes w. (some (length bytes), record w { sent = w.sent ++ bytes });
  receive = λ fd n w. (some [], w);
  decimal = λ n. (b'0' + n % 10) ∷ [];
  atoi = λ text. some 0;
  date = λ t w. b'J' ∷ b'a' ∷ b'n' ∷ [];
}

abbrev empty_world : World
empty_world = record { whole = []; left = []; entries = []; sent = []; replies = []; removed = [] }

abbrev root : List ℕ
root = b'/' ∷ b'r' ∷ []

-- "/a/./b//../c"
abbrev some_path : List ℕ
some_path = b'/' ∷ b'a' ∷ b'/' ∷ b'.' ∷ b'/' ∷ b'b' ∷ b'/' ∷ b'/' ∷ b'.' ∷ b'.' ∷ b'/' ∷ b'c' ∷ []

ftp_normalize_path_lem_example : ftp_normalize_path some_path ≡ some (meaning some_path)
ftp_normalize_path_lem_example = ftp_normalize_path_lem some_path

-- "USER anonymous", "DELE x"
abbrev anonymous_line : List ℕ
anonymous_line =
    b'U' ∷ b'S' ∷ b'E' ∷ b'R' ∷ b' ' ∷ b'a' ∷ b'n' ∷ b'o' ∷ b'n' ∷ b'y' ∷ b'm' ∷ b'o' ∷ b'u' ∷ b's'
    ∷ []

abbrev delete_line : List ℕ
delete_line = b'D' ∷ b'E' ∷ b'L' ∷ b'E' ∷ b' ' ∷ b'x' ∷ []

abbrev no_call : {A : Type 0} → List ℕ → A → Bool × A
no_call path w = (false, w)

serve_writes_nothing_example :
    serve memory root [] 9 ftp_session_reset (anonymous_line ∷ delete_line ∷ []) empty_world
    ≡ serve
        (with_writes memory no_call no_call (λ path w. (none, w)) (λ fd bytes w. (none, w)))
        root
        []
        9
        ftp_session_reset
        (anonymous_line ∷ delete_line ∷ [])
        empty_world
unfolding split_line cut
serve_writes_nothing_example =
    serve_writes_nothing memory no_call no_call (λ path w. (none, w)) (λ fd bytes w. (none, w)) root
      [] 9 ftp_session_reset (anonymous_line ∷ delete_line ∷ []) empty_world refl (refl, (refl, tt))

abbrev seen : View World
seen = record { sent = λ w. w.sent; left = λ w. w.left; whole = λ w. w.whole }

take-nil : (n : ℕ) (l : List ℕ) → 0 < n → take n l ≡ [] → l ≡ []
take-nil zero l pos e = absurd (omega (arith, pos))
take-nil (suc n) [] pos e = refl
take-nil (suc n) (c ∷ l) pos e = cc

memory-Carries : Carries memory seen
memory-Carries = record {
  takes = λ fd c d w. (
    length d,
    refl,
    ap (λ t. w.sent ++ (c ∷ t)) (sym (take_all (length d) d (omega arith))),
    omega arith,
    refl,
  );
  gives = λ file n w. sym (take-append-drop n w.left);
  limits = λ file n w. omega (arith, length-take n w.left);
  ends = λ file n w pos e. take-nil n w.left pos e;
  read_keeps = λ file n w. refl;
  seeks = λ file n w. refl;
  seek_keeps = λ file n w. refl;
  alloc_sent = λ w. refl;
  alloc_left = λ w. refl;
  alloc_whole = λ w. refl;
  free_sent = λ w. refl;
  reply_sent = λ fd r w. refl;
  reply_left = λ fd r w. refl;
  close_sent = λ fd w. refl;
}

abbrev with_file : World
with_file = record empty_world { whole = 5 ∷ 6 ∷ 7 ∷ 8 ∷ []; left = 5 ∷ 6 ∷ 7 ∷ 8 ∷ [] }

-- After REST 1, on an open data connection.
abbrev resumed : Session
resumed = record ftp_session_reset { fd = 3; offset = 1; port_pasv_fd = some 6; state = ok }

retr_file_lem_example :
    Serves memory seen memory-Carries with_file
      (6 ∷ 7 ∷ 8 ∷ [])
      (retr_file memory 9 resumed root 7 4 6 with_file)
retr_file_lem_example =
    retr_file_lem memory seen memory-Carries 9 resumed root 7 6 with_file refl refl (omega arith)

-- Two files, whose lines would be 33 bytes each.
abbrev with_dir : World
with_dir = record empty_world { entries = (b'a' ∷ []) ∷ (b'b' ∷ []) ∷ [] }

dates :
    (n : List ℕ) (w : World)
    → list_statbuf_get memory n file_stat w ≡ list_statbuf_get memory n file_stat with_dir
unfolding list_statbuf_get
dates n w = refl

memory-Lists : Lists memory seen root with_dir
memory-Lists = record {
  entries = λ w. w.entries;
  stat_of = λ n. file_stat;
  ends = λ w e. ap next e;
  gives = λ w n ns e. (ap next e, ap (λ l. drop 1 l) e);
  readdir_sent = λ w. refl;
  finds = λ n w. refl;
  dated = λ n w. dates n w;
  alloc_entries = λ w. refl;
  send_entries = λ fd d w. refl;
}

abbrev names : List (List ℕ)
names = (b'a' ∷ []) ∷ (b'b' ∷ []) ∷ []

list_body-Drops_example :
    Drops memory seen memory-Carries root with_dir memory-Lists with_dir
      (lines memory seen memory-Carries root with_dir memory-Lists names)
      true
      (list_body memory 3 6 root with_dir)
unfolding list_statbuf_get mode_text letters memory-Lists
list_body-Drops_example =
    list_body-Drops memory seen memory-Carries root with_dir memory-Lists 3 6 names with_dir refl
      refl (omega arith) (omega arith, (omega arith, tt))
