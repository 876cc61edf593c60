-- ===== src/Zephyr/Ram.antt =====
-- A slot in memory that never fails, and the frame lengths of classic CAN: concrete parameters at
-- which the theorems about upgrades are run.
use zephyr_app.Common.{List, Option, [], drop, length, min, none, some, take, ℕ, ◌++◌}
use zephyr_app.Zephyr.{Dlc, Slot}

-- what was written, and the argument of the last upgrade request
pub record Ram : Type 0 where
  pub written : List ℕ
  pub requested : Option ℕ

abbrev pub ram_slot : Slot Ram
ram_slot = record {
  area_open = λ s. 0;
  area_erase = λ s. record s { written = [] };
  img_init = λ s. (0, s);
  img_write = λ s d flush. (0, record s { written = s.written ++ d });
  bytes_written = λ s. length s.written;
  area_read = λ s off len. some (take len (drop off s.written));
  boot_request = λ s p. (0, record s { requested = some p });
}

abbrev pub classic : Dlc
classic = record { to_bytes = λ d. min d 8; of_bytes = λ n. min n 8 }

abbrev pub blank : Ram
blank = record { written = []; requested = none }
