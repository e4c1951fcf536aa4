-- ===== src/FsQuery/Tests.antt =====
-- A card with one directory, for firmware/src/comm/xfer/fs_query.c. A world is the entries that the open
-- directory still holds, the rows emitted, and whether the stores are there.
use vayu.Common.{
  ℕ, ◌≡◌, refl, Bool, true, false, List, [], ◌∷◌, ◌++◌, Option, none, some, pos, inl, arith, ◌&&◌,
  not, ap, take,
}
use vayu.FsQuery.{
  Outside, Dirent, Row, ListSlot, PathSlot, Query, calibration_file_path, tick, on_delete, deferred,
}
use vayu.FsQuery.Protect.{IsKept, stores_survive, backslash_let_in}
use vayu.FsQuery.Names.{spells, last_part}
use vayu.FsQuery.Listing.{IsStream, rows, ticks, list_completes}

record Card : Type 0 where
  entries : List Dirent
  log : List Row
  store : Bool

abbrev first : List Dirent → Option Dirent
first [] = none
first (e ∷ es) = some e

abbrev later : List Dirent → List Dirent
later [] = []
later (e ∷ es) = es

abbrev outside : Outside Card
outside = record {
  opendir = λ p w. (pos 1, w);
  readdir = λ d w. (first w.entries, record w { entries = later w.entries });
  closedir = λ d w. w;
  stat = λ p w. (true, record { exists = true; is_dir = false; size = 4; mtime = 0 }, w);
  unlink = λ p w. (
    true,
    record w { store = w.store && not (spells (last_part p) (last_part calibration_file_path)) },
  );
  recording = λ w. true;
  command_ack = λ i s r w. w;
  entry = λ r w. record w { log = w.log ++ r ∷ [] };
  info_reply = λ a b c d e w. w;
}

-- "A" is a file of 4 bytes.
abbrev file_a : Dirent
file_a = record { is_dir = false; size = 4; name = 65 ∷ [] }

abbrev card : Card
card = record { entries = file_a ∷ file_a ∷ []; log = []; store = true }

abbrev listing : ListSlot
listing = record {
  active = true;
  acked = true;
  opened = true;
  not_found = false;
  req_seq = 7;
  gcs_sys = 255;
  gcs_comp = 190;
  start_index = 0;
  index = 65535;
  dir = pos 1;
  path = 48 ∷ 58 ∷ [];
}

abbrev asking : List ℕ → PathSlot
asking p = record {
  active = true;
  acked = false;
  req_seq = 9;
  gcs_sys = 255;
  gcs_comp = 190;
  path = p;
}

abbrev queries : Query
queries = record { list = listing; info = asking (65 ∷ []); delete = asking calibration_file_path }

store-IsKept : IsKept outside calibration_file_path (λ w. w.store)
store-IsKept = record {
  opendir = λ p w. refl;
  readdir = λ d w. refl;
  closedir = λ d w. refl;
  stat = λ p w. refl;
  unlink = λ p w b n h. ground (arith, h);
  command_ack = λ i s r w. refl;
  entry = λ r w. refl;
  info_reply = λ a b c d e w. refl;
}

stores_survive_example : (tick outside 4 queries card).2.store ≡ true
stores_survive_example =
    stores_survive outside calibration_file_path (λ w. w.store) (inl refl) store-IsKept 4 queries
      card refl refl

-- "0:/X/CAL.bin".
abbrev spelled : List ℕ
spelled = 48 ∷ 58 ∷ 47 ∷ 88 ∷ 47 ∷ 67 ∷ 65 ∷ 76 ∷ 46 ∷ 98 ∷ 105 ∷ 110 ∷ []

abbrev quiet : Query
quiet = record queries { delete = record queries.delete { active = false } }

-- "0:\pid.bin".
backslash_let_in_example :
    on_delete true 3 255 190
      ((48 ∷ 58 ∷ []) ++ 92 ∷ 112 ∷ 105 ∷ 100 ∷ 46 ∷ 98 ∷ 105 ∷ 110 ∷ [])
      quiet
    ≡ (
      deferred,
      record quiet {
        delete = record {
          active = true;
          acked = false;
          req_seq = 3;
          gcs_sys = 255;
          gcs_comp = 190;
          path = take 47 ((48 ∷ 58 ∷ []) ++ 92 ∷ 112 ∷ 105 ∷ 100 ∷ 46 ∷ 98 ∷ 105 ∷ 110 ∷ []);
        };
      },
    )
backslash_let_in_example =
    backslash_let_in true 3 255 190 (48 ∷ 58 ∷ []) (112 ∷ 105 ∷ 100 ∷ 46 ∷ 98 ∷ 105 ∷ 110 ∷ [])
      quiet refl refl

card-IsStream : IsStream outside (λ w. w.entries) (λ w. w.log)
card-IsStream = record {
  read_end = λ d w h. (ap first h, refl);
  read_next = λ d e es w h. (ap first h, ap later h, refl);
  emits = λ r w. refl;
  emit_rest = λ r w. refl;
  closes = λ d w. refl;
}

list_completes_example :
    ((ticks outside 2 2 listing card).1.log ≡ [] ++ rows listing card.entries)
    × ((ticks outside 2 2 listing card).0.active ≡ false)
list_completes_example =
    list_completes outside (λ w. w.entries) (λ w. w.log) card-IsStream 2 2 listing card refl
      (record { acked = refl; opened = refl; found = refl }) (omega arith)
