-- ===== src/Xfer/Tests.antt =====
-- Concrete sessions for firmware/src/comm/xfer/navlink_xfer.c: a provider that stores what it is given
-- or reads three bytes, and a link that accepts every chunk.
use vayu.Common.{
  ℕ, ◌-◌, ◌<◌, ◌≡◌, refl, sym, ap, ◌∙◌, Bool, true, false, List, [], ◌∷◌, ◌++◌, length, take, drop,
  take_all, min, none, some, ℤ, pos, negsuc, arith, inl, if◌then◌else◌, ◌==◌, replicate,
}
use vayu.Xfer.{active, done_linger, free, Session, OpenArgs, Bytes, Provider, Tx, Core, arg_max}
use vayu.Xfer.Comm.{write_chunk, mark_eof, data_slot, sack_slot}
use vayu.Xfer.Emit.{tick_download}
use vayu.Xfer.Sack.{IsQueue, sack_slot-IsQueue}
use vayu.Xfer.Upload.{IsStore, IsChunk, AreChunks, IsUpload, receive, upload_stores_prefix}
use vayu.Xfer.Rounds.{IsReader, IsLink, IsDownload}
use vayu.Xfer.Download.{tick_download-IsDownload, tick_download_completes}

abbrev file : List ℕ
file = 10 ∷ 20 ∷ 30 ∷ []

abbrev blank : Session
blank = record {
  state = free;
  session = 0;
  dir = 0;
  mode = 0;
  gcs_sys = 0;
  gcs_comp = 0;
  open_req_seq = 0;
  close_req_seq = 0;
  close_pending = false;
  info_acked = false;
  rx_activity = false;
  upload_eof = false;
  service_id = 0;
  chunk_size = 0;
  total_size = 0;
  cursor = 0;
  repair = [];
  offset_start = 0;
  rate_hz = 0;
  next_due_ms = 0;
  last_rx_ms = 0;
  last_emit_ms = 0;
  provider = none;
  user = 0;
  arg = replicate arg_max 0;
}

abbrev upload : Session
upload = record blank {
  state = active;
  dir = 1;
  chunk_size = 247;
  total_size = 0xFFFFFFFF;
  provider = some 0;
}

abbrev download : Session
download = record blank { state = active; chunk_size = 247; total_size = 3; provider = some 0 }

abbrev write_all : Session → ℕ → List ℕ → List ℕ → ℤ × List ℕ
write_all s off buf w = (pos (length buf), w ++ buf)

abbrev read_file : Session → ℕ → ℕ → List ℕ → Bytes × List ℕ
read_file s off max w = (record { n = pos (min max (length file - off)); buf = drop off file }, w)

abbrev store : Provider (List ℕ)
store = record {
  service_id = 1;
  open_op = none;
  read = some read_file;
  write = some write_all;
  poll = none;
  close = none;
  flush = none;
}

abbrev link : Tx (List ℕ)
link = record {
  command_ack = λ s m r k c w. w;
  info = λ s r c t k w. w;
  chunk = λ s fl n off buf w. (true, if off == length w then w ++ take n buf else w);
  ack = λ s fl r c w. w;
}

abbrev whole : List ℕ → List ℕ
whole w = w

abbrev size_of : ℤ → ℕ
size_of (pos k) = k
size_of (negsuc k) = 0

abbrev is_pos : ℤ → Bool
is_pos (pos k) = true
is_pos (negsuc k) = false

write_all-IsStore : IsStore whole write_all
write_all-IsStore = record {
  accepts = λ s off buf w w' k e.
      let n : length buf ≡ k = ap (λ p. size_of p.0) e in
      (
        omega arith,
        sym (ap (λ p. p.1) e) ∙ ap (λ xs. w ++ xs) (sym (take_all k buf (omega arith))),
      );
  refuses = λ s off buf w w' k e. absurd (grind (arith, ap (λ p. is_pos p.0) e));
}

read_file-IsReader : IsReader whole file read_file
read_file-IsReader = record {
  reads = λ s off max n w h e.
      let k : min max (length file - off) ≡ n = ap size_of e in (omega arith, omega arith, refl);
  silent = λ s off max w. refl;
}

link-IsLink : IsLink whole link
link-IsLink = record {
  arrives = λ s fl n off buf w a e. ground arith;
  refused = λ s fl n off buf w a. absurd (grind arith);
}

abbrev second : ℕ × List ℕ × ℕ
second = (1, 20 ∷ 30 ∷ [], 8)

abbrev first : ℕ × List ℕ × ℕ
first = (0, 10 ∷ [], 0)

-- The end of the file comes first and last, the start of it twice.
abbrev arrivals : List (ℕ × List ℕ × ℕ)
arrivals = second ∷ first ∷ first ∷ second ∷ []

second-IsChunk : IsChunk file 1 (20 ∷ 30 ∷ []) 8
second-IsChunk = record { bytes = refl; inside = omega arith; last = λ _. refl }

first-IsChunk : IsChunk file 0 (10 ∷ []) 0
first-IsChunk = record { bytes = refl; inside = omega arith; last = λ e. absurd (grind arith) }

arrivals-AreChunks : AreChunks file arrivals
arrivals-AreChunks =
    (second-IsChunk, refl, (first-IsChunk, refl, (first-IsChunk, refl, (second-IsChunk, refl, tt))))

arrivals_complete : (receive (store ∷ []) arrivals upload []).1 ≡ file
unfolding data_slot mark_eof write_chunk
arrivals_complete = refl

upload_stores_prefix_example :
    (whole (receive (store ∷ []) arrivals upload []).1
      ≡ take (receive (store ∷ []) arrivals upload []).0.cursor file)
    × ((receive (store ∷ []) arrivals upload []).0.upload_eof ≡ true
        → (whole (receive (store ∷ []) arrivals upload []).1 ≡ file)
          × ((receive (store ∷ []) arrivals upload []).0.total_size ≡ length file))
upload_stores_prefix_example =
    upload_stores_prefix (store ∷ []) whole 0 store write_all file refl refl write_all-IsStore
      (omega arith) arrivals upload [] arrivals-AreChunks refl refl refl refl refl refl

abbrev half_up : Session
half_up = record upload { cursor = 1 }

half_up-IsUpload : IsUpload whole 0 file half_up (10 ∷ [])
half_up-IsUpload = record {
  is_on = refl;
  is_up = refl;
  served = refl;
  within = omega arith;
  prefix = refl;
  whole = λ e. absurd (grind arith);
}

abbrev half_down : Session
half_down = record download { cursor = 1 }

half_down-IsDownload : IsDownload whole 0 file half_down (10 ∷ [])
half_down-IsDownload = record {
  is_on = inl refl;
  served = refl;
  chunks = (omega arith, omega arith);
  total = refl;
  within = omega arith;
  prefix = refl;
}

tick_download-IsDownload_example :
    IsDownload whole 0 file
      (tick_download (store ∷ []) link 40 1 half_down (10 ∷ [])).session
      (tick_download (store ∷ []) link 40 1 half_down (10 ∷ [])).world
tick_download-IsDownload_example =
    tick_download-IsDownload (store ∷ []) link whole 0 store read_file file refl refl
      read_file-IsReader link-IsLink (omega arith) 40 1 half_down (10 ∷ []) refl
      half_down-IsDownload

eager :
    (t : Session) (off max : ℕ) (v : List ℕ)
    → off < length file
    → 0 < max
    → (k : ℕ) × (0 < k) × ((read_file t off max v).0.n ≡ pos k)
eager t off max v h m = (min max (length file - off), omega arith, refl)

tick_download_completes_example :
    ((tick_download (store ∷ []) link 40 3 half_down (10 ∷ [])).session.state ≡ done_linger)
    × (whole (tick_download (store ∷ []) link 40 3 half_down (10 ∷ [])).world ≡ file)
tick_download_completes_example =
    tick_download_completes (store ∷ []) link whole 0 store read_file file refl refl
      read_file-IsReader link-IsLink (omega arith) 40 3 half_down (10 ∷ [])
      (λ t fl n off buf v. refl) eager refl half_down-IsDownload refl (omega arith)

-- Two gaps, one of them past the end of the file.
sack_slot-IsQueue_example :
    IsQueue 1 3 (sack_slot 1 ((1, 9) ∷ (7, 2) ∷ []) download).repair
    × ((sack_slot 1 ((1, 9) ∷ (7, 2) ∷ []) download).cursor ≡ 0)
    × ((sack_slot 1 ((1, 9) ∷ (7, 2) ∷ []) download).total_size ≡ 3)
sack_slot-IsQueue_example =
    sack_slot-IsQueue 1 ((1, 9) ∷ (7, 2) ∷ []) download refl refl (inl refl)
      (omega arith, (omega arith, tt))

abbrev request : OpenArgs
request = record {
  session = 1;
  dir = 0;
  mode = 0;
  req_seq = 7;
  gcs_sys = 255;
  gcs_comp = 190;
  service_id = 1;
  offset_start = 0;
  rate_hz = 0;
  arg = [];
}

abbrev busy : Core
busy = record { ready = true; slot0 = upload; slot1 = blank; rr = 0; last_overflow = 0 }
