-- ===== src/Providers/Tests.antt =====
-- An upload to the file provider, for firmware/src/comm/xfer/providers. A world is the bytes queued and
-- the number of requests of session 0 that wait.
use vayu.Common.{
  ℕ, zero, suc, ◌+◌, ◌<◌, ◌≡◌, refl, true, false, List, [], ◌∷◌, ◌++◌, length, take, none, some,
  pos, if◌then◌else◌, ◌==◌, get_or, arith, not,
}
use vayu.FsOwner.{Vfs}
use vayu.FsOwner.Lanes.{Queues}
use vayu.FsOwner.Pending.{IsCounted, one}
use vayu.FsOwner.Sync.{Gate}
use vayu.Xfer.{Session, Provider, Tx, active}
use vayu.Xfer.Tick.{tick_upload}
use vayu.Xfer.Upload.{IsChunk, AreChunks, receive}
use vayu.Providers.{Disk, Media, file_provider}
use vayu.Providers.Store.{IsLog, file_upload_queued}
use vayu.Providers.Done.{noted, told_done, goes_on, done_means_written}

record Card : Type 0 where
  log : List ℕ
  waiting : ℕ

abbrev card_vfs : Vfs Card
card_vfs = record {
  open_at = λ path mode w. (pos 3, w);
  close = λ fd w. w;
  sync = λ fd w. (pos 0, w);
  lseek = λ fd off w. (pos off, w);
  write = λ fd bytes w. (pos (length bytes), w);
  read = λ fd len w. (pos len, w);
  unlink = λ path w. (pos 0, w);
  write_push = λ req w. (true, record { log = w.log ++ req.payload; waiting = suc w.waiting });
  retry_push = λ req w. (true, w);
}

abbrev card_queues : Queues Card
card_queues = record {
  save_pop = λ w. (none, w);
  save_push = λ req w. (true, w);
  write_pop = λ w. (none, w);
  retry_pop = λ w. (none, w);
  sync_pop = λ w. (none, w);
  result_push = λ n w. w;
  browse = λ req w. (pos 0, w);
  hsl_drain = λ w. w;
}

abbrev card_gate : Gate Card
card_gate = record {
  lock_pop = λ w. (true, w);
  lock_push = λ w. w;
  request_push = λ r w. (true, w);
  result_pop = λ w. (some (pos 0), w);
}

abbrev card_media : Media Card
card_media = record { seek_end = λ fd w. (pos 0, w); buffer = λ w. [] }

abbrev files : Provider (Disk Card)
files = file_provider card_vfs card_queues card_gate card_media true true

abbrev deaf : Tx (Disk Card)
deaf = record {
  command_ack = λ s a b c n w. w;
  info = λ s a b c n w. w;
  chunk = λ s a b c bytes w. (true, w);
  ack = λ s a b c w. w;
}

-- "a" is being written.
abbrev upload : Session
upload = record {
  state = active;
  session = 0;
  dir = 1;
  mode = 0;
  gcs_sys = 255;
  gcs_comp = 190;
  open_req_seq = 1;
  close_req_seq = 0;
  close_pending = false;
  info_acked = true;
  rx_activity = true;
  upload_eof = false;
  service_id = 0;
  chunk_size = 247;
  total_size = 0xFFFFFFFF;
  cursor = 0;
  repair = [];
  offset_start = 0;
  rate_hz = 0;
  next_due_ms = 0;
  last_rx_ms = 0;
  last_emit_ms = 0;
  provider = some 0;
  user = 0;
  arg = 97 ∷ [];
}

abbrev disk : ℕ → Disk Card
disk n = record {
  owner = record {
    wfd = none;
    wpath = [];
    wfd_idle_loops = 0;
    rfd = none;
    rpath = [];
    rfd_idle_loops = 0;
    rpos = 0;
    pending = n ∷ 0 ∷ 0 ∷ [];
    committed = 0 ∷ 0 ∷ 0 ∷ [];
    failed = 0 ∷ 0 ∷ 0 ∷ [];
    dropped_writeats = 0;
  };
  bound = none ∷ none ∷ [];
  world = record { log = []; waiting = n };
}

card-IsLog : IsLog card_vfs (λ w. w.log)
card-IsLog = record { pushed = λ r w h. refl; refused = λ r w h. absurd (ground (arith, h)) }

abbrev file : List ℕ
file = 10 ∷ 20 ∷ []

abbrev arrivals : List (ℕ × List ℕ × ℕ)
arrivals = (1, 20 ∷ [], 8) ∷ (0, 10 ∷ [], 0) ∷ (1, 20 ∷ [], 8) ∷ []

last-IsChunk : IsChunk file 1 (20 ∷ []) 8
last-IsChunk = record { bytes = refl; inside = omega arith; last = λ e. refl }

first-IsChunk : IsChunk file 0 (10 ∷ []) 0
first-IsChunk = record {
  bytes = refl;
  inside = omega arith;
  last = λ e. absurd (ground (arith, e));
}

arrivals-AreChunks : AreChunks file arrivals
arrivals-AreChunks = (last-IsChunk, refl, (first-IsChunk, refl, (last-IsChunk, refl, tt)))

file_upload_queued_example :
    ((receive (files ∷ []) arrivals upload (disk 0)).1.world.log
      ≡ take (receive (files ∷ []) arrivals upload (disk 0)).0.cursor file)
    × ((receive (files ∷ []) arrivals upload (disk 0)).0.upload_eof ≡ true
        → (receive (files ∷ []) arrivals upload (disk 0)).1.world.log ≡ file)
file_upload_queued_example =
    file_upload_queued card_vfs card_queues card_gate card_media true true (λ w. w.log) card-IsLog
      (files ∷ []) 0 file refl (omega arith) arrivals upload (disk 0) arrivals-AreChunks refl refl
      refl refl refl refl

abbrev lane : ℕ → Card → ℕ
lane k w = if k == 0 then w.waiting else 0

disk-IsCounted : IsCounted lane 3 (disk 1).owner (disk 1).world
disk-IsCounted = record { slots = refl; counts = counted }
  where
    counted : (s : ℕ) → s < 3 → get_or (disk 1).owner.pending s 0 ≡ lane s (disk 1).world + one 3 s
    counted zero h = refl
    counted (suc zero) h = refl
    counted (suc (suc zero)) h = refl
    counted (suc (suc (suc n))) h = absurd (ground arith)

abbrev ended : Session
ended = record upload { upload_eof = true }

done_means_written_example : tick_upload (files ∷ []) deaf 7000 ended (disk 1) ≡ (
    if not (get_or (disk 1).owner.failed 0 0 == 0)
    then told_done deaf 7000 4 (noted 7000 ended) (disk 1)
    else if lane 0 (disk 1).world == 0
    then told_done deaf 7000 0 (noted 7000 ended) (disk 1)
    else goes_on deaf 7000 (noted 7000 ended) (disk 1))
done_means_written_example =
    done_means_written card_vfs card_queues card_gate card_media true true (files ∷ []) deaf lane
      7000 ended (disk 1) refl refl (omega arith) disk-IsCounted
