-- ===== src/Providers.antt =====
-- firmware/src/comm/xfer/providers: the file, stream and log providers as tables of operations of the
-- transfer substrate, over the statics of the file-system owner, the table of bound streams, and a
-- world. An argument is the list of its bytes before the NUL.
pub mod Store
pub mod Done
mod Tests
use vayu.Common.{
  ℕ, zero, suc, ◌+◌, Bool, true, false, List, [], ◌∷◌, ◌++◌, length, Option, none, some, ℤ, pos,
  negsuc, u32, ltb, leb, ◌==◌, ◌&&◌, ◌||◌, not, if◌then◌else◌, get_or, set,
}
use vayu.FsOwner.{Vfs, Owner, rdonly, same_path, enqueue_write_at, writeat_reset}
use vayu.FsOwner.Lanes.{Queues, SyncReq, read_at, truncate}
use vayu.FsOwner.Sync.{Gate, route, writeat_pending, writeat_failed}
use vayu.FsQuery.{hsl_filename}
use vayu.Xfer.{
  Session, Provider, OpenReply, Bytes, dir_download, size_stream, max_sessions, register_provider,
}

abbrev pub svc_file : ℕ
svc_file = 0

abbrev pub svc_log : ℕ
svc_log = 1

abbrev pub svc_stream : ℕ
svc_stream = 2

abbrev pub max_sources : ℕ
max_sources = 4

-- A registered stream source; its poll function takes the length of the buffer.
pub record Source (W : Type 0) : Type 0 where
  pub name : List ℕ
  pub poll : ℕ → W → Bytes × W

-- What the providers' operations act on. `bound` is `s_bound`, by the index of the source.
pub record Disk (W : Type 0) : Type 0 where
  pub owner : Owner
  pub bound : List (Option ℕ)
  pub world : W

-- The rest of the outside: `vfs_lseek` to the end, and what a read has left in the caller's buffer.
pub record Media (W : Type 0) : Type 0 where
  pub seek_end : ℕ → W → ℤ × W
  pub buffer : W → List ℕ

-- The comparison of `name_eq`, on arguments shorter than XFER_ARG_MAX.
abbrev pub name_eq : List ℕ → List ℕ → Bool
name_eq a b = same_path a b

-- `xfer_stream_register_source`, with pointers that are not null: the table and the result.
unfoldable pub register_source : {W : Type 0} → Source W → List (Source W) → List (Source W) × ℤ
register_source s ss = if leb max_sources (length ss) then (ss, negsuc 0) else (ss ++ s ∷ [], pos 0)

-- The loop of `stream_open`: the index of the source with that name.
unfoldable pub find_source : {W : Type 0} → List ℕ → List (Source W) → ℕ → Option ℕ
find_source name [] i = none
find_source name (s ∷ ss) i = elim (name_eq name s.name) [
  | true ↦ some i
  | false ↦ find_source name ss (suc i)
]

-- The poll function that is the source `i` of the table.
unfoldable pub poll_at : {W : Type 0} → List (Source W) → ℕ → ℕ → W → Bytes × W
poll_at [] i max w = (record { n = pos 0; buf = [] }, w)
poll_at (s ∷ ss) zero max w = s.poll max w
poll_at (s ∷ ss) (suc i) max w = poll_at ss i max w

module _ {W : Type 0} (fs : Vfs W) (q : Queues W) (g : Gate W) (media : Media W)
    (ready task_mode : Bool) where
  -- `file_size_of`.
  unfoldable pub file_size_of : List ℕ → W → ℤ × W
  file_size_of path w = elim (fs.open_at path rdonly w).0 [
    | negsuc _ ↦ (negsuc 0, (fs.open_at path rdonly w).1)
    | pos fd ↦
        let (size, w₁) = media.seek_end fd (fs.open_at path rdonly w).1 in (size, fs.close fd w₁)
  ]

  -- A call of the file-system owner, on the disk.
  abbrev pub owner_call : SyncReq → Disk W → ℤ × Disk W
  owner_call req d =
      let (n, o, w) = route g fs q task_mode req d.owner d.world in
      (n, record d { owner = o; world = w })

  -- What `open` answers from a size.
  abbrev pub sized : ℤ → Session → OpenReply
  sized (pos n) s = record { rc = pos 0; total = u32 n; user = s.user }
  sized (negsuc _) s = record { rc = negsuc 1; total = 0; user = s.user }

  -- `file_open`.
  unfoldable pub file_open : Session → Disk W → OpenReply × Disk W
  unfolding file_size_of
  file_open s d =
      if length s.arg == 0
      then (record { rc = negsuc 0; total = 0; user = s.user }, d)
      else if s.dir == dir_download
      then (let (size, w) = file_size_of s.arg d.world in (sized size s, record d { world = w }))
      else let d₁ = if s.offset_start == 0 then (owner_call (truncate s.arg) d).1 else d in
        (
          record { rc = pos 0; total = 0; user = s.user },
          record d₁ { owner = writeat_reset s.session d₁.owner },
        )

  -- `file_read`, with a length that is not 0.
  unfoldable pub file_read : Session → ℕ → ℕ → Disk W → Bytes × Disk W
  file_read s off max d =
      let (n, d₁) = owner_call (read_at s.arg off max) d in
      (record { n = n; buf = media.buffer d₁.world }, d₁)

  -- `file_write`.
  unfoldable pub file_write : Session → ℕ → List ℕ → Disk W → ℤ × Disk W
  file_write s off buf d =
      let (ok, o, w) = enqueue_write_at fs ready s.session s.arg off buf d.owner d.world in
      (if ok then pos (length buf) else pos 0, record d { owner = o; world = w })

  -- `file_flush`.
  unfoldable pub file_flush : Session → Disk W → ℤ × Disk W
  file_flush s d =
      if writeat_failed s.session d.owner
      then (negsuc 0, d)
      else (if writeat_pending s.session d.owner == 0 then pos 1 else pos 0, d)

  -- FILE_PROVIDER.
  abbrev pub file_provider : Provider (Disk W)
  file_provider = record {
    service_id = svc_file;
    open_op = some file_open;
    read = some file_read;
    write = some file_write;
    poll = none;
    close = none;
    flush = some file_flush;
  }

  -- `log_open`; the pointer to the path that it keeps in `user` is the constant `hsl_filename`.
  unfoldable pub log_open : Session → Disk W → OpenReply × Disk W
  unfolding file_size_of
  log_open s d = elim (fs.open_at hsl_filename rdonly d.world).0 [
    | negsuc _ ↦ (
      record { rc = negsuc 0; total = 0; user = s.user },
      record d { world = (fs.open_at hsl_filename rdonly d.world).1 },
    )
    | pos fd ↦
        let (size, w) = media.seek_end fd (fs.open_at hsl_filename rdonly d.world).1 in
        (sized size s, record d { world = fs.close fd w })
  ]

  -- `log_read`.
  unfoldable pub log_read : Session → ℕ → ℕ → Disk W → Bytes × Disk W
  log_read s off max d =
      let (n, d₁) = owner_call (read_at hsl_filename off max) d in
      (record { n = n; buf = media.buffer d₁.world }, d₁)

  -- LOG_PROVIDER.
  abbrev pub log_provider : Provider (Disk W)
  log_provider = record {
    service_id = svc_log;
    open_op = some log_open;
    read = some log_read;
    write = none;
    poll = none;
    close = none;
    flush = none;
  }

module _ {W : Type 0} (sources : List (Source W)) where
  -- `stream_open`.
  unfoldable pub stream_open : Session → Disk W → OpenReply × Disk W
  stream_open s d =
      if leb max_sessions s.session
      then (record { rc = negsuc 0; total = 0; user = s.user }, d)
      else elim (find_source s.arg sources 0) [
        | none ↦ (record { rc = negsuc 1; total = 0; user = s.user }, d)
        | some i ↦ (
          record { rc = pos 0; total = size_stream; user = s.user },
          record d { bound = set d.bound s.session (some i) },
        )
      ]

  -- `stream_poll`.
  unfoldable pub stream_poll : Session → ℕ → Disk W → Bytes × Disk W
  stream_poll s max d =
      let silent : Bytes × Disk W = (record { n = pos 0; buf = [] }, d) in
      if leb max_sessions s.session then silent else elim (get_or d.bound s.session none) [
        | none ↦ silent
        | some i ↦ let (b, w) = poll_at sources i max d.world in (b, record d { world = w })
      ]

  -- `stream_close`.
  unfoldable pub stream_close : Session → ℕ → Disk W → Disk W
  stream_close s result d =
      if ltb s.session max_sessions then record d { bound = set d.bound s.session none } else d

  -- STREAM_PROVIDER.
  abbrev pub stream_provider : Provider (Disk W)
  stream_provider = record {
    service_id = svc_stream;
    open_op = some stream_open;
    read = none;
    write = none;
    poll = some stream_poll;
    close = some stream_close;
    flush = none;
  }
