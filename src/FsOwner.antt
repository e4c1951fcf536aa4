-- ===== src/FsOwner.antt =====
-- firmware/src/storage/fs_owner.c: the two file handles that the file-system task keeps open between
-- chunks, and the write-at bookkeeping. The virtual file system and the kernel's queues are a
-- record of operations over a type of worlds. A string is the list of its bytes before the NUL, a
-- closed handle is `none`, and a `long` or `int` result is an integer.
pub mod Handles
pub mod Accounts
pub mod Lanes
pub mod Pending
pub mod Drains
pub mod Sync
mod LaneTests
mod SyncTests
use vayu.Common.{
  ℕ, zero, suc, ◌+◌, ◌-◌, ◌≤◌, Bool, true, false, not, ◌&&◌, ◌||◌, List, [], ◌∷◌, length, Option,
  none, some, ℤ, pos, negsuc, u32, u8, ltb, leb, ◌==◌, if◌then◌else◌, take, set, get_or,
}

abbrev pub path_max : ℕ
path_max = 40

abbrev pub max_tries : ℕ
max_tries = 16

abbrev pub idle_close_loops : ℕ
idle_close_loops = 10

abbrev pub max_hold_loops : ℕ
max_hold_loops = 400

abbrev pub wa_sessions : ℕ
wa_sessions = 3

-- The ways in which files are opened here.
pub data OpenMode : Type 0 where
  rdonly rdwr_creat wronly_creat_trunc : OpenMode

-- `fs_writeat_req_t`.
pub record WriteReq : Type 0 where
  pub path : List ℕ
  pub offset : ℕ
  pub session : ℕ
  pub tries : ℕ
  pub payload : List ℕ

-- What lies below: the `vfs_` calls, and `mpmc_try_push` on the write and retry queues.
pub record Vfs (W : Type 0) : Type 0 where
  pub open_at : List ℕ → OpenMode → W → ℤ × W
  pub close : ℕ → W → W
  pub sync : ℕ → W → ℤ × W
  pub lseek : ℕ → ℕ → W → ℤ × W
  pub write : ℕ → List ℕ → W → ℤ × W
  pub read : ℕ → ℕ → W → ℤ × W
  pub unlink : List ℕ → W → ℤ × W
  pub write_push : WriteReq → W → Bool × W
  pub retry_push : WriteReq → W → Bool × W

-- The statics of the two caches, and the per-session counts.
pub record Owner : Type 0 where
  pub wfd : Option ℕ
  pub wpath : List ℕ
  pub wfd_idle_loops : ℕ
  pub rfd : Option ℕ
  pub rpath : List ℕ
  pub rfd_idle_loops : ℕ
  pub rpos : ℕ
  pub pending : List ℕ
  pub committed : List ℕ
  pub failed : List ℕ
  pub dropped_writeats : ℕ

-- The comparison loop of `wpath_is` and `rpath_is`.
abbrev pub same_path : List ℕ → List ℕ → Bool
same_path [] [] = true
same_path [] (y ∷ ys) = false
same_path (x ∷ xs) [] = false
same_path (x ∷ xs) (y ∷ ys) = (x == y) && same_path xs ys

abbrev pub is_open : Option ℕ → Bool
is_open none = false
is_open (some _) = true

-- `wpath_is` and `rpath_is`.
abbrev pub wpath_is : List ℕ → Owner → Bool
wpath_is path o = is_open o.wfd && same_path o.wpath path

abbrev pub rpath_is : List ℕ → Owner → Bool
rpath_is path o = is_open o.rfd && same_path o.rpath path

-- What the copy loops keep of a path.
abbrev pub kept : List ℕ → List ℕ
kept path = take (path_max - 1) path

module _ {W : Type 0} (fs : Vfs W) where
  -- `writeat_fd_close`.
  unfoldable pub writeat_fd_close : Owner → W → Owner × W
  writeat_fd_close o w = elim o.wfd [
    | none ↦ (o, w)
    | some fd ↦ (record o { wfd = none; wpath = [] }, fs.close fd (fs.sync fd w).1)
  ]

  -- `read_fd_close`.
  unfoldable pub read_fd_close : Owner → W → Owner × W
  read_fd_close o w = elim o.rfd [
    | none ↦ (o, w)
    | some fd ↦ (record o { rfd = none; rpath = []; rpos = 0 }, fs.close fd w)
  ]

  -- The open that ends `writeat_fd`.
  unfoldable pub open_write : List ℕ → Owner → W → Option ℕ × Owner × W
  open_write path o w = elim (fs.open_at path rdwr_creat w).0 [
    | pos fd ↦
        (some fd, record o { wfd = some fd; wpath = kept path }, (fs.open_at path rdwr_creat w).1)
    | negsuc _ ↦ (none, o, (fs.open_at path rdwr_creat w).1)
  ]

  -- `writeat_fd`.
  unfoldable pub writeat_fd : List ℕ → Owner → W → Option ℕ × Owner × W
  unfolding writeat_fd_close read_fd_close open_write
  writeat_fd path o w =
      if wpath_is path o
      then (o.wfd, o, w)
      else let (o₁, w₁) = writeat_fd_close o w in
        let (o₂, w₂) = if rpath_is path o₁ then read_fd_close o₁ w₁ else (o₁, w₁) in
        open_write path o₂ w₂

  -- The open that ends `read_fd`.
  unfoldable pub open_read : List ℕ → Owner → W → Option ℕ × Owner × W
  open_read path o w = elim (fs.open_at path rdonly w).0 [
    | pos fd ↦ (
      some fd,
      record o { rfd = some fd; rpos = 0; rpath = kept path },
      (fs.open_at path rdonly w).1,
    )
    | negsuc _ ↦ (none, o, (fs.open_at path rdonly w).1)
  ]

  -- `read_fd`.
  unfoldable pub read_fd : List ℕ → Owner → W → Option ℕ × Owner × W
  unfolding writeat_fd_close read_fd_close open_read
  read_fd path o w =
      if rpath_is path o
      then (o.rfd, o, w)
      else let (o₁, w₁) = read_fd_close o w in
        let (o₂, w₂) = if wpath_is path o₁ then writeat_fd_close o₁ w₁ else (o₁, w₁) in
        open_read path o₂ w₂

  -- `w == (int)req->len && sync_res >= 0`.
  abbrev pub landed : ℤ → ℤ → ℕ → Bool
  landed (pos n) (pos _) len = n == len
  landed (pos n) (negsuc _) len = false
  landed (negsuc _) r len = false

  -- `fs_do_write_at`.
  unfoldable pub do_write_at : WriteReq → Owner → W → Bool × Owner × W
  unfolding writeat_fd
  do_write_at req o w =
      let (fd, o₁, w₁) = writeat_fd req.path o w in
      elim fd [
        | none ↦ (false, o₁, w₁)
        | some h ↦
            let w₂ = (fs.lseek h req.offset w₁).1 in
            let (n, w₃) = fs.write h req.payload w₂ in
            let (r, w₄) = fs.sync h w₃ in (landed n r (length req.payload), o₁, w₄)
      ]

  -- `(req->session < FS_WA_SESSIONS) ? req->session : 0u`.
  abbrev pub sess_of : WriteReq → ℕ
  sess_of req = if ltb req.session wa_sessions then req.session else 0

  -- `if (s_wa_pending[sess] > 0u) s_wa_pending[sess]--;`
  abbrev pub settle_one : ℕ → Owner → Owner
  settle_one k o = record o { pending = set o.pending k (get_or o.pending k 0 - 1) }

  -- The end of `fs_process_writeat` after a failed write; the retry lane is allocated.
  unfoldable pub write_failed : WriteReq → Owner → W → Owner × W
  write_failed req o w =
      let r = record req { tries = u8 (req.tries + 1) } in
      let gone = record (settle_one (sess_of req) o) {
        failed = set o.failed (sess_of req) 1;
        dropped_writeats = u32 (o.dropped_writeats + 1);
      } in
      if ltb r.tries max_tries
      then (let (ok, w₁) = fs.retry_push r w in (if ok then o else gone, w₁))
      else (gone, w)

  -- `fs_process_writeat`.
  unfoldable pub process_writeat : WriteReq → Owner → W → Owner × W
  unfolding do_write_at write_failed
  process_writeat req o w =
      let (ok, o₁, w₁) = do_write_at req o w in
      if ok
      then (
        settle_one (sess_of req) (record o₁ {
          committed =
              set o₁.committed (sess_of req)
                (u32 (get_or o₁.committed (sess_of req) 0 + length req.payload));
        }),
        w₁,
      )
      else write_failed req o₁ w₁

  -- The close of an idle write handle at the end of `fs_drain_writeats`.
  unfoldable pub idle_write : Bool → Owner → W → Owner × W
  unfolding writeat_fd_close
  idle_write did o w =
      if did
      then (record o { wfd_idle_loops = 0 }, w)
      else if not (is_open o.wfd)
      then (o, w)
      else let t = record o { wfd_idle_loops = u32 (o.wfd_idle_loops + 1) } in
        if leb idle_close_loops t.wfd_idle_loops
        then (let (u, w₁) = writeat_fd_close t w in (record u { wfd_idle_loops = 0 }, w₁))
        else (t, w)

  -- The age cap on the read handle in `fs_owner_task`.
  unfoldable pub idle_read : Owner → W → Owner × W
  unfolding read_fd_close
  idle_read o w =
      if not (is_open o.rfd)
      then (o, w)
      else let t = record o { rfd_idle_loops = u32 (o.rfd_idle_loops + 1) } in
        if leb max_hold_loops t.rfd_idle_loops
        then (let (u, w₁) = read_fd_close t w in (record u { rfd_idle_loops = 0 }, w₁))
        else (t, w)

  -- The drop of both handles on a path.
  unfoldable pub drop_path : List ℕ → Owner → W → Owner × W
  unfolding writeat_fd_close read_fd_close
  drop_path path o w =
      let (o₁, w₁) = if wpath_is path o then writeat_fd_close o w else (o, w) in
      if rpath_is path o₁ then read_fd_close o₁ w₁ else (o₁, w₁)

  -- The case FS_SYNC_READ of `fs_exec_sync`, from the position on.
  unfoldable pub read_from : ℕ → ℕ → ℕ → Owner → W → ℤ × Owner × W
  unfolding read_fd_close
  read_from h offset len o w =
      let (n, w₁) = fs.read h len w in
      elim n [
        | negsuc k ↦ let (u, w₂) = read_fd_close o w₁ in (negsuc k, u, w₂)
        | pos k ↦
            if k == 0
            then (let (u, w₂) = read_fd_close o w₁ in (pos k, u, w₂))
            else (pos k, record o { rpos = u32 (o.rpos + k) }, w₁)
      ]

  -- That case: the result, the caches, the world.
  unfoldable pub exec_read : List ℕ → ℕ → ℕ → Owner → W → ℤ × Owner × W
  unfolding read_fd read_from
  exec_read path offset len o w =
      let (fd, o₁, w₁) = read_fd path o w in
      elim fd [
        | none ↦ (negsuc 0, o₁, w₁)
        | some h ↦
            let t = record o₁ { rfd_idle_loops = 0 } in
            if offset == t.rpos
            then read_from h offset len t w₁
            else elim (fs.lseek h offset w₁).0 [
              | negsuc _ ↦ (negsuc 0, t, (fs.lseek h offset w₁).1)
              | pos _ ↦ read_from h offset len (record t { rpos = offset }) (fs.lseek h offset w₁).1
            ]
      ]

  -- The case FS_SYNC_UNLINK.
  unfoldable pub exec_unlink : List ℕ → Owner → W → ℤ × Owner × W
  unfolding drop_path
  exec_unlink path o w =
      let (o₁, w₁) = drop_path path o w in
      let (n, w₂) = fs.unlink path w₁ in
      elim n [
        | pos k ↦ (if k == 0 then pos 0 else negsuc 0, o₁, w₂)
        | negsuc _ ↦ (negsuc 0, o₁, w₂)
      ]

  -- The case FS_SYNC_TRUNCATE.
  unfoldable pub exec_truncate : List ℕ → Owner → W → ℤ × Owner × W
  unfolding drop_path
  exec_truncate path o w =
      let (o₁, w₁) = drop_path path o w in
      let (n, w₂) = fs.open_at path wronly_creat_trunc w₁ in
      elim n [ pos fd ↦ (pos 0, o₁, fs.close fd w₂) | negsuc _ ↦ (negsuc 0, o₁, w₂) ]

  -- `fs_owner_enqueue_write_at`, with both pointers given; `ready` says that the lanes are up.
  unfoldable pub enqueue_write_at : Bool → ℕ → List ℕ → ℕ → List ℕ → Owner → W → Bool × Owner × W
  enqueue_write_at ready session path offset bytes o w =
      let dropped = record o { dropped_writeats = u32 (o.dropped_writeats + 1) } in
      if not ready || length bytes == 0 || ltb 247 (length bytes) || leb wa_sessions session
      then (false, dropped, w)
      else if leb path_max (length path)
      then (false, dropped, w)
      else let req : WriteReq = record {
        path = path;
        offset = offset;
        session = session;
        tries = 0;
        payload = bytes;
      } in
        let (ok, w₁) = fs.write_push req w in
        if ok
        then (
          true,
          record o { pending = set o.pending session (u32 (get_or o.pending session 0 + 1)) },
          w₁,
        )
        else (false, dropped, w₁)

-- `fs_owner_writeat_reset`.
unfoldable pub writeat_reset : ℕ → Owner → Owner
writeat_reset k o = if leb wa_sessions k then o else record o {
  pending = set o.pending k 0;
  committed = set o.committed k 0;
  failed = set o.failed k 0;
}
