-- ===== src/FsOwner/Handles.antt =====
-- The two cached handles of firmware/src/storage/fs_owner.c are never open on the same file.
use vayu.Common.{
  Int-cases, ℕ, ◌≤◌, ◌≡◌, refl, ap, ap₂, ◌∙◌, Bool, true, false, ◌&&◌, List, [], ◌∷◌, length,
  take_all, none, arith, inl, inr, Bool-cases, Option-cases, ◌==◌, if◌then◌else◌,
}
use vayu.FsOwner.{
  Vfs, Owner, WriteReq, same_path, is_open, wpath_is, rpath_is, writeat_fd_close, read_fd_close,
  open_write, writeat_fd, open_read, read_fd, do_write_at, read_from, exec_read, drop_path,
  exec_unlink, exec_truncate, rdwr_creat, rdonly, wronly_creat_trunc,
}

-- Both handles are open, and on the same path.
abbrev pub shares : Owner → Bool
shares o = is_open o.wfd && (is_open o.rfd && same_path o.wpath o.rpath)

and_false : (b : Bool) → b && false ≡ false
and_false true = refl
and_false false = refl

eq_comm : (a b : ℕ) → (a == b) ≡ (b == a)
eq_comm a b = ground arith

same_path_comm : (xs ys : List ℕ) → same_path xs ys ≡ same_path ys xs
same_path_comm [] [] = refl
same_path_comm [] (y ∷ ys) = refl
same_path_comm (x ∷ xs) [] = refl
same_path_comm (x ∷ xs) (y ∷ ys) = ap₂ (λ a b. a && b) (eq_comm x y) (same_path_comm xs ys)

module _ {W : Type 0} (fs : Vfs W) where
  write_closed :
      (o : Owner) (w : W)
      → ((writeat_fd_close fs o w).0.wfd ≡ none)
        × ((writeat_fd_close fs o w).0.rfd ≡ o.rfd)
        × ((writeat_fd_close fs o w).0.rpath ≡ o.rpath)
  unfolding writeat_fd_close
  write_closed o w = elim (Option-cases o.wfd) [
    | inl e ↦ simp (writeat_fd_close, e) (refl, refl, refl)
    | inr (k, e) ↦ simp (writeat_fd_close, e) (refl, refl, refl)
  ]

  read_closed :
      (o : Owner) (w : W)
      → ((read_fd_close fs o w).0.rfd ≡ none)
        × ((read_fd_close fs o w).0.wfd ≡ o.wfd)
        × ((read_fd_close fs o w).0.wpath ≡ o.wpath)
  unfolding read_fd_close
  read_closed o w = elim (Option-cases o.rfd) [
    | inl e ↦ simp (read_fd_close, e) (refl, refl, refl)
    | inr (k, e) ↦ simp (read_fd_close, e) (refl, refl, refl)
  ]

  -- The writer on a path is closed, and the reader stays closed.
  evict_writer :
      (path : List ℕ) (o : Owner) (w : W)
      → o.rfd ≡ none
      → ((if wpath_is path o then writeat_fd_close fs o w else (o, w)).0.rfd ≡ none)
        × (wpath_is path (if wpath_is path o then writeat_fd_close fs o w else (o, w)).0 ≡ false)
  evict_writer path o w n = elim (Bool-cases (wpath_is path o)) [
    | inl h ↦
        let (a, b, c) = write_closed o w in
        rw h (b ∙ n, ap (λ f. is_open f && same_path (writeat_fd_close fs o w).0.wpath path) a)
    | inr h ↦ (
      ap (λ b. (if b then writeat_fd_close fs o w else (o, w)).0.rfd) h ∙ n,
      ap (λ b. wpath_is path (if b then writeat_fd_close fs o w else (o, w)).0) h ∙ h,
    )
  ]

  evict_reader :
      (path : List ℕ) (o : Owner) (w : W)
      → o.wfd ≡ none
      → ((if rpath_is path o then read_fd_close fs o w else (o, w)).0.wfd ≡ none)
        × (rpath_is path (if rpath_is path o then read_fd_close fs o w else (o, w)).0 ≡ false)
  evict_reader path o w n = elim (Bool-cases (rpath_is path o)) [
    | inl h ↦
        let (a, b, c) = read_closed o w in
        rw h (b ∙ n, ap (λ f. is_open f && same_path (read_fd_close fs o w).0.rpath path) a)
    | inr h ↦ (
      ap (λ b. (if b then read_fd_close fs o w else (o, w)).0.wfd) h ∙ n,
      ap (λ b. rpath_is path (if b then read_fd_close fs o w else (o, w)).0) h ∙ h,
    )
  ]

  open_read_safe :
      (path : List ℕ) (o : Owner) (w : W)
      → length path ≤ 39
      → o.rfd ≡ none
      → wpath_is path o ≡ false
      → shares (open_read fs path o w).1 ≡ false
  unfolding open_read
  open_read_safe path o w l n h = elim (Int-cases (fs.open_at path rdonly w).0) [
    | inl (k, e) ↦ simp (open_read, e) (rw (take_all 39 path l) h)
    | inr (k, e) ↦ simp (open_read, e, n) (and_false (is_open o.wfd))
  ]

  open_write_safe :
      (path : List ℕ) (o : Owner) (w : W)
      → length path ≤ 39
      → o.wfd ≡ none
      → rpath_is path o ≡ false
      → shares (open_write fs path o w).1 ≡ false
  unfolding open_write
  open_write_safe path o w l n h = elim (Int-cases (fs.open_at path rdwr_creat w).0) [
    | inl (k, e) ↦ simp (open_write, e) (rw (take_all 39 path l, same_path_comm path o.rpath) h)
    | inr (k, e) ↦ simp (open_write, e, n) refl
  ]

  read_fd_safe :
      (path : List ℕ) (o : Owner) (w : W)
      → length path ≤ 39
      → shares o ≡ false
      → shares (read_fd fs path o w).1 ≡ false
  unfolding read_fd
  read_fd_safe path o w l h = elim (Bool-cases (rpath_is path o)) [
    | inl r ↦ simp (read_fd, r) h
    | inr r ↦
        let q = read_fd_close fs o w in
        let (a, b) = evict_writer path q.0 q.1 (read_closed o w).0 in
        simp (read_fd, r) (open_read_safe path _ _ l a b)
  ]

  writeat_fd_safe :
      (path : List ℕ) (o : Owner) (w : W)
      → length path ≤ 39
      → shares o ≡ false
      → shares (writeat_fd fs path o w).1 ≡ false
  unfolding writeat_fd
  writeat_fd_safe path o w l h = elim (Bool-cases (wpath_is path o)) [
    | inl r ↦ simp (writeat_fd, r) h
    | inr r ↦
        let q = writeat_fd_close fs o w in
        let (a, b) = evict_reader path q.0 q.1 (write_closed o w).0 in
        simp (writeat_fd, r) (open_write_safe path _ _ l a b)
  ]

  write_closed_safe : (o : Owner) (w : W) → shares (writeat_fd_close fs o w).0 ≡ false
  write_closed_safe o w =
      ap
        (λ f.
          is_open f
          && (is_open (writeat_fd_close fs o w).0.rfd
              && same_path (writeat_fd_close fs o w).0.wpath (writeat_fd_close fs o w).0.rpath))
        (write_closed o w).0

  read_closed_safe : (o : Owner) (w : W) → shares (read_fd_close fs o w).0 ≡ false
  read_closed_safe o w =
      ap
        (λ f.
          is_open (read_fd_close fs o w).0.wfd
          && (is_open f && same_path (read_fd_close fs o w).0.wpath (read_fd_close fs o w).0.rpath))
        (read_closed o w).0
      ∙ and_false (is_open (read_fd_close fs o w).0.wfd)

  read_from_safe :
      (h offset len : ℕ) (o : Owner) (w : W)
      → shares o ≡ false
      → shares (read_from fs h offset len o w).1 ≡ false
  unfolding read_from
  read_from_safe h offset len o w s = elim (Int-cases (fs.read h len w).0) [
    | inl (k, e) ↦ elim (Bool-cases (k == 0)) [
      | inl z ↦ simp (read_from, e, z) (read_closed_safe o (fs.read h len w).1)
      | inr z ↦ simp (read_from, e, z) s
    ]
    | inr (k, e) ↦ simp (read_from, e) (read_closed_safe o (fs.read h len w).1)
  ]

  drop_path_safe :
      (path : List ℕ) (o : Owner) (w : W)
      → shares o ≡ false
      → shares (drop_path fs path o w).0 ≡ false
  unfolding drop_path
  drop_path_safe path o w s =
      let q = if wpath_is path o then writeat_fd_close fs o w else (o, w) in
      let t : shares q.0 ≡ false = elim (Bool-cases (wpath_is path o)) [
        | inl r ↦ rw r (write_closed_safe o w)
        | inr r ↦ ap (λ b. shares (if b then writeat_fd_close fs o w else (o, w)).0) r ∙ s
      ] in
      elim (Bool-cases (rpath_is path q.0)) [
        | inl r ↦ simp (drop_path, r) (read_closed_safe q.0 q.1)
        | inr r ↦ simp (drop_path, r) t
      ]

  exec_read_safe :
      (path : List ℕ) (offset len : ℕ) (o : Owner) (w : W)
      → length path ≤ 39
      → shares o ≡ false
      → shares (exec_read fs path offset len o w).1 ≡ false
  unfolding exec_read
  exec_read_safe path offset len o w l s =
      let r = read_fd fs path o w in
      let t = read_fd_safe path o w l s in
      elim (Option-cases r.0) [
        | inl e ↦ simp (exec_read, e) t
        | inr (h, e) ↦
            let u = record r.1 { rfd_idle_loops = 0 } in
            elim (Bool-cases (offset == r.1.rpos)) [
              | inl z ↦ simp (exec_read, e, z) (read_from_safe h offset len u r.2 t)
              | inr z ↦ elim (Int-cases (fs.lseek h offset r.2).0) [
                | inl (k, g) ↦
                    simp (exec_read, e, z, g)
                      (read_from_safe h offset len (record u { rpos = offset })
                        (fs.lseek h offset r.2).1 t)
                | inr (k, g) ↦ simp (exec_read, e, z, g) t
              ]
            ]
      ]

  do_write_at_safe :
      (req : WriteReq) (o : Owner) (w : W)
      → length req.path ≤ 39
      → shares o ≡ false
      → shares (do_write_at fs req o w).1 ≡ false
  unfolding do_write_at
  do_write_at_safe req o w l s =
      let t = writeat_fd_safe req.path o w l s in
      elim (Option-cases (writeat_fd fs req.path o w).0) [
        | inl e ↦ simp (do_write_at, e) t
        | inr (h, e) ↦ simp (do_write_at, e) t
      ]

  unlink_truncate_safe :
      (path : List ℕ) (o : Owner) (w : W)
      → shares o ≡ false
      → (shares (exec_unlink fs path o w).1 ≡ false)
        × (shares (exec_truncate fs path o w).1 ≡ false)
  unfolding exec_unlink exec_truncate
  unlink_truncate_safe path o w s =
      let t = drop_path_safe path o w s in
      let w₁ = (drop_path fs path o w).1 in
      (
        elim (Int-cases (fs.unlink path w₁).0) [
          | inl (k, e) ↦ simp (exec_unlink, e) t
          | inr (k, e) ↦ simp (exec_unlink, e) t
        ],
        elim (Int-cases (fs.open_at path wronly_creat_trunc w₁).0) [
          | inl (k, e) ↦ simp (exec_truncate, e) t
          | inr (k, e) ↦ simp (exec_truncate, e) t
        ],
      )

  -- The two cached handles are never open on the same path: if they are not before a positioned write,
  -- a read, an unlink or a truncate, they are not after it, whatever the file system answers. Paths
  -- have at most 39 bytes, what the caches keep of one.
  handles_never_share :
      (req : WriteReq) (path : List ℕ) (offset len : ℕ) (o : Owner) (w : W)
      → length req.path ≤ 39
      → length path ≤ 39
      → shares o ≡ false
      → (shares (do_write_at fs req o w).1 ≡ false)
        × (shares (exec_read fs path offset len o w).1 ≡ false)
        × (shares (exec_unlink fs path o w).1 ≡ false)
        × (shares (exec_truncate fs path o w).1 ≡ false)
  handles_never_share req path offset len o w k l s =
      let (u, v) = unlink_truncate_safe path o w s in
      (do_write_at_safe req o w k s, exec_read_safe path offset len o w l s, u, v)
