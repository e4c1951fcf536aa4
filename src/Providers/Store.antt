-- ===== src/Providers/Store.antt =====
-- firmware/src/comm/xfer/providers/file_provider.c as the store that uploads write to.
use vayu.Common.{
  ℕ, ◌≤◌, ◌<◌, ◌≡◌, get_elem?, some, refl, sym, ap, ◌∙◌, Bool, true, false, not, ◌||◌, List, [],
  ◌++◌, length, take, take_all, ℤ, pos, negsuc, Bool-cases, inl, inr, arith, if◌then◌else◌, leb,
  ltb, ◌==◌,
}
use mathlib.Core.List.{append-nil}
use mathlib.Core.Path.{subst}
use vayu.FsOwner.{Vfs, WriteReq, Owner, enqueue_write_at, path_max, wa_sessions}
use vayu.FsOwner.Lanes.{Queues}
use vayu.FsOwner.Sync.{Gate}
use vayu.Xfer.{Session, Provider, active}
use vayu.Xfer.Upload.{IsStore, AreChunks, receive, upload_stores_prefix}
use vayu.Providers.{Disk, Media, file_write, file_provider}

-- `queued` is the payloads that the write lane has accepted so far, in order.
pub record IsLog {W : Type 0} (fs : Vfs W) (queued : W → List ℕ) : Type 0 where
  pub pushed :
      (r : WriteReq) (w : W)
      → (fs.write_push r w).0 ≡ true
      → queued (fs.write_push r w).1 ≡ queued w ++ r.payload
  pub refused :
      (r : WriteReq) (w : W)
      → (fs.write_push r w).0 ≡ false
      → queued (fs.write_push r w).1 ≡ queued w

module _ {W : Type 0} (fs : Vfs W) (queued : W → List ℕ) (law : IsLog fs queued) where
  -- What a request adds to the lane, by the answer.
  enqueue_lem :
      (ready : Bool) (k : ℕ) (path : List ℕ) (off : ℕ) (buf : List ℕ) (o : Owner) (w : W)
      → queued (enqueue_write_at fs ready k path off buf o w).2
        ≡ queued w ++ (if (enqueue_write_at fs ready k path off buf o w).0 then buf else [])
  unfolding enqueue_write_at
  enqueue_lem ready k path off buf o w =
      let req : WriteReq = record {
        path = path;
        offset = off;
        session = k;
        tries = 0;
        payload = buf;
      } in
      elim (Bool-cases
        (not ready || length buf == 0 || ltb 247 (length buf) || leb wa_sessions k)) [
          | inl g ↦ simp (enqueue_write_at, g) (sym (append-nil (queued w)))
          | inr g ↦ elim (Bool-cases (leb path_max (length path))) [
            | inl l ↦ simp (enqueue_write_at, g, l) (sym (append-nil (queued w)))
            | inr l ↦ elim (Bool-cases (fs.write_push req w).0) [
              | inl p ↦ simp (enqueue_write_at, g, l, p) (law.pushed req w p)
              | inr p ↦
                  simp (enqueue_write_at, g, l, p)
                    (law.refused req w p ∙ sym (append-nil (queued w)))
            ]
          ]
        ]

abbrev taken : ℤ → ℕ
taken (pos n) = n
taken (negsuc n) = 0

abbrev refusing : ℤ → Bool
refusing (pos n) = false
refusing (negsuc n) = true

module _ {W : Type 0} (fs : Vfs W) (q : Queues W) (g : Gate W) (media : Media W)
    (ready task_mode : Bool) (queued : W → List ℕ) (law : IsLog fs queued) where
  write_lem :
      (s : Session) (off : ℕ) (buf : List ℕ) (d : Disk W)
      → (taken (file_write fs q g media ready task_mode s off buf d).0 ≤ length buf)
        × (refusing (file_write fs q g media ready task_mode s off buf d).0 ≡ false)
        × (queued (file_write fs q g media ready task_mode s off buf d).1.world
            ≡ queued d.world
              ++ take (taken (file_write fs q g media ready task_mode s off buf d).0) buf)
  unfolding file_write
  write_lem s off buf d =
      let e = enqueue_lem fs queued law ready s.session s.arg off buf d.owner d.world in
      elim (Bool-cases (enqueue_write_at fs ready s.session s.arg off buf d.owner d.world).0) [
        | inl h ↦
            simp (file_write, h)
              (
                omega arith,
                refl,
                e
                    ∙ ap (λ b. queued d.world ++ (if b then buf else [])) h
                    ∙ ap (λ xs. queued d.world ++ xs)
                        (sym (take_all (length buf) buf (omega arith))),
              )
        | inr h ↦
            simp (file_write, h)
              (omega arith, refl, e ∙ ap (λ b. queued d.world ++ (if b then buf else [])) h)
      ]

  -- The file provider's write keeps the promise that the transfer substrate asks for.
  pub file_write-IsStore : IsStore (λ d. queued d.world) (file_write fs q g media ready task_mode)
  file_write-IsStore = record {
    accepts = λ s off buf w w' k e.
        let l = write_lem s off buf w in
        let t = ap (λ r. taken r.0) e in
        (
          subst (λ n. n ≤ length buf) t l.0,
          sym (ap (λ r. queued r.1.world) e) ∙ l.2 ∙ ap (λ n. queued w.world ++ take n buf) t,
        );
    refuses = λ s off buf w w' k e.
        absurd (ground (arith, sym (ap (λ r. refusing r.0) e) ∙ (write_lem s off buf w).1));
  }

  -- Chunks of a file that reach a fresh upload to the file provider, in any order and some of them lost,
  -- repeated or refused because a lane is full, put a prefix of the file into the write lane, in order
  -- and each byte once, up to the cursor; once the session marks the end, the whole file was queued. The
  -- chunks carry no ABORT, and the file is shorter than 2^32 bytes.
  pub file_upload_queued :
      (ps : List (Provider (Disk W))) (i : ℕ) (file : List ℕ)
      → get_elem? ps i ≡ some (file_provider fs q g media ready task_mode)
      → length file < 4294967296
      → (cs : List (ℕ × List ℕ × ℕ)) (s : Session) (d : Disk W) → AreChunks file cs
      → s.state ≡ active
      → s.dir ≡ 1
      → s.provider ≡ some i
      → s.cursor ≡ 0
      → s.upload_eof ≡ false
      → queued d.world ≡ []
      → (queued (receive ps cs s d).1.world ≡ take (receive ps cs s d).0.cursor file)
        × ((receive ps cs s d).0.upload_eof ≡ true → queued (receive ps cs s d).1.world ≡ file)
  file_upload_queued ps i file at_i small cs s d h a up p z e n =
      let u =
        upload_stores_prefix ps (λ v. queued v.world) i (file_provider fs q g media ready task_mode)
          (file_write fs q g media ready task_mode) file at_i refl file_write-IsStore small cs s d h
          a up p z e n in
      (u.0, λ t. (u.1 t).0)
