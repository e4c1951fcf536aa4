-- ===== src/FsQuery/Protect.antt =====
-- Which files the queries of firmware/src/comm/xfer/fs_query.c can delete.
use vayu.Common.{
  ℕ, zero, suc, ◌≡◌, refl, ap, take, ◌∙◌, Bool, true, false, not, ◌&&◌, ◌||◌, List, ◌∷◌, ◌++◌, ℤ,
  ◌⊎◌, inl, inr, Bool-cases, Option-cases, Int-cases, arith, ltb, ◌==◌, if◌then◌else◌,
}
use vayu.FsQuery.Names.{
  backslashed, is_whole, spells, last_part, plain, same_file_other, same_file-backslashed,
}
use vayu.FsQuery.{
  Outside, ListSlot, PathSlot, Query, Row, same_file, delete_verdict, calibration_file_path,
  pid_config_file_path, hsl_filename, ack_list, skip_to, open_list, emit_rows, tick_list, tick_info,
  delete_file, tick_delete, tick, on_delete, res_busy, res_ok, basename_from, row_of, last_row,
  msgid_delete, deferred,
}

-- A view of the world, the content of file `known` for one, that no call but an unlink of that file
-- changes. FatFS takes a path to name a file when its last part spells the file's name, in whatever case;
-- of paths with a backslash, a blank or a control byte, or that end in a dot or a slash, nothing is said.
pub record IsKept {W : Type 0} {A : Type 0} (out : Outside W) (known : List ℕ) (m : W → A)
    : Type 0 where
  pub opendir : (p : List ℕ) (w : W) → m (out.opendir p w).1 ≡ m w
  pub readdir : (d : ℤ) (w : W) → m (out.readdir d w).1 ≡ m w
  pub closedir : (d : ℤ) (w : W) → m (out.closedir d w) ≡ m w
  pub stat : (p : List ℕ) (w : W) → m (out.stat p w).2 ≡ m w
  pub unlink :
      (p : List ℕ) (w : W)
      → backslashed p ≡ false
      → is_whole p ≡ true
      → spells (last_part p) (last_part known) ≡ false
      → m (out.unlink p w).1 ≡ m w
  pub command_ack : (i s r : ℕ) (w : W) → m (out.command_ack i s r w) ≡ m w
  pub entry : (r : Row) (w : W) → m (out.entry r w) ≡ m w
  pub info_reply : (a b c d e : ℕ) (w : W) → m (out.info_reply a b c d e w) ≡ m w

module _ {W : Type 0} {A : Type 0} (out : Outside W) (known : List ℕ) (m : W → A)
    (law : IsKept out known m) where
  skip_to-kept : (k : ℕ) (s : ListSlot) (w : W) → m (skip_to out k s w).1 ≡ m w
  unfolding skip_to
  skip_to-kept zero s w = refl
  skip_to-kept (suc k) s w = elim (Bool-cases (ltb s.index s.start_index)) [
    | inr h ↦ simp (skip_to, h) refl
    | inl h ↦ elim (Option-cases (out.readdir s.dir w).0) [
      | inl e ↦ simp (skip_to, h, e) (law.readdir s.dir w)
      | inr (_, e) ↦ simp (skip_to, h, e) (skip_to-kept k _ _ ∙ law.readdir s.dir w)
    ]
  ]

  open_list-kept : (s : ListSlot) (w : W) → m (open_list out s w).1 ≡ m w
  unfolding open_list
  open_list-kept s w = elim (Bool-cases s.opened) [
    | inl h ↦ simp (open_list, h) refl
    | inr h ↦ elim (Int-cases (out.opendir s.path w).0) [
      | inl (_, e) ↦ simp (open_list, h, e) (skip_to-kept s.start_index _ _ ∙ law.opendir s.path w)
      | inr (_, e) ↦ simp (open_list, h, e) (law.opendir s.path w)
    ]
  ]

  emit_rows-kept : (k : ℕ) (s : ListSlot) (w : W) → m (emit_rows out k s w).2 ≡ m w
  unfolding emit_rows
  emit_rows-kept zero s w = refl
  emit_rows-kept (suc k) s w =
      let v = (out.readdir s.dir w).1 in
      elim (Option-cases (out.readdir s.dir w).0) [
        | inl e ↦
            simp (emit_rows, e)
              (law.closedir s.dir _ ∙ law.entry (last_row s) v ∙ law.readdir s.dir w)
        | inr (f, e) ↦
            simp (emit_rows, e)
              (emit_rows-kept k _ _ ∙ law.entry (row_of s f) v ∙ law.readdir s.dir w)
      ]

  ack_list-kept : (s : ListSlot) (w : W) → m (ack_list out s w).1 ≡ m w
  unfolding ack_list
  ack_list-kept s w = elim (Bool-cases s.acked) [
    | inl h ↦ simp (ack_list, h) refl
    | inr h ↦ simp (ack_list, h) (law.command_ack _ _ _ w)
  ]

  tick_list-kept : (budget : ℕ) (s : ListSlot) (w : W) → m (tick_list out budget s w).2 ≡ m w
  unfolding tick_list
  tick_list-kept budget s w =
      let a = ack_list out s w in
      let o = open_list out a.0 a.1 in
      let e = open_list-kept a.0 a.1 ∙ ack_list-kept s w in
      elim (Bool-cases s.active) [
        | inr h ↦ simp (tick_list, h) refl
        | inl h ↦ elim (Bool-cases o.0.not_found) [
          | inl n ↦ simp (tick_list, h, n) (law.entry _ o.1 ∙ e)
          | inr n ↦ simp (tick_list, h, n) (emit_rows-kept budget o.0 o.1 ∙ e)
        ]
      ]

  tick_info-kept : (s : PathSlot) (w : W) → m (tick_info out s w).2 ≡ m w
  unfolding tick_info
  tick_info-kept s w =
      let v = if s.acked then w else out.command_ack 8204 s.req_seq res_ok w in
      let e : m v ≡ m w = elim (Bool-cases s.acked) [
        | inl h ↦ simp h refl
        | inr h ↦ simp h (law.command_ack _ _ _ w)
      ] in
      elim (Bool-cases s.active) [
        | inr h ↦ simp (tick_info, h) refl
        | inl h ↦ elim (Bool-cases ((out.stat s.path v).0 && (out.stat s.path v).1.exists)) [
          | inl g ↦ simp (tick_info, h, g) (law.info_reply _ _ _ _ _ _ ∙ law.stat s.path v ∙ e)
          | inr g ↦ simp (tick_info, h, g) (law.info_reply _ _ _ _ _ _ ∙ law.stat s.path v ∙ e)
        ]
      ]

  delete_file-kept :
      (p : List ℕ) (w : W)
      → backslashed p ≡ false
      → is_whole p ≡ true
      → spells (last_part p) (last_part known) ≡ false
      → m (delete_file out p w).1 ≡ m w
  unfolding delete_file
  delete_file-kept p w b n h =
      let r = out.stat p w in
      elim (Bool-cases (not r.0 || (not r.1.exists || r.1.is_dir))) [
        | inl g ↦ simp (delete_file, g) (law.stat p w)
        | inr g ↦ simp (delete_file, g) (law.unlink p r.2 b n h ∙ law.stat p w)
      ]

  tick_delete-kept :
      (s : PathSlot) (w : W)
      → backslashed s.path ≡ false
      → is_whole s.path ≡ true
      → (delete_verdict (out.recording w) s.path ≡ res_ok
          → spells (last_part s.path) (last_part known) ≡ false)
      → m (tick_delete out s w).2 ≡ m w
  unfolding tick_delete
  tick_delete-kept s w b n g = elim (Bool-cases s.active) [
    | inr h ↦ simp (tick_delete, h) refl
    | inl h ↦ elim (Bool-cases (delete_verdict (out.recording w) s.path == res_ok)) [
      | inl v ↦
          simp (tick_delete, h, v)
            (law.command_ack _ _ _ _ ∙ delete_file-kept s.path w b n (g (ground arith)))
      | inr v ↦ simp (tick_delete, h, v) (law.command_ack _ _ _ w)
    ]
  ]

-- A verdict of OK names neither store.
allowed_is_other :
    (r : Bool) (p : List ℕ)
    → delete_verdict r p ≡ res_ok
    → (same_file p calibration_file_path ≡ false) × (same_file p pid_config_file_path ≡ false)
unfolding delete_verdict
allowed_is_other r p h = elim (Bool-cases (same_file p calibration_file_path)) [
  | inl c ↦ absurd (ground (arith, simp c at h))
  | inr c ↦ elim (Bool-cases (same_file p pid_config_file_path)) [
    | inl d ↦ absurd (ground (arith, simp (c, d) at h))
    | inr d ↦ (c, d)
  ]
]

-- A tick, in whatever state the slots are, changes neither the calibration file nor the stored tune, if
-- the path of the delete slot has no backslash, no blank and no control byte and does not end in a dot or
-- a slash: a view of the world that every outside call keeps, but an unlink of a path whose last part spells that file's
-- name in some letter case, is kept by the tick.
pub stores_survive :
    {W : Type 0} {A : Type 0} (out : Outside W) (known : List ℕ) (m : W → A)
    → (known ≡ calibration_file_path) ⊎ (known ≡ pid_config_file_path)
    → IsKept out known m
    → (budget : ℕ) (q : Query) (w : W) → backslashed q.delete.path ≡ false
    → is_whole q.delete.path ≡ true
    → m (tick out budget q w).2 ≡ m w
unfolding tick
stores_survive out known m store law budget q w b n =
    let l = tick_list out budget q.list w in
    let i = tick_info out q.info l.2 in
    let p = q.delete.path in
    tick_delete-kept out known m law q.delete i.2 b n (λ h.
      let a = allowed_is_other (out.recording i.2) p h in
      elim store [
        | inl e ↦
            ap (λ k. spells (last_part p) (last_part k)) e
            ∙ same_file_other p calibration_file_path b refl a.0
        | inr e ↦
            ap (λ k. spells (last_part p) (last_part k)) e
            ∙ same_file_other p pid_config_file_path b refl a.1
      ])
    ∙ tick_info-kept out known m law q.info l.2
    ∙ tick_list-kept out known m law budget q.list w

-- While the recorder runs, a delete of the recording that is waiting ends with the answer BUSY and does
-- nothing else, although it was let in when the recorder did not run.
pub recording_not_deleted :
    {W : Type 0} (out : Outside W) (s : PathSlot) (w : W)
    → s.active ≡ true
    → same_file s.path hsl_filename ≡ true
    → same_file s.path calibration_file_path ≡ false
    → same_file s.path pid_config_file_path ≡ false
    → out.recording w ≡ true
    → tick_delete out s w
      ≡ (1, record s { active = false }, out.command_ack msgid_delete s.req_seq res_busy w)
unfolding tick_delete delete_verdict
recording_not_deleted out s w a h c d r = simp (tick_delete, delete_verdict, a, h, c, d, r) refl

-- A delete is let in whatever name its path has behind a backslash, that of a store or of the recording
-- too, and whether the recorder runs or not: with no slash or colon behind the backslash and the delete
-- slot free it is deferred, with the first 47 bytes of its path.
pub backslash_let_in :
    (recording : Bool) (req_seq sys comp : ℕ) (d n : List ℕ) (q : Query)
    → plain n ≡ true
    → q.delete.active ≡ false
    → on_delete recording req_seq sys comp (d ++ 92 ∷ n) q ≡ (
      deferred,
      record q {
        delete = record {
          active = true;
          acked = false;
          req_seq = req_seq;
          gcs_sys = sys;
          gcs_comp = comp;
          path = take 47 (d ++ 92 ∷ n);
        };
      },
    )
unfolding on_delete delete_verdict
backslash_let_in recording req_seq sys comp d n q p a =
    let e = same_file-backslashed d n calibration_file_path p (unfold basename_from in refl) in
    let f = same_file-backslashed d n pid_config_file_path p (unfold basename_from in refl) in
    let g = same_file-backslashed d n hsl_filename p (unfold basename_from in refl) in
    simp (e, f, g, a)
