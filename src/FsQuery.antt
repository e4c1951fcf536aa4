-- ===== src/FsQuery.antt =====
-- firmware/src/comm/xfer/fs_query.c and firmware/include/comm/xfer/fs_query.h, with the names of
-- firmware/include/storage/paths.h: the file-system queries. A string is the list of its bytes before
-- the NUL; no path given is null. The calls of the file-system task, the recorder and the emitter are a
-- record of operations over a type of worlds. An operation of the emitter that is null is one that
-- leaves the world as it is.
pub mod Names
pub mod Protect
pub mod Slots
pub mod Listing
mod Tests
use vayu.Common.{
  ℕ, zero, suc, ◌+◌, ◌-◌, Bool, true, false, not, ◌&&◌, ◌||◌, List, [], ◌∷◌, Option, none, some, ℤ,
  pos, negsuc, u16, ltb, leb, ◌==◌, if◌then◌else◌, take,
}

abbrev pub path_max : ℕ
path_max = 48

abbrev pub res_ok : ℕ
res_ok = 0

abbrev pub res_denied : ℕ
res_denied = 2

abbrev pub res_busy : ℕ
res_busy = 1

abbrev pub res_failed : ℕ
res_failed = 4

abbrev pub deferred : ℕ
deferred = 255

abbrev pub msgid_list : ℕ
msgid_list = 8203

abbrev pub msgid_info : ℕ
msgid_info = 8204

abbrev pub msgid_delete : ℕ
msgid_delete = 8207

-- "0:cal.bin", "0:pid.bin" and "0:blackbox.bin".
abbrev pub calibration_file_path : List ℕ
calibration_file_path = 48 ∷ 58 ∷ 99 ∷ 97 ∷ 108 ∷ 46 ∷ 98 ∷ 105 ∷ 110 ∷ []

abbrev pub pid_config_file_path : List ℕ
pid_config_file_path = 48 ∷ 58 ∷ 112 ∷ 105 ∷ 100 ∷ 46 ∷ 98 ∷ 105 ∷ 110 ∷ []

abbrev pub hsl_filename : List ℕ
hsl_filename = 48 ∷ 58 ∷ 98 ∷ 108 ∷ 97 ∷ 99 ∷ 107 ∷ 98 ∷ 111 ∷ 120 ∷ 46 ∷ 98 ∷ 105 ∷ 110 ∷ []

-- `vfs_dirent_t`.
pub record Dirent : Type 0 where
  pub is_dir : Bool
  pub size : ℕ
  pub name : List ℕ

-- `vfs_stat_t`.
pub record Stat : Type 0 where
  pub exists : Bool
  pub is_dir : Bool
  pub size : ℕ
  pub mtime : ℕ

-- The arguments of one call of `entry`.
pub record Row : Type 0 where
  pub req_seq : ℕ
  pub result : ℕ
  pub index : ℕ
  pub count : ℕ
  pub kind : ℕ
  pub size : ℕ
  pub name : List ℕ

-- What lies outside: the `fs_owner_` calls, where a readdir that gives 1 is `some` and any other is
-- `none`, and the result of a stat or an unlink is whether it was 0; `imu_hs_log_active`; and
-- `fs_query_tx_ops_t`.
pub record Outside (W : Type 0) : Type 0 where
  pub opendir : List ℕ → W → ℤ × W
  pub readdir : ℤ → W → Option Dirent × W
  pub closedir : ℤ → W → W
  pub stat : List ℕ → W → Bool × Stat × W
  pub unlink : List ℕ → W → Bool × W
  pub recording : W → Bool
  pub command_ack : ℕ → ℕ → ℕ → W → W
  pub entry : Row → W → W
  pub info_reply : ℕ → ℕ → ℕ → ℕ → ℕ → W → W

-- `fs_list_t`.
pub record ListSlot : Type 0 where
  pub active : Bool
  pub acked : Bool
  pub opened : Bool
  pub not_found : Bool
  pub req_seq : ℕ
  pub gcs_sys : ℕ
  pub gcs_comp : ℕ
  pub start_index : ℕ
  pub index : ℕ
  pub dir : ℤ
  pub path : List ℕ

-- `fs_info_t` and `fs_delete_t`.
pub record PathSlot : Type 0 where
  pub active : Bool
  pub acked : Bool
  pub req_seq : ℕ
  pub gcs_sys : ℕ
  pub gcs_comp : ℕ
  pub path : List ℕ

-- The statics.
pub record Query : Type 0 where
  pub list : ListSlot
  pub info : PathSlot
  pub delete : PathSlot

-- `copy_path`.
abbrev pub copy_path : List ℕ → List ℕ
copy_path src = take (path_max - 1) src

-- `fs_query_init`, on the slots.
unfoldable pub init : Query → Query
init q = record {
  list = record q.list { active = false };
  info = record q.info { active = false };
  delete = record q.delete { active = false };
}

-- `fs_query_busy`.
unfoldable pub busy : Query → Bool
busy q = q.list.active || (q.info.active || q.delete.active)

-- The loop of `basename_of`: the name that began last, and what is left of the path.
unfoldable pub basename_from : List ℕ → List ℕ → List ℕ
basename_from b [] = b
basename_from b (c ∷ cs) = elim (c == 47 || c == 58) [
  | true ↦ basename_from cs cs
  | false ↦ basename_from b cs
]

-- `basename_of`.
abbrev pub basename_of : List ℕ → List ℕ
basename_of p = basename_from p p

-- The fold of a letter to lower case in `same_file`.
unfoldable pub lower : ℕ → ℕ
lower c = if leb 65 c && leb c 90 then c + 32 else c

-- The loop of `same_file`.
unfoldable pub same_name : List ℕ → List ℕ → Bool
unfolding lower
same_name [] [] = true
same_name [] (b ∷ bs) = false
same_name (a ∷ cs) [] = false
same_name (a ∷ cs) (b ∷ bs) = (lower a == lower b) && same_name cs bs

-- `same_file`.
unfoldable pub same_file : List ℕ → List ℕ → Bool
unfolding basename_from same_name
same_file path known = same_name (basename_of path) (basename_of known)

-- `delete_verdict`; the flag is what `imu_hs_log_active` gives.
unfoldable pub delete_verdict : Bool → List ℕ → ℕ
unfolding same_file
delete_verdict recording path =
    if same_file path calibration_file_path || same_file path pid_config_file_path
    then res_denied
    else if same_file path hsl_filename && recording
    then res_busy
    else res_ok

-- `fs_query_on_list`.
unfoldable pub on_list : ℕ → ℕ → ℕ → List ℕ → ℕ → Query → ℕ × Query
on_list req_seq gcs_sys gcs_comp path start_index q =
    if q.list.active && q.list.req_seq == req_seq
    then (deferred, q)
    else if q.list.active
    then (res_busy, q)
    else (
      deferred,
      record q {
        list = record q.list {
          active = true;
          acked = false;
          opened = false;
          not_found = false;
          req_seq = req_seq;
          gcs_sys = gcs_sys;
          gcs_comp = gcs_comp;
          start_index = start_index;
          index = 0;
          path = copy_path path;
        };
      },
    )

-- A path slot that takes a request.
abbrev pub asked : ℕ → ℕ → ℕ → List ℕ → PathSlot
asked req_seq gcs_sys gcs_comp path = record {
  active = true;
  acked = false;
  req_seq = req_seq;
  gcs_sys = gcs_sys;
  gcs_comp = gcs_comp;
  path = copy_path path;
}

-- `fs_query_on_info`.
unfoldable pub on_info : ℕ → ℕ → ℕ → List ℕ → Query → ℕ × Query
on_info req_seq gcs_sys gcs_comp path q =
    if q.info.active && q.info.req_seq == req_seq
    then (deferred, q)
    else if q.info.active
    then (res_busy, q)
    else (deferred, record q { info = asked req_seq gcs_sys gcs_comp path })

-- `fs_query_on_delete`.
unfoldable pub on_delete : Bool → ℕ → ℕ → ℕ → List ℕ → Query → ℕ × Query
on_delete recording req_seq gcs_sys gcs_comp path q =
    let verdict = delete_verdict recording path in
    if not (verdict == res_ok)
    then (verdict, q)
    else if q.delete.active && q.delete.req_seq == req_seq
    then (deferred, q)
    else if q.delete.active
    then (res_busy, q)
    else (deferred, record q { delete = asked req_seq gcs_sys gcs_comp path })

-- The row of a directory entry, and the last row.
abbrev pub row_of : ListSlot → Dirent → Row
row_of s e = record {
  req_seq = s.req_seq;
  result = res_ok;
  index = s.index;
  count = 0;
  kind = if e.is_dir then 1 else 0;
  size = e.size;
  name = e.name;
}

abbrev pub last_row : ListSlot → Row
last_row s = record {
  req_seq = s.req_seq;
  result = res_ok;
  index = s.index;
  count = s.index;
  kind = 0;
  size = 0;
  name = [];
}

module _ {W : Type 0} (out : Outside W) where
  -- The acknowledgement that a tick of the listing begins with.
  unfoldable pub ack_list : ListSlot → W → ListSlot × W
  ack_list s w =
      if s.acked
      then (s, w)
      else (record s { acked = true }, out.command_ack msgid_list s.req_seq res_ok w)

  -- The loop that skips to the resume point; at most `start_index` rounds of it are run.
  unfoldable pub skip_to : ℕ → ListSlot → W → ListSlot × W
  skip_to zero s w = (s, w)
  skip_to (suc k) s w = elim (ltb s.index s.start_index) [
    | false ↦ (s, w)
    | true ↦ elim (out.readdir s.dir w).0 [
      | none ↦ (s, (out.readdir s.dir w).1)
      | some _ ↦ skip_to k (record s { index = u16 (s.index + 1) }) (out.readdir s.dir w).1
    ]
  ]

  -- The open of the directory.
  unfoldable pub open_list : ListSlot → W → ListSlot × W
  open_list s w =
      if s.opened
      then (s, w)
      else let (d, w₁) = out.opendir s.path w in
        let t = record s { opened = true; dir = d } in
        elim d [
          | negsuc _ ↦ (record t { not_found = true }, w₁)
          | pos _ ↦ skip_to s.start_index t w₁
        ]

  -- The loop that emits rows: at most `k` of them.
  unfoldable pub emit_rows : ℕ → ListSlot → W → ℕ × ListSlot × W
  emit_rows zero s w = (0, s, w)
  emit_rows (suc k) s w = elim (out.readdir s.dir w).0 [
    | some e ↦
        let (n, u, v) =
          emit_rows k (record s { index = u16 (s.index + 1) })
            (out.entry (row_of s e) (out.readdir s.dir w).1) in
        (suc n, u, v)
    | none ↦ (
      1,
      record s { active = false },
      out.closedir s.dir (out.entry (last_row s) (out.readdir s.dir w).1),
    )
  ]

  -- `tick_list`.
  unfoldable pub tick_list : ℕ → ListSlot → W → ℕ × ListSlot × W
  tick_list budget s w =
      if not s.active
      then (0, s, w)
      else let (s₁, w₁) = ack_list s w in
        let (s₂, w₂) = open_list s₁ w₁ in
        if s₂.not_found
        then (
          1,
          record s₂ { active = false },
          out.entry
              (record {
                req_seq = s₂.req_seq;
                result = res_denied;
                index = 0;
                count = 0;
                kind = 0;
                size = 0;
                name = [];
              })
              w₂,
        )
        else emit_rows budget s₂ w₂

  -- `tick_info`.
  unfoldable pub tick_info : PathSlot → W → ℕ × PathSlot × W
  tick_info s w =
      if not s.active
      then (0, s, w)
      else let w₁ = if s.acked then w else out.command_ack msgid_info s.req_seq res_ok w in
        let (ok, st, w₂) = out.stat s.path w₁ in
        let w₃ =
          if ok && st.exists
          then out.info_reply s.req_seq res_ok (if st.is_dir then 1 else 0) st.size st.mtime w₂
          else out.info_reply s.req_seq res_denied 0 0 0 w₂ in
        (1, record s { acked = true; active = false }, w₃)

  -- The stat and the unlink of `tick_delete`, once the verdict allows them.
  unfoldable pub delete_file : List ℕ → W → ℕ × W
  delete_file path w =
      let (ok, st, w₁) = out.stat path w in
      if not ok || (not st.exists || st.is_dir)
      then (res_denied, w₁)
      else let (gone, w₂) = out.unlink path w₁ in (if gone then res_ok else res_failed, w₂)

  -- `tick_delete`.
  unfoldable pub tick_delete : PathSlot → W → ℕ × PathSlot × W
  tick_delete s w =
      if not s.active
      then (0, s, w)
      else let verdict = delete_verdict (out.recording w) s.path in
        let (res, w₁) = if verdict == res_ok then delete_file s.path w else (verdict, w) in
        (1, record s { active = false }, out.command_ack msgid_delete s.req_seq res w₁)

  -- `fs_query_tick`.
  unfoldable pub tick : ℕ → Query → W → ℕ × Query × W
  tick budget q w =
      let (n, l, w₁) = tick_list budget q.list w in
      let (m, i, w₂) = tick_info q.info w₁ in
      let (k, d, w₃) = tick_delete q.delete w₂ in
      (n + m + k, record { list = l; info = i; delete = d }, w₃)
