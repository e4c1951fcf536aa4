-- ===== src/Xfer/Upload.antt =====
-- Uploads through firmware/src/comm/xfer/navlink_xfer.c (`xfer_on_data`): what a provider stores while
-- chunks of one file arrive in any order, some lost and some repeated.
use vayu.Common.{
  ℕ, ◌+◌, ◌<◌, ◌≤◌, ◌≡◌, refl, sym, ap, ◌∙◌, true, false, List, [], ◌∷◌, ◌++◌, length, take, drop,
  take-append-take-drop, take-take, take_all, some, ℤ, pos, negsuc, arith, inl, inr, Bool-cases,
  ltb, leb, ◌&&◌, ◌==◌, u32, get_elem?, if◌then◌else◌,
}
use mathlib.Core.Path.{subst}
use vayu.Xfer.{Session, Provider, active, flag_eof, flag_abort, provider_of}
use vayu.Xfer.Comm.{write_chunk, mark_eof, data_slot}

-- What a provider promises of `write`, where `stored` is the file it builds: it takes some first bytes
-- of a chunk and answers how many, or refuses the chunk.
pub record IsStore {W : Type 0} (stored : W → List ℕ) (f : Session → ℕ → List ℕ → W → ℤ × W)
    : Type 0 where
  pub accepts :
      (s : Session) (off : ℕ) (buf : List ℕ) (w w' : W) (k : ℕ)
      → f s off buf w ≡ (pos k, w')
      → (k ≤ length buf) × (stored w' ≡ stored w ++ take k buf)
  pub refuses :
      (s : Session) (off : ℕ) (buf : List ℕ) (w w' : W) (k : ℕ)
      → f s off buf w ≡ (negsuc k, w')
      → stored w' ≡ stored w

-- A chunk of `file`: its bytes stand at its offset, and only the last one has the EOF flag.
pub record IsChunk (file : List ℕ) (off : ℕ) (buf : List ℕ) (flags : ℕ) : Type 0 where
  pub bytes : buf ≡ take (length buf) (drop off file)
  pub inside : off + length buf ≤ length file
  pub last : flag_eof flags ≡ true → off + length buf ≡ length file

-- An active upload of `file` by provider `i`: what is stored is the file up to the cursor, and once the
-- end is marked, all of it.
pub record IsUpload {W : Type 0} (stored : W → List ℕ) (i : ℕ) (file : List ℕ) (s : Session) (w : W)
    : Type 0 where
  pub is_on : s.state ≡ active
  pub is_up : s.dir ≡ 1
  pub served : s.provider ≡ some i
  pub within : s.cursor ≤ length file
  pub prefix : stored w ≡ take s.cursor file
  pub whole : s.upload_eof ≡ true → (s.cursor ≡ length file) × (s.total_size ≡ length file)

abbrev pub AreChunks : List ℕ → List (ℕ × List ℕ × ℕ) → Type 0
AreChunks file [] = Unit
AreChunks file ((off, buf, flags) ∷ cs) =
    IsChunk file off buf flags × (flag_abort flags ≡ false) × AreChunks file cs

-- The chunks that arrive, one after the other.
abbrev pub receive :
    {W : Type 0} → List (Provider W) → List (ℕ × List ℕ × ℕ) → Session → W → Session × W
receive ps [] s w = (s, w)
receive ps ((off, buf, flags) ∷ cs) s w =
    receive ps cs (data_slot ps off buf flags s w).0 (data_slot ps off buf flags s w).1

moved : (c k : ℕ) → c + k < 4294967296 → (if k == 0 then c else u32 (c + k)) ≡ c + k
moved c k h = ground arith

module _ {W : Type 0} (ps : List (Provider W)) (stored : W → List ℕ) (i : ℕ) (p : Provider W)
    (f : Session → ℕ → List ℕ → W → ℤ × W) (file : List ℕ) (at_i : get_elem? ps i ≡ some p)
    (writes : p.write ≡ some f) (store : IsStore stored f) (small : length file < 4294967296) where
  -- The bytes taken extend the prefix.
  grown :
      (s : Session) (w w' : W) (buf : List ℕ) (flags k : ℕ)
      → IsUpload stored i file s w
      → IsChunk file s.cursor buf flags
      → k ≤ length buf
      → stored w' ≡ stored w ++ take k buf
      → stored w' ≡ take (s.cursor + k) file
  grown s w w' buf flags k u c h e =
      e
      ∙ ap (λ xs. xs ++ take k buf) u.prefix
      ∙ ap (λ xs. take s.cursor file ++ take k xs) c.bytes
      ∙ ap (λ xs. take s.cursor file ++ xs) (take-take k (length buf) (drop s.cursor file) h)
      ∙ take-append-take-drop s.cursor k file

  -- The end that is marked stays.
  stuck :
      (s : Session) (w : W) (buf : List ℕ) (flags k : ℕ)
      → IsUpload stored i file s w
      → IsChunk file s.cursor buf flags
      → k ≤ length buf
      → s.upload_eof ≡ true
      → (s.cursor + k ≡ length file) × (s.total_size ≡ length file)
  stuck s w buf flags k u c h e = (omega (arith, (u.whole e).0, c.inside, h), (u.whole e).1)

  -- The outcome `n` of a write.
  written :
      (n : ℤ) (s : Session) (w w' : W) (buf : List ℕ) (flags : ℕ)
      → IsUpload stored i file s w
      → IsChunk file s.cursor buf flags
      → f s s.cursor buf w ≡ (n, w')
      → IsUpload stored i file
          (elim n [
            | pos k ↦ record s { cursor = if k == 0 then s.cursor else u32 (s.cursor + k) }
            | negsuc _ ↦ s
          ])
          w'
  written (negsuc k) s w w' buf flags u c e = record {
    is_on = u.is_on;
    is_up = u.is_up;
    served = u.served;
    within = u.within;
    prefix = store.refuses s s.cursor buf w w' k e ∙ u.prefix;
    whole = u.whole;
  }
  written (pos k) s w w' buf flags u c e =
      let (h, g) = store.accepts s s.cursor buf w w' k e in
      subst (λ x. IsUpload stored i file (record s { cursor = x }) w')
        (sym (moved s.cursor k (omega (arith, h, c.inside, small))))
        (record {
          is_on = u.is_on;
          is_up = u.is_up;
          served = u.served;
          within = omega (arith, h, c.inside);
          prefix = grown s w w' buf flags k u c h g;
          whole = stuck s w buf flags k u c h;
        })

  both :
      (n : ℤ) (w' : W) (s : Session)
      → IsUpload stored i file
          (elim n [
            | pos k ↦ record s { cursor = if k == 0 then s.cursor else u32 (s.cursor + k) }
            | negsuc _ ↦ s
          ])
          w'
      → IsUpload stored i file
          (elim n as (λ _. Session × W) [
            | pos k ↦ (record s { cursor = if k == 0 then s.cursor else u32 (s.cursor + k) }, w')
            | negsuc _ ↦ (s, w')
          ]).0
          (elim n as (λ _. Session × W) [
            | pos k ↦ (record s { cursor = if k == 0 then s.cursor else u32 (s.cursor + k) }, w')
            | negsuc _ ↦ (s, w')
          ]).1
  both (pos k) w' s u = u
  both (negsuc k) w' s u = u

  write_chunk_eq :
      (off : ℕ) (buf : List ℕ) (s : Session) (w : W)
      → s.provider ≡ some i
      → write_chunk ps off buf s w ≡ elim (f s off buf w).0 [
        | pos k ↦ (
          record s { cursor = if k == 0 then s.cursor else u32 (s.cursor + k) },
          (f s off buf w).1,
        )
        | negsuc _ ↦ (s, (f s off buf w).1)
      ]
  unfolding write_chunk
  write_chunk_eq off buf s w e = simp (write_chunk, provider_of, e, at_i, writes) refl

  write_chunk-IsUpload :
      (s : Session) (w : W) (buf : List ℕ) (flags : ℕ)
      → IsUpload stored i file s w
      → IsChunk file s.cursor buf flags
      → IsUpload stored i file
          (write_chunk ps s.cursor buf s w).0
          (write_chunk ps s.cursor buf s w).1
  unfolding write_chunk
  write_chunk-IsUpload s w buf flags u c =
      let r = f s s.cursor buf w in
      subst (λ (q : Session × W). IsUpload stored i file q.0 q.1)
        (sym (write_chunk_eq s.cursor buf s w u.served))
        (both r.0 r.1 s (written r.0 s w r.1 buf flags u c refl))

  -- A chunk with the EOF flag that lies below the cursor is the end of the file.
  ended :
      (off : ℕ) (buf : List ℕ) (flags : ℕ) (s : Session) (w : W)
      → IsUpload stored i file s w
      → IsChunk file off buf flags
      → flag_eof flags && leb (u32 (off + length buf)) s.cursor ≡ true
      → s.cursor ≡ length file
  ended off buf flags s w u c h =
      let e : flag_eof flags ≡ true = ground arith in
      let l : u32 (off + length buf) ≤ s.cursor = ground arith in
      omega (arith, c.last e, u.within, small)

  mark_eof-IsUpload :
      (off : ℕ) (buf : List ℕ) (flags : ℕ) (s : Session) (w : W)
      → IsUpload stored i file s w
      → IsChunk file off buf flags
      → IsUpload stored i file (mark_eof off (length buf) flags s) w
  unfolding mark_eof
  mark_eof-IsUpload off buf flags s w u c =
      elim (Bool-cases (flag_eof flags && leb (u32 (off + length buf)) s.cursor)) [
        | inl h ↦ rw h (record {
          is_on = u.is_on;
          is_up = u.is_up;
          served = u.served;
          within = u.within;
          prefix = u.prefix;
          whole = λ _. (ended off buf flags s w u c h, ended off buf flags s w u c h);
        })
        | inr h ↦ rw h u
      ]

  -- The write that a chunk leads to.
  abbrev tried : ℕ → List ℕ → Session → W → Session × W
  tried off buf s w =
      if off == s.cursor && ltb 0 (length buf) then write_chunk ps off buf s w else (s, w)

  tried-IsUpload :
      (off : ℕ) (buf : List ℕ) (flags : ℕ) (s : Session) (w : W)
      → IsUpload stored i file s w
      → IsChunk file off buf flags
      → IsUpload stored i file (tried off buf s w).0 (tried off buf s w).1
  tried-IsUpload off buf flags s w u c = elim (Bool-cases (off == s.cursor && ltb 0 (length buf))) [
    | inl h ↦
        let e : off ≡ s.cursor = ground arith in
        rw h (
          subst
            (λ o. IsUpload stored i file (write_chunk ps o buf s w).0 (write_chunk ps o buf s w).1)
            (sym e)
            (write_chunk-IsUpload s w buf flags u (subst (λ o. IsChunk file o buf flags) e c)))
    | inr h ↦ rw h u
  ]

  data_slot_eq :
      (off : ℕ) (buf : List ℕ) (flags : ℕ) (s : Session) (w : W)
      → s.state ≡ active
      → s.dir ≡ 1
      → flag_abort flags ≡ false
      → data_slot ps off buf flags s w ≡ (
        mark_eof off (length buf) flags (tried off buf (record s { rx_activity = true }) w).0,
        (tried off buf (record s { rx_activity = true }) w).1,
      )
  unfolding data_slot
  data_slot_eq off buf flags s w a d n = simp (data_slot, a, d, n) refl

  data_slot-IsUpload :
      (off : ℕ) (buf : List ℕ) (flags : ℕ) (s : Session) (w : W)
      → IsUpload stored i file s w
      → IsChunk file off buf flags
      → flag_abort flags ≡ false
      → IsUpload stored i file (data_slot ps off buf flags s w).0 (data_slot ps off buf flags s w).1
  data_slot-IsUpload off buf flags s w u c n =
      subst (λ (q : Session × W). IsUpload stored i file q.0 q.1)
        (sym (data_slot_eq off buf flags s w u.is_on u.is_up n))
        (mark_eof-IsUpload off buf flags _ _
          (tried-IsUpload off buf flags (record s { rx_activity = true }) w
            (record {
              is_on = u.is_on;
              is_up = u.is_up;
              served = u.served;
              within = u.within;
              prefix = u.prefix;
              whole = u.whole;
            })
            c)
          c)

  receive-IsUpload :
      (cs : List (ℕ × List ℕ × ℕ)) (s : Session) (w : W)
      → AreChunks file cs
      → IsUpload stored i file s w
      → IsUpload stored i file (receive ps cs s w).0 (receive ps cs s w).1
  receive-IsUpload [] s w h u = u
  receive-IsUpload ((off, buf, flags) ∷ cs) s w h u =
      receive-IsUpload cs _ _ h.2 (data_slot-IsUpload off buf flags s w u h.0 h.1)

  -- Chunks of a file that reach a fresh upload in any order, some lost, repeated or refused by the
  -- provider, leave a prefix of the file stored, which ends at the cursor; once the session marks the
  -- end, the file is stored whole and the recorded size is its length. The chunks carry no ABORT, and
  -- the file is shorter than 2^32 bytes.
  pub upload_stores_prefix :
      (cs : List (ℕ × List ℕ × ℕ)) (s : Session) (w : W)
      → AreChunks file cs
      → s.state ≡ active
      → s.dir ≡ 1
      → s.provider ≡ some i
      → s.cursor ≡ 0
      → s.upload_eof ≡ false
      → stored w ≡ []
      → (stored (receive ps cs s w).1 ≡ take (receive ps cs s w).0.cursor file)
        × ((receive ps cs s w).0.upload_eof ≡ true
            → (stored (receive ps cs s w).1 ≡ file)
              × ((receive ps cs s w).0.total_size ≡ length file))
  upload_stores_prefix cs s w h a d p z e n =
      let u = receive-IsUpload cs s w h (record {
        is_on = a;
        is_up = d;
        served = p;
        within = omega (arith, z);
        prefix = n ∙ sym (ap (λ k. take k file) z);
        whole = λ t. absurd (grind arith);
      }) in
      (u.prefix, λ t. (u.prefix ∙ take_all _ file (omega (arith, (u.whole t).0)), (u.whole t).1))

  tried_advances :
      (buf : List ℕ) (s : Session) (w : W)
      → s.provider ≡ some i
      → s.cursor + length buf < 4294967296
      → (f s s.cursor buf w).0 ≡ pos (length buf)
      → (tried s.cursor buf s w).0.cursor ≡ s.cursor + length buf
  tried_advances buf s w p h e = elim (Bool-cases (s.cursor == s.cursor && ltb 0 (length buf))) [
    | inl t ↦ rw (t, write_chunk_eq s.cursor buf s w p, e) (moved s.cursor (length buf) h)
    | inr t ↦ rw t (ground arith)
  ]

  mark_eof_fires :
      (off len flags : ℕ) (s : Session)
      → flag_eof flags ≡ true
      → off + len < 4294967296
      → s.cursor ≡ off + len
      → (mark_eof off len flags s).upload_eof ≡ true
  unfolding mark_eof
  mark_eof_fires off len flags s e h c = ground arith

  -- The last chunk of a file, when it arrives at the cursor of an upload of that file and the provider
  -- takes all of it, marks the end, with the whole file stored.
  last_chunk_completes :
      (buf : List ℕ) (flags : ℕ) (s : Session) (w : W)
      → (f (record s { rx_activity = true }) s.cursor buf w).0 ≡ pos (length buf)
      → IsUpload stored i file s w
      → IsChunk file s.cursor buf flags
      → flag_eof flags ≡ true
      → flag_abort flags ≡ false
      → ((data_slot ps s.cursor buf flags s w).0.upload_eof ≡ true)
        × (stored (data_slot ps s.cursor buf flags s w).1 ≡ file)
  last_chunk_completes buf flags s w takes u c e n =
      let v = data_slot-IsUpload s.cursor buf flags s w u c n in
      let fired : (data_slot ps s.cursor buf flags s w).0.upload_eof ≡ true =
        rw (data_slot_eq s.cursor buf flags s w u.is_on u.is_up n) (
          mark_eof_fires s.cursor (length buf) flags _ e (omega (arith, c.inside, small)) (
            tried_advances buf (record s { rx_activity = true }) w u.served
              (omega (arith, c.inside, small)) takes)) in
      (fired, v.prefix ∙ take_all _ file (omega (arith, (v.whole fired).0)))
