-- ===== src/Xfer/Download.antt =====
-- File downloads through firmware/src/comm/xfer/navlink_xfer.c (`tick_download`): what reaches a peer
-- that puts the chunks of a file together in order.
use vayu.Common.{
  Int-cases, ℕ, zero, suc, ◌+◌, ◌-◌, ◌<◌, ◌≤◌, ◌≡◌, ◌⊎◌, refl, sym, ap, ◌∙◌, true, false, List, [],
  ◌++◌, length, take, drop, take-append-take-drop, take_all, length-take, some, pos, arith, inl,
  inr, Bool-cases, leb, ◌==◌, u32, u8, get_elem?, if◌then◌else◌,
}
use mathlib.Core.Path.{subst}
use vayu.Xfer.{Session, Provider, Bytes, Tx, active, done_linger, provider_of}
use vayu.Xfer.Emit.{
  Round, emit_loop, send_marker, send_chunk, want, chunk_round, tick_download, stop, f_eof, f_none,
  read_at, respond,
}
use vayu.Xfer.Rounds.{
  IsReader, IsLink, IsDownload, emit_loop-keeps, no_repairs, plus_zero, byte, moved, after_chunk,
}

module _ {W : Type 0} (ps : List (Provider W)) (tx : Tx W) (delivered : W → List ℕ) (i : ℕ)
    (p : Provider W) (f : Session → ℕ → ℕ → W → Bytes × W) (file : List ℕ)
    (at_i : get_elem? ps i ≡ some p) (reads : p.read ≡ some f) (reader : IsReader delivered file f)
    (link : IsLink delivered tx) (small : length file < 4294967296) where
  -- The cursor stands where the peer's bytes end.
  cursor_is_length :
      (s : Session) (w : W) → IsDownload delivered i file s w → s.cursor ≡ length (delivered w)
  cursor_is_length s w d = omega (arith, ap length d.prefix, length-take s.cursor file, d.within)

  -- The end marker is empty.
  send_marker-IsDownload :
      (now : ℕ) (s : Session) (w : W)
      → IsDownload delivered i file s w
      → s.cursor ≡ length file
      → IsDownload delivered i file
          (send_marker ps tx now s w).session
          (send_marker ps tx now s w).world
  unfolding send_marker
  send_marker-IsDownload now s w d c = elim (Bool-cases (tx.chunk s f_eof 0 s.cursor [] w).0) [
    | inl h ↦
        rw (send_marker, h)
          (record {
            is_on = inr (refl, c);
            served = d.served;
            chunks = d.chunks;
            total = d.total;
            within = d.within;
            prefix =
                link.arrives s f_eof 0 s.cursor [] w h (cursor_is_length s w d)
                ∙ ap (λ xs. xs ++ []) d.prefix
                ∙ take-append-take-drop s.cursor 0 file
                ∙ ap (λ k. take k file) (plus_zero s.cursor);
          })
    | inr h ↦
        rw (send_marker, h)
          (record {
            is_on = d.is_on;
            served = d.served;
            chunks = d.chunks;
            total = d.total;
            within = d.within;
            prefix = link.refused s f_eof 0 s.cursor [] w h ∙ d.prefix;
          })
  ]

  -- What the peer does not see leaves the download as it is.
  unheard :
      (s : Session) (w w' : W)
      → IsDownload delivered i file s w
      → delivered w' ≡ delivered w
      → IsDownload delivered i file s w'
  unheard s w w' d q = record {
    is_on = d.is_on;
    served = d.served;
    chunks = d.chunks;
    total = d.total;
    within = d.within;
    prefix = q ∙ d.prefix;
  }

  sent :
      (now n : ℕ) (buf : List ℕ) (s : Session) (w : W)
      → IsDownload delivered i file s w
      → s.state ≡ active
      → n ≤ 247
      → s.cursor + n ≤ length file
      → take n buf ≡ take n (drop s.cursor file)
      → IsDownload delivered i file
          (send_chunk ps tx now s.cursor n buf s w).session
          (send_chunk ps tx now s.cursor n buf s w).world
  unfolding send_chunk
  sent now n buf s w d a h l e =
      let flags = if leb s.total_size (u32 (s.cursor + n)) then f_eof else f_none in
      let m = moved s.cursor n (omega (arith, l, small)) in
      elim (Bool-cases (tx.chunk s flags (u8 n) s.cursor buf w).0) [
        | inl t ↦
            rw (send_chunk, t)
              (record {
                is_on = rw m (after_chunk s (length file) small d.total (s.cursor + n) l a);
                served = d.served;
                chunks = d.chunks;
                total = d.total;
                within = rw m l;
                prefix = rw m (
                    link.arrives s flags (u8 n) s.cursor buf w t (cursor_is_length s w d)
                    ∙ ap (λ xs. xs ++ take (u8 n) buf) d.prefix
                    ∙ ap (λ k. take s.cursor file ++ take k buf) (byte n h)
                    ∙ ap (λ xs. take s.cursor file ++ xs) e
                    ∙ take-append-take-drop s.cursor n file);
              })
        | inr t ↦
            rw (send_chunk, t)
              (record {
                is_on = d.is_on;
                served = d.served;
                chunks = d.chunks;
                total = d.total;
                within = d.within;
                prefix = link.refused s flags (u8 n) s.cursor buf w t ∙ d.prefix;
              })
      ]

  -- The answer `b` to a read at the cursor.
  answered :
      (now : ℕ) (s : Session) (w w' : W) (b : Bytes)
      → IsDownload delivered i file s w
      → s.state ≡ active
      → delivered w' ≡ delivered w
      → ((n : ℕ)
          → b.n ≡ pos n
          → (n ≤ 247) × (s.cursor + n ≤ length file) × (take n b.buf ≡ take n (drop s.cursor file)))
      → IsDownload delivered i file
          (respond ps tx now s w' b b.n).session
          (respond ps tx now s w' b b.n).world
  answered now s w w' b d a q h = elim (Int-cases b.n) [
    | inl (n, e) ↦ elim (Bool-cases (n == 0)) [
      | inl z ↦ rw (e, z) (unheard s w w' d q)
      | inr z ↦
          let (h₀, h₁, h₂) = h n e in
          rw (e, z) (sent now n b.buf s w' (unheard s w w' d q) a h₀ h₁ h₂)
    ]
    | inr (n, e) ↦ rw e (unheard s w w' d q)
  ]

  want_le : (s : Session) → s.chunk_size ≤ 247 → want ps tx s ≤ 247
  want_le s h = ground arith

  want_pos :
      (s : Session)
      → 0 < s.chunk_size
      → s.chunk_size ≤ 247
      → s.cursor < s.total_size
      → 0 < want ps tx s
  want_pos s h k l = ground arith

  at_the_end :
      (s : Session) (w : W)
      → IsDownload delivered i file s w
      → leb s.total_size s.cursor ≡ true
      → s.cursor ≡ length file
  at_the_end s w d t =
      let l : s.total_size ≤ s.cursor = ground arith in omega (arith, l, d.total, d.within)

  honest :
      (s : Session) (w : W)
      → IsDownload delivered i file s w
      → (n : ℕ) → (f s s.cursor (want ps tx s) w).0.n ≡ pos n
      → (n ≤ 247)
        × (s.cursor + n ≤ length file)
        × (take n (f s s.cursor (want ps tx s) w).0.buf ≡ take n (drop s.cursor file))
  honest s w d n e =
      let (h₀, h₁, h₂) = reader.reads s s.cursor (want ps tx s) n w d.within e in
      (omega (arith, h₀, want_le s d.chunks.1), h₁, h₂)

  round_of_linger :
      (now : ℕ) (s : Session) (w : W) → s.state ≡ done_linger → chunk_round ps tx now s w ≡ stop s w
  unfolding chunk_round
  round_of_linger now s w l = simp (chunk_round, l) refl

  round_at_end :
      (now : ℕ) (s : Session) (w : W)
      → s.state ≡ active
      → leb s.total_size s.cursor ≡ true
      → chunk_round ps tx now s w ≡ send_marker ps tx now s w
  unfolding chunk_round
  round_at_end now s w a e = simp (chunk_round, a, e) refl

  read_at_eq :
      (s : Session) (off max : ℕ) (w : W)
      → s.provider ≡ some i
      → read_at ps tx s off max w ≡ f s off max w
  read_at_eq s off max w v = simp (read_at, provider_of, v, at_i, reads) refl

  round_of_read :
      (now : ℕ) (s : Session) (w : W)
      → s.state ≡ active
      → leb s.total_size s.cursor ≡ false
      → s.provider ≡ some i
      → chunk_round ps tx now s w
        ≡ respond ps tx now s
            (f s s.cursor (want ps tx s) w).1
            (f s s.cursor (want ps tx s) w).0
            (f s s.cursor (want ps tx s) w).0.n
  unfolding chunk_round
  round_of_read now s w a e v =
      simp (chunk_round, a, e, read_at_eq s s.cursor (want ps tx s) w v) refl

  chunk_round-IsDownload :
      (now : ℕ) (s : Session) (w : W)
      → IsDownload delivered i file s w
      → IsDownload delivered i file
          (chunk_round ps tx now s w).session
          (chunk_round ps tx now s w).world
  chunk_round-IsDownload now s w d = elim d.is_on [
    | inr l ↦
        subst (λ r. IsDownload delivered i file r.session r.world)
          (sym (round_of_linger now s w l.0)) d
    | inl a ↦ elim (Bool-cases (leb s.total_size s.cursor)) [
      | inl t ↦
          subst (λ r. IsDownload delivered i file r.session r.world)
            (sym (round_at_end now s w a t)) (send_marker-IsDownload now s w d (at_the_end s w d t))
      | inr t ↦
          subst (λ r. IsDownload delivered i file r.session r.world)
            (sym (round_of_read now s w a t d.served))
            (answered now s w _ _ d a (reader.silent s s.cursor (want ps tx s) w) (honest s w d))
    ]
  ]

  -- Whatever the link accepts or refuses and however much the provider answers, a tick on a file
  -- download with no repairs leaves the peer with the file up to the cursor, and lingers only when that
  -- is the whole file.
  pub tick_download-IsDownload :
      (now budget : ℕ) (s : Session) (w : W)
      → s.repair ≡ []
      → IsDownload delivered i file s w
      → IsDownload delivered i file
          (tick_download ps tx now budget s w).session
          (tick_download ps tx now budget s w).world
  unfolding tick_download
  tick_download-IsDownload now budget s w e d =
      rw (tick_download, no_repairs ps tx now budget 0 s w e)
        (emit_loop-keeps (IsDownload delivered i file) (chunk_round ps tx now)
          (chunk_round-IsDownload now) budget 0 s w d)

  lingers_at_end :
      (s : Session) (w : W)
      → IsDownload delivered i file s w
      → s.state ≡ done_linger
      → s.cursor ≡ length file
  lingers_at_end s w d l = elim d.is_on [ inl a ↦ absurd (grind arith) | inr r ↦ r.1 ]

  -- A round that ends the loop has finished the file; any other has moved the cursor.
  abbrev Advances : Session → Round W → Type 0
  Advances s r =
      ((r.again ≡ false) × (r.session.state ≡ done_linger))
      ⊎ ((r.again ≡ true) × (r.session.state ≡ active) × (s.cursor < r.session.cursor))

  sent-Advances :
      (now n : ℕ) (buf : List ℕ) (s : Session) (w : W)
      → ((t : Session) (flags n off : ℕ) (buf : List ℕ) (v : W)
          → (tx.chunk t flags n off buf v).0 ≡ true)
      → s.state ≡ active
      → 0 < n
      → s.cursor + n < 4294967296
      → Advances s (send_chunk ps tx now s.cursor n buf s w)
  unfolding send_chunk
  sent-Advances now n buf s w always a h l =
      let y = always s f_eof (u8 n) s.cursor buf w in
      let t = always s f_none (u8 n) s.cursor buf w in
      let m : s.cursor < (if s.cursor == s.cursor then u32 (s.cursor + n) else s.cursor) =
        ground arith in
      elim (Bool-cases (leb s.total_size (u32 (s.cursor + n)))) [
        | inl q ↦ inl (simp (send_chunk, q, y) refl, simp (send_chunk, q, y) refl)
        | inr q ↦
            inr (simp (send_chunk, t, q) refl, simp (send_chunk, t, q) a, simp (send_chunk, t, q) m)
      ]

  marker-Advances :
      (now : ℕ) (s : Session) (w : W)
      → ((t : Session) (flags n off : ℕ) (buf : List ℕ) (v : W)
          → (tx.chunk t flags n off buf v).0 ≡ true)
      → Advances s (send_marker ps tx now s w)
  unfolding send_marker
  marker-Advances now s w always =
      let t = always s f_eof 0 s.cursor [] w in
      inl (simp (send_marker, t) refl, simp (send_marker, t) refl)

  round-Advances :
      (now : ℕ) (s : Session) (w : W)
      → ((t : Session) (flags n off : ℕ) (buf : List ℕ) (v : W)
          → (tx.chunk t flags n off buf v).0 ≡ true)
      → ((t : Session) (off max : ℕ) (v : W)
          → off < length file
          → 0 < max
          → (k : ℕ) × (0 < k) × ((f t off max v).0.n ≡ pos k))
      → IsDownload delivered i file s w
      → s.state ≡ active
      → Advances s (chunk_round ps tx now s w)
  round-Advances now s w always eager d a = elim (Bool-cases (leb s.total_size s.cursor)) [
    | inl t ↦ subst (Advances s) (sym (round_at_end now s w a t)) (marker-Advances now s w always)
    | inr t ↦
        let l : s.cursor < s.total_size = ground arith in
        let (k, k₀, e) =
          eager s s.cursor (want ps tx s) w (omega (arith, l, d.total))
            (want_pos s d.chunks.0 d.chunks.1 l) in
        let (h₀, h₁, h₂) = honest s w d k e in
        let z : (k == 0) ≡ false = ground arith in
        subst (Advances s) (sym (round_of_read now s w a t d.served))
          (rw (e, z) (sent-Advances now k _ s _ always a k₀ (omega (arith, h₁, small))))
  ]

  finishes :
      ((t : Session) (flags n off : ℕ) (buf : List ℕ) (v : W)
        → (tx.chunk t flags n off buf v).0 ≡ true)
      → ((t : Session) (off max : ℕ) (v : W)
          → off < length file
          → 0 < max
          → (k : ℕ) × (0 < k) × ((f t off max v).0.n ≡ pos k))
      → (now b e : ℕ) (s : Session) (w : W) → IsDownload delivered i file s w
      → s.state ≡ active
      → length file - s.cursor < b
      → (emit_loop (chunk_round ps tx now) b e s w).session.state ≡ done_linger
  unfolding emit_loop
  finishes always eager now zero e s w d a h = absurd (omega (arith, h))
  finishes always eager now (suc b) e s w d a h =
      let r = chunk_round ps tx now s w in
      let v = chunk_round-IsDownload now s w d in
      elim (round-Advances now s w always eager d a) [
        | inl q ↦ rw (emit_loop, q.0) q.1
        | inr (q₀, q₁, q₂) ↦
            rw (emit_loop, q₀)
              (finishes always eager now b (e + 1) _ _ v q₁ (omega (arith, q₂, h, v.within)))
      ]

  -- A tick on a file download with no repairs whose budget exceeds the bytes that are left finishes the
  -- file: all of it is delivered, and the session lingers. The link accepts every chunk, and the
  -- provider answers each read below the end with at least one byte.
  pub tick_download_completes :
      (now budget : ℕ) (s : Session) (w : W)
      → ((t : Session) (flags n off : ℕ) (buf : List ℕ) (v : W)
          → (tx.chunk t flags n off buf v).0 ≡ true)
      → ((t : Session) (off max : ℕ) (v : W)
          → off < length file
          → 0 < max
          → (k : ℕ) × (0 < k) × ((f t off max v).0.n ≡ pos k))
      → s.repair ≡ []
      → IsDownload delivered i file s w
      → s.state ≡ active
      → length file - s.cursor < budget
      → ((tick_download ps tx now budget s w).session.state ≡ done_linger)
        × (delivered (tick_download ps tx now budget s w).world ≡ file)
  unfolding tick_download
  tick_download_completes now budget s w always eager e d a h =
      let l : (tick_download ps tx now budget s w).session.state ≡ done_linger =
        rw (tick_download, no_repairs ps tx now budget 0 s w e)
          (finishes always eager now budget 0 s w d a h) in
      let v = tick_download-IsDownload now budget s w e d in
      (l, v.prefix ∙ take_all _ file (omega (arith, lingers_at_end _ _ v l)))
