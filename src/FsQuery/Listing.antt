-- ===== src/FsQuery/Listing.antt =====
-- What the listing of firmware/src/comm/xfer/fs_query.c emits, over all its ticks.
use vayu.Common.{
  ℕ, zero, suc, ◌≡◌, ◌≤◌, ◌*◌, ◌+◌, ◌%◌, refl, sym, ap, ap₂, ◌∙◌, true, false, List, [], ◌∷◌, ◌++◌,
  length, take, drop, none, some, inl, inr, Bool-cases, arith, u16, if◌then◌else◌, take_all,
  drop-drop, length-drop, take-append-take-drop, List-cases, take_nil, drop_nil, ℤ,
}
use mathlib.Core.Path.{subst}
use native.Mathlib.Nat.{suc-mul}
use mathlib.Core.List.{append_assoc, append-nil}
use vayu.FsQuery.{
  Outside, ListSlot, Dirent, Row, row_of, last_row, emit_rows, ack_list, open_list, tick_list,
}

-- `rest` is what the open directory still holds and `log` what the emitter was given: what a readdir, a
-- closedir and an emission do to them.
pub record IsStream {W : Type 0} (out : Outside W) (rest : W → List Dirent) (log : W → List Row)
    : Type 0 where
  pub read_end :
      (d : ℤ) (w : W)
      → rest w ≡ []
      → ((out.readdir d w).0 ≡ none) × (log (out.readdir d w).1 ≡ log w)
  pub read_next :
      (d : ℤ) (e : Dirent) (es : List Dirent) (w : W)
      → rest w ≡ e ∷ es
      → ((out.readdir d w).0 ≡ some e)
        × (rest (out.readdir d w).1 ≡ es)
        × (log (out.readdir d w).1 ≡ log w)
  pub emits : (r : Row) (w : W) → log (out.entry r w) ≡ log w ++ r ∷ []
  pub emit_rest : (r : Row) (w : W) → rest (out.entry r w) ≡ rest w
  pub closes : (d : ℤ) (w : W) → log (out.closedir d w) ≡ log w

-- The rows of a directory from `index` on: one for each entry, with its kind, size and name and the next
-- index, and one that ends them, with the total and no name.
abbrev pub rows : ListSlot → List Dirent → List Row
rows s [] =
    record {
      req_seq = s.req_seq;
      result = 0;
      index = s.index;
      count = s.index;
      kind = 0;
      size = 0;
      name = [];
    }
    ∷ []
rows s (e ∷ es) =
    record {
      req_seq = s.req_seq;
      result = 0;
      index = s.index;
      count = 0;
      kind = if e.is_dir then 1 else 0;
      size = e.size;
      name = e.name;
    }
    ∷ rows (record s { index = (s.index + 1) % 65536 }) es

-- The rows that a listing has not yet emitted.
abbrev pub to_come : {W : Type 0} → (W → List Dirent) → ListSlot → W → List Row
to_come rest s w = if s.active then rows s (rest w) else []

-- A directory that was found is open, and its request was acknowledged.
pub record IsOpen (s : ListSlot) : Type 0 where
  pub acked : s.acked ≡ true
  pub opened : s.opened ≡ true
  pub found : s.not_found ≡ false

-- What a tick does to a listing of which `todo` is to come.
pub record IsTick {W : Type 0} (rest : W → List Dirent) (log : W → List Row) (k : ℕ)
    (todo : List Row) (w : W) (r : ℕ × ListSlot × W) : Type 0 where
  pub count : r.0 ≡ length (take k todo)
  pub logged : log r.2 ≡ log w ++ take k todo
  pub left : to_come rest r.1 r.2 ≡ drop k todo
  pub still : IsOpen r.1

-- A number of ticks, one after the other.
pub ticks : {W : Type 0} → Outside W → ℕ → ℕ → ListSlot → W → ListSlot × W
ticks out zero k s w = (s, w)
ticks out (suc n) k s w = ticks out n k (tick_list out k s w).1 (tick_list out k s w).2

module _ {W : Type 0} (out : Outside W) (rest : W → List Dirent) (log : W → List Row)
    (law : IsStream out rest log) where
  active_to_come : (s : ListSlot) (w : W) → s.active ≡ true → to_come rest s w ≡ rows s (rest w)
  active_to_come s w a = ap (λ b. if b then rows s (rest w) else []) a

  emit_rows-IsTick :
      (k : ℕ) (s : ListSlot) (w : W)
      → s.active ≡ true
      → IsOpen s
      → IsTick rest log k (to_come rest s w) w (emit_rows out k s w)
  unfolding emit_rows
  emit_rows-IsTick zero s w a o = record {
    count = refl;
    logged = sym (append-nil (log w));
    left = refl;
    still = o;
  }
  emit_rows-IsTick (suc k) s w a o = elim (List-cases (rest w)) [
    | inl e ↦
        let r = law.read_end s.dir w e in
        let v = (out.readdir s.dir w).1 in
        simp (emit_rows, a, e, r.0)
          (record {
            count = sym (ap (λ xs. suc (length xs)) (take_nil {A = Row} k));
            logged =
                law.closes s.dir _
                ∙ law.emits (last_row s) v
                ∙ ap₂ (λ l xs. l ++ last_row s ∷ xs) r.1 (sym (take_nil k));
            left = sym (drop_nil k);
            still = record { acked = o.acked; opened = o.opened; found = o.found };
          })
    | inr (f, fs, e) ↦
        let r = law.read_next s.dir f fs w e in
        let v = out.entry (row_of s f) (out.readdir s.dir w).1 in
        let t = record s { index = u16 (s.index + 1) } in
        let i =
          emit_rows-IsTick k t v a
            (record { acked = o.acked; opened = o.opened; found = o.found }) in
        let g : to_come rest t v ≡ rows t fs =
          active_to_come t v a ∙ ap (rows t) (law.emit_rest (row_of s f) _ ∙ r.1) in
        let h : to_come rest s w ≡ row_of s f ∷ rows t fs = active_to_come s w a ∙ ap (rows s) e in
        subst (λ todo. IsTick rest log (suc k) todo w (emit_rows out (suc k) s w)) (sym h)
          (simp (emit_rows, r.0)
            (record {
              count = ap suc i.count ∙ ap (λ xs. suc (length (take k xs))) g;
              logged =
                  i.logged
                  ∙ ap₂ (λ l xs. l ++ take k xs)
                      (law.emits (row_of s f) _ ∙ ap (λ l. l ++ row_of s f ∷ []) r.2) g
                  ∙ append_assoc (log w) (row_of s f ∷ []) (take k (rows t fs));
              left = i.left ∙ ap (drop k) g;
              still = i.still;
            }))
  ]

  ticks_on :
      (k : ℕ) (s : ListSlot) (w : W)
      → s.active ≡ true
      → IsOpen s
      → tick_list out k s w ≡ emit_rows out k s w
  unfolding tick_list ack_list open_list
  ticks_on k s w a o = simp (tick_list, ack_list, open_list, a, o.acked, o.opened, o.found) refl

  tick_list-IsTick :
      (k : ℕ) (s : ListSlot) (w : W)
      → IsOpen s
      → IsTick rest log k (to_come rest s w) w (tick_list out k s w)
  unfolding tick_list
  tick_list-IsTick k s w o = elim (Bool-cases s.active) [
    | inl a ↦
        subst (λ r. IsTick rest log k (to_come rest s w) w r) (sym (ticks_on k s w a o))
          (emit_rows-IsTick k s w a o)
    | inr a ↦
        let h : to_come rest s w ≡ [] = ap (λ b. if b then rows s (rest w) else []) a in
        subst (λ todo. IsTick rest log k todo w (tick_list out k s w)) (sym h)
          (simp (tick_list, a)
            (record {
              count = sym (ap length (take_nil {A = Row} k));
              logged = sym (ap (λ xs. log w ++ xs) (take_nil k) ∙ append-nil (log w));
              left = h ∙ sym (drop_nil k);
              still = o;
            }))
  ]

  ticks_lem :
      (n k : ℕ) (s : ListSlot) (w : W)
      → IsOpen s
      → (log (ticks out n k s w).1 ≡ log w ++ take (n * k) (to_come rest s w))
        × (to_come rest (ticks out n k s w).0 (ticks out n k s w).1
            ≡ drop (n * k) (to_come rest s w))
  unfolding ticks
  ticks_lem zero k s w o =
      let e : 0 * k ≡ 0 = omega arith in
      (
        sym (ap (λ j. log w ++ take j (to_come rest s w)) e ∙ append-nil (log w)),
        sym (ap (λ j. drop j (to_come rest s w)) e),
      )
  ticks_lem (suc n) k s w o =
      let e : k + n * k ≡ suc n * k = omega (arith, suc-mul n k) in
      let i = tick_list-IsTick k s w o in
      let r = ticks_lem n k _ _ i.still in
      let todo = to_come rest s w in
      (
        r.0
            ∙ ap₂ (λ l xs. l ++ take (n * k) xs) i.logged i.left
            ∙ append_assoc (log w) (take k todo) (take (n * k) (drop k todo))
            ∙ ap (λ xs. log w ++ xs)
                (take-append-take-drop k (n * k) todo ∙ ap (λ j. take j todo) e),
        r.1 ∙ ap (drop (n * k)) i.left ∙ drop-drop (n * k) k todo ∙ ap (λ j. drop j todo) e,
      )

  length-rows : (s : ListSlot) (es : List Dirent) → length (rows s es) ≡ suc (length es)
  length-rows s [] = refl
  length-rows s (e ∷ es) = ap suc (length-rows (record s { index = u16 (s.index + 1) }) es)

  -- A listing whose directory is open emits the whole directory and ends: after so many ticks that their
  -- budgets together are not less than the number of entries plus one, the rows emitted are one for
  -- each entry that was left, in order and with consecutive indices modulo 2 ^ 16, then one with the
  -- total and an empty name, and the slot is free.
  pub list_completes :
      (n k : ℕ) (s : ListSlot) (w : W)
      → s.active ≡ true
      → IsOpen s
      → suc (length (rest w)) ≤ n * k
      → (log (ticks out n k s w).1 ≡ log w ++ rows s (rest w))
        × ((ticks out n k s w).0.active ≡ false)
  list_completes n k s w a o h =
      let e = active_to_come s w a in
      let l : length (rows s (rest w)) ≤ n * k = omega (arith, length-rows s (rest w), h) in
      let t = ticks_lem n k s w o in
      let u = ticks out n k s w in
      (
        t.0 ∙ ap (λ xs. log w ++ xs) (ap (take (n * k)) e ∙ take_all (n * k) (rows s (rest w)) l),
        elim (Bool-cases u.0.active) [
          | inr z ↦ z
          | inl z ↦
              let d = ap length (sym (active_to_come u.0 u.1 z) ∙ t.1 ∙ ap (drop (n * k)) e) in
              absurd (
                omega
                  (arith, d, l, length-rows u.0 (rest u.1), length-drop (n * k) (rows s (rest w))))
        ],
      )
