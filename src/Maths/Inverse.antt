-- ===== src/Maths/Inverse.antt =====
-- m_mat4_inv of firmware/include/maths/linalg.h: the inverse of a 4x4 matrix by Gauss and Jordan. A
-- matrix is the list of its rows.
use vayu.Common.{
  ℕ, zero, suc, ◌+◌, List, [], ◌∷◌, ◌++◌, map, Option, none, some, ◌==◌, drop, get_or, set,
  if◌then◌else◌,
}
use vayu.Maths.{Float}

infixl 10 ◌>>=◌
abbrev ◌>>=◌ : {A B : Type 0} → Option A → (A → Option B) → Option B
none >>= f = none
some a >>= f = f a

module _ {F : Type 0} (fl : Float F) where
  abbrev nought : F
  nought = fl.lit 0 0

  abbrev unity : F
  unity = fl.lit 1 0

  abbrev pub entry : List (List F) → ℕ → ℕ → F
  entry a i j = get_or (get_or a i []) j nought

  -- A row of the identity.
  abbrev unit_row : ℕ → List F
  unit_row i = map (λ j. if i == j then unity else nought) (0 ∷ 1 ∷ 2 ∷ 3 ∷ [])

  abbrev augmented : ℕ → List (List F) → List (List F)
  augmented i [] = []
  augmented i (r ∷ rows) = (r ++ unit_row i) ∷ augmented (suc i) rows

  -- The largest magnitude of a list, from `best`.
  abbrev largest : F → List F → F
  largest best [] = best
  largest best (v ∷ vs) = largest (if fl.lt best (fl.fabs v) then fl.fabs v else best) vs

  abbrev entries : List (List F) → List F
  entries [] = []
  entries (r ∷ rows) = r ++ entries rows

  abbrev floor_of : List (List F) → F
  floor_of m =
      let scale = largest (fl.fabs (entry m 0 0)) (entries m) in
      fl.mul (fl.lit 1 6) (if fl.lt nought scale then scale else unity)

  -- The pivot's row and magnitude, in `n` rows from `r` on.
  abbrev pivot : List (List F) → ℕ → ℕ → ℕ → ℕ × F → ℕ × F
  pivot a col zero r p = p
  pivot a col (suc n) r p =
      let v = fl.fabs (entry a r col) in pivot a col n (r + 1) (if fl.lt p.1 v then (r, v) else p)

  abbrev swapped : List (List F) → ℕ → ℕ → List (List F)
  swapped a i j = if i == j then a else set (set a i (get_or a j [])) j (get_or a i [])

  -- `a - f * b`, entry by entry.
  abbrev minus_row : F → List F → List F → List F
  minus_row f [] bs = []
  minus_row f (x ∷ xs) [] = x ∷ xs
  minus_row f (x ∷ xs) (b ∷ bs) = fl.sub x (fl.mul f b) ∷ minus_row f xs bs

  -- A column cleared in the rows from `r` on, by the pivot's row `p`.
  abbrev cleared : ℕ → List F → ℕ → List (List F) → List (List F)
  cleared col p r [] = []
  cleared col p r (row ∷ rows) =
      let f = get_or row col nought in
      let row_ =
        if r == col
        then row
        else if fl.lt (fl.fabs f) (fl.lit 1 20)
        then row
        else minus_row f row p in
      row_ ∷ cleared col p (r + 1) rows

  -- One round of the elimination, with `n` rows below the column's.
  abbrev round : F → ℕ → ℕ → List (List F) → Option (List (List F))
  round eps col n a =
      let p = pivot a col n (col + 1) (col, fl.fabs (entry a col col)) in
      if fl.le p.1 eps
      then none
      else let b = swapped a col p.0 in
        let invp = fl.div unity (entry b col col) in
        let row = map (λ x. fl.mul x invp) (get_or b col []) in
        some (cleared col row 0 (set b col row))

  -- `m_mat4_inv`.
  unfoldable pub mat4_inv : List (List F) → Option (List (List F))
  mat4_inv m =
      let eps = floor_of m in
      do
        a ← round eps 0 3 (augmented 0 m)
        b ← round eps 1 2 a
        c ← round eps 2 1 b
        d ← round eps 3 0 c
        some (map (drop 4) d)
