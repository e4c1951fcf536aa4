-- ===== src/FsQuery/Names.antt =====
-- What FatFS takes a path to name, and how the policy of firmware/src/comm/xfer/fs_query.c compares names.
use vayu.Common.{
  ℕ, ◌+◌, ◌≡◌, refl, sym, ap, ap₂, ◌∙◌, Bool, true, false, not, ◌&&◌, ◌||◌, List, [], ◌∷◌, ◌++◌,
  Bool-cases, inl, inr, arith, leb, ltb, ◌==◌, if◌then◌else◌,
}
use vayu.FsQuery.{lower, same_name, basename_from, basename_of, same_file}

-- Two bytes are the same, or a letter in its two cases.
abbrev pub same_letter : ℕ → ℕ → Bool
same_letter a b =
    a == b
    || ((leb 65 a && (leb a 90 && (a + 32 == b))) || (leb 65 b && (leb b 90 && (b + 32 == a))))

-- A name in upper, lower or mixed case.
abbrev pub spells : List ℕ → List ℕ → Bool
spells [] [] = true
spells [] (b ∷ bs) = false
spells (a ∷ as_) [] = false
spells (a ∷ as_) (b ∷ bs) = same_letter a b && spells as_ bs

-- A slash, a colon or a backslash ends a directory or a drive.
abbrev pub parts : ℕ → Bool
parts c = c == 47 || (c == 58 || c == 92)

abbrev pub parted : List ℕ → Bool
parted [] = false
parted (c ∷ cs) = parts c || parted cs

-- What is behind the last of them.
abbrev pub last_part : List ℕ → List ℕ
last_part [] = []
last_part (c ∷ cs) =
    let rest = last_part cs in if parted cs then rest else if parts c then cs else c ∷ cs

abbrev pub backslashed : List ℕ → Bool
backslashed [] = false
backslashed (c ∷ cs) = c == 92 || backslashed cs

basename_sep :
    (b cs : List ℕ) (c : ℕ)
    → c == 47 || c == 58 ≡ true
    → basename_from b (c ∷ cs) ≡ basename_from cs cs
unfolding basename_from
basename_sep b cs c h = simp (basename_from, h) refl

basename_other :
    (b cs : List ℕ) (c : ℕ)
    → c == 47 || c == 58 ≡ false
    → basename_from b (c ∷ cs) ≡ basename_from b cs
unfolding basename_from
basename_other b cs c h = simp (basename_from, h) refl

basename_from-last_part :
    (b p : List ℕ)
    → backslashed p ≡ false
    → basename_from b p ≡ (if parted p then last_part p else b)
unfolding basename_from
basename_from-last_part b [] h = refl
basename_from-last_part b (c ∷ cs) h =
    let k : backslashed cs ≡ false = ground (arith, h) in
    elim (Bool-cases (c == 47 || c == 58)) [
      | inl e ↦
          let s : parts c ≡ true = ground (arith, e) in
          basename_sep b cs c e ∙ basename_from-last_part cs cs k ∙ simp s
      | inr e ↦
          let s : parts c ≡ false = ground (arith, e, h) in
          basename_other b cs c e
          ∙ basename_from-last_part b cs k
          ∙ elim (Bool-cases (parted cs)) [ inl q ↦ simp (s, q) | inr q ↦ simp (s, q) ]
    ]

unparted : (p : List ℕ) → parted p ≡ false → last_part p ≡ p
unparted [] h = refl
unparted (c ∷ cs) h =
    let s : parts c ≡ false = ground (arith, h) in
    let q : parted cs ≡ false = ground (arith, h) in simp (s, q)

-- Without a backslash the policy looks at the same name as FatFS.
pub basename_of-last_part : (p : List ℕ) → backslashed p ≡ false → basename_of p ≡ last_part p
basename_of-last_part p h =
    basename_from-last_part p p h
    ∙ elim (Bool-cases (parted p)) [ inl q ↦ simp q | inr q ↦ simp q (sym (unparted p q)) ]

-- A name that FatFS takes for another's is the same to the policy.
pub spells-same_name : (n k : List ℕ) → spells n k ≡ true → same_name n k ≡ true
unfolding same_name lower
spells-same_name [] [] h = refl
spells-same_name [] (b ∷ k) h = absurd (ground (arith, h))
spells-same_name (a ∷ n) [] h = absurd (ground (arith, h))
spells-same_name (a ∷ n) (b ∷ k) h =
    let t : spells n k ≡ true = ground (arith, h) in
    let e : same_letter a b ≡ true = ground (arith, h) in
    let l : lower a == lower b ≡ true = ground (arith, e) in
    ground (arith, l, spells-same_name n k t)

-- A name with a backslash is none without.
pub backslashed-other :
    (n k : List ℕ) → backslashed n ≡ true → backslashed k ≡ false → same_name n k ≡ false
unfolding same_name lower
backslashed-other [] k h g = absurd (ground (arith, h))
backslashed-other (a ∷ n) [] h g = refl
backslashed-other (a ∷ n) (b ∷ k) h g =
    let q : backslashed k ≡ false = ground (arith, g) in
    elim (Bool-cases (backslashed n)) [
      | inl t ↦ ground (arith, backslashed-other n k t q)
      | inr t ↦ let l : lower a == lower b ≡ false = ground (arith, h, g, t) in ground (arith, l)
    ]

-- The policy takes a backslash for a part of a name.
abbrev pub plain : List ℕ → Bool
plain [] = true
plain (c ∷ cs) = not (c == 47 || c == 58) && plain cs

plain_kept : (b n : List ℕ) → plain n ≡ true → basename_from b n ≡ b
unfolding basename_from
plain_kept b [] h = refl
plain_kept b (c ∷ n) h =
    basename_other b n c (ground (arith, h)) ∙ plain_kept b n (ground (arith, h))

backslashed-append : (d n : List ℕ) → backslashed (d ++ 92 ∷ n) ≡ true
backslashed-append [] n = refl
backslashed-append (c ∷ d) n = ground (arith, backslashed-append d n)

pub basename_from-backslashed :
    (b d n : List ℕ)
    → backslashed b ≡ true
    → plain n ≡ true
    → backslashed (basename_from b (d ++ 92 ∷ n)) ≡ true
basename_from-backslashed b [] n h p =
    ap backslashed (basename_other b n 92 refl ∙ plain_kept b n p) ∙ h
basename_from-backslashed b (c ∷ d) n h p = elim (Bool-cases (c == 47 || c == 58)) [
  | inl e ↦
      ap backslashed (basename_sep b (d ++ 92 ∷ n) c e)
      ∙ basename_from-backslashed (d ++ 92 ∷ n) d n (backslashed-append d n) p
  | inr e ↦
      ap backslashed (basename_other b (d ++ 92 ∷ n) c e) ∙ basename_from-backslashed b d n h p
]

pub same_file-backslashed :
    (d n k : List ℕ)
    → plain n ≡ true
    → backslashed (basename_of k) ≡ false
    → same_file (d ++ 92 ∷ n) k ≡ false
unfolding same_file
same_file-backslashed d n k p h =
    backslashed-other (basename_of (d ++ 92 ∷ n)) (basename_of k)
      (basename_from-backslashed (d ++ 92 ∷ n) d n (backslashed-append d n) p) h

-- A path has no blank or control byte, at which FatFS stops, and does not end in a dot or a slash, which
-- it may leave out.
abbrev pub is_whole : List ℕ → Bool
is_whole [] = true
is_whole (c ∷ []) = ltb 32 c && not (c == 46 || c == 47)
is_whole (c ∷ d ∷ cs) = ltb 32 c && is_whole (d ∷ cs)

-- Names that are different to the policy are different to FatFS.
pub same_file_other :
    (p k : List ℕ)
    → backslashed p ≡ false
    → backslashed k ≡ false
    → same_file p k ≡ false
    → spells (last_part p) (last_part k) ≡ false
unfolding same_file
same_file_other p k h g e = elim (Bool-cases (spells (last_part p) (last_part k))) [
  | inr t ↦ t
  | inl t ↦
      let same =
        ap₂ same_name (basename_of-last_part p h) (basename_of-last_part k g)
        ∙ spells-same_name (last_part p) (last_part k) t in
      absurd (ground (arith, e, same))
]

pub same_file_spelled :
    (p k : List ℕ)
    → backslashed p ≡ false
    → backslashed k ≡ false
    → spells (last_part p) (last_part k) ≡ true
    → same_file p k ≡ true
unfolding same_file
same_file_spelled p k h g e =
    ap₂ same_name (basename_of-last_part p h) (basename_of-last_part k g)
    ∙ spells-same_name (last_part p) (last_part k) e
