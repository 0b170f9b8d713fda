-- ===== src/HeaderValue/Keyword.antt =====
-- What the scan that the tests of src/headers.rs share accepts.
use minihttp.Base.{ℕ, suc, ◌+◌, ◌≤◌, ◌≡◌, refl, sym, ap, ◌∙◌, ◌↔◌, ◌⊎◌, inl, inr}
use minihttp.Base.{Bool, true, false, some, [], ◌∷◌, ◌++◌, map}
use minihttp.Base.{
  Bytes, length, all, ltb, Bool-cases, Option-cases, arith, length-append, length-map,
}
use minihttp.Base.{&&-true, le→ltb}
use minihttp.Base.Ascii.{is_blank, to_ascii_lowercase}
use minihttp.HeaderValue.{scan_start, scan_rest, scan_end, is_keyword}

-- The keyword in any case, with blanks around it.
pub record Spells (word val : Bytes) : Type 0 where
  pub before : Bytes
  pub middle : Bytes
  pub after : Bytes
  pub splits : val ≡ before ++ (middle ++ after)
  pub blank_before : all is_blank before ≡ true
  pub blank_after : all is_blank after ≡ true
  pub same : map to_ascii_lowercase middle ≡ word

-- Blanks only, at least as many as the keyword has bytes.
abbrev pub IsBlankOf : ℕ → Bytes → Type 0
IsBlankOf klen val = (all is_blank val ≡ true) × (klen ≤ length val)

-- What the first loop leaves.
data Started (first : ℕ → Bool) (klen : ℕ) (val rest : Bytes) : Type 0 where
  used_up : all is_blank val ≡ true → rest ≡ [] → Started first klen val rest
  found :
      (before : Bytes) (c : ℕ)
      → val ≡ before ++ (c ∷ rest)
      → all is_blank before ≡ true
      → first c ≡ true
      → klen ≤ suc (length rest)
      → Started first klen val rest

Started-cons :
    (first : ℕ → Bool) (klen c : ℕ) {val rest : Bytes}
    → is_blank c ≡ true
    → Started first klen val rest
    → Started first klen (c ∷ val) rest
Started-cons first klen c b (used_up h e) = used_up (rw (b, h)) e
Started-cons first klen c b (found before d e h f l) =
    found (c ∷ before) d (ap (◌∷◌ c) e) (rw (b, h)) f l

scan_start-Started :
    (first : ℕ → Bool) (klen vlen idx : ℕ) (val rest : Bytes)
    → vlen ≡ idx + length val
    → scan_start first klen vlen idx val ≡ some rest
    → Started first klen val rest
unfolding scan_start
scan_start-Started first klen vlen idx [] rest v e = used_up refl (ground arith)
scan_start-Started first klen vlen idx (c ∷ cs) rest v e = elim (Bool-cases (is_blank c)) [
  | inl b ↦
      Started-cons first klen c b
        (scan_start-Started first klen vlen (idx + 1) cs rest (omega arith) (ground arith))
  | inr n ↦ found [] c (ground arith) refl (ground arith) (ground arith)
]

scan_start-blank :
    (first : ℕ → Bool) (klen vlen idx : ℕ) (val : Bytes)
    → all is_blank val ≡ true
    → scan_start first klen vlen idx val ≡ some []
unfolding scan_start
scan_start-blank first klen vlen idx [] h = refl
scan_start-blank first klen vlen idx (c ∷ cs) h =
    let (b, bs) = &&-true (is_blank c) _ h in
    rw b (scan_start-blank first klen vlen (idx + 1) cs bs)

scan_start-found :
    (first : ℕ → Bool) (klen vlen idx : ℕ) (before : Bytes) (c : ℕ) (rest : Bytes)
    → all is_blank before ≡ true
    → is_blank c ≡ false
    → first c ≡ true
    → idx + length before + klen ≤ vlen
    → scan_start first klen vlen idx (before ++ (c ∷ rest)) ≡ some rest
unfolding scan_start
scan_start-found first klen vlen idx [] c rest h n f l = rw (n, f) (ground arith)
scan_start-found first klen vlen idx (b ∷ bs) c rest h n f l =
    let (blank, blanks) = &&-true (is_blank b) _ h in
    rw blank (scan_start-found first klen vlen (idx + 1) bs c rest blanks n f (omega arith))

-- The second loop, on enough bytes.
scan_rest_sound :
    (ws rest left : Bytes)
    → length ws ≤ length rest
    → scan_rest ws rest ≡ some left
    → (middle : Bytes) × (rest ≡ middle ++ left) × (map to_ascii_lowercase middle ≡ ws)
unfolding scan_rest
scan_rest_sound [] rest left l e = ([], ground arith, refl)
scan_rest_sound (w ∷ ws) [] left l e = absurd (omega arith)
scan_rest_sound (w ∷ ws) (c ∷ cs) left l e =
    let (middle, splits, same) = scan_rest_sound ws cs left (omega arith) (ground arith) in
    (c ∷ middle, ap (◌∷◌ c) splits, ground arith)

scan_rest_complete :
    (middle left : Bytes) → scan_rest (map to_ascii_lowercase middle) (middle ++ left) ≡ some left
unfolding scan_rest
scan_rest_complete [] left = refl
scan_rest_complete (c ∷ cs) left = ground (arith, scan_rest_complete cs left)

-- A keyword that begins with no blank, and the test for its first byte in either case.
module _ (first : ℕ → Bool) (w : ℕ) (ws : Bytes)
    (first_iff : (c : ℕ) → (first c ≡ true) ↔ (to_ascii_lowercase c ≡ w))
    (solid : is_blank w ≡ false) where
  Outcome : Bytes → Type 0
  Outcome val = Spells (w ∷ ws) val ⊎ IsBlankOf (suc (length ws)) val

  after_start :
      (val rest : Bytes)
      → suc (length ws) ≤ length val
      → Started first (suc (length ws)) val rest
      → scan_end (scan_rest ws rest) ≡ true
      → Outcome val
  unfolding Outcome scan_end scan_rest
  after_start val rest l (used_up h e) t = inr (h, l)
  after_start val rest l (found before c e h f room) t = elim (Option-cases (scan_rest ws rest)) [
    | inl bad ↦ cc
    | inr (left, good) ↦
        let (middle, splits, same) = scan_rest_sound ws rest left (omega arith) good in
        inl (record {
          before = before;
          middle = c ∷ middle;
          after = left;
          splits = e ∙ rw splits;
          blank_before = h;
          blank_after = rw good at t;
          same = ground (arith, (first_iff c).0 f);
        })
  ]

  is_keyword_sound : (val : Bytes) → is_keyword (suc (length ws)) first ws val ≡ true → Outcome val
  unfolding is_keyword
  is_keyword_sound val t = elim (Bool-cases (ltb (length val) (suc (length ws)))) [
    | inl short ↦ cc
    | inr long ↦ elim (Option-cases (scan_start first (suc (length ws)) (length val) 0 val)) [
      | inl bad ↦ cc
      | inr (rest, good) ↦
          after_start val rest (ground arith)
            (scan_start-Started first _ _ 0 val rest (omega arith) good) (rw (long, good) at t)
    ]
  ]

  blank-lower : (c : ℕ) → is_blank c ≡ true → to_ascii_lowercase c ≡ w → ⊥
  blank-lower c b e = ground arith

  -- The facts about the first byte of the keyword's spelling and about the others.
  first-Spells :
      (c : ℕ) (cs : Bytes)
      → map to_ascii_lowercase (c ∷ cs) ≡ w ∷ ws
      → (first c ≡ true) × (is_blank c ≡ false) × (map to_ascii_lowercase cs ≡ ws)
  first-Spells c cs e =
      let e' : to_ascii_lowercase c ≡ w = cc in
      (
        (first_iff c).1 e',
        elim (Bool-cases (is_blank c)) [ inl b ↦ absurd (blank-lower c b e') | inr n ↦ n ],
        cc,
      )

  is_keyword-split :
      (before middle after : Bytes)
      → all is_blank before ≡ true
      → all is_blank after ≡ true
      → map to_ascii_lowercase middle ≡ w ∷ ws
      → is_keyword (suc (length ws)) first ws (before ++ (middle ++ after)) ≡ true
  unfolding is_keyword scan_end
  is_keyword-split before [] after b a e = cc
  is_keyword-split before (c ∷ cs) after b a e =
      let (f, n, rest) = first-Spells c cs e in
      let lens : length cs ≡ length ws = sym (length-map cs to_ascii_lowercase) ∙ ap length rest in
      let total = length-append before (c ∷ (cs ++ after)) in
      let inner = length-append cs after in
      let vlen : ℕ = length (before ++ (c ∷ (cs ++ after))) in
      rw
        (
          le→ltb vlen (suc (length ws)) (omega arith),
          scan_start-found first (suc (length ws)) vlen 0 before c (cs ++ after) b n f
              (omega arith),
        )
        (rw (ap (λ ws. scan_rest ws (cs ++ after)) (sym rest)) (rw (scan_rest_complete cs after) a))

  scan_end-scan_rest_nil : (ws : Bytes) → scan_end (scan_rest ws []) ≡ true
  unfolding scan_rest scan_end
  scan_end-scan_rest_nil [] = refl
  scan_end-scan_rest_nil (v ∷ vs) = refl

  is_keyword-blank :
      (val : Bytes)
      → IsBlankOf (suc (length ws)) val
      → is_keyword (suc (length ws)) first ws val ≡ true
  unfolding is_keyword
  is_keyword-blank val (h, l) =
      rw (le→ltb (length val) (suc (length ws)) l, scan_start-blank first _ (length val) 0 val h)
        (scan_end-scan_rest_nil ws)

  pub is_keyword_iff :
      (val : Bytes)
      → (is_keyword (suc (length ws)) first ws val ≡ true)
        ↔ (Spells (w ∷ ws) val ⊎ IsBlankOf (suc (length ws)) val)
  unfolding Outcome
  is_keyword_iff val = (
    is_keyword_sound val,
    λ d. elim d [
      | inl s ↦
          rw s.splits
            (is_keyword-split s.before s.middle s.after s.blank_before s.blank_after s.same)
      | inr b ↦ is_keyword-blank val b
    ],
  )
