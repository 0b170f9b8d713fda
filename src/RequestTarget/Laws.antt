-- ===== src/RequestTarget/Laws.antt =====
-- What the parser of src/server/request_target.rs takes apart, and what it refuses.
use minihttp.Base.{
  ℕ, ◌-◌, ◌≡◌, refl, ◌⊎◌, inl, inr, true, false, some, [], ◌∷◌, ◌++◌, Bytes, length, take, drop,
  any, ◌==◌, arith, Bool-cases, Option-cases, take-append-drop, &&-true, length-drop, drop-drop,
}
use minihttp.Base.Ascii.{codes, bytes_eq_iff}
use minihttp.RequestTarget.{
  RequestTarget, origin, absolute, authority, asterisk, authority_end_char, position, unwrap_or,
  starts_with, is_none, absolute_form, parse,
}

-- The text of a target.
abbrev pub text_of : RequestTarget → Bytes
text_of (origin s) = s
text_of (absolute scheme auth path) = scheme ++ (codes "://" ++ (auth ++ path))
text_of (authority s) = s
text_of asterisk = codes "*"

-- Empty, or beginning with a byte that ends an authority.
abbrev pub StartsPath : Bytes → Type 0
StartsPath [] = Unit {0}
StartsPath (x ∷ xs) = authority_end_char x ≡ true

-- What each form promises: an authority holds no byte that would end it.
abbrev pub IsTarget : RequestTarget → Type 0
IsTarget (origin s) = starts_with s (codes "/") ≡ true
IsTarget (absolute scheme auth path) =
    ((scheme ≡ codes "http") ⊎ (scheme ≡ codes "https"))
    × (any authority_end_char auth ≡ false)
    × StartsPath path
IsTarget (authority s) = any authority_end_char s ≡ false
IsTarget asterisk = Unit {0}

position-split :
    (s : Bytes)
    → let n = unwrap_or (position authority_end_char s) (length s) in
      (any authority_end_char (take n s) ≡ false) × StartsPath (drop n s)
unfolding position
position-split [] = (refl, tt)
position-split (x ∷ xs) = elim (Bool-cases (authority_end_char x)) [
  | inl e ↦ rw e (refl, e)
  | inr n ↦ elim (Option-cases (position authority_end_char xs)) [
    | inl missing ↦
        let (a, b) = position-split xs in rw (n, missing) (rw n (rw missing at a), rw missing at b)
    | inr (i, at_i) ↦
        let (a, b) = position-split xs in rw (n, at_i) (rw n (rw at_i at a), rw at_i at b)
  ]
]

position_none :
    (s : Bytes) → is_none (position authority_end_char s) ≡ true → any authority_end_char s ≡ false
unfolding position
position_none [] h = refl
position_none (x ∷ xs) h = ground (arith, position_none xs)

starts_with-split : (p s : Bytes) → starts_with s p ≡ true → p ++ drop (length p) s ≡ s
starts_with-split [] s h = refl
starts_with-split (p ∷ ps) [] h = cc
starts_with-split (p ∷ ps) (x ∷ xs) h =
    let (same, rest) = &&-true (x == p) _ h in ground (arith, starts_with-split ps xs rest)

position-split_drop :
    (n : ℕ) (s : Bytes)
    → let k = unwrap_or (position authority_end_char (drop n s)) (length s - n) in
      (any authority_end_char (take k (drop n s)) ≡ false) × StartsPath (drop k (drop n s))
position-split_drop n s = let split = position-split (drop n s) in rw (length-drop n s) at split

absolute_form-IsTarget :
    (scheme : Bytes) (n : ℕ) (s : Bytes) {t : RequestTarget}
    → (scheme ≡ codes "http") ⊎ (scheme ≡ codes "https")
    → scheme ++ (codes "://" ++ drop n s) ≡ s
    → absolute_form scheme n s ≡ t
    → (text_of t ≡ s) × IsTarget t
unfolding absolute_form
absolute_form-IsTarget scheme n s which e q =
    let k : ℕ = unwrap_or (position authority_end_char (drop n s)) (length s - n) in
    let (free, path) = position-split_drop n s in
    rw (← q) (rw (← drop-drop n k s) (rw (take-append-drop k (drop n s)) e, (which, free, path)))

-- If a request target is accepted, the text of its parts joined is the input; the path of the
-- origin form begins with a slash, the scheme of the absolute form is `http` or `https`, no
-- authority holds one of `/`, `?`, `#`, `@`, and the path of the absolute form is empty or begins
-- with one of them.
pub parse-text : (s : Bytes) (t : RequestTarget) → parse s ≡ some t → (text_of t ≡ s) × IsTarget t
unfolding parse
parse-text s t h = elim (Bool-cases (length s == 0)) [
  | inl z ↦ absurd (ground arith)
  | inr nz ↦ elim (Bool-cases (starts_with s (codes "/"))) [
    | inl slash ↦ ground arith
    | inr other ↦ elim (Bool-cases (starts_with s (codes "http://"))) [
      | inl http ↦
          absolute_form-IsTarget (codes "http") 7 s (inl refl)
            (starts_with-split (codes "http://") s http) (ground arith)
      | inr no_http ↦ elim (Bool-cases (starts_with s (codes "https://"))) [
        | inl https ↦
            absolute_form-IsTarget (codes "https") 8 s (inr refl)
              (starts_with-split (codes "https://") s https) (ground arith)
        | inr no_https ↦ ground (arith, (bytes_eq_iff s (codes "*")).0, position_none s)
      ]
    ]
  ]
]
