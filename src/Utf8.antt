-- ===== src/Utf8.antt =====
-- `std::str::from_utf8`, which checks text in src/websocket/zero_copy.rs and src/server/headers.rs.
use mathlib.Core.List.{reverse, reverse-cons, reverse-append, reverse-reverse}
use minihttp.Base.{
  drop, length, zero, suc, ℕ, ◌-◌, Bool, false, ◌&&◌, ◌||◌, Option, none, some, [], ◌∷◌, Bytes,
}
use minihttp.Base.{
  ltb, leb, ◌==◌, if◌then◌else◌, ◌≡◌, ◌≢◌, ◌≤◌, ◌⊎◌, true, suc, refl, All, ◌++◌, arith,
  length-append, append-nil, List,
}
use minihttp.Base.Digits.{All-append}

abbrev between : ℕ → ℕ → ℕ → Bool
between lo hi b = leb lo b && leb b hi

-- How many continuation bytes follow, and the range of the next one.
abbrev Expect : Type 0
Expect = ℕ × ℕ × ℕ

-- The first byte of a character.
lead : ℕ → Option Expect
lead b =
    if ltb b 0x80
    then some (0, 0x80, 0xbf)
    else if between 0xc2 0xdf b
    then some (1, 0x80, 0xbf)
    else if b == 0xe0
    then some (2, 0xa0, 0xbf)
    else if between 0xe1 0xec b || between 0xee 0xef b
    then some (2, 0x80, 0xbf)
    else if b == 0xed
    then some (2, 0x80, 0x9f)
    else if b == 0xf0
    then some (3, 0x90, 0xbf)
    else if between 0xf1 0xf3 b
    then some (3, 0x80, 0xbf)
    else if b == 0xf4
    then some (3, 0x80, 0x8f)
    else none

advance : Expect → ℕ → Option Expect
advance (need, lo, hi) b =
    if need == 0 then lead b else if between lo hi b then some (need - 1, 0x80, 0xbf) else none

utf8_from : Expect → Bytes → Bool
utf8_from (need, lo, hi) [] = need == 0
utf8_from e (b ∷ bs) = elim (advance e b) [ none ↦ false | some e' ↦ utf8_from e' bs ]

unfoldable pub is_utf8 : Bytes → Bool
unfolding utf8_from advance lead
is_utf8 bytes = utf8_from (0, 0x80, 0xbf) bytes

-- White space at the front of a text, as `str::trim` takes it: by the Unicode property, in UTF-8.
abbrev is_space : ℕ → Bool
is_space c = between 9 13 c || c == 32

abbrev is_space_2 : ℕ → ℕ → Bool
is_space_2 a b = a == 0xc2 && (b == 0x85 || b == 0xa0)

abbrev is_space_3 : ℕ → ℕ → ℕ → Bool
is_space_3 a b c =
    (a == 0xe1 && b == 0x9a && c == 0x80)
    || (a == 0xe2 && b == 0x80 && (between 0x80 0x8a c || c == 0xa8 || c == 0xa9 || c == 0xaf))
    || (a == 0xe2 && b == 0x81 && c == 0x9f)
    || (a == 0xe3 && b == 0x80 && c == 0x80)

-- How many bytes the white space at the front of a text takes, 0 if there is none.
space_front : Bytes → ℕ
space_front [] = 0
space_front (a ∷ []) = if is_space a then 1 else 0
space_front (a ∷ b ∷ []) = if is_space a then 1 else if is_space_2 a b then 2 else 0
space_front (a ∷ b ∷ c ∷ r) =
    if is_space a then 1 else if is_space_2 a b then 2 else if is_space_3 a b c then 3 else 0

-- The same at the end, of the reversed text.
space_back : Bytes → ℕ
space_back [] = 0
space_back (a ∷ []) = if is_space a then 1 else 0
space_back (b ∷ a ∷ []) = if is_space b then 1 else if is_space_2 a b then 2 else 0
space_back (c ∷ b ∷ a ∷ r) =
    if is_space c then 1 else if is_space_2 b c then 2 else if is_space_3 a b c then 3 else 0

strip : (Bytes → ℕ) → ℕ → Bytes → Bytes
strip front zero s = s
strip front (suc fuel) s =
    let rest = strip front fuel (drop (front s) s) in if front s == 0 then s else rest

-- Each round takes a byte at least.
unfoldable pub trim : Bytes → Bytes
unfolding strip space_front space_back
trim s =
    let t : Bytes = strip space_front (length s) s in
    reverse (strip space_back (length t) (reverse t))

-- What stands around a name in a list, and what may stand in a name.
abbrev pub IsPad : ℕ → Type 0
IsPad b = (b ≡ 32) ⊎ (b ≡ 9)

abbrev pub IsNameByte : ℕ → Type 0
IsNameByte b = (33 ≤ b) × (b ≤ 126) × (b ≢ b',')

strip-pad :
    (front : Bytes → ℕ) (ws t : Bytes) (fuel : ℕ)
    → ((b : ℕ) (r : Bytes) → IsPad b → front (b ∷ r) ≡ 1)
    → All IsPad ws
    → front t ≡ 0
    → length ws ≤ fuel
    → strip front fuel (ws ++ t) ≡ t
unfolding strip
strip-pad front [] t zero one a e l = refl
strip-pad front [] t (suc fuel) one a e l = rw e refl
strip-pad front (w ∷ ws) t zero one a e l = absurd (omega arith)
strip-pad front (w ∷ ws) t (suc fuel) one (a, as') e l =
    rw (one w (ws ++ t) a) (strip-pad front ws t fuel one as' e (omega arith))

pad-is_space : (b : ℕ) → IsPad b → is_space b ≡ true
pad-is_space b h = ground arith

space_front-pad : (b : ℕ) (r : Bytes) → IsPad b → space_front (b ∷ r) ≡ 1
unfolding space_front
space_front-pad b [] h = rw (pad-is_space b h) refl
space_front-pad b (c ∷ []) h = rw (pad-is_space b h) refl
space_front-pad b (c ∷ d ∷ r) h = rw (pad-is_space b h) refl

space_back-pad : (b : ℕ) (r : Bytes) → IsPad b → space_back (b ∷ r) ≡ 1
unfolding space_back
space_back-pad b [] h = rw (pad-is_space b h) refl
space_back-pad b (c ∷ []) h = rw (pad-is_space b h) refl
space_back-pad b (c ∷ d ∷ r) h = rw (pad-is_space b h) refl

space_front-name : (b : ℕ) (r : Bytes) → IsNameByte b → space_front (b ∷ r) ≡ 0
unfolding space_front
space_front-name b [] h = ground arith
space_front-name b (c ∷ []) h = ground arith
space_front-name b (c ∷ d ∷ r) h = ground arith

space_back-name : (b : ℕ) (r : Bytes) → IsNameByte b → space_back (b ∷ r) ≡ 0
unfolding space_back
space_back-name b [] h = ground arith
space_back-name b (c ∷ []) h = ground arith
space_back-name b (c ∷ d ∷ r) h = ground arith

All-reverse : {A : Type 0} (P : A → Type 0) (xs : List A) → All P xs → All P (reverse xs)
All-reverse P [] h = tt
All-reverse P (x ∷ xs) (hx, hxs) =
    rw (reverse-cons x xs) (All-append P (reverse xs) (x ∷ []) (All-reverse P xs hxs) (hx, tt))

length-reverse : {A : Type 0} (xs : List A) → length (reverse xs) ≡ length xs
length-reverse [] = refl
length-reverse (x ∷ xs) =
    let joined = length-append (reverse xs) (x ∷ []) in
    let same = length-reverse xs in rw (reverse-cons x xs) (omega arith)

-- The white space at either end of a name is none.
space-name :
    (front : Bytes → ℕ) (n r : Bytes)
    → ((b : ℕ) (t : Bytes) → IsNameByte b → front (b ∷ t) ≡ 0)
    → All IsNameByte n
    → 1 ≤ length n
    → front (n ++ r) ≡ 0
space-name front [] r stops a l = absurd (omega arith)
space-name front (b ∷ bs) r stops (a, as') l = stops b (bs ++ r) a

-- `trim` leaves a name of what stands around it.
pub trim-name :
    (ws n vs : Bytes)
    → All IsPad ws
    → All IsNameByte n
    → 1 ≤ length n
    → All IsPad vs
    → trim (ws ++ (n ++ vs)) ≡ n
unfolding trim
trim-name ws n vs hw hn l hv =
    let fore =
      strip-pad space_front ws (n ++ vs) (length (ws ++ (n ++ vs))) space_front-pad hw
        (space-name space_front n vs space_front-name hn l)
        (omega (arith, length-append ws (n ++ vs))) in
    let back =
      strip-pad space_back (reverse vs) (reverse n) (length (n ++ vs)) space_back-pad
        (All-reverse IsPad vs hv)
        (rw (append-nil (reverse n)) at (
          space-name space_back (reverse n) [] space_back-name (All-reverse IsNameByte n hn)
            (omega (arith, length-reverse n))))
        (omega (arith, length-append n vs, length-reverse vs)) in
    rw (fore, reverse-append n vs, back) (reverse-reverse n)
