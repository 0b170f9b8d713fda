-- ===== src/HeaderValue.antt =====
-- The tests on header values of src/headers.rs.
pub mod Keyword
pub mod Laws
mod Examples
use minihttp.Base.{ℕ, ◌+◌, Bool, true, false, ◌||◌, Option, none, some, [], ◌∷◌, ◌-◌}
use minihttp.Base.{Bytes, length, all, ltb, ◌==◌, if◌then◌else◌}
use minihttp.Base.Ascii.{codes, is_blank, to_ascii_lowercase}

-- The first loop, from index `idx` on: blanks are skipped up to the first byte of the keyword,
-- which must leave room for the `klen` bytes of the keyword within the `vlen` of the value.
-- `none` is `return false`; `some` holds what the iterator has left when the loop ends, by `break`
-- or because the value is used up.
scan_start : (ℕ → Bool) → ℕ → ℕ → ℕ → Bytes → Option Bytes
scan_start first klen vlen idx [] = some []
scan_start first klen vlen idx (ch ∷ rest) =
    if is_blank ch
    then scan_start first klen vlen (idx + 1) rest
    else if first ch
    then if ltb vlen (idx + klen) then none else some rest
    else none

-- The second loop, `iter.by_ref().take(n).enumerate()` against the other bytes of the keyword.
scan_rest : Bytes → Bytes → Option Bytes
scan_rest [] rest = some rest
scan_rest (w ∷ ws) [] = some []
scan_rest (w ∷ ws) (ch ∷ rest) = if w == to_ascii_lowercase ch then scan_rest ws rest else none

-- The third loop: only blanks may follow.
scan_end : Option Bytes → Bool
scan_end none = false
scan_end (some rest) = all is_blank rest

then_rest : Bytes → Option Bytes → Option Bytes
then_rest ws none = none
then_rest ws (some rest) = scan_rest ws rest

-- The three functions differ in the keyword alone: its length, the bytes that may begin it, and
-- the other bytes in lower case.
pub is_keyword : ℕ → (ℕ → Bool) → Bytes → Bytes → Bool
unfolding scan_start scan_rest scan_end then_rest
is_keyword klen first ws val =
    if ltb (length val) klen
    then false
    else scan_end (then_rest ws (scan_start first klen (length val) 0 val))

abbrev is_c : ℕ → Bool
is_c c = c == b'c' || c == b'C'

abbrev is_1 : ℕ → Bool
is_1 c = c == b'1'

unfoldable pub is_close : Bytes → Bool
unfolding is_keyword
is_close val = is_keyword 5 is_c (codes "lose") val

unfoldable pub is_chunked : Bytes → Bool
unfolding is_keyword
is_chunked val = is_keyword 7 is_c (codes "hunked") val

unfoldable pub is_continue : Bytes → Bool
unfolding is_keyword
is_continue val = is_keyword 12 is_1 (codes "00-continue") val
