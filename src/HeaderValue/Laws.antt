-- ===== src/HeaderValue/Laws.antt =====
-- What the tests of src/headers.rs accept.
use minihttp.Base.{◌≡◌, refl, ◌↔◌, ◌⊎◌}
use minihttp.Base.{true}
use minihttp.Base.{Bytes, arith}
use minihttp.Base.Ascii.{codes}
use minihttp.HeaderValue.{is_c, is_1, is_close, is_chunked, is_continue}
use minihttp.HeaderValue.Keyword.{Spells, IsBlankOf, is_keyword_iff}

-- `is_close` accepts exactly the word "close" in any case with blanks around it, and any run of
-- five or more blanks.
pub is_close_iff :
    (val : Bytes) → (is_close val ≡ true) ↔ (Spells (codes "close") val ⊎ IsBlankOf 5 val)
unfolding is_close
is_close_iff val = is_keyword_iff is_c b'c' (codes "lose") (λ c. ground arith) refl val

-- `is_chunked` accepts exactly the word "chunked" in any case with blanks around it, and any run
-- of seven or more blanks.
pub is_chunked_iff :
    (val : Bytes) → (is_chunked val ≡ true) ↔ (Spells (codes "chunked") val ⊎ IsBlankOf 7 val)
unfolding is_chunked
is_chunked_iff val = is_keyword_iff is_c b'c' (codes "hunked") (λ c. ground arith) refl val

-- `is_continue` accepts exactly the word "100-continue" in any case with blanks around it, and any
-- run of twelve or more blanks.
pub is_continue_iff :
    (val : Bytes)
    → (is_continue val ≡ true) ↔ (Spells (codes "100-continue") val ⊎ IsBlankOf 12 val)
unfolding is_continue
is_continue_iff val = is_keyword_iff is_1 b'1' (codes "00-continue") (λ c. ground arith) refl val
