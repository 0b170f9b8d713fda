-- ===== src/HeaderValue/Examples.antt =====
-- The tests of src/headers.rs.
use minihttp.Base.{◌≡◌, refl, true, false}
use minihttp.Base.Ascii.{codes}
use minihttp.HeaderValue.{is_close, is_chunked, is_continue}

is_close_test :
    (is_close (codes "clOSE") ≡ true)
    × (is_close (codes "   close   ") ≡ true)
    × (is_close (codes "Close  1 ") ≡ false)
    × (is_close (codes " xclose   ") ≡ false)
unfolding is_close
is_close_test = (refl, refl, refl, refl)

is_chunked_test :
    (is_chunked (codes "chuNKED") ≡ true)
    × (is_chunked (codes "   CHUNKED  ") ≡ true)
    × (is_chunked (codes "   CHUNKED 1 ") ≡ false)
unfolding is_chunked
is_chunked_test = (refl, refl, refl)

is_continue_test :
    (is_continue (codes "100-conTINUE") ≡ true)
    × (is_continue (codes "   100-continue   ") ≡ true)
    × (is_continue (codes "100-continue y  ") ≡ false)
    × (is_continue (codes "100-coztinue   ") ≡ false)
unfolding is_continue
is_continue_test = (refl, refl, refl, refl)

-- Blanks alone are accepted.
blank_test :
    (is_close (codes "     ") ≡ true)
    × (is_chunked (codes "       ") ≡ true)
    × (is_continue (codes "            ") ≡ true)
unfolding is_close is_chunked is_continue
blank_test = (refl, refl, refl)
