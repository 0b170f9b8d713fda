-- ===== src/BodyProgress/Examples.antt =====
-- The reader of a body of src/body_parser.rs on concrete input.
use minihttp.Base.{◌≤◌, ◌≡◌, refl, true, false, panic, arith}
use minihttp.Base.Ascii.{codes}
use minihttp.Buffer.{vec_buffer}
use minihttp.Chunked.Rounds.{at_size}
use minihttp.BodyProgress.{fixed, eof, chunked, ReadBuf, check_buf, consume}

abbrev hello_io : ReadBuf
hello_io = record { in_buf = codes "hello!"; closed = false }

check_buf_test :
    (check_buf (fixed 5) hello_io ≡ (5, true))
    × (check_buf (fixed 9) hello_io ≡ (6, false))
    × (check_buf (chunked (at_size 2)) hello_io ≡ (2, false))
    × (check_buf eof hello_io ≡ (6, false))
unfolding check_buf
check_buf_test = (refl, refl, refl, refl)

too_much_test : consume ⦃o = vec_buffer⦄ (fixed 3) hello_io 4 ≡ panic
unfolding consume
too_much_test = refl

offered_test : 3 ≤ (check_buf (fixed 5) hello_io).0
unfolding check_buf
offered_test = omega arith
