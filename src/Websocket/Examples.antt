-- ===== src/Websocket/Examples.antt =====
-- The tests of src/websocket/zero_copy.rs, and frames on concrete input.
use minihttp.Base.{
  ◌+◌, ◌≤◌, ◌≡◌, refl, true, false, none, some, [], ◌∷◌, ◌++◌, Bytes, length, arith, ◌==◌, bit_and,
  returns, ok, err,
}
use minihttp.Base.Ascii.{codes}
use minihttp.Buffer.{vec_buffer}
use minihttp.Utf8.{is_utf8, trim}
use minihttp.Websocket.Frame.{
  ping, text, close, too_long, unmasked, fragmented, invalid_utf8, invalid_opcode, big_endian_order,
}
use minihttp.Websocket.Parse.{size_field, decode, open_frame, parse}
use minihttp.Websocket.Write.{packet_head, write_packet, write}
use minihttp.Websocket.RoundTrip.Frames.{parse-write}
use minihttp.Websocket.Bounds.{parse-append, parse_takes, parse_waits}
use minihttp.Websocket.Bounds.Incomplete.{parse_incomplete}
use minihttp.Websocket.Codec.{server_encode, client_encode, server_decode, client_decode}
use minihttp.Websocket.Codec.Laws.{server_decode-client_encode, client_decode-server_encode}

abbrev hello : Bytes
hello = codes "hello"

hello-is_utf8 : is_utf8 hello ≡ true
unfolding is_utf8
hello-is_utf8 = refl

abbrev key : Bytes
key = 1 ∷ 2 ∷ 3 ∷ 4 ∷ []

-- "hello" as an unmasked text frame.
abbrev small : Bytes
small = 0x81 ∷ 5 ∷ hello

empty_frame_test : parse ⦃e = big_endian_order⦄ [] 1000 true ≡ ([], ok none)
unfolding parse
empty_frame_test = refl

invalid_close_frame_test :
    (parse ⦃e = big_endian_order⦄ (0x88 ∷ 0x80 ∷ 0 ∷ 0 ∷ 0 ∷ 0 ∷ []) 1000 true).1
    ≡ ok (some (close 1006 [], 6))
unfolding parse open_frame decode size_field
invalid_close_frame_test = refl

small_test : (parse ⦃e = big_endian_order⦄ small 1000 false).1 ≡ ok (some (text hello, 7))
unfolding parse open_frame decode size_field is_utf8
small_test = refl

too_long_test : (parse ⦃e = big_endian_order⦄ small 4 false).1 ≡ err too_long
unfolding parse size_field
too_long_test = refl

unmasked_test : (parse ⦃e = big_endian_order⦄ (small ++ small) 1000 true).1 ≡ err unmasked
unfolding parse open_frame decode size_field
unmasked_test = refl

fragmented_test : (parse ⦃e = big_endian_order⦄ (1 ∷ 5 ∷ hello) 1000 false).1 ≡ err fragmented
unfolding parse open_frame decode size_field
fragmented_test = refl

invalid_utf8_test :
    (parse ⦃e = big_endian_order⦄ (0x81 ∷ 2 ∷ 0xc0 ∷ 0x80 ∷ []) 1000 false).1 ≡ err invalid_utf8
unfolding parse open_frame decode size_field is_utf8
invalid_utf8_test = refl

invalid_opcode_test :
    (parse ⦃e = big_endian_order⦄ (0x83 ∷ 0 ∷ []) 1000 false).1 ≡ err (invalid_opcode 3)
unfolding parse open_frame decode size_field
invalid_opcode_test = refl

-- A character of each length; a surrogate and a number that is too large.
is_utf8_test :
    (is_utf8 (0x24 ∷ 0xc2 ∷ 0xa2 ∷ 0xe2 ∷ 0x82 ∷ 0xac ∷ 0xf0 ∷ 0x90 ∷ 0x8d ∷ 0x88 ∷ []) ≡ true)
    × (is_utf8 (0xed ∷ 0xa0 ∷ 0x80 ∷ []) ≡ false)
    × (is_utf8 (0xf4 ∷ 0x90 ∷ 0x80 ∷ 0x80 ∷ []) ≡ false)
    × (is_utf8 (0xe2 ∷ 0x82 ∷ []) ≡ false)
unfolding is_utf8
is_utf8_test = (refl, refl, refl, refl)

trim_test :
    trim (32 ∷ 9 ∷ 0xc2 ∷ 0xa0 ∷ codes "a b" ++ (0xe3 ∷ 0x80 ∷ 0x80 ∷ 10 ∷ [])) ≡ codes "a b"
unfolding trim
trim_test = refl

parse-write_example :
    (wire : Bytes) × (opened : Bytes) × (write ⦃o = vec_buffer⦄ (close 1000 hello) [] true key
      ≡ returns wire)
    × (length opened ≡ length wire)
    × (parse ⦃e = big_endian_order⦄ (wire ++ small) 1000 true
        ≡ (opened ++ small, ok (some (close 1000 hello, length wire))))
parse-write_example =
    parse-write ⦃o = vec_buffer⦄ ⦃e = big_endian_order⦄ (close 1000 hello) [] small true key 1000
      (omega arith, hello-is_utf8, omega arith, omega arith) (omega arith) (omega arith)
      (omega arith)

server_decode-client_encode_example :
    (wire : Bytes) × (client_encode ⦃o = vec_buffer⦄ (text hello) [] key ≡ returns wire)
    × (server_decode ⦃o = vec_buffer⦄ ⦃e = big_endian_order⦄ (wire ++ small)
        ≡ (small, ok (some (text hello))))
server_decode-client_encode_example =
    server_decode-client_encode ⦃o = vec_buffer⦄ ⦃e = big_endian_order⦄ (text hello) [] small key
      (omega arith, hello-is_utf8) (omega arith) (omega arith)

client_decode-server_encode_example :
    (wire : Bytes) × (server_encode ⦃o = vec_buffer⦄ (ping hello) small ≡ returns (small ++ wire))
    × (client_decode ⦃o = vec_buffer⦄ ⦃e = big_endian_order⦄ (wire ++ small)
        ≡ (small, ok (some (ping hello))))
client_decode-server_encode_example =
    client_decode-server_encode ⦃o = vec_buffer⦄ ⦃e = big_endian_order⦄ (ping hello) small small
      (omega arith) (omega arith)

parse-append_example : parse ⦃e = big_endian_order⦄ (small ++ key) 1000 false ≡ (
  (parse ⦃e = big_endian_order⦄ small 1000 false).0 ++ key,
  (parse ⦃e = big_endian_order⦄ small 1000 false).1,
)
parse-append_example =
    parse-append ⦃e = big_endian_order⦄ small key 1000 false
      (unfold parse open_frame decode size_field is_utf8 in λ h. cc)

parse_takes_example :
    (2 ≤ 7)
    × (7 ≤ length small)
    × (7 ≤ 1000 + 14)
    × (length (parse ⦃e = big_endian_order⦄ small 1000 false).0 ≡ length small)
    × ((bit_and 0x81 0x80 == 0) ≡ false)
    × ((bit_and 5 0x80 == 0) ≡ true)
parse_takes_example = parse_takes ⦃e = big_endian_order⦄ small 1000 false (text hello) 7 small_test

parse_waits_example :
    parse ⦃e = big_endian_order⦄ (0x81 ∷ 5 ∷ codes "hell") 1000 false
    ≡ (0x81 ∷ 5 ∷ codes "hell", ok none)
parse_waits_example =
    parse_waits ⦃e = big_endian_order⦄ (0x81 ∷ 5 ∷ codes "hell") 1000 false
      (unfold parse size_field in refl)

parse_incomplete_example :
    parse ⦃e = big_endian_order⦄ (0x81 ∷ 5 ∷ codes "he") 1000 false
    ≡ (0x81 ∷ 5 ∷ codes "he", ok none)
parse_incomplete_example =
    parse_incomplete ⦃o = vec_buffer⦄ ⦃e = big_endian_order⦄ (text hello) false [] 1000
      (0x81 ∷ 5 ∷ codes "he") b'l' (codes "lo") (omega arith, hello-is_utf8) tt (omega arith)
      (omega arith) (unfold write write_packet packet_head in refl)
