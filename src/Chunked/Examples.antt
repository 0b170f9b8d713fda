-- ===== src/Chunked/Examples.antt =====
-- The decoder of src/chunked.rs on concrete input.
use minihttp.Base.{◌≡◌, refl, some, [], ◌∷◌, ◌++◌, Bytes, returns, ok, err, arith}
use minihttp.Base.Ascii.{codes}
use minihttp.Base.Digits.{hex}
use minihttp.Buffer.{vec_buffer}
use minihttp.Serializer.Head.{crlf}
use minihttp.Serializer.Wire.{chunks}
use minihttp.Chunked.{invalid_chunk_size, new, read_size, turn, loop, start, parse}
use minihttp.Chunked.LineParser.{line_parser}
use minihttp.Chunked.Laws.{Parsed, Keeps, parse-Keeps}
use minihttp.Chunked.Rounds.{at_size, ended}
use minihttp.Chunked.Decode.{parse-chunks, parse_last, parse_after_end}

abbrev hello : Bytes
hello = codes "hello"

-- The test of the source.
simple_test :
    parse ⦃o = vec_buffer⦄ ⦃p = line_parser⦄ new (codes "4" ++ (crlf ++ (codes "hell" ++ crlf)))
    ≡ some (returns (at_size 4, codes "hell", ok tt))
unfolding parse new loop turn read_size start
simple_test = refl

parse-Keeps_example :
    (r : Parsed) × (parse ⦃o = vec_buffer⦄ ⦃p = line_parser⦄ (at_size 2) (codes "ab5") ≡ some r)
    × Keeps (at_size 2) (codes "ab5") r
parse-Keeps_example =
    parse-Keeps ⦃o = vec_buffer⦄ ⦃p = line_parser⦄ (at_size 2) (codes "ab5") (omega arith)

parse-chunks_example :
    parse ⦃o = vec_buffer⦄ ⦃p = line_parser⦄
      (at_size 2)
      (codes "ab" ++ chunks (hello ∷ codes "!" ∷ []))
    ≡ some (returns (at_size 8, codes "abhello!", ok tt))
parse-chunks_example =
    parse-chunks ⦃o = vec_buffer⦄ ⦃p = line_parser⦄ (hello ∷ codes "!" ∷ []) (codes "ab")
      (unfold hex in omega arith)

parse_last_example :
    parse ⦃o = vec_buffer⦄ ⦃p = line_parser⦄
      (at_size 2)
      (codes "ab" ++ (chunks (hello ∷ []) ++ (48 ∷ crlf)))
    ≡ some (returns (ended 7, codes "abhello", ok tt))
parse_last_example =
    parse_last ⦃o = vec_buffer⦄ ⦃p = line_parser⦄ (hello ∷ []) (codes "ab")
      (unfold hex in omega arith)

-- The rest of a last chunk is an empty line, which is no size line.
parse_after_end_example :
    parse ⦃o = vec_buffer⦄ ⦃p = line_parser⦄
      (at_size 0)
      (chunks (hello ∷ []) ++ (48 ∷ (crlf ++ codes "GET /")))
    ≡ some (returns (ended 5, codes "helloGET /", err invalid_chunk_size))
parse_after_end_example =
    parse_after_end ⦃o = vec_buffer⦄ ⦃p = line_parser⦄ (hello ∷ []) [] (codes "GET /")
      invalid_chunk_size (unfold hex in omega arith) (omega arith) refl
