-- ===== src/Client/Examples.antt =====
-- Tests of the model of src/client/parser.rs, and its theorems at concrete inputs.
use minihttp.Base.{
  ℕ, ◌≤◌, ◌≡◌, refl, Bool, true, false, none, some, List, [], ◌∷◌, ◌++◌, Bytes, length, Result, ok,
  arith,
}
use minihttp.Base.Ascii.{codes}
use minihttp.Buffer.{vec_buffer}
use minihttp.Chunked.LineParser.{line_parser}
use minihttp.BodyProgress.{BodyProgress, check_buf, parse, consume}
use minihttp.RequestHead.{Header, parse_u64}
use minihttp.RequestHead.Head.{ParseError}
use minihttp.Utf8.{is_utf8}
use minihttp.Server.State.{ReadEvent, got, end_of_stream}
use minihttp.Client.Scan.{
  fixed, chunked, eof, buffered, Scan, kind_of, scan_header, scan_all, is_bodyless, scan_headers,
  new_body, premature_response_headers,
}
use minihttp.Client.Head.{
  Codec, Response, ParseStatus, whole, partial, ResponseParser, head_of, read_response,
  parse_headers, plain,
}
use minihttp.Client.Reader.{
  empty, started_normal, headers, body, Parser, Answer, complete, failed, body_round, read_body,
  read_headers, read_and_parse,
}
use minihttp.Client.Bodies.{Gets, read_body-fixed}
use minihttp.Client.StreamEnd.{IsReset, read_body-IsReset, GetsAll, read_body-eof}

-- A length and chunked coding.
abbrev both : List Header
both =
    record { name = codes "content-length"; value = codes "5" }
    ∷ record { name = codes "Transfer-Encoding"; value = codes "gzip, chunked" }
    ∷ []

abbrev scan_of_both : Scan
scan_of_both = record {
  has_content_length = true;
  connection = none;
  close = true;
  result = chunked;
}

-- The code 100 is not among those that have no body.
continue_test : (is_bodyless false 100 ≡ false) × (is_bodyless false 101 ≡ true)
unfolding is_bodyless
continue_test = (refl, refl)

-- A parser that reads every three bytes as one and the same response.
abbrev ok_response : Response
ok_response = record {
  version = 1;
  code = 200;
  reason = codes "OK";
  headers = record { name = codes "Content-Length"; value = codes "4" } ∷ [];
}

abbrev answer : Bytes → Result ParseError ParseStatus
answer (x ∷ y ∷ z ∷ rest) = ok (whole ok_response 3)
answer _ = ok partial

pub answer-le :
    (buf : Bytes) (r : Response) (bytes : ℕ)
    → answer buf ≡ ok (whole r bytes)
    → (1 ≤ bytes) × (bytes ≤ length buf)
answer-le buf r bytes e = ground arith

abbrev pub three_parser : ResponseParser
three_parser = record {
  parse_response = λ n buf. answer buf;
  response_within = λ n buf r bytes e. answer-le buf r bytes e;
}

-- The codec keeps the bytes it was given.
abbrev pub keeper : Codec Bytes (Unit {0})
keeper = record {
  headers_received = λ c h. (c, ok (buffered 10));
  data_received = λ c bytes done. (c ++ bytes, ok (some (length bytes)));
}

abbrev reader : List ReadEvent → Parser Bytes
reader evs = record {
  io = record { in_buf = []; closed = false };
  codec = [];
  close = false;
  state = headers;
  request_state = started_normal;
  close_signal = false;
  incoming = evs;
}

abbrev codec_of : Answer Bytes (Unit {0}) → Bytes
codec_of (complete x) = x.codec
codec_of a = codes "?"

-- The head and the body in three pieces, and more behind them.
read_and_parse_test :
    codec_of (
      read_and_parse ⦃o = vec_buffer⦄ ⦃p = line_parser⦄ ⦃q = three_parser⦄ keeper 9
        (reader (got (codes "ab") ∷ got (codes "cde") ∷ got (codes "fghij") ∷ [])))
    ≡ codes "defg"
unfolding read_and_parse read_headers read_body body_round parse_headers read_response head_of
    scan_headers is_bodyless scan_all scan_header kind_of parse_u64 is_utf8 new_body parse check_buf
    consume
read_and_parse_test = refl

-- A response to no request.
abbrev is_premature : Answer Bytes (Unit {0}) → Bool
is_premature (failed x (plain premature_response_headers)) = true
is_premature a = false

premature_test :
    is_premature (
      read_and_parse ⦃o = vec_buffer⦄ ⦃p = line_parser⦄ ⦃q = three_parser⦄ keeper 9
        (record (reader (got (codes "abc") ∷ [])) { request_state = empty }))
    ≡ true
unfolding read_and_parse read_headers
premature_test = refl

abbrev in_body : BodyProgress → List ReadEvent → Parser Bytes
in_body b evs = record (reader evs) {
  io = record { in_buf = codes "ab"; closed = false };
  state = body (buffered 10) b;
}

read_body-fixed_example :
    Gets ⦃o = vec_buffer⦄ ⦃p = line_parser⦄ keeper
      (in_body (BodyProgress.fixed 4) (got (codes "c") ∷ got (codes "de") ∷ []))
      (read_body ⦃o = vec_buffer⦄ ⦃p = line_parser⦄ keeper 5
        (in_body (BodyProgress.fixed 4) (got (codes "c") ∷ got (codes "de") ∷ []))
        (buffered 10)
        (BodyProgress.fixed 4))
      (codes "abcd")
      []
      (codes "e")
read_body-fixed_example =
    read_body-fixed ⦃o = vec_buffer⦄ ⦃p = line_parser⦄ keeper 5
      (in_body (BodyProgress.fixed 4) (got (codes "c") ∷ got (codes "de") ∷ [])) 4 10
      (codes "c" ∷ codes "de" ∷ []) [] (codes "abcd") refl refl (omega arith) (omega arith) refl
      (omega arith)

read_body-IsReset_example : IsReset ⦃o = vec_buffer⦄ ⦃p = line_parser⦄ keeper [] (
    read_body ⦃o = vec_buffer⦄ ⦃p = line_parser⦄ keeper 5
      (in_body (BodyProgress.fixed 4) (got (codes "c") ∷ end_of_stream ∷ []))
      (buffered 10)
      (BodyProgress.fixed 4))
read_body-IsReset_example =
    read_body-IsReset ⦃o = vec_buffer⦄ ⦃p = line_parser⦄ keeper 5
      (in_body (BodyProgress.fixed 4) (got (codes "c") ∷ end_of_stream ∷ [])) 4 10 (codes "c" ∷ [])
      [] refl refl (omega arith) (omega arith) (omega arith)

read_body-eof_example :
    GetsAll ⦃o = vec_buffer⦄ ⦃p = line_parser⦄ keeper
      (read_body ⦃o = vec_buffer⦄ ⦃p = line_parser⦄ keeper 5
        (in_body BodyProgress.eof (got (codes "c") ∷ end_of_stream ∷ []))
        (buffered 10)
        BodyProgress.eof)
      (codes "abc")
read_body-eof_example =
    read_body-eof ⦃o = vec_buffer⦄ ⦃p = line_parser⦄ keeper 5
      (in_body BodyProgress.eof (got (codes "c") ∷ end_of_stream ∷ [])) 10 (codes "c" ∷ []) []
      (codes "abc") refl refl (omega arith) refl (omega arith)
