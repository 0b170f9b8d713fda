-- ===== src/Serializer/Wire/Response.antt =====
-- The bytes of whole responses, written with the methods of src/base_serializer.rs.
use minihttp.Base.{
  ℕ, ◌≡◌, ◌≢◌, ap, ◌∙◌, Bool, true, false, List, [], ◌∷◌, ◌++◌, arith, Bytes, length, concat, All,
  returns, ok, append_assoc, append-nil, ==_refl,
}
use minihttp.Base.Ascii.{codes}
use minihttp.Base.Digits.{decimal}
use minihttp.Buffer.{Buffer, extend_lem}
use minihttp.Version.{Version}
use minihttp.Serializer.State.{
  response_start, headers, fixed_headers, chunked_headers, fixed_body, chunked_body, done, normal,
}
use minihttp.Serializer.Head.{
  crlf, invalid_header, is_body_length_name, is_bodyless_code, status_line, response_status,
  add_header, add_length, write_header, add_chunked,
}
use minihttp.Serializer.Finish.{done_headers}
use minihttp.Serializer.Lines.{header_line, write_header_lem, write_length, write_chunked}
use minihttp.Serializer.Trace.{Call, status, header, length_of, chunked, end_of_headers, call, run}
use minihttp.Serializer.Wire.{
  whole_body, chunks, last_chunk, run_step, run_fixed_body, run_chunked_body,
}

-- A header that `add_header` accepts.
abbrev pub IsValidHeader : Bytes × Bytes → Type 0
IsValidHeader (name, value) =
    (is_body_length_name name ≡ false)
    × (invalid_header name ≡ false)
    × (invalid_header value ≡ false)

abbrev pub header_calls : List (Bytes × Bytes) → List Call → List Call
header_calls [] rest = rest
header_calls ((name, value) ∷ hs) rest = header name value ∷ header_calls hs rest

abbrev pub header_lines : List (Bytes × Bytes) → Bytes
header_lines [] = []
header_lines ((name, value) ∷ hs) = header_line name value ++ header_lines hs

abbrev pub close_line : Bool → Bytes
close_line false = []
close_line true = header_line (codes "Connection") (codes "close")

abbrev pub length_line : ℕ → Bytes
length_line n = header_line (codes "Content-Length") (decimal n)

abbrev pub chunked_line : Bytes
chunked_line = header_line (codes "Transfer-Encoding") (codes "chunked")

module _ ⦃o : Buffer⦄ where
  call_header :
      (name value : Bytes) (close : Bool) (buf : Bytes)
      → IsValidHeader (name, value)
      → call (header name value) (headers normal close) buf
        ≡ returns (headers normal close, buf ++ header_line name value)
  unfolding call add_header
  call_header name value close buf (a, b, c) = ground (arith, write_header_lem buf name value)

  run_headers :
      (hs : List (Bytes × Bytes)) (rest : List Call) (close : Bool) (buf : Bytes)
      → All IsValidHeader hs
      → run (header_calls hs rest) (headers normal close) buf
        ≡ run rest (headers normal close) (buf ++ header_lines hs)
  run_headers [] rest close buf h = rw append-nil
  run_headers ((name, value) ∷ hs) rest close buf (h, hs') =
      run_step (header name value) (header_calls hs rest) (headers normal close) buf
        (call_header name value close buf h)
      ∙ run_headers hs rest close (buf ++ header_line name value) hs'
      ∙ ap (run rest (headers normal close))
          (append_assoc buf (header_line name value) (header_lines hs))

  call_status :
      (v : Version) (close : Bool) (buf : Bytes) (code : ℕ) (reason : Bytes)
      → code ≢ 100
      → is_bodyless_code code ≡ false
      → call (status code reason) (response_start v normal close) buf
        ≡ returns (headers normal close, buf ++ status_line v code reason)
  unfolding call response_status
  call_status v close buf code reason h b =
      ground (arith, extend_lem buf (status_line v code reason))

  call_length :
      (close : Bool) (buf : Bytes) (n : ℕ)
      → call (length_of n) (headers normal close) buf
        ≡ returns (fixed_headers false close n, buf ++ length_line n)
  unfolding call add_length
  call_length close buf n = ground (arith, write_length buf n)

  call_chunked :
      (close : Bool) (buf : Bytes)
      → call chunked (headers normal close) buf
        ≡ returns (chunked_headers false close, buf ++ chunked_line)
  unfolding call add_chunked
  call_chunked close buf = ground (arith, write_chunked buf)

  write_close :
      (buf : Bytes)
      → write_header buf (codes "Connection") (codes "close") ≡ (buf ++ close_line true, ok tt)
  unfolding invalid_header
  write_close buf = rw write_header_lem

  call_end_fixed :
      (close : Bool) (buf : Bytes) (n : ℕ)
      → call end_of_headers (fixed_headers false close n) buf
        ≡ returns (fixed_body false n, buf ++ (close_line close ++ crlf))
  unfolding call done_headers add_header is_body_length_name
  call_end_fixed false buf n = ground (arith, extend_lem buf crlf)
  call_end_fixed true buf n = ground (
    arith,
    write_close buf,
    extend_lem (buf ++ close_line true) crlf,
    append_assoc buf (close_line true) crlf,
  )

  call_end_chunked :
      (close : Bool) (buf : Bytes)
      → call end_of_headers (chunked_headers false close) buf
        ≡ returns (chunked_body false, buf ++ (close_line close ++ crlf))
  unfolding call done_headers add_header is_body_length_name
  call_end_chunked false buf = ground (arith, extend_lem buf crlf)
  call_end_chunked true buf = ground (
    arith,
    write_close buf,
    extend_lem (buf ++ close_line true) crlf,
    append_assoc buf (close_line true) crlf,
  )

  -- The calls of a response up to its headers, and what they write.
  run_head :
      (v : Version) (close : Bool) (buf : Bytes) (code : ℕ) (reason : Bytes)
      → (hs : List (Bytes × Bytes)) (rest : List Call) → code ≢ 100
      → is_bodyless_code code ≡ false
      → All IsValidHeader hs
      → run (status code reason ∷ header_calls hs rest) (response_start v normal close) buf
        ≡ run rest (headers normal close) (buf ++ status_line v code reason ++ header_lines hs)
  run_head v close buf code reason hs rest h b valid =
      run_step (status code reason) (header_calls hs rest) (response_start v normal close) buf
        (call_status v close buf code reason h b)
      ∙ run_headers hs rest close (buf ++ status_line v code reason) valid

  run_fixed_rest :
      (close : Bool) (buf : Bytes) (ds : List Bytes)
      → let n = length (concat ds) in
        run (length_of n ∷ end_of_headers ∷ whole_body ds) (headers normal close) buf
        ≡ returns (done, buf ++ length_line n ++ (close_line close ++ crlf) ++ concat ds)
  run_fixed_rest close buf ds =
      let n = length (concat ds) in
      run_step (length_of n) (end_of_headers ∷ whole_body ds) (headers normal close) buf
        (call_length close buf n)
      ∙ run_step end_of_headers (whole_body ds) (fixed_headers false close n) (buf ++ length_line n)
          (call_end_fixed close (buf ++ length_line n) n)
      ∙ run_fixed_body ds n (buf ++ length_line n ++ (close_line close ++ crlf))
      ∙ rw (==_refl n)

  run_chunked_rest :
      (close : Bool) (buf : Bytes) (ds : List Bytes)
      → run (chunked ∷ end_of_headers ∷ whole_body ds) (headers normal close) buf
        ≡ returns
            (done, buf ++ chunked_line ++ (close_line close ++ crlf) ++ (chunks ds ++ last_chunk))
  run_chunked_rest close buf ds =
      run_step chunked (end_of_headers ∷ whole_body ds) (headers normal close) buf
        (call_chunked close buf)
      ∙ run_step end_of_headers (whole_body ds) (chunked_headers false close) (buf ++ chunked_line)
          (call_end_chunked close (buf ++ chunked_line))
      ∙ run_chunked_body ds (buf ++ chunked_line ++ (close_line close ++ crlf))

  -- In a response that is not to HEAD, for a status code that is neither 100 nor bodyless and
  -- headers that `add_header` accepts, the calls `response_status`, the headers, `add_length` with
  -- the total length of the pieces, `done_headers`, `write_body` for each piece and `done` do not
  -- panic, and append the status line, the header lines, `Content-Length`, `Connection: close` if
  -- the connection is to be closed, the empty line and the body.
  pub run_fixed_response :
      (v : Version) (close : Bool) (buf : Bytes) (code : ℕ) (reason : Bytes)
      → (hs : List (Bytes × Bytes)) (ds : List Bytes) → code ≢ 100
      → is_bodyless_code code ≡ false
      → All IsValidHeader hs
      → let n = length (concat ds) in
        run
          (status code reason ∷ header_calls hs (length_of n ∷ end_of_headers ∷ whole_body ds))
          (response_start v normal close)
          buf
        ≡ returns (
          done,
          buf
              ++ status_line v code reason
              ++ header_lines hs
              ++ length_line n
              ++ (close_line close ++ crlf)
              ++ concat ds,
        )
  run_fixed_response v close buf code reason hs ds h b valid =
      let n = length (concat ds) in
      run_head v close buf code reason hs (length_of n ∷ end_of_headers ∷ whole_body ds) h b valid
      ∙ run_fixed_rest close (buf ++ status_line v code reason ++ header_lines hs) ds

  -- In a response that is not to HEAD, for a status code that is neither 100 nor bodyless and
  -- headers that `add_header` accepts, the calls `response_status`, the headers, `add_chunked`,
  -- `done_headers`, `write_body` for each piece and `done` do not panic, and append the status
  -- line, the header lines, `Transfer-Encoding: chunked`, `Connection: close` if the connection is
  -- to be closed, the empty line, one chunk for each piece that is not empty, and the last chunk.
  pub run_chunked_response :
      (v : Version) (close : Bool) (buf : Bytes) (code : ℕ) (reason : Bytes)
      → (hs : List (Bytes × Bytes)) (ds : List Bytes) → code ≢ 100
      → is_bodyless_code code ≡ false
      → All IsValidHeader hs
      → run
          (status code reason ∷ header_calls hs (chunked ∷ end_of_headers ∷ whole_body ds))
          (response_start v normal close)
          buf
        ≡ returns (
          done,
          buf
              ++ status_line v code reason
              ++ header_lines hs
              ++ chunked_line
              ++ (close_line close ++ crlf)
              ++ (chunks ds ++ last_chunk),
        )
  run_chunked_response v close buf code reason hs ds h b valid =
      run_head v close buf code reason hs (chunked ∷ end_of_headers ∷ whole_body ds) h b valid
      ∙ run_chunked_rest close (buf ++ status_line v code reason ++ header_lines hs) ds
