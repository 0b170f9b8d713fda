-- ===== src/Serializer/Examples.antt =====
-- Messages of src/base_serializer.rs on concrete input, and its tests.
use minihttp.Base.{
  ◌+◌, ◌≤◌, ◌≡◌, refl, true, false, List, [], ◌∷◌, ◌++◌, Bytes, length, arith, panic, returns, ok,
  err,
}
use minihttp.Base.Ascii.{codes}
use minihttp.Buffer.{vec_buffer}
use minihttp.Version.{http10, http11}
use minihttp.Serializer.State.{
  response_start, request_start, headers, fixed_body, chunked_body, done, normal, head, denied,
  cant_determine_body_size,
}
use minihttp.Serializer.Head.{
  crlf, invalid_header, is_body_length_name, is_bodyless_code, status_line, response_status,
  request_line, add_header, add_length, write_header,
}
use minihttp.Serializer.Finish.{done_headers, write_body, finish}
use minihttp.Serializer.Lines.{IsHeaderOutcome, header_line, add_header_outcome}
use minihttp.Serializer.Trace.{
  Call, status, request, length_of, chunked, end_of_headers, body, end_of_message, call, run,
  all_accepted,
}
use minihttp.Serializer.Trace.Phases.{at_most_one_length}
use minihttp.Serializer.Trace.Lengths.{IsDenied, length-fixed_body, bodyless_response}
use minihttp.Serializer.Wire.{whole_body, chunks, last_chunk}
use minihttp.Serializer.Wire.Response.{
  header_lines, close_line, length_line, chunked_line, header_calls, run_fixed_response,
  run_chunked_response,
}

abbrev hello : Bytes
hello = codes "hello"

abbrev server_name : Bytes × Bytes
server_name = (codes "Server", codes "x")

-- A request without a body.
minimal_request_test :
    run ⦃o = vec_buffer⦄
      (request (codes "GET") (codes "/") http10 ∷ end_of_headers ∷ end_of_message ∷ [])
      request_start
      []
    ≡ returns (done, codes "GET / HTTP/1.0" ++ (crlf ++ crlf))
unfolding run call request_line done_headers finish
minimal_request_test = refl

-- A response to HEAD without a body length panics.
head_without_length_test : done_headers ⦃o = vec_buffer⦄ (headers head false) [] ≡ panic
unfolding done_headers
head_without_length_test = refl

-- If the connection is to be closed, a header is written before the headers are refused.
close_before_error_test :
    done_headers ⦃o = vec_buffer⦄ (headers normal true) []
    ≡ returns (
      headers normal true,
      header_line (codes "Connection") (codes "close"),
      err cant_determine_body_size,
    )
unfolding done_headers add_header write_header is_body_length_name invalid_header
close_before_error_test = refl

valid_header_test : invalid_header (codes "Server") ≡ false
unfolding invalid_header
valid_header_test = refl

valid_value_test : invalid_header (codes "x") ≡ false
unfolding invalid_header
valid_value_test = refl

other_name_test : is_body_length_name (codes "Server") ≡ false
unfolding is_body_length_name
other_name_test = refl

with_body_test : is_bodyless_code 200 ≡ false
unfolding is_bodyless_code
with_body_test = refl

without_body_test : is_bodyless_code 304 ≡ true
unfolding is_bodyless_code
without_body_test = refl

run_fixed_response_example :
    run ⦃o = vec_buffer⦄
      (status 200 (codes "OK")
        ∷ header_calls
            (server_name ∷ [])
            (length_of 6 ∷ end_of_headers ∷ whole_body (hello ∷ codes "!" ∷ [])))
      (response_start http11 normal true)
      []
    ≡ returns (
      done,
      status_line http11 200 (codes "OK")
          ++ header_lines (server_name ∷ [])
          ++ length_line 6
          ++ (close_line true ++ crlf)
          ++ codes "hello!",
    )
run_fixed_response_example =
    run_fixed_response ⦃o = vec_buffer⦄ http11 true [] 200 (codes "OK") (server_name ∷ [])
      (hello ∷ codes "!" ∷ []) (omega arith) with_body_test
      ((other_name_test, valid_header_test, valid_value_test), tt)

run_chunked_response_example :
    run ⦃o = vec_buffer⦄
      (status 200 (codes "OK")
        ∷ header_calls
            (server_name ∷ [])
            (chunked ∷ end_of_headers ∷ whole_body (hello ∷ [] ∷ codes "!" ∷ [])))
      (response_start http11 normal false)
      []
    ≡ returns (
      done,
      status_line http11 200 (codes "OK")
          ++ header_lines (server_name ∷ [])
          ++ chunked_line
          ++ (close_line false ++ crlf)
          ++ (chunks (hello ∷ codes "!" ∷ []) ++ last_chunk),
    )
run_chunked_response_example =
    run_chunked_response ⦃o = vec_buffer⦄ http11 false [] 200 (codes "OK") (server_name ∷ [])
      (hello ∷ [] ∷ codes "!" ∷ []) (omega arith) with_body_test
      ((other_name_test, valid_header_test, valid_value_test), tt)

add_header_outcome_example :
    IsHeaderOutcome
      (headers normal false)
      []
      (codes "Server")
      (codes "x")
      (headers normal false, header_line (codes "Server") (codes "x"), ok tt)
add_header_outcome_example =
    add_header_outcome ⦃o = vec_buffer⦄ (headers normal false) [] (codes "Server") (codes "x")
      (headers normal false) (header_line (codes "Server") (codes "x")) (ok tt)
      (unfold add_header write_header is_body_length_name invalid_header in refl)

-- A body of five bytes in two pieces.
abbrev two_pieces : List Call
two_pieces = body (codes "hel") ∷ body (codes "lo") ∷ end_of_message ∷ []

two_pieces_test :
    run ⦃o = vec_buffer⦄ two_pieces (fixed_body false 5) (codes "x")
    ≡ returns (done, codes "xhello")
unfolding run call write_body finish
two_pieces_test = refl

length-fixed_body_example : length (codes "xhello") ≡ length (codes "x") + 5
length-fixed_body_example =
    length-fixed_body ⦃o = vec_buffer⦄ two_pieces 5 (codes "x") (codes "xhello") two_pieces_test

quiet_test :
    run ⦃o = vec_buffer⦄ two_pieces (chunked_body true) (codes "x") ≡ returns (done, codes "x")
unfolding run call write_body finish
quiet_test = refl

at_most_one_length_example :
    all_accepted ⦃o = vec_buffer⦄
      (length_of 5 ∷ chunked ∷ length_of 5 ∷ [])
      (headers normal false)
      []
    ≤ 1
at_most_one_length_example =
    at_most_one_length ⦃o = vec_buffer⦄ (length_of 5 ∷ chunked ∷ length_of 5 ∷ [])
      (headers normal false) []

not_modified_test :
    response_status ⦃o = vec_buffer⦄
      (response_start http11 normal false)
      []
      304
      (codes "Not Modified")
    ≡ returns (headers denied false, status_line http11 304 (codes "Not Modified"))
unfolding response_status is_bodyless_code
not_modified_test = refl

not_modified_run_test :
    run ⦃o = vec_buffer⦄
      (length_of 5 ∷ end_of_headers ∷ end_of_message ∷ [])
      (headers denied false)
      (status_line http11 304 (codes "Not Modified"))
    ≡ returns (done, status_line http11 304 (codes "Not Modified") ++ crlf)
unfolding run call add_length done_headers finish
not_modified_run_test = refl

bodyless_response_example :
    (all_accepted ⦃o = vec_buffer⦄
        (length_of 5 ∷ end_of_headers ∷ end_of_message ∷ [])
        (headers denied false)
        (status_line http11 304 (codes "Not Modified"))
      ≡ 0)
    × IsDenied done
bodyless_response_example =
    bodyless_response ⦃o = vec_buffer⦄ (length_of 5 ∷ end_of_headers ∷ end_of_message ∷ [])
      (response_start http11 normal false) [] 304 (codes "Not Modified") (headers denied false)
      (status_line http11 304 (codes "Not Modified")) done
      (status_line http11 304 (codes "Not Modified") ++ crlf) without_body_test not_modified_test
      not_modified_run_test
