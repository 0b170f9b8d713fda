-- ===== src/Exchange/Examples.antt =====
-- A request to which the response closes the connection.
use minihttp.Base.{◌≡◌, refl, true, false, [], ◌∷◌, ◌++◌, none, some, returns, ok, arith}
use minihttp.Base.Ascii.{codes}
use minihttp.Base.Digits.{decimal}
use minihttp.Buffer.{vec_buffer}
use minihttp.Utf8.{is_utf8, trim}
use minihttp.HeaderValue.{is_close}
use minihttp.Version.{http11}
use minihttp.RequestTarget.{origin, parse}
use minihttp.Serializer.State.{done}
use minihttp.Serializer.Head.{crlf, is_bodyless_code, status_line}
use minihttp.Serializer.Trace.{status, length_of, end_of_headers, run}
use minihttp.Serializer.Wire.{whole_body}
use minihttp.Serializer.Wire.Response.{close_line, length_line}
use minihttp.RequestHead.{
  Request, RequestConfig, fixed, split_commas, kind_of, scan_header, scan_all, scan_headers,
}
use minihttp.RequestHead.Head.{config_from, head_of, first_state}
use minihttp.Exchange.{run-first_state}

abbrev last_request : Request
last_request = record {
  method = codes "GET";
  path = codes "/";
  version = 1;
  headers = record { name = codes "Connection"; value = codes "close" } ∷ [];
}

abbrev last_config : RequestConfig
last_config = record {
  body = fixed 0;
  expect_continue = false;
  connection_close = true;
  connection = some (codes "close");
  host = none;
  target = origin (codes "/");
  conflicting_host = false;
}

last_request_test : scan_headers last_request ≡ ok last_config
unfolding scan_headers scan_all scan_header kind_of parse split_commas is_utf8 trim is_close
last_request_test = refl

found_test : is_bodyless_code 404 ≡ false
unfolding is_bodyless_code
found_test = refl

run-first_state_example :
    run ⦃o = vec_buffer⦄
      (status 404 (codes "Not Found") ∷ length_of 2 ∷ end_of_headers ∷ whole_body (codes "no" ∷ []))
      (first_state (config_from (head_of last_request last_config)))
      []
    ≡ returns (
      done,
      status_line http11 404 (codes "Not Found")
          ++ length_line 2
          ++ (close_line true ++ crlf)
          ++ codes "no",
    )
unfolding decimal
run-first_state_example =
    run-first_state ⦃o = vec_buffer⦄ last_request last_config [] 404 (codes "Not Found") []
      (codes "no" ∷ []) last_request_test (omega arith) refl (omega arith) found_test tt
