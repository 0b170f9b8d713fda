-- ===== src/RequestHead/Examples.antt =====
-- Requests on concrete input, src/server/headers.rs.
use minihttp.Base.{
  ℕ, ◌≤◌, Bytes, List, Result, length, suc, ◌≡◌, refl, true, false, ◌&&◌, none, some, [], ◌∷◌, All,
  Bool, leb, not, inl, ◌==◌, ok, arith,
}
use minihttp.Base.Ascii.{codes}
use minihttp.Utf8.{is_utf8, trim, IsNameByte}
use minihttp.HeaderValue.{is_chunked}
use minihttp.RequestTarget.{absolute, position, parse}
use minihttp.RequestHead.{
  Header, Request, chunked, RequestConfig, split_commas, parse_u64, kind_of, scan_header, scan_all,
  scan_headers,
}
use minihttp.RequestHead.Laws.{is_length, is_host, count}
use minihttp.RequestHead.Config.{value_of, chosen_host, hosts_differ, scan_headers-host}
use minihttp.Buffer.{vec_buffer}
use minihttp.Version.{http11}
use minihttp.RequestHead.Head.{
  next, is_connection_header, is_listed, ParseError, ParseStatus, whole, partial, RequestParser,
  config_from, head_of, Dispatcher, read_request, parse_headers,
}
use minihttp.RequestHead.EndToEnd.{collect, Listed, IsListed, end_to_end, collect-end_to_end}
use minihttp.RequestHead.Reading.{IsOutcome, parse_headers-IsOutcome}
use minihttp.RequestHead.Accepts.{IsGoodHeader, scan_headers-IsGoodHeader}

-- Both a length and chunked coding, and a host other than that of the target.
abbrev doubtful : Request
doubtful = record {
  method = codes "POST";
  path = codes "http://a/x";
  version = 1;
  headers =
      record { name = codes "content-length"; value = codes "5" }
      ∷ record { name = codes "Host"; value = codes " b " }
      ∷ record { name = codes "Transfer-Encoding"; value = codes "gzip, chunked" }
      ∷ [];
}

abbrev doubtful_config : RequestConfig
doubtful_config = record {
  body = chunked;
  expect_continue = false;
  connection_close = true;
  connection = none;
  host = some (codes "a");
  target = absolute (codes "http") (codes "a") (codes "/x");
  conflicting_host = true;
}

doubtful_test : scan_headers doubtful ≡ ok doubtful_config
unfolding scan_headers scan_all scan_header kind_of parse position split_commas parse_u64 is_utf8
    trim is_chunked
doubtful_test = refl

-- A transfer coding that the server does not know is passed over, and the body is taken to be empty.
unknown_coding_test :
    scan_header
      (kind_of (record { name = codes "Transfer-Encoding"; value = codes "gzip" }))
      (codes "gzip")
    ≡ (λ s. ok s)
unfolding scan_header kind_of is_chunked split_commas
unknown_coding_test = refl

parse_u64_test :
    (parse_u64 (codes "18446744073709551615") ≡ some 18446744073709551615)
    × (parse_u64 (codes "18446744073709551616") ≡ none)
    × (parse_u64 (codes "+7") ≡ some 7)
    × (parse_u64 (codes "+") ≡ none)
    × (parse_u64 (codes "-7") ≡ none)
    × (parse_u64 [] ≡ none)
unfolding parse_u64
parse_u64_test = (refl, refl, refl, refl, refl, refl)

scan_headers-host_example :
    (parse (codes "http://a/x") ≡ some (absolute (codes "http") (codes "a") (codes "/x")))
    × (some (codes "a") ≡ chosen_host (some (codes "a")) (value_of is_host doubtful.headers))
    × (true ≡ hosts_differ (some (codes "a")) (value_of is_host doubtful.headers))
scan_headers-host_example = scan_headers-host doubtful doubtful_config doubtful_test

doubtful_target_test :
    parse (codes "http://a/x") ≡ some (absolute (codes "http") (codes "a") (codes "/x"))
unfolding parse position
doubtful_target_test = refl

well_formed_test : All IsGoodHeader doubtful.headers
unfolding kind_of parse_u64 is_utf8
well_formed_test = ((refl, 5, refl), (refl, (tt, tt)))

one_length_test : count is_length doubtful.headers ≤ 1
unfolding kind_of
one_length_test = omega arith

one_host_test : count is_host doubtful.headers ≤ 1
unfolding kind_of
one_host_test = omega arith

scan_headers-IsGoodHeader_example : (c : RequestConfig) × (scan_headers doubtful ≡ ok c)
scan_headers-IsGoodHeader_example =
    scan_headers-IsGoodHeader doubtful (absolute (codes "http") (codes "a") (codes "/x"))
      doubtful_target_test well_formed_test one_length_test one_host_test

-- A parser that reads every three bytes as one and the same request.
abbrev short_answer : Bytes → Result ParseError ParseStatus
short_answer (x ∷ y ∷ z ∷ rest) = ok (whole doubtful 3)
short_answer _ = ok partial

short_answer-le :
    (buf : Bytes) (r : Request) (bytes : ℕ)
    → short_answer buf ≡ ok (whole r bytes)
    → (1 ≤ bytes) × (bytes ≤ length buf)
short_answer-le buf r bytes e = ground arith

abbrev short_parser : RequestParser
short_parser = record {
  parse_request = λ n buf. short_answer buf;
  request_within = λ n buf r bytes e. short_answer-le buf r bytes e;
  more_room = λ n m buf h e. refl;
}

-- It counts the requests and gives each its number.
abbrev counter : Dispatcher ℕ ℕ (Unit {0})
counter d h = (suc d, ok d)

parse_headers_test :
    parse_headers ⦃o = vec_buffer⦄ ⦃p = short_parser⦄ (1 ∷ 2 ∷ 3 ∷ 4 ∷ []) 7 counter ≡ (
      (4 ∷ []),
      8,
      ok (some (chunked, 7, record { is_head = false; do_close = true; version = http11 })),
    )
unfolding parse_headers read_request config_from head_of scan_headers scan_all scan_header kind_of
    parse position split_commas parse_u64 is_utf8 trim is_chunked
parse_headers_test = refl

parse_headers-IsOutcome_example :
    IsOutcome ⦃p = short_parser⦄
      (1 ∷ 2 ∷ 3 ∷ 4 ∷ [])
      7
      counter
      (parse_headers ⦃o = vec_buffer⦄ ⦃p = short_parser⦄ (1 ∷ 2 ∷ 3 ∷ 4 ∷ []) 7 counter)
parse_headers-IsOutcome_example =
    parse_headers-IsOutcome ⦃o = vec_buffer⦄ ⦃p = short_parser⦄ (1 ∷ 2 ∷ 3 ∷ 4 ∷ []) 7 counter

-- Headers of which the second is listed in `Connection`.
abbrev three_headers : List Header
three_headers =
    record { name = codes "Accept"; value = [] }
    ∷ record { name = codes "X-Hop"; value = [] }
    ∷ record { name = codes "Connection"; value = codes "x-hop, close" }
    ∷ []

collect_test :
    collect 3 (some (codes "x-hop, close")) three_headers
    ≡ record { name = codes "Accept"; value = [] } ∷ []
unfolding collect next is_connection_header is_listed split_commas trim
collect_test = refl

abbrev hop : Listed
hop = record { before = []; name = codes "x-hop"; after = [] }

abbrev spaced_close : Listed
spaced_close = record { before = codes " "; name = codes "close"; after = [] }

abbrev is_name : Bytes → Bool
is_name [] = true
is_name (b ∷ bs) = leb 33 b && leb b 126 && not (b == b',') && is_name bs

is_name-IsNameByte : (bs : Bytes) → is_name bs ≡ true → All IsNameByte bs
is_name-IsNameByte [] h = tt
is_name-IsNameByte (b ∷ bs) h = (ground arith, is_name-IsNameByte bs (ground arith))

hop-IsListed : IsListed hop
hop-IsListed = record {
  pad_before = tt;
  of_name = is_name-IsNameByte hop.name refl;
  not_empty = omega arith;
  pad_after = tt;
}

spaced_close-IsListed : IsListed spaced_close
spaced_close-IsListed = record {
  pad_before = (inl refl, tt);
  of_name = is_name-IsNameByte spaced_close.name refl;
  not_empty = omega arith;
  pad_after = tt;
}

collect-end_to_end_example :
    collect 3 (some (codes "x-hop, close")) three_headers
    ≡ end_to_end (hop ∷ spaced_close ∷ []) three_headers
collect-end_to_end_example =
    collect-end_to_end 3 (hop ∷ spaced_close ∷ []) three_headers
      (hop-IsListed, (spaced_close-IsListed, tt)) (omega arith)
