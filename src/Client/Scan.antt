-- ===== src/Client/Scan.antt =====
-- `scan_headers` and `new_body` of src/client/parser.rs, with the errors of src/client/errors.rs
-- that they return.
use minihttp.Base.{
  ℕ, Bool, true, false, ◌&&◌, ◌||◌, Option, none, some, List, [], ◌∷◌, Bytes, any, ltb, ◌==◌,
  if◌then◌else◌, Result, ok, err,
}
use minihttp.Base.Ascii.{codes, eq_ignore_ascii_case}
use minihttp.Utf8.{is_utf8, trim}
use minihttp.HeaderValue.{is_close, is_chunked}
use minihttp.BodyProgress.{BodyProgress}
use minihttp.Chunked
use minihttp.RequestHead.{Header, split_commas, last_part, parse_u64, joined}

pub data BodyKind : Type 0 where
  fixed : ℕ → BodyKind
  chunked eof : BodyKind

pub data Mode : Type 0 where
  buffered progressive : ℕ → Mode

pub data ErrorEnum : Type 0 where
  io chunk_size bad_content_length duplicate_content_length reset_on_response_headers
        reset_on_response_body premature_response_headers connection_invalid
        response_body_too_long :
      ErrorEnum

-- The variables of `scan_headers`.
pub record Scan : Type 0 where
  pub has_content_length : Bool
  pub connection : Option Bytes
  pub close : Bool
  pub result : BodyKind

-- The arms of the `if` over the name of a header.
pub data Kind : Type 0 where
  transfer_encoding content_length connection other : Kind

unfoldable pub kind_of : Header → Kind
kind_of h =
    if eq_ignore_ascii_case h.name (codes "Transfer-Encoding")
    then transfer_encoding
    else if eq_ignore_ascii_case h.name (codes "Content-Length")
    then content_length
    else if eq_ignore_ascii_case h.name (codes "Connection")
    then connection
    else other

abbrev pub is_chunked_body : BodyKind → Bool
is_chunked_body chunked = true
is_chunked_body _ = false

-- The arm of `Connection`, which both loops have.
unfoldable pub scan_connection : Bytes → Scan → Result ErrorEnum Scan
scan_connection value s =
    if is_utf8 value
    then ok (record s {
      connection = some (joined s.connection (trim value));
      close = s.close || any is_close (split_commas value);
    })
    else err connection_invalid

abbrev pub with_length : Scan → Option ℕ → Result ErrorEnum Scan
with_length s none = err bad_content_length
with_length s (some n) = ok (record s { has_content_length = true; result = fixed n })

-- The body of the second loop.
unfoldable pub scan_header : Kind → Bytes → Scan → Result ErrorEnum Scan
unfolding scan_connection
scan_header transfer_encoding value s =
    if is_chunked (last_part (split_commas value))
    then ok (record s { close = s.close || s.has_content_length; result = chunked })
    else ok s
scan_header content_length value s =
    if s.has_content_length
    then err duplicate_content_length
    else if is_chunked_body s.result
    then ok (record s { has_content_length = true; close = true })
    else if is_utf8 value
    then with_length s (parse_u64 value)
    else err bad_content_length
scan_header connection value s = scan_connection value s
scan_header other value s = ok s

-- That of the first, for responses that have no body.
unfoldable pub scan_bodyless : Kind → Bytes → Scan → Result ErrorEnum Scan
unfolding scan_connection
scan_bodyless connection value s = scan_connection value s
scan_bodyless _ value s = ok s

unfoldable pub scan_all :
    (Kind → Bytes → Scan → Result ErrorEnum Scan) → List Header → Scan → Result ErrorEnum Scan
scan_all f [] s = ok s
scan_all f (h ∷ hs) s = elim (f (kind_of h) h.value s) [ err e ↦ err e | ok s' ↦ scan_all f hs s' ]

-- The test before the first loop.
unfoldable pub is_bodyless : Bool → ℕ → Bool
is_bodyless is_head code = is_head || (ltb 100 code && ltb code 200) || code == 204 || code == 304

abbrev pub initial : BodyKind → Scan
initial b = record { has_content_length = false; connection = none; close = false; result = b }

unfoldable pub scan_headers : Bool → ℕ → List Header → Result ErrorEnum Scan
scan_headers is_head code hs =
    if is_bodyless is_head code
    then scan_all scan_bodyless hs (initial (fixed 0))
    else scan_all scan_header hs (initial eof)

unfoldable pub new_body : BodyKind → Mode → Result ErrorEnum BodyProgress
new_body (fixed x) (buffered b) =
    if ltb b x then err response_body_too_long else ok (BodyProgress.fixed x)
new_body (fixed x) (progressive n) = ok (BodyProgress.fixed x)
new_body chunked mode = ok (BodyProgress.chunked Chunked.new)
new_body eof mode = ok BodyProgress.eof
