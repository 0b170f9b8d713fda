-- ===== src/RequestHead.antt =====
-- The scan of the headers of a request, src/server/headers.rs.
pub mod Laws
pub mod Head
pub mod Reading
pub mod EndToEnd
pub mod Config
pub mod Accepts
mod Examples
use minihttp.Base.{
  ℕ, ◌+◌, ◌*◌, ◌-◌, ◌^◌, Bool, true, false, not, ◌&&◌, ◌||◌, Option, none, some, List, [], ◌∷◌,
  ◌++◌, Bytes, length, any, ltb, leb, ◌==◌, if◌then◌else◌, Result, ok, err,
}
use minihttp.Base.Ascii.{codes, eq_ignore_ascii_case, bytes_eq}
use minihttp.Utf8.{is_utf8, trim}
use minihttp.HeaderValue.{is_close, is_chunked, is_continue}
use minihttp.RequestTarget.{RequestTarget, origin, absolute, authority, asterisk, parse}

pub record Header : Type 0 where
  pub name : Bytes
  pub value : Bytes

-- What httparse has read of a request: `method`, `path` and `version` without the `Some`.
pub record Request : Type 0 where
  pub method : Bytes
  pub path : Bytes
  pub version : ℕ
  pub headers : List Header

pub data BodyKind : Type 0 where
  fixed : ℕ → BodyKind
  chunked unsupported : BodyKind

-- The variants that `scan_headers` returns.
pub data HeadError : Type 0 where
  bad_request_target duplicate_content_length content_length_invalid connection_invalid : HeadError
  duplicate_host host_invalid : HeadError

-- The variables of the loop.
pub record Scan : Type 0 where
  pub has_content_length : Bool
  pub close : Bool
  pub expect_continue : Bool
  pub body : BodyKind
  pub connection : Option Bytes
  pub host_header : Bool
  pub conflicting_host : Bool
  pub host : Option Bytes

pub record RequestConfig : Type 0 where
  pub body : BodyKind
  pub expect_continue : Bool
  pub connection_close : Bool
  pub connection : Option Bytes
  pub host : Option Bytes
  pub target : RequestTarget
  pub conflicting_host : Bool

abbrev pub onto_first : ℕ → List Bytes → List Bytes
onto_first x [] = (x ∷ []) ∷ []
onto_first x (p ∷ ps) = (x ∷ p) ∷ ps

-- `split(|&x| x == b',')`
unfoldable pub split_commas : Bytes → List Bytes
split_commas [] = [] ∷ []
split_commas (x ∷ xs) =
    let rest = split_commas xs in if x == b',' then [] ∷ rest else onto_first x rest

abbrev pub last_part : List Bytes → Bytes
last_part [] = []
last_part (p ∷ []) = p
last_part (p ∷ q ∷ ps) = last_part (q ∷ ps)

-- The digits of `str::parse::<u64>`, with its test for overflow.
parse_digits : Bytes → ℕ → Option ℕ
parse_digits [] acc = some acc
parse_digits (c ∷ cs) acc =
    let next = acc * 10 + (c - 48) in
    let rest = parse_digits cs next in
    if leb 48 c && leb c 57 && ltb next (2 ^ 64) then rest else none

-- At least one digit, behind a plus sign or not.
unfoldable pub parse_u64 : Bytes → Option ℕ
unfolding parse_digits
parse_u64 [] = none
parse_u64 (c ∷ []) = parse_digits (c ∷ []) 0
parse_u64 (c ∷ d ∷ ds) = if c == b'+' then parse_digits (d ∷ ds) 0 else parse_digits (c ∷ d ∷ ds) 0

-- The arms of the `if` over the name of a header.
pub data Kind : Type 0 where
  transfer_encoding content_length connection host expect other : Kind

unfoldable pub kind_of : Header → Kind
kind_of h =
    if eq_ignore_ascii_case h.name (codes "Transfer-Encoding")
    then transfer_encoding
    else if eq_ignore_ascii_case h.name (codes "Content-Length")
    then content_length
    else if eq_ignore_ascii_case h.name (codes "Connection")
    then connection
    else if eq_ignore_ascii_case h.name (codes "Host")
    then host
    else if eq_ignore_ascii_case h.name (codes "Expect")
    then expect
    else other

-- `body == Chunked`
abbrev pub is_chunked_body : BodyKind → Bool
is_chunked_body chunked = true
is_chunked_body _ = false

abbrev with_length : Scan → Option ℕ → Result HeadError Scan
with_length s none = err content_length_invalid
with_length s (some n) = ok (record s { has_content_length = true; body = fixed n })

abbrev pub joined : Option Bytes → Bytes → Bytes
joined none conn = conn
joined (some x) conn = x ++ (codes ", " ++ conn)

-- The host of the target stands; another one in the header is a conflict.
abbrev pub with_host : Scan → Option Bytes → Bytes → Scan
with_host s none h = record s { host_header = true; host = some h }
with_host s (some x) h = record s {
  host_header = true;
  conflicting_host = s.conflicting_host || not (bytes_eq x h);
}

-- The body of the loop.
unfoldable pub scan_header : Kind → Bytes → Scan → Result HeadError Scan
scan_header transfer_encoding value s =
    if is_chunked (last_part (split_commas value))
    then ok (record s { close = s.close || s.has_content_length; body = chunked })
    else ok s
scan_header content_length value s =
    if s.has_content_length
    then err duplicate_content_length
    else if is_chunked_body s.body
    then ok (record s { has_content_length = true; close = true })
    else if is_utf8 value
    then with_length s (parse_u64 value)
    else err content_length_invalid
scan_header connection value s =
    if is_utf8 value
    then ok (record s {
      connection = some (joined s.connection (trim value));
      close = s.close || any is_close (split_commas value);
    })
    else err connection_invalid
scan_header host value s =
    if s.host_header
    then err duplicate_host
    else if is_utf8 value
    then ok (with_host s s.host (trim value))
    else err host_invalid
scan_header expect value s =
    ok (record s { expect_continue = s.expect_continue || is_continue value })
scan_header other value s = ok s

unfoldable pub scan_all : List Header → Scan → Result HeadError Scan
scan_all [] s = ok s
scan_all (h ∷ hs) s = elim (scan_header (kind_of h) h.value s) [
  | err e ↦ err e
  | ok s' ↦ scan_all hs s'
]

abbrev pub target_host : RequestTarget → Option Bytes
target_host (authority x) = some x
target_host (absolute scheme auth path) = some auth
target_host _ = none

abbrev pub initial : ℕ → RequestTarget → Scan
initial version target = record {
  has_content_length = false;
  close = version == 0;
  expect_continue = false;
  body = fixed 0;
  connection = none;
  host_header = false;
  conflicting_host = false;
  host = target_host target;
}

abbrev pub config_of : Bytes → RequestTarget → Scan → RequestConfig
config_of method target s = record {
  body = if bytes_eq method (codes "CONNECT") then unsupported else s.body;
  expect_continue = s.expect_continue;
  connection_close = s.close;
  connection = s.connection;
  host = s.host;
  target = target;
  conflicting_host = s.conflicting_host;
}

abbrev pub finished : Bytes → RequestTarget → Result HeadError Scan → Result HeadError RequestConfig
finished method target (err e) = err e
finished method target (ok s) = ok (config_of method target s)

scan_target : Request → Option RequestTarget → Result HeadError RequestConfig
scan_target r none = err bad_request_target
scan_target r (some target) =
    finished r.method target (scan_all r.headers (initial r.version target))

unfoldable pub scan_headers : Request → Result HeadError RequestConfig
unfolding scan_target
scan_headers r = scan_target r (parse r.path)
