-- ===== src/RequestHead/Head.antt =====
-- `Head`, its iterator over headers, and `parse_headers` of src/server/headers.rs, with
-- `ResponseConfig` of src/server/encoder.rs.
use minihttp.Base.{
  ℕ, ◌≤◌, ◌≡◌, ◌≢◌, Bool, true, false, not, ◌||◌, Option, none, some, List, [], ◌∷◌, Bytes, length,
  any, map, ◌==◌, if◌then◌else◌, Result, ok, err,
}
use minihttp.Base.Ascii.{codes, eq_ignore_ascii_case, bytes_eq}
use minihttp.Buffer.{Buffer, consume}
use minihttp.Utf8.{trim}
use minihttp.Version.{Version, http10, http11}
use minihttp.RequestTarget.{RequestTarget, origin, absolute}
use minihttp.Serializer.State.{MessageState, response_start, head, normal}
use minihttp.RequestHead.{
  Header, Request, BodyKind, fixed, HeadError, RequestConfig, split_commas, scan_headers,
}

pub record Head : Type 0 where
  pub method : Bytes
  pub raw_target : Bytes
  pub target : RequestTarget
  pub host : Option Bytes
  pub conflicting_host : Bool
  pub version : Version
  pub headers : List Header
  pub body_kind : BodyKind
  pub connection_close : Bool
  pub connection_header : Option Bytes

abbrev path_of : RequestTarget → Option Bytes
path_of (origin x) = some x
path_of (absolute scheme auth path) = some path
path_of _ = none

unfoldable pub path : Head → Option Bytes
path h = path_of h.target

abbrev fixed_zero : BodyKind → Bool
fixed_zero (fixed n) = n == 0
fixed_zero _ = false

unfoldable pub has_body : Head → Bool
has_body h = not (fixed_zero h.body_kind)

abbrev length_of_kind : BodyKind → Option ℕ
length_of_kind (fixed n) = some n
length_of_kind _ = none

unfoldable pub body_length : Head → Option ℕ
body_length h = length_of_kind h.body_kind

-- The first test of the iterator, on the name alone.
unfoldable pub is_connection_header : Header → Bool
is_connection_header h =
    eq_ignore_ascii_case h.name (codes "Connection")
    || eq_ignore_ascii_case h.name (codes "Transfer-Encoding")
    || eq_ignore_ascii_case h.name (codes "Content-Length")
    || eq_ignore_ascii_case h.name (codes "Upgrade")
    || eq_ignore_ascii_case h.name (codes "Host")

-- The second test: the header is listed in `Connection`.
unfoldable pub is_listed : Option Bytes → Header → Bool
is_listed none h = false
is_listed (some conn) h = any (λ x. eq_ignore_ascii_case x h.name) (map trim (split_commas conn))

-- `HeaderIter::next`, on the headers that the inner iterator still has; it gives the header that is
-- found and what is left.
unfoldable pub next : Option Bytes → List Header → Option (Header × List Header)
next conn [] = none
next conn (h ∷ hs) =
    let rest = next conn hs in
    if is_connection_header h then rest else if is_listed conn h then rest else some (h, hs)

-- The parser of a request of the crate httparse, `Request::parse`, into an array of `n` headers.
pub data ParseError : Type 0 where
  too_many_headers : ParseError
  malformed : ParseError

pub data ParseStatus : Type 0 where
  whole : Request → ℕ → ParseStatus
  partial : ParseStatus

-- A larger array makes a difference only where the smaller one is too small.
pub record RequestParser : Type 0 where
  pub parse_request : ℕ → Bytes → Result ParseError ParseStatus
  pub request_within :
      (n : ℕ) (buf : Bytes) (r : Request) (bytes : ℕ)
      → parse_request n buf ≡ ok (whole r bytes)
      → (1 ≤ bytes) × (bytes ≤ length buf)
  pub more_room :
      (n m : ℕ) (buf : Bytes)
      → n ≤ m
      → parse_request n buf ≢ err too_many_headers
      → parse_request m buf ≡ parse_request n buf

abbrev pub min_headers : ℕ
min_headers = 16

abbrev pub max_headers : ℕ
max_headers = 1024

pub record ResponseConfig : Type 0 where
  pub is_head : Bool
  pub do_close : Bool
  pub version : Version

-- `ResponseConfig::from`
unfoldable pub config_from : Head → ResponseConfig
config_from req = record {
  is_head = bytes_eq req.method (codes "HEAD");
  do_close = req.connection_close;
  version = req.version;
}

abbrev is_http10 : Version → Bool
is_http10 http10 = true
is_http10 http11 = false

-- The state that `encoder::new` starts the response in.
unfoldable pub first_state : ResponseConfig → MessageState
first_state cfg =
    response_start cfg.version (if cfg.is_head then head else normal)
      (cfg.do_close || is_http10 cfg.version)

unfoldable pub head_of : Request → RequestConfig → Head
head_of raw cfg = record {
  method = raw.method;
  raw_target = raw.path;
  target = cfg.target;
  host = cfg.host;
  conflicting_host = cfg.conflicting_host;
  version = if raw.version == 1 then http11 else http10;
  headers = raw.headers;
  body_kind = cfg.body;
  connection_close = cfg.connection_close || raw.version == 0;
  connection_header = cfg.connection;
}

-- The errors of `parse_headers`: those of httparse, of `scan_headers`, and of the dispatcher.
pub data Error (E : Type 0) : Type 0 where
  parse_error : ParseError → Error E
  head_error : HeadError → Error E
  refused : E → Error E

-- The dispatcher with its state: what `headers_received` answers.
abbrev pub Dispatcher : Type 0 → Type 0 → Type 0 → Type 0
Dispatcher D C E = D → Head → D × Result E C

module _ ⦃p : RequestParser⦄ where
  abbrev pub with_more_room : Bytes → Result ParseError ParseStatus → Result ParseError ParseStatus
  with_more_room buf (err too_many_headers) = p.parse_request max_headers buf
  with_more_room buf r = r

  -- The first attempt, and the second one if the array was too small.
  unfoldable pub read_request : Bytes → Result ParseError ParseStatus
  read_request buf = with_more_room buf (p.parse_request min_headers buf)

-- The buffer, the dispatcher and the answer.
abbrev pub Outcome : Type 0 → Type 0 → Type 0 → Type 0
Outcome D C E = Bytes × D × Result (Error E) (Option (BodyKind × C × ResponseConfig))

module _ {D C E : Type 0} ⦃o : Buffer⦄ where
  abbrev pub accepted : Bytes → ℕ → Head → D × Result E C → Outcome D C E
  accepted buf bytes h (d, err e) = (buf, d, err (refused e))
  accepted buf bytes h (d, ok c) = (consume buf bytes, d, ok (some (h.body_kind, c, config_from h)))

  abbrev pub scanned :
      Bytes → D → Dispatcher D C E → Request → ℕ → Result HeadError RequestConfig → Outcome D C E
  scanned buf d disp raw bytes (err e) = (buf, d, err (head_error e))
  scanned buf d disp raw bytes (ok cfg) =
      accepted buf bytes (head_of raw cfg) (disp d (head_of raw cfg))

  abbrev pub after_read :
      Bytes → D → Dispatcher D C E → Result ParseError ParseStatus → Outcome D C E
  after_read buf d disp (err e) = (buf, d, err (parse_error e))
  after_read buf d disp (ok partial) = (buf, d, ok none)
  after_read buf d disp (ok (whole raw bytes)) = scanned buf d disp raw bytes (scan_headers raw)

  unfoldable pub parse_headers : ⦃p : RequestParser⦄ → Bytes → D → Dispatcher D C E → Outcome D C E
  parse_headers buf d disp = after_read buf d disp (read_request buf)
