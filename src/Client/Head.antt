-- ===== src/Client/Head.antt =====
-- `Head` and its iterator, src/client/head.rs and src/client/client.rs, and `parse_headers` of
-- src/client/parser.rs.
use minihttp.Base.{
  ℕ, ◌≤◌, ◌≡◌, Bool, ◌||◌, Option, none, some, List, [], ◌∷◌, Bytes, length, ◌==◌, if◌then◌else◌,
  Result, ok, err,
}
use minihttp.Base.Ascii.{codes, eq_ignore_ascii_case}
use minihttp.Buffer.{Buffer, consume}
use minihttp.Version.{Version, http10, http11}
use minihttp.BodyProgress.{BodyProgress}
use minihttp.RequestHead.{Header}
use minihttp.RequestHead.Head.{ParseError, too_many_headers, min_headers, max_headers, is_listed}
use minihttp.Client.Scan.{BodyKind, Mode, ErrorEnum, Scan, scan_headers, new_body}

pub record Head : Type 0 where
  pub version : Version
  pub code : ℕ
  pub reason : Bytes
  pub headers : List Header
  pub body_kind : BodyKind
  pub connection_header : Option Bytes
  pub connection_close : Bool

-- The first test of the iterator, on the name alone; the second one is that of the server.
unfoldable pub is_connection_header : Header → Bool
is_connection_header h =
    eq_ignore_ascii_case h.name (codes "Connection")
    || eq_ignore_ascii_case h.name (codes "Transfer-Encoding")
    || eq_ignore_ascii_case h.name (codes "Content-Length")

-- `HeaderIter::next`, on the headers that the inner iterator still has; it gives the header that is
-- found and what is left.
unfoldable pub next : Option Bytes → List Header → Option (Header × List Header)
next conn [] = none
next conn (h ∷ hs) =
    let rest = next conn hs in
    if is_connection_header h then rest else if is_listed conn h then rest else some (h, hs)

-- What httparse reads of a response.
pub record Response : Type 0 where
  pub version : ℕ
  pub code : ℕ
  pub reason : Bytes
  pub headers : List Header

pub data ParseStatus : Type 0 where
  whole : Response → ℕ → ParseStatus
  partial : ParseStatus

-- `Response::parse` of the crate httparse, into an array of `n` headers.
pub record ResponseParser : Type 0 where
  pub parse_response : ℕ → Bytes → Result ParseError ParseStatus
  pub response_within :
      (n : ℕ) (buf : Bytes) (r : Response) (bytes : ℕ)
      → parse_response n buf ≡ ok (whole r bytes)
      → (1 ≤ bytes) × (bytes ≤ length buf)

-- The errors of src/client/errors.rs, with those of httparse and of the codec.
pub data Error (E : Type 0) : Type 0 where
  header : ParseError → Error E
  plain : ErrorEnum → Error E
  custom : E → Error E

-- The codec of the application, with its state.
pub record Codec (C E : Type 0) : Type 0 where
  pub headers_received : C → Head → C × Result E Mode
  pub data_received : C → Bytes → Bool → C × Result E (Option ℕ)

unfoldable pub head_of : Response → Scan → Head
head_of raw s = record {
  version = if raw.version == 1 then http11 else http10;
  code = raw.code;
  reason = raw.reason;
  headers = raw.headers;
  body_kind = s.result;
  connection_header = s.connection;
  connection_close = s.close || raw.version == 0;
}

-- The buffer, the codec and the answer: the mode, the body, and whether to close the connection.
abbrev pub Outcome : Type 0 → Type 0 → Type 0
Outcome C E = Bytes × C × Result (Error E) (Option (Mode × BodyProgress × Bool))

module _ ⦃p : ResponseParser⦄ where
  abbrev pub with_more_room : Bytes → Result ParseError ParseStatus → Result ParseError ParseStatus
  with_more_room buf (err too_many_headers) = p.parse_response max_headers buf
  with_more_room buf r = r

  unfoldable pub read_response : Bytes → Result ParseError ParseStatus
  read_response buf = with_more_room buf (p.parse_response min_headers buf)

module _ {C E : Type 0} ⦃o : Buffer⦄ ⦃p : ResponseParser⦄ (v : Codec C E) where
  abbrev pub with_body : Bytes → C → Mode → Bool → Result ErrorEnum BodyProgress → Outcome C E
  with_body buf c mode close (err e) = (buf, c, err (plain e))
  with_body buf c mode close (ok b) = (buf, c, ok (some (mode, b, close)))

  abbrev pub received : Bytes → ℕ → Scan → C × Result E Mode → Outcome C E
  received buf bytes s (c, err e) = (buf, c, err (custom e))
  received buf bytes s (c, ok mode) =
      with_body (consume buf bytes) c mode s.close (new_body s.result mode)

  abbrev pub scanned : Bytes → C → Response → ℕ → Result ErrorEnum Scan → Outcome C E
  scanned buf c raw bytes (err e) = (buf, c, err (plain e))
  scanned buf c raw bytes (ok s) = received buf bytes s (v.headers_received c (head_of raw s))

  abbrev pub after_read : Bytes → C → Bool → Result ParseError ParseStatus → Outcome C E
  after_read buf c is_head (err e) = (buf, c, err (header e))
  after_read buf c is_head (ok partial) = (buf, c, ok none)
  after_read buf c is_head (ok (whole raw bytes)) =
      scanned buf c raw bytes (scan_headers is_head raw.code raw.headers)

  unfoldable pub parse_headers : Bytes → C → Bool → Outcome C E
  parse_headers buf c is_head = after_read buf c is_head (read_response buf)
