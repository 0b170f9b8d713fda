-- ===== src/Client/ScanLaws.antt =====
-- How the headers of a response decide its body and the end of the connection,
-- src/client/parser.rs.
use minihttp.Base.{
  ℕ, ◌+◌, ◌≤◌, ◌≡◌, Bool, true, false, not, ◌&&◌, ◌||◌, Option, none, some, List, Bytes, any, ◌==◌,
  if◌then◌else◌, arith,
}
use minihttp.HeaderValue.{is_close, is_chunked}
use minihttp.Serializer.Head.{is_bodyless_code}
use minihttp.RequestHead.{Header, split_commas, last_part, parse_u64}
use minihttp.RequestHead.Laws.{count, flag}
use minihttp.RequestHead.Config.{value_of}
use minihttp.Client.Scan.{
  BodyKind, fixed, chunked, Scan, Kind, transfer_encoding, content_length, connection, kind_of,
  is_chunked_body, is_bodyless,
}

abbrev pub is_length_kind : Kind → Bool
is_length_kind content_length = true
is_length_kind _ = false

abbrev pub asks_chunked : Kind → Bytes → Bool
asks_chunked transfer_encoding value = is_chunked (last_part (split_commas value))
asks_chunked _ value = false

abbrev pub asks_close : Kind → Bytes → Bool
asks_close connection value = any is_close (split_commas value)
asks_close _ value = false

abbrev pub is_length : Header → Bool
is_length h = is_length_kind (kind_of h)

abbrev pub says_chunked : Header → Bool
says_chunked h = asks_chunked (kind_of h) h.value

abbrev pub says_close : Header → Bool
says_close h = asks_close (kind_of h) h.value

abbrev pub fixed_of : Option ℕ → Option BodyKind
fixed_of none = none
fixed_of (some n) = some (fixed n)

-- The body that a Content-Length announces, if there is one.
abbrev pub announced : BodyKind → Option Bytes → Option BodyKind
announced b none = some b
announced b (some value) = fixed_of (parse_u64 value)

-- What one header changes.
abbrev Changes : Kind → Bytes → Scan → Scan → Type 0
Changes k value s s' =
    (s'.has_content_length ≡ (s.has_content_length || is_length_kind k))
    × (s'.close ≡ (
        s.close
        || asks_close k value
        || (asks_chunked k value && s.has_content_length)
        || (is_length_kind k && is_chunked_body s.result)))
    × (flag s.has_content_length + flag (is_length_kind k) ≡ flag s'.has_content_length)
    × (some s'.result ≡ (
        if is_chunked_body s.result || asks_chunked k value
        then some chunked
        else announced s.result (if is_length_kind k then some value else none)))

abbrev AllChanges : List Header → Scan → Scan → Type 0
AllChanges hs s s' =
    (s'.close ≡ (
      s.close
      || any says_close hs
      || ((is_chunked_body s.result || any says_chunked hs)
          && (s.has_content_length || any is_length hs))))
    × (flag s.has_content_length + count is_length hs ≤ 1)
    × (some s'.result ≡ (
        if is_chunked_body s.result || any says_chunked hs
        then some chunked
        else announced s.result (value_of is_length hs)))

-- Client and serializer agree which codes have no body, but for 100, which the client takes for a
-- response with a body.
is_bodyless-is_bodyless_code :
    (code : ℕ) → is_bodyless false code ≡ (is_bodyless_code code && not (code == 100))
unfolding is_bodyless is_bodyless_code
is_bodyless-is_bodyless_code code = ground arith
