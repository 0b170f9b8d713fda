-- ===== src/Serializer/Head.antt =====
-- The start line and the headers of a message, src/base_serializer.rs. Each method takes and
-- returns the state and the buffer; it panics where the source does.
use minihttp.Base.{
  ℕ, Bool, false, ◌&&◌, ◌||◌, [], ◌∷◌, ◌++◌, Bytes, length, drop, any, ltb, leb, ◌==◌,
  if◌then◌else◌, panic, returns, Result, ok, err,
}
use minihttp.Base.Ascii.{codes, eq_ignore_ascii_case}
use minihttp.Base.Digits.{decimal}
use minihttp.Buffer.{Buffer, extend, remove_range}
use minihttp.Version.{Version, version_text}
use minihttp.Serializer.State.{
  HeaderError, duplicate_content_length, duplicate_transfer_encoding, invalid_header_name,
  invalid_header_value, transfer_encoding_after_content_length,
  content_length_after_transfer_encoding, body_length_header, require_bodyless, Body, denied,
  request, MessageState, response_start, final_response_start, request_start, headers,
  fixed_headers, chunked_headers, Written, Answered, is_head_body,
}

abbrev pub crlf : Bytes
crlf = 13 ∷ 10 ∷ []

abbrev is_line_end : ℕ → Bool
is_line_end x = x == 13 || x == 10

unfoldable pub invalid_header : Bytes → Bool
invalid_header value = any is_line_end value

-- 1xx, 204 and 304.
unfoldable pub is_bodyless_code : ℕ → Bool
is_bodyless_code code = (leb 100 code && ltb code 200) || code == 204 || code == 304

-- "{} {} {}\r\n" of version, code and reason.
abbrev pub status_line : Version → ℕ → Bytes → Bytes
status_line version code reason =
    version_text version ++ (32 ∷ (decimal code ++ (32 ∷ (reason ++ crlf))))

-- The test that opens `add_header` and `format_header`.
unfoldable pub is_body_length_name : Bytes → Bool
is_body_length_name name =
    eq_ignore_ascii_case name (codes "Content-Length")
    || eq_ignore_ascii_case name (codes "Transfer-Encoding")

module _ ⦃o : Buffer⦄ where
  -- The part that the two start states share. 100 is refused.
  final_status : Version → Body → Bool → Bytes → ℕ → Bytes → Written
  final_status version body close buf code reason =
      if code == 100
      then panic
      else returns (
        headers (if is_bodyless_code code then denied else body) close,
        extend buf (status_line version code reason),
      )

  unfoldable pub response_status : MessageState → Bytes → ℕ → Bytes → Written
  unfolding final_status
  response_status (response_start version body close) buf code reason =
      final_status version body close buf code reason
  response_status (final_response_start version body close) buf code reason =
      final_status version body close buf code reason
  response_status _ buf code reason = panic

  unfoldable pub request_line : MessageState → Bytes → Bytes → Bytes → Version → Written
  request_line request_start buf method path version = returns (
    headers request false,
    extend buf (method ++ (32 ∷ (path ++ (32 ∷ (version_text version ++ crlf))))),
  )
  request_line _ buf method path version = panic

  unfoldable pub response_continue : MessageState → Bytes → Written
  response_continue (response_start version body close) buf = returns (
    final_response_start version body close,
    extend buf (version_text version ++ (codes " 100 Continue" ++ (crlf ++ crlf))),
  )
  response_continue _ buf = panic

  -- What `write_header` and `write_formatted` have in common: `value` is the slice, or the bytes
  -- that the value's `Display` writes. The value is checked in the buffer, and cut off again.
  unfoldable pub write_header : Bytes → Bytes → Bytes → Bytes × Result HeaderError (Unit {0})
  write_header buf name value =
      let start : ℕ = length buf in
      let with_name : Bytes = extend (extend buf name) (codes ": ") in
      let value_start : ℕ = length with_name in
      let with_value : Bytes = extend with_name value in
      if invalid_header name
      then (buf, err invalid_header_name)
      else if invalid_header (drop value_start with_value)
      then (remove_range with_value start (length with_value), err invalid_header_value)
      else (extend with_value crlf, ok tt)

  -- `write_formatted` has the body of `write_header`, but for `write!`.
  unfoldable pub write_formatted : Bytes → Bytes → Bytes → Bytes × Result HeaderError (Unit {0})
  unfolding write_header
  write_formatted buf name shown = write_header buf name shown

  abbrev keep_state : MessageState → Bytes × Result HeaderError (Unit {0}) → Answered (Unit {0})
  keep_state s (buf, r) = returns (s, buf, r)

  -- `self.write_header(..)?; Ok(())` in the three states that take headers.
  put_header : MessageState → Bytes → Bytes → Bytes → Answered (Unit {0})
  put_header (headers b c) buf name value = keep_state (headers b c) (write_header buf name value)
  put_header (fixed_headers h c n) buf name value =
      keep_state (fixed_headers h c n) (write_header buf name value)
  put_header (chunked_headers h c) buf name value =
      keep_state (chunked_headers h c) (write_header buf name value)
  put_header _ buf name value = panic

  unfoldable pub add_header : MessageState → Bytes → Bytes → Bytes → Answered (Unit {0})
  unfolding put_header
  add_header s buf name value =
      if is_body_length_name name
      then returns (s, buf, err body_length_header)
      else put_header s buf name value

  -- As `add_header`, with the bytes that the value's `Display` writes.
  unfoldable pub format_header : MessageState → Bytes → Bytes → Bytes → Answered (Unit {0})
  unfolding add_header
  format_header s buf name shown = add_header s buf name shown

  -- `self.write_…(..)?; *self = next; Ok(())`
  abbrev move_on :
      MessageState → MessageState → Bytes × Result HeaderError (Unit {0}) → Answered (Unit {0})
  move_on s next (buf, ok u) = returns (next, buf, ok tt)
  move_on s next (buf, err e) = returns (s, buf, err e)

  unfoldable pub add_length : MessageState → Bytes → ℕ → Answered (Unit {0})
  add_length (fixed_headers h c m) buf n =
      returns (fixed_headers h c m, buf, err duplicate_content_length)
  add_length (chunked_headers h c) buf n =
      returns (chunked_headers h c, buf, err content_length_after_transfer_encoding)
  add_length (headers denied c) buf n = returns (headers denied c, buf, err require_bodyless)
  add_length (headers body c) buf n =
      move_on (headers body c) (fixed_headers (is_head_body body) c n)
        (write_formatted buf (codes "Content-Length") (decimal n))
  add_length _ buf n = panic

  unfoldable pub add_chunked : MessageState → Bytes → Answered (Unit {0})
  add_chunked (fixed_headers h c m) buf =
      returns (fixed_headers h c m, buf, err transfer_encoding_after_content_length)
  add_chunked (chunked_headers h c) buf =
      returns (chunked_headers h c, buf, err duplicate_transfer_encoding)
  add_chunked (headers denied c) buf = returns (headers denied c, buf, err require_bodyless)
  add_chunked (headers body c) buf =
      move_on (headers body c) (chunked_headers (is_head_body body) c)
        (write_header buf (codes "Transfer-Encoding") (codes "chunked"))
  add_chunked _ buf = panic
