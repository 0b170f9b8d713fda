-- ===== src/Serializer/State.antt =====
-- The state of a message and the errors, src/base_serializer.rs.
use minihttp.Base.{ℕ, Bool, true, false, Bytes, Run, Result}
use minihttp.Version.{Version}

pub data HeaderError : Type 0 where
  duplicate_content_length duplicate_transfer_encoding invalid_header_name : HeaderError
  invalid_header_value transfer_encoding_after_content_length : HeaderError
  content_length_after_transfer_encoding cant_determine_body_size : HeaderError
  body_length_header require_bodyless : HeaderError

pub data Body : Type 0 where
  normal head denied request : Body

-- The fields stand in the order of the source: `version`, `body`, `close`; `is_head`, `close`,
-- `content_length`.
pub data MessageState : Type 0 where
  response_start : Version → Body → Bool → MessageState
  final_response_start : Version → Body → Bool → MessageState
  request_start : MessageState
  headers : Body → Bool → MessageState
  fixed_headers : Bool → Bool → ℕ → MessageState
  chunked_headers : Bool → Bool → MessageState
  bodyless : MessageState
  fixed_body : Bool → ℕ → MessageState
  chunked_body : Bool → MessageState
  done : MessageState

-- The message and the buffer after a method that returns nothing.
abbrev pub Written : Type 0
Written = Run (MessageState × Bytes)

-- The message and the buffer after a fallible method, with its result.
abbrev pub Answered : Type 0 → Type 0
Answered A = Run (MessageState × Bytes × Result HeaderError A)

-- `body == Head`
abbrev pub is_head_body : Body → Bool
is_head_body head = true
is_head_body _ = false

unfoldable pub is_started : MessageState → Bool
is_started request_start = false
is_started (response_start _ _ _) = false
is_started (final_response_start _ _ _) = false
is_started _ = true

unfoldable pub is_after_headers : MessageState → Bool
is_after_headers bodyless = true
is_after_headers done = true
is_after_headers (fixed_body _ _) = true
is_after_headers (chunked_body _) = true
is_after_headers _ = false

unfoldable pub is_complete : MessageState → Bool
is_complete done = true
is_complete _ = false
