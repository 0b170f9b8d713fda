-- ===== src/Serializer/Finish.antt =====
-- The end of the headers, the body and the end of a message, src/base_serializer.rs.
use minihttp.Base.{
  ◌-◌, Bool, true, false, not, ◌&&◌, ◌∷◌, ◌++◌, Bytes, length, ltb, ◌==◌, if◌then◌else◌, panic,
  returns, ◌>>=◌, ok, err,
}
use minihttp.Base.Ascii.{codes}
use minihttp.Base.Digits.{hex}
use minihttp.Buffer.{Buffer, extend}
use minihttp.Serializer.State.{
  cant_determine_body_size, normal, denied, request, MessageState, headers, fixed_headers,
  chunked_headers, bodyless, fixed_body, chunked_body, done, Written, Answered,
}
use minihttp.Serializer.Head.{crlf, add_header}

-- The pattern of the first `matches!` of `done_headers`.
abbrev pub wants_close : MessageState → Bool
wants_close (headers _ c) = c
wants_close (fixed_headers _ c _) = c
wants_close (chunked_headers _ c) = c
wants_close _ = false

-- One chunk: its size in hexadecimal, the data, each with a line end.
abbrev pub chunk_text : Bytes → Bytes
chunk_text data' = hex (length data') ++ (crlf ++ (data' ++ crlf))

module _ ⦃o : Buffer⦄ where
  -- `self.add_header(..).unwrap()`
  abbrev unwrapped : Answered (Unit {0}) → Written
  unwrapped panic = panic
  unwrapped (returns (s, buf, ok u)) = returns (s, buf)
  unwrapped (returns (s, buf, err e)) = panic

  close_header : MessageState → Bytes → Written
  unfolding add_header
  close_header s buf =
      if wants_close s
      then unwrapped (add_header s buf (codes "Connection") (codes "close"))
      else returns (s, buf)

  -- The `match` of `done_headers` and the empty line. A response to HEAD that has no body length is
  -- in none of the arms but the last, which panics.
  end_headers : MessageState × Bytes → Answered Bool
  end_headers (headers denied c, buf) = returns (bodyless, extend buf crlf, ok false)
  end_headers (headers request c, buf) = returns (fixed_body false 0, extend buf crlf, ok true)
  end_headers (headers normal c, buf) =
      returns (headers normal c, buf, err cant_determine_body_size)
  end_headers (fixed_headers h c n, buf) = returns (fixed_body h n, extend buf crlf, ok (not h))
  end_headers (chunked_headers h c, buf) = returns (chunked_body h, extend buf crlf, ok (not h))
  end_headers (_, buf) = panic

  unfoldable pub done_headers : MessageState → Bytes → Answered Bool
  unfolding close_header end_headers
  done_headers s buf = close_header s buf >>= end_headers

  unfoldable pub write_body : MessageState → Bytes → Bytes → Written
  write_body (fixed_body is_head n) buf data' =
      if ltb n (length data')
      then panic
      else returns
          (fixed_body is_head (n - length data'), if is_head then buf else extend buf data')
  write_body (chunked_body is_head) buf data' = returns (
    chunked_body is_head,
    if not is_head && ltb 0 (length data')
        then extend (extend (extend buf (hex (length data') ++ crlf)) data') crlf
        else buf,
  )
  write_body _ buf data' = panic

  unfoldable pub finish : MessageState → Bytes → Written
  finish bodyless buf = returns (done, buf)
  finish (fixed_body true n) buf = returns (done, buf)
  finish (chunked_body true) buf = returns (done, buf)
  finish (fixed_body false n) buf = if n == 0 then returns (done, buf) else panic
  finish (chunked_body false) buf = returns (done, extend buf (48 ∷ (crlf ++ crlf)))
  finish done buf = returns (done, buf)
  finish _ buf = panic
