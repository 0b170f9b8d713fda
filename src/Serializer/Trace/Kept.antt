-- ===== src/Serializer/Trace/Kept.antt =====
-- The buffer only grows: what a call on a message of src/base_serializer.rs finds in it stays.
use minihttp.Base.{
  ◌≡◌, sym, ap, ◌∙◌, List, [], ◌∷◌, ◌++◌, arith, Bytes, length, take, drop, returns, append_assoc,
  take-append, take_all, take-append-drop,
}
use minihttp.Base.Ascii.{codes}
use minihttp.Base.Digits.{decimal, hex}
use minihttp.Buffer.{Buffer, extend, extend_lem}
use minihttp.Version.{version_text}
use minihttp.Serializer.State.{MessageState, response_start, final_response_start}
use minihttp.Serializer.Head.{
  crlf, response_status, request_line, response_continue, add_header, format_header, add_length,
  add_chunked, write_header, write_formatted, status_line,
}
use minihttp.Serializer.Finish.{done_headers, write_body, finish}
use minihttp.Serializer.Lines.{write_header_lem, header_line}
use minihttp.Serializer.Trace.{
  Call, status, request, interim, header, formatted, length_of, chunked, end_of_headers, body,
  end_of_message, call, run,
}
use minihttp.Serializer.Trace.Phases.{run-cons}

-- The later buffer begins with the earlier one.
abbrev pub Keeps : Bytes → Bytes → Type 0
Keeps buf buf' = take (length buf) buf' ≡ buf

Keeps-trans : (a b c : Bytes) → Keeps a b → Keeps b c → Keeps a c
Keeps-trans a b c h k =
    let eb : b ≡ a ++ drop (length a) b =
      sym (ap (λ t. t ++ drop (length a) b) (sym h) ∙ take-append-drop (length a) b) in
    let ec : c ≡ b ++ drop (length b) c =
      sym (ap (λ t. t ++ drop (length b) c) (sym k) ∙ take-append-drop (length b) c) in
    ap (take (length a)) (
      ec
      ∙ ap (λ t. t ++ drop (length b) c) eb
      ∙ append_assoc a (drop (length a) b) (drop (length b) c))
    ∙ take-append a (drop (length a) b ++ drop (length b) c)

module _ ⦃o : Buffer⦄ where
  Keeps-extend : (buf data' : Bytes) → Keeps buf (extend buf data')
  Keeps-extend buf data' = rw extend_lem (take-append buf data')

  Keeps-write_header : (buf name value : Bytes) → Keeps buf (write_header buf name value).0
  Keeps-write_header buf name value = ground (
    arith,
    write_header_lem buf name value,
    take_all buf,
    take-append buf (header_line name value),
  )

  Keeps-header_end :
      (buf name value : Bytes) → Keeps buf (extend (write_header buf name value).0 crlf)
  Keeps-header_end buf name value =
      Keeps-trans buf _ _ (Keeps-write_header buf name value)
        (Keeps-extend (write_header buf name value).0 crlf)

  Keeps-chunk : (buf size data' : Bytes) → Keeps buf (extend (extend (extend buf size) data') crlf)
  Keeps-chunk buf size data' = Keeps-trans buf _ _ (Keeps-extend buf size) (
      Keeps-trans (extend buf size) _ _ (Keeps-extend (extend buf size) data')
        (Keeps-extend (extend (extend buf size) data') crlf))

  Keeps-call :
      (c : Call) (s : MessageState) (buf : Bytes) (s' : MessageState) (buf' : Bytes)
      → call c s buf ≡ returns (s', buf')
      → Keeps buf buf'
  unfolding call response_status request_line response_continue add_header format_header add_length
      add_chunked done_headers write_body finish write_formatted
  Keeps-call (status code reason) (response_start v b c) buf s' buf' h =
      ground (arith, Keeps-extend buf (status_line v code reason))
  Keeps-call (status code reason) (final_response_start v b c) buf s' buf' h =
      ground (arith, Keeps-extend buf (status_line v code reason))
  Keeps-call (status code reason) _ buf s' buf' h = ground arith
  Keeps-call (request method path version) s buf s' buf' h =
      ground
        (arith, Keeps-extend buf (method ++ (32 ∷ (path ++ (32 ∷ (version_text version ++ crlf))))))
  Keeps-call interim (response_start v b c) buf s' buf' h =
      ground (arith, Keeps-extend buf (version_text v ++ (codes " 100 Continue" ++ (crlf ++ crlf))))
  Keeps-call interim _ buf s' buf' h = ground arith
  Keeps-call (header name value) s buf s' buf' h =
      ground (arith, take_all buf, Keeps-write_header buf name value)
  Keeps-call (formatted name value) s buf s' buf' h =
      ground (arith, take_all buf, Keeps-write_header buf name value)
  Keeps-call (length_of n) s buf s' buf' h =
      ground (arith, take_all buf, Keeps-write_header buf (codes "Content-Length") (decimal n))
  Keeps-call chunked s buf s' buf' h =
      ground
        (arith, take_all buf, Keeps-write_header buf (codes "Transfer-Encoding") (codes "chunked"))
  Keeps-call end_of_headers s buf s' buf' h = ground (
    arith,
    take_all buf,
    Keeps-extend buf crlf,
    Keeps-write_header buf (codes "Connection") (codes "close"),
    Keeps-header_end buf (codes "Connection") (codes "close"),
  )
  Keeps-call (body data') s buf s' buf' h = ground (
    arith,
    take_all buf,
    Keeps-extend buf data',
    Keeps-chunk buf (hex (length data') ++ crlf) data',
  )
  Keeps-call end_of_message s buf s' buf' h =
      ground (arith, take_all buf, Keeps-extend buf (48 ∷ (crlf ++ crlf)))

  -- By whatever calls that do not panic, the buffer afterwards begins with what it held before.
  pub Keeps-run :
      (cs : List Call) (s : MessageState) (buf : Bytes) (s' : MessageState) (buf' : Bytes)
      → run cs s buf ≡ returns (s', buf')
      → Keeps buf buf'
  Keeps-run [] s buf s' buf' h = unfold run in ground (arith, take_all buf)
  Keeps-run (c ∷ cs) s buf s' buf' h =
      let (t, tbuf, first, later) = run-cons c cs s buf h in
      Keeps-trans buf tbuf buf' (Keeps-call c s buf t tbuf first)
        (Keeps-run cs t tbuf s' buf' later)
