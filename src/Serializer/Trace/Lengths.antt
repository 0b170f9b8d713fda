-- ===== src/Serializer/Trace/Lengths.antt =====
-- Bodies of known length, responses that must have no body, and what stays in the buffer, after any
-- sequence of calls on a message of src/base_serializer.rs.
use minihttp.Base.{
  ℕ, ◌+◌, ◌≡◌, refl, true, false, not, List, [], ◌∷◌, arith, Bytes, length, returns, length-append,
}
use minihttp.Buffer.{Buffer, extend, extend_lem}
use minihttp.Status.{Status, code, response_has_body}
use minihttp.Serializer.State.{MessageState, headers, bodyless, fixed_body, done, denied}
use minihttp.Serializer.Head.{
  response_status, request_line, response_continue, add_header, format_header, add_length,
  add_chunked, is_bodyless_code,
}
use minihttp.Serializer.Finish.{done_headers, write_body, finish}
use minihttp.Serializer.Trace.{Call, body, call, run, all_accepted}
use minihttp.Serializer.Trace.Phases.{run-cons, budget, all_accepted-le-budget}

-- What is in the buffer and what is still to be written of a body of known length make `total`.
abbrev IsCounted : ℕ → MessageState → Bytes → Type 0
IsCounted total (fixed_body false n) buf = length buf + n ≡ total
IsCounted total done buf = length buf ≡ total
IsCounted total _ buf = ⊥

-- The states of a message that must have no body.
abbrev pub IsDenied : MessageState → Type 0
IsDenied (headers denied _) = Unit {0}
IsDenied bodyless = Unit {0}
IsDenied done = Unit {0}
IsDenied _ = ⊥

module _ ⦃o : Buffer⦄ where
  length-extend : (buf data' : Bytes) → length (extend buf data') ≡ length buf + length data'
  length-extend buf data' = rw extend_lem (length-append buf data')

  IsCounted-call :
      (total : ℕ) (c : Call) (s : MessageState) (buf : Bytes) (s' : MessageState) (buf' : Bytes)
      → IsCounted total s buf
      → call c s buf ≡ returns (s', buf')
      → IsCounted total s' buf'
  unfolding call response_status request_line response_continue add_header format_header add_length
      add_chunked done_headers write_body finish
  IsCounted-call total (body data') s buf s' buf' q h = ground (arith, length-extend buf data')
  IsCounted-call total _ s buf s' buf' q h = ground arith

  IsCounted-run :
      (total : ℕ) (cs : List Call) (s : MessageState) (buf : Bytes) (s' : MessageState)
      (buf' : Bytes)
      → IsCounted total s buf
      → run cs s buf ≡ returns (s', buf')
      → IsCounted total s' buf'
  IsCounted-run total [] s buf s' buf' q h = unfold run in ground arith
  IsCounted-run total (c ∷ cs) s buf s' buf' q h =
      let (t, tbuf, first, later) = run-cons c cs s buf h in
      IsCounted-run total cs t tbuf s' buf' (IsCounted-call total c s buf t tbuf q first) later

  -- If a message that is not a response to HEAD, whose body of `n` bytes is announced and whose
  -- headers are done, reaches its end, by whatever calls that do not panic, then exactly `n` bytes
  -- have been appended to the buffer since.
  pub length-fixed_body :
      (cs : List Call) (n : ℕ) (buf buf' : Bytes)
      → run cs (fixed_body false n) buf ≡ returns (done, buf')
      → length buf' ≡ length buf + n
  length-fixed_body cs n buf buf' h =
      IsCounted-run (length buf + n) cs (fixed_body false n) buf done buf' refl h

  IsDenied-call :
      (c : Call) (s : MessageState) (buf : Bytes) (s' : MessageState) (buf' : Bytes)
      → IsDenied s
      → call c s buf ≡ returns (s', buf')
      → IsDenied s'
  unfolding call response_status request_line response_continue add_header format_header add_length
      add_chunked done_headers write_body finish
  IsDenied-call c s buf s' buf' q h = ground arith

  IsDenied-run :
      (cs : List Call) (s : MessageState) (buf : Bytes) (s' : MessageState) (buf' : Bytes)
      → IsDenied s
      → run cs s buf ≡ returns (s', buf')
      → IsDenied s'
  IsDenied-run [] s buf s' buf' q h = unfold run in ground arith
  IsDenied-run (c ∷ cs) s buf s' buf' q h =
      let (t, tbuf, first, later) = run-cons c cs s buf h in
      IsDenied-run cs t tbuf s' buf' (IsDenied-call c s buf t tbuf q first) later

  IsDenied-response_status :
      (s : MessageState) (buf : Bytes) (n : ℕ) (reason : Bytes) (t : MessageState) (tbuf : Bytes)
      → is_bodyless_code n ≡ true
      → response_status s buf n reason ≡ returns (t, tbuf)
      → IsDenied t × (budget t ≡ 0)
  unfolding response_status
  IsDenied-response_status s buf n reason t tbuf b h = ground arith

  -- After the status line of a response with code 1xx, 204 or 304, whatever calls are made that do
  -- not panic, no body length is accepted, and the message is in no state in which a body can be
  -- written.
  pub bodyless_response :
      (cs : List Call) (s : MessageState) (buf : Bytes) (n : ℕ) (reason : Bytes)
      → (t : MessageState) (tbuf : Bytes) (s' : MessageState) (buf' : Bytes)
      → is_bodyless_code n ≡ true
      → response_status s buf n reason ≡ returns (t, tbuf)
      → run cs t tbuf ≡ returns (s', buf')
      → (all_accepted cs t tbuf ≡ 0) × IsDenied s'
  bodyless_response cs s buf n reason t tbuf s' buf' b first later =
      let (d, none_left) = IsDenied-response_status s buf n reason t tbuf b first in
      (omega (arith, all_accepted-le-budget cs t tbuf), IsDenied-run cs t tbuf s' buf' d later)

-- For every status, `response_status` treats its code as bodyless exactly if `response_has_body`
-- is false.
pub bodyless_code-Status : (s : Status) → is_bodyless_code (code s) ≡ not (response_has_body s)
unfolding is_bodyless_code response_has_body
bodyless_code-Status Status.continue = refl
bodyless_code-Status _ = refl
