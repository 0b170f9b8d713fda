-- ===== src/Serializer/Trace.antt =====
-- Sequences of calls of the methods of `MessageState`, src/base_serializer.rs, by a caller that goes
-- on after an error; a panic ends the sequence.
pub mod Phases
pub mod Lengths
pub mod Kept
use minihttp.Base.{
  ℕ, zero, suc, ◌+◌, Bool, true, false, List, [], ◌∷◌, Bytes, Run, panic, returns, Result, ok, err,
}
use minihttp.Buffer.{Buffer}
use minihttp.Version.{Version}
use minihttp.Serializer.State.{MessageState, Written, Answered}
use minihttp.Serializer.Head.{
  response_status, request_line, response_continue, add_header, format_header, add_length,
  add_chunked,
}
use minihttp.Serializer.Finish.{done_headers, write_body, finish}

-- A call with its arguments.
pub data Call : Type 0 where
  status : ℕ → Bytes → Call
  request : Bytes → Bytes → Version → Call
  interim : Call
  header : Bytes → Bytes → Call
  formatted : Bytes → Bytes → Call
  length_of : ℕ → Call
  chunked : Call
  end_of_headers : Call
  body : Bytes → Call
  end_of_message : Call

abbrev pub forget : {A : Type 0} → Answered A → Written
forget panic = panic
forget (returns (s, buf, r)) = returns (s, buf)

abbrev count_ok : {A : Type 0} → Answered A → ℕ
count_ok (returns (s, buf, ok a)) = 1
count_ok _ = 0

module _ ⦃o : Buffer⦄ where
  unfoldable pub call : Call → MessageState → Bytes → Written
  call (status code reason) s buf = response_status s buf code reason
  call (request method path version) s buf = request_line s buf method path version
  call interim s buf = response_continue s buf
  call (header name value) s buf = forget (add_header s buf name value)
  call (formatted name shown) s buf = forget (format_header s buf name shown)
  call (length_of n) s buf = forget (add_length s buf n)
  call chunked s buf = forget (add_chunked s buf)
  call end_of_headers s buf = forget (done_headers s buf)
  call (body data') s buf = write_body s buf data'
  call end_of_message s buf = finish s buf

  unfoldable pub run : List Call → MessageState → Bytes → Written
  run [] s buf = returns (s, buf)
  run (c ∷ cs) s buf = elim (call c s buf) [ panic ↦ panic | returns (s', buf') ↦ run cs s' buf' ]

  -- One for each `add_length` or `add_chunked` that was accepted.
  unfoldable pub accepted : Call → MessageState → Bytes → ℕ
  accepted (length_of n) s buf = count_ok (add_length s buf n)
  accepted chunked s buf = count_ok (add_chunked s buf)
  accepted _ s buf = 0

  unfoldable pub all_accepted : List Call → MessageState → Bytes → ℕ
  all_accepted [] s buf = 0
  all_accepted (c ∷ cs) s buf =
      accepted c s buf
      + elim (call c s buf) [ panic ↦ 0 | returns (s', buf') ↦ all_accepted cs s' buf' ]
