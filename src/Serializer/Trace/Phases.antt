-- ===== src/Serializer/Trace/Phases.antt =====
-- What holds after any sequence of calls on a message of src/base_serializer.rs.
use minihttp.Base.{
  ℕ, ◌+◌, ◌≤◌, ◌≡◌, ◌∙◌, inl, inr, true, List, [], ◌∷◌, arith, Bytes, panic, returns, Run-cases,
}
use minihttp.Buffer.{Buffer}
use minihttp.Serializer.State.{
  MessageState, response_start, final_response_start, request_start, headers, fixed_headers,
  chunked_headers, bodyless, fixed_body, chunked_body, done, denied,
}
use minihttp.Serializer.Head.{
  response_status, request_line, response_continue, add_header, format_header, add_length,
  add_chunked,
}
use minihttp.Serializer.Finish.{done_headers, write_body, finish}
use minihttp.Serializer.Trace.{
  Call, status, request, interim, header, formatted, length_of, chunked, end_of_headers, body,
  end_of_message, call, run, accepted, all_accepted,
}

-- How far a message is.
abbrev pub rank : MessageState → ℕ
rank request_start = 0
rank (response_start _ _ _) = 0
rank (final_response_start _ _ _) = 1
rank (headers _ _) = 2
rank (fixed_headers _ _ _) = 3
rank (chunked_headers _ _) = 3
rank bodyless = 4
rank (fixed_body _ _) = 4
rank (chunked_body _) = 4
rank done = 5

-- A body length can still be set.
abbrev pub budget : MessageState → ℕ
budget (headers denied _) = 0
budget (headers _ _) = 1
budget request_start = 1
budget (response_start _ _ _) = 1
budget (final_response_start _ _ _) = 1
budget _ = 0

budget-le : (s : MessageState) → budget s ≤ 1
budget-le s = ground arith

-- The message sends no more bytes.
abbrev pub IsQuiet : MessageState → Type 0
IsQuiet bodyless = Unit {0}
IsQuiet (fixed_body true _) = Unit {0}
IsQuiet (chunked_body true) = Unit {0}
IsQuiet done = Unit {0}
IsQuiet _ = ⊥

module _ ⦃o : Buffer⦄ where
  rank-call :
      (c : Call) (s : MessageState) (buf : Bytes) (s' : MessageState) (buf' : Bytes)
      → call c s buf ≡ returns (s', buf')
      → rank s ≤ rank s'
  unfolding call response_status request_line response_continue add_header format_header add_length
      add_chunked done_headers write_body finish
  rank-call (status code reason) s buf s' buf' h = ground arith
  rank-call (request method path version) s buf s' buf' h = ground arith
  rank-call interim s buf s' buf' h = ground arith
  rank-call (header name value) s buf s' buf' h = ground arith
  rank-call (formatted name shown) s buf s' buf' h = ground arith
  rank-call (length_of n) s buf s' buf' h = ground arith
  rank-call chunked s buf s' buf' h = ground arith
  rank-call end_of_headers s buf s' buf' h = ground arith
  rank-call (body data') s buf s' buf' h = ground arith
  rank-call end_of_message s buf s' buf' h = ground arith

  IsQuiet-call :
      (c : Call) (s : MessageState) (buf : Bytes) (s' : MessageState) (buf' : Bytes)
      → IsQuiet s
      → call c s buf ≡ returns (s', buf')
      → IsQuiet s' × (buf' ≡ buf)
  unfolding call response_status request_line response_continue add_header format_header add_length
      add_chunked done_headers write_body finish
  IsQuiet-call c s buf s' buf' q h = ground arith

  budget-call :
      (c : Call) (s : MessageState) (buf : Bytes) (s' : MessageState) (buf' : Bytes)
      → call c s buf ≡ returns (s', buf')
      → accepted c s buf + budget s' ≤ budget s
  unfolding call accepted response_status request_line response_continue add_header format_header
      add_length add_chunked done_headers write_body finish
  budget-call c s buf s' buf' h = ground arith

  accepted-panic :
      (c : Call) (s : MessageState) (buf : Bytes) → call c s buf ≡ panic → accepted c s buf ≡ 0
  unfolding call accepted
  accepted-panic c s buf h = ground arith

  -- The first call of a sequence that does not panic.
  pub run-cons :
      (c : Call) (cs : List Call) (s : MessageState) (buf : Bytes) {a : MessageState × Bytes}
      → run (c ∷ cs) s buf ≡ returns a
      → (s' : MessageState) × (buf' : Bytes) × (call c s buf ≡ returns (s', buf'))
        × (run cs s' buf' ≡ returns a)
  unfolding run
  run-cons c cs s buf h = elim (Run-cases (call c s buf)) [
    | inl e ↦ absurd (ground arith)
    | inr ((s', buf'), e) ↦ (s', buf', e, rw (e, run) at h)
  ]

  -- By whatever calls that do not panic, a message never goes back to an earlier phase: start,
  -- after the interim response, headers, headers with a body length, body, done.
  pub rank-run :
      (cs : List Call) (s : MessageState) (buf : Bytes) (s' : MessageState) (buf' : Bytes)
      → run cs s buf ≡ returns (s', buf')
      → rank s ≤ rank s'
  rank-run [] s buf s' buf' h = unfold run in ground arith
  rank-run (c ∷ cs) s buf s' buf' h =
      let (t, tbuf, first, later) = run-cons c cs s buf h in
      omega (arith, rank-call c s buf t tbuf first, rank-run cs t tbuf s' buf' later)

  -- Once a message is a response to HEAD past its headers, or has no body, or is done, no calls
  -- that return add a byte to the buffer, and it stays so.
  pub IsQuiet-run :
      (cs : List Call) (s : MessageState) (buf : Bytes) (s' : MessageState) (buf' : Bytes)
      → IsQuiet s
      → run cs s buf ≡ returns (s', buf')
      → IsQuiet s' × (buf' ≡ buf)
  IsQuiet-run [] s buf s' buf' q h = unfold run in ground arith
  IsQuiet-run (c ∷ cs) s buf s' buf' q h =
      let (t, tbuf, first, later) = run-cons c cs s buf h in
      let (still, same) = IsQuiet-call c s buf t tbuf q first in
      let (last, same') = IsQuiet-run cs t tbuf s' buf' still later in (last, same' ∙ same)

  pub all_accepted-le-budget :
      (cs : List Call) (s : MessageState) (buf : Bytes) → all_accepted cs s buf ≤ budget s
  unfolding all_accepted
  all_accepted-le-budget [] s buf = omega arith
  all_accepted-le-budget (c ∷ cs) s buf = elim (Run-cases (call c s buf)) [
    | inl e ↦ rw e (omega (arith, accepted-panic c s buf e))
    | inr ((t, tbuf), e) ↦
        rw e (omega (arith, budget-call c s buf t tbuf e, all_accepted-le-budget cs t tbuf))
  ]

  -- In one message, by whatever calls, `add_length` and `add_chunked` together succeed at most
  -- once.
  pub at_most_one_length :
      (cs : List Call) (s : MessageState) (buf : Bytes) → all_accepted cs s buf ≤ 1
  at_most_one_length cs s buf = omega (arith, all_accepted-le-budget cs s buf, budget-le s)
