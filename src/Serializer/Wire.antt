-- ===== src/Serializer/Wire.antt =====
-- The bytes of whole messages, written with the methods of src/base_serializer.rs.
pub mod Response
use minihttp.Base.{
  ℕ, zero, suc, ◌+◌, ◌-◌, ◌≤◌, ◌<◌, ◌≡◌, ◌≢◌, refl, sym, ap, ◌∙◌, Bool, true, false, not, ◌&&◌,
  ◌||◌, List, [], ◌∷◌, ◌++◌, map, arith, Bytes, length, concat, All, Run, panic, returns, Run-cases,
  inl, inr, Result, ok, err, append_assoc, append-nil, length-append, ltb, leb, ◌==◌, if◌then◌else◌,
  ==_refl, Bool-cases,
}
use minihttp.Base.Ascii.{codes}
use minihttp.Base.Digits.{decimal, hex}
use minihttp.Buffer.{Buffer, extend, extend_lem}
use minihttp.Version.{Version}
use minihttp.Serializer.State.{
  MessageState, response_start, headers, fixed_headers, chunked_headers, fixed_body, chunked_body,
  done, normal, Written,
}
use minihttp.Serializer.Head.{
  crlf, invalid_header, is_body_length_name, is_bodyless_code, status_line, response_status,
  add_header, add_length, write_header, add_chunked,
}
use minihttp.Serializer.Finish.{write_body, finish, done_headers, chunk_text}
use minihttp.Serializer.Lines.{header_line, write_header_lem, write_length, write_chunked}
use minihttp.Serializer.Trace.{
  Call, status, header, length_of, chunked, end_of_headers, body, end_of_message, call, run,
}

-- The calls that write a body piece by piece and end the message.
abbrev pub whole_body : List Bytes → List Call
whole_body [] = end_of_message ∷ []
whole_body (d ∷ ds) = body d ∷ whole_body ds

-- The chunks of a body; empty pieces are left out.
abbrev pub chunks : List Bytes → Bytes
chunks [] = []
chunks ([] ∷ ds) = chunks ds
chunks ((x ∷ d) ∷ ds) = chunk_text (x ∷ d) ++ chunks ds

abbrev pub last_chunk : Bytes
last_chunk = 48 ∷ (crlf ++ crlf)

module _ ⦃o : Buffer⦄ where
  -- Writing pieces into a body of announced length and ending the message succeeds exactly if the
  -- pieces together have that length, and then appends them; otherwise it panics.
  pub run_fixed_body :
      (ds : List Bytes) (n : ℕ) (buf : Bytes)
      → run (whole_body ds) (fixed_body false n) buf
        ≡ (if length (concat ds) == n then returns (done, buf ++ concat ds) else panic)
  unfolding run call write_body finish
  run_fixed_body [] n buf = ground (arith, append-nil buf)
  run_fixed_body (d ∷ ds) n buf = ground (
    arith,
    length-append d (concat ds),
    extend_lem buf d,
    append_assoc buf d (concat ds),
    run_fixed_body ds (n - length d) (extend buf d),
  )

  -- In a response to HEAD with an announced length, writing pieces and ending the message succeeds
  -- exactly if the pieces together are no longer than that, and then appends nothing; otherwise it
  -- panics.
  pub run_head_body :
      (ds : List Bytes) (n : ℕ) (buf : Bytes)
      → run (whole_body ds) (fixed_body true n) buf
        ≡ (if leb (length (concat ds)) n then returns (done, buf) else panic)
  unfolding run call write_body finish
  run_head_body [] n buf = ground arith
  run_head_body (d ∷ ds) n buf =
      ground (arith, length-append d (concat ds), run_head_body ds (n - length d) buf)

  pub run_step :
      (c : Call) (cs : List Call) (s : MessageState) (buf : Bytes) {t : MessageState} {tbuf : Bytes}
      → call c s buf ≡ returns (t, tbuf)
      → run (c ∷ cs) s buf ≡ run cs t tbuf
  unfolding run
  run_step c cs s buf h = rw (h, run)

  call_body_chunked :
      (x : ℕ) (d buf : Bytes)
      → call (body (x ∷ d)) (chunked_body false) buf
        ≡ returns (chunked_body false, buf ++ chunk_text (x ∷ d))
  unfolding call write_body
  call_body_chunked x d buf =
      let size : Bytes = hex (suc (length d)) ++ crlf in
      ground (
        arith,
        extend_lem buf size,
        extend_lem (buf ++ size) (x ∷ d),
        extend_lem (buf ++ size ++ (x ∷ d)) crlf,
        regroup buf (hex (suc (length d))) crlf (x ∷ d) crlf,
      )
    where
      regroup : (a b c d e : Bytes) → a ++ (b ++ c) ++ d ++ e ≡ a ++ (b ++ (c ++ (d ++ e)))
      regroup a b c d e = simp append_assoc

  call_body_empty :
      (buf : Bytes) → call (body []) (chunked_body false) buf ≡ returns (chunked_body false, buf)
  unfolding call write_body
  call_body_empty buf = refl

  -- A chunked body is the chunks of its pieces and the last chunk.
  pub run_chunked_body :
      (ds : List Bytes) (buf : Bytes)
      → run (whole_body ds) (chunked_body false) buf
        ≡ returns (done, buf ++ (chunks ds ++ last_chunk))
  run_chunked_body [] buf = unfold run call finish in rw extend_lem
  run_chunked_body ([] ∷ ds) buf =
      run_step (body []) (whole_body ds) (chunked_body false) buf (call_body_empty buf)
      ∙ run_chunked_body ds buf
  run_chunked_body ((x ∷ d) ∷ ds) buf =
      run_step (body (x ∷ d)) (whole_body ds) (chunked_body false) buf (call_body_chunked x d buf)
      ∙ run_chunked_body ds (buf ++ chunk_text (x ∷ d))
      ∙ ap (λ b. returns (done, b))
          (append_assoc buf (chunk_text (x ∷ d)) (chunks ds ++ last_chunk)
            ∙ ap (◌++◌ buf) (sym (append_assoc (chunk_text (x ∷ d)) (chunks ds) last_chunk)))
