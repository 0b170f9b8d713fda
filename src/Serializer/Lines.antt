-- ===== src/Serializer/Lines.antt =====
-- What the header methods of src/base_serializer.rs put into the buffer.
use minihttp.Base.{
  ℕ, ◌≡◌, refl, ◌∙◌, Bool, true, false, [], ◌∷◌, ◌++◌, arith, Bytes, length, All, if◌then◌else◌,
  returns, Result, ok, err, append_assoc, append-nil, length-append, drop-append, drop_all,
  take-append,
}
use minihttp.Base.Ascii.{codes}
use minihttp.Base.Digits.{decimal, decimal-IsDigit, IsDigit}
use minihttp.Buffer.{Buffer, remove_range, extend_lem}
use minihttp.Serializer.State.{
  HeaderError, invalid_header_name, invalid_header_value, MessageState, headers, fixed_headers,
  chunked_headers,
}
use minihttp.Serializer.Head.{
  crlf, invalid_header, is_body_length_name, write_header, write_formatted, add_header,
}

-- A header as it stands on the wire.
abbrev pub header_line : Bytes → Bytes → Bytes
header_line name value = name ++ (codes ": " ++ (value ++ crlf))

-- The states in which a header can be added.
abbrev pub takes_headers : MessageState → Bool
takes_headers (headers _ _) = true
takes_headers (fixed_headers _ _ _) = true
takes_headers (chunked_headers _ _) = true
takes_headers _ = false

-- An accepted header is appended as one line that holds no other line end and is no body length; a
-- refused one leaves message and buffer as they were.
abbrev pub IsHeaderOutcome :
    MessageState
    → Bytes
    → Bytes
    → Bytes
    → MessageState × Bytes × Result HeaderError (Unit {0})
    → Type 0
IsHeaderOutcome s buf name value (s', buf', ok u) =
    (s' ≡ s)
    × (buf' ≡ buf ++ header_line name value)
    × (invalid_header name ≡ false)
    × (invalid_header value ≡ false)
    × (is_body_length_name name ≡ false)
    × (takes_headers s ≡ true)
IsHeaderOutcome s buf name value (s', buf', err e) = (s' ≡ s) × (buf' ≡ buf)

digits_are_valid : (xs : Bytes) → All IsDigit xs → invalid_header xs ≡ false
unfolding invalid_header
digits_are_valid [] h = refl
digits_are_valid (x ∷ xs) (hx, hxs) = ground (arith, digits_are_valid xs hxs)

module _ ⦃o : Buffer⦄ where
  -- Cutting off what was appended restores the buffer.
  cut_off :
      (buf name value : Bytes)
      → let all_of : Bytes = buf ++ name ++ codes ": " ++ value in
        remove_range all_of (length buf) (length all_of) ≡ buf
  cut_off buf name value =
      let all_of : Bytes = buf ++ name ++ codes ": " ++ value in
      o.remove_range_cuts all_of (length buf) (length all_of) (simp length-append (omega arith))
        (omega arith)
      ∙ rw (drop_all all_of, append-nil)
          (rw (append_assoc, append_assoc) (take-append buf (name ++ (codes ": " ++ value))))

  -- The header is appended whole, or the buffer is what it was.
  pub write_header_lem :
      (buf name value : Bytes)
      → write_header buf name value ≡ (
          if invalid_header name
          then (buf, err invalid_header_name)
          else if invalid_header value
          then (buf, err invalid_header_value)
          else (buf ++ header_line name value, ok tt))
  unfolding write_header
  write_header_lem buf name value =
      simp (extend_lem, drop-append) (rw (cut_off buf name value) (simp append_assoc))

  -- If `add_header` returns, then either it succeeds, and name and value hold no line end, the
  -- name is not that of a body length in any case, the state takes headers, and exactly one header
  -- line is appended; or it fails, and the buffer is what it was. The state of the message does
  -- not change.
  pub add_header_outcome :
      (s : MessageState) (buf name value : Bytes) (s' : MessageState) (buf' : Bytes)
      → (r : Result HeaderError (Unit {0})) → add_header s buf name value ≡ returns (s', buf', r)
      → IsHeaderOutcome s buf name value (s', buf', r)
  unfolding add_header
  add_header_outcome (headers b c) buf name value s' buf' (ok u) h =
      ground (arith, write_header_lem buf name value)
  add_header_outcome (headers b c) buf name value s' buf' (err e) h =
      ground (arith, write_header_lem buf name value)
  add_header_outcome (fixed_headers b c n) buf name value s' buf' (ok u) h =
      ground (arith, write_header_lem buf name value)
  add_header_outcome (fixed_headers b c n) buf name value s' buf' (err e) h =
      ground (arith, write_header_lem buf name value)
  add_header_outcome (chunked_headers b c) buf name value s' buf' (ok u) h =
      ground (arith, write_header_lem buf name value)
  add_header_outcome (chunked_headers b c) buf name value s' buf' (err e) h =
      ground (arith, write_header_lem buf name value)
  add_header_outcome _ buf name value s' buf' (ok u) h = ground arith
  add_header_outcome _ buf name value s' buf' (err e) h = ground arith

  -- `Content-Length` with the number in decimal is always accepted.
  pub write_length :
      (buf : Bytes) (n : ℕ)
      → write_formatted buf (codes "Content-Length") (decimal n)
        ≡ (buf ++ header_line (codes "Content-Length") (decimal n), ok tt)
  unfolding write_formatted invalid_header
  write_length buf n = rw write_header_lem (rw (digits_are_valid (decimal n) (decimal-IsDigit n)))

  pub write_chunked :
      (buf : Bytes)
      → write_header buf (codes "Transfer-Encoding") (codes "chunked")
        ≡ (buf ++ header_line (codes "Transfer-Encoding") (codes "chunked"), ok tt)
  unfolding invalid_header
  write_chunked buf = rw write_header_lem
