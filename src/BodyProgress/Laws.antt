-- ===== src/BodyProgress/Laws.antt =====
-- A reader of a body that takes no more than it is offered, src/body_parser.rs.
use minihttp.Base.{
  ℕ, ◌-◌, ◌≤◌, ◌≡◌, refl, some, length, drop, panic, returns, ok, arith, length-drop,
}
use minihttp.Buffer.{Buffer}
use minihttp.Chunked
use minihttp.Chunked.{State, SizeParser, InvalidChunkSize}
use minihttp.Chunked.Laws.{parse-Keeps, Keeps, Parsed}
use minihttp.BodyProgress.{
  BodyProgress, fixed, eof, chunked, ReadBuf, check_buf, parse, consume, Answer, from_decoder,
}

-- The decoded bytes of a chunked body are in the buffer.
abbrev pub IsWithin : BodyProgress → ReadBuf → Type 0
IsWithin (chunked s) io = s.buffered ≤ length io.in_buf
IsWithin _ io = Unit {0}

-- What is still to come of a body of known length.
abbrev pub bytes_left : BodyProgress → ℕ
bytes_left (fixed x) = x
bytes_left (chunked s) = s.buffered
bytes_left eof = 0

-- What `parse` leaves, whether it succeeds or not.
abbrev pub ParsedWithin : ReadBuf → Answer → Type 0
ParsedWithin io panic = Unit {0}
ParsedWithin io (returns (b, io', r)) = IsWithin b io' × (length io'.in_buf ≤ length io.in_buf)

Keeps-within :
    (s : State) (io : ReadBuf) (r : Parsed)
    → Keeps s io.in_buf r
    → ParsedWithin io (from_decoder io r)
Keeps-within s io panic k = tt
Keeps-within s io (returns (s', buf', r)) (fits, grows, same, short) = (fits, short)

module _ ⦃o : Buffer⦄ ⦃p : SizeParser⦄ where
  -- If the decoded bytes are in the buffer, `parse` of a body ends, and if it returns they are in
  -- the buffer again.
  pub parse-IsWithin :
      (b : BodyProgress) (io : ReadBuf)
      → IsWithin b io
      → (a : Answer) × (parse b io ≡ some a) × ParsedWithin io a
  unfolding parse
  parse-IsWithin (fixed x) io h = (returns (fixed x, io, ok tt), refl, (tt, omega arith))
  parse-IsWithin eof io h = (returns (eof, io, ok tt), refl, (tt, omega arith))
  parse-IsWithin (chunked s) io h =
      let (r, e, k) = parse-Keeps s io.in_buf h in (from_decoder io r, rw e, Keeps-within s io r k)

module _ ⦃o : Buffer⦄ where
  -- If the decoded bytes are in the buffer, consuming no more than `check_buf` offers does not
  -- panic: as many bytes leave the front of the buffer, what is left of the body is less by as
  -- many, and the decoded bytes are still in the buffer.
  pub consume_offered :
      (b : BodyProgress) (io : ReadBuf) (n : ℕ)
      → IsWithin b io
      → n ≤ (check_buf b io).0
      → (b' : BodyProgress) × (io' : ReadBuf) × (consume b io n ≡ returns (b', io'))
        × (io'.in_buf ≡ drop n io.in_buf)
        × (bytes_left b' ≡ bytes_left b - n)
        × IsWithin b' io'
  unfolding consume check_buf
  consume_offered (fixed x) io n h l = (
    fixed (x - n),
    record io { in_buf = drop n io.in_buf },
    ground (arith, o.consume_drops io.in_buf n),
    refl,
    refl,
    tt,
  )
  consume_offered (chunked s) io n h l = (
    chunked (record s { buffered = s.buffered - n }),
    record io { in_buf = drop n io.in_buf },
    unfold Chunked.consume in ground (arith, o.consume_drops io.in_buf n),
    refl,
    refl,
    omega (arith, length-drop n io.in_buf),
  )
  consume_offered eof io n h l = (
    eof,
    record io { in_buf = drop n io.in_buf },
    ground (arith, o.consume_drops io.in_buf n),
    refl,
    omega arith,
    tt,
  )
