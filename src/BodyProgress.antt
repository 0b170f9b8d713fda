-- ===== src/BodyProgress.antt =====
-- How much of a body has been read, src/body_parser.rs.
pub mod Laws
mod Examples
use minihttp.Base.{
  ℕ, ◌-◌, Bool, true, false, Option, none, some, Bytes, length, leb, if◌then◌else◌, Run, panic,
  returns, ◌>>=◌, Result, ok, err,
}
use minihttp.Buffer.{Buffer, consume as consume_bytes}
use minihttp.Chunked
use minihttp.Chunked.{State, SizeParser, InvalidChunkSize}

pub data BodyProgress : Type 0 where
  fixed : ℕ → BodyProgress
  eof : BodyProgress
  chunked : State → BodyProgress

-- What the code sees of a `ReadBuf`: its input buffer, and whether the other side has closed.
pub record ReadBuf : Type 0 where
  pub in_buf : Bytes
  pub closed : Bool

-- The number of useful bytes in the buffer, and the end flag.
unfoldable pub check_buf : BodyProgress → ReadBuf → ℕ × Bool
check_buf (fixed x) io = if leb x (length io.in_buf) then (x, true) else (length io.in_buf, false)
check_buf (chunked s) io = (s.buffered, s.done)
check_buf eof io = (length io.in_buf, io.closed)

abbrev pub Answer : Type 0
Answer = Run (BodyProgress × ReadBuf × Result InvalidChunkSize (Unit {0}))

-- The decoder's answer put back into the body and the buffer.
abbrev pub from_decoder :
    ReadBuf → Run (State × Bytes × Result InvalidChunkSize (Unit {0})) → Answer
from_decoder io panic = panic
from_decoder io (returns (s, buf, r)) = returns (chunked s, record io { in_buf = buf }, r)

abbrev unless_stuck :
    ReadBuf → Option (Run (State × Bytes × Result InvalidChunkSize (Unit {0}))) → Option Answer
unless_stuck io none = none
unless_stuck io (some r) = some (from_decoder io r)

module _ ⦃o : Buffer⦄ ⦃p : SizeParser⦄ where
  -- `none` stands for a decoder that ran out of its fuel.
  unfoldable pub parse : BodyProgress → ReadBuf → Option Answer
  parse (fixed x) io = some (returns (fixed x, io, ok tt))
  parse (chunked s) io = unless_stuck io (Chunked.parse s io.in_buf)
  parse eof io = some (returns (eof, io, ok tt))

module _ ⦃o : Buffer⦄ where
  abbrev rest_of : State → ReadBuf → Run State → Run (BodyProgress × ReadBuf)
  rest_of s io panic = panic
  rest_of s io (returns s') = returns (chunked s', io)

  take_from : BodyProgress → ReadBuf → ℕ → Run (BodyProgress × ReadBuf)
  take_from (fixed x) io n = if leb n x then returns (fixed (x - n), io) else panic
  take_from (chunked s) io n = rest_of s io (Chunked.consume s n)
  take_from eof io n = returns (eof, io)

  unfoldable pub consume : BodyProgress → ReadBuf → ℕ → Run (BodyProgress × ReadBuf)
  unfolding take_from
  consume b io n = take_from b (record io { in_buf = consume_bytes io.in_buf n }) n
