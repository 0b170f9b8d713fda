-- ===== src/Chunked.antt =====
-- The decoder of chunked bodies, src/chunked.rs.
pub mod Laws
pub mod Rounds
pub mod Decode
pub mod Splits
pub mod LineParser
mod Examples
use minihttp.Base.{
  ℕ, zero, suc, ◌+◌, ◌-◌, ◌<◌, ◌≤◌, ◌^◌, ◌≡◌, Bool, true, false, Option, none, some, [], ◌∷◌, ◌++◌,
  Bytes, length, drop, ltb, leb, ◌==◌, if◌then◌else◌, Run, panic, returns, Result, ok, err,
}
use minihttp.Base.Digits.{hex}
use minihttp.Buffer.{Buffer, remove_range}

-- `httparse::Status<(usize, u64)>`
pub data SizeStatus : Type 0 where
  complete : ℕ → ℕ → SizeStatus
  partial : SizeStatus

-- `httparse::InvalidChunkSize`
pub data InvalidChunkSize : Type 0 where
  invalid_chunk_size : InvalidChunkSize

-- `parse_chunk_size` of the crate httparse: it gives the position behind the size line and the size.
pub record SizeParser : Type 0 where
  pub parse_chunk_size : Bytes → Result InvalidChunkSize SizeStatus
  pub size_within :
      (buf : Bytes) (n size : ℕ)
      → parse_chunk_size buf ≡ ok (complete n size)
      → (1 ≤ n) × (n ≤ length buf)
  pub size_line :
      (size : ℕ) (rest : Bytes)
      → size < 2 ^ 64
      → parse_chunk_size (hex size ++ (13 ∷ 10 ∷ rest)) ≡ ok (complete (length (hex size) + 2) size)

pub record State : Type 0 where
  pub buffered : ℕ
  pub pending : ℕ
  pub done : Bool

unfoldable pub new : State
new = record { buffered = 0; pending = 0; done = false }

-- How a round of the `while` loop ends: on with the loop, by a `return`, or by an overflow, of the
-- sum `*buffered + *pending + 2` or of the difference `*pending -= buf.len() - *buffered`.
pub data Turn : Type 0 where
  again : State → Bytes → Turn
  leave : State → Bytes → Result InvalidChunkSize (Unit {0}) → Turn
  overflow : Turn

module _ ⦃o : Buffer⦄ ⦃p : SizeParser⦄ where
  unfoldable pub read_size : State → Bytes → Result InvalidChunkSize SizeStatus → Turn
  read_size s buf (err e) = leave s buf (err e)
  read_size s buf (ok partial) = leave s buf (ok tt)
  read_size s buf (ok (complete bytes size)) =
      again (if size == 0 then record s { done = true } else record s { pending = size })
        (remove_range buf s.buffered (s.buffered + bytes))

  -- The body of the loop.
  unfoldable pub turn : State → Bytes → Turn
  unfolding read_size
  turn s buf =
      if s.pending == 0
      then read_size s buf (p.parse_chunk_size (drop s.buffered buf))
      else if leb (2 ^ 64) (s.buffered + s.pending + 2)
      then overflow
      else if leb (s.buffered + s.pending + 2) (length buf)
      then again (record s { buffered = s.buffered + s.pending; pending = 0 })
          (remove_range buf (s.buffered + s.pending) (s.buffered + s.pending + 2))
      else if ltb s.pending (length buf - s.buffered)
      then overflow
      else again
          (record s { buffered = length buf; pending = s.pending - (length buf - s.buffered) }) buf

  -- The `while` loop; `none` means that the fuel ran out.
  unfoldable pub loop :
      ℕ → State → Bytes → Option (Run (State × Bytes × Result InvalidChunkSize (Unit {0})))
  loop zero s buf = none
  loop (suc fuel) s buf = elim (ltb s.buffered (length buf)) [
    | false ↦ some (returns (s, buf, ok tt))
    | true ↦ elim (turn s buf) [
      | again s' buf' ↦ loop fuel s' buf'
      | leave s' buf' r ↦ some (returns (s', buf', r))
      | overflow ↦ some panic
    ]
  ]

  -- `if *done { return Ok(()); }` and the loop.
  unfoldable pub start :
      State → Bytes → Bool → Option (Run (State × Bytes × Result InvalidChunkSize (Unit {0})))
  start s buf true = some (returns (s, buf, ok tt))
  start s buf false = loop (length buf + 1) s buf

  -- Each round leaves less behind `buffered`, so one more round than there are bytes is enough.
  unfoldable pub parse :
      State → Bytes → Option (Run (State × Bytes × Result InvalidChunkSize (Unit {0})))
  unfolding start loop turn
  parse s buf = start s buf s.done

unfoldable pub consume : State → ℕ → Run State
consume s n = if leb n s.buffered then returns (record s { buffered = s.buffered - n }) else panic
