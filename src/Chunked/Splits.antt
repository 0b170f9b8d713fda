-- ===== src/Chunked/Splits.antt =====
-- The decoder of src/chunked.rs when the buffer ends within the line end behind a chunk.
use minihttp.Base.{
  suc, ◌+◌, ◌-◌, ◌<◌, ◌^◌, ◌≡◌, ap, ◌∙◌, some, [], ◌∷◌, ◌++◌, Bytes, length, panic, returns, ok,
  arith, lt→ltb, le→ltb, length-append,
}
use minihttp.Buffer.{Buffer}
use minihttp.Chunked.{SizeParser, again, overflow, turn, loop, parse}
use minihttp.Chunked.Laws.{loop-again, loop-overflow, loop_end}
use minihttp.Chunked.Rounds.{at_size, in_chunk}

module _ ⦃o : Buffer⦄ ⦃p : SizeParser⦄ (front d : Bytes) (pos : 0 < length d)
    (small : length front + length d + 2 < 2 ^ 64) where
  turn_half : turn (in_chunk (length front) (length d)) (front ++ (d ++ (13 ∷ []))) ≡ overflow
  unfolding turn
  turn_half = ground (arith, length-append front (d ++ (13 ∷ [])), length-append d (13 ∷ []))

  -- Within a chunk whose data are in the buffer with one byte of the line end behind them, `parse`
  -- panics by an overflow, for sizes below 2^64.
  pub parse_half_line_end :
      parse (in_chunk (length front) (length d)) (front ++ (d ++ (13 ∷ []))) ≡ some panic
  unfolding parse
  parse_half_line_end =
      let buf : Bytes = front ++ (d ++ (13 ∷ [])) in
      ap (λ f. loop f (in_chunk (length front) (length d)) buf) {x = length buf + 1}
        {y = suc (length buf)} (omega arith)
      ∙ loop-overflow (length buf) (in_chunk (length front) (length d)) buf
          (lt→ltb _ _
            (omega (arith, length-append front (d ++ (13 ∷ [])), length-append d (13 ∷ []))))
          turn_half

  turn_none :
      turn (in_chunk (length front) (length d)) (front ++ d)
      ≡ again (at_size (length (front ++ d))) (front ++ d)
  unfolding turn
  turn_none = ground (arith, length-append front d)

  -- Within a chunk whose data are in the buffer with nothing behind them, `parse` counts the data
  -- as decoded and then waits for a size line, no longer for the line end, for sizes below 2^64.
  pub parse_no_line_end :
      parse (in_chunk (length front) (length d)) (front ++ d)
      ≡ some (returns (at_size (length (front ++ d)), front ++ d, ok tt))
  unfolding parse
  parse_no_line_end =
      let buf : Bytes = front ++ d in
      let len = length-append front d in
      ap (λ f. loop f (in_chunk (length front) (length d)) buf) {x = length buf + 1}
        {y = suc (length buf)} (omega arith)
      ∙ loop-again (length buf) (in_chunk (length front) (length d)) (at_size (length buf)) buf buf
          (lt→ltb _ _ (omega arith)) turn_none
      ∙ ap (λ f. loop f (at_size (length buf)) buf) {x = length buf} {y = suc (length buf - 1)}
          (omega arith)
      ∙ loop_end (length buf - 1) (at_size (length buf)) buf (le→ltb _ _ (omega arith))
