-- ===== src/Chunked/Decode.antt =====
-- The decoder of src/chunked.rs on what the serializer of src/base_serializer.rs writes.
use minihttp.Base.{
  ℕ, suc, ◌+◌, ◌-◌, ◌<◌, ◌≤◌, ◌^◌, ◌≡◌, sym, ap, ◌∙◌, false, some, List, [], ◌∷◌, ◌++◌, Bytes,
  length, concat, returns, ok, err, arith, lt→ltb, le→ltb, length-append, append-nil, drop-append,
}
use minihttp.Buffer.{Buffer}
use minihttp.Serializer.Head.{crlf}
use minihttp.Serializer.Wire.{chunks}
use minihttp.Chunked.{InvalidChunkSize, SizeParser, again, leave, read_size, turn, loop, parse}
use minihttp.Chunked.Laws.{loop-again, loop-leave, loop_end}
use minihttp.Chunked.Rounds.{
  at_size, ended, hex_zero, turn_size_line, add_rounds, add_rounds-le, loop-chunks,
}

module _ ⦃o : Buffer⦄ ⦃p : SizeParser⦄ where
  -- `parse` goes through whole chunks and then on with what follows them.
  parse_rest :
      (ds : List Bytes) (front more : Bytes)
      → length (front ++ (chunks ds ++ more)) < 2 ^ 64
      → (fuel : ℕ) × (length more ≤ fuel)
        × (parse (at_size (length front)) (front ++ (chunks ds ++ more))
            ≡ loop (suc fuel) (at_size (length (front ++ concat ds))) (front ++ concat ds ++ more))
  unfolding parse
  parse_rest ds front more small =
      let buf : Bytes = front ++ (chunks ds ++ more) in
      let fuel : ℕ = length buf - add_rounds ds 0 in
      let (sum, le) = add_rounds-le ds (suc fuel) in
      let lens = length-append front (chunks ds ++ more) in
      let lens' = length-append (chunks ds) more in
      (
        fuel,
        omega arith,
        ap (λ f. loop f (at_size (length front)) buf) {x = length buf + 1}
              {y = add_rounds ds (suc fuel)} (omega arith)
            ∙ loop-chunks ds (suc fuel) front more small,
      )

  -- In a buffer of less than 2^64 bytes that holds decoded bytes and the chunks that the
  -- serializer writes for some pieces, `parse` leaves the decoded bytes and the pieces joined,
  -- counts them all as decoded, and waits for the next size line.
  pub parse-chunks :
      (ds : List Bytes) (front : Bytes)
      → length (front ++ chunks ds) < 2 ^ 64
      → parse (at_size (length front)) (front ++ chunks ds)
        ≡ some (returns (at_size (length (front ++ concat ds)), front ++ concat ds, ok tt))
  parse-chunks ds front small =
      let (fuel, enough, e) = parse_rest ds front [] (rw append-nil small) in
      let tight : front ++ concat ds ++ [] ≡ front ++ concat ds = append-nil _ in
      ap (λ b. parse (at_size (length front)) (front ++ b)) (sym (append-nil (chunks ds)))
      ∙ e
      ∙ ap (loop (suc fuel) (at_size (length (front ++ concat ds)))) tight
      ∙ loop_end fuel (at_size (length (front ++ concat ds))) (front ++ concat ds)
          (le→ltb _ _ (omega arith))

  -- Behind the last size line the loop goes on with whatever the buffer still holds.
  parse_last_size :
      (ds : List Bytes) (front more : Bytes)
      → length (front ++ (chunks ds ++ (48 ∷ (crlf ++ more)))) < 2 ^ 64
      → (fuel : ℕ) × (parse (at_size (length front)) (front ++ (chunks ds ++ (48 ∷ (crlf ++ more))))
          ≡ loop (suc fuel) (ended (length (front ++ concat ds))) (front ++ concat ds ++ more))
  parse_last_size ds front more small =
      let (fuel, enough, e) = parse_rest ds front (48 ∷ (crlf ++ more)) small in
      let F : Bytes = front ++ concat ds in
      let len = length-append F (48 ∷ (crlf ++ more)) in
      let round : turn (at_size (length F)) (F ++ (48 ∷ (crlf ++ more)))
          ≡ again (ended (length F)) (F ++ more) =
        ap (λ h. turn (at_size (length F)) (F ++ (h ++ (crlf ++ more)))) (sym hex_zero)
        ∙ turn_size_line F 0 more false (omega arith) in
      (
        fuel - 1,
        e
            ∙ loop-again fuel (at_size (length F)) (ended (length F)) (F ++ (48 ∷ (crlf ++ more)))
                (F ++ more) (lt→ltb _ _ (omega arith)) round
            ∙ ap (λ f. loop f (ended (length F)) (F ++ more)) {x = fuel} {y = suc (fuel - 1)}
                (omega arith),
      )

  -- In a buffer of less than 2^64 bytes that holds decoded bytes, the chunks that the serializer
  -- writes for some pieces and the last size line, `parse` leaves the decoded bytes and the pieces
  -- joined, counts them all as decoded, and is done.
  pub parse_last :
      (ds : List Bytes) (front : Bytes)
      → length (front ++ (chunks ds ++ (48 ∷ crlf))) < 2 ^ 64
      → parse (at_size (length front)) (front ++ (chunks ds ++ (48 ∷ crlf)))
        ≡ some (returns (ended (length (front ++ concat ds)), front ++ concat ds, ok tt))
  parse_last ds front small =
      let (fuel, e) = parse_last_size ds front [] small in
      let F : Bytes = front ++ concat ds in
      e
      ∙ ap (loop (suc fuel) (ended (length F))) (append-nil F)
      ∙ loop_end fuel (ended (length F)) F (le→ltb _ _ (omega arith))

  turn_after_end :
      (front more : Bytes) (x : InvalidChunkSize)
      → p.parse_chunk_size more ≡ err x
      → turn (ended (length front)) (front ++ more)
        ≡ leave (ended (length front)) (front ++ more) (err x)
  unfolding turn read_size
  turn_after_end front more x bad = rw (drop-append front more, bad)

  -- In a buffer of less than 2^64 bytes that holds decoded bytes, chunks, the last size line and
  -- further bytes that are no size line, `parse` takes the data of the chunks and is done, and all
  -- the same returns the error of the size line.
  pub parse_after_end :
      (ds : List Bytes) (front more : Bytes) (x : InvalidChunkSize)
      → length (front ++ (chunks ds ++ (48 ∷ (crlf ++ more)))) < 2 ^ 64
      → 0 < length more
      → p.parse_chunk_size more ≡ err x
      → parse (at_size (length front)) (front ++ (chunks ds ++ (48 ∷ (crlf ++ more))))
        ≡ some (returns (ended (length (front ++ concat ds)), front ++ concat ds ++ more, err x))
  parse_after_end ds front more x small pos bad =
      let (fuel, e) = parse_last_size ds front more small in
      let F : Bytes = front ++ concat ds in
      e
      ∙ loop-leave fuel (ended (length F)) (ended (length F)) (F ++ more) (F ++ more) (err x)
          (lt→ltb _ _ (omega (arith, length-append F more))) (turn_after_end F more x bad)
