-- ===== src/Chunked/Rounds.antt =====
-- The rounds of the decoder of src/chunked.rs on what the serializer of src/base_serializer.rs writes.
use minihttp.Base.{
  ℕ, suc, ◌+◌, ◌<◌, ◌≤◌, ◌^◌, ◌≡◌, refl, sym, ap, ◌∙◌, Bool, true, false, List, [], ◌∷◌, ◌++◌,
  Bytes, length, concat, ◌==◌, if◌then◌else◌, arith, lt→ltb, length-append, append_assoc,
  append-nil, drop-append,
}
use minihttp.Base.Digits.{hex}
use minihttp.Buffer.{Buffer, remove_range, remove_middle}
use minihttp.Serializer.Head.{crlf}
use minihttp.Serializer.Finish.{chunk_text}
use minihttp.Serializer.Wire.{chunks}
use minihttp.Chunked.{SizeParser, State, again, read_size, turn, loop}
use minihttp.Chunked.Laws.{loop-again}

-- The decoder in front of a size line, with `k` decoded bytes, and within a chunk.
abbrev pub at_size : ℕ → State
at_size k = record { buffered = k; pending = 0; done = false }

abbrev pub in_chunk : ℕ → ℕ → State
in_chunk k n = record { buffered = k; pending = n; done = false }

abbrev pub ended : ℕ → State
ended k = record { buffered = k; pending = 0; done = true }

pub hex_zero : hex 0 ≡ 48 ∷ []
unfolding hex
hex_zero = refl

module _ ⦃o : Buffer⦄ ⦃p : SizeParser⦄ where
  cut_line :
      (front : Bytes) (n : ℕ) (more : Bytes)
      → remove_range
          (front ++ (hex n ++ (crlf ++ more)))
          (length front)
          (length front + (length (hex n) + 2))
        ≡ front ++ more
  cut_line front n more =
      ap (remove_range (front ++ (hex n ++ (crlf ++ more))) (length front))
        {x = length front + (length (hex n) + 2)} {y = length front + length (hex n ++ crlf)}
        (omega (arith, length-append (hex n) crlf))
      ∙ ap (λ b. remove_range (front ++ b) (length front) (length front + length (hex n ++ crlf)))
          (sym (append_assoc (hex n) crlf more))
      ∙ remove_middle front (hex n ++ crlf) more

  -- The round that takes a size line away.
  pub turn_size_line :
      (front : Bytes) (n : ℕ) (more : Bytes) (done : Bool)
      → n < 2 ^ 64
      → turn
          (record { buffered = length front; pending = 0; done = done })
          (front ++ (hex n ++ (crlf ++ more)))
        ≡ again
            (if n == 0
              then ended (length front)
              else record { buffered = length front; pending = n; done = done })
            (front ++ more)
  unfolding turn read_size
  turn_size_line front n more done h =
      rw (drop-append front (hex n ++ (crlf ++ more)), p.size_line n more h)
        (ground (arith, cut_line front n more))

  -- The round that takes the line end behind a chunk away.
  turn_chunk :
      (front d more : Bytes)
      → 0 < length d
      → length front + length d + 2 < 2 ^ 64
      → turn (in_chunk (length front) (length d)) (front ++ (d ++ (crlf ++ more)))
        ≡ again (at_size (length (front ++ d))) (front ++ d ++ more)
  unfolding turn
  turn_chunk front d more pos h = ground (
    arith,
    length-append front d,
    length-append front (d ++ (crlf ++ more)),
    length-append d (crlf ++ more),
    remove_middle (front ++ d) crlf more,
    append_assoc front d (crlf ++ more),
  )

  -- One whole chunk takes two rounds.
  loop_chunk :
      (fuel : ℕ) (front : Bytes) (x : ℕ) (d more : Bytes)
      → length (front ++ (chunk_text (x ∷ d) ++ more)) < 2 ^ 64
      → loop (suc (suc fuel)) (at_size (length front)) (front ++ (chunk_text (x ∷ d) ++ more))
        ≡ loop fuel (at_size (length (front ++ (x ∷ d)))) (front ++ (x ∷ d) ++ more)
  loop_chunk fuel front x d more small =
      let n : ℕ = suc (length d) in
      let body : Bytes = (x ∷ d) ++ (crlf ++ more) in
      let shape : chunk_text (x ∷ d) ++ more ≡ hex n ++ (crlf ++ body) = simp append_assoc in
      let total : length (front ++ (chunk_text (x ∷ d) ++ more))
          ≡ length front + (length (hex n) + (2 + length body)) =
        rw (shape, length-append, length-append) (omega arith) in
      let body_len : length body ≡ n + (2 + length more) =
        omega (arith, length-append (x ∷ d) (crlf ++ more)) in
      let rest_len = length-append front body in
      let first : turn (at_size (length front)) (front ++ (hex n ++ (crlf ++ body)))
          ≡ again (in_chunk (length front) n) (front ++ body) =
        turn_size_line front n body false (omega arith) ∙ ground arith in
      ap (λ b. loop (suc (suc fuel)) (at_size (length front)) (front ++ b)) shape
      ∙ loop-again (suc fuel) (at_size (length front)) (in_chunk (length front) n)
          (front ++ (hex n ++ (crlf ++ body))) (front ++ body)
          (lt→ltb _ _ (omega (arith, ap (λ b. length (front ++ b)) shape))) first
      ∙ loop-again fuel (in_chunk (length front) n) (at_size (length (front ++ (x ∷ d))))
          (front ++ body) (front ++ (x ∷ d) ++ more) (lt→ltb _ _ (omega arith))
          (turn_chunk front (x ∷ d) more (omega arith) (omega arith))

  -- The rounds that chunks take, and some more.
  abbrev pub add_rounds : List Bytes → ℕ → ℕ
  add_rounds [] fuel = fuel
  add_rounds ([] ∷ ds) fuel = add_rounds ds fuel
  add_rounds ((x ∷ d) ∷ ds) fuel = suc (suc (add_rounds ds fuel))

  pub add_rounds-le :
      (ds : List Bytes) (fuel : ℕ)
      → (add_rounds ds fuel ≡ add_rounds ds 0 + fuel) × (add_rounds ds 0 ≤ length (chunks ds))
  add_rounds-le [] fuel = (omega arith, omega arith)
  add_rounds-le ([] ∷ ds) fuel = add_rounds-le ds fuel
  add_rounds-le ((x ∷ d) ∷ ds) fuel =
      let more = length-append (chunk_text (x ∷ d)) (chunks ds) in
      let chunk_len = length-append (hex (suc (length d))) (crlf ++ ((x ∷ d) ++ crlf)) in
      let (sum, le) = add_rounds-le ds fuel in (omega arith, omega arith)

  pub loop-chunks :
      (ds : List Bytes) (fuel : ℕ) (front more : Bytes)
      → length (front ++ (chunks ds ++ more)) < 2 ^ 64
      → loop (add_rounds ds fuel) (at_size (length front)) (front ++ (chunks ds ++ more))
        ≡ loop fuel (at_size (length (front ++ concat ds))) (front ++ concat ds ++ more)
  loop-chunks [] fuel front more small = rw append-nil
  loop-chunks ([] ∷ ds) fuel front more small = loop-chunks ds fuel front more small
  loop-chunks ((x ∷ d) ∷ ds) fuel front more small =
      let c : Bytes = chunk_text (x ∷ d) in
      let rest : Bytes = chunks ds ++ more in
      let shape : (c ++ chunks ds) ++ more ≡ c ++ rest = append_assoc c (chunks ds) more in
      let small' : length (front ++ (c ++ rest)) < 2 ^ 64 = rw shape at small in
      let lens = length-append front (c ++ rest) in
      let c_rest = length-append c rest in
      let c_len = length-append (hex (suc (length d))) (crlf ++ ((x ∷ d) ++ crlf)) in
      let d_len = length-append (x ∷ d) crlf in
      let lens' = length-append (front ++ (x ∷ d)) rest in
      let front_len = length-append front (x ∷ d) in
      ap (λ b. loop (suc (suc (add_rounds ds fuel))) (at_size (length front)) (front ++ b)) shape
      ∙ loop_chunk (add_rounds ds fuel) front x d rest small'
      ∙ loop-chunks ds fuel (front ++ (x ∷ d)) more (omega arith)
      ∙ ap (λ b. loop fuel (at_size (length b)) (b ++ more))
          (append_assoc front (x ∷ d) (concat ds))
