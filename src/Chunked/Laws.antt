-- ===== src/Chunked/Laws.antt =====
-- The decoder of src/chunked.rs on any input.
use minihttp.Base.{
  ℕ, zero, suc, ◌+◌, ◌-◌, ◌<◌, ◌≤◌, ◌≡◌, refl, sym, ap, ◌∙◌, Bool, true, false, some, Bytes, length,
  take, drop, ltb, ◌==◌, Run, panic, returns, Result, ok, err, arith, inl, inr, Bool-cases, ltb→lt,
  length-append, take-append_le, take-take, length-take, length-drop,
}
use minihttp.Buffer.{Buffer, remove_range}
use minihttp.Chunked.{
  SizeStatus, complete, partial, InvalidChunkSize, SizeParser, State, Turn, again, leave, overflow,
  read_size, turn, loop, start, parse,
}

-- Bytes `s.buffered` to the end are still to be looked at.
abbrev left : State → Bytes → ℕ
left s buf = length buf - s.buffered

-- What a round that goes on keeps: it stays within the buffer, leaves less to look at, and adds
-- nothing.
abbrev Progress : State → Bytes → Turn → Type 0
Progress s buf (again s' buf') =
    (s'.buffered ≤ length buf')
    × (left s' buf' < left s buf)
    × (s.buffered ≤ s'.buffered)
    × (take s.buffered buf' ≡ take s.buffered buf)
    × (length buf' ≤ length buf)
Progress s buf (leave s' buf' r) =
    (s'.buffered ≤ length buf')
    × (s.buffered ≤ s'.buffered)
    × (take s.buffered buf' ≡ take s.buffered buf)
    × (length buf' ≤ length buf)
Progress s buf overflow = Unit {0}

abbrev pub Parsed : Type 0
Parsed = Run (State × Bytes × Result InvalidChunkSize (Unit {0}))

-- What a call of `parse` keeps, by whatever way it returns: the decoded bytes are in the buffer, the
-- ones before it were there, and are what they were. Nothing is added to the buffer.
abbrev pub Keeps : State → Bytes → Parsed → Type 0
Keeps s buf panic = Unit {0}
Keeps s buf (returns (s', buf', r)) =
    (s'.buffered ≤ length buf')
    × (s.buffered ≤ s'.buffered)
    × (take s.buffered buf' ≡ take s.buffered buf)
    × (length buf' ≤ length buf)

module _ ⦃o : Buffer⦄ ⦃p : SizeParser⦄ where
  length-cut :
      (buf : Bytes) (from to : ℕ)
      → from ≤ to
      → to ≤ length buf
      → length (remove_range buf from to) ≡ length buf - (to - from)
  length-cut buf from to h k =
      rw (o.remove_range_cuts buf from to h k, length-append)
        (omega (arith, length-take from buf, length-drop to buf))

  -- Cutting behind `from` keeps what stands before it.
  take-cut :
      (buf : Bytes) (at from to : ℕ)
      → at ≤ from
      → from ≤ to
      → to ≤ length buf
      → take at (remove_range buf from to) ≡ take at buf
  take-cut buf at from to k h l = rw (
    o.remove_range_cuts buf from to h l,
    take-append_le at (take from buf) (drop to buf) (omega (arith, length-take from buf)),
    take-take at from buf k,
  )

  read_size-Progress :
      (s : State) (buf : Bytes) (r : Result InvalidChunkSize SizeStatus)
      → s.buffered < length buf
      → p.parse_chunk_size (drop s.buffered buf) ≡ r
      → Progress s buf (read_size s buf r)
  unfolding read_size
  read_size-Progress s buf (err e) h q = (omega arith, omega arith, refl, omega arith)
  read_size-Progress s buf (ok partial) h q = (omega arith, omega arith, refl, omega arith)
  read_size-Progress s buf (ok (complete n size)) h q =
      let (lo, hi) = p.size_within (drop s.buffered buf) n size q in
      let rest = length-drop s.buffered buf in
      let len = length-cut buf s.buffered (s.buffered + n) (omega arith) (omega arith) in
      ground (
        arith,
        take-cut buf s.buffered s.buffered (s.buffered + n) (omega arith) (omega arith)
            (omega arith),
      )

  turn-Progress : (s : State) (buf : Bytes) → s.buffered < length buf → Progress s buf (turn s buf)
  unfolding turn
  turn-Progress s buf h = elim (Bool-cases (s.pending == 0)) [
    | inl z ↦ rw z (read_size-Progress s buf (p.parse_chunk_size (drop s.buffered buf)) h refl)
    | inr nz ↦ ground (
      arith,
      take-cut buf s.buffered (s.buffered + s.pending) (s.buffered + s.pending + 2),
      length-cut buf (s.buffered + s.pending) (s.buffered + s.pending + 2),
    )
  ]

  Keeps-again :
      (s s' : State) (buf buf' : Bytes) (r : Parsed)
      → s.buffered ≤ s'.buffered
      → take s.buffered buf' ≡ take s.buffered buf
      → length buf' ≤ length buf
      → Keeps s' buf' r
      → Keeps s buf r
  Keeps-again s s' buf buf' panic le same short k = tt
  Keeps-again s s' buf buf' (returns (t, tbuf, r)) le same short (a, b, c, d) = (
    a,
    omega arith,
    sym (take-take s.buffered s'.buffered tbuf le)
        ∙ ap (take s.buffered) c
        ∙ take-take s.buffered s'.buffered buf' le
        ∙ same,
    omega arith,
  )

  pub loop-again :
      (fuel : ℕ) (s s' : State) (buf buf' : Bytes)
      → ltb s.buffered (length buf) ≡ true
      → turn s buf ≡ again s' buf'
      → loop (suc fuel) s buf ≡ loop fuel s' buf'
  unfolding loop
  loop-again fuel s s' buf buf' more e = ground arith

  pub loop-leave :
      (fuel : ℕ) (s s' : State) (buf buf' : Bytes) (r : Result InvalidChunkSize (Unit {0}))
      → ltb s.buffered (length buf) ≡ true
      → turn s buf ≡ leave s' buf' r
      → loop (suc fuel) s buf ≡ some (returns (s', buf', r))
  unfolding loop
  loop-leave fuel s s' buf buf' r more e = ground arith

  pub loop-overflow :
      (fuel : ℕ) (s : State) (buf : Bytes)
      → ltb s.buffered (length buf) ≡ true
      → turn s buf ≡ overflow
      → loop (suc fuel) s buf ≡ some panic
  unfolding loop
  loop-overflow fuel s buf more e = ground arith

  pub loop_end :
      (fuel : ℕ) (s : State) (buf : Bytes)
      → ltb s.buffered (length buf) ≡ false
      → loop (suc fuel) s buf ≡ some (returns (s, buf, ok tt))
  unfolding loop
  loop_end fuel s buf end = ground arith

  -- What `loop` answers, given what the rest of it would.
  loop-turn :
      (fuel : ℕ) (s : State) (buf : Bytes) (t : Turn)
      → ltb s.buffered (length buf) ≡ true
      → turn s buf ≡ t
      → Progress s buf t
      → left s buf < suc fuel
      → ((s' : State) (buf' : Bytes)
          → left s' buf' < fuel
          → s'.buffered ≤ length buf'
          → (r : Parsed) × (loop fuel s' buf' ≡ some r) × Keeps s' buf' r)
      → (r : Parsed) × (loop (suc fuel) s buf ≡ some r) × Keeps s buf r
  loop-turn fuel s buf (again s' buf') more e (fits, less, le, same, short) enough ih =
      let (r, done, k) = ih s' buf' (omega arith) fits in
      (r, loop-again fuel s s' buf buf' more e ∙ done, Keeps-again s s' buf buf' r le same short k)
  loop-turn fuel s buf (leave s' buf' r) more e pr enough ih =
      (returns (s', buf', r), loop-leave fuel s s' buf buf' r more e, pr)
  loop-turn fuel s buf overflow more e pr enough ih = (panic, loop-overflow fuel s buf more e, tt)

  loop-Keeps :
      (fuel : ℕ) (s : State) (buf : Bytes)
      → left s buf < fuel
      → s.buffered ≤ length buf
      → (r : Parsed) × (loop fuel s buf ≡ some r) × Keeps s buf r
  loop-Keeps zero s buf enough fits = absurd (omega arith)
  loop-Keeps (suc fuel) s buf enough fits = elim (Bool-cases (ltb s.buffered (length buf))) [
    | inl more ↦
        loop-turn fuel s buf (turn s buf) more refl (turn-Progress s buf (ltb→lt _ _ more)) enough
          (loop-Keeps fuel)
    | inr end ↦
        (returns (s, buf, ok tt), loop_end fuel s buf end, (fits, omega arith, refl, omega arith))
  ]

  start-Keeps :
      (s : State) (buf : Bytes) (done : Bool)
      → s.buffered ≤ length buf
      → (r : Parsed) × (start s buf done ≡ some r) × Keeps s buf r
  unfolding start
  start-Keeps s buf true fits =
      (returns (s, buf, ok tt), refl, (fits, omega arith, refl, omega arith))
  start-Keeps s buf false fits = loop-Keeps (length buf + 1) s buf (omega arith) fits

  -- If the decoded bytes are in the buffer, `parse` ends within its fuel; if it returns, with
  -- success or an error, the decoded bytes are in the buffer, they are no fewer than before, those
  -- that were decoded before are unchanged, and the buffer is no longer than before.
  pub parse-Keeps :
      (s : State) (buf : Bytes)
      → s.buffered ≤ length buf
      → (r : Parsed) × (parse s buf ≡ some r) × Keeps s buf r
  unfolding parse
  parse-Keeps s buf fits = start-Keeps s buf s.done fits
