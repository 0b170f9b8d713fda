-- ===== src/Websocket/Bounds.antt =====
-- `Frame::parse` on any input, src/websocket/zero_copy.rs: what it takes, and that more input does
-- not change its answer.
pub mod Incomplete
use minihttp.Base.{
  ℕ, zero, suc, ◌+◌, ◌-◌, ◌*◌, ◌^◌, ◌<◌, ◌≤◌, ◌≡◌, ◌≢◌, refl, sym, ap, ap₂, ◌∙◌, Bool, true, false,
  not, Option, none, some, [], ◌∷◌, ◌++◌, Bytes, length, take, drop, get_or, ltb, ◌==◌,
  if◌then◌else◌, arith, bit_and, Result, ok, err, length-append, append_assoc, take-append_le,
  drop-append_le, get_or-append_lt, length-take, length-drop, Option-cases, Bool-cases, inl, inr,
}
use minihttp.Websocket.Frame.{Frame, ErrorEnum, ByteOrder, xor_mask, xor_range}
use minihttp.Websocket.Parse.{Parsed, size_field, decode, open_frame, parse}
use minihttp.Websocket.Mask.{length-xor_mask}

slice-append :
    (i k : ℕ) (b more : Bytes) → i + k ≤ length b → take k (drop i (b ++ more)) ≡ take k (drop i b)
slice-append i k b more h =
    rw (drop-append_le i b more (omega arith))
      (take-append_le k (drop i b) more (omega (arith, length-drop i b)))

xor_range-more :
    (key b more : Bytes) (start size : ℕ)
    → start + size ≤ length b
    → xor_range key (b ++ more) start size ≡ xor_range key b start size ++ more
xor_range-more key b more start size h =
    rw
      (
        take-append_le start b more (omega arith),
        slice-append start size b more h,
        drop-append_le (start + size) b more h,
      )
      (simp append_assoc)

length-xor_range :
    (key b : Bytes) (start size : ℕ)
    → start + size ≤ length b
    → length (xor_range key b start size) ≡ length b
length-xor_range key b start size h =
    simp (length-append, length-xor_mask)
      (omega (
        arith,
        length-take start b,
        length-take size (drop start b),
        length-drop start b,
        length-drop (start + size) b,
      ))

module _ ⦃e : ByteOrder⦄ where
  size_field-append :
      (b more : Bytes) (n field : ℕ)
      → 2 ≤ length b
      → size_field b ≡ some (n, field)
      → size_field (b ++ more) ≡ some (n, field)
  unfolding size_field
  size_field-append b more n field two h = ground (
    arith,
    get_or-append_lt b more 1 0,
    length-append b more,
    slice-append 2 2 b more,
    slice-append 2 8 b more,
  )

  size_field-le :
      (b : Bytes) (n field : ℕ) → size_field b ≡ some (n, field) → (2 ≤ field) × (field ≤ 10)
  unfolding size_field
  size_field-le b n field h = ground arith

  open_frame-append :
      (b more : Bytes) (masked : Bool) (start size : ℕ)
      → 2 ≤ start
      → (if masked then 4 else 0) ≤ start
      → start + size ≤ length b
      → open_frame (b ++ more) masked start size
        ≡ ((open_frame b masked start size).0 ++ more, (open_frame b masked start size).1)
  unfolding open_frame
  open_frame-append b more true start size two four h =
      let key : Bytes = take 4 (drop (start - 4) b) in
      rw
        (
          get_or-append_lt b more 0 0 (omega arith),
          get_or-append_lt b more 1 0 (omega arith),
          slice-append (start - 4) 4 b more (omega arith),
          xor_range-more key b more start size h,
        )
        (ground (
          arith,
          slice-append start size (xor_range key b start size) more
              (omega (arith, length-xor_range key b start size h)),
        ))
  open_frame-append b more false start size two four h =
      rw (get_or-append_lt b more 0 0 (omega arith), get_or-append_lt b more 1 0 (omega arith))
        (ground (arith, slice-append start size b more h))

  decode-ne-none : (op : ℕ) (d : Bytes) (total : ℕ) → decode op d total ≢ ok none
  unfolding decode
  decode-ne-none op d total h = ground arith

  -- If `parse` accepts or refuses a frame, it does the same, with the same change of the buffer,
  -- when more bytes follow.
  pub parse-append :
      (b more : Bytes) (limit : ℕ) (masked : Bool)
      → (parse b limit masked).1 ≢ ok none
      → parse (b ++ more) limit masked
        ≡ ((parse b limit masked).0 ++ more, (parse b limit masked).1)
  unfolding parse
  parse-append b more limit masked h = elim (Option-cases (size_field b)) [
    | inl e ↦ absurd (ground arith)
    | inr ((n, field), e) ↦
        let (two, ten) = size_field-le b n field e in
        ground (
          arith,
          size_field-append b more n field (ground arith) e,
          length-append b more,
          open_frame-append b more masked (field + (if masked then 4 else 0)) n,
        )
  ]

  length-open_frame :
      (b : Bytes) (masked : Bool) (start size : ℕ)
      → start + size ≤ length b
      → length (open_frame b masked start size).0 ≡ length b
  unfolding open_frame
  length-open_frame b masked start size h =
      ground (arith, length-xor_range (take 4 (drop (start - 4) b)) b start size)

  decode-total :
      (op : ℕ) (d : Bytes) (total : ℕ) {f : Frame} {n : ℕ}
      → decode op d total ≡ ok (some (f, n))
      → n ≡ total
  unfolding decode
  decode-total op d total h = ground arith

  open_frame-some :
      (b : Bytes) (masked : Bool) (start size : ℕ) {f : Frame} {n : ℕ}
      → (open_frame b masked start size).1 ≡ ok (some (f, n))
      → (n ≡ start + size)
        × ((bit_and (get_or b 0 0) 0x80 == 0) ≡ false)
        × ((bit_and (get_or b 1 0) 0x80 == 0) ≡ not masked)
  unfolding open_frame
  open_frame-some b true start size h = elim (Bool-cases (bit_and (get_or b 0 0) 0x80 == 0)) [
    | inl z ↦ absurd (ground arith)
    | inr f ↦ elim (Bool-cases (bit_and (get_or b 1 0) 0x80 == 0)) [
      | inl z ↦ absurd (ground arith)
      | inr m ↦ (decode-total _ _ _ (rw (f, m) at h), f, m)
    ]
  ]
  open_frame-some b false start size h = elim (Bool-cases (bit_and (get_or b 0 0) 0x80 == 0)) [
    | inl z ↦ absurd (ground arith)
    | inr f ↦ elim (Bool-cases (bit_and (get_or b 1 0) 0x80 == 0)) [
      | inl m ↦ (decode-total _ _ _ (rw (f, m) at h), f, m)
      | inr z ↦ absurd (ground arith)
    ]
  ]

  open_frame-ne-none :
      (b : Bytes) (masked : Bool) (start size : ℕ) → (open_frame b masked start size).1 ≢ ok none
  unfolding open_frame
  open_frame-ne-none b masked start size h = grind (arith, decode-ne-none)

  -- If `parse` accepts a frame of `n` bytes, then `n` is at least 2, at most the length of the
  -- buffer and at most the limit plus 14, the buffer keeps its length, the FIN bit is set, and the
  -- mask bit is as demanded.
  pub parse_takes :
      (b : Bytes) (limit : ℕ) (masked : Bool) (f : Frame) (n : ℕ)
      → (parse b limit masked).1 ≡ ok (some (f, n))
      → (2 ≤ n)
        × (n ≤ length b)
        × (n ≤ limit + 14)
        × (length (parse b limit masked).0 ≡ length b)
        × ((bit_and (get_or b 0 0) 0x80 == 0) ≡ false)
        × ((bit_and (get_or b 1 0) 0x80 == 0) ≡ not masked)
  unfolding parse
  parse_takes b limit masked f n h = elim (Option-cases (size_field b)) [
    | inl e ↦ absurd (ground arith)
    | inr ((size, field), e) ↦
        let (two, ten) = size_field-le b size field e in
        let start : ℕ = field + (if masked then 4 else 0) in
        ground (
          arith,
          length-open_frame b masked start size,
          λ (p : (open_frame b masked start size).1 ≡ ok (some (f, n))).
              open_frame-some b masked start size p,
        )
  ]

  -- While a frame is not complete the buffer is left as it is.
  pub parse_waits :
      (b : Bytes) (limit : ℕ) (masked : Bool)
      → (parse b limit masked).1 ≡ ok none
      → parse b limit masked ≡ (b, ok none)
  unfolding parse
  parse_waits b limit masked h = elim (Option-cases (size_field b)) [
    | inl e ↦ ground arith
    | inr ((size, field), e) ↦
        ground (arith, open_frame-ne-none b masked (field + (if masked then 4 else 0)) size)
  ]
