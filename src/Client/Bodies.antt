-- ===== src/Client/Bodies.antt =====
-- What the codec of a response is given of its body, `read_body` of src/client/parser.rs, in
-- whatever pieces the body comes.
use minihttp.Base.{
  ℕ, zero, suc, ◌-◌, ◌≤◌, ◌<◌, ◌≡◌, refl, sym, ap, ◌∙◌, inl, inr, true, false, some, List, [], ◌∷◌,
  ◌++◌, Bytes, length, take, drop, concat, All, leb, ◌==◌, le→leb, lt→leb, ==_refl, Bool-cases,
  leb→le, ok, arith, append_assoc, length-append, take-append_le, drop-append_le,
}
use minihttp.Buffer.{Buffer, extend, extend_lem}
use minihttp.Chunked.{SizeParser}
use minihttp.BodyProgress.{fixed, check_buf, parse, consume}
use minihttp.Server.State.{ReadEvent, got}
use minihttp.Client.Scan.{buffered}
use minihttp.Client.Head.{Codec}
use minihttp.Client.Reader.{
  State, body, Parser, Answer, complete, leave, read_more, body_round, read_next, after_round,
  read_body,
}

-- The pieces as events, before others.
abbrev pub arriving : List Bytes → List ReadEvent → List ReadEvent
arriving [] rest = rest
arriving (b ∷ bs) rest = got b ∷ arriving bs rest

module _ {C E : Type 0} ⦃o : Buffer⦄ ⦃p : SizeParser⦄ (v : Codec C E) where
  pub fixed_short :
      (x : Parser C) (n m : ℕ)
      → x.io.closed ≡ false
      → length x.io.in_buf < n
      → body_round v x (buffered m) (fixed n)
        ≡ read_more (record x { state = body (buffered m) (fixed n) }) (buffered m) (fixed n)
  unfolding body_round parse check_buf
  fixed_short x n m c l = simp (lt→leb n (length x.io.in_buf) l, c)

  fixed_there :
      (x : Parser C) (n m : ℕ) (codec' : C)
      → n ≤ length x.io.in_buf
      → v.data_received x.codec (take n x.io.in_buf) true ≡ (codec', ok (some n))
      → (x' : Parser C) × (body_round v x (buffered m) (fixed n) ≡ leave (complete x'))
        × (x'.codec ≡ codec')
        × (x'.io.in_buf ≡ drop n x.io.in_buf)
        × (x'.incoming ≡ x.incoming)
  unfolding body_round parse check_buf consume
  fixed_there x n m codec' l e = (
    record x {
      io = record x.io { in_buf = drop n x.io.in_buf };
      codec = codec';
      state = body (buffered m) (fixed (n - n));
    },
    simp (
      le→leb n (length x.io.in_buf) l,
      e,
      ==_refl n,
      le→leb n n (omega arith),
      o.consume_drops x.io.in_buf n l,
    ),
    refl,
    refl,
    refl,
  )

  -- The state behind the arrival of a piece, and what is then in the buffer.
  abbrev pub with_piece : Parser C → State → Bytes → List ReadEvent → Parser C
  with_piece x st b evs = record x {
    io = record x.io { in_buf = extend x.io.in_buf b };
    state = st;
    incoming = evs;
  }

  pub extend-append : (buf b rest : Bytes) → extend buf b ++ rest ≡ buf ++ (b ++ rest)
  extend-append buf b rest = ap (λ t. t ++ rest) (extend_lem buf b) ∙ append_assoc buf b rest

  pub read_next-got :
      (again : Parser C → Answer C E) (x : Parser C) (st : State) (b : Bytes) (evs : List ReadEvent)
      → x.incoming ≡ got b ∷ evs
      → 0 < length b
      → read_next v again (record x { state = st }) x.incoming ≡ again (with_piece x st b evs)
  read_next-got again x st b evs i l =
      let there : (length b == 0) ≡ false = ground arith in
      ap (read_next v again (record x { state = st })) i ∙ rw there refl

  -- How the body of known length ends in buffered mode: what follows it is kept.
  abbrev pub Gets : Parser C → Answer C E → C → List ReadEvent → Bytes → Type 0
  Gets x a codec' rest left_over =
      (x' : Parser C) × (qs : List Bytes) × (a ≡ complete x')
      × (x'.codec ≡ codec')
      × (x'.incoming ≡ arriving qs rest)
      × (x'.io.in_buf ++ concat qs ≡ left_over)

  fixed_done :
      (fuel : ℕ) (x : Parser C) (n m : ℕ) (ps : List Bytes) (rest : List ReadEvent) (codec' : C)
      → x.incoming ≡ arriving ps rest
      → n ≤ length x.io.in_buf
      → v.data_received x.codec (take n (x.io.in_buf ++ concat ps)) true ≡ (codec', ok (some n))
      → Gets x
          (read_body v (suc fuel) x (buffered m) (fixed n))
          codec'
          rest
          (drop n (x.io.in_buf ++ concat ps))
  unfolding read_body
  fixed_done fuel x n m ps rest codec' i le e =
      let e' =
        ap (λ t. v.data_received x.codec t true) (sym (take-append_le n x.io.in_buf (concat ps) le))
        ∙ e in
      let (x', eq, k, b, j) = fixed_there x n m codec' le e' in
      (
        x',
        ps,
        ap (after_round v (read_body v fuel)) eq,
        k,
        j ∙ i,
        ap (λ t. t ++ concat ps) b ∙ sym (drop-append_le n x.io.in_buf (concat ps) le),
      )

  pub fixed_more :
      (fuel : ℕ) (x : Parser C) (n m : ℕ) (b : Bytes) (evs : List ReadEvent)
      → x.incoming ≡ got b ∷ evs
      → x.io.closed ≡ false
      → 0 < length b
      → length x.io.in_buf < n
      → read_body v (suc fuel) x (buffered m) (fixed n)
        ≡ read_body v fuel (with_piece x (body (buffered m) (fixed n)) b evs) (buffered m) (fixed n)
  unfolding read_body
  fixed_more fuel x n m b evs i c l s =
      ap (after_round v (read_body v fuel)) (fixed_short x n m c s)
      ∙ read_next-got (λ x'. read_body v fuel x' (buffered m) (fixed n)) x
          (body (buffered m) (fixed n)) b evs i l

  -- A body of known length that comes in any pieces that are not empty, in buffered mode, before
  -- whatever else: if the codec takes the first `n` bytes of the stream as the whole body, then
  -- with more fuel than pieces `read_body` ends with exactly that, and what follows the body in
  -- the stream is still in the buffer or to come.
  pub read_body-fixed :
      (fuel : ℕ) (x : Parser C) (n m : ℕ) (ps : List Bytes) (rest : List ReadEvent) (codec' : C)
      → x.incoming ≡ arriving ps rest
      → x.io.closed ≡ false
      → All (λ b. 0 < length b) ps
      → n ≤ length (x.io.in_buf ++ concat ps)
      → v.data_received x.codec (take n (x.io.in_buf ++ concat ps)) true ≡ (codec', ok (some n))
      → length ps < fuel
      → Gets x
          (read_body v fuel x (buffered m) (fixed n))
          codec'
          rest
          (drop n (x.io.in_buf ++ concat ps))
  read_body-fixed zero x n m ps rest codec' i c a l e f = absurd (omega arith)
  read_body-fixed (suc fuel) x n m [] rest codec' i c a l e f =
      fixed_done fuel x n m [] rest codec' i (omega (arith, length-append x.io.in_buf [])) e
  read_body-fixed (suc fuel) x n m (b ∷ bs) rest codec' i c (a, as') l e f =
      elim (Bool-cases (leb n (length x.io.in_buf))) [
        | inl z ↦ fixed_done fuel x n m (b ∷ bs) rest codec' i (leb→le n (length x.io.in_buf) z) e
        | inr z ↦
            let joined = extend-append x.io.in_buf b (concat bs) in
            let x1 = with_piece x (body (buffered m) (fixed n)) b (arriving bs rest) in
            let (x', qs, eq, k, j, w) =
              read_body-fixed fuel x1 n m bs rest codec' refl c as'
                (omega (arith, ap length joined))
                (ap (λ t. v.data_received x.codec (take n t) true) joined ∙ e) (omega arith) in
            (
              x',
              qs,
              fixed_more fuel x n m b (arriving bs rest) i c a (leb-false z) ∙ eq,
              k,
              j,
              w ∙ ap (drop n) joined,
            )
      ]
    where
      leb-false : leb n (length x.io.in_buf) ≡ false → length x.io.in_buf < n
      leb-false z = ground arith
