-- ===== src/Client/StreamEnd.antt =====
-- What the end of the stream does to the body of a response, `read_body` of src/client/parser.rs.
use minihttp.Base.{
  ℕ, zero, suc, ◌+◌, ◌≤◌, ◌<◌, ◌≡◌, refl, sym, ap, ◌∙◌, true, false, some, List, [], ◌∷◌, ◌++◌,
  Bytes, length, drop, concat, All, le→leb, ==_refl, lt→leb, ok, arith, append-nil, length-append,
  take_all, drop_all,
}
use minihttp.Buffer.{Buffer}
use minihttp.Chunked.{SizeParser}
use minihttp.BodyProgress.{fixed, eof, check_buf, parse, consume}
use minihttp.Server.State.{ReadEvent, end_of_stream}
use minihttp.Client.Scan.{buffered, reset_on_response_body}
use minihttp.Client.Head.{Codec, plain}
use minihttp.Client.Reader.{
  State, body, Parser, Answer, complete, failed, leave, read_more, body_round, read_next,
  after_round, read_body,
}
use minihttp.Client.Bodies.{
  arriving, with_piece, extend-append, read_next-got, fixed_short, fixed_more,
}

module _ {C E : Type 0} ⦃o : Buffer⦄ ⦃p : SizeParser⦄ (v : Codec C E) where
  abbrev closed_with : Parser C → State → List ReadEvent → Parser C
  closed_with x st evs = record x { io = record x.io { closed = true }; state = st; incoming = evs }

  read_next-end :
      (again : Parser C → Answer C E) (x : Parser C) (st : State) (evs : List ReadEvent)
      → x.incoming ≡ end_of_stream ∷ evs
      → read_next v again (record x { state = st }) x.incoming ≡ again (closed_with x st evs)
  read_next-end again x st evs i = ap (read_next v again (record x { state = st })) i

  -- With the stream at its end.
  fixed_cut :
      (x : Parser C) (n m : ℕ)
      → x.io.closed ≡ true
      → length x.io.in_buf < n
      → body_round v x (buffered m) (fixed n)
        ≡ leave (
            failed
              (record x { state = body (buffered m) (fixed n) })
              (plain reset_on_response_body))
  unfolding body_round parse check_buf
  fixed_cut x n m c l = simp (lt→leb n (length x.io.in_buf) l, c)

  abbrev pub IsReset : C → Answer C E → Type 0
  IsReset codec a =
      (x : Parser C) × (a ≡ failed x (plain reset_on_response_body)) × (x.codec ≡ codec)

  fixed_end :
      (fuel : ℕ) (x : Parser C) (n m : ℕ) (rest : List ReadEvent)
      → x.incoming ≡ end_of_stream ∷ rest
      → x.io.closed ≡ false
      → length x.io.in_buf < n
      → IsReset x.codec (read_body v (suc (suc fuel)) x (buffered m) (fixed n))
  unfolding read_body
  fixed_end fuel x n m rest i c l =
      let st = body (buffered m) (fixed n) in
      (
        closed_with x st rest,
        ap (after_round v (read_body v (suc fuel))) (fixed_short v x n m c l)
            ∙ read_next-end (λ x'. read_body v (suc fuel) x' (buffered m) (fixed n)) x st rest i
            ∙ ap (after_round v (read_body v fuel)) (fixed_cut (closed_with x st rest) n m refl l),
        refl,
      )

  -- If the stream ends before as many bytes have come as were announced, in whatever pieces that
  -- are not empty, then in buffered mode and with two more rounds of fuel than pieces `read_body`
  -- fails with ResetOnResponseBody, and the codec was not called.
  pub read_body-IsReset :
      (fuel : ℕ) (x : Parser C) (n m : ℕ) (ps : List Bytes) (rest : List ReadEvent)
      → x.incoming ≡ arriving ps (end_of_stream ∷ rest)
      → x.io.closed ≡ false
      → All (λ b. 0 < length b) ps
      → length (x.io.in_buf ++ concat ps) < n
      → length ps + 2 ≤ fuel
      → IsReset x.codec (read_body v fuel x (buffered m) (fixed n))
  read_body-IsReset zero x n m ps rest i c a l f = absurd (omega arith)
  read_body-IsReset (suc zero) x n m ps rest i c a l f = absurd (omega arith)
  read_body-IsReset (suc (suc fuel)) x n m [] rest i c a l f =
      fixed_end fuel x n m rest i c (omega (arith, length-append x.io.in_buf []))
  read_body-IsReset (suc (suc fuel)) x n m (b ∷ bs) rest i c (a, as') l f =
      let evs = arriving bs (end_of_stream ∷ rest) in
      let joined = extend-append v x.io.in_buf b (concat bs) in
      let (x', eq, k) =
        read_body-IsReset (suc fuel) (with_piece v x (body (buffered m) (fixed n)) b evs) n m bs
          rest refl c as' (omega (arith, ap length joined)) (omega arith) in
      (
        x',
        fixed_more v (suc fuel) x n m b evs i c a
              (omega (arith, length-append x.io.in_buf (concat (b ∷ bs))))
            ∙ eq,
        k,
      )

  eof_open :
      (x : Parser C) (m : ℕ)
      → x.io.closed ≡ false
      → body_round v x (buffered m) eof
        ≡ read_more (record x { state = body (buffered m) eof }) (buffered m) eof
  unfolding body_round parse check_buf
  eof_open x m c = simp (c)

  eof_closed :
      (x : Parser C) (m : ℕ) (codec' : C)
      → x.io.closed ≡ true
      → v.data_received x.codec x.io.in_buf true ≡ (codec', ok (some (length x.io.in_buf)))
      → (x' : Parser C) × (body_round v x (buffered m) eof ≡ leave (complete x'))
        × (x'.codec ≡ codec')
        × (x'.io.in_buf ≡ [])
  unfolding body_round parse check_buf consume
  eof_closed x m codec' c e =
      let n = length x.io.in_buf in
      let e' = ap (λ t. v.data_received x.codec t true) (take_all x.io.in_buf) ∙ e in
      (
        record x {
          io = record x.io { in_buf = drop n x.io.in_buf };
          codec = codec';
          state = body (buffered m) eof;
        },
        simp (
          c,
          le→leb n n (omega arith),
          e',
          ==_refl n,
          o.consume_drops x.io.in_buf n (omega arith),
        ),
        refl,
        drop_all x.io.in_buf,
      )

  abbrev pub GetsAll : Answer C E → C → Type 0
  GetsAll a codec' = (x' : Parser C) × (a ≡ complete x') × (x'.codec ≡ codec') × (x'.io.in_buf ≡ [])

  -- A body that goes on to the end of the stream, in whatever pieces that are not empty: if the
  -- codec takes all bytes up to the end of the stream as the whole body, then in buffered mode,
  -- whatever its maximum and however long the body, and with two more rounds of fuel than pieces
  -- `read_body` ends with exactly that.
  pub read_body-eof :
      (fuel : ℕ) (x : Parser C) (m : ℕ) (ps : List Bytes) (rest : List ReadEvent) (codec' : C)
      → x.incoming ≡ arriving ps (end_of_stream ∷ rest)
      → x.io.closed ≡ false
      → All (λ b. 0 < length b) ps
      → v.data_received x.codec (x.io.in_buf ++ concat ps) true
        ≡ (codec', ok (some (length (x.io.in_buf ++ concat ps))))
      → length ps + 2 ≤ fuel
      → GetsAll (read_body v fuel x (buffered m) eof) codec'
  unfolding read_body
  read_body-eof zero x m ps rest codec' i c a e f = absurd (omega arith)
  read_body-eof (suc zero) x m ps rest codec' i c a e f = absurd (omega arith)
  read_body-eof (suc (suc fuel)) x m [] rest codec' i c a e f =
      let st = body (buffered m) eof in
      let x1 = closed_with x st rest in
      let whole : x.io.in_buf ++ [] ≡ x.io.in_buf = append-nil x.io.in_buf in
      let (x', eq, k, b) = eof_closed x1 m codec' refl (rw whole at e) in
      (
        x',
        ap (after_round v (read_body v (suc fuel))) (eof_open x m c)
            ∙ read_next-end (λ y. read_body v (suc fuel) y (buffered m) eof) x st rest i
            ∙ ap (after_round v (read_body v fuel)) eq,
        k,
        b,
      )
  read_body-eof (suc (suc fuel)) x m (b ∷ bs) rest codec' i c (a, as') e f =
      let st = body (buffered m) eof in
      let evs = arriving bs (end_of_stream ∷ rest) in
      let joined = extend-append v x.io.in_buf b (concat bs) in
      let (x', eq, k, w) =
        read_body-eof (suc fuel) (with_piece v x st b evs) m bs rest codec' refl c as'
          (ap (λ t. v.data_received x.codec t true) joined
            ∙ e
            ∙ ap (λ t. (codec', ok (some (length t)))) (sym joined))
          (omega arith) in
      (
        x',
        ap (after_round v (read_body v (suc fuel))) (eof_open x m c)
            ∙ read_next-got v (λ y. read_body v (suc fuel) y (buffered m) eof) x st b evs i a
            ∙ eq,
        k,
        w,
      )
