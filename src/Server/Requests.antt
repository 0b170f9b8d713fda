-- ===== src/Server/Requests.antt =====
-- A whole request in the buffer of a connection, src/server/proto.rs.
use minihttp.Base.{
  ℕ, suc, ◌-◌, ◌≤◌, ◌≡◌, refl, ap, ◌∙◌, Bool, true, false, ◌||◌, Option, some, [], ◌∷◌, ◌++◌, Bytes,
  length, take, drop, leb, le→leb, le→ltb, ==_refl, if◌then◌else◌, ok, arith,
}
use minihttp.Buffer.{Buffer}
use minihttp.Chunked.{SizeParser}
use minihttp.BodyProgress.{ReadBuf, BodyProgress, check_buf, parse, consume}
use minihttp.RequestHead.{fixed}
use minihttp.RequestHead.Head.{ResponseConfig, RequestParser, parse_headers}
use minihttp.Server.Config.{Config, buffered_upfront}
use minihttp.Server.State.{
  Service, Entry, BodyState, InState, headers, body, keep_alive, Connection, new_body,
}
use minihttp.Server.Reads.{
  next, read_socket, read_headers, read_body, dispatch_state, after_read, read_round,
  again_or_break, limit_of, up_to, read_rounds, within, push_waiting, set_read_deadline, timeout_or,
  filled,
}

module _ {D C F E : Type 0} ⦃o : Buffer⦄ ⦃p : SizeParser⦄ ⦃q : RequestParser⦄ (v : Service D C F E)
    (cfg : Config) (clock : ℕ → ℕ) where
  -- Where the socket has nothing, a round is the arm of its state.
  pub read_round_quiet :
      (c : Connection D C F) (io : ReadBuf) (limit : ℕ)
      → c.incoming ≡ []
      → read_round v cfg clock c io limit
        ≡ dispatch_state v cfg clock (record c { reading = InState.closed }) io c.reading
  unfolding read_round read_socket
  read_round_quiet c io limit quiet =
      elim (leb (length c.waiting) limit)
        as (λ b.
          after_read v cfg clock (if b then filled v cfg clock c io c.incoming else (c, io, ok tt))
          ≡ dispatch_state v cfg clock (record c { reading = InState.closed }) io c.reading) [
            | true ↦ ap (λ evs. after_read v cfg clock (filled v cfg clock c io evs)) quiet
            | false ↦ refl
          ]

  or_true : (b : Bool) → (b || true) ≡ true
  or_true true = refl
  or_true false = refl

  -- Such a round, and the loop goes on.
  pub read_rounds-next :
      (fuel : ℕ) (c c' : Connection D C F) (io io' : ReadBuf) (changed : Bool) (st : InState C)
      (l : ℕ) (set : Bool)
      → c.reading ≡ st
      → c.incoming ≡ []
      → limit_of cfg st ≡ up_to l
      → dispatch_state v cfg clock (record c { reading = InState.closed }) io st
        ≡ next c' io' true set
      → read_rounds v cfg clock (suc fuel) c io changed
        ≡ read_rounds v cfg clock fuel c' io' (changed || set)
  unfolding read_rounds
  read_rounds-next fuel c c' io io' changed st l set r quiet lim e =
      let closed_c = record c { reading = InState.closed } in
      ap (within v cfg clock (read_rounds v cfg clock fuel) c io changed)
        (ap (limit_of cfg) r ∙ lim)
      ∙ ap (again_or_break v cfg clock (read_rounds v cfg clock fuel) changed)
          (read_round_quiet c io l quiet ∙ ap (dispatch_state v cfg clock closed_c io) r ∙ e)

  -- The state behind a head, and that behind the body.
  abbrev behind_head : Connection D C F → D → Option ℕ → BodyState C → Connection D C F
  behind_head c d t b =
      record (set_read_deadline clock (record c { dispatcher = d })
        (timeout_or v cfg clock t cfg.input_body_whole_timeout)) { reading = body b }

  abbrev behind_body : Connection D C F → Entry C → Connection D C F
  behind_body c x = record (set_read_deadline clock (push_waiting c x) cfg.keep_alive_timeout) {
    reading = keep_alive;
  }

  abbrev pub awaited : ℕ → ℕ → ResponseConfig → C → BodyState C
  awaited n max rc codec = record {
    mode = buffered_upfront max;
    progress = BodyProgress.fixed n;
    response_config = rc;
    codec = codec;
  }

  headers-next :
      (c : Connection D C F) (io : ReadBuf) (buf : Bytes) (d : D) (n max : ℕ) (t : Option ℕ)
      (codec codec' : C) (rc : ResponseConfig)
      → parse_headers io.in_buf c.dispatcher v.headers_received
        ≡ (buf, d, ok (some (fixed n, codec, rc)))
      → v.recv_mode codec ≡ (codec', record { mode = buffered_upfront max; timeout = t })
      → n ≤ max
      → dispatch_state v cfg clock c io headers
        ≡ next (behind_head c d t (awaited n max rc codec')) (record io { in_buf = buf }) true true
  unfolding dispatch_state read_headers new_body
  headers-next c io buf d n max t codec codec' rc e m le = rw (e, m, le→ltb max n le) refl

  body-next :
      (c : Connection D C F) (io : ReadBuf) (n max : ℕ) (codec codec' : C) (rc : ResponseConfig)
      → n ≤ length io.in_buf
      → v.data_received codec (take n io.in_buf) true ≡ (codec', ok (some n))
      → dispatch_state v cfg clock c io (body (awaited n max rc codec))
        ≡ next (behind_body c (rc, codec')) (record io { in_buf = drop n io.in_buf }) true true
  unfolding dispatch_state read_body parse check_buf consume
  body-next c io n max codec codec' rc le e = simp (
    le→leb n (length io.in_buf) le,
    e,
    ==_refl n,
    le→leb n n (omega arith),
    o.consume_drops io.in_buf n le,
  )

  -- Where the head of a request whose body has a known length, and its body, are in the buffer,
  -- the socket has nothing new, `inflight_request_limit` is at least one and the codec asks for
  -- whole bodies of at least that length: if the codec takes the body, then two rounds of the loop
  -- of `do_reads` give it exactly the bytes of the body, let the request wait behind the others
  -- with its codec, and leave what follows the body in the buffer for the next request.
  pub read_rounds-request :
      (fuel : ℕ) (c : Connection D C F) (io : ReadBuf) (changed : Bool) (buf : Bytes) (d : D)
      (n max : ℕ) (t : Option ℕ) (codec codec' codec'' : C) (rc : ResponseConfig)
      → c.reading ≡ headers
      → c.incoming ≡ []
      → 1 ≤ cfg.inflight_request_limit
      → parse_headers io.in_buf c.dispatcher v.headers_received
        ≡ (buf, d, ok (some (fixed n, codec, rc)))
      → v.recv_mode codec ≡ (codec', record { mode = buffered_upfront max; timeout = t })
      → n ≤ max
      → n ≤ length buf
      → v.data_received codec' (take n buf) true ≡ (codec'', ok (some n))
      → (c' : Connection D C F) × (read_rounds v cfg clock (suc (suc fuel)) c io changed
          ≡ read_rounds v cfg clock fuel c' (record io { in_buf = drop n buf }) true)
        × (c'.reading ≡ keep_alive)
        × (c'.waiting ≡ c.waiting ++ ((rc, codec'') ∷ []))
        × (c'.writing ≡ c.writing)
        × (c'.dispatcher ≡ d)
  unfolding limit_of
  read_rounds-request fuel c io changed buf d n max t codec codec' codec'' rc r quiet lim head m le
        fits taken =
      let b = awaited n max rc codec' in
      let c1 = behind_head (record c { reading = InState.closed }) d t b in
      let c2 = behind_body (record c1 { reading = InState.closed }) (rc, codec'') in
      let eq =
        read_rounds-next (suc fuel) c c1 io (record io { in_buf = buf }) changed headers _ true r
          quiet refl (headers-next _ io buf d n max t codec codec' rc head m le)
        ∙ ap (read_rounds v cfg clock (suc fuel) c1 (record io { in_buf = buf })) (or_true changed)
        ∙ read_rounds-next fuel c1 c2 (record io { in_buf = buf })
            (record io { in_buf = drop n buf }) true (body b) (cfg.inflight_request_limit - 1) true
            refl quiet (ground arith)
            (body-next _ (record io { in_buf = buf }) n max codec' codec'' rc fits taken) in
      (c2, eq, refl, refl, refl, refl)
