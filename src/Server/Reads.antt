-- ===== src/Server/Reads.antt =====
-- `PureProto::do_reads` of src/server/proto.rs.
use minihttp.Base.{
  ℕ, zero, suc, ◌+◌, ◌-◌, Bool, true, false, not, ◌&&◌, ◌||◌, Option, none, some, List, [], ◌∷◌,
  ◌++◌, Bytes, length, take, ltb, leb, ◌==◌, if◌then◌else◌, Run, panic, returns, Result, ok, err,
}
use minihttp.Buffer.{Buffer, extend}
use minihttp.Chunked.{SizeParser, InvalidChunkSize}
use minihttp.BodyProgress.{BodyProgress, ReadBuf, check_buf, parse, consume}
use minihttp.RequestHead.{BodyKind}
use minihttp.RequestHead.Head.{Error, ResponseConfig, RequestParser, parse_headers}
use minihttp.Server.Config.{Config, Mode, RecvMode, is_hijack, wants_at_most, wants_more_than}
use minihttp.Server.State.{
  ReadEvent, got, end_of_stream, read_failed, Service, ServerError, io_error, head_failed,
  chunk_parse_error, connection_reset, custom, Entry, BodyState, InState, connected, keep_alive,
  headers, body, hijack, closed, accepted, Connection, Fault, limit_underflow, chunk_overflow,
  bad_slice, consumed_too_much, unreachable, Answer, out_of_fuel, panicked, answers, new_body,
}

-- How a round of the loop ends: with the next state put in place, the flag `cont`, and whether
-- `changed` was set; with an error; or in a panic. `stuck` stands for a chunk decoder out of fuel.
pub data Round (D C F E : Type 0) : Type 0 where
  next : Connection D C F → ReadBuf → Bool → Bool → Round D C F E
  failed : Connection D C F → ReadBuf → ServerError E → Round D C F E
  crashed : Fault → Round D C F E
  stuck : Round D C F E

-- The number of waiting requests up to which the socket is read.
pub data Limit : Type 0 where
  up_to : ℕ → Limit
  underflow : Limit
  no_more : Limit

unfoldable pub limit_of : {C : Type 0} → Config → InState C → Limit
limit_of cfg (body b) =
    if cfg.inflight_request_limit == 0 then underflow else up_to (cfg.inflight_request_limit - 1)
limit_of cfg closed = no_more
limit_of cfg hijack = no_more
limit_of cfg _ = up_to cfg.inflight_request_limit

-- A read of the clock.
abbrev pub ticked : {D C F : Type 0} → Connection D C F → Connection D C F
ticked c = record c { clock_reads = suc c.clock_reads }

-- `self.read_deadline = Instant::now() + timeout`
abbrev pub set_read_deadline : {D C F : Type 0} → (ℕ → ℕ) → Connection D C F → ℕ → Connection D C F
set_read_deadline clock c timeout = record (ticked c) {
  read_deadline = clock c.clock_reads + timeout;
}

-- `waiting.push_back((rc, codec))`
abbrev pub push_waiting : {D C F : Type 0} → Connection D C F → Entry C → Connection D C F
push_waiting c x = record c { waiting = c.waiting ++ (x ∷ []); history = accepted x ∷ c.history }

module _ {D C F E : Type 0} ⦃o : Buffer⦄ ⦃p : SizeParser⦄ ⦃q : RequestParser⦄ (v : Service D C F E)
    (cfg : Config) (clock : ℕ → ℕ) where
  abbrev pub Filled : Type 0
  Filled = Connection D C F × ReadBuf × Result (ServerError E) (Unit {0})

  abbrev pub filled : Connection D C F → ReadBuf → List ReadEvent → Filled
  filled c io [] = (c, io, ok tt)
  filled c io (got b ∷ rest) = (
    if ltb 0 (length b)
        then record (ticked c) { incoming = rest; last_byte_read = clock c.clock_reads }
        else record c { incoming = rest },
    record io { in_buf = extend io.in_buf b },
    ok tt,
  )
  filled c io (end_of_stream ∷ rest) =
      (record c { incoming = rest }, record io { closed = true }, ok tt)
  filled c io (read_failed ∷ rest) = (record c { incoming = rest }, io, err io_error)

  -- `if inbuf.read()? > 0 { last_byte_read = now }`
  unfoldable pub read_socket : Connection D C F → ReadBuf → Filled
  read_socket c io = filled c io c.incoming

  abbrev pub start_body :
      Connection D C F
      → ReadBuf
      → Mode
      → ResponseConfig
      → C
      → Result (ServerError E) BodyProgress
      → Round D C F E
  start_body c io m rc codec (err e) = failed c io e
  start_body c io m rc codec (ok b) =
      next
        (record c {
          reading = body (record { mode = m; progress = b; response_config = rc; codec = codec });
        })
        io true true

  abbrev pub timeout_or : Option ℕ → ℕ → ℕ
  timeout_or none d = d
  timeout_or (some t) d = t

  abbrev pub with_mode :
      Connection D C F → ReadBuf → BodyKind → ResponseConfig → C × RecvMode → Round D C F E
  with_mode c io kind rc (codec, m) =
      if is_hijack m.mode
      then next (record (push_waiting c (rc, codec)) { reading = hijack }) io true true
      else start_body
          (set_read_deadline clock c (timeout_or m.timeout cfg.input_body_whole_timeout)) io m.mode
          rc codec (new_body kind m.mode)

  abbrev pub with_head :
      Connection D C F
      → ReadBuf
      → Bytes × D × Result (Error E) (Option (BodyKind × C × ResponseConfig))
      → Round D C F E
  with_head c io (buf, d, err e) =
      failed (record c { dispatcher = d }) (record io { in_buf = buf }) (head_failed e)
  with_head c io (buf, d, ok none) =
      next (record c { dispatcher = d; reading = headers }) (record io { in_buf = buf }) false false
  with_head c io (buf, d, ok (some (kind, codec, rc))) =
      with_mode (record c { dispatcher = d }) (record io { in_buf = buf }) kind rc
        (v.recv_mode codec)

  -- The arm of `Headers`.
  unfoldable pub read_headers : Connection D C F → ReadBuf → Round D C F E
  read_headers c io = with_head c io (parse_headers io.in_buf c.dispatcher v.headers_received)

  abbrev pub consumed :
      Connection D C F → BodyState C → Bool → Run (BodyProgress × ReadBuf) → Round D C F E
  consumed c b complete panic = crashed consumed_too_much
  consumed c b complete (returns (pr, io)) =
      if complete
      then next
          (record (set_read_deadline clock (push_waiting c (b.response_config, b.codec))
            cfg.keep_alive_timeout) { reading = keep_alive })
          io true true
      else next (record c { reading = body (record b { progress = pr }) }) io true false

  abbrev pub delivered :
      Connection D C F → ReadBuf → BodyState C → ℕ → Bool → C × Result E (Option ℕ) → Round D C F E
  delivered c io b bytes done (codec, err e) = failed c io (custom e)
  delivered c io b bytes done (codec, ok none) =
      next (record c { reading = body (record b { codec = codec }) }) io
        (not (wants_more_than b.mode bytes)) false
  delivered c io b bytes done (codec, ok (some n)) =
      consumed c (record b { codec = codec }) (done && n == bytes) (consume b.progress io n)

  -- `codec.data_received(&inbuf.in_buf[..bytes], done)` and what follows its answer.
  abbrev pub deliver : Connection D C F → ReadBuf → BodyState C → ℕ → Bool → Round D C F E
  deliver c io b bytes done =
      if leb bytes (length io.in_buf)
      then delivered c io b bytes done (v.data_received b.codec (take bytes io.in_buf) done)
      else crashed bad_slice

  abbrev pub with_bytes : Connection D C F → ReadBuf → BodyState C → ℕ × Bool → Round D C F E
  with_bytes c io b (bytes, done) =
      if done
      then deliver c io b bytes true
      else if io.closed
      then failed c io connection_reset
      else if wants_at_most b.mode bytes
      then deliver c io b bytes false
      else next (record c { reading = body b }) io false false

  abbrev pub with_progress :
      Connection D C F
      → BodyState C
      → Option (Run (BodyProgress × ReadBuf × Result InvalidChunkSize (Unit {0})))
      → Round D C F E
  with_progress c b none = stuck
  with_progress c b (some panic) = crashed chunk_overflow
  with_progress c b (some (returns (pr, io, err e))) = failed c io chunk_parse_error
  with_progress c b (some (returns (pr, io, ok u))) =
      with_bytes c io (record b { progress = pr }) (check_buf pr io)

  -- The arm of `Body`.
  unfoldable pub read_body : Connection D C F → ReadBuf → BodyState C → Round D C F E
  read_body c io b = with_progress c b (parse b.progress io)

  -- The `match` on the state, which `mem::replace` has made `Closed`.
  unfoldable pub dispatch_state : Connection D C F → ReadBuf → InState C → Round D C F E
  dispatch_state c io connected =
      if ltb 0 (length io.in_buf)
      then next (record (set_read_deadline clock c cfg.headers_timeout) { reading = headers }) io
          true false
      else next (record c { reading = connected }) io false false
  dispatch_state c io keep_alive =
      if ltb 0 (length io.in_buf)
      then next (record (set_read_deadline clock c cfg.headers_timeout) { reading = headers }) io
          true false
      else next (record c { reading = keep_alive }) io false false
  dispatch_state c io headers = read_headers c io
  dispatch_state c io (body b) = read_body c io b
  dispatch_state c io hijack = next (record c { reading = hijack }) io false false
  dispatch_state c io closed = crashed unreachable

  abbrev pub after_read : Filled → Round D C F E
  after_read (c, io, err e) = failed c io e
  after_read (c, io, ok u) = dispatch_state (record c { reading = closed }) io c.reading

  -- The body of the loop, in a state that it does not leave at once.
  unfoldable pub read_round : Connection D C F → ReadBuf → ℕ → Round D C F E
  read_round c io limit =
      after_read (if leb (length c.waiting) limit then read_socket c io else (c, io, ok tt))

  abbrev pub again_or_break :
      (Connection D C F → ReadBuf → Bool → Answer D C F E Bool)
      → Bool
      → Round D C F E
      → Answer D C F E Bool
  again_or_break again changed (next c io cont set) =
      let rest = again c io (changed || set) in
      if cont then rest else answers (record c { inbuf = some io }) (ok (changed || set))
  again_or_break again changed (failed c io e) = answers (record c { inbuf = some io }) (err e)
  again_or_break again changed (crashed w) = panicked w
  again_or_break again changed stuck = out_of_fuel

  abbrev pub within :
      (Connection D C F → ReadBuf → Bool → Answer D C F E Bool)
      → Connection D C F
      → ReadBuf
      → Bool
      → Limit
      → Answer D C F E Bool
  within again c io changed (up_to limit) = again_or_break again changed (read_round c io limit)
  within again c io changed underflow = panicked limit_underflow
  within again c io changed no_more = answers (record c { inbuf = some io }) (ok changed)

  -- The loop.
  unfoldable pub read_rounds : ℕ → Connection D C F → ReadBuf → Bool → Answer D C F E Bool
  read_rounds zero c io changed = out_of_fuel
  read_rounds (suc fuel) c io changed =
      within (read_rounds fuel) c io changed (limit_of cfg c.reading)

  abbrev pub with_inbuf : ℕ → Connection D C F → Option ReadBuf → Answer D C F E Bool
  with_inbuf fuel c none = answers c (ok false)
  with_inbuf fuel c (some io) = read_rounds fuel c io false

  unfoldable pub do_reads : ℕ → Connection D C F → Answer D C F E Bool
  do_reads fuel c = with_inbuf fuel c c.inbuf
