-- ===== src/Client/Reader.antt =====
-- `Parser` of src/client/parser.rs: the reading of one response. The events of the socket are those
-- of the server's connection.
use minihttp.Base.{
  ℕ, zero, suc, Bool, true, false, ◌&&◌, Option, none, some, List, [], ◌∷◌, length, take, leb, ltb,
  ◌==◌, if◌then◌else◌, Run, panic, returns, Result, ok, err,
}
use minihttp.Buffer.{Buffer, extend}
use minihttp.Chunked.{SizeParser, InvalidChunkSize}
use minihttp.BodyProgress.{BodyProgress, ReadBuf, check_buf, parse, consume}
use minihttp.Server.State.{ReadEvent, got, end_of_stream, read_failed}
use minihttp.Client.Scan.{
  Mode, progressive, io, chunk_size, reset_on_response_headers, reset_on_response_body,
  premature_response_headers,
}
use minihttp.Client.Head.{Codec, Error, plain, custom, ResponseParser, Outcome, parse_headers}

-- `RequestState` of src/client/encoder.rs: how far the request is.
pub data RequestState : Type 0 where
  empty started_head started_normal : RequestState

pub data State : Type 0 where
  headers : State
  body : Mode → BodyProgress → State

-- The fields of `Parser`, the two cells that it shares with the encoder and the connection, and
-- what the socket is going to do. `close_signal` is set, but never read here.
pub record Parser (C : Type 0) : Type 0 where
  pub io : ReadBuf
  pub codec : C
  pub close : Bool
  pub state : State
  pub request_state : RequestState
  pub close_signal : Bool
  pub incoming : List ReadEvent

-- How `read_and_parse` ends. A loop in the model runs on fuel, and so does the chunk decoder.
pub data Answer (C E : Type 0) : Type 0 where
  complete not_ready : Parser C → Answer C E
  failed : Parser C → Error E → Answer C E
  panicked out_of_fuel : Answer C E

-- How a round of the loop over the body ends: by a `return`, or with one more read.
pub data Round (C E : Type 0) : Type 0 where
  leave : Answer C E → Round C E
  read_more : Parser C → Mode → BodyProgress → Round C E

abbrev pub is_empty : RequestState → Bool
is_empty empty = true
is_empty _ = false

abbrev pub is_started_head : RequestState → Bool
is_started_head started_head = true
is_started_head _ = false

-- `matches!(*mode, Progressive(x) if x <= bytes)` and `matches!(*mode, Progressive(x) if x > bytes)`
abbrev pub wants_at_most : Mode → ℕ → Bool
wants_at_most (progressive x) bytes = leb x bytes
wants_at_most _ bytes = false

abbrev pub wants_more_than : Mode → ℕ → Bool
wants_more_than (progressive x) bytes = ltb bytes x
wants_more_than _ bytes = false

module _ {C E : Type 0} ⦃o : Buffer⦄ ⦃p : SizeParser⦄ (v : Codec C E) where
  abbrev pub consumed : Parser C → Mode → Bool → Run (BodyProgress × ReadBuf) → Round C E
  consumed x mode complete_now panic = leave panicked
  consumed x mode complete_now (returns (b, io')) =
      let next = record x { io = io'; state = body mode b } in
      if complete_now then leave (complete next) else read_more next mode b

  abbrev pub delivered :
      Parser C → Mode → BodyProgress → ℕ → Bool → C × Result E (Option ℕ) → Round C E
  delivered x mode b bytes done (c, err e) = leave (failed (record x { codec = c }) (custom e))
  delivered x mode b bytes done (c, ok (some n)) =
      consumed (record x { codec = c }) mode (done && n == bytes) (consume b x.io n)
  delivered x mode b bytes done (c, ok none) =
      let next = record x { codec = c } in
      if wants_more_than mode bytes then leave (not_ready next) else read_more next mode b

  -- `codec.data_received(&io.in_buf[..bytes], done)` and what follows its answer.
  abbrev pub deliver : Parser C → Mode → BodyProgress → ℕ → Bool → Round C E
  deliver x mode b bytes done =
      if leb bytes (length x.io.in_buf)
      then delivered x mode b bytes done (v.data_received x.codec (take bytes x.io.in_buf) done)
      else leave panicked

  abbrev pub with_bytes : Parser C → Mode → BodyProgress → ℕ × Bool → Round C E
  with_bytes x mode b (bytes, done) =
      if done
      then deliver x mode b bytes true
      else if x.io.closed
      then leave (failed x (plain reset_on_response_body))
      else if wants_at_most mode bytes
      then deliver x mode b bytes false
      else read_more x mode b

  abbrev pub with_progress :
      Parser C
      → Mode
      → Option (Run (BodyProgress × ReadBuf × Result InvalidChunkSize (Unit {0})))
      → Round C E
  with_progress x mode none = leave out_of_fuel
  with_progress x mode (some panic) = leave panicked
  with_progress x mode (some (returns (b, io', err e))) =
      leave (failed (record x { io = io'; state = body mode b }) (plain chunk_size))
  with_progress x mode (some (returns (b, io', ok u))) =
      with_bytes (record x { io = io'; state = body mode b }) mode b (check_buf b io')

  -- The `match` of the second loop.
  unfoldable pub body_round : Parser C → Mode → BodyProgress → Round C E
  body_round x mode b = with_progress x mode (parse b x.io)

  -- The read behind it: nothing new ends the poll, unless the stream has ended.
  abbrev pub nothing_read : (Parser C → Answer C E) → Parser C → Answer C E
  nothing_read again x = let rest = again x in if x.io.closed then rest else not_ready x

  abbrev pub read_next : (Parser C → Answer C E) → Parser C → List ReadEvent → Answer C E
  read_next again x [] = nothing_read again x
  read_next again x (got b ∷ rest) =
      let next = record x { io = record x.io { in_buf = extend x.io.in_buf b }; incoming = rest } in
      if length b == 0 then nothing_read again next else again next
  read_next again x (end_of_stream ∷ rest) =
      again (record x { io = record x.io { closed = true }; incoming = rest })
  read_next again x (read_failed ∷ rest) = failed (record x { incoming = rest }) (plain io)

  abbrev pub after_round : (Parser C → Mode → BodyProgress → Answer C E) → Round C E → Answer C E
  after_round again (leave a) = a
  after_round again (read_more x mode b) = read_next (λ x'. again x' mode b) x x.incoming

  -- The second loop.
  unfoldable pub read_body : ℕ → Parser C → Mode → BodyProgress → Answer C E
  read_body zero x mode b = out_of_fuel
  read_body (suc fuel) x mode b = after_round (read_body fuel) (body_round x mode b)

module _ {C E : Type 0} ⦃o : Buffer⦄ ⦃p : SizeParser⦄ ⦃q : ResponseParser⦄ (v : Codec C E) where
  abbrev pub no_headers : Parser C → Answer C E
  no_headers x = if x.io.closed then failed x (plain reset_on_response_headers) else not_ready x

  abbrev pub with_head :
      (Parser C → Answer C E)
      → (Parser C → Mode → BodyProgress → Answer C E)
      → Parser C
      → Outcome C E
      → Answer C E
  with_head again on_body x (buf, c, err e) =
      failed (record x { io = record x.io { in_buf = buf }; codec = c }) e
  with_head again on_body x (buf, c, ok none) =
      again (record x { io = record x.io { in_buf = buf }; codec = c })
  with_head again on_body x (buf, c, ok (some (mode, b, close))) =
      on_body
        (record x {
          io = record x.io { in_buf = buf };
          codec = c;
          state = body mode b;
          close = if close then true else x.close;
          close_signal = if close then true else x.close_signal;
        })
        mode b

  abbrev pub with_data :
      (Parser C → Answer C E)
      → (Parser C → Mode → BodyProgress → Answer C E)
      → Parser C
      → Answer C E
  with_data again on_body x =
      if is_empty x.request_state
      then failed x (plain premature_response_headers)
      else with_head again on_body x
          (parse_headers v x.io.in_buf x.codec (is_started_head x.request_state))

  -- The first loop, which reads before it looks, on the events of the socket.
  unfoldable pub read_headers :
      (Parser C → Mode → BodyProgress → Answer C E) → List ReadEvent → Parser C → Answer C E
  read_headers on_body [] x = no_headers x
  read_headers on_body (got b ∷ rest) x =
      let next = record x { io = record x.io { in_buf = extend x.io.in_buf b }; incoming = rest } in
      let found = with_data (read_headers on_body rest) on_body next in
      if length b == 0 then no_headers next else found
  read_headers on_body (end_of_stream ∷ rest) x =
      no_headers (record x { io = record x.io { closed = true }; incoming = rest })
  read_headers on_body (read_failed ∷ rest) x = failed (record x { incoming = rest }) (plain io)

  abbrev from_state : ℕ → Parser C → State → Answer C E
  from_state fuel x headers = read_headers (read_body v fuel) x.incoming x
  from_state fuel x (body mode b) = read_body v fuel x mode b

  unfoldable pub read_and_parse : ℕ → Parser C → Answer C E
  read_and_parse fuel x = from_state fuel x x.state

-- `poll` on an answer that is complete: the buffer comes back unless the connection is to be closed.
unfoldable pub kept_buffer : {C : Type 0} → Parser C → Option ReadBuf
kept_buffer x = if x.close then none else some x.io
