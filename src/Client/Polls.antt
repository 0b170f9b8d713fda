-- ===== src/Client/Polls.antt =====
-- `poll_reading` and `poll_complete` of src/client/proto.rs.
use minihttp.Base.{
  ℕ, zero, suc, Bool, true, false, ◌&&◌, ◌||◌, Option, none, some, List, [], ◌∷◌, length, ◌==◌,
  if◌then◌else◌,
}
use minihttp.Buffer.{Buffer}
use minihttp.Chunked.{SizeParser}
use minihttp.BodyProgress.{ReadBuf}
use minihttp.Server.State.{ReadEvent, got, end_of_stream, read_failed}
use minihttp.Client.Head.{ResponseParser}
use minihttp.Client.Reader.{
  headers, Parser, Answer, complete, not_ready, failed as failed_in, panicked as panicked_in,
  out_of_fuel as out_of_fuel_in, read_and_parse, kept_buffer,
}
use minihttp.Client.Connection.{
  Config, Parts, OutState, InState, idle, read, void, Waiting, premature_response_headers, closed,
  io, in_response, Connection, Outcome, answers, failed, panicked, out_of_fuel, parser_panicked,
  parser_out_of_fuel, is_idle_in, is_idle_out, ticked, poll_writing,
}

module _ {C F E : Type 0} (v : Parts C F E) (cfg : Config) (clock : ℕ → ℕ) where
  -- The read of an idle connection.
  abbrev pub idle_read : Connection C F → ReadBuf → ℕ → List ReadEvent → Outcome C F E Bool
  idle_read c b time [] =
      if b.closed then failed c closed else answers (record c { reading = idle b time }) false
  idle_read c b time (got [] ∷ rest) =
      let next = record c { incoming = rest } in
      if b.closed then failed next closed else answers (record next { reading = idle b time }) false
  idle_read c b time (got (x ∷ xs) ∷ rest) =
      failed (record c { incoming = rest }) premature_response_headers
  idle_read c b time (end_of_stream ∷ rest) = failed (record c { incoming = rest }) closed
  idle_read c b time (read_failed ∷ rest) = failed (record c { incoming = rest }) io

  -- `Parser::new`; the socket goes with the buffer.
  abbrev pub parser_new : Connection C F → ReadBuf → Waiting C → Parser C
  parser_new c b w = record {
    io = b;
    codec = w.codec;
    close = false;
    state = headers;
    request_state = w.state;
    close_signal = c.close;
    incoming = c.incoming;
  }

  abbrev pub next_response : Connection C F → ReadBuf → ℕ → List (Waiting C) → Outcome C F E Bool
  next_response c b time [] = idle_read c b time c.incoming
  next_response c b time (w ∷ rest) =
      answers (record c { waiting = rest; reading = read (parser_new c b w) w.queued_at }) true

  -- `*time = Instant::now()` where nothing is being written
  abbrev pub rearmed : Connection C F → OutState F → Connection C F
  rearmed c (idle out time) = record (ticked c) { writing = idle out (clock c.clock_reads) }
  rearmed c w = c

  -- The parser reads from the socket of the connection and sets its cell.
  abbrev pub lent : Connection C F → Parser C → Parser C
  lent c r = record r { incoming = c.incoming; close_signal = c.close }

  abbrev pub returned : Connection C F → Parser C → Connection C F
  returned c r = record c { incoming = r.incoming; close = r.close_signal }

  abbrev pub with_buffer : Connection C F → Option ReadBuf → Outcome C F E Bool
  with_buffer c none = failed c closed
  with_buffer c (some b) =
      let next = rearmed c c.writing in
      answers (record (ticked next) { reading = idle b (clock next.clock_reads) }) true

  abbrev pub parsed : Connection C F → ℕ → Answer C E → Outcome C F E Bool
  parsed c time (complete r) = with_buffer (returned c r) (kept_buffer r)
  parsed c time (not_ready r) = answers (record (returned c r) { reading = read r time }) false
  parsed c time (failed_in r e) = failed (returned c r) (in_response e)
  parsed c time panicked_in = parser_panicked
  parsed c time out_of_fuel_in = parser_out_of_fuel

  -- The loop of `poll_complete`; the answer is whether nothing is in flight.
  abbrev pub is_free : Connection C F → Bool
  is_free c = length c.waiting == 0 && is_idle_out c.writing && is_idle_in c.reading

  abbrev pub after_reading :
      (Connection C F → Outcome C F E Bool) → Bool → Outcome C F E Bool → Outcome C F E Bool
  after_reading again wr (answers c rd) =
      let rest = again c in if wr || rd then rest else answers c (is_free c)
  after_reading again wr (failed c e) = failed c e
  after_reading again wr panicked = panicked
  after_reading again wr out_of_fuel = out_of_fuel
  after_reading again wr parser_panicked = parser_panicked
  after_reading again wr parser_out_of_fuel = parser_out_of_fuel

-- A poll of the parser runs on fuel `bound`.
module _ {C F E : Type 0} ⦃o : Buffer⦄ ⦃p : SizeParser⦄ ⦃q : ResponseParser⦄ (v : Parts C F E)
    (cfg : Config) (clock : ℕ → ℕ) (bound : ℕ) where
  abbrev pub read_state : Connection C F → InState C → Outcome C F E Bool
  read_state c (idle b time) = next_response v cfg clock c b time c.waiting
  read_state c (read r time) =
      parsed v cfg clock c time (read_and_parse v.codec bound (lent v cfg clock c r))
  read_state c void = panicked

  unfoldable pub poll_reading : Connection C F → Outcome C F E Bool
  poll_reading c = read_state (record c { reading = void }) c.reading

  abbrev pub after_writing :
      (Connection C F → Outcome C F E Bool) → Outcome C F E Bool → Outcome C F E Bool
  after_writing again (answers c wr) = after_reading v cfg clock again wr (poll_reading c)
  after_writing again (failed c e) = failed c e
  after_writing again panicked = panicked
  after_writing again out_of_fuel = out_of_fuel
  after_writing again parser_panicked = parser_panicked
  after_writing again parser_out_of_fuel = parser_out_of_fuel

  unfoldable pub poll_complete : ℕ → Connection C F → Outcome C F E Bool
  poll_complete zero c = out_of_fuel
  poll_complete (suc fuel) c = after_writing (poll_complete fuel) (poll_writing v cfg clock c)
