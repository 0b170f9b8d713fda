-- ===== src/Client/Connection.antt =====
-- The client's end of a connection, src/client/proto.rs: a queue of requests whose responses are
-- awaited, one future that writes and one parser that reads.
use minihttp.Base.{
  ℕ, suc, ◌-◌, Bool, true, false, ◌&&◌, ◌||◌, Option, none, some, List, [], ◌∷◌, Bytes, length,
  drop, ltb, ◌==◌, if◌then◌else◌, Result, ok, err,
}
use minihttp.BodyProgress.{ReadBuf}
use minihttp.Server.State.{ReadEvent, FlushEvent, sent, flush_failed}
use minihttp.Client.Head.{Codec, ResponseParser}
use minihttp.Client.Head as Head
use minihttp.Client.Reader.{RequestState, Parser}

pub record Config : Type 0 where
  pub inflight_request_limit : ℕ
  pub inflight_request_prealloc : ℕ
  pub keep_alive_timeout : ℕ
  pub safe_pipeline_timeout : ℕ
  pub max_request_timeout : ℕ

-- What the request that is being written has put into the cells that its encoder shares with the
-- parser of its response and with the connection: how far it is, and whether it says `close`.
pub record Signals : Type 0 where
  pub state : RequestState
  pub says_close : Bool

-- The application: a codec that starts to write its request into a buffer and takes the response,
-- and the future that ends with the buffer. A poll says nothing while it is pending.
pub record Parts (C F E : Type 0) : Type 0 where
  pub start_write : C → Bytes → C × F × Signals
  pub poll_write : F → Result E (F × Signals × Option Bytes)
  pub codec : Codec C E

pub data OutState (F : Type 0) : Type 0 where
  idle : Bytes → ℕ → OutState F
  write : F → ℕ → OutState F
  void : OutState F

pub data InState (C : Type 0) : Type 0 where
  idle : ReadBuf → ℕ → InState C
  read : Parser C → ℕ → InState C
  void : InState C

pub record Waiting (C : Type 0) : Type 0 where
  pub codec : C
  pub state : RequestState
  pub queued_at : ℕ

pub data Error (E : Type 0) : Type 0 where
  io keep_alive_timeout premature_response_headers closed : Error E
  custom : E → Error E
  in_response : Head.Error E → Error E

-- The fields of `PureProto` without the configuration, and below them the outside, as for the
-- server.
pub record Connection (C F : Type 0) : Type 0 where
  pub writing : OutState F
  pub waiting : List (Waiting C)
  pub reading : InState C
  pub close : Bool
  pub incoming : List ReadEvent
  pub outgoing : List FlushEvent
  pub clock_reads : ℕ

-- How a call ends: with its answer, an error, or a panic, at `unreachable!` or the subtraction from
-- the limit; or in a poll of the parser, which panics or loops for longer than its fuel.
pub data Outcome (C F E A : Type 0) : Type 0 where
  answers : Connection C F → A → Outcome C F E A
  failed : Connection C F → Error E → Outcome C F E A
  panicked out_of_fuel parser_panicked parser_out_of_fuel : Outcome C F E A

abbrev pub is_read : {C : Type 0} → InState C → Bool
is_read (read r time) = true
is_read _ = false

abbrev pub is_idle_in : {C : Type 0} → InState C → Bool
is_idle_in (idle b time) = true
is_idle_in _ = false

abbrev pub is_idle_out : {F : Type 0} → OutState F → Bool
is_idle_out (idle b time) = true
is_idle_out _ = false

-- The cell of the request that is being written is held by the last one that waits, or by the
-- parser if none waits.
abbrev pub set_last : {C : Type 0} → RequestState → List (Waiting C) → List (Waiting C)
set_last s [] = []
set_last s (w ∷ []) = record w { state = s } ∷ []
set_last s (w ∷ w' ∷ ws) = w ∷ set_last s (w' ∷ ws)

abbrev pub set_reading : {C : Type 0} → RequestState → InState C → InState C
set_reading s (read r time) = read (record r { request_state = s }) time
set_reading s (idle b time) = idle b time
set_reading s void = void

module _ {C F : Type 0} where
  abbrev pub ticked : Connection C F → Connection C F
  ticked c = record c { clock_reads = suc c.clock_reads }

  -- A connection whose socket has been split into a buffer to read and one to write.
  abbrev pub new : (ℕ → ℕ) → ReadBuf → List ReadEvent → List FlushEvent → Connection C F
  new clock b incoming outgoing = record {
    writing = idle [] (clock 0);
    waiting = [];
    reading = idle b (clock 1);
    close = false;
    incoming = incoming;
    outgoing = outgoing;
    clock_reads = 2;
  }

  abbrev pub signalled : Signals → Connection C F → List (Waiting C) → Connection C F
  signalled s c [] = record c {
    reading = set_reading s.state c.reading;
    close = s.says_close || c.close;
  }
  signalled s c (w ∷ ws) = record c {
    waiting = set_last s.state (w ∷ ws);
    close = s.says_close || c.close;
  }

  -- `io.flush()`
  abbrev pub flushed : Connection C F → Bytes → List FlushEvent → Connection C F × Option Bytes
  flushed c out [] = (c, some out)
  flushed c out (sent n ∷ rest) = (record c { outgoing = rest }, some (drop n out))
  flushed c out (flush_failed ∷ rest) = (record c { outgoing = rest }, none)

  unfoldable pub flush : Connection C F → Bytes → Connection C F × Option Bytes
  flush c out = flushed c out c.outgoing

module _ {C F E : Type 0} (v : Parts C F E) (cfg : Config) (clock : ℕ → ℕ) where
  -- `time.elapsed() > timeout`, which reads the clock
  abbrev pub is_over : Connection C F → ℕ → ℕ → Bool
  is_over c time timeout = ltb timeout (clock c.clock_reads - time)

  -- The test for an idle connection that stands in `poll_writing` and in `start_send`.
  abbrev pub is_stale : Connection C F → ℕ → Bool
  is_stale c time =
      is_over c time cfg.keep_alive_timeout && length c.waiting == 0 && is_idle_in c.reading

  abbrev pub idle_flushed : ℕ → Connection C F × Option Bytes → Outcome C F E Bool
  idle_flushed time (c, none) = failed c io
  idle_flushed time (c, some out) =
      if is_stale c time
      then failed (ticked c) keep_alive_timeout
      else answers (record (ticked c) { writing = idle out time }) false

  abbrev pub done_flushed : Connection C F × Option Bytes → Outcome C F E Bool
  done_flushed (c, none) = failed c io
  done_flushed (c, some out) =
      answers (record (ticked c) { writing = idle out (clock c.clock_reads) }) true

  abbrev pub polled :
      Connection C F → ℕ → Result E (F × Signals × Option Bytes) → Outcome C F E Bool
  polled c start (err e) = failed c (custom e)
  polled c start (ok (f, s, none)) =
      answers (record (signalled s c c.waiting) { writing = write f start }) false
  polled c start (ok (f, s, some out)) = done_flushed (flush (signalled s c c.waiting) out)

  abbrev pub write_state : Connection C F → OutState F → Outcome C F E Bool
  write_state c (idle out time) = idle_flushed time (flush c out)
  write_state c (write f start) = polled c start (v.poll_write f)
  write_state c void = panicked

  unfoldable pub poll_writing : Connection C F → Outcome C F E Bool
  poll_writing c = write_state (record c { writing = void }) c.writing
