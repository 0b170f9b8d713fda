-- ===== src/Server/State.antt =====
-- The state of a connection, src/server/proto.rs, and what it meets from outside.
use minihttp.Base.{ℕ, Bool, Option, List, Bytes, ltb, if◌then◌else◌, Result, ok, err}
use minihttp.BodyProgress.{BodyProgress, ReadBuf}
use minihttp.Chunked
use minihttp.RequestHead.{BodyKind, fixed, chunked, unsupported}
use minihttp.RequestHead.Head.{Head, Error, ResponseConfig}
use minihttp.Serializer.State.{MessageState}
use minihttp.Server.Config.{Mode, buffered_upfront, RecvMode}

-- What one call of `ReadBuf::read` brings: bytes, the end of the stream, or an error. Where the
-- list of these has ended the call brings nothing, as on a socket that would block.
pub data ReadEvent : Type 0 where
  got : Bytes → ReadEvent
  end_of_stream : ReadEvent
  read_failed : ReadEvent

-- What one call of `WriteBuf::flush` does: it sends the first bytes, or fails.
pub data FlushEvent : Type 0 where
  sent : ℕ → FlushEvent
  flush_failed : FlushEvent

-- `Async` of a response future: the output buffer comes back when the response is complete.
pub data Polled (F : Type 0) : Type 0 where
  ready : Bytes → Polled F
  pending : F → Polled F

-- The code of the application: a dispatcher with state `D`, codecs `C`, response futures `F` and
-- errors `E`. An encoder is the state of its message and its output buffer.
pub record Service (D C F E : Type 0) : Type 0 where
  pub headers_received : D → Head → D × Result E C
  pub recv_mode : C → C × RecvMode
  pub data_received : C → Bytes → Bool → C × Result E (Option ℕ)
  pub start_response : C → MessageState × Bytes → C × F
  pub poll : F → Result E (Polled F)

-- The errors that end a connection.
pub data ServerError (E : Type 0) : Type 0 where
  io_error : ServerError E
  head_failed : Error E → ServerError E
  chunk_parse_error : ServerError E
  connection_reset : ServerError E
  unsupported_body : ServerError E
  request_too_long : ServerError E
  timeout : ServerError E
  custom : E → ServerError E

-- A request that waits for its response.
abbrev pub Entry : Type 0 → Type 0
Entry C = ResponseConfig × C

pub record BodyState (C : Type 0) : Type 0 where
  pub mode : Mode
  pub progress : BodyProgress
  pub response_config : ResponseConfig
  pub codec : C

pub data InState (C : Type 0) : Type 0 where
  connected keep_alive headers : InState C
  body : BodyState C → InState C
  hijack closed : InState C

pub data OutState (F C : Type 0) : Type 0 where
  idle : Bytes → OutState F C
  write : F → OutState F C
  switch : F → C → OutState F C
  void : OutState F C

-- What the connection does to requests.
pub data Event (C : Type 0) : Type 0 where
  accepted : Entry C → Event C
  started : Entry C → Event C
  hijacked : C → Event C

-- The fields of `PureProto` without the configuration, and below them the outside: what the socket
-- is going to do, how often the clock was read, and what was done to requests, the last first.
pub record Connection (D C F : Type 0) : Type 0 where
  pub dispatcher : D
  pub inbuf : Option ReadBuf
  pub reading : InState C
  pub waiting : List (Entry C)
  pub writing : OutState F C
  pub last_byte_read : ℕ
  pub last_byte_written : ℕ
  pub read_deadline : ℕ
  pub response_deadline : ℕ
  pub incoming : List ReadEvent
  pub outgoing : List FlushEvent
  pub clock_reads : ℕ
  pub history : List (Event C)

-- Where a call panics: at `inflight_request_limit-1`, in the chunk decoder, at the slice
-- `in_buf[..bytes]`, in `BodyProgress::consume`, at `unimplemented!`, at `unreachable!`, or at
-- the `expect` of `inbuf`.
pub data Fault : Type 0 where
  limit_underflow chunk_overflow bad_slice consumed_too_much unimplemented unreachable
        not_expected :
      Fault

-- How a call of a method ends: by a panic, or with a connection and a result. A loop in the model
-- runs on fuel.
pub data Answer (D C F E : Type 0) (A : Type 0) : Type 0 where
  out_of_fuel : Answer D C F E A
  panicked : Fault → Answer D C F E A
  answers : Connection D C F → Result (ServerError E) A → Answer D C F E A

-- `new_body`
unfoldable pub new_body : {E : Type 0} → BodyKind → Mode → Result (ServerError E) BodyProgress
new_body unsupported mode = err unsupported_body
new_body (fixed x) (buffered_upfront b) =
    if ltb b x then err request_too_long else ok (BodyProgress.fixed x)
new_body (fixed x) mode = ok (BodyProgress.fixed x)
new_body chunked mode = ok (BodyProgress.chunked Chunked.new)
