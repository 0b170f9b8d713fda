-- ===== src/Server/Examples.antt =====
-- Tests of the model of src/server/proto.rs, and its theorems at concrete inputs.
mod Echo
use minihttp.Base.{
  ℕ, zero, suc, ◌+◌, ◌≤◌, ◌≡◌, refl, Bool, true, false, Option, none, some, List, [], ◌∷◌, ◌++◌,
  Bytes, length, take, Result, ok, err, arith,
}
use minihttp.Base.Ascii.{codes}
use minihttp.Buffer.{vec_buffer}
use minihttp.Chunked.LineParser.{line_parser}
use minihttp.BodyProgress.{ReadBuf, BodyProgress, check_buf, parse, consume}
use minihttp.Version.{http11}
use minihttp.RequestHead.{scan_headers, scan_all, scan_header, kind_of, parse_u64, fixed}
use minihttp.RequestHead.Head.{
  ResponseConfig, config_from, head_of, first_state, parse_headers, read_request,
}
use minihttp.RequestTarget.{position, parse as parse_target}
use minihttp.Utf8.{is_utf8}
use minihttp.Server.Config.{Config, new_config, Mode, buffered_upfront}
use minihttp.Server.State.{
  got, end_of_stream, sent, ServerError, Entry, BodyState, InState, keep_alive, headers, body,
  hijack, OutState, idle, void, Service, Event, accepted, started, hijacked, Connection, Answer,
  out_of_fuel, answers, new_body,
}
use minihttp.Server.Queue.{nothing, accept}
use minihttp.Server.Sound.{IsSound, work}
use minihttp.Server.Progress.{ReadsTo, do_reads-ReadsTo}
use minihttp.Server.Requests.{read_rounds-request}
use minihttp.Server.Hazards.{read_rounds_never_end}
use minihttp.Server.Backpressure.{LeavesSocket, do_reads-LeavesSocket}
use minihttp.Server.Reads.{
  dispatch_state, read_headers, read_body, read_socket, read_round, read_rounds, do_reads, limit_of,
}
use minihttp.Server.Writes.{do_writes, write_round, dispatch_state as dispatch_out, flush}
use minihttp.Server.Process.{new, process, timeout, poll}
use minihttp.Server.Process.Wakeups.{Wakeup, serve, EndsInOrder, serve_in_order}
use minihttp.Server.Examples.Echo.{three_parser, post, echo, echo-IsTame, clock}

abbrev config_of_post : ResponseConfig
config_of_post = record { is_head = false; do_close = false; version = http11 }

abbrev start : Connection ℕ ℕ Bytes
start =
    new new_config clock 5 (got (codes "abcde") ∷ got (codes "abcxy") ∷ [])
      (sent 1 ∷ sent 1 ∷ sent 1 ∷ [])

abbrev history_of : Answer ℕ ℕ Bytes (Unit {0}) Bool → List (Event ℕ)
history_of (answers c r) = c.history
history_of a = []

abbrev waiting_of : Answer ℕ ℕ Bytes (Unit {0}) Bool → List (Entry ℕ)
waiting_of (answers c r) = c.waiting
waiting_of a = []

abbrev entry : ℕ → Entry ℕ
entry n = (config_of_post, n)

-- Two requests in one go.
process_test :
    history_of
      (process ⦃o = vec_buffer⦄ ⦃p = line_parser⦄ ⦃q = three_parser⦄ echo new_config clock 20 start)
    ≡ started (entry 6) ∷ started (entry 5) ∷ accepted (entry 6) ∷ accepted (entry 5) ∷ []
unfolding process do_writes write_round dispatch_out flush do_reads read_rounds read_round
    read_socket dispatch_state read_headers read_body limit_of new new_body parse_headers
    read_request scan_headers scan_all scan_header kind_of parse_u64 is_utf8 position parse_target
    config_from head_of first_state parse check_buf consume
process_test = refl

-- Two wakeups.
abbrev wakeups : List Wakeup
wakeups =
    record { read_events = got (codes "abcd") ∷ []; flush_events = []; timer = λ n. false }
    ∷ record {
      read_events = got (codes "eabcxy") ∷ end_of_stream ∷ [];
      flush_events = sent 9 ∷ [];
      timer = λ n. false;
    }
    ∷ []

serve_in_order_example : EndsInOrder (
    serve ⦃o = vec_buffer⦄ ⦃p = line_parser⦄ ⦃q = three_parser⦄ echo new_config clock wakeups
      (new new_config clock 6 [] []))
serve_in_order_example =
    serve_in_order ⦃o = vec_buffer⦄ ⦃p = line_parser⦄ ⦃q = three_parser⦄ echo new_config clock 6
      wakeups echo-IsTame (omega arith)

-- The head and the body of a request, and the next request behind them, in the buffer.
abbrev full_io : ReadBuf
full_io = record { in_buf = codes "abcdeabc"; closed = false }

abbrev at_head : Connection ℕ ℕ Bytes
at_head = record {
  dispatcher = 5;
  inbuf = some full_io;
  reading = headers;
  waiting = entry 4 ∷ [];
  writing = idle [];
  last_byte_read = 0;
  last_byte_written = 0;
  read_deadline = 0;
  response_deadline = 0;
  incoming = [];
  outgoing = sent 3 ∷ [];
  clock_reads = 7;
  history = accepted (entry 4) ∷ [];
}

at_head-IsSound : IsSound at_head full_io
at_head-IsSound = record { fits = tt; holds = tt; serves = accept nothing refl }

do_reads-ReadsTo_example : ReadsTo (work at_head full_io) (
    do_reads ⦃o = vec_buffer⦄ ⦃p = line_parser⦄ ⦃q = three_parser⦄ echo new_config clock 50 at_head)
do_reads-ReadsTo_example =
    do_reads-ReadsTo ⦃o = vec_buffer⦄ ⦃p = line_parser⦄ ⦃q = three_parser⦄ echo new_config clock
      echo-IsTame (omega arith) 50 at_head full_io refl (omega arith) at_head-IsSound

head_test :
    parse_headers ⦃o = vec_buffer⦄ ⦃p = three_parser⦄ full_io.in_buf 5 echo.headers_received
    ≡ (codes "deabc", 6, ok (some (fixed 2, 5, config_of_post)))
unfolding parse_headers read_request scan_headers scan_all scan_header kind_of parse_u64 is_utf8
    position parse_target config_from head_of
head_test = refl

read_rounds-request_example :
    (c' : Connection ℕ ℕ Bytes) × (read_rounds ⦃o = vec_buffer⦄ ⦃p = line_parser⦄ ⦃q = three_parser⦄
        echo new_config clock 9 at_head full_io false
      ≡ read_rounds ⦃o = vec_buffer⦄ ⦃p = line_parser⦄ ⦃q = three_parser⦄ echo new_config clock 7 c'
          (record { in_buf = codes "abc"; closed = false })
          true)
    × (c'.reading ≡ keep_alive)
    × (c'.waiting ≡ entry 4 ∷ entry 5 ∷ [])
    × (c'.writing ≡ idle [])
    × (c'.dispatcher ≡ 6)
read_rounds-request_example =
    read_rounds-request ⦃o = vec_buffer⦄ ⦃p = line_parser⦄ ⦃q = three_parser⦄ echo new_config clock
      7 at_head full_io false (codes "deabc") 6 2 10 none 5 5 5 config_of_post refl refl
      (omega arith) head_test refl (omega arith) (omega arith) refl

-- A service that is never ready for a body.
abbrev never : Service ℕ ℕ Bytes (Unit {0})
never = record echo { data_received = λ c bytes done. (suc c, ok none) }

abbrev at_body : Connection ℕ ℕ Bytes
at_body = record at_head {
  reading = body (record {
    mode = buffered_upfront 10;
    progress = BodyProgress.fixed 2;
    response_config = config_of_post;
    codec = 5;
  });
}

read_rounds_never_end_example :
    read_rounds ⦃o = vec_buffer⦄ ⦃p = line_parser⦄ ⦃q = three_parser⦄ never new_config clock 1000
      at_body full_io false
    ≡ out_of_fuel
read_rounds_never_end_example =
    read_rounds_never_end ⦃o = vec_buffer⦄ ⦃p = line_parser⦄ ⦃q = three_parser⦄ never new_config
      clock 1000 at_body full_io false 2 (buffered_upfront 10) 5 config_of_post refl refl
      (omega arith) (omega arith) refl (λ x. (suc x, refl))

-- Three requests wait where two are the limit.
abbrev crowded : Connection ℕ ℕ Bytes
crowded = record at_head {
  waiting = entry 1 ∷ entry 2 ∷ entry 3 ∷ [];
  incoming = got (codes "xyz") ∷ [];
}

do_reads-LeavesSocket_example : LeavesSocket (got (codes "xyz") ∷ []) (
    do_reads ⦃o = vec_buffer⦄ ⦃p = line_parser⦄ ⦃q = three_parser⦄ echo new_config clock 50 crowded)
do_reads-LeavesSocket_example =
    do_reads-LeavesSocket ⦃o = vec_buffer⦄ ⦃p = line_parser⦄ ⦃q = three_parser⦄ echo new_config
      clock 50 crowded (omega arith)
