-- ===== src/Client/InFlightTests.antt =====
-- Tests of the model of src/client/proto.rs, and its theorems at concrete inputs.
use minihttp.Base.{
  ℕ, zero, suc, ◌≡◌, refl, Bool, true, false, Option, none, some, List, [], ◌∷◌, Bytes, length,
  Result, ok, arith,
}
use minihttp.Base.Ascii.{codes}
use minihttp.Buffer.{vec_buffer}
use minihttp.Chunked.LineParser.{line_parser}
use minihttp.BodyProgress.{ReadBuf, parse, check_buf, consume}
use minihttp.RequestHead.{parse_u64}
use minihttp.Utf8.{is_utf8}
use minihttp.Server.State.{ReadEvent, got, sent}
use minihttp.Client.Scan.{scan_headers, is_bodyless, scan_all, scan_header, kind_of, new_body}
use minihttp.Client.Head.{parse_headers, read_response, head_of}
use minihttp.Client.Reader.{
  headers, started_normal, read_and_parse, read_headers, read_body, body_round, kept_buffer,
}
use minihttp.Client.Examples.{keeper, three_parser}
use minihttp.Client.Connection.{
  Config, Parts, Signals, OutState, InState, Connection, Outcome, answers, failed,
  premature_response_headers, new, poll_writing, flush,
}
use minihttp.Client.Polls.{poll_reading, poll_complete}
use minihttp.Client.Sending.{start_send, get_timeout}
use minihttp.Client.Sound.{KeepsSound}
use minihttp.Client.InFlight.{poll_complete-KeepsSound}
use minihttp.Client.Sends.{start_send-KeepsSound}

abbrev unread : ReadBuf
unread = record { in_buf = []; closed = false }

abbrev normal : Signals
normal = record { state = started_normal; says_close = false }

-- A request takes as many polls more to write as the number says.
abbrev poll_counter : ℕ → Result (Unit {0}) (ℕ × Signals × Option Bytes)
poll_counter zero = ok (zero, normal, some (codes "x"))
poll_counter (suc n) = ok (n, normal, none)

abbrev counting : Parts Bytes ℕ (Unit {0})
counting = record {
  start_write = λ c out. (c, 1, normal);
  poll_write = poll_counter;
  codec = keeper;
}

abbrev two_at_once : Config
two_at_once = record {
  inflight_request_limit = 2;
  inflight_request_prealloc = 2;
  keep_alive_timeout = 4000;
  safe_pipeline_timeout = 300;
  max_request_timeout = 15000;
}

abbrev tick : ℕ → ℕ
tick n = n

abbrev at_rest : Connection Bytes ℕ
at_rest = new tick unread [] (sent 1 ∷ [])

-- A request is written, and the head of its response, the body and one byte more are on the way.
abbrev awaiting : List ReadEvent → Connection Bytes ℕ
awaiting evs = record at_rest {
  writing = OutState.write 0 2;
  waiting = record { codec = []; state = started_normal; queued_at = 2 } ∷ [];
  incoming = evs;
}

abbrev reading_one : Connection Bytes ℕ
reading_one = record at_rest {
  reading =
      InState.read
        (record {
          io = unread;
          codec = [];
          close = false;
          state = headers;
          request_state = started_normal;
          close_signal = false;
          incoming = [];
        })
        2;
}

abbrev took : Outcome Bytes ℕ (Unit {0}) Bool → Option (Bool × ℕ)
took (answers c b) = some (b, length c.waiting)
took _ = none

abbrev error_premature : Outcome Bytes ℕ (Unit {0}) Bool → Bool
error_premature (failed c premature_response_headers) = true
error_premature _ = false

start_send_takes : took (start_send counting two_at_once tick at_rest []) ≡ some (true, 1)
unfolding start_send
start_send_takes = refl

start_send_waits : took (start_send counting two_at_once tick (awaiting []) []) ≡ some (false, 1)
unfolding start_send
start_send_waits = refl

-- The response that is being read counts.
start_send_full :
    took
      (start_send counting (record two_at_once { inflight_request_limit = 1 }) tick reading_one [])
    ≡ some (false, 0)
unfolding start_send
start_send_full = refl

get_timeout_rest : get_timeout two_at_once at_rest ≡ some 4001
unfolding get_timeout
get_timeout_rest = refl

-- The response is read to its end, and nothing is in flight any more.
poll_complete_reads :
    took (
      poll_complete ⦃o = vec_buffer⦄ ⦃p = line_parser⦄ ⦃q = three_parser⦄ counting two_at_once tick
        9 9
        (awaiting (got (codes "abcde") ∷ got (codes "fg") ∷ [])))
    ≡ some (true, 0)
unfolding poll_complete poll_writing flush poll_reading read_and_parse read_headers read_body
    body_round kept_buffer parse_headers read_response head_of scan_headers is_bodyless scan_all
    scan_header kind_of parse_u64 is_utf8 new_body parse check_buf consume
poll_complete_reads = refl

poll_complete_premature :
    error_premature (
      poll_complete ⦃o = vec_buffer⦄ ⦃p = line_parser⦄ ⦃q = three_parser⦄ counting two_at_once tick
        9 9
        (record at_rest { incoming = got (codes "H") ∷ [] }))
    ≡ true
unfolding poll_complete poll_writing flush poll_reading
poll_complete_premature = refl

poll_complete-KeepsSound_example : KeepsSound two_at_once (
    poll_complete ⦃o = vec_buffer⦄ ⦃p = line_parser⦄ ⦃q = three_parser⦄ counting two_at_once tick 9
      9
      (awaiting (got (codes "abcde") ∷ got (codes "fg") ∷ [])))
poll_complete-KeepsSound_example =
    poll_complete-KeepsSound ⦃o = vec_buffer⦄ ⦃p = line_parser⦄ ⦃q = three_parser⦄ counting
      two_at_once tick 9 9 (awaiting (got (codes "abcde") ∷ got (codes "fg") ∷ []))
      (record { is_writing = tt; is_reading = tt; in_limit = omega arith }) (omega arith)

start_send-KeepsSound_example :
    KeepsSound two_at_once (start_send counting two_at_once tick reading_one [])
start_send-KeepsSound_example =
    start_send-KeepsSound counting two_at_once tick reading_one []
      (record { is_writing = tt; is_reading = tt; in_limit = omega arith })
