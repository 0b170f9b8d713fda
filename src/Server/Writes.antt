-- ===== src/Server/Writes.antt =====
-- `PureProto::do_writes` of src/server/proto.rs.
use minihttp.Base.{
  ℕ, zero, suc, ◌+◌, Bool, true, false, Option, none, some, List, [], ◌∷◌, Bytes, length, drop, ltb,
  if◌then◌else◌, Result, ok, err,
}
use minihttp.BodyProgress.{ReadBuf}
use minihttp.RequestHead.Head.{first_state}
use minihttp.Server.Config.{Config, Mode, buffered_upfront, progressive, hijack}
use minihttp.Server.State.{
  FlushEvent, sent, flush_failed, Polled, ready, pending, Service, ServerError, io_error, custom,
  Entry, InState, body, OutState, idle, write, switch, void, started, hijacked, Connection, Fault,
  unimplemented, unreachable, not_expected, Answer, out_of_fuel, panicked, answers,
}
use minihttp.Server.Reads.{ticked, set_read_deadline}

-- How a round of the loop ends: with the next state in place and the flag `cont`, with the `return`
-- behind `hijack`, with an error, or in a panic.
pub data Round (D C F E : Type 0) : Type 0 where
  next : Connection D C F → Bool → Round D C F E
  left : Connection D C F → Round D C F E
  failed : Connection D C F → ServerError E → Round D C F E
  crashed : Fault → Round D C F E

-- `Switch` if the connection is being kept for its codec, and `Write` otherwise.
abbrev pub begun : {F C : Type 0} → InState C → C → F → OutState F C
begun InState.hijack codec f = switch f codec
begun _ codec f = write f

module _ {D C F E : Type 0} (v : Service D C F E) (cfg : Config) (clock : ℕ → ℕ) where
  abbrev pub set_response_deadline : Connection D C F → Connection D C F
  set_response_deadline c = record (ticked c) {
    response_deadline = clock c.clock_reads + cfg.output_body_whole_timeout;
  }

  abbrev pub Flushed : Type 0
  Flushed = Connection D C F × Result (ServerError E) Bytes

  abbrev pub flushed : Connection D C F → Bytes → List FlushEvent → Flushed
  flushed c out [] = (c, ok out)
  flushed c out (sent n ∷ rest) =
      let left_over : Bytes = drop n out in
      (
        if ltb (length left_over) (length out)
            then record (ticked c) { outgoing = rest; last_byte_written = clock c.clock_reads }
            else record c { outgoing = rest },
        ok left_over,
      )
  flushed c out (flush_failed ∷ rest) = (record c { outgoing = rest }, err io_error)

  -- The flush of what is in the output buffer.
  unfoldable pub flush : Connection D C F → Bytes → Flushed
  flush c out = if ltb 0 (length out) then flushed c out c.outgoing else (c, ok out)

  abbrev pub begin : Connection D C F → Entry C → C × F → Round D C F E
  begin c x (codec, f) =
      next (record c { writing = begun c.reading codec f; history = started x ∷ c.history }) true

  abbrev pub waits : Connection D C F → Bytes → Mode → Round D C F E
  waits c out (buffered_upfront n) = next (record c { writing = idle out }) false
  waits c out (progressive n) = crashed unimplemented
  waits c out hijack = crashed unreachable

  -- Nothing waits: what is being read decides.
  abbrev pub no_request : Connection D C F → Bytes → InState C → Round D C F E
  no_request c out (body b) = waits c out b.mode
  no_request c out InState.hijack = crashed unreachable
  no_request c out _ = next (record c { writing = idle out }) false

  abbrev pub next_request : Connection D C F → Bytes → List (Entry C) → Round D C F E
  next_request c out ((rc, codec) ∷ rest) =
      begin (set_response_deadline (record c { waiting = rest })) (rc, codec)
        (v.start_response codec (first_state rc, out))
  next_request c out [] = no_request c out c.reading

  abbrev pub after_flush : Flushed → Round D C F E
  after_flush (c, err e) = failed c e
  after_flush (c, ok out) = next_request c out c.waiting

  abbrev pub polled : Connection D C F → Result E (Polled F) → Round D C F E
  polled c (err e) = failed c (custom e)
  polled c (ok (ready out)) =
      next (record (set_read_deadline clock c cfg.keep_alive_timeout) { writing = idle out }) true
  polled c (ok (pending f)) = next (record c { writing = write f }) false

  abbrev pub hand_over : Connection D C F → C → Option ReadBuf → Round D C F E
  hand_over c codec none = crashed not_expected
  hand_over c codec (some io) =
      left (record c { inbuf = none; history = hijacked codec ∷ c.history })

  abbrev pub switched : Connection D C F → C → Result E (Polled F) → Round D C F E
  switched c codec (err e) = failed c (custom e)
  switched c codec (ok (ready out)) = hand_over c codec c.inbuf
  switched c codec (ok (pending f)) = next (record c { writing = switch f codec }) false

  -- The `match` on the state, which `mem::replace` has made `Void`.
  unfoldable pub dispatch_state : Connection D C F → OutState F C → Round D C F E
  dispatch_state c (idle out) = after_flush (flush c out)
  dispatch_state c (write f) = polled c (v.poll f)
  dispatch_state c (switch f codec) = switched c codec (v.poll f)
  dispatch_state c void = crashed unreachable

  unfoldable pub write_round : Connection D C F → Round D C F E
  write_round c = dispatch_state (record c { writing = void }) c.writing

  abbrev pub again_or_return :
      (Connection D C F → Answer D C F E (Unit {0})) → Round D C F E → Answer D C F E (Unit {0})
  again_or_return again (next c cont) =
      let rest = again c in if cont then rest else answers c (ok tt)
  again_or_return again (left c) = answers c (ok tt)
  again_or_return again (failed c e) = answers c (err e)
  again_or_return again (crashed w) = panicked w

  -- The loop.
  unfoldable pub do_writes : ℕ → Connection D C F → Answer D C F E (Unit {0})
  do_writes zero c = out_of_fuel
  do_writes (suc fuel) c = again_or_return (do_writes fuel) (write_round c)
