-- ===== src/Client/Sends.antt =====
-- `start_send` of src/client/proto.rs keeps the connection sound.
use minihttp.Base.{
  ℕ, ◌+◌, ◌-◌, ◌≤◌, ◌<◌, ◌≡◌, refl, sym, ap, subst, Bool, true, false, List, [], ◌∷◌, Bytes, length,
  ltb, leb, ◌==◌, if◌then◌else◌, Bool-cases, inl, inr, arith, length-append, leb→lt, ==_iff,
}
use minihttp.Server.State.{FlushEvent, sent, flush_failed}
use minihttp.Client.Connection.{
  Config, Parts, OutState, InState, Waiting, Signals, Connection, Outcome, is_read, ticked, flushed,
  flush, is_over, is_stale,
}
use minihttp.Client.Sending.{
  not_taken, refuse_closed, taken, within_limit, limited, send_idle, send_state, send, unless_slow,
  unless_queued, start_send,
}
use minihttp.Client.Sound.{IsWriting, IsReading, being_read, in_flight, IsSound, KeepsSound}

module _ {C F E : Type 0} (v : Parts C F E) (cfg : Config) (clock : ℕ → ℕ) where
  not_taken-KeepsSound :
      (c : Connection C F) (out : Bytes) (time : ℕ)
      → IsReading c.reading
      → in_flight c ≤ cfg.inflight_request_limit
      → KeepsSound {E = E} cfg (not_taken v cfg clock c out time)
  not_taken-KeepsSound c out time r l = record { is_writing = tt; is_reading = r; in_limit = l }

  -- A request that is taken is awaited.
  taken-KeepsSound :
      (c : Connection C F) (a : C × F × Signals)
      → IsReading c.reading
      → in_flight c < cfg.inflight_request_limit
      → KeepsSound {E = E} cfg (taken v cfg clock c a)
  taken-KeepsSound c a r l =
      let grown =
        length-append c.waiting
          (record { codec = a.0; state = a.2.state; queued_at = clock c.clock_reads } ∷ []) in
      record { is_writing = tt; is_reading = r; in_limit = omega arith }

  within_limit-KeepsSound :
      (c : Connection C F) (item : C) (out : Bytes) (time limit : ℕ)
      → IsReading c.reading
      → in_flight c ≤ cfg.inflight_request_limit
      → limit + being_read c.reading ≤ cfg.inflight_request_limit
      → KeepsSound cfg (within_limit v cfg clock c item out time limit)
  within_limit-KeepsSound c item out time limit r l top =
      elim (Bool-cases (leb limit (length c.waiting))) [
        | inl z ↦ rw z (not_taken-KeepsSound c out time r l)
        | inr z ↦
            let below = leb→lt limit (length c.waiting) z in
            rw z (taken-KeepsSound c (v.start_write item out) r (omega arith))
      ]

  limited-KeepsSound :
      (c : Connection C F) (item : C) (out : Bytes) (time : ℕ) (s : InState C)
      → c.reading ≡ s
      → IsReading s
      → in_flight c ≤ cfg.inflight_request_limit
      → KeepsSound cfg (limited v cfg clock c item out time (is_read s))
  limited-KeepsSound c item out time (InState.idle b since) e r l =
      let none = ap being_read e in
      within_limit-KeepsSound c item out time cfg.inflight_request_limit (subst IsReading (sym e) r)
        l (omega arith)
  limited-KeepsSound c item out time (InState.read x since) e r l =
      let one = ap being_read e in
      elim (Bool-cases (cfg.inflight_request_limit == 0)) [
        | inl z ↦ let zero_limit = (==_iff cfg.inflight_request_limit 0).0 z in absurd (omega arith)
        | inr z ↦ rw z (
            within_limit-KeepsSound c item out time (cfg.inflight_request_limit - 1)
              (subst IsReading (sym e) r) l (omega arith))
      ]
  limited-KeepsSound c item out time InState.void e r l = absurd r

  refuse_closed-KeepsSound :
      (c : Connection C F) (out : Bytes) (time : ℕ) (evs : List FlushEvent)
      → IsReading c.reading
      → in_flight c ≤ cfg.inflight_request_limit
      → KeepsSound {E = E} cfg (refuse_closed v cfg clock time (flushed c out evs))
  refuse_closed-KeepsSound c out time [] r l = record {
    is_writing = tt;
    is_reading = r;
    in_limit = l;
  }
  refuse_closed-KeepsSound c out time (sent n ∷ rest) r l = record {
    is_writing = tt;
    is_reading = r;
    in_limit = l;
  }
  refuse_closed-KeepsSound c out time (flush_failed ∷ rest) r l = tt

  if-KeepsSound :
      (b : Bool) (x y : Outcome C F E Bool)
      → KeepsSound cfg x
      → KeepsSound cfg y
      → KeepsSound cfg (if b then x else y)
  if-KeepsSound true x y h k = h
  if-KeepsSound false x y h k = k

  send_idle-KeepsSound :
      (c : Connection C F) (item : C) (out : Bytes) (time : ℕ)
      → IsReading c.reading
      → in_flight c ≤ cfg.inflight_request_limit
      → KeepsSound cfg (send_idle v cfg clock c item out time)
  unfolding flush
  send_idle-KeepsSound c item out time r l =
      if-KeepsSound (is_stale v cfg clock c time) _ _ (not_taken-KeepsSound (ticked c) out time r l)
        (if-KeepsSound c.close _ _ (refuse_closed-KeepsSound (ticked c) out time c.outgoing r l)
          (limited-KeepsSound (ticked c) item out time c.reading refl r l))

  send_state-KeepsSound :
      (c : Connection C F) (item : C) (w : OutState F)
      → IsWriting w
      → IsReading c.reading
      → in_flight c ≤ cfg.inflight_request_limit
      → KeepsSound cfg (send_state v cfg clock c item w)
  send_state-KeepsSound c item (OutState.idle out time) u r l =
      send_idle-KeepsSound c item out time r l
  send_state-KeepsSound c item (OutState.write f start) u r l = record {
    is_writing = tt;
    is_reading = r;
    in_limit = l;
  }
  send_state-KeepsSound c item OutState.void u r l = absurd u

  send-KeepsSound :
      (c : Connection C F) (item : C) → IsSound cfg c → KeepsSound cfg (send v cfg clock c item)
  send-KeepsSound c item u =
      send_state-KeepsSound (record c { writing = OutState.void }) item c.writing u.is_writing
        u.is_reading u.in_limit

  ticked-IsSound : (c : Connection C F) → IsSound cfg c → IsSound cfg (ticked c)
  ticked-IsSound c u = record {
    is_writing = u.is_writing;
    is_reading = u.is_reading;
    in_limit = u.in_limit;
  }

  unless_slow-KeepsSound :
      (c : Connection C F) (item : C) (s : InState C)
      → IsSound cfg c
      → KeepsSound cfg (unless_slow v cfg clock c item s)
  unless_slow-KeepsSound c item (InState.read x time) u =
      if-KeepsSound (is_over v cfg clock c time cfg.safe_pipeline_timeout) _ _ (ticked-IsSound c u)
        (send-KeepsSound (ticked c) item (ticked-IsSound c u))
  unless_slow-KeepsSound c item (InState.idle b time) u = send-KeepsSound c item u
  unless_slow-KeepsSound c item InState.void u = send-KeepsSound c item u

  unless_queued-KeepsSound :
      (c : Connection C F) (item : C) (l : List (Waiting C))
      → IsSound cfg c
      → KeepsSound cfg (unless_queued v cfg clock c item l)
  unless_queued-KeepsSound c item [] u = unless_slow-KeepsSound c item c.reading u
  unless_queued-KeepsSound c item (w ∷ ws) u =
      if-KeepsSound (ltb cfg.inflight_request_limit (length (w ∷ ws))) _ _ u (
        if-KeepsSound (is_over v cfg clock c w.queued_at cfg.safe_pipeline_timeout) _ _
          (ticked-IsSound c u)
          (unless_slow-KeepsSound (ticked c) item c.reading (ticked-IsSound c u)))

  -- In a connection where no state is taken out and at most `inflight_request_limit` requests are
  -- awaited or being read, `start_send` does not panic, and if it succeeds, whether it takes the
  -- request or not, the connection is such a one again: the limit holds.
  pub start_send-KeepsSound :
      (c : Connection C F) (item : C)
      → IsSound cfg c
      → KeepsSound cfg (start_send v cfg clock c item)
  unfolding start_send
  start_send-KeepsSound c item u = unless_queued-KeepsSound c item c.waiting u
