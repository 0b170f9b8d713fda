-- ===== src/Client/Sending.antt =====
-- `start_send` of src/client/proto.rs, which takes a request or gives it back, and `get_timeout`.
use minihttp.Base.{
  ℕ, suc, ◌-◌, ◌+◌, Bool, true, false, Option, none, some, List, [], ◌∷◌, ◌++◌, ◌||◌, Bytes, length,
  ltb, leb, ◌==◌, if◌then◌else◌,
}
use minihttp.Client.Connection.{
  Config, Parts, OutState, InState, Waiting, Signals, Connection, Outcome, answers, failed,
  panicked, io, is_read, ticked, flush, is_over, is_stale, idle, write, read, void,
}

module _ {C F E : Type 0} (v : Parts C F E) (cfg : Config) (clock : ℕ → ℕ) where
  -- What `start_send` does where nothing is being written: the flag says that the request was taken.
  abbrev pub not_taken : Connection C F → Bytes → ℕ → Outcome C F E Bool
  not_taken c out time = answers (record c { writing = idle out time }) false

  abbrev pub refuse_closed : ℕ → Connection C F × Option Bytes → Outcome C F E Bool
  refuse_closed time (c, none) = failed c io
  refuse_closed time (c, some out) = not_taken c out time

  abbrev pub taken : Connection C F → C × F × Signals → Outcome C F E Bool
  taken c (codec, f, s) =
      answers
        (record c {
          writing = write f (clock (suc c.clock_reads));
          waiting =
              c.waiting
              ++ (record { codec = codec; state = s.state; queued_at = clock c.clock_reads } ∷ []);
          close = s.says_close || c.close;
          clock_reads = suc (suc c.clock_reads);
        })
        true

  abbrev pub within_limit : Connection C F → C → Bytes → ℕ → ℕ → Outcome C F E Bool
  within_limit c item out time limit =
      if leb limit (length c.waiting)
      then not_taken c out time
      else taken c (v.start_write item out)

  abbrev pub limited : Connection C F → C → Bytes → ℕ → Bool → Outcome C F E Bool
  limited c item out time true =
      if cfg.inflight_request_limit == 0
      then panicked
      else within_limit c item out time (cfg.inflight_request_limit - 1)
  limited c item out time false = within_limit c item out time cfg.inflight_request_limit

  abbrev pub send_idle : Connection C F → C → Bytes → ℕ → Outcome C F E Bool
  send_idle c item out time =
      if is_stale v cfg clock c time
      then not_taken (ticked c) out time
      else if c.close
      then refuse_closed time (flush (ticked c) out)
      else limited (ticked c) item out time (is_read c.reading)

  abbrev pub send_state : Connection C F → C → OutState F → Outcome C F E Bool
  send_state c item (idle out time) = send_idle c item out time
  send_state c item (write f start) = answers (record c { writing = write f start }) false
  send_state c item void = panicked

  abbrev pub send : Connection C F → C → Outcome C F E Bool
  send c item = send_state (record c { writing = void }) item c.writing

  -- The test of the request that is being answered.
  abbrev pub unless_slow : Connection C F → C → InState C → Outcome C F E Bool
  unless_slow c item (read r time) =
      if is_over v cfg clock c time cfg.safe_pipeline_timeout
      then answers (ticked c) false
      else send (ticked c) item
  unless_slow c item s = send c item

  -- The tests of the queue.
  abbrev pub unless_queued : Connection C F → C → List (Waiting C) → Outcome C F E Bool
  unless_queued c item [] = unless_slow c item c.reading
  unless_queued c item (w ∷ ws) =
      if ltb cfg.inflight_request_limit (length (w ∷ ws))
      then answers c false
      else if is_over v cfg clock c w.queued_at cfg.safe_pipeline_timeout
      then answers (ticked c) false
      else unless_slow (ticked c) item c.reading

  unfoldable pub start_send : Connection C F → C → Outcome C F E Bool
  start_send c item = unless_queued c item c.waiting

-- When the connection times out, or none where `get_timeout` panics.
abbrev pub rest_timeout : {C : Type 0} → Config → ℕ → InState C → Option ℕ
rest_timeout cfg time (idle b since) =
    some ((if leb time since then since else time) + cfg.keep_alive_timeout)
rest_timeout cfg time (read r since) = some (since + cfg.max_request_timeout)
rest_timeout cfg time void = none

module _ {C F : Type 0} (cfg : Config) where
  abbrev pub queue_timeout : Connection C F → ℕ → List (Waiting C) → Option ℕ
  queue_timeout c time [] = rest_timeout cfg time c.reading
  queue_timeout c time (w ∷ ws) = some (w.queued_at + cfg.max_request_timeout)

  abbrev pub timeout_of : Connection C F → OutState F → Option ℕ
  timeout_of c (idle out time) = queue_timeout c time c.waiting
  timeout_of c (write f start) = some (start + cfg.max_request_timeout)
  timeout_of c void = none

  unfoldable pub get_timeout : Connection C F → Option ℕ
  get_timeout c = timeout_of c c.writing
