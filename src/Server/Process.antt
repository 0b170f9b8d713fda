-- ===== src/Server/Process.antt =====
-- `PureProto::new`, `process` and `timeout`, and `Proto::poll`, of src/server/proto.rs.
pub mod Laws
pub mod Wakeups
use minihttp.Base.{
  ℕ, zero, suc, ◌+◌, ◌-◌, Bool, true, false, not, Option, none, some, List, [], length, ltb,
  if◌then◌else◌, Result, ok, err,
}
use minihttp.Buffer.{Buffer}
use minihttp.Chunked.{SizeParser}
use minihttp.BodyProgress.{ReadBuf}
use minihttp.RequestHead.Head.{RequestParser}
use minihttp.Server.Config.{Config}
use minihttp.Server.State.{
  ReadEvent, FlushEvent, Service, ServerError, InState, connected, OutState, idle, write, switch,
  void, Connection, Answer, out_of_fuel, panicked, answers,
}
use minihttp.Server.State as State
use minihttp.Server.Reads.{ticked, do_reads}
use minihttp.Server.Writes.{do_writes}

-- `PureProto::new`: four reads of the clock, on a connection that is going to meet these events.
unfoldable pub new :
    {D C F : Type 0} → Config → (ℕ → ℕ) → D → List ReadEvent → List FlushEvent → Connection D C F
new cfg clock dispatcher incoming outgoing = record {
  dispatcher = dispatcher;
  inbuf = some (record { in_buf = []; closed = false });
  reading = connected;
  waiting = [];
  writing = idle [];
  last_byte_read = clock 0;
  last_byte_written = clock 1;
  read_deadline = clock 2 + cfg.first_byte_timeout;
  response_deadline = clock 3;
  incoming = incoming;
  outgoing = outgoing;
  clock_reads = 4;
  history = [];
}

abbrev pub is_done : Option ReadBuf → Bool
is_done none = true
is_done (some io) = io.closed

abbrev read_timeout : {D C F : Type 0} → Connection D C F → OutState F C → Option ℕ
read_timeout c (idle out) = if ltb 0 (length c.waiting) then none else some c.read_deadline
read_timeout c (write f) = some c.response_deadline
read_timeout c (switch f codec) = none
read_timeout c void = none

-- The instant up to which the connection may stay as it is.
unfoldable pub timeout : {D C F : Type 0} → Connection D C F → Option ℕ
timeout c = read_timeout c c.writing

module _ {D C F E : Type 0} ⦃o : Buffer⦄ ⦃p : SizeParser⦄ ⦃q : RequestParser⦄ (v : Service D C F E)
    (cfg : Config) (clock : ℕ → ℕ) where
  abbrev pub after_reads :
      (Connection D C F → Answer D C F E Bool) → Answer D C F E Bool → Answer D C F E Bool
  after_reads again (answers c (ok true)) = again c
  after_reads again (answers c (ok false)) = answers c (ok (not (is_done c.inbuf)))
  after_reads again (answers c (err e)) = answers c (err e)
  after_reads again (panicked w) = panicked w
  after_reads again out_of_fuel = out_of_fuel

  abbrev pub after_writes :
      (Connection D C F → Answer D C F E Bool) → Answer D C F E (Unit {0}) → Answer D C F E Bool
  after_writes reads (answers c (ok u)) = reads c
  after_writes reads (answers c (err e)) = answers c (err e)
  after_writes reads (panicked w) = panicked w
  after_writes reads out_of_fuel = out_of_fuel

  -- `do_writes` and `do_reads` in turn, as long as the latter says that something changed.
  unfoldable pub process : ℕ → Connection D C F → Answer D C F E Bool
  process zero c = out_of_fuel
  process (suc fuel) c =
      after_writes (λ c'. after_reads (process fuel) (do_reads v cfg clock fuel c'))
        (do_writes v cfg clock fuel c)

  -- The timer of tokio, by whether one that is set for a duration is over at once.
  abbrev pub waited : (ℕ → Bool) → Connection D C F → ℕ → Answer D C F E Bool
  waited is_over c at =
      let now : ℕ = clock c.clock_reads in
      if ltb at now
      then answers (ticked c) (err State.timeout)
      else if is_over (at - now)
      then answers (ticked c) (err State.timeout)
      else answers (ticked c) (ok false)

  abbrev pub unless_timeout : (ℕ → Bool) → Connection D C F → Option ℕ → Answer D C F E Bool
  unless_timeout is_over c none = answers c (ok false)
  unless_timeout is_over c (some at) = waited is_over c at

  abbrev pub with_result : (ℕ → Bool) → Answer D C F E Bool → Answer D C F E Bool
  with_result is_over (answers c (ok false)) = answers c (ok true)
  with_result is_over (answers c (ok true)) = unless_timeout is_over c (timeout c)
  with_result is_over (answers c (err e)) = answers c (err e)
  with_result is_over (panicked w) = panicked w
  with_result is_over out_of_fuel = out_of_fuel

  -- `Proto::poll`: the flag is set where it answers `Ready`.
  unfoldable pub poll : (ℕ → Bool) → ℕ → Connection D C F → Answer D C F E Bool
  poll is_over fuel c = with_result is_over (process fuel c)
