-- ===== src/Server/Process/Wakeups.antt =====
-- A connection of src/server/proto.rs from its start to its end: `Proto::poll` at each wakeup.
use minihttp.Base.{
  ℕ, ◌+◌, ◌-◌, ◌≤◌, ◌≡◌, sym, subst, Bool, true, false, Option, none, some, List, [], ◌∷◌, ◌++◌,
  ltb, if◌then◌else◌, ok, err, arith,
}
use minihttp.Buffer.{Buffer}
use minihttp.Chunked.{SizeParser}
use minihttp.BodyProgress.{ReadBuf}
use minihttp.RequestHead.Head.{RequestParser}
use minihttp.Server.Config.{Config}
use minihttp.Server.State.{
  ReadEvent, FlushEvent, Service, Connection, chunk_overflow, Answer, out_of_fuel, panicked,
  answers,
}
use minihttp.Server.State as State
use minihttp.Server.Reads.{ticked}
use minihttp.Server.Process.{new, process, timeout, unless_timeout, with_result, poll}
use minihttp.Server.Process.Laws.{ProcessesTo, process-ProcessesTo, new-IsSound}
use minihttp.Server.Queue.{IsServing, accepts, starts, in_order}
use minihttp.Server.Sound.{IsTame, IsSound, work}

-- What the socket has got and can take since the last wakeup, and whether the timer is over.
pub record Wakeup : Type 0 where
  pub read_events : List ReadEvent
  pub flush_events : List FlushEvent
  pub timer : ℕ → Bool

abbrev pub woken : {D C F : Type 0} → Connection D C F → Wakeup → Connection D C F
woken c w = record c {
  incoming = c.incoming ++ w.read_events;
  outgoing = c.outgoing ++ w.flush_events;
}

abbrev fuel_with : {D C F : Type 0} → Connection D C F → Option ReadBuf → ℕ
fuel_with c none = 0
fuel_with c (some io) = work c io + 3

module _ {D C F E : Type 0} ⦃o : Buffer⦄ ⦃p : SizeParser⦄ ⦃q : RequestParser⦄ (v : Service D C F E)
    (cfg : Config) (clock : ℕ → ℕ) where
  abbrev pub unless_over :
      (Connection D C F → Answer D C F E Bool) → Answer D C F E Bool → Answer D C F E Bool
  unless_over again (answers c (ok false)) = again c
  unless_over again a = a

  -- The polls of a connection until it is over or there is no further wakeup; each has as much
  -- fuel as there is work.
  unfoldable pub serve : List Wakeup → Connection D C F → Answer D C F E Bool
  serve [] c = answers c (ok false)
  serve (w ∷ ws) c =
      unless_over (serve ws) (poll v cfg clock w.timer (fuel_with (woken c w) c.inbuf) (woken c w))

-- The requests come to their responses in the order in which they were accepted.
abbrev pub EndsInOrder : {D C F E : Type 0} → Answer D C F E Bool → Type 0
EndsInOrder out_of_fuel = ⊥
EndsInOrder (panicked w) = w ≡ chunk_overflow
EndsInOrder (answers c r) = accepts c.history ≡ starts c.history ++ c.waiting

-- How `poll` ends: with a sound connection, or as `process` does.
abbrev PollsTo : {D C F E : Type 0} → Answer D C F E Bool → Type 0
PollsTo out_of_fuel = ⊥
PollsTo (panicked w) = w ≡ chunk_overflow
PollsTo (answers c (err e)) = IsServing c
PollsTo (answers c (ok true)) = IsServing c
PollsTo (answers c (ok false)) = (io : ReadBuf) × (c.inbuf ≡ some io) × IsSound c io

module _ {D C F E : Type 0} ⦃o : Buffer⦄ ⦃p : SizeParser⦄ ⦃q : RequestParser⦄ (v : Service D C F E)
    (cfg : Config) (clock : ℕ → ℕ) where
  PollsTo-if :
      (b : Bool) (x y : Answer D C F E Bool) → PollsTo x → PollsTo y → PollsTo (if b then x else y)
  PollsTo-if true x y f g = f
  PollsTo-if false x y f g = g

  unless_timeout-PollsTo :
      (is_over : ℕ → Bool) (c : Connection D C F) (at : Option ℕ) (io : ReadBuf)
      → c.inbuf ≡ some io
      → IsSound c io
      → PollsTo (unless_timeout v cfg clock is_over c at)
  unless_timeout-PollsTo is_over c none io i u = (io, i, u)
  unless_timeout-PollsTo is_over c (some at) io i u =
      let late : Answer D C F E Bool = answers (ticked c) (err State.timeout) in
      let goes_on : Answer D C F E Bool = answers (ticked c) (ok false) in
      let sound : PollsTo goes_on =
        (io, i, record { fits = u.fits; holds = u.holds; serves = u.serves }) in
      let now = clock c.clock_reads in
      PollsTo-if (ltb at now) late (if is_over (at - now) then late else goes_on) u.serves
        (PollsTo-if (is_over (at - now)) late goes_on u.serves sound)

  with_result-PollsTo :
      (is_over : ℕ → Bool) (a : Answer D C F E Bool)
      → ProcessesTo a
      → PollsTo (with_result v cfg clock is_over a)
  unfolding timeout
  with_result-PollsTo is_over out_of_fuel h = h
  with_result-PollsTo is_over (panicked w) h = h
  with_result-PollsTo is_over (answers c (err e)) h = h
  with_result-PollsTo is_over (answers c (ok false)) h = h
  with_result-PollsTo is_over (answers c (ok true)) (s, io, i, u, open') =
      unless_timeout-PollsTo is_over c (timeout c) io i u

  unless_over-EndsInOrder :
      (again : Connection D C F → Answer D C F E Bool) (a : Answer D C F E Bool)
      → PollsTo a
      → ((c : Connection D C F) (io : ReadBuf)
          → c.inbuf ≡ some io
          → IsSound c io
          → EndsInOrder (again c))
      → EndsInOrder (unless_over v cfg clock again a)
  unless_over-EndsInOrder again out_of_fuel h ih = h
  unless_over-EndsInOrder again (panicked w) h ih = h
  unless_over-EndsInOrder again (answers c (err e)) h ih = in_order h
  unless_over-EndsInOrder again (answers c (ok true)) h ih = in_order h
  unless_over-EndsInOrder again (answers c (ok false)) (io, i, u) ih = ih c io i u

  serve-EndsInOrder :
      (ws : List Wakeup) (c : Connection D C F) (io : ReadBuf)
      → IsTame v
      → 1 ≤ cfg.inflight_request_limit
      → c.inbuf ≡ some io
      → IsSound c io
      → EndsInOrder (serve v cfg clock ws c)
  unfolding serve poll
  serve-EndsInOrder [] c io tame lim i u = in_order u.serves
  serve-EndsInOrder (w ∷ ws) c io tame lim i u =
      let u' : IsSound (woken c w) io = record {
        fits = u.fits;
        holds = u.holds;
        serves = u.serves;
      } in
      let fuel = fuel_with (woken c w) c.inbuf in
      let enough : work (woken c w) io + 3 ≤ fuel =
        subst (λ b. work (woken c w) io + 3 ≤ fuel_with (woken c w) b) (sym i) (omega arith) in
      unless_over-EndsInOrder (serve v cfg clock ws) (poll v cfg clock w.timer fuel (woken c w))
        (with_result-PollsTo w.timer (process v cfg clock fuel (woken c w))
          (process-ProcessesTo v cfg clock fuel (woken c w) io tame lim i u' enough))
        (λ c' io' i' u''. serve-EndsInOrder ws c' io' tame lim i' u'')

  -- If the limit of requests in flight is at least one and the service never asks for a body in
  -- pieces and takes each whole body at once, then a new connection that is polled at any wakeups,
  -- whatever the socket, the timer and the responses do, ends each poll within the fuel of its
  -- work; unless the chunk decoder panics, the requests whose response was started, in order, with
  -- those that wait behind them are the requests that were accepted, in order.
  pub serve_in_order :
      (d : D) (ws : List Wakeup)
      → IsTame v
      → 1 ≤ cfg.inflight_request_limit
      → EndsInOrder (serve v cfg clock ws (new cfg clock d [] []))
  serve_in_order d ws tame lim =
      let (io, i, u, e) = new-IsSound {C = C} {F = F} cfg clock d [] [] in
      serve-EndsInOrder ws (new cfg clock d [] []) io tame lim i u
