-- ===== src/Client/InFlight.antt =====
-- The requests in flight on a connection of src/client/proto.rs while it is polled.
use minihttp.Base.{
  ℕ, zero, suc, ◌+◌, ◌*◌, ◌≤◌, ◌<◌, ◌≡◌, refl, sym, ap, subst, Bool, true, false, Option, none,
  some, List, [], ◌∷◌, length, Bool-cases, inl, inr, arith,
}
use minihttp.Buffer.{Buffer}
use minihttp.Chunked.{SizeParser}
use minihttp.BodyProgress.{ReadBuf}
use minihttp.Server.State.{ReadEvent, got, end_of_stream, read_failed}
use minihttp.Client.Head.{ResponseParser}
use minihttp.Client.Reader.{
  Answer, complete, not_ready, failed as failed_in, panicked as panicked_in,
  out_of_fuel as out_of_fuel_in, read_and_parse, kept_buffer,
}
use minihttp.Client.Connection.{
  parser_panicked, parser_out_of_fuel, Config, Parts, OutState, InState, Waiting, Connection,
  Outcome, answers, failed, panicked, out_of_fuel, poll_writing,
}
use minihttp.Client.Polls.{
  idle_read, next_response, rearmed, returned, lent, with_buffer, parsed, read_state, poll_reading,
  after_reading, after_writing, poll_complete,
}
use minihttp.Client.Sound.{
  IsWriting, IsReading, being_read, being_written, IsSound, load, PollsTo, KeepsSound, PollsTo-le,
  poll_writing-PollsTo,
}

module _ {C F E : Type 0} (v : Parts C F E) (cfg : Config) (clock : ℕ → ℕ) where
  idle_read-PollsTo :
      (c : Connection C F) (b : ReadBuf) (time : ℕ) (evs : List ReadEvent)
      → IsWriting c.writing
      → length c.waiting ≤ cfg.inflight_request_limit
      → PollsTo cfg
          (being_written c.writing + 2 * length c.waiting)
          (idle_read v cfg clock c b time evs)
  idle_read-PollsTo c b time [] u l = elim (Bool-cases b.closed) [
    | inl z ↦ rw z tt
    | inr z ↦
        simp (z)
          (record { is_writing = u; is_reading = tt; in_limit = omega arith }, omega arith, λ x. cc)
  ]
  idle_read-PollsTo c b time (got [] ∷ rest) u l = elim (Bool-cases b.closed) [
    | inl z ↦ rw z tt
    | inr z ↦
        simp (z)
          (record { is_writing = u; is_reading = tt; in_limit = omega arith }, omega arith, λ x. cc)
  ]
  idle_read-PollsTo c b time (got (x ∷ xs) ∷ rest) u l = tt
  idle_read-PollsTo c b time (end_of_stream ∷ rest) u l = tt
  idle_read-PollsTo c b time (read_failed ∷ rest) u l = tt

  next_response-PollsTo :
      (c : Connection C F) (b : ReadBuf) (time : ℕ) (l : List (Waiting C))
      → c.waiting ≡ l
      → IsWriting c.writing
      → length l ≤ cfg.inflight_request_limit
      → PollsTo cfg (being_written c.writing + 2 * length l) (next_response v cfg clock c b time l)
  next_response-PollsTo c b time [] e u l =
      let none_left = ap length e in
      PollsTo-le cfg _ _ _ (omega arith) (idle_read-PollsTo c b time c.incoming u (omega arith))
  next_response-PollsTo c b time (w ∷ rest) e u l = (
    record { is_writing = u; is_reading = tt; in_limit = omega arith },
    omega arith,
    λ x. omega arith,
  )

  rearmed-same :
      (c : Connection C F) (w : OutState F)
      → c.writing ≡ w
      → IsWriting w
      → IsWriting (rearmed v cfg clock c w).writing
        × (being_written (rearmed v cfg clock c w).writing ≡ being_written w)
        × ((rearmed v cfg clock c w).waiting ≡ c.waiting)
  rearmed-same c (OutState.idle out time) e u = (tt, refl, refl)
  rearmed-same c (OutState.write f start) e u =
      (subst IsWriting (sym e) tt, ap being_written e, refl)
  rearmed-same c OutState.void e u = absurd u

  with_buffer-PollsTo :
      (c : Connection C F) (a : Option ReadBuf)
      → IsWriting c.writing
      → length c.waiting + 1 ≤ cfg.inflight_request_limit
      → PollsTo cfg
          (being_written c.writing + 2 * length c.waiting + 1)
          (with_buffer v cfg clock c a)
  with_buffer-PollsTo c none u l = tt
  with_buffer-PollsTo c (some b) u l =
      let (w, n, q) = rearmed-same c c.writing refl u in
      let same = ap length q in
      (
        record { is_writing = w; is_reading = tt; in_limit = omega arith },
        omega arith,
        λ x. omega arith,
      )

  parsed-PollsTo :
      (c : Connection C F) (time : ℕ) (a : Answer C E)
      → IsWriting c.writing
      → length c.waiting + 1 ≤ cfg.inflight_request_limit
      → PollsTo cfg
          (being_written c.writing + 2 * length c.waiting + 1)
          (parsed v cfg clock c time a)
  parsed-PollsTo c time (complete r) u l =
      with_buffer-PollsTo (returned v cfg clock c r) (kept_buffer r) u l
  parsed-PollsTo c time (not_ready r) u l =
      (record { is_writing = u; is_reading = tt; in_limit = l }, omega arith, λ x. cc)
  parsed-PollsTo c time (failed_in r e) u l = tt
  parsed-PollsTo c time panicked_in u l = tt
  parsed-PollsTo c time out_of_fuel_in u l = tt

  after_reading-KeepsSound :
      (again : Connection C F → Outcome C F E Bool) (wr : Bool) (m k : ℕ) (a : Outcome C F E Bool)
      → PollsTo cfg k a
      → k ≤ m
      → (wr ≡ true → k < m)
      → ((c : Connection C F) → IsSound cfg c → load c < m → KeepsSound cfg (again c))
      → KeepsSound cfg (after_reading v cfg clock again wr a)
  after_reading-KeepsSound again true m k (answers c rd) (u, le, less) top down ih =
      let l = down refl in ih c u (omega arith)
  after_reading-KeepsSound again false m k (answers c true) (u, le, less) top down ih =
      let l = less refl in ih c u (omega arith)
  after_reading-KeepsSound again false m k (answers c false) (u, le, less) top down ih = u
  after_reading-KeepsSound again wr m k (failed c e) h top down ih = tt
  after_reading-KeepsSound again wr m k panicked h top down ih = absurd h
  after_reading-KeepsSound again wr m k out_of_fuel h top down ih = absurd h
  after_reading-KeepsSound again wr m k parser_panicked h top down ih = tt
  after_reading-KeepsSound again wr m k parser_out_of_fuel h top down ih = tt

module _ {C F E : Type 0} ⦃o : Buffer⦄ ⦃p : SizeParser⦄ ⦃q : ResponseParser⦄ (v : Parts C F E)
    (cfg : Config) (clock : ℕ → ℕ) (bound : ℕ) where
  read_state-PollsTo :
      (c : Connection C F) (s : InState C)
      → IsWriting c.writing
      → IsReading s
      → length c.waiting + being_read s ≤ cfg.inflight_request_limit
      → PollsTo cfg
          (being_written c.writing + 2 * length c.waiting + being_read s)
          (read_state v cfg clock bound c s)
  read_state-PollsTo c (InState.idle b time) u r l =
      PollsTo-le cfg _ _ _ (omega arith)
        (next_response-PollsTo v cfg clock c b time c.waiting refl u (omega arith))
  read_state-PollsTo c (InState.read x time) u r l =
      parsed-PollsTo v cfg clock c time (read_and_parse v.codec bound (lent v cfg clock c x)) u l
  read_state-PollsTo c InState.void u r l = absurd r

  poll_reading-PollsTo :
      (c : Connection C F) → IsSound cfg c → PollsTo cfg (load c) (poll_reading v cfg clock bound c)
  unfolding poll_reading
  poll_reading-PollsTo c u =
      read_state-PollsTo (record c { reading = InState.void }) c.reading u.is_writing u.is_reading
        u.in_limit

  after_writing-KeepsSound :
      (again : Connection C F → Outcome C F E Bool) (m : ℕ) (a : Outcome C F E Bool)
      → PollsTo cfg m a
      → ((c : Connection C F) → IsSound cfg c → load c < m → KeepsSound cfg (again c))
      → KeepsSound cfg (after_writing v cfg clock bound again a)
  after_writing-KeepsSound again m (answers c wr) (u, le, less) ih =
      after_reading-KeepsSound v cfg clock again wr m (load c) (poll_reading v cfg clock bound c)
        (poll_reading-PollsTo c u) le less ih
  after_writing-KeepsSound again m (failed c e) h ih = tt
  after_writing-KeepsSound again m panicked h ih = absurd h
  after_writing-KeepsSound again m out_of_fuel h ih = absurd h
  after_writing-KeepsSound again m parser_panicked h ih = tt
  after_writing-KeepsSound again m parser_out_of_fuel h ih = tt

  -- In a connection where no state is taken out and at most `inflight_request_limit` requests are
  -- awaited or being read, with more fuel than there is left to do, the loop of `poll_complete`
  -- ends without a panic of its own: it answers, in such a connection again, or fails, or stops in
  -- a poll of the parser of a response that panics or does not end within its own fuel.
  pub poll_complete-KeepsSound :
      (fuel : ℕ) (c : Connection C F)
      → IsSound cfg c
      → load c < fuel
      → KeepsSound cfg (poll_complete v cfg clock bound fuel c)
  unfolding poll_complete
  poll_complete-KeepsSound zero c u enough = absurd (omega arith)
  poll_complete-KeepsSound (suc fuel) c u enough =
      after_writing-KeepsSound (poll_complete v cfg clock bound fuel) (load c)
        (poll_writing v cfg clock c) (poll_writing-PollsTo v cfg clock c u)
        (λ c' u' less. poll_complete-KeepsSound fuel c' u' (omega arith))
