-- ===== src/Client/Sound.antt =====
-- The requests in flight on a connection of src/client/proto.rs, and its writing.
use minihttp.Base.{
  ℕ, suc, ◌+◌, ◌*◌, ◌≤◌, ◌<◌, ◌≡◌, refl, sym, ap, Bool, true, false, Option, none, some, List, [],
  ◌∷◌, Bytes, length, Bool-cases, inl, inr, ◌∙◌, Result, ok, err, arith,
}
use minihttp.Server.State.{FlushEvent, sent, flush_failed}
use minihttp.Client.Reader.{RequestState}
use minihttp.Client.Connection.{
  Signals, set_last, set_reading, signalled, parser_panicked, parser_out_of_fuel, Config, Parts,
  OutState, InState, Waiting, Connection, Outcome, answers, failed, panicked, out_of_fuel, flushed,
  flush, is_stale, idle_flushed, done_flushed, polled, write_state, poll_writing,
}

abbrev pub IsWriting : {F : Type 0} → OutState F → Type 0
IsWriting (OutState.idle out time) = Unit {0}
IsWriting (OutState.write f start) = Unit {0}
IsWriting OutState.void = ⊥

abbrev pub IsReading : {C : Type 0} → InState C → Type 0
IsReading (InState.idle b time) = Unit {0}
IsReading (InState.read r time) = Unit {0}
IsReading InState.void = ⊥

abbrev pub being_read : {C : Type 0} → InState C → ℕ
being_read (InState.read r time) = 1
being_read _ = 0

abbrev pub being_written : {F : Type 0} → OutState F → ℕ
being_written (OutState.write f start) = 1
being_written _ = 0

-- The requests whose response is awaited or being read.
abbrev pub in_flight : {C F : Type 0} → Connection C F → ℕ
in_flight c = length c.waiting + being_read c.reading

-- Between calls no state is taken out, and no more requests are in flight than allowed.
pub record IsSound {C F : Type 0} (cfg : Config) (c : Connection C F) : Type 0 where
  pub is_writing : IsWriting c.writing
  pub is_reading : IsReading c.reading
  pub in_limit : in_flight c ≤ cfg.inflight_request_limit

-- What is left to do: each step of progress makes it less.
abbrev pub load : {C F : Type 0} → Connection C F → ℕ
load c = being_written c.writing + 2 * length c.waiting + being_read c.reading

-- How a poll ends in a state with load `m`.
abbrev pub PollsTo : {C F E : Type 0} → Config → ℕ → Outcome C F E Bool → Type 0
PollsTo cfg m (answers c progress) = IsSound cfg c × (load c ≤ m) × (progress ≡ true → load c < m)
PollsTo cfg m (failed c e) = Unit {0}
PollsTo cfg m panicked = ⊥
PollsTo cfg m out_of_fuel = ⊥
PollsTo cfg m parser_panicked = Unit {0}
PollsTo cfg m parser_out_of_fuel = Unit {0}

-- How a call ends that keeps the connection sound: no panic is its own.
abbrev pub KeepsSound : {C F E A : Type 0} → Config → Outcome C F E A → Type 0
KeepsSound cfg (answers c a) = IsSound cfg c
KeepsSound cfg (failed c e) = Unit {0}
KeepsSound cfg panicked = ⊥
KeepsSound cfg out_of_fuel = ⊥
KeepsSound cfg parser_panicked = Unit {0}
KeepsSound cfg parser_out_of_fuel = Unit {0}

pub PollsTo-le :
    {C F E : Type 0} (cfg : Config) (k m : ℕ) (a : Outcome C F E Bool)
    → k ≤ m
    → PollsTo cfg k a
    → PollsTo cfg m a
PollsTo-le cfg k m (answers c true) l (u, le, less) =
    (u, omega arith, λ x. let y = less refl in omega arith)
PollsTo-le cfg k m (answers c false) l (u, le, less) = (u, omega arith, λ x. cc)
PollsTo-le cfg k m (failed c e) l h = tt
PollsTo-le cfg k m panicked l h = h
PollsTo-le cfg k m out_of_fuel l h = h
PollsTo-le cfg k m parser_panicked l h = tt
PollsTo-le cfg k m parser_out_of_fuel l h = tt

length-set_last :
    {C : Type 0} (s : RequestState) (l : List (Waiting C)) → length (set_last s l) ≡ length l
length-set_last s [] = refl
length-set_last s (w ∷ []) = refl
length-set_last s (w ∷ w' ∷ ws) = ap suc (length-set_last s (w' ∷ ws))

set_reading-same :
    {C : Type 0} (s : RequestState) (r : InState C)
    → IsReading r
    → IsReading (set_reading s r) × (being_read (set_reading s r) ≡ being_read r)
set_reading-same s (InState.idle b time) u = (tt, refl)
set_reading-same s (InState.read r time) u = (tt, refl)
set_reading-same s InState.void u = absurd u

-- Signals move no request.
signalled-same :
    {C F : Type 0} (s : Signals) (c : Connection C F) (l : List (Waiting C))
    → c.waiting ≡ l
    → IsReading c.reading
    → IsReading (signalled s c l).reading
      × (length (signalled s c l).waiting ≡ length c.waiting)
      × (being_read (signalled s c l).reading ≡ being_read c.reading)
signalled-same s c [] e r = let (u, n) = set_reading-same s.state c.reading r in (u, refl, n)
signalled-same s c (w ∷ ws) e r = (r, length-set_last s.state (w ∷ ws) ∙ ap length (sym e), refl)

module _ {C F E : Type 0} (v : Parts C F E) (cfg : Config) (clock : ℕ → ℕ) where
  flushed_idle :
      (c : Connection C F) (out : Bytes) (time : ℕ) (evs : List FlushEvent)
      → IsReading c.reading
      → in_flight c ≤ cfg.inflight_request_limit
      → PollsTo cfg
          (2 * length c.waiting + being_read c.reading)
          (idle_flushed v cfg clock time (flushed c out evs))
  flushed_idle c out time [] r l = elim (Bool-cases (is_stale v cfg clock c time)) [
    | inl z ↦ rw z tt
    | inr z ↦ rw z (record { is_writing = tt; is_reading = r; in_limit = l }, omega arith, λ x. cc)
  ]
  flushed_idle c out time (sent n ∷ rest) r l = elim (Bool-cases (is_stale v cfg clock c time)) [
    | inl z ↦ rw z tt
    | inr z ↦ rw z (record { is_writing = tt; is_reading = r; in_limit = l }, omega arith, λ x. cc)
  ]
  flushed_idle c out time (flush_failed ∷ rest) r l = tt

  flushed_done :
      (c : Connection C F) (out : Bytes) (evs : List FlushEvent)
      → IsReading c.reading
      → in_flight c ≤ cfg.inflight_request_limit
      → PollsTo cfg
          (1 + 2 * length c.waiting + being_read c.reading)
          (done_flushed v cfg clock (flushed c out evs))
  flushed_done c out [] r l =
      (record { is_writing = tt; is_reading = r; in_limit = l }, omega arith, λ x. omega arith)
  flushed_done c out (sent n ∷ rest) r l =
      (record { is_writing = tt; is_reading = r; in_limit = l }, omega arith, λ x. omega arith)
  flushed_done c out (flush_failed ∷ rest) r l = tt

  polled-PollsTo :
      (c : Connection C F) (start : ℕ) (a : Result E (F × Signals × Option Bytes))
      → IsReading c.reading
      → in_flight c ≤ cfg.inflight_request_limit
      → PollsTo cfg (1 + 2 * length c.waiting + being_read c.reading) (polled v cfg clock c start a)
  unfolding flush
  polled-PollsTo c start (err e) r l = tt
  polled-PollsTo c start (ok (f, s, none)) r l =
      let (u, n, k) = signalled-same s c c.waiting refl r in
      (record { is_writing = tt; is_reading = u; in_limit = omega arith }, omega arith, λ x. cc)
  polled-PollsTo c start (ok (f, s, some out)) r l =
      let (u, n, k) = signalled-same s c c.waiting refl r in
      PollsTo-le cfg _ _ _ (omega arith) (
        flushed_done (signalled s c c.waiting) out (signalled s c c.waiting).outgoing u
          (omega arith))

  write_state-PollsTo :
      (c : Connection C F) (w : OutState F)
      → IsWriting w
      → IsReading c.reading
      → in_flight c ≤ cfg.inflight_request_limit
      → PollsTo cfg
          (being_written w + 2 * length c.waiting + being_read c.reading)
          (write_state v cfg clock c w)
  unfolding flush
  write_state-PollsTo c (OutState.idle out time) u r l =
      PollsTo-le cfg _ _ _ (omega arith) (flushed_idle c out time c.outgoing r l)
  write_state-PollsTo c (OutState.write f start) u r l = polled-PollsTo c start (v.poll_write f) r l
  write_state-PollsTo c OutState.void u r l = absurd u

  pub poll_writing-PollsTo :
      (c : Connection C F) → IsSound cfg c → PollsTo cfg (load c) (poll_writing v cfg clock c)
  unfolding poll_writing
  poll_writing-PollsTo c u =
      write_state-PollsTo (record c { writing = OutState.void }) c.writing u.is_writing u.is_reading
        u.in_limit
