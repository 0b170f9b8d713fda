-- ===== src/Server/Rounds.antt =====
-- A round of the loop of `do_reads`, src/server/proto.rs, in a sound state.
pub mod Ends
pub mod Headers
pub mod Body
use minihttp.Base.{
  ℕ, zero, suc, ◌+◌, ◌-◌, ◌*◌, ◌≤◌, ◌<◌, ◌≡◌, ◌≢◌, refl, Bool, true, false, Option, none, some,
  List, [], ◌∷◌, ◌++◌, Bytes, length, drop, take, leb, le→leb, ltb, ==_refl, if◌then◌else◌, ◌==◌,
  Bool-cases, inl, inr, ap, ◌∙◌, not, Run, panic, returns, Result, ok, err, arith, length-append,
  length-drop, length-take,
}
use minihttp.Buffer.{Buffer, extend_lem}
use minihttp.Chunked
use minihttp.Chunked.{SizeParser, InvalidChunkSize}
use minihttp.BodyProgress.{BodyProgress, ReadBuf, check_buf, parse, consume}
use minihttp.BodyProgress.Laws.{IsWithin, ParsedWithin, parse-IsWithin, consume_offered}
use minihttp.RequestHead.{BodyKind, fixed, chunked, unsupported}
use minihttp.RequestHead.Head.{Error, ResponseConfig, RequestParser, parse_headers, Outcome}
use minihttp.RequestHead.Reading.{IsOutcome, parse_headers-IsOutcome}
use minihttp.Server.Config.{Config, Mode, buffered_upfront, progressive, RecvMode, wants_at_most}
use minihttp.Server.State.{
  ReadEvent, got, end_of_stream, read_failed, Service, ServerError, Entry, BodyState, InState,
  connected, keep_alive, headers, body, hijack, closed, OutState, idle, write, switch, void,
  Connection, Fault, chunk_overflow, new_body,
}
use minihttp.Server.Reads.{
  Round, next, failed, crashed, stuck, read_socket, Filled, start_body, with_mode, with_head,
  read_headers, consumed, delivered, deliver, with_bytes, with_progress, read_body, dispatch_state,
  after_read, read_round, filled,
}
use minihttp.Server.Queue.{accept, IsServing}
use minihttp.Server.Sound.{
  IsTame, IsOpen, IsSwitching, Holds, Fits, IsBuffered, IsSound, to_come, rank, work,
}
use minihttp.Server.Rounds.Ends.{Kept, Kept-if}
use minihttp.Server.Rounds.Headers.{with_head-Kept}
use minihttp.Server.Rounds.Body.{with_progress-Kept}

IsWithin-longer :
    (b : BodyProgress) (io io' : ReadBuf)
    → IsWithin b io
    → length io.in_buf ≤ length io'.in_buf
    → IsWithin b io'
IsWithin-longer (BodyProgress.fixed x) io io' h l = tt
IsWithin-longer (BodyProgress.chunked s) io io' h l = omega arith
IsWithin-longer BodyProgress.eof io io' h l = tt

module _ {D C F E : Type 0} ⦃o : Buffer⦄ ⦃p : SizeParser⦄ ⦃q : RequestParser⦄ (v : Service D C F E)
    (cfg : Config) (clock : ℕ → ℕ) (tame : IsTame v) where
  dispatch_state-Kept :
      (c : Connection D C F) (io : ReadBuf) (st : InState C) (k : ℕ)
      → Fits st c.writing c.waiting
      → Holds st io
      → IsServing c
      → 5 * (length io.in_buf + to_come c.incoming) + rank st + 2 * length c.waiting ≤ k
      → Kept k (dispatch_state v cfg clock c io st)
  unfolding dispatch_state read_headers read_body
  dispatch_state-Kept c io connected k w h s l = elim (Bool-cases (ltb 0 (length io.in_buf))) [
    | inl z ↦
        rw z (record { fits = w; holds = tt; serves = s }, omega arith, (λ x. omega arith), λ x. cc)
    | inr z ↦ rw z (record { fits = w; holds = tt; serves = s }, omega arith, (λ x. cc), λ x. cc)
  ]
  dispatch_state-Kept c io keep_alive k w h s l = elim (Bool-cases (ltb 0 (length io.in_buf))) [
    | inl z ↦
        rw z (record { fits = w; holds = tt; serves = s }, omega arith, (λ x. omega arith), λ x. cc)
    | inr z ↦ rw z (record { fits = w; holds = tt; serves = s }, omega arith, (λ x. cc), λ x. cc)
  ]
  dispatch_state-Kept c io headers k w h s l =
      with_head-Kept v cfg clock tame c io (parse_headers io.in_buf c.dispatcher v.headers_received)
        k w s (parse_headers-IsOutcome io.in_buf c.dispatcher v.headers_received) (omega arith)
  dispatch_state-Kept c io (body b) k (w, m) h s l =
      let (a, e, within) = parse-IsWithin b.progress io h in
      rw e (with_progress-Kept v cfg clock tame c io b a k w s m within (omega arith))
  dispatch_state-Kept c io hijack k w h s l =
      (record { fits = w; holds = tt; serves = s }, omega arith, (λ z. cc), λ z. cc)
  dispatch_state-Kept c io closed k w h s l = absurd w

  Holds-longer :
      (st : InState C) (io io' : ReadBuf)
      → Holds st io
      → length io.in_buf ≤ length io'.in_buf
      → Holds st io'
  Holds-longer connected io io' h l = tt
  Holds-longer keep_alive io io' h l = tt
  Holds-longer headers io io' h l = tt
  Holds-longer (body b) io io' h l = IsWithin-longer b.progress io io' h l
  Holds-longer hijack io io' h l = tt
  Holds-longer closed io io' h l = tt

  filled-Kept :
      (c : Connection D C F) (io : ReadBuf) (evs : List ReadEvent)
      → c.incoming ≡ evs
      → IsSound c io
      → Kept (work c io) (after_read v cfg clock (filled v cfg clock c io evs))
  filled-Kept c io [] e u =
      dispatch_state-Kept _ io c.reading (work c io) u.fits u.holds u.serves (omega arith)
  filled-Kept c io (got b ∷ rest) e u =
      let more = ap length (extend_lem io.in_buf b) in
      let len = length-append io.in_buf b in
      let fewer = ap to_come e in
      elim (Bool-cases (ltb 0 (length b))) [
        | inl z ↦ rw z (
            dispatch_state-Kept _ _ c.reading (work c io) u.fits
              (Holds-longer c.reading io _ u.holds (omega arith)) u.serves (omega arith))
        | inr z ↦ rw z (
            dispatch_state-Kept _ _ c.reading (work c io) u.fits
              (Holds-longer c.reading io _ u.holds (omega arith)) u.serves (omega arith))
      ]
  filled-Kept c io (end_of_stream ∷ rest) e u =
      let fewer = ap to_come e in
      dispatch_state-Kept _ _ c.reading (work c io) u.fits
        (Holds-longer c.reading io _ u.holds (omega arith)) u.serves (omega arith)
  filled-Kept c io (read_failed ∷ rest) e u = u.serves

  -- A round in a sound state is on the way to the end of the loop, and panics only in the decoder.
  pub read_round-Kept :
      (c : Connection D C F) (io : ReadBuf) (limit : ℕ)
      → IsSound c io
      → Kept (work c io) (read_round v cfg clock c io limit)
  unfolding read_round read_socket
  read_round-Kept c io limit u = elim (Bool-cases (leb (length c.waiting) limit)) [
    | inl z ↦ rw z (filled-Kept c io c.incoming refl u)
    | inr z ↦
        rw z (dispatch_state-Kept _ io c.reading (work c io) u.fits u.holds u.serves (omega arith))
  ]
