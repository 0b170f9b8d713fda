-- ===== src/Server/Backpressure.antt =====
-- What `inflight_request_limit` does in `do_reads` of src/server/proto.rs.
use minihttp.Base.{
  ℕ, zero, suc, ◌≤◌, ◌<◌, ◌≡◌, refl, subst, Bool, true, false, ◌&&◌, ◌||◌, Option, none, some, List,
  [], ◌∷◌, length, take, leb, lt→leb, ◌==◌, if◌then◌else◌, Run, panic, returns, Result, ok, err,
  arith, length-append,
}
use minihttp.Buffer.{Buffer}
use minihttp.Chunked.{SizeParser, InvalidChunkSize}
use minihttp.BodyProgress.{ReadBuf, BodyProgress, check_buf, parse, consume}
use minihttp.RequestHead.Head.{ResponseConfig, RequestParser, Outcome, parse_headers}
use minihttp.Server.Config.{Config, Mode, is_hijack, wants_at_most}
use minihttp.Server.State.{
  ReadEvent, Service, ServerError, BodyState, InState, connected, keep_alive, headers, body, hijack,
  closed, Connection, Answer, out_of_fuel, panicked, answers, new_body, bad_slice, connection_reset,
}
use minihttp.Server.Reads.{
  Round, next, failed, crashed, stuck, Limit, up_to, underflow, no_more, limit_of, start_body,
  with_head, read_headers, consumed, delivered, deliver, with_bytes, with_progress, read_body,
  dispatch_state, read_round, again_or_break, within, read_rounds, with_inbuf, do_reads,
}

-- The socket is as it was, and at least `n` requests wait.
abbrev IsStill : {D C F E : Type 0} → List ReadEvent → ℕ → Round D C F E → Type 0
IsStill evs n (next c io cont set) = (c.incoming ≡ evs) × (n ≤ length c.waiting)
IsStill evs n (failed c io e) = c.incoming ≡ evs
IsStill evs n (crashed w) = Unit {0}
IsStill evs n stuck = Unit {0}

abbrev pub LeavesSocket : {D C F E A : Type 0} → List ReadEvent → Answer D C F E A → Type 0
LeavesSocket evs (answers c r) = c.incoming ≡ evs
LeavesSocket evs (panicked w) = Unit {0}
LeavesSocket evs out_of_fuel = Unit {0}

module _ {D C F E : Type 0} ⦃o : Buffer⦄ ⦃p : SizeParser⦄ ⦃q : RequestParser⦄ (v : Service D C F E)
    (cfg : Config) (clock : ℕ → ℕ) where
  IsStill-if :
      (evs : List ReadEvent) (n : ℕ) (b : Bool) (x y : Round D C F E)
      → IsStill evs n x
      → IsStill evs n y
      → IsStill evs n (if b then x else y)
  IsStill-if evs n true x y f g = f
  IsStill-if evs n false x y f g = g

  start_body-IsStill :
      (c : Connection D C F) (io : ReadBuf) (m : Mode) (rc : ResponseConfig) (codec : C)
      (r : Result (ServerError E) BodyProgress)
      → IsStill c.incoming (length c.waiting) (start_body v cfg clock c io m rc codec r)
  start_body-IsStill c io m rc codec (err e) = refl
  start_body-IsStill c io m rc codec (ok b) = (refl, omega arith)

  with_head-IsStill :
      (c : Connection D C F) (io : ReadBuf) (a : Outcome D C E)
      → IsStill c.incoming (length c.waiting) (with_head v cfg clock c io a)
  with_head-IsStill c io (buf, d, err e) = refl
  with_head-IsStill c io (buf, d, ok none) = (refl, omega arith)
  with_head-IsStill c io (buf, d, ok (some (kind, codec, rc))) =
      let (codec', m) = v.recv_mode codec in
      let io' : ReadBuf = record io { in_buf = buf } in
      IsStill-if c.incoming (length c.waiting) (is_hijack m.mode) _ _
        (refl, omega (arith, length-append c.waiting ((rc, codec') ∷ [])))
        (start_body-IsStill _ io' m.mode rc codec' (new_body kind m.mode))

  consumed-IsStill :
      (c : Connection D C F) (b : BodyState C) (complete : Bool) (r : Run (BodyProgress × ReadBuf))
      → IsStill c.incoming (length c.waiting) (consumed v cfg clock c b complete r)
  consumed-IsStill c b complete panic = tt
  consumed-IsStill c b true (returns (pr, io)) =
      (refl, omega (arith, length-append c.waiting ((b.response_config, b.codec) ∷ [])))
  consumed-IsStill c b false (returns (pr, io)) = (refl, omega arith)

  delivered-IsStill :
      (c : Connection D C F) (io : ReadBuf) (b : BodyState C) (bytes : ℕ) (done : Bool)
      (a : C × Result E (Option ℕ))
      → IsStill c.incoming (length c.waiting) (delivered v cfg clock c io b bytes done a)
  delivered-IsStill c io b bytes done (codec, err e) = refl
  delivered-IsStill c io b bytes done (codec, ok none) = (refl, omega arith)
  delivered-IsStill c io b bytes done (codec, ok (some n)) =
      consumed-IsStill c (record b { codec = codec }) (done && n == bytes) (consume b.progress io n)

  deliver-IsStill :
      (c : Connection D C F) (io : ReadBuf) (b : BodyState C) (bytes : ℕ) (done : Bool)
      → IsStill c.incoming (length c.waiting) (deliver v cfg clock c io b bytes done)
  deliver-IsStill c io b bytes done =
      let a = v.data_received b.codec (take bytes io.in_buf) done in
      IsStill-if c.incoming (length c.waiting) (leb bytes (length io.in_buf))
        (delivered v cfg clock c io b bytes done a) (crashed bad_slice)
        (delivered-IsStill c io b bytes done a) tt

  with_bytes-IsStill :
      (c : Connection D C F) (io : ReadBuf) (b : BodyState C) (bytes : ℕ) (done : Bool)
      → IsStill c.incoming (length c.waiting) (with_bytes v cfg clock c io b (bytes, done))
  with_bytes-IsStill c io b bytes true = deliver-IsStill c io b bytes true
  with_bytes-IsStill c io b bytes false =
      let waits : Round D C F E = next (record c { reading = body b }) io false false in
      let rest : Round D C F E =
        if wants_at_most b.mode bytes then deliver v cfg clock c io b bytes false else waits in
      IsStill-if c.incoming (length c.waiting) io.closed (failed c io connection_reset) rest refl (
        IsStill-if c.incoming (length c.waiting) (wants_at_most b.mode bytes)
          (deliver v cfg clock c io b bytes false) waits (deliver-IsStill c io b bytes false)
          (refl, omega arith))

  with_progress-IsStill :
      (c : Connection D C F) (b : BodyState C)
      (a : Option (Run (BodyProgress × ReadBuf × Result InvalidChunkSize (Unit {0}))))
      → IsStill c.incoming (length c.waiting) (with_progress v cfg clock c b a)
  with_progress-IsStill c b none = tt
  with_progress-IsStill c b (some panic) = tt
  with_progress-IsStill c b (some (returns (pr, io, err e))) = refl
  with_progress-IsStill c b (some (returns (pr, io, ok u))) =
      with_bytes-IsStill c io (record b { progress = pr }) (check_buf pr io).0 (check_buf pr io).1

  dispatch_state-IsStill :
      (c : Connection D C F) (io : ReadBuf) (st : InState C)
      → IsStill c.incoming (length c.waiting) (dispatch_state v cfg clock c io st)
  unfolding dispatch_state read_headers read_body
  dispatch_state-IsStill c io connected = ground arith
  dispatch_state-IsStill c io keep_alive = ground arith
  dispatch_state-IsStill c io headers =
      with_head-IsStill c io (parse_headers io.in_buf c.dispatcher v.headers_received)
  dispatch_state-IsStill c io (body b) = with_progress-IsStill c b (parse b.progress io)
  dispatch_state-IsStill c io hijack = (refl, omega arith)
  dispatch_state-IsStill c io closed = tt

  read_round-IsStill :
      (c : Connection D C F) (io : ReadBuf) (limit : ℕ)
      → limit < length c.waiting
      → IsStill c.incoming (length c.waiting) (read_round v cfg clock c io limit)
  unfolding read_round
  read_round-IsStill c io limit full =
      rw (lt→leb (length c.waiting) limit full)
        (dispatch_state-IsStill (record c { reading = closed }) io c.reading)

  limit_of-le :
      (st : InState C) (n : ℕ) → limit_of cfg st ≡ up_to n → n ≤ cfg.inflight_request_limit
  unfolding limit_of
  limit_of-le connected n e = ground arith
  limit_of-le keep_alive n e = ground arith
  limit_of-le headers n e = ground arith
  limit_of-le (body b) n e = ground arith
  limit_of-le hijack n e = cc
  limit_of-le closed n e = cc

  again_or_break-LeavesSocket :
      (again : Connection D C F → ReadBuf → Bool → Answer D C F E Bool) (changed : Bool)
      (r : Round D C F E) (evs : List ReadEvent) (n : ℕ)
      → IsStill evs n r
      → ((c : Connection D C F) (io : ReadBuf) (ch : Bool)
          → c.incoming ≡ evs
          → n ≤ length c.waiting
          → LeavesSocket evs (again c io ch))
      → LeavesSocket evs (again_or_break v cfg clock again changed r)
  again_or_break-LeavesSocket again changed (next c io true set) evs n (e, le) ih =
      ih c io (changed || set) e le
  again_or_break-LeavesSocket again changed (next c io false set) evs n (e, le) ih = e
  again_or_break-LeavesSocket again changed (failed c io x) evs n e ih = e
  again_or_break-LeavesSocket again changed (crashed w) evs n e ih = tt
  again_or_break-LeavesSocket again changed stuck evs n e ih = tt

  within-LeavesSocket :
      (again : Connection D C F → ReadBuf → Bool → Answer D C F E Bool) (c : Connection D C F)
      (io : ReadBuf) (changed : Bool) (l : Limit)
      → limit_of cfg c.reading ≡ l
      → cfg.inflight_request_limit < length c.waiting
      → ((c' : Connection D C F) (io' : ReadBuf) (ch : Bool)
          → c'.incoming ≡ c.incoming
          → length c.waiting ≤ length c'.waiting
          → LeavesSocket c.incoming (again c' io' ch))
      → LeavesSocket c.incoming (within v cfg clock again c io changed l)
  within-LeavesSocket again c io changed underflow e full ih = tt
  within-LeavesSocket again c io changed no_more e full ih = refl
  within-LeavesSocket again c io changed (up_to n) e full ih =
      again_or_break-LeavesSocket again changed (read_round v cfg clock c io n) c.incoming
        (length c.waiting) (read_round-IsStill c io n (omega (arith, limit_of-le c.reading n e))) ih

  read_rounds-LeavesSocket :
      (fuel : ℕ) (c : Connection D C F) (io : ReadBuf) (changed : Bool)
      → cfg.inflight_request_limit < length c.waiting
      → LeavesSocket c.incoming (read_rounds v cfg clock fuel c io changed)
  unfolding read_rounds
  read_rounds-LeavesSocket zero c io changed full = tt
  read_rounds-LeavesSocket (suc fuel) c io changed full =
      within-LeavesSocket (read_rounds v cfg clock fuel) c io changed (limit_of cfg c.reading) refl
        full
        (λ c' io' ch e le.
          subst (λ evs. LeavesSocket evs (read_rounds v cfg clock fuel c' io' ch)) e
            (read_rounds-LeavesSocket fuel c' io' ch (omega arith)))

  -- While more requests wait than `inflight_request_limit`, `do_reads` takes nothing from the
  -- socket, whether it succeeds or fails.
  pub do_reads-LeavesSocket :
      (fuel : ℕ) (c : Connection D C F)
      → cfg.inflight_request_limit < length c.waiting
      → LeavesSocket c.incoming (do_reads v cfg clock fuel c)
  unfolding do_reads
  do_reads-LeavesSocket fuel c full = by_inbuf c.inbuf
    where
      by_inbuf : (b : Option ReadBuf) → LeavesSocket c.incoming (with_inbuf v cfg clock fuel c b)
      by_inbuf none = refl
      by_inbuf (some io) = read_rounds-LeavesSocket fuel c io false full
