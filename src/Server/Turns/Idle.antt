-- ===== src/Server/Turns/Idle.antt =====
-- The arm of `Idle` in `do_writes`, src/server/proto.rs, in a sound state.
use minihttp.Base.{
  ℕ, ◌+◌, ◌*◌, ◌≤◌, ◌≡◌, refl, ap, subst, false, List, [], ◌∷◌, Bytes, length, drop, Bool-cases,
  inl, inr, arith, ltb,
}
use minihttp.BodyProgress.{ReadBuf}
use minihttp.RequestHead.Head.{first_state}
use minihttp.Server.Config.{Config, Mode, buffered_upfront, progressive}
use minihttp.Server.State.{
  FlushEvent, sent, flush_failed, Service, Entry, InState, connected, keep_alive, headers, body,
  hijack, closed, OutState, idle, Connection,
}
use minihttp.Server.Reads.{ticked}
use minihttp.Server.Writes.{flushed, waits, no_request, next_request, after_flush}
use minihttp.Server.Queue.{Serves, start}
use minihttp.Server.Sound.{Fits, IsBuffered, work}
use minihttp.Server.Turns.Ends.{Kept, Fits-open, Fits-begun, turns-begun, Was, put-Kept}

module _ {D C F E : Type 0} (v : Service D C F E) (cfg : Config) (clock : ℕ → ℕ)
    (io : ReadBuf) where
  waits-Kept :
      (c : Connection D C F) (out : Bytes) (mode : Mode) (k n : ℕ)
      → IsBuffered mode
      → Was v cfg clock io c (idle out)
      → work c io ≤ k
      → Kept io k n (waits v cfg clock c out mode)
  waits-Kept c out (buffered_upfront x) k n b u l =
      put-Kept v cfg clock io c (idle out) (idle out) k n false u u.fits l (λ z. cc)
  waits-Kept c out (progressive x) k n (y, b) u l = absurd (mode_differs b)
    where
      mode_differs : progressive x ≡ buffered_upfront y → ⊥
      mode_differs z = cc
  waits-Kept c out Mode.hijack k n (y, b) u l = absurd (mode_differs b)
    where
      mode_differs : Mode.hijack ≡ buffered_upfront y → ⊥
      mode_differs z = cc

  no_request-Kept :
      (c : Connection D C F) (out : Bytes) (st : InState C) (k n : ℕ)
      → Fits st (let w : OutState F C = idle out in w) []
      → Was v cfg clock io c (idle out)
      → work c io ≤ k
      → Kept io k n (no_request v cfg clock c out st)
  no_request-Kept c out connected k n f u l =
      put-Kept v cfg clock io c (idle out) (idle out) k n false u u.fits l (λ z. cc)
  no_request-Kept c out keep_alive k n f u l =
      put-Kept v cfg clock io c (idle out) (idle out) k n false u u.fits l (λ z. cc)
  no_request-Kept c out headers k n f u l =
      put-Kept v cfg clock io c (idle out) (idle out) k n false u u.fits l (λ z. cc)
  no_request-Kept c out (body b) k n f u l = waits-Kept c out b.mode k n f.1 u l
  no_request-Kept c out hijack k n f u l = absurd (omega arith)
  no_request-Kept c out closed k n f u l = absurd f

  pub next_request-Kept :
      (c : Connection D C F) (out : Bytes) (l : List (Entry C)) (k n : ℕ)
      → c.waiting ≡ l
      → Was v cfg clock io c (idle out)
      → work c io ≤ k
      → 2 * length c.waiting + 1 ≤ n
      → Kept io k n (next_request v cfg clock c out l)
  next_request-Kept c out [] k n e u le t =
      no_request-Kept c out c.reading k n (subst (Fits c.reading (idle out)) e u.fits) u le
  next_request-Kept c out ((rc, codec) ∷ rest) k n e u le t =
      let (codec', f) = v.start_response codec (first_state rc, out) in
      let fits = subst (Fits c.reading (idle out)) e u.fits in
      let len = ap length e in
      (
        u.has_input,
        record {
          fits = Fits-begun c.reading (idle out) (rc, codec) rest codec' f tt fits;
          holds = u.holds;
          serves = start (subst (Serves c.history) e u.serves);
        },
        omega arith,
        λ z. omega (arith, turns-begun c.reading rest codec' f),
      )

  pub after_flush-Kept :
      (c : Connection D C F) (out : Bytes) (evs : List FlushEvent) (k n : ℕ)
      → Was v cfg clock io c (idle out)
      → work c io ≤ k
      → 2 * length c.waiting + 1 ≤ n
      → Kept io k n (after_flush v cfg clock (flushed v cfg clock c out evs))
  after_flush-Kept c out [] k n u le t = next_request-Kept c out c.waiting k n refl u le t
  after_flush-Kept c out (sent x ∷ rest) k n u le t =
      let fits = Fits-open c.reading (idle out) (idle (drop x out)) c.waiting tt tt u.fits in
      elim (Bool-cases (ltb (length (drop x out)) (length out))) [
        | inl z ↦ rw z (
            next_request-Kept
              (record (ticked c) { outgoing = rest; last_byte_written = clock c.clock_reads })
              (drop x out) c.waiting k n refl
              (record { has_input = u.has_input; fits = fits; holds = u.holds; serves = u.serves })
              le t)
        | inr z ↦ rw z (
            next_request-Kept (record c { outgoing = rest }) (drop x out) c.waiting k n refl
              (record { has_input = u.has_input; fits = fits; holds = u.holds; serves = u.serves })
              le t)
      ]
  after_flush-Kept c out (flush_failed ∷ rest) k n u le t = u.serves
