-- ===== src/Server/Turns.antt =====
-- `do_writes` of src/server/proto.rs from a sound state: it ends without a panic, and leaves a
-- sound state or hands the connection over.
pub mod Ends
pub mod Idle
use minihttp.Base.{
  ℕ, zero, suc, ◌+◌, ◌*◌, ◌≤◌, ◌<◌, ◌≡◌, ◌⊎◌, refl, ap, subst, Bool, true, false, Option, none,
  some, List, [], ◌∷◌, Bytes, length, drop, Bool-cases, inl, inr, Result, ok, err, arith, ltb,
}
use minihttp.BodyProgress.{ReadBuf}
use minihttp.RequestHead.Head.{first_state}
use minihttp.Server.Config.{Config, Mode, buffered_upfront, progressive}
use minihttp.Server.State.{
  FlushEvent, sent, flush_failed, Polled, ready, pending, Service, Entry, InState, connected,
  keep_alive, headers, body, hijack, closed, OutState, idle, write, switch, void, Connection,
  Answer, out_of_fuel, panicked, answers,
}
use minihttp.Server.Reads.{ticked}
use minihttp.Server.Writes.{
  Round, next, left, failed, crashed, flushed, flush, begun, waits, no_request, next_request,
  after_flush, polled, hand_over, switched, dispatch_state, write_round, again_or_return, do_writes,
}
use minihttp.Server.Queue.{Serves, start, IsServing}
use minihttp.Server.Queue as Queue
use minihttp.Server.Sound.{IsOpen, Fits, Holds, IsSound, IsBuffered, work}
use minihttp.Server.Turns.Ends.{
  turns, Kept, WritesTo, Fits-open, Fits-switch, Fits-begun, turns-begun, Was, put-Kept,
}
use minihttp.Server.Turns.Idle.{next_request-Kept, after_flush-Kept}

module _ {D C F E : Type 0} (v : Service D C F E) (cfg : Config) (clock : ℕ → ℕ)
    (io : ReadBuf) where
  polled-Kept :
      (c : Connection D C F) (f : F) (a : Result E (Polled F)) (k n : ℕ)
      → Was v cfg clock io c (write f)
      → work c io ≤ k
      → 2 * length c.waiting + 2 ≤ n
      → Kept io k n (polled v cfg clock c a)
  polled-Kept c f (err e) k n u le t = u.serves
  polled-Kept c f (ok (ready out)) k n u le t =
      let fits = Fits-open c.reading (write f) (idle out) c.waiting tt tt u.fits in
      (
        u.has_input,
        record { fits = fits; holds = u.holds; serves = u.serves },
        le,
        λ z. omega arith,
      )
  polled-Kept c f (ok (pending f')) k n u le t =
      put-Kept v cfg clock io c (write f) (write f') k n false u
        (Fits-open c.reading (write f) (write f') c.waiting tt tt u.fits) le (λ z. cc)

  hand_over-Kept :
      (c : Connection D C F) (codec : C) (b : Option ReadBuf) (k n : ℕ)
      → b ≡ some io
      → IsServing c
      → Kept io k n (hand_over v cfg clock c codec b)
  hand_over-Kept c codec none k n e s = cc
  hand_over-Kept c codec (some x) k n e s = (refl, Queue.hand_over s)

  switched-Kept :
      (c : Connection D C F) (f : F) (codec : C) (a : Result E (Polled F)) (k n : ℕ)
      → Was v cfg clock io c (switch f codec)
      → work c io ≤ k
      → Kept io k n (switched v cfg clock c codec a)
  switched-Kept c f codec (err e) k n u le = u.serves
  switched-Kept c f codec (ok (ready out)) k n u le =
      hand_over-Kept c codec c.inbuf k n u.has_input u.serves
  switched-Kept c f codec (ok (pending f')) k n u le =
      put-Kept v cfg clock io c (switch f codec) (switch f' codec) k n false u
        (Fits-switch c.reading f f' codec c.waiting u.fits) le (λ z. cc)

  Fits-void :
      (st : InState C) (l : List (Entry C)) → Fits st (let w : OutState F C = void in w) l → ⊥
  Fits-void connected l h = h
  Fits-void keep_alive l h = h
  Fits-void headers l h = h
  Fits-void (body s) l h = h.0
  Fits-void hijack l h = h
  Fits-void closed l h = h

  dispatch_state-Kept :
      (c : Connection D C F) (w : OutState F C) (k n : ℕ)
      → Was v cfg clock io c w
      → work c io ≤ k
      → turns w c.waiting ≤ n
      → Kept io k n (dispatch_state v cfg clock c w)
  unfolding dispatch_state flush
  dispatch_state-Kept c (idle out) k n u le t = elim (Bool-cases (ltb 0 (length out))) [
    | inl z ↦ rw z (after_flush-Kept v cfg clock io c out c.outgoing k n u le t)
    | inr z ↦ rw z (next_request-Kept v cfg clock io c out c.waiting k n refl u le t)
  ]
  dispatch_state-Kept c (write f) k n u le t = polled-Kept c f (v.poll f) k n u le t
  dispatch_state-Kept c (switch f codec) k n u le t = switched-Kept c f codec (v.poll f) k n u le
  dispatch_state-Kept c void k n u le t = absurd (Fits-void c.reading c.waiting u.fits)

  again_or_return-WritesTo :
      (again : Connection D C F → Answer D C F E (Unit {0})) (r : Round D C F E) (k n : ℕ)
      → Kept io k n r
      → ((c : Connection D C F)
          → c.inbuf ≡ some io
          → IsSound c io
          → work c io ≤ k
          → turns c.writing c.waiting < n
          → WritesTo io k (again c))
      → WritesTo io k (again_or_return v cfg clock again r)
  again_or_return-WritesTo again (next c true) k n (i, u, le, t) ih = ih c i u le (t refl)
  again_or_return-WritesTo again (next c false) k n (i, u, le, t) ih = inl (i, u, le)
  again_or_return-WritesTo again (left c) k n h ih = inr h
  again_or_return-WritesTo again (failed c e) k n s ih = s
  again_or_return-WritesTo again (crashed w) k n h ih = h

  pub do_writes-WritesTo :
      (fuel : ℕ) (c : Connection D C F) (k : ℕ)
      → turns c.writing c.waiting ≤ fuel
      → c.inbuf ≡ some io
      → IsSound c io
      → work c io ≤ k
      → WritesTo io k (do_writes v cfg clock fuel c)
  unfolding do_writes write_round
  do_writes-WritesTo zero c k t i u le = absurd (turns-pos c.writing c.waiting t)
    where
      turns-pos : (w : OutState F C) (l : List (Entry C)) → turns w l ≤ 0 → ⊥
      turns-pos (idle out) l h = omega arith
      turns-pos (write f) l h = omega arith
      turns-pos (switch f codec) l h = omega arith
      turns-pos void l h = omega arith
  do_writes-WritesTo (suc fuel) c k t i u le =
      again_or_return-WritesTo (do_writes v cfg clock fuel) (write_round v cfg clock c) k (suc fuel)
        (dispatch_state-Kept (record c { writing = void }) c.writing k (suc fuel)
          (record { has_input = i; fits = u.fits; holds = u.holds; serves = u.serves }) le t)
        (λ c' i' u' le' t'. do_writes-WritesTo fuel c' k (omega arith) i' u' le')
