-- ===== src/Server/Process/Laws.antt =====
-- `process` of src/server/proto.rs from a sound state.
use minihttp.Base.{
  ℕ, zero, suc, ◌+◌, ◌*◌, ◌≤◌, ◌<◌, ◌≡◌, refl, sym, subst, ap, Bool, true, false, not, none, some,
  List, [], inl, inr, ok, err, arith,
}
use minihttp.Buffer.{Buffer}
use minihttp.Chunked.{SizeParser}
use minihttp.BodyProgress.{ReadBuf}
use minihttp.RequestHead.Head.{RequestParser}
use minihttp.Server.Config.{Config}
use minihttp.Server.State.{
  ReadEvent, FlushEvent, Service, OutState, idle, write, switch, void, Connection, chunk_overflow,
  Answer, out_of_fuel, panicked, answers,
}
use minihttp.Server.Reads.{do_reads, with_inbuf}
use minihttp.Server.Writes.{do_writes}
use minihttp.Server.Process.{new, is_done, after_reads, after_writes, process}
use minihttp.Server.Queue.{nothing, IsServing}
use minihttp.Server.Sound.{IsTame, IsSound, to_come, work}
use minihttp.Server.Turns.{do_writes-WritesTo}
use minihttp.Server.Turns.Ends.{turns, WritesTo}
use minihttp.Server.Progress.{ReadsTo, do_reads-ReadsTo}

-- How `process` ends: with a connection that goes on in a sound state, with one that is closed or
-- has failed, where the queue of requests was kept all the same, or in a panic of the decoder.
abbrev pub ProcessesTo : {D C F E : Type 0} → Answer D C F E Bool → Type 0
ProcessesTo out_of_fuel = ⊥
ProcessesTo (panicked w) = w ≡ chunk_overflow
ProcessesTo (answers c (err e)) = IsServing c
ProcessesTo (answers c (ok false)) = IsServing c
ProcessesTo (answers c (ok true)) =
    IsServing c × (io : ReadBuf) × (c.inbuf ≡ some io) × IsSound c io × (io.closed ≡ false)

turns-work :
    {D C F : Type 0} (c : Connection D C F) (io : ReadBuf) (w : OutState F C)
    → turns w c.waiting ≤ work c io + 2
turns-work c io (idle out) = omega arith
turns-work c io (write f) = omega arith
turns-work c io (switch f codec) = omega arith
turns-work c io void = omega arith

module _ {D C F E : Type 0} ⦃o : Buffer⦄ ⦃p : SizeParser⦄ ⦃q : RequestParser⦄ (v : Service D C F E)
    (cfg : Config) (clock : ℕ → ℕ) where
  do_reads_gone :
      (fuel : ℕ) (c : Connection D C F)
      → c.inbuf ≡ none
      → do_reads v cfg clock fuel c ≡ answers c (ok false)
  unfolding do_reads
  do_reads_gone fuel c i = ap (with_inbuf v cfg clock fuel c) i

  finish-ProcessesTo :
      (c : Connection D C F) (io : ReadBuf) (b : Bool)
      → io.closed ≡ b
      → c.inbuf ≡ some io
      → IsSound c io
      → ProcessesTo {E = E} (answers c (ok (not b)))
  finish-ProcessesTo c io true e i u = u.serves
  finish-ProcessesTo c io false e i u = (u.serves, io, i, u, e)

  after_reads-ProcessesTo :
      (again : Connection D C F → Answer D C F E Bool) (m : ℕ) (a : Answer D C F E Bool)
      → ReadsTo m a
      → ((c : Connection D C F) (io : ReadBuf)
          → c.inbuf ≡ some io
          → IsSound c io
          → work c io < m
          → ProcessesTo (again c))
      → ProcessesTo (after_reads v cfg clock again a)
  after_reads-ProcessesTo again m out_of_fuel h ih = h
  after_reads-ProcessesTo again m (panicked w) h ih = h
  after_reads-ProcessesTo again m (answers c (err e)) h ih = h
  after_reads-ProcessesTo again m (answers c (ok true)) (io, i, u, le, less) ih =
      ih c io i u (less refl)
  after_reads-ProcessesTo again m (answers c (ok false)) (io, i, u, le, less) ih =
      subst (λ b. ProcessesTo {E = E} (answers c (ok (not (is_done b))))) (sym i)
        (finish-ProcessesTo c io io.closed refl i u)

  after_writes-ProcessesTo :
      (again : Connection D C F → Answer D C F E Bool) (fuel : ℕ) (io : ReadBuf) (m : ℕ)
      (a : Answer D C F E (Unit {0}))
      → IsTame v
      → 1 ≤ cfg.inflight_request_limit
      → m < fuel
      → WritesTo io m a
      → ((c : Connection D C F) (io : ReadBuf)
          → c.inbuf ≡ some io
          → IsSound c io
          → work c io < m
          → ProcessesTo (again c))
      → ProcessesTo (
          after_writes v cfg clock
            (λ c. after_reads v cfg clock again (do_reads v cfg clock fuel c))
            a)
  after_writes-ProcessesTo again fuel io m out_of_fuel tame lim enough h ih = h
  after_writes-ProcessesTo again fuel io m (panicked w) tame lim enough h ih = absurd h
  after_writes-ProcessesTo again fuel io m (answers c (err e)) tame lim enough h ih = h
  after_writes-ProcessesTo again fuel io m (answers c (ok r)) tame lim enough (inl (i, u, le)) ih =
      after_reads-ProcessesTo again (work c io) (do_reads v cfg clock fuel c)
        (do_reads-ReadsTo v cfg clock tame lim fuel c io i (omega arith) u)
        (λ c' io' i' u' less. ih c' io' i' u' (omega arith))
  after_writes-ProcessesTo again fuel io m (answers c (ok r)) tame lim enough (inr (i, s)) ih =
      let gone : do_reads v cfg clock fuel c ≡ answers c (ok false) = do_reads_gone fuel c i in
      subst (λ a. ProcessesTo (after_reads v cfg clock again a)) (sym gone)
        (subst (λ b. ProcessesTo {E = E} (answers c (ok (not (is_done b))))) (sym i) s)

  pub process-ProcessesTo :
      (fuel : ℕ) (c : Connection D C F) (io : ReadBuf)
      → IsTame v
      → 1 ≤ cfg.inflight_request_limit
      → c.inbuf ≡ some io
      → IsSound c io
      → work c io + 3 ≤ fuel
      → ProcessesTo (process v cfg clock fuel c)
  unfolding process
  process-ProcessesTo zero c io tame lim i u enough = absurd (omega arith)
  process-ProcessesTo (suc fuel) c io tame lim i u enough =
      after_writes-ProcessesTo (process v cfg clock fuel) fuel io (work c io)
        (do_writes v cfg clock fuel c) tame lim (omega arith)
        (do_writes-WritesTo v cfg clock io fuel c (work c io)
          (omega (arith, turns-work c io c.writing)) i u (omega arith))
        (λ c' io' i' u' less. process-ProcessesTo fuel c' io' tame lim i' u' (omega arith))

-- A new connection is sound.
pub new-IsSound :
    {D C F : Type 0} (cfg : Config) (clock : ℕ → ℕ) (d : D) (incoming : List ReadEvent)
    (outgoing : List FlushEvent)
    → (io : ReadBuf) × ((new {C = C} {F = F} cfg clock d incoming outgoing).inbuf ≡ some io)
      × IsSound (new {C = C} {F = F} cfg clock d incoming outgoing) io
      × (work (new {C = C} {F = F} cfg clock d incoming outgoing) io ≡ 5 * to_come incoming + 1)
unfolding new
new-IsSound cfg clock d incoming outgoing = (
  record { in_buf = []; closed = false },
  refl,
  record { fits = tt; holds = tt; serves = nothing },
  omega arith,
)
