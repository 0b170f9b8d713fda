-- ===== src/Server/Progress.antt =====
-- `do_reads`, `do_writes` and `process` of src/server/proto.rs from a sound state: they end, and
-- leave a sound state.
use minihttp.Base.{
  ℕ, zero, suc, ◌-◌, ◌≤◌, ◌<◌, ◌≡◌, refl, sym, subst, Bool, true, false, ◌||◌, some, inl, inr, ◌⊎◌,
  ok, err, arith,
}
use minihttp.Buffer.{Buffer}
use minihttp.Chunked.{SizeParser}
use minihttp.BodyProgress.{ReadBuf}
use minihttp.RequestHead.Head.{RequestParser}
use minihttp.Server.Config.{Config}
use minihttp.Server.State.{
  Service, InState, connected, keep_alive, headers, body, hijack, closed, Connection,
  chunk_overflow, Answer, out_of_fuel, panicked, answers,
}
use minihttp.Server.Reads.{
  Round, next, failed, crashed, stuck, limit_of, up_to, no_more, read_round, again_or_break,
  read_rounds, do_reads, with_inbuf,
}
use minihttp.Server.Queue.{IsServing}
use minihttp.Server.Sound.{IsTame, IsSound, work}
use minihttp.Server.Rounds.{read_round-Kept}
use minihttp.Server.Rounds.Ends.{Kept}

-- What `do_reads` does in a state with work `m`.
abbrev pub ReadsTo : {D C F E : Type 0} → ℕ → Answer D C F E Bool → Type 0
ReadsTo m out_of_fuel = ⊥
ReadsTo m (panicked w) = w ≡ chunk_overflow
ReadsTo m (answers c (err e)) = IsServing c
ReadsTo m (answers c (ok changed)) =
    (io : ReadBuf) × (c.inbuf ≡ some io)
    × IsSound c io
    × (work c io ≤ m)
    × (changed ≡ true → work c io < m)

module _ {D C F E : Type 0} ⦃o : Buffer⦄ ⦃p : SizeParser⦄ ⦃q : RequestParser⦄ (v : Service D C F E)
    (cfg : Config) (clock : ℕ → ℕ) (tame : IsTame v) (allows : 1 ≤ cfg.inflight_request_limit) where
  limit_of-cases :
      (st : InState C) → (limit_of cfg st ≡ no_more) ⊎ ((n : ℕ) × (limit_of cfg st ≡ up_to n))
  unfolding limit_of
  limit_of-cases connected = inr (cfg.inflight_request_limit, refl)
  limit_of-cases keep_alive = inr (cfg.inflight_request_limit, refl)
  limit_of-cases headers = inr (cfg.inflight_request_limit, refl)
  limit_of-cases (body b) = inr (cfg.inflight_request_limit - 1, ground arith)
  limit_of-cases hijack = inl refl
  limit_of-cases closed = inl refl

  or-true : (a b : Bool) → (a || b) ≡ true → (a ≡ true) ⊎ (b ≡ true)
  or-true true b e = inl refl
  or-true false b e = inr e

  again_or_break-ReadsTo :
      (again : Connection D C F → ReadBuf → Bool → Answer D C F E Bool) (changed : Bool)
      (r : Round D C F E) (k m : ℕ)
      → Kept k r
      → k ≤ m
      → (changed ≡ true → k < m)
      → ((c : Connection D C F) (io : ReadBuf) (ch : Bool)
          → IsSound c io
          → work c io < k
          → ReadsTo m (again c io ch))
      → ReadsTo m (again_or_break v cfg clock again changed r)
  again_or_break-ReadsTo again changed (next c io true set) k m (u, le, less, both) top down ih =
      ih c io (changed || set) u (less refl)
  again_or_break-ReadsTo again changed (next c io false set) k m (u, le, less, both) top down ih = (
    io,
    refl,
    record { fits = u.fits; holds = u.holds; serves = u.serves },
    omega arith,
    λ e. elim (or-true changed set e) [
      | inl z ↦ let l = down z in omega arith
      | inr z ↦ let l = both z in cc
    ],
  )
  again_or_break-ReadsTo again changed (failed c io e) k m s top down ih = s
  again_or_break-ReadsTo again changed (crashed w) k m s top down ih = s
  again_or_break-ReadsTo again changed stuck k m s top down ih = s

  read_rounds-ReadsTo :
      (fuel : ℕ) (c : Connection D C F) (io : ReadBuf) (changed : Bool) (m : ℕ)
      → work c io < fuel
      → IsSound c io
      → work c io ≤ m
      → (changed ≡ true → work c io < m)
      → ReadsTo m (read_rounds v cfg clock fuel c io changed)
  unfolding read_rounds
  read_rounds-ReadsTo zero c io changed m enough u top down = absurd (omega arith)
  read_rounds-ReadsTo (suc fuel) c io changed m enough u top down =
      elim (limit_of-cases c.reading) [
        | inl e ↦
            rw e (io, refl, record { fits = u.fits; holds = u.holds; serves = u.serves }, top, down)
        | inr (n, e) ↦ rw e (
            again_or_break-ReadsTo (read_rounds v cfg clock fuel) changed
              (read_round v cfg clock c io n) (work c io) m
              (read_round-Kept v cfg clock tame c io n u) top down
              (λ c' io' ch u' less.
                read_rounds-ReadsTo fuel c' io' ch m (omega arith) u' (omega arith)
                  (λ z. omega arith)))
      ]

  -- From a sound connection with its input buffer, with a limit of at least one and a service that
  -- never asks for a body in pieces and takes each whole body at once, and with more fuel than
  -- work, `do_reads` ends: it panics only in the chunk decoder, the requests are kept as in a
  -- queue, and if it succeeds the connection is sound with no more work than before, and with less
  -- if it says that something changed.
  pub do_reads-ReadsTo :
      (fuel : ℕ) (c : Connection D C F) (io : ReadBuf)
      → c.inbuf ≡ some io
      → work c io < fuel
      → IsSound c io
      → ReadsTo (work c io) (do_reads v cfg clock fuel c)
  unfolding do_reads
  do_reads-ReadsTo fuel c io e enough u =
      subst (λ b. ReadsTo (work c io) (with_inbuf v cfg clock fuel c b)) (sym e)
        (read_rounds-ReadsTo fuel c io false (work c io) enough u (omega arith) (λ z. cc))
