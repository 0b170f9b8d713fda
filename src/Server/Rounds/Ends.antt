-- ===== src/Server/Rounds/Ends.antt =====
-- What a round of the loop of `do_reads`, src/server/proto.rs, keeps in a sound state.
use minihttp.Base.{ℕ, ◌≤◌, ◌<◌, ◌≡◌, refl, Bool, true, false, if◌then◌else◌}
use minihttp.Server.State.{chunk_overflow}
use minihttp.Server.Reads.{Round, next, failed, crashed, stuck}
use minihttp.Server.Queue.{IsServing}
use minihttp.Server.Sound.{IsSound, work}

-- What a round does in a state with work `m`.
abbrev pub Kept : {D C F E : Type 0} → ℕ → Round D C F E → Type 0
Kept m (next c io cont set) =
    IsSound c io × (work c io ≤ m) × (cont ≡ true → work c io < m) × (set ≡ true → cont ≡ true)
Kept m (failed c io e) = IsServing c
Kept m (crashed w) = w ≡ chunk_overflow
Kept m stuck = ⊥

module _ {D C F E : Type 0} where
  pub Kept-if :
      (k : ℕ) (b : Bool) (x y : Round D C F E)
      → (b ≡ true → Kept k x)
      → (b ≡ false → Kept k y)
      → Kept k (if b then x else y)
  Kept-if k true x y f g = f refl
  Kept-if k false x y f g = g refl
