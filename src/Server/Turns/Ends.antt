-- ===== src/Server/Turns/Ends.antt =====
-- What a round of the loop of `do_writes`, src/server/proto.rs, keeps in a sound state.
use minihttp.Base.{
  ℕ, ◌+◌, ◌*◌, ◌≤◌, ◌<◌, ◌≡◌, ◌⊎◌, Bool, true, none, some, List, ◌∷◌, length, ok, err, arith,
}
use minihttp.BodyProgress.{ReadBuf}
use minihttp.Server.Config.{Config}
use minihttp.Server.State.{
  Service, Entry, InState, connected, keep_alive, headers, body, hijack, closed, OutState, idle,
  write, switch, void, Connection, Answer, out_of_fuel, panicked, answers,
}
use minihttp.Server.Writes.{Round, next, left, failed, crashed, begun}
use minihttp.Server.Queue.{IsServing}
use minihttp.Server.Sound.{IsOpen, Fits, Holds, IsSound, work}

-- The rounds that `do_writes` can take.
abbrev pub turns : {F C : Type 0} → OutState F C → List (Entry C) → ℕ
turns (idle out) l = 2 * length l + 1
turns (write f) l = 2 * length l + 2
turns (switch f codec) l = 1
turns void l = 1

module _ {D C F E : Type 0} (io : ReadBuf) (m : ℕ) where
  -- What a round does in a state with work `m` and `n` rounds to go.
  abbrev pub Kept : ℕ → Round D C F E → Type 0
  Kept n (next c cont) =
      (c.inbuf ≡ some io)
      × IsSound c io
      × (work c io ≤ m)
      × (cont ≡ true → turns c.writing c.waiting < n)
  Kept n (left c) = (c.inbuf ≡ none) × IsServing c
  Kept n (failed c e) = IsServing c
  Kept n (crashed w) = ⊥

  -- What `do_writes` does in a state with work `m`.
  abbrev pub WritesTo : Answer D C F E (Unit {0}) → Type 0
  WritesTo out_of_fuel = ⊥
  WritesTo (panicked w) = ⊥
  WritesTo (answers c (err e)) = IsServing c
  WritesTo (answers c (ok u)) =
      ((c.inbuf ≡ some io) × IsSound c io × (work c io ≤ m)) ⊎ ((c.inbuf ≡ none) × IsServing c)

module _ {F C : Type 0} where
  pub Fits-open :
      (st : InState C) (w w' : OutState F C) (l : List (Entry C))
      → IsOpen w
      → IsOpen w'
      → Fits st w l
      → Fits st w' l
  Fits-open connected w w' l a b h = b
  Fits-open keep_alive w w' l a b h = b
  Fits-open headers w w' l a b h = b
  Fits-open (body s) w w' l a b h = (b, h.1)
  Fits-open hijack (idle x) (idle y) l a b h = h
  Fits-open hijack (idle x) (write y) l a b h = h
  Fits-open hijack (idle x) (switch g c) l a b h = absurd b
  Fits-open hijack (idle x) void l a b h = absurd b
  Fits-open hijack (write x) (idle y) l a b h = h
  Fits-open hijack (write x) (write y) l a b h = h
  Fits-open hijack (write x) (switch g c) l a b h = absurd b
  Fits-open hijack (write x) void l a b h = absurd b
  Fits-open hijack (switch g c) w' l a b h = absurd a
  Fits-open hijack void w' l a b h = absurd a
  Fits-open closed w w' l a b h = h

  pub Fits-switch :
      (st : InState C) (f f' : F) (codec : C) (l : List (Entry C))
      → Fits st (switch f codec) l
      → Fits st (switch f' codec) l
  Fits-switch connected f f' codec l h = h
  Fits-switch keep_alive f f' codec l h = h
  Fits-switch headers f f' codec l h = h
  Fits-switch (body s) f f' codec l h = h
  Fits-switch hijack f f' codec l h = tt
  Fits-switch closed f f' codec l h = h

  pub Fits-begun :
      (st : InState C) (w : OutState F C) (x : Entry C) (l : List (Entry C)) (codec : C) (f : F)
      → IsOpen w
      → Fits st w (x ∷ l)
      → Fits st (begun st codec f) l
  Fits-begun connected w x l codec f a h = tt
  Fits-begun keep_alive w x l codec f a h = tt
  Fits-begun headers w x l codec f a h = tt
  Fits-begun (body s) w x l codec f a h = (tt, h.1)
  Fits-begun hijack w x l codec f a h = tt
  Fits-begun closed w x l codec f a h = h

  pub turns-begun :
      (st : InState C) (l : List (Entry C)) (codec : C) (f : F)
      → turns (begun st codec f) l ≤ 2 * length l + 2
  turns-begun connected l codec f = omega arith
  turns-begun keep_alive l codec f = omega arith
  turns-begun headers l codec f = omega arith
  turns-begun (body s) l codec f = omega arith
  turns-begun hijack l codec f = omega arith
  turns-begun closed l codec f = omega arith

module _ {D C F E : Type 0} (v : Service D C F E) (cfg : Config) (clock : ℕ → ℕ)
    (io : ReadBuf) where
  -- A connection whose state of writing was this one.
  pub record Was (c : Connection D C F) (w : OutState F C) : Type 0 where
    pub has_input : c.inbuf ≡ some io
    pub fits : Fits c.reading w c.waiting
    pub holds : Holds c.reading io
    pub serves : IsServing c

  -- The same state of writing, or another that fits, put back.
  pub put-Kept :
      (c : Connection D C F) (w w' : OutState F C) (k n : ℕ) (cont : Bool)
      → Was c w
      → Fits c.reading w' c.waiting
      → work c io ≤ k
      → (cont ≡ true → turns w' c.waiting < n)
      → Kept {E = E} io k n (next (record c { writing = w' }) cont)
  put-Kept c w w' k n cont u f l t =
      (u.has_input, record { fits = f; holds = u.holds; serves = u.serves }, l, t)
