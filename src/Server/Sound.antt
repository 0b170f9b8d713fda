-- ===== src/Server/Sound.antt =====
-- The states that a connection of src/server/proto.rs can be in between the rounds of its loops,
-- if its service reads whole bodies, and how much is left to do in them.
use minihttp.Base.{ℕ, ◌+◌, ◌*◌, ◌<◌, ◌≡◌, ◌≢◌, true, Option, some, List, [], ◌∷◌, Bytes, length, ok}
use minihttp.BodyProgress.{ReadBuf}
use minihttp.BodyProgress.Laws.{IsWithin}
use minihttp.Server.Config.{Mode, buffered_upfront}
use minihttp.Server.State.{
  ReadEvent, got, end_of_stream, read_failed, Service, Entry, InState, connected, keep_alive,
  headers, body, hijack, closed, OutState, idle, write, switch, void, Connection,
}
use minihttp.Server.Queue.{IsServing}

-- The mode in which a body is collected before it is handed over.
abbrev pub IsBuffered : Mode → Type 0
IsBuffered m = (n : ℕ) × (m ≡ buffered_upfront n)

-- A service that asks for whole bodies or for the connection itself, takes each body at once, and
-- never more than it is given.
pub record IsTame {D C F E : Type 0} (v : Service D C F E) : Type 0 where
  pub never_progressive : (c : C) (n : ℕ) → (v.recv_mode c).1.mode ≢ Mode.progressive n
  pub takes_all :
      (c c' : C) (bytes : Bytes) (r : Option ℕ)
      → v.data_received c bytes true ≡ (c', ok r)
      → r ≡ some (length bytes)

abbrev pub IsOpen : {F C : Type 0} → OutState F C → Type 0
IsOpen (idle out) = Unit {0}
IsOpen (write f) = Unit {0}
IsOpen (switch f codec) = ⊥
IsOpen void = ⊥

-- The request for which the connection is kept waits, or its response is being written.
abbrev pub IsSwitching : {F C : Type 0} → OutState F C → List (Entry C) → Type 0
IsSwitching (idle out) q = 0 < length q
IsSwitching (write f) q = 0 < length q
IsSwitching (switch f codec) q = Unit {0}
IsSwitching void q = ⊥

-- How the states of reading and of writing fit.
abbrev pub Fits : {F C : Type 0} → InState C → OutState F C → List (Entry C) → Type 0
Fits connected w q = IsOpen w
Fits keep_alive w q = IsOpen w
Fits headers w q = IsOpen w
Fits (body b) w q = IsOpen w × IsBuffered b.mode
Fits hijack w q = IsSwitching w q
Fits closed w q = ⊥

-- The decoded part of the body that is being read is in the buffer.
abbrev pub Holds : {C : Type 0} → InState C → ReadBuf → Type 0
Holds (body b) io = IsWithin b.progress io
Holds _ io = Unit {0}

pub record IsSound {D C F : Type 0} (c : Connection D C F) (io : ReadBuf) : Type 0 where
  pub fits : Fits c.reading c.writing c.waiting
  pub holds : Holds c.reading io
  pub serves : IsServing c

-- The bytes that are still to come.
abbrev pub to_come : List ReadEvent → ℕ
to_come [] = 0
to_come (got b ∷ rest) = length b + to_come rest
to_come (end_of_stream ∷ rest) = to_come rest
to_come (read_failed ∷ rest) = to_come rest

abbrev pub rank : {C : Type 0} → InState C → ℕ
rank connected = 1
rank keep_alive = 1
rank (body b) = 4
rank _ = 0

-- What each round makes less, or leaves as it is where the loop ends.
abbrev pub work : {D C F : Type 0} → Connection D C F → ReadBuf → ℕ
work c io = 5 * (length io.in_buf + to_come c.incoming) + rank c.reading + 2 * length c.waiting
