-- ===== src/Server/Rounds/Headers.antt =====
-- The arm of `Headers` in `do_reads`, src/server/proto.rs, in a sound state.
use minihttp.Base.{
  ℕ, ◌+◌, ◌*◌, ◌≤◌, ◌<◌, ◌≡◌, ◌≢◌, refl, Option, none, some, List, [], ◌∷◌, ◌++◌, length, ap,
  Result, ok, err, arith, length-append, length-drop,
}
use minihttp.Buffer.{Buffer}
use minihttp.Chunked
use minihttp.Chunked.{SizeParser, InvalidChunkSize}
use minihttp.BodyProgress.{BodyProgress, ReadBuf}
use minihttp.BodyProgress.Laws.{IsWithin}
use minihttp.RequestHead.{BodyKind, fixed, chunked, unsupported}
use minihttp.RequestHead.Head.{ResponseConfig, RequestParser, Outcome}
use minihttp.RequestHead.Reading.{IsOutcome}
use minihttp.Server.Config.{Config, Mode, buffered_upfront, progressive}
use minihttp.Server.State.{
  Service, ServerError, Entry, OutState, idle, write, switch, void, Connection, new_body,
}
use minihttp.Server.Reads.{start_body, with_mode, with_head}
use minihttp.Server.Queue.{accept, IsServing}
use minihttp.Server.Sound.{IsTame, IsOpen, IsSwitching, IsBuffered, to_come}
use minihttp.Server.Rounds.Ends.{Kept}

module _ {D C F E : Type 0} ⦃o : Buffer⦄ ⦃p : SizeParser⦄ ⦃q : RequestParser⦄ (v : Service D C F E)
    (cfg : Config) (clock : ℕ → ℕ) (tame : IsTame v) where
  IsOpen-IsSwitching :
      (w : OutState F C) (l : List (Entry C)) (x : Entry C)
      → IsOpen w
      → IsSwitching w (l ++ (x ∷ []))
  IsOpen-IsSwitching (idle out) l x u = omega (arith, length-append l (x ∷ []))
  IsOpen-IsSwitching (write f) l x u = omega (arith, length-append l (x ∷ []))
  IsOpen-IsSwitching (switch f codec) l x u = absurd u
  IsOpen-IsSwitching void l x u = absurd u

  new_body-IsWithin :
      (kind : BodyKind) (m : Mode) (b : BodyProgress) (io : ReadBuf)
      → new_body {E = E} kind m ≡ ok b
      → IsWithin b io
  unfolding new_body Chunked.new
  new_body-IsWithin unsupported m b io e = cc
  new_body-IsWithin (fixed x) (buffered_upfront n) b io e = ground arith
  new_body-IsWithin (fixed x) (progressive n) b io e = ground arith
  new_body-IsWithin (fixed x) Mode.hijack b io e = ground arith
  new_body-IsWithin chunked (buffered_upfront n) b io e = ground arith
  new_body-IsWithin chunked (progressive n) b io e = ground arith
  new_body-IsWithin chunked Mode.hijack b io e = ground arith

  start_body-Kept :
      (c : Connection D C F) (io : ReadBuf) (m : Mode) (rc : ResponseConfig) (codec : C)
      (r : Result (ServerError E) BodyProgress) (k : ℕ)
      → IsOpen c.writing
      → IsBuffered m
      → IsServing c
      → ((b : BodyProgress) → r ≡ ok b → IsWithin b io)
      → 5 * (length io.in_buf + to_come c.incoming) + 4 + 2 * length c.waiting < k
      → Kept k (start_body v cfg clock c io m rc codec r)
  start_body-Kept c io m rc codec (err e) k w b s h l = s
  start_body-Kept c io m rc codec (ok pr) k w b s h l =
      (record { fits = (w, b); holds = h pr refl; serves = s }, omega arith, (λ z. l), λ z. refl)

  with_mode-Kept :
      (c : Connection D C F) (io : ReadBuf) (kind : BodyKind) (rc : ResponseConfig) (codec : C)
      (m : Mode) (t : Option ℕ) (k : ℕ)
      → IsOpen c.writing
      → ((n : ℕ) → m ≢ progressive n)
      → IsServing c
      → 5 * (length io.in_buf + to_come c.incoming) + 4 + 2 * length c.waiting < k
      → Kept k (with_mode v cfg clock c io kind rc (codec, record { mode = m; timeout = t }))
  with_mode-Kept c io kind rc codec (buffered_upfront n) t k w np s l =
      start_body-Kept _ io (buffered_upfront n) rc codec (new_body kind (buffered_upfront n)) k w
        (n, refl) s (λ b e. new_body-IsWithin kind (buffered_upfront n) b io e) l
  with_mode-Kept c io kind rc codec (progressive n) t k w np s l = absurd (np n refl)
  with_mode-Kept c io kind rc codec Mode.hijack t k w np s l =
      let len = length-append c.waiting ((rc, codec) ∷ []) in
      (
        record {
          fits = IsOpen-IsSwitching c.writing c.waiting (rc, codec) w;
          holds = tt;
          serves = accept s refl;
        },
        omega arith,
        (λ z. omega arith),
        λ z. refl,
      )

  pub with_head-Kept :
      (c : Connection D C F) (io : ReadBuf) (a : Outcome D C E) (k : ℕ)
      → IsOpen c.writing
      → IsServing c
      → IsOutcome ⦃p = q⦄ io.in_buf c.dispatcher v.headers_received a
      → 5 * (length io.in_buf + to_come c.incoming) + 2 * length c.waiting ≤ k
      → Kept k (with_head v cfg clock c io a)
  with_head-Kept c io (buf, d, err e) k w s h l = s
  with_head-Kept c io (buf, d, ok none) k w s (part, same, kept) l = (
    record { fits = w; holds = tt; serves = s },
    omega (arith, ap length same),
    (λ z. cc),
    λ z. cc,
  )
  with_head-Kept c io (buf, d, ok (some (kind, codec, rc))) k w s
        (raw, bytes, conf, got_it, x, y, dropped, kind_is, closes, is_get) l =
      let (codec', m) = v.recv_mode codec in
      let (lo, hi) = q.request_within _ io.in_buf raw bytes got_it in
      with_mode-Kept (record c { dispatcher = d }) (record io { in_buf = buf }) kind rc codec'
        m.mode m.timeout k w (tame.never_progressive codec) s
        (omega (arith, ap length dropped, length-drop bytes io.in_buf))
