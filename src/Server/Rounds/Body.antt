-- ===== src/Server/Rounds/Body.antt =====
-- The arm of `Body` in `do_reads`, src/server/proto.rs, in a sound state.
use minihttp.Base.{
  ℕ, ◌+◌, ◌*◌, ◌≤◌, ◌≡◌, refl, Bool, true, false, Option, none, some, [], ◌∷◌, length, take, le→leb,
  ◌==◌, ap, ◌∙◌, Run, panic, returns, Result, ok, err, arith, length-append, length-drop,
  length-take,
}
use minihttp.Buffer.{Buffer}
use minihttp.Chunked.{SizeParser, InvalidChunkSize}
use minihttp.BodyProgress.{BodyProgress, ReadBuf, check_buf}
use minihttp.BodyProgress.Laws.{IsWithin, ParsedWithin, consume_offered}
use minihttp.RequestHead.Head.{RequestParser}
use minihttp.Server.Config.{Config, Mode, buffered_upfront, progressive, wants_at_most}
use minihttp.Server.State.{Service, BodyState, Connection}
use minihttp.Server.Reads.{consumed, delivered, deliver, with_bytes, with_progress}
use minihttp.Server.Queue.{accept, IsServing}
use minihttp.Server.Sound.{IsTame, IsOpen, IsBuffered, to_come}
use minihttp.Server.Rounds.Ends.{Kept, Kept-if}

module _ {D C F E : Type 0} ⦃o : Buffer⦄ ⦃p : SizeParser⦄ ⦃q : RequestParser⦄ (v : Service D C F E)
    (cfg : Config) (clock : ℕ → ℕ) (tame : IsTame v) where
  check_buf-le :
      (b : BodyProgress) (io : ReadBuf) → IsWithin b io → (check_buf b io).0 ≤ length io.in_buf
  unfolding check_buf
  check_buf-le (BodyProgress.fixed x) io h = ground arith
  check_buf-le (BodyProgress.chunked s) io h = h
  check_buf-le BodyProgress.eof io h = omega arith

  consumed-Kept :
      (c : Connection D C F) (b : BodyState C) (pr : BodyProgress) (io : ReadBuf) (k : ℕ)
      → IsOpen c.writing
      → IsServing c
      → 5 * (length io.in_buf + to_come c.incoming) + 4 + 2 * length c.waiting ≤ k
      → Kept k (consumed v cfg clock c b true (returns (pr, io)))
  consumed-Kept c b pr io k w s l =
      let len = length-append c.waiting ((b.response_config, b.codec) ∷ []) in
      (
        record { fits = w; holds = tt; serves = accept s refl },
        omega arith,
        (λ z. omega arith),
        λ z. refl,
      )

  delivered-Kept :
      (c : Connection D C F) (io : ReadBuf) (b : BodyState C) (bytes : ℕ)
      (a : C × Result E (Option ℕ)) (k : ℕ)
      → IsOpen c.writing
      → IsServing c
      → IsWithin b.progress io
      → bytes ≤ (check_buf b.progress io).0
      → ((r : Option ℕ) → a.1 ≡ ok r → r ≡ some bytes)
      → 5 * (length io.in_buf + to_come c.incoming) + 4 + 2 * length c.waiting ≤ k
      → Kept k (delivered v cfg clock c io b bytes true a)
  delivered-Kept c io b bytes (codec, err e) k w s h le all l = s
  delivered-Kept c io b bytes (codec, ok none) k w s h le all l = absurd (none_some (all none refl))
    where
      none_some : ◌≡◌ {A = Option ℕ} none (some bytes) → ⊥
      none_some z = cc
  delivered-Kept c io b bytes (codec, ok (some n)) k w s h le all l =
      let same : n ≡ bytes = some-inj n bytes (all (some n) refl) in
      let (pr, io', e, dropped, x, y) = consume_offered b.progress io n h (omega arith) in
      let whole : (n == bytes) ≡ true = ground arith in
      rw (e, whole)
        (consumed-Kept c (record b { codec = codec }) pr io' k w s
          (omega (arith, ap length dropped, length-drop n io.in_buf)))
    where
      some-inj : (n m : ℕ) → some n ≡ some m → n ≡ m
      some-inj n m z = cc

  deliver-Kept :
      (c : Connection D C F) (io : ReadBuf) (b : BodyState C) (bytes : ℕ) (k : ℕ)
      → IsOpen c.writing
      → IsServing c
      → IsWithin b.progress io
      → bytes ≡ (check_buf b.progress io).0
      → 5 * (length io.in_buf + to_come c.incoming) + 4 + 2 * length c.waiting ≤ k
      → Kept k (deliver v cfg clock c io b bytes true)
  deliver-Kept c io b bytes k w s h e l =
      let fits = check_buf-le b.progress io h in
      let answer = v.data_received b.codec (take bytes io.in_buf) true in
      rw (le→leb bytes (length io.in_buf) (omega arith)) (
        delivered-Kept c io b bytes answer k w s h (omega arith)
          (λ r z.
            tame.takes_all b.codec answer.0 (take bytes io.in_buf) r
              (ap (λ (t : Result E (Option ℕ)). (answer.0, t)) z)
            ∙ ap some (omega (arith, length-take bytes io.in_buf)))
          l)

  with_bytes-Kept :
      (c : Connection D C F) (io : ReadBuf) (b : BodyState C) (bytes : ℕ) (done : Bool) (k : ℕ)
      → IsOpen c.writing
      → IsServing c
      → IsBuffered b.mode
      → IsWithin b.progress io
      → bytes ≡ (check_buf b.progress io).0
      → 5 * (length io.in_buf + to_come c.incoming) + 4 + 2 * length c.waiting ≤ k
      → Kept k (with_bytes v cfg clock c io b (bytes, done))
  with_bytes-Kept c io b bytes true k w s m h e l = deliver-Kept c io b bytes k w s h e l
  with_bytes-Kept c io b bytes false k w s m h e l =
      Kept-if k io.closed _ _ (λ z. s)
        (λ z.
          Kept-if k (wants_at_most b.mode bytes) _ _ (λ y. absurd (not_wanted b.mode m y))
            (λ y.
              (record { fits = (w, m); holds = h; serves = s }, omega arith, (λ x. cc), λ x. cc)))
    where
      not_wanted : (a : Mode) → IsBuffered a → wants_at_most a bytes ≡ true → ⊥
      not_wanted (buffered_upfront n) u z = cc
      not_wanted (progressive n) (n', u) z = cc
      not_wanted Mode.hijack (n', u) z = cc

  pub with_progress-Kept :
      (c : Connection D C F) (io : ReadBuf) (b : BodyState C)
      (a : Run (BodyProgress × ReadBuf × Result InvalidChunkSize (Unit {0}))) (k : ℕ)
      → IsOpen c.writing
      → IsServing c
      → IsBuffered b.mode
      → ParsedWithin io a
      → 5 * (length io.in_buf + to_come c.incoming) + 4 + 2 * length c.waiting ≤ k
      → Kept k (with_progress v cfg clock c b (some a))
  with_progress-Kept c io b panic k w s m h l = refl
  with_progress-Kept c io b (returns (pr, io', err e)) k w s m h l = s
  with_progress-Kept c io b (returns (pr, io', ok u)) k w s m (h, short) l =
      with_bytes-Kept c io' (record b { progress = pr }) (check_buf pr io').0 (check_buf pr io').1 k
        w s m h refl (omega arith)
