-- ===== src/Server/Hazards.antt =====
-- What src/server/proto.rs does with a codec that is not ready for a whole body.
use minihttp.Base.{
  ℕ, zero, suc, ◌-◌, ◌≤◌, ◌≡◌, refl, ◌∙◌, Bool, true, false, ◌||◌, none, [], length, take, le→leb,
  ok, arith,
}
use minihttp.Buffer.{Buffer}
use minihttp.Chunked.{SizeParser}
use minihttp.BodyProgress.{BodyProgress, ReadBuf, check_buf, parse}
use minihttp.RequestHead.Head.{ResponseConfig, RequestParser}
use minihttp.Server.Config.{Config, Mode, wants_more_than}
use minihttp.Server.State.{Service, BodyState, body, Connection, out_of_fuel}
use minihttp.Server.Reads.{next, limit_of, read_body, dispatch_state, read_rounds}
use minihttp.Server.Requests.{read_rounds-next}

module _ {D C F E : Type 0} ⦃o : Buffer⦄ ⦃p : SizeParser⦄ ⦃q : RequestParser⦄ (v : Service D C F E)
    (cfg : Config) (clock : ℕ → ℕ) where
  abbrev pub whole : ℕ → Mode → ResponseConfig → C → BodyState C
  whole n mode rc codec = record {
    mode = mode;
    progress = BodyProgress.fixed n;
    response_config = rc;
    codec = codec;
  }

  body_not_ready :
      (c : Connection D C F) (io : ReadBuf) (n : ℕ) (mode : Mode) (codec codec' : C)
      (rc : ResponseConfig)
      → n ≤ length io.in_buf
      → wants_more_than mode n ≡ false
      → v.data_received codec (take n io.in_buf) true ≡ (codec', ok none)
      → dispatch_state v cfg clock c io (body (whole n mode rc codec))
        ≡ next (record c { reading = body (whole n mode rc codec') }) io true false
  unfolding dispatch_state read_body parse check_buf
  body_not_ready c io n mode codec codec' rc le few e =
      simp (le→leb n (length io.in_buf) le, e, few)

  -- Where a body of known length is in the buffer as a whole, the mode is not a progressive one
  -- that asks for more bytes than it has, the socket has nothing new and the limit is at least
  -- one: if the codec, in whatever state, is not ready for the body, then the loop of `do_reads`
  -- comes to no end.
  pub read_rounds_never_end :
      (fuel : ℕ) (c : Connection D C F) (io : ReadBuf) (changed : Bool) (n : ℕ) (mode : Mode)
      (codec : C) (rc : ResponseConfig)
      → c.reading ≡ body (whole n mode rc codec)
      → c.incoming ≡ []
      → 1 ≤ cfg.inflight_request_limit
      → n ≤ length io.in_buf
      → wants_more_than mode n ≡ false
      → ((x : C) → (x' : C) × (v.data_received x (take n io.in_buf) true ≡ (x', ok none)))
      → read_rounds v cfg clock fuel c io changed ≡ out_of_fuel
  unfolding limit_of read_rounds
  read_rounds_never_end zero c io changed n mode codec rc r quiet lim le few wait = refl
  read_rounds_never_end (suc fuel) c io changed n mode codec rc r quiet lim le few wait =
      let (codec', e) = wait codec in
      let b = whole n mode rc codec in
      let c' = record c { reading = body (whole n mode rc codec') } in
      read_rounds-next v cfg clock fuel c c' io io changed (body b) (cfg.inflight_request_limit - 1)
        false r quiet (ground arith) (body_not_ready _ io n mode codec codec' rc le few e)
      ∙ read_rounds_never_end fuel c' io (changed || false) n mode codec' rc refl quiet lim le few
          wait
