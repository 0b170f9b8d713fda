-- ===== src/RequestHead/Reading.antt =====
-- What `parse_headers` of src/server/headers.rs gives.
use minihttp.Base.{ℕ, ◌≡◌, refl, sym, ◌∙◌, none, some, Bytes, drop, Result, ok, err, arith}
use minihttp.Base.Ascii.{codes, bytes_eq}
use minihttp.Buffer.{Buffer}
use minihttp.RequestHead.{Request, HeadError, RequestConfig, scan_headers}
use minihttp.RequestHead.Config.{scan_headers-close}
use minihttp.RequestHead.Head.{
  ParseError, too_many_headers, malformed, ParseStatus, whole, partial, RequestParser, max_headers,
  min_headers, config_from, head_of, Dispatcher, Outcome, with_more_room, read_request, accepted,
  scanned, after_read, parse_headers,
}

module _ ⦃p : RequestParser⦄ where
  -- The small array is only a matter of speed.
  read_request_lem : (buf : Bytes) → read_request buf ≡ p.parse_request max_headers buf
  unfolding read_request
  read_request_lem buf = by_first (p.parse_request min_headers buf) refl
    where
      by_first :
          (r : Result ParseError ParseStatus)
          → p.parse_request min_headers buf ≡ r
          → with_more_room buf r ≡ p.parse_request max_headers buf
      by_first (err too_many_headers) e = refl
      by_first (err malformed) e =
          sym (p.more_room min_headers max_headers buf (omega arith) (λ q. cc) ∙ e)
      by_first (ok x) e = sym (p.more_room min_headers max_headers buf (omega arith) (λ q. cc) ∙ e)

-- The outcomes of `parse_headers`: all that was read was accepted, or the buffer is untouched.
abbrev pub IsOutcome :
    ⦃p : RequestParser⦄ → {D C E : Type 0} → Bytes → D → Dispatcher D C E → Outcome D C E → Type 0
IsOutcome ⦃p⦄ buf d disp (buf', d', ok (some (body, c, cfg))) =
    (raw : Request) × (bytes : ℕ) × (conf : RequestConfig) × (p.parse_request max_headers buf
      ≡ ok (whole raw bytes))
    × (scan_headers raw ≡ ok conf)
    × (disp d (head_of raw conf) ≡ (d', ok c))
    × (buf' ≡ drop bytes buf)
    × (body ≡ conf.body)
    × (cfg.do_close ≡ conf.connection_close)
    × (cfg.is_head ≡ bytes_eq raw.method (codes "HEAD"))
IsOutcome ⦃p⦄ buf d disp (buf', d', ok none) =
    (p.parse_request max_headers buf ≡ ok partial) × (buf' ≡ buf) × (d' ≡ d)
IsOutcome buf d disp (buf', d', err e) = buf' ≡ buf

module _ ⦃o : Buffer⦄ ⦃p : RequestParser⦄ {D C E : Type 0} (buf : Bytes) (d : D)
    (disp : Dispatcher D C E) where
  accepted-IsOutcome :
      (raw : Request) (bytes : ℕ) (conf : RequestConfig) (a : D × Result E C)
      → p.parse_request max_headers buf ≡ ok (whole raw bytes)
      → scan_headers raw ≡ ok conf
      → disp d (head_of raw conf) ≡ a
      → IsOutcome buf d disp (accepted buf bytes (head_of raw conf) a)
  unfolding config_from head_of
  accepted-IsOutcome raw bytes conf (d', err e) whole_request scan answer = refl
  accepted-IsOutcome raw bytes conf (d', ok c) whole_request scan answer = (
    raw,
    bytes,
    conf,
    whole_request,
    scan,
    answer,
    o.consume_drops buf bytes (p.request_within max_headers buf raw bytes whole_request).1,
    refl,
    ground (arith, (scan_headers-close raw conf scan).0),
    refl,
  )

  scanned-IsOutcome :
      (raw : Request) (bytes : ℕ) (r : Result HeadError RequestConfig)
      → p.parse_request max_headers buf ≡ ok (whole raw bytes)
      → scan_headers raw ≡ r
      → IsOutcome buf d disp (scanned buf d disp raw bytes r)
  scanned-IsOutcome raw bytes (err e) whole_request scan = refl
  scanned-IsOutcome raw bytes (ok conf) whole_request scan =
      accepted-IsOutcome raw bytes conf (disp d (head_of raw conf)) whole_request scan refl

  after_read-IsOutcome :
      (r : Result ParseError ParseStatus)
      → p.parse_request max_headers buf ≡ r
      → IsOutcome buf d disp (after_read buf d disp r)
  after_read-IsOutcome (err e) read = refl
  after_read-IsOutcome (ok partial) read = (read, refl, refl)
  after_read-IsOutcome (ok (whole raw bytes)) read =
      scanned-IsOutcome raw bytes (scan_headers raw) read refl

  -- If `parse_headers` gives a request, then httparse reads it with room for 1024 headers,
  -- `scan_headers` and then the dispatcher accept it, exactly the bytes of the head leave the
  -- buffer, the kind of body is that of `scan_headers`, the response closes the connection as
  -- `scan_headers` says and is one to HEAD exactly for that method. If it waits for more, the
  -- request is incomplete, and buffer and dispatcher are untouched. On an error the buffer is
  -- untouched.
  pub parse_headers-IsOutcome : IsOutcome buf d disp (parse_headers buf d disp)
  unfolding parse_headers
  parse_headers-IsOutcome = after_read-IsOutcome (read_request buf) (sym (read_request_lem buf))
