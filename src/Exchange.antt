-- ===== src/Exchange.antt =====
-- A request and its response: src/server/headers.rs, src/server/encoder.rs and
-- src/base_serializer.rs together.
mod Examples
use minihttp.Base.{
  ℕ, ◌≤◌, ◌≡◌, ◌≢◌, refl, ap, ◌∙◌, Bool, true, false, ◌||◌, List, [], ◌∷◌, ◌++◌, Bytes, length,
  concat, All, ◌==◌, if◌then◌else◌, returns, ok, arith,
}
use minihttp.Base.Ascii.{codes, bytes_eq}
use minihttp.Buffer.{Buffer}
use minihttp.Version.{Version, http10, http11}
use minihttp.Serializer.State.{response_start, normal, done}
use minihttp.Serializer.Head.{crlf, is_bodyless_code, status_line}
use minihttp.Serializer.Trace.{status, length_of, end_of_headers, run}
use minihttp.Serializer.Wire.{whole_body}
use minihttp.Serializer.Wire.Response.{
  IsValidHeader, header_calls, header_lines, close_line, length_line, run_fixed_response,
}
use minihttp.RequestHead.{Request, RequestConfig, scan_headers}
use minihttp.RequestHead.Config.{scan_headers-close}
use minihttp.RequestHead.Head.{config_from, head_of, first_state}

-- The version that a response to the request has.
abbrev pub answered_version : Request → Version
answered_version raw = if raw.version == 1 then http11 else http10

first_state-head_of :
    (raw : Request) (conf : RequestConfig)
    → scan_headers raw ≡ ok conf
    → raw.version ≤ 1
    → bytes_eq raw.method (codes "HEAD") ≡ false
    → first_state (config_from (head_of raw conf))
      ≡ response_start (answered_version raw) normal conf.connection_close
unfolding first_state config_from head_of
first_state-head_of raw conf scan v m =
    let closes = (scan_headers-close raw conf scan).0 in ground (arith, closes)

module _ ⦃o : Buffer⦄ where
  -- For an accepted request of version 1.0 or 1.1 whose method is not HEAD, and a response with a
  -- code that is neither 100 nor bodyless, headers that `add_header` accepts and a body of
  -- announced length, the calls of the encoder do not panic, and append the whole response in the
  -- version of the request, with `Connection: close` exactly if `scan_headers` found that the
  -- connection is to be closed.
  pub run-first_state :
      (raw : Request) (conf : RequestConfig) (buf : Bytes) (code : ℕ) (reason : Bytes)
      (hs : List (Bytes × Bytes)) (ds : List Bytes)
      → scan_headers raw ≡ ok conf
      → raw.version ≤ 1
      → bytes_eq raw.method (codes "HEAD") ≡ false
      → code ≢ 100
      → is_bodyless_code code ≡ false
      → All IsValidHeader hs
      → run
          (status code reason
            ∷ header_calls hs (length_of (length (concat ds)) ∷ end_of_headers ∷ whole_body ds))
          (first_state (config_from (head_of raw conf)))
          buf
        ≡ returns (
          done,
          buf
              ++ status_line (answered_version raw) code reason
              ++ header_lines hs
              ++ length_line (length (concat ds))
              ++ (close_line conf.connection_close ++ crlf)
              ++ concat ds,
        )
  run-first_state raw conf buf code reason hs ds scan v m c b valid =
      rw (first_state-head_of raw conf scan v m) (
        run_fixed_response (answered_version raw) conf.connection_close buf code reason hs ds c b
          valid)
