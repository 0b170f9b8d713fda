-- ===== src/RequestHead/Accepts.antt =====
-- Which requests `scan_headers` of src/server/headers.rs does not refuse.
use minihttp.Base.{
  ℕ, ◌+◌, ◌≤◌, ◌≡◌, refl, inl, inr, true, false, ◌||◌, some, List, [], ◌∷◌, Bytes, any, All, ok,
  arith, Bool-cases,
}
use minihttp.Utf8.{is_utf8, trim}
use minihttp.HeaderValue.{is_chunked, is_close, is_continue}
use minihttp.RequestTarget.{RequestTarget, parse}
use minihttp.RequestHead.{
  Header, Request, Scan, RequestConfig, parse_u64, Kind, transfer_encoding, content_length,
  connection, host, expect, other, kind_of, fixed, chunked, is_chunked_body, last_part,
  split_commas, joined, with_host, scan_header, scan_all, initial, config_of, scan_target,
  scan_headers,
}
use minihttp.RequestHead.Laws.{
  is_length, is_host, is_length_kind, is_host_kind, count, flag, scan_header-Flags,
}

-- A value that the kind of its header allows.
abbrev pub IsWellFormed : Kind → Bytes → Type 0
IsWellFormed content_length value = (is_utf8 value ≡ true) × (n : ℕ) × (parse_u64 value ≡ some n)
IsWellFormed connection value = is_utf8 value ≡ true
IsWellFormed host value = is_utf8 value ≡ true
IsWellFormed _ value = Unit {0}

abbrev pub IsGoodHeader : Header → Type 0
IsGoodHeader h = IsWellFormed (kind_of h) h.value

scan_header-IsWellFormed :
    (k : Kind) (value : Bytes) (s : Scan)
    → IsWellFormed k value
    → flag s.has_content_length + flag (is_length_kind k) ≤ 1
    → flag s.host_header + flag (is_host_kind k) ≤ 1
    → (s' : Scan) × (scan_header k value s ≡ ok s')
unfolding scan_header
scan_header-IsWellFormed transfer_encoding value s w l h =
    elim (Bool-cases (is_chunked (last_part (split_commas value)))) [
      | inl yes' ↦ (record s { close = s.close || s.has_content_length; body = chunked }, rw yes')
      | inr no' ↦ (s, rw no')
    ]
scan_header-IsWellFormed content_length value s (u, n, e) l h =
    let fresh : s.has_content_length ≡ false = ground arith in
    elim (Bool-cases (is_chunked_body s.body)) [
      | inl c ↦ (record s { has_content_length = true; close = true }, rw (fresh, c))
      | inr c ↦ (record s { has_content_length = true; body = fixed n }, rw (fresh, c, u, e))
    ]
scan_header-IsWellFormed connection value s w l h = (
  record s {
    connection = some (joined s.connection (trim value));
    close = s.close || any is_close (split_commas value);
  },
  rw w,
)
scan_header-IsWellFormed host value s w l h =
    let fresh : s.host_header ≡ false = ground arith in
    (with_host s s.host (trim value), rw (fresh, w))
scan_header-IsWellFormed expect value s w l h =
    (record s { expect_continue = s.expect_continue || is_continue value }, refl)
scan_header-IsWellFormed other value s w l h = (s, refl)

scan_all-IsGoodHeader :
    (hs : List Header) (s : Scan)
    → All IsGoodHeader hs
    → flag s.has_content_length + count is_length hs ≤ 1
    → flag s.host_header + count is_host hs ≤ 1
    → (s' : Scan) × (scan_all hs s ≡ ok s')
unfolding scan_all
scan_all-IsGoodHeader [] s w l h = (s, refl)
scan_all-IsGoodHeader (x ∷ hs) s (w, ws) l h =
    let (t, first) =
      scan_header-IsWellFormed (kind_of x) x.value s w (ground arith) (ground arith) in
    let (a, b, c, d, l', h') = scan_header-Flags (kind_of x) x.value s t first in
    let (s', later) = scan_all-IsGoodHeader hs t ws (ground arith) (ground arith) in
    (s', rw (first, scan_all) later)

-- A request whose target parses, with at most one Content-Length and one Host header, with a
-- decimal u64 in Content-Length and valid UTF-8 in Connection and Host, is accepted.
pub scan_headers-IsGoodHeader :
    (r : Request) (t : RequestTarget)
    → parse r.path ≡ some t
    → All IsGoodHeader r.headers
    → count is_length r.headers ≤ 1
    → count is_host r.headers ≤ 1
    → (c : RequestConfig) × (scan_headers r ≡ ok c)
unfolding scan_headers scan_target
scan_headers-IsGoodHeader r t good w l h =
    let (s, accepted) =
      scan_all-IsGoodHeader r.headers (initial r.version t) w (omega arith) (omega arith) in
    (config_of r.method t s, rw (good, accepted))
