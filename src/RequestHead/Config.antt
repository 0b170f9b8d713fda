-- ===== src/RequestHead/Config.antt =====
-- The answer of `scan_headers`, src/server/headers.rs, against a description of it by the headers.
use minihttp.Base.{
  ℕ, ◌≤◌, ◌≡◌, refl, inl, inr, Bool, false, not, ◌&&◌, ◌||◌, Option, none, some, List, [], ◌∷◌,
  Bytes, any, ◌==◌, if◌then◌else◌, ok, arith, Option-cases,
}
use minihttp.Base.Ascii.{bytes_eq}
use minihttp.Utf8.{trim}
use minihttp.RequestTarget.{RequestTarget, parse}
use minihttp.RequestHead.{
  Header, Request, BodyKind, fixed, chunked, Scan, RequestConfig, parse_u64, Kind,
  transfer_encoding, content_length, connection, host, expect, other, kind_of, is_chunked_body,
  scan_header, scan_all, target_host, initial, config_of, scan_target, scan_headers,
}
use minihttp.RequestHead.Laws.{
  is_length, is_host, says_chunked, says_close, says_continue, is_length_kind, is_host_kind,
  asks_chunked, count, scan_header-Flags, Result-cases, scan_all-cons, scan_all-AllFlags,
}

-- The value of the first header of a kind.
abbrev pub value_of : (Header → Bool) → List Header → Option Bytes
value_of f [] = none
value_of f (h ∷ hs) = if f h then some h.value else value_of f hs

abbrev pub fixed_of : Option ℕ → Option BodyKind
fixed_of none = none
fixed_of (some n) = some (fixed n)

-- The body that a Content-Length announces, if there is one.
abbrev pub announced : BodyKind → Option Bytes → Option BodyKind
announced b none = some b
announced b (some value) = fixed_of (parse_u64 value)

abbrev pub chosen_host : Option Bytes → Option Bytes → Option Bytes
chosen_host (some x) value = some x
chosen_host none none = none
chosen_host none (some value) = some (trim value)

abbrev pub hosts_differ : Option Bytes → Option Bytes → Bool
hosts_differ (some x) (some value) = not (bytes_eq x (trim value))
hosts_differ _ _ = false

value_of-none : (f : Header → Bool) (hs : List Header) → count f hs ≡ 0 → value_of f hs ≡ none
value_of-none f [] h = refl
value_of-none f (x ∷ hs) h = ground (arith, value_of-none f hs)

-- What one header changes of the body and the host.
abbrev Values : Kind → Bytes → Scan → Scan → Type 0
Values k value s s' =
    (some s'.body ≡ (
      if is_chunked_body s.body || asks_chunked k value
      then some chunked
      else announced s.body (if is_length_kind k then some value else none)))
    × (s'.host ≡ chosen_host s.host (if is_host_kind k then some value else none))
    × (s'.conflicting_host
        ≡ (s.conflicting_host || hosts_differ s.host (if is_host_kind k then some value else none)))

scan_header-Values :
    (k : Kind) (value : Bytes) (s s' : Scan) → scan_header k value s ≡ ok s' → Values k value s s'
unfolding scan_header
scan_header-Values transfer_encoding value s s' e = ground arith
scan_header-Values content_length value s s' e = ground arith
scan_header-Values connection value s s' e = ground arith
scan_header-Values host value s s' e = ground arith
scan_header-Values expect value s s' e = ground arith
scan_header-Values other value s s' e = ground arith

abbrev AllValues : List Header → Scan → Scan → Type 0
AllValues hs s s' =
    (some s'.body ≡ (
      if is_chunked_body s.body || any says_chunked hs
      then some chunked
      else announced s.body (value_of is_length hs)))
    × (s'.host ≡ chosen_host s.host (value_of is_host hs))
    × (s'.conflicting_host ≡ (s.conflicting_host || hosts_differ s.host (value_of is_host hs)))

scan_all-AllValues :
    (hs : List Header) (s s' : Scan)
    → (is_chunked_body s.body && s.has_content_length && not s.close) ≡ false
    → scan_all hs s ≡ ok s'
    → AllValues hs s s'
scan_all-AllValues [] s s' safe e = unfold scan_all in ground arith
scan_all-AllValues (h ∷ hs) s s' safe e =
    let (t, first, later) = scan_all-cons h hs s s' e in
    let (a, b, c, d, l, o) = scan_header-Flags (kind_of h) h.value s t first in
    let (x, y, z) = scan_header-Values (kind_of h) h.value s t first in
    let safe' : (is_chunked_body t.body && t.has_content_length && not t.close) ≡ false =
      ground arith in
    let (p, q, r, u) = scan_all-AllFlags hs t s' safe' later in
    let (p', q', r') = scan_all-AllValues hs t s' safe' later in
    let no_length = value_of-none is_length hs in
    let no_host = value_of-none is_host hs in
    (ground (arith, no_length), ground (arith, no_host), ground (arith, no_host))

-- What is known of an accepted request.
scan_headers-split :
    (r : Request) (c : RequestConfig)
    → scan_headers r ≡ ok c
    → (t : RequestTarget) × (s : Scan) × (parse r.path ≡ some t)
      × (scan_all r.headers (initial r.version t) ≡ ok s)
      × (config_of r.method t s ≡ c)
unfolding scan_headers scan_target
scan_headers-split r c e = elim (Option-cases (parse r.path)) [
  | inl bad ↦ absurd (ground arith)
  | inr (t, good) ↦ elim (Result-cases (scan_all r.headers (initial r.version t))) [
    | inl (x, refused) ↦ absurd (ground arith)
    | inr (s, accepted) ↦ (t, s, good, accepted, ground arith)
  ]
]

pub scan_headers-close :
    (r : Request) (c : RequestConfig)
    → scan_headers r ≡ ok c
    → (c.connection_close ≡ (
        r.version == 0
        || any says_close r.headers
        || (any says_chunked r.headers && any is_length r.headers)))
      × (c.expect_continue ≡ any says_continue r.headers)
scan_headers-close r c e =
    let (t, s, good, accepted, same) = scan_headers-split r c e in
    let (p, q, l, h) = scan_all-AllFlags r.headers (initial r.version t) s refl accepted in
    rw (← same) (p, q)

-- If `scan_headers` accepts a request, it has at most one Content-Length header and at most one
-- Host header.
pub scan_headers-count :
    (r : Request) (c : RequestConfig)
    → scan_headers r ≡ ok c
    → (count is_length r.headers ≤ 1) × (count is_host r.headers ≤ 1)
scan_headers-count r c e =
    let (t, s, good, accepted, same) = scan_headers-split r c e in
    let (p, q, l, h) = scan_all-AllFlags r.headers (initial r.version t) s refl accepted in
    (omega arith, omega arith)

-- If `scan_headers` accepts a request, its target is the parsed path, its host is the authority of
-- the target or else the trimmed value of the Host header, and the host is in conflict exactly if
-- both are there and differ.
pub scan_headers-host :
    (r : Request) (c : RequestConfig)
    → scan_headers r ≡ ok c
    → (parse r.path ≡ some c.target)
      × (c.host ≡ chosen_host (target_host c.target) (value_of is_host r.headers))
      × (c.conflicting_host ≡ hosts_differ (target_host c.target) (value_of is_host r.headers))
scan_headers-host r c e =
    let (t, s, good, accepted, same) = scan_headers-split r c e in
    let (b, h, d) = scan_all-AllValues r.headers (initial r.version t) s refl accepted in
    rw (← same) (good, h, d)
