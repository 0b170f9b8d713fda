-- ===== src/RequestHead/Laws.antt =====
-- How the headers of a request decide its body, its host and the end of the connection,
-- src/server/headers.rs.
use minihttp.Base.{
  ℕ, ◌+◌, ◌≤◌, ◌≡◌, refl, ◌⊎◌, inl, inr, Bool, true, false, not, ◌&&◌, ◌||◌, List, [], ◌∷◌, Bytes,
  any, if◌then◌else◌, Result, ok, err, arith,
}
use minihttp.HeaderValue.{is_close, is_chunked, is_continue}
use minihttp.RequestHead.{
  Header, HeadError, Scan, split_commas, last_part, Kind, transfer_encoding, content_length,
  connection, host, expect, other, kind_of, is_chunked_body, scan_header, scan_all,
}

abbrev pub is_length_kind : Kind → Bool
is_length_kind content_length = true
is_length_kind _ = false

abbrev pub is_host_kind : Kind → Bool
is_host_kind host = true
is_host_kind _ = false

-- A Transfer-Encoding whose last coding is `chunked`.
abbrev pub asks_chunked : Kind → Bytes → Bool
asks_chunked transfer_encoding value = is_chunked (last_part (split_commas value))
asks_chunked _ value = false

abbrev pub asks_close : Kind → Bytes → Bool
asks_close connection value = any is_close (split_commas value)
asks_close _ value = false

abbrev pub asks_continue : Kind → Bytes → Bool
asks_continue expect value = is_continue value
asks_continue _ value = false

abbrev pub is_length : Header → Bool
is_length h = is_length_kind (kind_of h)

abbrev pub is_host : Header → Bool
is_host h = is_host_kind (kind_of h)

abbrev pub says_chunked : Header → Bool
says_chunked h = asks_chunked (kind_of h) h.value

abbrev pub says_close : Header → Bool
says_close h = asks_close (kind_of h) h.value

abbrev pub says_continue : Header → Bool
says_continue h = asks_continue (kind_of h) h.value

abbrev pub count : (Header → Bool) → List Header → ℕ
count f [] = 0
count f (h ∷ hs) = (if f h then 1 else 0) + count f hs

abbrev pub flag : Bool → ℕ
flag true = 1
flag false = 0

-- What one header changes of the flags.
abbrev pub Flags : Kind → Bytes → Scan → Scan → Type 0
Flags k value s s' =
    (s'.has_content_length ≡ (s.has_content_length || is_length_kind k))
    × (is_chunked_body s'.body ≡ (is_chunked_body s.body || asks_chunked k value))
    × (s'.close ≡ (
        s.close
        || asks_close k value
        || (asks_chunked k value && s.has_content_length)
        || (is_length_kind k && is_chunked_body s.body)))
    × (s'.expect_continue ≡ (s.expect_continue || asks_continue k value))
    × (flag s.has_content_length + flag (is_length_kind k) ≡ flag s'.has_content_length)
    × (flag s.host_header + flag (is_host_kind k) ≡ flag s'.host_header)

pub scan_header-Flags :
    (k : Kind) (value : Bytes) (s s' : Scan) → scan_header k value s ≡ ok s' → Flags k value s s'
unfolding scan_header
scan_header-Flags transfer_encoding value s s' e = ground arith
scan_header-Flags content_length value s s' e = ground arith
scan_header-Flags connection value s s' e = ground arith
scan_header-Flags host value s s' e = ground arith
scan_header-Flags expect value s s' e = ground arith
scan_header-Flags other value s s' e = ground arith

pub Result-cases :
    {A : Type 0} (r : Result HeadError A) → ((e : HeadError) × (r ≡ err e)) ⊎ ((a : A) × (r ≡ ok a))
Result-cases (err e) = inl (e, refl)
Result-cases (ok a) = inr (a, refl)

-- The first header of an accepted list.
pub scan_all-cons :
    (h : Header) (hs : List Header) (s s' : Scan)
    → scan_all (h ∷ hs) s ≡ ok s'
    → (t : Scan) × (scan_header (kind_of h) h.value s ≡ ok t) × (scan_all hs t ≡ ok s')
unfolding scan_all
scan_all-cons h hs s s' e = elim (Result-cases (scan_header (kind_of h) h.value s)) [
  | inl (x, bad) ↦ absurd (ground arith)
  | inr (t, good) ↦ (t, good, rw (good, scan_all) at e)
]

-- The flags after all headers.
abbrev pub AllFlags : List Header → Scan → Scan → Type 0
AllFlags hs s s' =
    (s'.close ≡ (
      s.close
      || any says_close hs
      || ((is_chunked_body s.body || any says_chunked hs)
          && (s.has_content_length || any is_length hs))))
    × (s'.expect_continue ≡ (s.expect_continue || any says_continue hs))
    × (flag s.has_content_length + count is_length hs ≤ 1)
    × (flag s.host_header + count is_host hs ≤ 1)

pub scan_all-AllFlags :
    (hs : List Header) (s s' : Scan)
    → (is_chunked_body s.body && s.has_content_length && not s.close) ≡ false
    → scan_all hs s ≡ ok s'
    → AllFlags hs s s'
scan_all-AllFlags [] s s' safe e = unfold scan_all in ground arith
scan_all-AllFlags (h ∷ hs) s s' safe e =
    let (t, first, later) = scan_all-cons h hs s s' e in
    let (a, b, c, d, l, o) = scan_header-Flags (kind_of h) h.value s t first in
    let (p, q, r, u) = scan_all-AllFlags hs t s' (ground arith) later in
    (ground arith, ground arith, ground arith, ground arith)
