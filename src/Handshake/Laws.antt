-- ===== src/Handshake/Laws.antt =====
-- Which requests are handshakes, src/server/websocket.rs.
use minihttp.Base.{
  ◌+◌, ◌≡◌, refl, ◌⊎◌, inl, inr, Bool, true, false, ◌||◌, Option, none, some, List, [], ◌∷◌, Bytes,
  any, all, if◌then◌else◌, ok, arith,
}
use minihttp.Base.Ascii.{codes, eq_ignore_ascii_case, bytes_eq}
use minihttp.RequestHead.{Header}
use minihttp.RequestHead.Head.{Head, path, has_body}
use minihttp.RequestHead.Laws.{count, flag}
use minihttp.RequestHead.Config.{value_of}
use minihttp.Handshake.Keys.{Sha1, from_key_bytes}
use minihttp.Handshake.Upgrade.{
  WebsocketHandshake, bytes_trim, Scan, Kind, key, version, protocol, extensions, upgrade, other,
  kind_of, Step, go_on, not_websocket, refused, is_some, scan_header, scan_all, initial,
  asks_upgrade, has_path, get_handshake,
}

abbrev pub is_key_kind : Kind → Bool
is_key_kind key = true
is_key_kind _ = false

abbrev pub is_version_kind : Kind → Bool
is_version_kind version = true
is_version_kind _ = false

abbrev pub is_upgrade_kind : Kind → Bool
is_upgrade_kind upgrade = true
is_upgrade_kind _ = false

abbrev pub is_key : Header → Bool
is_key h = is_key_kind (kind_of h)

abbrev pub is_version : Header → Bool
is_version h = is_version_kind (kind_of h)

abbrev pub is_upgrade : Header → Bool
is_upgrade h = is_upgrade_kind (kind_of h)

-- A header of the handshake has the value that it must have.
abbrev pub good_value : Kind → Bytes → Bool
good_value version value = bytes_eq (bytes_trim value) (codes "13")
good_value upgrade value = eq_ignore_ascii_case value (codes "websocket")
good_value _ value = true

abbrev pub is_good : Header → Bool
is_good h = good_value (kind_of h) h.value

abbrev pub accept_of : ⦃h : Sha1⦄ → Option Bytes → Option Bytes
accept_of none = none
accept_of (some value) = some (from_key_bytes (bytes_trim value))

abbrev first_of : Option Bytes → Option Bytes → Option Bytes
first_of none b = b
first_of (some a) b = some a

module _ ⦃h : Sha1⦄ where
  -- What one header changes.
  abbrev Changes : Kind → Bytes → Scan → Scan → Type 0
  Changes k value s s' =
      (good_value k value ≡ true)
      × (s'.upgrade ≡ (s.upgrade || is_upgrade_kind k))
      × (s'.version ≡ (s.version || is_version_kind k))
      × (s'.accept ≡ first_of s.accept (accept_of (if is_key_kind k then some value else none)))
      × (flag (is_some s.accept) + flag (is_key_kind k) ≡ flag (is_some s'.accept))

  scan_header-Changes :
      (k : Kind) (value : Bytes) (s s' : Scan)
      → scan_header k value s ≡ go_on s'
      → Changes k value s s'
  unfolding scan_header
  scan_header-Changes key value s s' e = ground arith
  scan_header-Changes version value s s' e = ground arith
  scan_header-Changes protocol value s s' e = ground arith
  scan_header-Changes extensions value s s' e = ground arith
  scan_header-Changes upgrade value s s' e = ground arith
  scan_header-Changes other value s s' e = ground arith

  Step-cases : (r : Step) → ((s : Scan) × (r ≡ go_on s)) ⊎ ((r ≡ not_websocket) ⊎ (r ≡ refused))
  Step-cases (go_on s) = inl (s, refl)
  Step-cases not_websocket = inr (inl refl)
  Step-cases refused = inr (inr refl)

  scan_all-cons :
      (x : Header) (xs : List Header) (s s' : Scan)
      → scan_all (x ∷ xs) s ≡ go_on s'
      → (t : Scan) × (scan_header (kind_of x) x.value s ≡ go_on t) × (scan_all xs t ≡ go_on s')
  unfolding scan_all
  scan_all-cons x xs s s' e = elim (Step-cases (scan_header (kind_of x) x.value s)) [
    | inl (t, good) ↦ (t, good, rw (good, scan_all) at e)
    | inr (inl bad) ↦ absurd (ground arith)
    | inr (inr bad) ↦ absurd (ground arith)
  ]

  abbrev AllChanges : List Header → Scan → Scan → Type 0
  AllChanges xs s s' =
      (all is_good xs ≡ true)
      × (s'.upgrade ≡ (s.upgrade || any is_upgrade xs))
      × (s'.version ≡ (s.version || any is_version xs))
      × (s'.accept ≡ first_of s.accept (accept_of (value_of is_key xs)))
      × (flag (is_some s.accept) + count is_key xs ≡ flag (is_some s'.accept))

  scan_all-AllChanges :
      (xs : List Header) (s s' : Scan) → scan_all xs s ≡ go_on s' → AllChanges xs s s'
  scan_all-AllChanges [] s s' e = unfold scan_all in ground arith
  scan_all-AllChanges (x ∷ xs) s s' e =
      let (t, first, later) = scan_all-cons x xs s s' e in
      let (a, b, c, d, l) = scan_header-Changes (kind_of x) x.value s t first in
      let (a', b', c', d', l') = scan_all-AllChanges xs t s' later in
      (ground arith, ground arith, ground arith, ground arith, ground arith)

  -- If `get_handshake` gives a handshake, then the Connection header lists `upgrade`, the request
  -- has a path and no body, an Upgrade header and a version header are there, all of the former
  -- say `websocket` and all of the latter say `13`, there is exactly one key header, and the
  -- answer to it is that of its trimmed value.
  pub get_handshake-accepts :
      (req : Head) (w : WebsocketHandshake)
      → get_handshake req ≡ ok (some w)
      → (asks_upgrade req.connection_header ≡ true)
        × (has_path (path req) ≡ true)
        × (has_body req ≡ false)
        × (any is_upgrade req.headers ≡ true)
        × (any is_version req.headers ≡ true)
        × (all is_good req.headers ≡ true)
        × (count is_key req.headers ≡ 1)
        × (some w.accept ≡ accept_of (value_of is_key req.headers))
  unfolding get_handshake
  get_handshake-accepts req w e = elim (Step-cases (scan_all req.headers initial)) [
    | inr (inl bad) ↦ absurd (ground arith)
    | inr (inr bad) ↦ absurd (ground arith)
    | inl (s, good) ↦
        let (a, b, c, d, l) = scan_all-AllChanges req.headers initial s good in
        (
          ground arith,
          ground arith,
          ground arith,
          ground arith,
          ground arith,
          ground arith,
          ground arith,
          ground arith,
        )
  ]
