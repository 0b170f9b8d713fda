-- ===== src/Handshake/Upgrade.antt =====
-- `get_handshake` of src/server/websocket.rs.
use minihttp.Base.{
  Bool, true, false, not, ◌&&◌, Option, none, some, List, [], ◌∷◌, ◌++◌, Bytes, length, any, map,
  ltb, if◌then◌else◌, Result, ok, err,
}
use minihttp.Base.Ascii.{codes, eq_ignore_ascii_case, bytes_eq, is_blank}
use minihttp.Utf8.{is_utf8, trim}
use minihttp.RequestHead.{Header, split_commas}
use minihttp.RequestHead.Head.{Head, path, has_body}
use minihttp.Handshake.Keys.{Sha1, from_key_bytes}

pub record WebsocketHandshake : Type 0 where
  pub accept : Bytes
  pub protocols : List Bytes
  pub extensions : List Bytes

abbrev is_empty : Bytes → Bool
is_empty [] = true
is_empty (x ∷ xs) = false

-- The first loop of `bytes_trim`, and the second one, which takes blanks from the end.
unfoldable pub trim_start : Bytes → Bytes
trim_start [] = []
trim_start (x ∷ xs) = let rest = trim_start xs in if is_blank x then rest else x ∷ xs

unfoldable pub trim_end : Bytes → Bytes
trim_end [] = []
trim_end (x ∷ xs) = let rest = trim_end xs in if is_blank x && is_empty rest then [] else x ∷ rest

unfoldable pub bytes_trim : Bytes → Bytes
bytes_trim x = trim_end (trim_start x)

-- `filter(|x| x.len() > 0)`
abbrev pub keep_filled : List Bytes → List Bytes
keep_filled [] = []
keep_filled (x ∷ xs) = let rest = keep_filled xs in if ltb 0 (length x) then x ∷ rest else rest

unfoldable pub tokens : Bytes → List Bytes
tokens value = keep_filled (map trim (split_commas value))

-- The variables of the loop.
pub record Scan : Type 0 where
  pub upgrade : Bool
  pub version : Bool
  pub accept : Option Bytes
  pub protocols : List Bytes
  pub extensions : List Bytes

-- The arms of the `if` over the name of a header.
pub data Kind : Type 0 where
  key version protocol extensions upgrade other : Kind

unfoldable pub kind_of : Header → Kind
kind_of h =
    if eq_ignore_ascii_case h.name (codes "Sec-WebSocket-Key")
    then key
    else if eq_ignore_ascii_case h.name (codes "Sec-WebSocket-Version")
    then version
    else if eq_ignore_ascii_case h.name (codes "Sec-WebSocket-Protocol")
    then protocol
    else if eq_ignore_ascii_case h.name (codes "Sec-WebSocket-Extensions")
    then extensions
    else if eq_ignore_ascii_case h.name (codes "Upgrade")
    then upgrade
    else other

-- How the body of the loop ends: with the next header, with `return Ok(None)`, or with
-- `return Err(())`.
pub data Step : Type 0 where
  go_on : Scan → Step
  not_websocket refused : Step

abbrev pub is_some : Option Bytes → Bool
is_some none = false
is_some (some x) = true

unfoldable pub scan_header : ⦃h : Sha1⦄ → Kind → Bytes → Scan → Step
scan_header key value s =
    if is_some s.accept
    then refused
    else go_on (record s { accept = some (from_key_bytes (bytes_trim value)) })
scan_header version value s =
    if bytes_eq (bytes_trim value) (codes "13")
    then go_on (record s { version = true })
    else refused
scan_header protocol value s =
    if is_utf8 value then go_on (record s { protocols = s.protocols ++ tokens value }) else refused
scan_header extensions value s =
    if is_utf8 value
    then go_on (record s { extensions = s.extensions ++ tokens value })
    else refused
scan_header upgrade value s =
    if eq_ignore_ascii_case value (codes "websocket")
    then go_on (record s { upgrade = true })
    else not_websocket
scan_header other value s = go_on s

unfoldable pub scan_all : ⦃h : Sha1⦄ → List Header → Scan → Step
scan_all [] s = go_on s
scan_all (x ∷ xs) s = elim (scan_header (kind_of x) x.value s) [
  | go_on s' ↦ scan_all xs s'
  | not_websocket ↦ not_websocket
  | refused ↦ refused
]

abbrev pub initial : Scan
initial = record {
  upgrade = false;
  version = false;
  accept = none;
  protocols = [];
  extensions = [];
}

-- `connection_header().map(..).unwrap_or(false)`
unfoldable pub asks_upgrade : Option Bytes → Bool
asks_upgrade none = false
asks_upgrade (some conn) =
    any (λ tok. eq_ignore_ascii_case tok (codes "upgrade")) (map trim (split_commas conn))

abbrev pub Answer : Type 0
Answer = Result (Unit {0}) (Option WebsocketHandshake)

-- The tests behind the loop.
abbrev pub with_accept : Scan → Option Bytes → Answer
with_accept s none = err tt
with_accept s (some a) =
    if not s.version
    then err tt
    else ok (some (record { accept = a; protocols = s.protocols; extensions = s.extensions }))

abbrev pub finished : Head → Step → Answer
finished req not_websocket = ok none
finished req refused = err tt
finished req (go_on s) =
    if has_body req then err tt else if not s.upgrade then err tt else with_accept s s.accept

abbrev pub has_path : Option Bytes → Bool
has_path none = false
has_path (some x) = true

unfoldable pub get_handshake : ⦃h : Sha1⦄ → Head → Answer
get_handshake req =
    if not (asks_upgrade req.connection_header)
    then ok none
    else if not (has_path (path req))
    then err tt
    else finished req (scan_all req.headers initial)
