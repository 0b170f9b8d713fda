-- ===== src/Handshake/Examples.antt =====
-- Tests of the model of src/server/websocket.rs and src/websocket/keys.rs, and its theorems at
-- concrete inputs.
use minihttp.Base.{
  ◌≡◌, refl, true, false, none, some, List, [], ◌∷◌, Bytes, length, any, all, replicate, ok, err,
  arith,
}
use minihttp.Base.Ascii.{codes}
use minihttp.Utf8.{is_utf8, trim}
use minihttp.Version.{http11}
use minihttp.RequestTarget.{origin}
use minihttp.RequestHead.{Header, fixed, split_commas}
use minihttp.RequestHead.Head.{Head, path, has_body}
use minihttp.RequestHead.Laws.{count}
use minihttp.RequestHead.Config.{value_of}
use minihttp.Handshake.Keys.{Sha1, from_key_bytes, chars, char_at, groups, accept_text, key_text}
use minihttp.Handshake.Base64.{decode, decode-accept_text}
use minihttp.Handshake.Upgrade.{
  WebsocketHandshake, trim_start, trim_end, bytes_trim, tokens, kind_of, scan_header, scan_all,
  asks_upgrade, has_path, get_handshake,
}
use minihttp.Handshake.Laws.{
  is_key, is_version, is_upgrade, is_good, accept_of, get_handshake-accepts,
}

-- The text of a key in RFC 6455.
key_text_test : key_text (codes "the sample nonce") ≡ codes "dGhlIHNhbXBsZSBub25jZQ=="
unfolding key_text groups char_at chars
key_text_test = refl

abbrev sample : Bytes
sample = codes "0123456789abcdefghij"

accept_text_test : accept_text sample ≡ codes "MDEyMzQ1Njc4OWFiY2RlZmdoaWo="
unfolding accept_text groups char_at chars
accept_text_test = refl

decode-accept_text_example :
    decode (accept_text (codes "0123456789abcdefghij")) ≡ codes "0123456789abcdefghij"
decode-accept_text_example = decode-accept_text (codes "0123456789abcdefghij") refl (omega arith)

-- In place of the digest, twenty times the length of the text.
abbrev length_digest : Sha1
length_digest = record { digest = λ text. replicate 20 (length text); digest_length = λ text. refl }

abbrev upgrade_headers : List Header
upgrade_headers =
    record { name = codes "Upgrade"; value = codes "WebSocket" }
    ∷ record { name = codes "sec-websocket-version"; value = codes " 13" }
    ∷ record { name = codes "Sec-WebSocket-Key"; value = codes "abcd " }
    ∷ record { name = codes "Sec-WebSocket-Protocol"; value = codes "chat, , v2" }
    ∷ []

abbrev upgrade_head : Head
upgrade_head = record {
  method = codes "GET";
  raw_target = codes "/chat";
  target = origin (codes "/chat");
  host = none;
  conflicting_host = false;
  version = http11;
  headers = upgrade_headers;
  body_kind = fixed 0;
  connection_close = false;
  connection_header = some (codes "keep-alive, Upgrade");
}

abbrev handshake : WebsocketHandshake
handshake = record {
  accept = replicate 20 40;
  protocols = codes "chat" ∷ codes "v2" ∷ [];
  extensions = [];
}

handshake_test : get_handshake ⦃h = length_digest⦄ upgrade_head ≡ ok (some handshake)
unfolding get_handshake asks_upgrade path has_body scan_all scan_header kind_of bytes_trim
    trim_start trim_end tokens split_commas is_utf8 trim from_key_bytes
handshake_test = refl

-- A second key is refused.
two_keys_test :
    get_handshake ⦃h = length_digest⦄ (record upgrade_head {
      headers = record { name = codes "Sec-WebSocket-Key"; value = codes "x" } ∷ upgrade_headers;
    })
    ≡ err tt
unfolding get_handshake asks_upgrade path has_body scan_all scan_header kind_of bytes_trim
    trim_start trim_end tokens split_commas is_utf8 trim from_key_bytes
two_keys_test = refl

get_handshake-accepts_example :
    (asks_upgrade (some (codes "keep-alive, Upgrade")) ≡ true)
    × (has_path (path upgrade_head) ≡ true)
    × (has_body upgrade_head ≡ false)
    × (any is_upgrade upgrade_headers ≡ true)
    × (any is_version upgrade_headers ≡ true)
    × (all is_good upgrade_headers ≡ true)
    × (count is_key upgrade_headers ≡ 1)
    × (some (replicate 20 40) ≡ accept_of ⦃h = length_digest⦄ (value_of is_key upgrade_headers))
get_handshake-accepts_example =
    get_handshake-accepts ⦃h = length_digest⦄ upgrade_head handshake handshake_test
