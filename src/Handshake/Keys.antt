-- ===== src/Handshake/Keys.antt =====
-- The keys of src/websocket/keys.rs.
use minihttp.Base.{ℕ, zero, suc, ◌+◌, ◌*◌, ◌/◌, ◌%◌, ◌≡◌, [], ◌∷◌, ◌++◌, Bytes, length, get_or}
use minihttp.Base.Ascii.{codes}

-- The digest of the crate sha1: twenty bytes.
pub record Sha1 : Type 0 where
  pub digest : Bytes → Bytes
  pub digest_length : (text : Bytes) → length (digest text) ≡ 20

abbrev pub guid : Bytes
guid = codes "258EAFA5-E914-47DA-95CA-C5AB0DC85B11"

-- `Accept::from_key_bytes`
unfoldable pub from_key_bytes : ⦃h : Sha1⦄ → Bytes → Bytes
from_key_bytes ⦃h⦄ key = h.digest (key ++ guid)

unfoldable pub chars : Bytes
chars = codes "ABCDEFGHIJKLMNOPQRSTUVWXYZabcdefghijklmnopqrstuvwxyz0123456789+/"

unfoldable pub char_at : ℕ → ℕ
unfolding chars
char_at i = get_or chars i 0

-- Three bytes in one number: the shifted bytes have no bits in common, so `|` is `+`.
abbrev pub joined : ℕ → ℕ → ℕ → ℕ
joined a b c = a * 65536 + b * 256 + c

-- `CHARS[(n >> 18) & 63]` and the others
abbrev pub first_char : ℕ → ℕ
first_char n = char_at (n / 262144 % 64)

abbrev pub second_char : ℕ → ℕ
second_char n = char_at (n / 4096 % 64)

abbrev pub third_char : ℕ → ℕ
third_char n = char_at (n / 64 % 64)

abbrev pub fourth_char : ℕ → ℕ
fourth_char n = char_at (n % 64)

abbrev pub group : ℕ → Bytes → Bytes
group n rest = first_char n ∷ second_char n ∷ third_char n ∷ fourth_char n ∷ rest

-- What stands behind the loop, for a key of `3 * k + 2` and of `3 * k + 1` bytes.
abbrev pub accept_tail : Bytes → Bytes
accept_tail (a ∷ b ∷ rest) =
    let n = joined a b 0 in first_char n ∷ second_char n ∷ third_char n ∷ b'=' ∷ []
accept_tail _ = []

abbrev pub key_tail : Bytes → Bytes
key_tail (a ∷ rest) = let n = joined a 0 0 in first_char n ∷ second_char n ∷ b'=' ∷ b'=' ∷ []
key_tail [] = []

-- The loop, and the tail on what is left. The key is an array, which has the bytes.
unfoldable pub groups : (Bytes → Bytes) → ℕ → Bytes → Bytes
groups tail zero rest = tail rest
groups tail (suc k) (a ∷ b ∷ c ∷ rest) = group (joined a b c) (groups tail k rest)
groups tail (suc k) _ = []

-- `Display` of `Accept` and of `Key`
unfoldable pub accept_text : Bytes → Bytes
accept_text key = groups accept_tail 6 key

unfoldable pub key_text : Bytes → Bytes
key_text key = groups key_tail 5 key
