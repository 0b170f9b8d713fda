-- ===== src/Handshake/Base64.antt =====
-- The texts of the keys of src/websocket/keys.rs are their bytes in base64.
use minihttp.Base.{
  ℕ, zero, suc, ◌+◌, ◌-◌, ◌*◌, ◌/◌, ◌%◌, ◌<◌, ◌≡◌, refl, ap, ◌∙◌, false, [], ◌∷◌, Bytes, length,
  All, ltb, ◌==◌, if◌then◌else◌, arith,
}
use minihttp.Base.Bits.{same_below, agree}
use minihttp.Handshake.Keys.{
  chars, char_at, joined, first_char, second_char, third_char, fourth_char, group, accept_tail,
  key_tail, groups, accept_text, key_text,
}

-- The value of a digit of base64, as RFC 4648 has it.
unfoldable pub value : ℕ → ℕ
value c =
    if ltb c 48
    then (if c == 43 then 62 else 63)
    else if ltb c 58
    then c + 4
    else if ltb c 91
    then c - 65
    else c - 71

abbrev pub number : ℕ → ℕ → ℕ → ℕ → ℕ
number a b c d = value a * 262144 + value b * 4096 + value c * 64 + value d

-- The decoding of base64 with its padding.
unfoldable pub decode : Bytes → Bytes
decode (a ∷ b ∷ c ∷ d ∷ rest) =
    let later = decode rest in
    if c == b'='
    then (value a * 4 + value b / 16) ∷ []
    else if d == b'='
    then (value a * 4 + value b / 16) ∷ (value b % 16 * 16 + value c / 4) ∷ []
    else (number a b c d / 65536) ∷ (number a b c d / 256 % 256) ∷ (number a b c d % 256) ∷ later
decode _ = []

value-char_at : (i : ℕ) → i < 64 → value (char_at i) ≡ i
unfolding same_below value char_at chars
value-char_at = agree 64 (λ i. value (char_at i)) (λ i. i) refl

abbrev is_padding : ℕ → ℕ
is_padding i = if char_at i == b'=' then 1 else 0

no_padding : (i : ℕ) → i < 64 → (char_at i == b'=') ≡ false
unfolding same_below char_at chars
no_padding i lt =
    let none_of : is_padding i ≡ 0 = agree 64 is_padding (λ i. 0) refl i lt in ground arith

decode-group :
    (a b c : ℕ) (rest : Bytes)
    → a < 256
    → b < 256
    → c < 256
    → decode (group (joined a b c) rest) ≡ a ∷ b ∷ c ∷ decode rest
unfolding decode
decode-group a b c rest ha hb hc =
    let n = joined a b c in
    let v1 = value-char_at (n / 262144 % 64) (omega arith) in
    let v2 = value-char_at (n / 4096 % 64) (omega arith) in
    let v3 = value-char_at (n / 64 % 64) (omega arith) in
    let v4 = value-char_at (n % 64) (omega arith) in
    let x = number (first_char n) (second_char n) (third_char n) (fourth_char n) in
    let whole : x ≡ n = omega arith in
    rw (no_padding (n / 64 % 64) (omega arith), no_padding (n % 64) (omega arith))
      (triple (x / 65536) a (x / 256 % 256) b (x % 256) c (decode rest) (omega arith) (omega arith)
        (omega arith))
  where
    triple : (p q r s t u : ℕ) (l : Bytes) → p ≡ q → r ≡ s → t ≡ u → p ∷ r ∷ t ∷ l ≡ q ∷ s ∷ u ∷ l
    triple p q r s t u l e f g = rw (e, f, g) refl

decode-groups :
    (tail : Bytes → Bytes) (k t : ℕ) (key : Bytes)
    → ((rest : Bytes) → length rest ≡ t → All (λ b. b < 256) rest → decode (tail rest) ≡ rest)
    → length key ≡ k * 3 + t
    → All (λ b. b < 256) key
    → decode (groups tail k key) ≡ key
unfolding groups
decode-groups tail zero t key end len small = end key (omega arith) small
decode-groups tail (suc k) t [] end len small = absurd (omega arith)
decode-groups tail (suc k) t (a ∷ []) end len small = absurd (omega arith)
decode-groups tail (suc k) t (a ∷ b ∷ []) end len small = absurd (omega arith)
decode-groups tail (suc k) t (a ∷ b ∷ c ∷ rest) end len (ha, (hb, (hc, small))) =
    decode-group a b c (groups tail k rest) ha hb hc
    ∙ ap (λ l. a ∷ b ∷ c ∷ l) (decode-groups tail k t rest end (omega arith) small)

pair : (p q r s : ℕ) → p ≡ q → r ≡ s → ◌≡◌ {A = Bytes} (p ∷ r ∷ []) (q ∷ s ∷ [])
pair p q r s e f = rw (e, f) refl

decode-accept_tail :
    (rest : Bytes) → length rest ≡ 2 → All (λ b. b < 256) rest → decode (accept_tail rest) ≡ rest
unfolding decode
decode-accept_tail [] len small = absurd (omega arith)
decode-accept_tail (a ∷ []) len small = absurd (omega arith)
decode-accept_tail (a ∷ b ∷ []) len (ha, (hb, u)) =
    let n = joined a b 0 in
    let v1 = value-char_at (n / 262144 % 64) (omega arith) in
    let v2 = value-char_at (n / 4096 % 64) (omega arith) in
    let v3 = value-char_at (n / 64 % 64) (omega arith) in
    rw (no_padding (n / 64 % 64) (omega arith)) (
      pair (value (first_char n) * 4 + value (second_char n) / 16) a
        (value (second_char n) % 16 * 16 + value (third_char n) / 4) b (omega arith) (omega arith))
decode-accept_tail (a ∷ b ∷ c ∷ rest) len small = absurd (omega arith)

-- The text of the twenty bytes of an Accept is their base64: decoding it gives them back.
pub decode-accept_text :
    (key : Bytes) → length key ≡ 20 → All (λ b. b < 256) key → decode (accept_text key) ≡ key
unfolding accept_text
decode-accept_text key len small =
    decode-groups accept_tail 6 2 key decode-accept_tail (omega arith) small

decode-key_tail :
    (rest : Bytes) → length rest ≡ 1 → All (λ b. b < 256) rest → decode (key_tail rest) ≡ rest
unfolding decode
decode-key_tail [] len small = absurd (omega arith)
decode-key_tail (a ∷ []) len (ha, u) =
    let n = joined a 0 0 in
    let v1 = value-char_at (n / 262144 % 64) (omega arith) in
    let v2 = value-char_at (n / 4096 % 64) (omega arith) in
    ap (λ x. x ∷ []) {x = value (first_char n) * 4 + value (second_char n) / 16} {y = a}
      (omega arith)
decode-key_tail (a ∷ b ∷ rest) len small = absurd (omega arith)

-- So is that of the sixteen bytes of a Key.
pub decode-key_text :
    (key : Bytes) → length key ≡ 16 → All (λ b. b < 256) key → decode (key_text key) ≡ key
unfolding key_text
decode-key_text key len small = decode-groups key_tail 5 1 key decode-key_tail (omega arith) small
