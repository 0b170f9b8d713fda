-- ===== src/RequestHead/EndToEnd.antt =====
-- What the iterator over headers of src/server/headers.rs passes on.
use minihttp.Base.{
  ℕ, zero, suc, ◌≤◌, ◌≡◌, ◌≢◌, refl, ap, ◌∙◌, Bool, true, false, ◌||◌, Option, none, some, List, [],
  ◌∷◌, ◌++◌, map, any, All, Bytes, length, if◌then◌else◌, arith,
}
use minihttp.Base.Ascii.{codes, bytes_eq, to_ascii_lowercase, eq_ignore_ascii_case}
use minihttp.Base.Digits.{All-append}
use minihttp.Utf8.{trim, trim-name, IsPad, IsNameByte}
use minihttp.RequestHead.{Header, split_commas}
use minihttp.RequestHead.Head.{is_connection_header, is_listed, next}

-- The iterator run to its end, or for as many headers as the fuel allows.
unfoldable pub collect : ℕ → Option Bytes → List Header → List Header
collect zero conn hs = []
collect (suc fuel) conn hs = elim (next conn hs) [
  | none ↦ []
  | some (h, rest) ↦ h ∷ collect fuel conn rest
]

-- A name in the list of a Connection header, with the blanks around it.
pub record Listed : Type 0 where
  pub before : Bytes
  pub name : Bytes
  pub after : Bytes

pub record IsListed (x : Listed) : Type 0 where
  pub pad_before : All IsPad x.before
  pub of_name : All IsNameByte x.name
  pub not_empty : 1 ≤ length x.name
  pub pad_after : All IsPad x.after

-- The text of such a list, with commas between the names; without names there is no header.
abbrev pub listed_text : Listed → List Listed → Bytes
listed_text x [] = x.before ++ (x.name ++ x.after)
listed_text x (y ∷ ys) = (x.before ++ (x.name ++ x.after)) ++ (b',' ∷ listed_text y ys)

abbrev pub connection_text : List Listed → Option Bytes
connection_text [] = none
connection_text (x ∷ xs) = some (listed_text x xs)

-- The names of the headers that are never passed on, in lower case.
abbrev pub own_names : List Bytes
own_names =
    codes "connection"
    ∷ codes "transfer-encoding"
    ∷ codes "content-length"
    ∷ codes "upgrade"
    ∷ codes "host"
    ∷ []

abbrev pub lower : Bytes → Bytes
lower = map to_ascii_lowercase

-- Those names and the listed ones.
abbrev pub kept_back : List Listed → List Bytes
kept_back xs = own_names ++ map (λ x. lower x.name) xs

abbrev pub end_to_end : List Listed → List Header → List Header
end_to_end xs [] = []
end_to_end xs (h ∷ hs) =
    if any (λ n. bytes_eq (lower h.name) n) (kept_back xs)
    then end_to_end xs hs
    else h ∷ end_to_end xs hs

abbrev NoComma : ℕ → Type 0
NoComma b = b ≢ b','

split_commas-one : (t : Bytes) → All NoComma t → split_commas t ≡ t ∷ []
unfolding split_commas
split_commas-one [] h = refl
split_commas-one (b ∷ bs) (hb, hbs) = ground (arith, split_commas-one bs hbs)

split_commas-more :
    (t r : Bytes) → All NoComma t → split_commas (t ++ (b',' ∷ r)) ≡ t ∷ split_commas r
unfolding split_commas
split_commas-more [] r h = refl
split_commas-more (b ∷ bs) r (hb, hbs) = ground (arith, split_commas-more bs r hbs)

All-weaken : {P Q : ℕ → Type 0} (f : (b : ℕ) → P b → Q b) (bs : Bytes) → All P bs → All Q bs
All-weaken f [] h = tt
All-weaken f (b ∷ bs) (hb, hbs) = (f b hb, All-weaken f bs hbs)

pad-NoComma : (b : ℕ) → IsPad b → NoComma b
pad-NoComma b h = λ e. ground arith

listed-NoComma : (x : Listed) → IsListed x → All NoComma (x.before ++ (x.name ++ x.after))
listed-NoComma x g =
    All-append NoComma x.before (x.name ++ x.after) (All-weaken pad-NoComma x.before g.pad_before) (
      All-append NoComma x.name x.after (All-weaken (λ b h. h.2) x.name g.of_name)
        (All-weaken pad-NoComma x.after g.pad_after))

trim-listed : (x : Listed) → IsListed x → trim (x.before ++ (x.name ++ x.after)) ≡ x.name
trim-listed x g = trim-name x.before x.name x.after g.pad_before g.of_name g.not_empty g.pad_after

-- The iterator finds exactly the names in the text.
names-listed_text :
    (x : Listed) (xs : List Listed)
    → All IsListed (x ∷ xs)
    → map trim (split_commas (listed_text x xs)) ≡ map (λ y. y.name) (x ∷ xs)
names-listed_text x [] (g, gs) =
    rw (split_commas-one _ (listed-NoComma x g)) (rw (trim-listed x g) refl)
names-listed_text x (y ∷ ys) (g, gs) =
    rw
      (
        split_commas-more _ (listed_text y ys) (listed-NoComma x g),
        trim-listed x g,
        names-listed_text y ys gs,
      )
      refl

bytes_eq_comm : (xs ys : Bytes) → bytes_eq xs ys ≡ bytes_eq ys xs
bytes_eq_comm [] [] = refl
bytes_eq_comm [] (y ∷ ys) = refl
bytes_eq_comm (x ∷ xs) [] = refl
bytes_eq_comm (x ∷ xs) (y ∷ ys) = let same = bytes_eq_comm xs ys in ground arith

any-lower :
    (n : Bytes) (xs : List Listed)
    → any (λ y. eq_ignore_ascii_case y n) (map (λ y. y.name) xs)
      ≡ any (λ m. bytes_eq (lower n) m) (map (λ y. lower y.name) xs)
any-lower n [] = refl
any-lower n (x ∷ xs) = rw (bytes_eq_comm (lower x.name) (lower n), any-lower n xs) refl

is_listed-connection_text :
    (xs : List Listed) (h : Header)
    → All IsListed xs
    → is_listed (connection_text xs) h
      ≡ any (λ m. bytes_eq (lower h.name) m) (map (λ y. lower y.name) xs)
unfolding is_listed
is_listed-connection_text [] h g = refl
is_listed-connection_text (x ∷ xs) h g =
    ap (any (λ y. eq_ignore_ascii_case y h.name)) (names-listed_text x xs g)
    ∙ any-lower h.name (x ∷ xs)

or_five :
    (a b c d e f : Bool)
    → (((((a || b) || c) || d) || e) || f) ≡ (a || (b || (c || (d || (e || f)))))
or_five true b c d e f = refl
or_five false true c d e f = refl
or_five false false true d e f = refl
or_five false false false true e f = refl
or_five false false false false true f = refl
or_five false false false false false f = refl

is_kept_back :
    (xs : List Listed) (h : Header)
    → All IsListed xs
    → (is_connection_header h || is_listed (connection_text xs) h)
      ≡ any (λ n. bytes_eq (lower h.name) n) (kept_back xs)
unfolding is_connection_header
is_kept_back xs h g = rw (is_listed-connection_text xs h g) (
    or_five (eq_ignore_ascii_case h.name (codes "Connection"))
      (eq_ignore_ascii_case h.name (codes "Transfer-Encoding"))
      (eq_ignore_ascii_case h.name (codes "Content-Length"))
      (eq_ignore_ascii_case h.name (codes "Upgrade")) (eq_ignore_ascii_case h.name (codes "Host"))
      (any (λ m. bytes_eq (lower h.name) m) (map (λ y. lower y.name) xs)))

-- A step of the iterator, with both tests in one.
collect-cons :
    (fuel : ℕ) (conn : Option Bytes) (h : Header) (hs : List Header)
    → collect (suc fuel) conn (h ∷ hs) ≡ (
        if is_connection_header h || is_listed conn h
        then collect (suc fuel) conn hs
        else h ∷ collect fuel conn hs)
unfolding collect next
collect-cons fuel conn h hs = ground arith

-- Where the Connection header is a list of names, with blanks around them and commas between them,
-- or where there is none: the iterator over headers, run for at least as many steps as there are
-- headers, gives all headers in their order but those whose name is, in any case, one of
-- `connection`, `transfer-encoding`, `content-length`, `upgrade` and `host` or in that list.
pub collect-end_to_end :
    (fuel : ℕ) (xs : List Listed) (hs : List Header)
    → All IsListed xs
    → length hs ≤ fuel
    → collect fuel (connection_text xs) hs ≡ end_to_end xs hs
unfolding collect next
collect-end_to_end zero xs [] g l = refl
collect-end_to_end zero xs (h ∷ hs) g l = absurd (omega arith)
collect-end_to_end (suc fuel) xs [] g l = refl
collect-end_to_end (suc fuel) xs (h ∷ hs) g l =
    collect-cons fuel (connection_text xs) h hs
    ∙ rw
        (
          is_kept_back xs h g,
          collect-end_to_end (suc fuel) xs hs g (omega arith),
          collect-end_to_end fuel xs hs g (omega arith),
        )
        refl
