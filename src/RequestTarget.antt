-- ===== src/RequestTarget.antt =====
-- The middle part of the request line, src/server/request_target.rs. A `str` is its bytes.
pub mod Laws
mod Examples
use minihttp.Base.{
  ℕ, suc, ◌+◌, ◌-◌, Bool, true, false, ◌&&◌, ◌||◌, Option, none, some, [], ◌∷◌, Bytes, length, take,
  drop, ◌==◌, if◌then◌else◌,
}
use minihttp.Base.Ascii.{codes, bytes_eq}

pub data RequestTarget : Type 0 where
  origin : Bytes → RequestTarget
  absolute : Bytes → Bytes → Bytes → RequestTarget  -- scheme, authority, path
  authority : Bytes → RequestTarget
  asterisk : RequestTarget

abbrev pub authority_end_char : ℕ → Bool
authority_end_char x = x == b'/' || x == b'?' || x == b'#' || x == b'@'

-- `iter().position(f)`
unfoldable pub position : (ℕ → Bool) → Bytes → Option ℕ
position f [] = none
position f (x ∷ xs) =
    if f x then some 0 else elim (position f xs) [ none ↦ none | some i ↦ some (suc i) ]

abbrev pub unwrap_or : Option ℕ → ℕ → ℕ
unwrap_or none d = d
unwrap_or (some i) d = i

abbrev pub starts_with : Bytes → Bytes → Bool
starts_with s [] = true
starts_with [] (p ∷ ps) = false
starts_with (x ∷ xs) (p ∷ ps) = x == p && starts_with xs ps

abbrev pub is_none : Option ℕ → Bool
is_none none = true
is_none (some i) = false

-- The absolute form with a scheme whose prefix has `n` bytes.
absolute_form : Bytes → ℕ → Bytes → RequestTarget
absolute_form scheme n s =
    let auth_end = unwrap_or (position authority_end_char (drop n s)) (length s - n) in
    absolute scheme (take auth_end (drop n s)) (drop (n + auth_end) s)

unfoldable pub parse : Bytes → Option RequestTarget
unfolding absolute_form
parse s =
    if length s == 0
    then none
    else if starts_with s (codes "/")
    then some (origin s)
    else if starts_with s (codes "http://")
    then some (absolute_form (codes "http") 7 s)
    else if starts_with s (codes "https://")
    then some (absolute_form (codes "https") 8 s)
    else if bytes_eq s (codes "*")
    then some asterisk
    else if is_none (position authority_end_char s)
    then some (authority s)
    else none
