-- ===== src/Status/Laws.antt =====
-- The numeric codes of src/enums/status.rs and their inverse.
use minihttp.Base.{ℕ, false, ◌≡◌, refl, ◌↔◌, ◌≢◌, some, List, [], ◌∷◌, arith, All, ◌==◌}
use minihttp.Base.{Bool-cases, inl, inr}
use minihttp.Base.Ascii.{codes, bytes_eq, bytes_eq_iff}
use minihttp.Status.{Status, code, select, from_arms, from, reason}

from-code : (s : Status) → from (code s) ≡ some s
unfolding from
from-code Status.continue = refl
from-code _ = refl

abbrev Named : ℕ × Status → Type 0
Named arm = code arm.1 ≡ arm.0

select_sound :
    (c : ℕ) (s : Status) (arms : List (ℕ × Status))
    → All Named arms
    → select c arms ≡ some s
    → code s ≡ c
select_sound c s [] h e = cc
select_sound c s ((k, t) ∷ arms) (named, rest) e = elim (Bool-cases (c == k)) [
  | inl same ↦ ground arith
  | inr other ↦ select_sound c s arms rest (rw other at e)
]

from_arms-Named : All Named from_arms
from_arms-Named = omega arith

-- `Status::from` gives a status for a number exactly if the number is the code of that status.
pub from_iff : (c : ℕ) (s : Status) → (from c ≡ some s) ↔ (code s ≡ c)
unfolding from
from_iff c s = (λ e. select_sound c s from_arms from_arms-Named e, λ e. rw (← e) (from-code s))

titled : (s : Status) → bytes_eq (reason s) (codes "Unknown") ≡ false
unfolding reason
titled Status.continue = refl
titled _ = refl

-- No status falls through to the last arm of `reason`.
pub reason-ne-unknown : (s : Status) → reason s ≢ codes "Unknown"
reason-ne-unknown s h = cc (titled s, (bytes_eq_iff _ _).1 h)
