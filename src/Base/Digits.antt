-- ===== src/Base/Digits.antt =====
-- Numbers in text, as `{}` and `{:x}` of the standard library print a u64.
use Prim.Native.Nat.{ℕ, zero, suc, ◌+◌, ◌-◌, ◌*◌, ◌/◌, ◌%◌, ◌^◌, ◌≤◌, ◌<◌}
use mathlib.Core.Path.{◌≡◌, refl, ap, ◌∙◌}
use mathlib.Core.List.{List, [], ◌∷◌, ◌++◌}
use mathlib.Core.Logic.{inl, inr}
use native.Mathlib.Nat.{div-lt_iff_lt-mul, pow-zero, pow-suc, div-add-mod'}
use native.Mathlib.Omega.{arith}
use minihttp.Base.Tests.{ltb, if◌then◌else◌, Bool-cases, ltb→lt}
use minihttp.Base.Lists.{Bytes, All}

abbrev pub digit : ℕ → ℕ
digit d = if ltb d 10 then d + 48 else d + 87

-- At most `fuel` digits, the first first.
pub to_digits : ℕ → ℕ → ℕ → Bytes
to_digits base zero n = []
to_digits base (suc fuel) n =
    let high = to_digits base fuel (n / base) in
    if ltb n base then digit n ∷ [] else high ++ (digit (n % base) ∷ [])

-- A u64 has at most 20 decimal and 16 hexadecimal digits.
unfoldable pub decimal : ℕ → Bytes
unfolding to_digits
decimal n = to_digits 10 20 n

unfoldable pub hex : ℕ → Bytes
unfolding to_digits
hex n = to_digits 16 16 n

abbrev pub digit_value : ℕ → ℕ
digit_value c = if ltb c 58 then c - 48 else c - 87

-- The number that a text of digits stands for.
unfoldable pub of_digits : ℕ → Bytes → ℕ → ℕ
of_digits base [] acc = acc
of_digits base (c ∷ cs) acc = of_digits base cs (acc * base + digit_value c)

of_digits-append :
    (base acc : ℕ) (xs ys : Bytes)
    → of_digits base (xs ++ ys) acc ≡ of_digits base ys (of_digits base xs acc)
unfolding of_digits
of_digits-append base acc [] ys = refl
of_digits-append base acc (x ∷ xs) ys = of_digits-append base (acc * base + digit_value x) xs ys

digit_value-digit : (d : ℕ) → d < 16 → digit_value (digit d) ≡ d
digit_value-digit d h = ground arith

digit-IsVisible : (d : ℕ) → d < 16 → (48 ≤ digit d) × (digit d ≤ 102)
digit-IsVisible d h = ground arith

pub All-append {ℓ κ} :
    {A : Type ℓ} (P : A → Type κ) (xs ys : List A) → All P xs → All P ys → All P (xs ++ ys)
All-append P [] ys h k = k
All-append P (x ∷ xs) ys (hx, hxs) k = (hx, All-append P xs ys hxs k)

abbrev pub IsDigit : ℕ → Type 0
IsDigit c = (48 ≤ c) × (c ≤ 102)

-- At base 10 and base 16.
module _ (base : ℕ) (small : base ≤ 16) (large : 2 ≤ base) where
  digit_of : (n : ℕ) → n % base < 16
  digit_of n = omega arith

  to_digits-IsDigit : (fuel n : ℕ) → All IsDigit (to_digits base fuel n)
  unfolding to_digits
  to_digits-IsDigit zero n = tt
  to_digits-IsDigit (suc fuel) n = elim (Bool-cases (ltb n base)) [
    | inl t ↦ rw t (digit-IsVisible n (omega (arith, ltb→lt n base t)), tt)
    | inr f ↦ rw f (
        All-append IsDigit (to_digits base fuel (n / base)) (digit (n % base) ∷ [])
          (to_digits-IsDigit fuel (n / base)) (digit-IsVisible (n % base) (digit_of n), tt))
  ]

  last_digit : (acc d : ℕ) → d < 16 → of_digits base (digit d ∷ []) acc ≡ acc * base + d
  unfolding of_digits
  last_digit acc d h = ap (λ v. acc * base + v) (digit_value-digit d h)

  of_digits-to_digits :
      (fuel n : ℕ) → n < base ^ fuel → of_digits base (to_digits base fuel n) 0 ≡ n
  unfolding to_digits
  of_digits-to_digits zero n h = unfold of_digits in omega (arith, pow-zero base)
  of_digits-to_digits (suc fuel) n h = elim (Bool-cases (ltb n base)) [
    | inl t ↦ rw t (omega (arith, last_digit 0 n (omega (arith, ltb→lt n base t))))
    | inr f ↦ rw f (
        of_digits-append base 0 (to_digits base fuel (n / base)) (digit (n % base) ∷ [])
        ∙ ap (of_digits base (digit (n % base) ∷ [])) (
            of_digits-to_digits fuel (n / base)
              ((div-lt_iff_lt-mul (omega arith)).1 (rw pow-suc at h)))
        ∙ last_digit (n / base) (n % base) (digit_of n)
        ∙ div-add-mod' n base)
  ]

-- Reading a printed u64 gives it back.
pub of_digits-hex : (n : ℕ) → n < 2 ^ 64 → of_digits 16 (hex n) 0 ≡ n
unfolding hex
of_digits-hex n h = of_digits-to_digits 16 (omega arith) (omega arith) 16 n (omega arith)

pub of_digits-decimal : (n : ℕ) → n < 2 ^ 64 → of_digits 10 (decimal n) 0 ≡ n
unfolding decimal
of_digits-decimal n h = of_digits-to_digits 10 (omega arith) (omega arith) 20 n (omega arith)

pub decimal-IsDigit : (n : ℕ) → All IsDigit (decimal n)
unfolding decimal
decimal-IsDigit n = to_digits-IsDigit 10 (omega arith) (omega arith) 20 n

pub hex-IsDigit : (n : ℕ) → All IsDigit (hex n)
unfolding hex
hex-IsDigit n = to_digits-IsDigit 16 (omega arith) (omega arith) 16 n
