-- ===== src/Base/Decimal.antt =====
-- Decimal printing of an unsigned number, as `format!("{n}")` does it, and what it keeps: printing
-- is injective below the bound of the digits, and a digit is no punctuation.
use Prim.Native.Nat.{ℕ, zero, suc, ◌+◌, ◌-◌, ◌*◌, ◌/◌, ◌%◌, ◌^◌, ◌≤◌, ◌<◌}
use native.Mathlib.Nat.{pow-suc}
use mathlib.Core.Path.{◌≡◌, refl, sym, ap, ◌∙◌}
use mathlib.Core.Logic.{inl, inr}
use mathlib.Core.List.{List, [], ◌∷◌, ◌++◌}
use native.Mathlib.Omega.{arith}
use sdkwork_sandbox.Base.Tests.{ltb, if◌then◌else◌, Bool-cases}
use sdkwork_sandbox.Base.Lists.{length, All, All-append, length-append}

-- At most `fuel` digits, the most significant first.
unfoldable pub decimal_digits : ℕ → ℕ → List ℕ
decimal_digits zero n = []
decimal_digits (suc fuel) n =
    let rest = decimal_digits fuel (n / 10) in
    if ltb n 10 then (b'0' + n) ∷ [] else rest ++ (b'0' + n % 10) ∷ []

-- A number of 64 bits has at most 20 digits.
unfoldable pub decimal : ℕ → List ℕ
unfolding decimal_digits
decimal n = decimal_digits 20 n

value_from : ℕ → List ℕ → ℕ
value_from acc [] = acc
value_from acc (c ∷ cs) = value_from (acc * 10 + (c - b'0')) cs

value_from-append :
    (acc c : ℕ) (xs : List ℕ) → value_from acc (xs ++ c ∷ []) ≡ value_from acc xs * 10 + (c - b'0')
unfolding value_from
value_from-append acc c [] = refl
value_from-append acc c (x ∷ xs) = value_from-append (acc * 10 + (x - b'0')) c xs

value_from-decimal_digits : (fuel n : ℕ) → n < 10 ^ fuel → value_from 0 (decimal_digits fuel n) ≡ n
unfolding decimal_digits value_from
value_from-decimal_digits zero n h = omega arith
value_from-decimal_digits (suc fuel) n h = elim (Bool-cases (ltb n 10)) [
  | inl small ↦ rw (small, decimal_digits) (omega arith)
  | inr big ↦
      rw (big, decimal_digits)
        (value_from-append 0 (b'0' + n % 10) (decimal_digits fuel (n / 10))
          ∙ omega (arith, value_from-decimal_digits fuel (n / 10) (omega (arith, pow-suc 10 fuel))))
]

-- Two numbers below 10 ^ 20, which bounds the numbers of 64 bits, print alike only if they are equal.
pub decimal_injective : (m n : ℕ) → m < 10 ^ 20 → n < 10 ^ 20 → decimal m ≡ decimal n → m ≡ n
unfolding decimal
decimal_injective m n hm hn e =
    sym (value_from-decimal_digits 20 m hm)
    ∙ ap (value_from 0) e
    ∙ value_from-decimal_digits 20 n hn

abbrev pub IsDigit : ℕ → Type 0
IsDigit c = (b'0' ≤ c) × (c ≤ b'9')

decimal_digits-IsDigit : (fuel n : ℕ) → All IsDigit (decimal_digits fuel n)
unfolding decimal_digits
decimal_digits-IsDigit zero n = tt
decimal_digits-IsDigit (suc fuel) n = elim (Bool-cases (ltb n 10)) [
  | inl small ↦ rw (small, decimal_digits) ((ground arith, ground arith), tt)
  | inr big ↦
      rw (big, decimal_digits)
        (All-append IsDigit (decimal_digits fuel (n / 10)) _ (decimal_digits-IsDigit fuel (n / 10))
          ((omega arith, omega arith), tt))
]

length-decimal_digits : (fuel n : ℕ) → length (decimal_digits fuel n) ≤ fuel
unfolding decimal_digits
length-decimal_digits zero n = omega arith
length-decimal_digits (suc fuel) n = elim (Bool-cases (ltb n 10)) [
  | inl small ↦ rw (small, decimal_digits) (omega arith)
  | inr big ↦
      rw (big, decimal_digits)
        (omega (
          arith,
          length-append (decimal_digits fuel (n / 10)) ((b'0' + n % 10) ∷ []),
          length-decimal_digits fuel (n / 10),
        ))
]

pub decimal-IsDigit : (n : ℕ) → All IsDigit (decimal n)
unfolding decimal
decimal-IsDigit n = decimal_digits-IsDigit 20 n

pub length-decimal : (n : ℕ) → length (decimal n) ≤ 20
unfolding decimal
length-decimal n = length-decimal_digits 20 n
