-- ===== src/Base/Bytes.antt =====
-- `String` and `&str` as their bytes, with the order and the tests that the program uses.
-- A character is ASCII exactly when its encoding is one byte below 128, so a test of every
-- character for being graphic ASCII is the same test of every byte.
use Prim.Native.Nat.{ℕ, compare, Ordering}
use Prim.Native.Char.{code}
use Prim.Native.String.{String}
use mathlib.Core.Path.{◌≡◌, refl}
use mathlib.Core.Logic.{◌↔◌, ◌≢◌}
use mathlib.Core.Bool.{Bool, true, false, not, ◌&&◌, ◌||◌}
use mathlib.Core.List.{List, [], ◌∷◌}
use native.Mathlib.Omega.{arith}
use sdkwork_sandbox.Base.Tests.{leb, ◌==◌}
use sdkwork_sandbox.Base.Lists.{length, all}

abbrev pub Text : Type 0
Text = List ℕ

-- The bytes of an ASCII literal.
abbrev pub text : String → Text
text String.[] = []
text (String.◌∷◌ c s) = code c ∷ text s

-- `Ord for String`: bytewise.
unfoldable pub text_compare : Text → Text → Ordering
text_compare [] [] = Ordering.eq
text_compare [] (y ∷ ys) = Ordering.lt
text_compare (x ∷ xs) [] = Ordering.gt
text_compare (x ∷ xs) (y ∷ ys) = elim (compare x y) [
  | Ordering.lt ↦ Ordering.lt
  | Ordering.eq ↦ text_compare xs ys
  | Ordering.gt ↦ Ordering.gt
]

unfoldable pub text_eq : Text → Text → Bool
unfolding text_compare
text_eq a b = elim (text_compare a b) [ Ordering.eq ↦ true | _ ↦ false ]

pub eq-of_text_compare : (a b : Text) → text_compare a b ≡ Ordering.eq → a ≡ b
unfolding text_compare
eq-of_text_compare [] [] h = refl
eq-of_text_compare [] (y ∷ ys) h = cc
eq-of_text_compare (x ∷ xs) [] h = cc
eq-of_text_compare (x ∷ xs) (y ∷ ys) h = ground (arith, eq-of_text_compare xs ys)

pub text_compare_self : (a : Text) → text_compare a a ≡ Ordering.eq
unfolding text_compare
text_compare_self [] = refl
text_compare_self (x ∷ xs) = ground (arith, text_compare_self xs)

pub text_eq_self : (a : Text) → text_eq a a ≡ true
unfolding text_eq
text_eq_self a = ground (arith, text_compare_self a)

eq-of_text_eq : (a b : Text) → text_eq a b ≡ true → a ≡ b
unfolding text_eq
eq-of_text_eq a b h = ground (arith, eq-of_text_compare a b)

pub text_eq_iff : (a b : Text) → (text_eq a b ≡ true) ↔ (a ≡ b)
text_eq_iff a b = (eq-of_text_eq a b, λ e. rw e (text_eq_self b))

pub ne-of_text_eq : (a b : Text) → text_eq a b ≡ false → a ≢ b
ne-of_text_eq a b h e = cc ((text_eq_iff a b).1 e)

-- `char::is_ascii_graphic`.
abbrev pub is_ascii_graphic : ℕ → Bool
is_ascii_graphic c = leb 33 c && leb c 126

-- `matches!(b, b'0'..=b'9' | b'a'..=b'f')`.
abbrev pub is_lower_hex : ℕ → Bool
is_lower_hex c = (leb b'0' c && leb c b'9') || (leb b'a' c && leb c b'f')

unfoldable pub starts_with : Text → Text → Bool
starts_with [] t = true
starts_with (x ∷ xs) [] = false
starts_with (x ∷ xs) (y ∷ ys) = x == y && starts_with xs ys

-- `str::contains`.
unfoldable pub contains : Text → Text → Bool
unfolding starts_with
contains p [] = starts_with p []
contains p (y ∷ ys) = starts_with p (y ∷ ys) || contains p ys

abbrev pub is_empty : Text → Bool
is_empty [] = true
is_empty (x ∷ xs) = false

-- The shape of an opaque reference of at most `top` bytes: printable, no path, no locator.
unfoldable pub is_opaque : ℕ → Text → Bool
unfolding starts_with contains
is_opaque top t =
    not (is_empty t)
    && leb (length t) top
    && all is_ascii_graphic t
    && not (starts_with (text "/") t)
    && not (contains (text "://") t)

-- A SHA-256 in lower-case hexadecimal.
unfoldable pub is_fingerprint : Text → Bool
is_fingerprint t = length t == 64 && all is_lower_hex t
