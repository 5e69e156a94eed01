-- ===== src/Common/Decimal.antt =====
-- std::to_string and std::stoi on numbers.
use Prim.Native.Nat.{ℕ, zero, suc, ◌+◌, ◌-◌, ◌*◌, ◌/◌, ◌%◌, ◌≤◌, ◌<◌}
use mathlib.Core.Path.{◌≡◌, refl, ◌∙◌, ap, sym, subst}
use mathlib.Core.Logic.{inl, inr}
use mathlib.Core.Bool.{Bool, true, ◌&&◌, ◌||◌}
use mathlib.Core.Option.{Option, none, some}
use mathlib.Core.List.{[], ◌∷◌}
use native.Mathlib.Omega.{arith}
use snbmodules.Common.Tests.{leb, ltb, ◌==◌, if◌then◌else◌, Bool-cases, tests}
use snbmodules.Common.Strings.{Text}
use snbmodules.Common.Lists.{All}
use snbmodules.Common.Int.{ℤ, pos, sub_ℕ}

-- The digits of a number, most significant first, before the text that follows.
unfoldable pub print_digits : ℕ → ℕ → Text → Text
print_digits zero n rest = rest
print_digits (suc fuel) n rest =
    let d = (48 + n % 10) ∷ rest in
    let more = print_digits fuel (n / 10) d in if ltb n 10 then d else more

unfoldable pub print_ℕ : ℕ → Text
unfolding print_digits
print_ℕ n = print_digits (suc n) n []

abbrev pub is_digit : ℕ → Bool
is_digit c = leb 48 c && leb c 57

-- The digits at the head of the text are read, what follows them is left.
unfoldable pub read_digits : ℕ → Text → ℕ
read_digits acc [] = acc
read_digits acc (c ∷ s) =
    let more = read_digits (acc * 10 + (c - 48)) s in if is_digit c then more else acc

-- std::isspace in the C locale.
abbrev pub is_space : ℕ → Bool
is_space c = (c == 32) || (leb 9 c && leb c 13)

unfoldable pub skip_space : Text → Text
skip_space [] = []
skip_space (c ∷ s) = let rest = skip_space s in if is_space c then rest else c ∷ s

-- The digits must begin at once.
digits_of : Text → Option ℕ
digits_of [] = none
digits_of (c ∷ s) = if is_digit c then some (read_digits 0 (c ∷ s)) else none

negative : Option ℕ → Option ℤ
negative none = none
negative (some n) = if leb n 2147483648 then some (sub_ℕ 0 n) else none

positive : Option ℕ → Option ℤ
positive none = none
positive (some n) = if leb n 2147483647 then some (pos n) else none

signed : Text → Option ℤ
unfolding digits_of negative positive
signed [] = none
signed (c ∷ s) =
    if c == 45
    then negative (digits_of s)
    else if c == 43
    then positive (digits_of s)
    else positive (digits_of (c ∷ s))

-- std::stoi; `none` where it throws (no digits, or out of the range of int).
unfoldable pub stoi : Text → Option ℤ
unfolding skip_space signed
stoi s = signed (skip_space s)

read_step :
    (acc c : ℕ) (s : Text)
    → is_digit c ≡ true
    → read_digits acc (c ∷ s) ≡ read_digits (acc * 10 + (c - 48)) s
unfolding read_digits
read_step acc c s h = rw h

digit_lem : (n : ℕ) → is_digit (48 + n % 10) ≡ true
digit_lem n = ground arith

read-print_digits :
    (fuel n : ℕ) (rest : Text)
    → n < fuel
    → read_digits 0 (print_digits fuel n rest) ≡ read_digits n rest
unfolding print_digits
read-print_digits zero n rest h = absurd (omega arith)
read-print_digits (suc fuel) n rest h = elim (Bool-cases (ltb n 10)) [
  | inl small ↦
      rw small
        (read_step 0 (48 + n % 10) rest (digit_lem n) ∙ ap (λ k. read_digits k rest) (omega tests))
  | inr big ↦ rw big (
      read-print_digits fuel (n / 10) ((48 + n % 10) ∷ rest) (ground arith)
      ∙ read_step (n / 10) (48 + n % 10) rest (digit_lem n)
      ∙ ap (λ k. read_digits k rest) (omega arith))
]

abbrev pub IsDigits : Text → Type 0
IsDigits = All (λ c. is_digit c ≡ true)

print_digits-IsDigits :
    (fuel n : ℕ) (rest : Text) → IsDigits rest → IsDigits (print_digits fuel n rest)
unfolding print_digits
print_digits-IsDigits zero n rest h = h
print_digits-IsDigits (suc fuel) n rest h = elim (Bool-cases (ltb n 10)) [
  | inl small ↦ rw small (digit_lem n, h)
  | inr big ↦ rw big (print_digits-IsDigits fuel (n / 10) ((48 + n % 10) ∷ rest) (digit_lem n, h))
]

print_digits-ne-nil :
    (fuel n c : ℕ) (rest : Text) → (d : ℕ) × (s : Text) × (print_digits fuel n (c ∷ rest) ≡ d ∷ s)
unfolding print_digits
print_digits-ne-nil zero n c rest = (c, rest, refl)
print_digits-ne-nil (suc fuel) n c rest = elim (Bool-cases (ltb n 10)) [
  | inl small ↦ rw small (48 + n % 10, c ∷ rest, refl)
  | inr big ↦ rw big (print_digits-ne-nil fuel (n / 10) (48 + n % 10) (c ∷ rest))
]

-- A printed number has a digit first, and only digits.
pub print_ℕ-cons : (n : ℕ) → (d : ℕ) × (s : Text) × (print_ℕ n ≡ d ∷ s) × IsDigits (d ∷ s)
unfolding print_ℕ print_digits
print_ℕ-cons n =
    let (d, s, e) = shape in (d, s, e, subst IsDigits e (print_digits-IsDigits (suc n) n [] tt))
  where
    shape : (d : ℕ) × (s : Text) × (print_digits (suc n) n [] ≡ d ∷ s)
    shape = elim (Bool-cases (ltb n 10)) [
      | inl small ↦ rw small (48 + n % 10, [], refl)
      | inr big ↦ rw big (print_digits-ne-nil n (n / 10) (48 + n % 10) [])
    ]

pub print_ℕ-IsDigits : (n : ℕ) → IsDigits (print_ℕ n)
unfolding print_ℕ
print_ℕ-IsDigits n = print_digits-IsDigits (suc n) n [] tt

pub read-print_ℕ : (n : ℕ) → read_digits 0 (print_ℕ n) ≡ n
unfolding print_ℕ
read-print_ℕ n = read-print_digits (suc n) n [] (omega arith) ∙ (unfold read_digits in refl)

stoi_digits :
    (c : ℕ) (s : Text)
    → is_digit c ≡ true
    → read_digits 0 (c ∷ s) ≤ 2147483647
    → stoi (c ∷ s) ≡ some (pos (read_digits 0 (c ∷ s)))
unfolding stoi
stoi_digits c s h k = ground arith

-- stoi reads back what to_string prints, in the range of int.
pub stoi-print_ℕ : (n : ℕ) → n ≤ 2147483647 → stoi (print_ℕ n) ≡ some (pos n)
stoi-print_ℕ n h =
    let (d, s, e, digits) = print_ℕ-cons n in
    let value : read_digits 0 (d ∷ s) ≡ n = ap (read_digits 0) (sym e) ∙ read-print_ℕ n in
    ap stoi e ∙ stoi_digits d s digits.0 (omega arith) ∙ ap (λ k. some (pos k)) value
