-- ===== src/FilePath/Spec.antt =====
-- What the removal loop computes: one pass from left to right.
use mathlib.Core.List.{append_assoc}
use mathlib.Core.Option
use mathlib.Core.Path.{ap₂}
use native.Mathlib.Nat.{add-zero}
use snbmodules.Common.{
  ℕ, zero, suc, ◌+◌, ◌<◌, ◌≡◌, refl, sym, ap, ◌∙◌, inl, inr, true, false, none, some, [], ◌∷◌, ◌++◌,
  Text, arith, if◌then◌else◌, length, drop, length-append, drop-append, take-append, Option-cases,
  Bool-cases, ◌==◌, ◌&&◌,
}
use mathlib.Core.Option.{some_inj}
use snbmodules.FilePath.Strip.{find?, find_from, erase_at, strip_loop, strip}

-- Each "./" met from the left is dropped; what its removal joins is not looked at again.
unfoldable pub one_pass : Text → Text
one_pass [] = []
one_pass (c ∷ []) = c ∷ []
one_pass (c ∷ d ∷ s) =
    let dropped = one_pass s in
    let kept = c ∷ one_pass (d ∷ s) in if (46 == c) && (47 == d) then dropped else kept

-- Where the text is found, and how one_pass goes on there.
abbrev Found : Text → ℕ → Type 0
Found s i =
    (a : Text) × (b : Text) × (s ≡ a ++ (46 ∷ 47 ∷ b))
    × (length a ≡ i)
    × (one_pass s ≡ a ++ one_pass b)

find?-single : (c : ℕ) → find? (c ∷ []) ≡ none
unfolding find?
find?-single c = ground arith

find?-hit :
    (c d i : ℕ) (s : Text)
    → ((46 == c) && (47 == d)) ≡ true
    → find? (c ∷ d ∷ s) ≡ some i
    → (c ≡ 46) × (d ≡ 47) × (i ≡ 0)
unfolding find?
find?-hit c d i s e h = ground arith

find?-miss :
    (c d i : ℕ) (s : Text)
    → ((46 == c) && (47 == d)) ≡ false
    → find? (c ∷ d ∷ s) ≡ some i
    → (j : ℕ) × (find? (d ∷ s) ≡ some j) × (i ≡ suc j)
unfolding find?
find?-miss c d i s e h = elim (Option-cases (find? (d ∷ s))) [
  | inl n ↦ absurd (ground arith)
  | inr (j, q) ↦ (j, q, ground arith)
]

find?-some : (s : Text) (i : ℕ) → find? s ≡ some i → Found s i
unfolding one_pass
find?-some [] i h = absurd (unfold find? in cc)
find?-some (c ∷ []) i h = absurd (cc (find?-single c))
find?-some (c ∷ d ∷ s) i h = elim (Bool-cases ((46 == c) && (47 == d))) [
  | inl hit ↦
      let (p, q, r) = find?-hit c d i s hit h in ([], s, ground arith, omega arith, rw hit refl)
  | inr miss ↦
      let (j, q, r) = find?-miss c d i s miss h in
      let (a, b, split, len, rest) = find?-some (d ∷ s) j q in
      (c ∷ a, b, ap (λ t. c ∷ t) split, omega arith, rw miss (ap (λ t. c ∷ t) rest))
]

find?-none : (s : Text) → find? s ≡ none → one_pass s ≡ s
unfolding find? one_pass
find?-none [] h = refl
find?-none (c ∷ []) h = refl
find?-none (c ∷ d ∷ s) h = ground (arith, find?-none (d ∷ s))

-- A removal where the text is split at the position.
erase_at-append : (p b : Text) → erase_at (p ++ (46 ∷ 47 ∷ b)) (length p) ≡ p ++ b
unfolding erase_at
erase_at-append p b =
    ap₂ (λ s t. s ++ t) (take-append p (46 ∷ 47 ∷ b)) (drop-append p (46 ∷ 47 ∷ b) 2)

find_from-append :
    (pre s : Text) → find_from (pre ++ s) (length pre) ≡ Option.map (λ i. length pre + i) (find? s)
unfolding find_from
find_from-append pre s =
    ap (λ t. Option.map (λ i. length pre + i) (find? t))
      (ap (λ n. drop n (pre ++ s)) (sym (add-zero (length pre))) ∙ drop-append pre s 0)

strip_loop_stop :
    (fuel : ℕ) (s : Text) (at : ℕ) → find_from s at ≡ none → strip_loop (suc fuel) s at ≡ s
unfolding strip_loop
strip_loop_stop fuel s at h = ground arith

strip_loop_go :
    (fuel : ℕ) (s : Text) (at i : ℕ)
    → find_from s at ≡ some i
    → strip_loop (suc fuel) s at ≡ strip_loop fuel (erase_at s i) i
unfolding strip_loop
strip_loop_go fuel s at i h = ground arith

strip_loop-one_pass :
    (fuel : ℕ) (pre s : Text)
    → length s < fuel
    → strip_loop fuel (pre ++ s) (length pre) ≡ pre ++ one_pass s
strip_loop-one_pass zero pre s h = absurd (omega arith)
strip_loop-one_pass (suc fuel) pre s h = elim (Option-cases (find? s)) [
  | inl n ↦
      strip_loop_stop fuel (pre ++ s) (length pre)
        (find_from-append pre s ∙ ap (Option.map (λ i. length pre + i)) n)
      ∙ ap (λ t. pre ++ t) (sym (find?-none s n))
  | inr (i, q) ↦
      let (a, b, split, len, rest) = find?-some s i q in
      let at : length pre + i ≡ length (pre ++ a) = omega (arith, length-append pre a) in
      let joined : pre ++ s ≡ (pre ++ a) ++ (46 ∷ 47 ∷ b) =
        ap (λ t. pre ++ t) split ∙ sym (append_assoc pre a (46 ∷ 47 ∷ b)) in
      let shorter : length b < fuel =
        omega (arith, ap length split, length-append a (46 ∷ 47 ∷ b)) in
      strip_loop_go fuel (pre ++ s) (length pre) (length pre + i)
        (find_from-append pre s ∙ ap (Option.map (λ i. length pre + i)) q)
      ∙ ap₂ (λ t n. strip_loop fuel (erase_at t n) n) joined at
      ∙ ap (λ t. strip_loop fuel t (length (pre ++ a))) (erase_at-append (pre ++ a) b)
      ∙ strip_loop-one_pass fuel (pre ++ a) b shorter
      ∙ append_assoc pre a (one_pass b)
      ∙ ap (λ t. pre ++ t) (sym rest)
]

-- The removal is one pass from the left: each "./" that is met is dropped, and what stood behind it is looked at
-- next, but not together with what stood before. The loop reaches its end with its fuel.
pub strip-one_pass : (s : Text) → strip s ≡ one_pass s
unfolding strip
strip-one_pass s = strip_loop-one_pass (suc (length s)) [] s (omega arith)

-- A text with no "./" in it is left as it is.
pub strip-none : (s : Text) → find? s ≡ none → strip s ≡ s
strip-none s h = strip-one_pass s ∙ find?-none s h

one_pass-dotted :
    (p s : Text)
    → find? (p ++ 46 ∷ []) ≡ none
    → one_pass (p ++ (46 ∷ 46 ∷ 47 ∷ s)) ≡ p ++ (46 ∷ one_pass s)
unfolding one_pass find?
one_pass-dotted [] s h = refl
one_pass-dotted (c ∷ []) s h = ground arith
one_pass-dotted (c ∷ d ∷ p) s h = ground (arith, one_pass-dotted (d ∷ p) s)

-- In a path whose first "./" is the end of a "../", the "../" loses its second dot and its slash: the name of the
-- directory above is gone, the dot that is left stands before what follows, and the rest is stripped alike.
pub strip-parent :
    (p s : Text)
    → find? (p ++ 46 ∷ []) ≡ none
    → strip (p ++ (46 ∷ 46 ∷ 47 ∷ s)) ≡ p ++ (46 ∷ strip s)
strip-parent p s h =
    strip-one_pass (p ++ (46 ∷ 46 ∷ 47 ∷ s))
    ∙ one_pass-dotted p s h
    ∙ ap (λ t. p ++ (46 ∷ t)) (sym (strip-one_pass s))
