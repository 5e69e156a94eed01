-- ===== src/DataHandling/Window.antt =====
-- Which elements a round of postprocess_schedule handles
-- (include/snbmodules/readout/detail/SNBDataHandlingModel.hxx).
use snbmodules.Common.{
  le→leb, leb→le, ==_refl, ℕ, ◌≡◌, ◌≤◌, refl, ap, ◌∙◌, false, ◌&&◌, some, List, [], ◌∷◌, length,
  ltb, leb, ◌==◌, keep, arith, Bool-cases, inl, inr, All, All-map, keep_yes, keep_no, keep_none,
}
use mathlib.Core.Path.{subst}
use snbmodules.RequestHandler.Buffer.{Element, Ascending}
use snbmodules.DataHandling.Schedule.{walk}

-- The elements of a window: its start is in it, its end is not.
abbrev pub window : ℕ → ℕ → List Element → List Element
window a b = keep (λ e. leb a e.timestamp && ltb e.timestamp b)

abbrev since : ℕ → List Element → List Element
since a = keep (λ e. leb a e.timestamp)

-- The elements behind one are not before it.
Ascending-All :
    (e : Element) (es : List Element) → Ascending (e ∷ es) → All (λ f. e.timestamp ≤ f.timestamp) es
Ascending-All e [] h = tt
Ascending-All e (f ∷ es) h = (
  h.0,
  All-map es (λ g (k : f.timestamp ≤ g.timestamp). omega (arith, h.0, k)) (Ascending-All f es h.1),
)

Ascending-tail : (e : Element) (es : List Element) → Ascending (e ∷ es) → Ascending es
Ascending-tail e [] h = tt
Ascending-tail e (f ∷ es) h = h.1

since-length : (a : ℕ) (es : List Element) → length (since a es) ≤ length es
since-length a [] = omega arith
since-length a (e ∷ es) =
    let rest = since-length a es in
    elim (Bool-cases (leb a e.timestamp)) [
      | inl k ↦ omega (arith, rest, ap length (keep_yes (λ f. leb a f.timestamp) e es k))
      | inr k ↦ omega (arith, rest, ap length (keep_no (λ f. leb a f.timestamp) e es k))
    ]

since-all : (a : ℕ) (es : List Element) → All (λ f. a ≤ f.timestamp) es → since a es ≡ es
since-all a [] h = refl
since-all a (e ∷ es) h =
    keep_yes (λ f. leb a f.timestamp) e es (le→leb a e.timestamp h.0)
    ∙ ap (λ fs. e ∷ fs) (since-all a es h.1)

walk_cong :
    (x x' y y' z z' : List Element)
    → x ≡ x'
    → y ≡ y'
    → z ≡ z'
    → walk x' y' ≡ some z'
    → walk x y ≡ some z
walk_cong x x' y y' z z' p q r h = cc

-- At the end of the window, and before it.
walk-stop : (es : List Element) → walk es es ≡ some []
unfolding walk
walk-stop [] = refl
walk-stop (e ∷ es) = rw (==_refl (length (e ∷ es))) refl

walk-on :
    (e : Element) (es stop items : List Element)
    → length stop ≤ length es
    → walk es stop ≡ some items
    → walk (e ∷ es) stop ≡ some (e ∷ items)
unfolding walk
walk-on e es stop items l h =
    let k : (length (e ∷ es) == length stop) ≡ false = ground (arith, l) in rw (k, h) refl

-- From lower_bound to lower_bound, the loop passes exactly over the window.
pub walk-window :
    (a b : ℕ) (es : List Element)
    → a ≤ b
    → Ascending es
    → walk (since a es) (since b es) ≡ some (window a b es)
walk-window a b [] h v = walk-stop []
walk-window a b (e ∷ es) h v =
    let rest = walk-window a b es h (Ascending-tail e es v) in
    let later = Ascending-All e es v in
    let in_window = λ (f : Element). leb a f.timestamp && ltb f.timestamp b in
    elim (Bool-cases (leb a e.timestamp)) [
      | inr k ↦
          walk_cong _ (since a es) _ (since b es) _ (window a b es)
            (keep_no (λ f. leb a f.timestamp) e es k)
            (keep_no (λ f. leb b f.timestamp) e es (ground (arith, k, h)))
            (keep_no in_window e es (rw k refl)) rest
      | inl k ↦
          let le = leb→le a e.timestamp k in
          let all_a =
            since-all a es
              (All-map es (λ f (l : e.timestamp ≤ f.timestamp). omega (arith, le, l)) later) in
          let here = keep_yes (λ f. leb a f.timestamp) e es k ∙ ap (λ fs. e ∷ fs) all_a in
          elim (Bool-cases (leb b e.timestamp)) [
            | inl kb ↦
                let leb_e = leb→le b e.timestamp kb in
                walk_cong _ (e ∷ es) _ (e ∷ es) _ [] here
                  (since-all b (e ∷ es) (
                    leb_e,
                    All-map es (λ f (l : e.timestamp ≤ f.timestamp). omega (arith, leb_e, l)) later,
                  ))
                  (keep_none in_window (e ∷ es) (
                    ground (arith, leb_e),
                    All-map es (λ f (l : e.timestamp ≤ f.timestamp). ground (arith, leb_e, l))
                        later,
                  ))
                  (walk-stop (e ∷ es))
            | inr kb ↦
                walk_cong _ (e ∷ es) _ (since b es) _ (e ∷ window a b es) here
                  (keep_no (λ f. leb b f.timestamp) e es kb)
                  (keep_yes in_window e es (rw k (ground (arith, kb))))
                  (walk-on e es (since b es) (window a b es) (since-length b es)
                    (subst (λ fs. walk fs (since b es) ≡ some (window a b es)) all_a rest))
          ]
    ]
