-- ===== src/RequestHandler/Delivery.antt =====
-- What get_fragment_pieces delivers: the window, each timestamp once.
use mathlib.Core.List.{reverse, reverse-cons, append_assoc}
use native.Mathlib.Decide.{dec_le}
use snbmodules.Common.{
  ℕ, ◌≤◌, ◌<◌, ◌≡◌, refl, sym, ap, ◌∙◌, inl, inr, Bool, false, not, ◌&&◌, ◌||◌, List, [], ◌∷◌, ◌++◌,
  map, arith, leb, ◌==◌, if◌then◌else◌, All, All-map, keep, keep_cong, keep_none, keep_yes, keep_no,
  Bool-cases,
}
use snbmodules.RequestHandler.Buffer.{Element}
use snbmodules.RequestHandler.Pieces.{count, insert, Piece, piece_of, visit, gather}

-- Timestamps rise along the list.
abbrev pub Rising : List Element → Type 0
Rising [] = Unit
Rising (e ∷ es) = All (λ x. e.timestamp < x.timestamp) es × Rising es

-- An element that a request for a window is to get: in the window, and not delivered before.
unfoldable pub wanted : ℕ → ℕ → List ℕ → Element → Bool
wanted start_win end_win pops e =
    leb start_win e.timestamp && leb e.timestamp end_win && not (count e.timestamp pops)

pub count-insert : (t s : ℕ) (pops : List ℕ) → count s (insert t pops) ≡ (t == s || count s pops)
unfolding insert count
count-insert t s pops = elim (Bool-cases (count t pops)) [
  | inl old ↦ rw old (ground arith)
  | inr new ↦ rw new
]

-- Later elements have other timestamps, so what an insertion adds does not concern them.
wanted-insert :
    (start_win end_win : ℕ) (pops : List ℕ) (e x : Element)
    → e.timestamp < x.timestamp
    → wanted start_win end_win (insert e.timestamp pops) x ≡ wanted start_win end_win pops x
unfolding wanted
wanted-insert start_win end_win pops e x h =
    ground (arith, count-insert e.timestamp x.timestamp pops)

-- One round keeps the element if it is wanted, and then marks it.
visit_lem :
    (start_win end_win : ℕ) (e : Element) (ps : List Piece) (pops : List ℕ)
    → e.timestamp ≤ end_win
    → visit start_win e (ps, pops) ≡ (
        if wanted start_win end_win pops e
        then (piece_of e ∷ ps, insert e.timestamp pops)
        else (ps, pops))
unfolding visit wanted
visit_lem start_win end_win e ps pops h = ground arith

keep-wanted-insert :
    (start_win end_win : ℕ) (pops : List ℕ) (e : Element) (es : List Element)
    → All (λ x. e.timestamp < x.timestamp) es
    → keep (wanted start_win end_win (insert e.timestamp pops)) es
      ≡ keep (wanted start_win end_win pops) es
keep-wanted-insert start_win end_win pops e es h =
    keep_cong _ _ es (All-map es (λ x p. wanted-insert start_win end_win pops e x p) h)

-- Past the end of the window nothing is wanted.
wanted_past :
    (start_win end_win : ℕ) (pops : List ℕ) (x : Element)
    → end_win < x.timestamp
    → wanted start_win end_win pops x ≡ false
unfolding wanted
wanted_past start_win end_win pops x h = ground arith

keep-wanted_past :
    (start_win end_win : ℕ) (pops : List ℕ) (e : Element) (es : List Element)
    → Rising (e ∷ es)
    → end_win < e.timestamp
    → keep (wanted start_win end_win pops) (e ∷ es) ≡ []
keep-wanted_past start_win end_win pops e es r h = keep_none _ (e ∷ es) (
  wanted_past start_win end_win pops e h,
  All-map es
      (λ x (p : e.timestamp < x.timestamp). wanted_past start_win end_win pops x (omega arith)) r.0,
)

-- One round of the loop inside the window.
pub gather_within :
    (start_win end_win : ℕ) (e : Element) (es : List Element) (s : List Piece × List ℕ)
    → e.timestamp ≤ end_win
    → gather start_win end_win (e ∷ es) s ≡ gather start_win end_win es (visit start_win e s)
unfolding gather
gather_within start_win end_win e es s h = ground arith

pub gather_past :
    (start_win end_win : ℕ) (e : Element) (es : List Element) (s : List Piece × List ℕ)
    → end_win < e.timestamp
    → gather start_win end_win (e ∷ es) s ≡ s
unfolding gather
gather_past start_win end_win e es s h = ground arith

reverse-map-cons :
    (e : Element) (es : List Element) (ps : List Piece)
    → reverse (map piece_of (e ∷ es)) ++ ps ≡ reverse (map piece_of es) ++ (piece_of e ∷ ps)
reverse-map-cons e es ps =
    rw (reverse-cons (piece_of e) (map piece_of es))
      (append_assoc (reverse (map piece_of es)) (piece_of e ∷ []) ps)

-- The loop gathers exactly the wanted elements, newest first.
pub gather-keep :
    (start_win end_win : ℕ) (es : List Element) (ps : List Piece) (pops : List ℕ)
    → Rising es
    → (gather start_win end_win es (ps, pops)).0
      ≡ reverse (map piece_of (keep (wanted start_win end_win pops) es)) ++ ps
unfolding gather
gather-keep start_win end_win [] ps pops r = refl
gather-keep start_win end_win (e ∷ es) ps pops r = elim (dec_le e.timestamp end_win) [
  | yes here ↦
      rw
        (
          gather_within start_win end_win e es (ps, pops) here,
          visit_lem start_win end_win e ps pops here,
        )
        (elim (Bool-cases (wanted start_win end_win pops e)) [
          | inl w ↦
              rw (w, keep_yes (wanted start_win end_win pops) e es w)
                (gather-keep start_win end_win es (piece_of e ∷ ps) (insert e.timestamp pops) r.1
                  ∙ ap (λ k. reverse (map piece_of k) ++ (piece_of e ∷ ps))
                      (keep-wanted-insert start_win end_win pops e es r.0)
                  ∙ sym (reverse-map-cons e (keep (wanted start_win end_win pops) es) ps))
          | inr w ↦
              rw (w, keep_no (wanted start_win end_win pops) e es w)
                (gather-keep start_win end_win es ps pops r.1)
        ])
  | no past ↦
      rw
        (
          gather_past start_win end_win e es (ps, pops) (omega arith),
          keep-wanted_past start_win end_win pops e es r (omega arith),
        )
        refl
]
