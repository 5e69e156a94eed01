-- ===== src/RequestHandler/Once.antt =====
-- The pop list after get_fragment_pieces, and two requests one after the other.
use native.Mathlib.Decide.{dec_le}
use mathlib.Core.List.{reverse, reverse-reverse, append-nil}
use mathlib.Core.Path.{subst}
use snbmodules.Common.{
  ℕ, ◌≤◌, ◌<◌, ◌≡◌, refl, sym, ap, ◌∙◌, inl, inr, Bool, not, ◌&&◌, ◌||◌, List, [], ◌∷◌, map, arith,
  leb, All, All-map, All-zip, keep, keep_cong, Bool-cases, some,
}
use snbmodules.RequestHandler.Buffer.{Element, LatencyBuffer}
use snbmodules.RequestHandler.Pieces.{count, Piece, piece_of, visit, gather}
use snbmodules.RequestHandler.State.{found, Handler}
use snbmodules.RequestHandler.Request.{get_fragment_pieces}
use snbmodules.RequestHandler.Delivery.{
  Rising, wanted, count-insert, gather_within, gather_past, gather-keep,
}

abbrev pub in_window : ℕ → ℕ → Element → Bool
in_window start_win end_win x = leb start_win x.timestamp && leb x.timestamp end_win

count-visit_other :
    (start_win : ℕ) (e : Element) (t : ℕ) (s : List Piece × List ℕ)
    → t < e.timestamp
    → count t (visit start_win e s).1 ≡ count t s.1
unfolding visit
count-visit_other start_win e t (ps, pops) h = ground (arith, count-insert e.timestamp t pops)

-- Elements with later timestamps leave a timestamp's mark alone.
count-gather_other :
    (start_win end_win t : ℕ) (es : List Element) (s : List Piece × List ℕ)
    → All (λ x. t < x.timestamp) es
    → count t (gather start_win end_win es s).1 ≡ count t s.1
unfolding gather
count-gather_other start_win end_win t [] s h = refl
count-gather_other start_win end_win t (e ∷ es) s h = elim (Bool-cases (leb e.timestamp end_win)) [
  | inl w ↦ rw w (
      count-gather_other start_win end_win t es (visit start_win e s) h.1
      ∙ count-visit_other start_win e t s h.0)
  | inr w ↦ rw w refl
]

count-visit_self :
    (start_win end_win : ℕ) (e : Element) (ps : List Piece) (pops : List ℕ)
    → e.timestamp ≤ end_win
    → count e.timestamp (visit start_win e (ps, pops)).1
      ≡ (count e.timestamp pops || in_window start_win end_win e)
unfolding visit
count-visit_self start_win end_win e ps pops h =
    ground (arith, count-insert e.timestamp e.timestamp pops)

-- Marking an element leaves the marks of later ones alone.
count-visit_later :
    (start_win : ℕ) (e x : Element) (s : List Piece × List ℕ)
    → e.timestamp < x.timestamp
    → count x.timestamp (visit start_win e s).1 ≡ count x.timestamp s.1
unfolding visit
count-visit_later start_win e x (ps, pops) h =
    ground (arith, count-insert e.timestamp x.timestamp pops)

abbrev Marked : ℕ → ℕ → List ℕ → List ℕ → Element → Type 0
Marked start_win end_win pops pops' x =
    count x.timestamp pops' ≡ (count x.timestamp pops || in_window start_win end_win x)

Marked-past :
    (start_win end_win : ℕ) (pops : List ℕ) (x : Element)
    → end_win < x.timestamp
    → Marked start_win end_win pops pops x
Marked-past start_win end_win pops x h = ground arith

-- After the loop an element is marked if it was before or lies in the window.
pub count-gather :
    (start_win end_win : ℕ) (es : List Element) (ps : List Piece) (pops : List ℕ)
    → Rising es
    → All (Marked start_win end_win pops (gather start_win end_win es (ps, pops)).1) es
count-gather start_win end_win [] ps pops r = tt
count-gather start_win end_win (e ∷ es) ps pops r = elim (dec_le e.timestamp end_win) [
  | yes here ↦
      subst (λ g. All (Marked start_win end_win pops g.1) (e ∷ es))
        (sym (gather_within start_win end_win e es (ps, pops) here))
        (
          count-gather_other start_win end_win e.timestamp es (visit start_win e (ps, pops)) r.0
              ∙ count-visit_self start_win end_win e ps pops here,
          All-zip es
              (λ x (m : Marked start_win end_win (visit start_win e (ps, pops)).1 _ x) l.
                m
                ∙ ap (λ b. b || in_window start_win end_win x)
                    (count-visit_later start_win e x (ps, pops) l))
              (count-gather start_win end_win es (visit start_win e (ps, pops)).0
                (visit start_win e (ps, pops)).1 r.1)
              r.0,
        )
  | no past ↦
      subst (λ g. All (Marked start_win end_win pops g.1) (e ∷ es))
        (sym (gather_past start_win end_win e es (ps, pops) (omega arith)))
        (
          Marked-past start_win end_win pops e (omega arith),
          All-map es
              (λ x (l : e.timestamp < x.timestamp).
                Marked-past start_win end_win pops x (omega arith))
              r.0,
        )
]

-- What a request wants after another one has been served: what it wanted, less that one's window.
wanted-Marked :
    (s t s' t' : ℕ) (pops pops' : List ℕ) (x : Element)
    → Marked s t pops pops' x
    → wanted s' t' pops' x ≡ (wanted s' t' pops x && not (in_window s t x))
unfolding wanted
wanted-Marked s t s' t' pops pops' x m = ground arith

module _ {lb : LatencyBuffer} where
  -- What a successful get_fragment_pieces returns, by its parts.
  pub found_parts :
      (s t : ℕ) (h h' : Handler lb) (pieces : List Piece)
      → get_fragment_pieces s t h ≡ some (found, pieces, h')
      → (pieces ≡ reverse (gather s t (lb.begin h.buffer) ([], h.pop_list)).0)
        × (h' ≡ record h { pop_list = (gather s t (lb.begin h.buffer) ([], h.pop_list)).1 })
  unfolding get_fragment_pieces
  found_parts s t h h' pieces e = ground arith

  -- In a buffer whose timestamps rise strictly, a request that finds its data gets exactly the elements of the
  -- buffer that lie in its window and have not been delivered before, in the order of the buffer.
  pub get_fragment_pieces_window :
      (s t : ℕ) (h h' : Handler lb) (pieces : List Piece)
      → Rising (lb.begin h.buffer)
      → get_fragment_pieces s t h ≡ some (found, pieces, h')
      → pieces ≡ map piece_of (keep (wanted s t h.pop_list) (lb.begin h.buffer))
  get_fragment_pieces_window s t h h' pieces r e =
      (found_parts s t h h' pieces e).0
      ∙ ap reverse (gather-keep s t (lb.begin h.buffer) [] h.pop_list r ∙ append-nil _)
      ∙ reverse-reverse _

  -- Of two requests that find their data in one buffer, whose timestamps rise strictly, the second gets none of
  -- what lies in the window of the first, and all else that it wants, in the order of the buffer.
  pub get_fragment_pieces_once :
      (s t s' t' : ℕ) (h h' h'' : Handler lb) (pieces pieces' : List Piece)
      → Rising (lb.begin h.buffer)
      → get_fragment_pieces s t h ≡ some (found, pieces, h')
      → get_fragment_pieces s' t' h' ≡ some (found, pieces', h'')
      → pieces'
        ≡ map piece_of
            (keep (λ x. wanted s' t' h.pop_list x && not (in_window s t x)) (lb.begin h.buffer))
  get_fragment_pieces_once s t s' t' h h' h'' pieces pieces' r e e' =
      let after : h' ≡ record h { pop_list = (gather s t (lb.begin h.buffer) ([], h.pop_list)).1 } =
        (found_parts s t h h' pieces e).1 in
      let same : lb.begin h'.buffer ≡ lb.begin h.buffer = ap (λ k. lb.begin k.buffer) after in
      get_fragment_pieces_window s' t' h' h'' pieces' (subst Rising (sym same) r) e'
      ∙ ap (λ k. map piece_of (keep (wanted s' t' k.pop_list) (lb.begin k.buffer))) after
      ∙ ap (map piece_of) (
          keep_cong _ _ (lb.begin h.buffer) (
            All-map (lb.begin h.buffer)
              (λ x m.
                wanted-Marked s t s' t' h.pop_list
                  (gather s t (lb.begin h.buffer) ([], h.pop_list)).1 x m)
              (count-gather s t (lb.begin h.buffer) [] h.pop_list r)))
