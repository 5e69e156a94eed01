-- ===== src/RequestHandler/Pieces.antt =====
-- get_fragment_pieces of SNBRequestHandlerModel.hxx: the loop that gathers the elements of a window.
use snbmodules.Common.{
  ℕ, Bool, true, false, ◌&&◌, ◌||◌, List, [], ◌∷◌, ltb, leb, ◌==◌, if◌then◌else◌,
}
use snbmodules.RequestHandler.Buffer.{Element}

-- std::set<uint64_t>, of which only count, insert, erase and empty are used.
unfoldable pub count : ℕ → List ℕ → Bool
count t [] = false
count t (s ∷ ss) = (s == t) || count t ss

unfoldable pub insert : ℕ → List ℕ → List ℕ
unfolding count
insert t ss = if count t ss then ss else t ∷ ss

unfoldable pub erase : ℕ → List ℕ → List ℕ
erase t [] = []
erase t (s ∷ ss) = let rest = erase t ss in if s == t then rest else s ∷ rest

-- A fragment piece: the address and the size of the payload.
pub record Piece : Type 0 where
  pub address : ℕ
  pub size : ℕ

abbrev pub piece_of : Element → Piece
piece_of e = record { address = e.address; size = e.payload_size }

-- One round of the loop: the pieces so far and the pop list.
unfoldable pub visit : ℕ → Element → List Piece × List ℕ → List Piece × List ℕ
unfolding count insert
visit start_win e (pieces, pops) =
    if count e.timestamp pops
    then (pieces, pops)
    else if ltb e.timestamp start_win
    then (pieces, pops)
    else (piece_of e ∷ pieces, insert e.timestamp pops)

-- The while loop; the pieces stand newest first until the loop is done.
unfoldable pub gather : ℕ → ℕ → List Element → List Piece × List ℕ → List Piece × List ℕ
gather start_win end_win [] s = s
gather start_win end_win (e ∷ es) s =
    let rest = gather start_win end_win es (visit start_win e s) in
    if leb e.timestamp end_win then rest else s

-- Does the loop come to the end? It then dereferences its iterator once more.
unfoldable pub passes_end : ℕ → List Element → Bool
passes_end end_win [] = true
passes_end end_win (e ∷ es) = let rest = passes_end end_win es in leb e.timestamp end_win && rest
