-- ===== src/RequestHandler/Buffer.antt =====
-- The latency buffer that SNBRequestHandlerModel.hxx is given (a template parameter), as an
-- interface, and the element type.
use snbmodules.Common.{
  Bool, true, ℕ, zero, suc, ◌≤◌, ◌≡◌, refl, Option, none, some, List, [], ◌∷◌, length,
}

-- What the code reads of a ReadoutType: get_timestamp(), begin() and get_payload_size().
pub record Element : Type 0 where
  pub timestamp : ℕ
  pub address : ℕ
  pub payload_size : ℕ

abbrev pub head? : List Element → Option Element
head? [] = none
head? (e ∷ es) = some e

abbrev pub last? : List Element → Option Element
last? [] = none
last? (e ∷ []) = some e
last? (e ∷ f ∷ es) = last? (f ∷ es)

abbrev pub drop : ℕ → List Element → List Element
drop n [] = []
drop n (e ∷ es) = elim n [ zero ↦ e ∷ es | suc k ↦ drop k es ]

-- Timestamps do not fall along the list.
abbrev pub Ascending : List Element → Type 0
Ascending [] = Unit
Ascending (e ∷ []) = Unit
Ascending (e ∷ f ∷ es) = (e.timestamp ≤ f.timestamp) × Ascending (f ∷ es)

-- The operations that the request handler calls. `begin` lists what an iterator from begin()
-- passes over while it is good(); `end_reference` says whether an iterator that has passed the last element
-- can still be dereferenced. The laws say that a buffer is a sequence of elements.
pub record LatencyBuffer : Type 1 where
  pub Buffer : Type 0
  pub begin : Buffer → List Element
  pub occupancy : Buffer → ℕ
  pub front : Buffer → Option Element
  pub back : Buffer → Option Element
  pub pop : ℕ → Buffer → Buffer
  pub end_reference : Bool
  pub occupancy_begin : (b : Buffer) → occupancy b ≡ length (begin b)
  pub front_begin : (b : Buffer) → front b ≡ head? (begin b)
  pub back_begin : (b : Buffer) → back b ≡ last? (begin b)
  pub begin_pop : (n : ℕ) (b : Buffer) → begin (pop n b) ≡ drop n (begin b)

-- A buffer that meets the laws.
abbrev pub list_buffer : LatencyBuffer
list_buffer = record {
  Buffer = List Element;
  begin = λ b. b;
  occupancy = length;
  front = head?;
  back = last?;
  pop = drop;
  end_reference = true;
  occupancy_begin = λ b. refl;
  front_begin = λ b. refl;
  back_begin = λ b. refl;
  begin_pop = λ n b. refl;
}
