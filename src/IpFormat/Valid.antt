-- ===== src/IpFormat/Valid.antt =====
-- What every constructed IPFormat satisfies, and how strtok_r's tokens look.
use snbmodules.Common.{
  ℕ, ◌≤◌, ◌≡◌, inl, inr, false, some, List, [], ◌∷◌, ◌++◌, Text, ◌==◌, arith, All, All-append,
  Bool-cases, >>=-eq-some, ℤ, pos, negsuc, stoi,
}
use mathlib.Core.Option.{some_inj}
use mathlib.Core.Path.{subst}
use snbmodules.IpFormat.Address.{
  IpFormat, until_nul, close, tokens, set_port, set_tokens, set_ip, make, default_ip,
}

-- A character of an address.
abbrev pub Plain : ℕ → Type 0
Plain c = ((c == 58) ≡ false) × ((c == 0) ≡ false)

-- A token: not empty, no colon, no NUL.
abbrev pub IsToken : Text → Type 0
IsToken [] = ⊥
IsToken (c ∷ s) = All Plain (c ∷ s)

pub record IsValid (f : IpFormat) : Type 0 where
  pub port_range : f.port ≤ 65535
  pub address : IsToken f.ip

abbrev NoNul : Text → Type 0
NoNul = All (λ c. (c == 0) ≡ false)

until_nul-NoNul : (s : Text) → NoNul (until_nul s)
unfolding until_nul
until_nul-NoNul [] = tt
until_nul-NoNul (c ∷ s) = elim (Bool-cases (c == 0)) [
  | inl e ↦ rw e tt
  | inr e ↦ rw e (e, until_nul-NoNul s)
]

close-IsToken :
    (cur : Text) (ts : List Text) → All Plain cur → All IsToken ts → All IsToken (close cur ts)
unfolding close
close-IsToken [] ts h k = k
close-IsToken (c ∷ cur) ts h k = (h, k)

tokens-IsToken : (cur s : Text) → All Plain cur → NoNul s → All IsToken (tokens cur s)
unfolding tokens
tokens-IsToken cur [] h k = close-IsToken cur [] h tt
tokens-IsToken cur (c ∷ s) h k = elim (Bool-cases (c == 58)) [
  | inl e ↦ rw e (close-IsToken cur (tokens [] s) h (tokens-IsToken [] s tt k.1))
  | inr e ↦
      rw e (tokens-IsToken (cur ++ c ∷ []) s (All-append Plain cur (c ∷ []) h ((e, k.0), tt)) k.1)
]

set_port-range : (n : ℤ) (f g : IpFormat) → set_port n f ≡ some g → (g.port ≤ 65535) × (g.ip ≡ f.ip)
unfolding set_port
set_port-range (pos n) f g h = ground arith
set_port-range (negsuc n) f g h = cc

set_tokens-IsValid :
    (ts : List Text) (f g : IpFormat)
    → All IsToken ts
    → f.port ≤ 65535
    → set_tokens ts f ≡ some g
    → IsValid g
unfolding set_tokens
set_tokens-IsValid [] f g a p h = cc
set_tokens-IsValid (t ∷ []) f g a p h =
    subst IsValid (some_inj.0 h) (record { port_range = p; address = a.0 })
set_tokens-IsValid (t ∷ u ∷ []) f g a p h =
    let (n, e, h') = >>=-eq-some (stoi u) _ h in
    let (f', e', h'') = >>=-eq-some (set_port n f) _ h' in
    subst IsValid (some_inj.0 h'')
      (record { port_range = (set_port-range n f f' e').0; address = a.0 })
set_tokens-IsValid (t ∷ u ∷ v ∷ ts) f g a p h = cc

set_ip-IsValid : (ip : Text) (f g : IpFormat) → f.port ≤ 65535 → set_ip ip f ≡ some g → IsValid g
unfolding set_ip
set_ip-IsValid [] f g p h = cc
set_ip-IsValid (c ∷ s) f g p h =
    set_tokens-IsValid (tokens [] (until_nul (c ∷ s))) f g
      (tokens-IsToken [] (until_nul (c ∷ s)) tt (until_nul-NoNul (c ∷ s))) p h

-- Every IPFormat that the constructor returns has a port of 16 bits, and an address that is not
-- empty and holds no colon and no NUL.
pub make-IsValid : (ip : Text) (port : ℤ) (f : IpFormat) → make ip port ≡ some f → IsValid f
unfolding make
make-IsValid ip port f h =
    let (g, e, h') = >>=-eq-some (set_port port default_ip) _ h in
    set_ip-IsValid ip g f (set_port-range port default_ip g e).0 h'
