-- ===== src/IpFormat/RoundTrip.antt =====
-- The text form of an address is read back, and the two orders that the class defines.
use snbmodules.Common.{
  ℕ, ◌≤◌, ◌≡◌, ◌≢◌, refl, sym, ap, ◌∙◌, inl, inr, true, false, some, List, [], ◌∷◌, ◌++◌, Text,
  ◌==◌, arith, All, All-append, All-map, Bool-cases, pos, stoi, print_ℕ, print_ℕ-cons,
  print_ℕ-IsDigits, stoi-print_ℕ, IsDigits, is_digit, text_eq, text_eq→eq, le→leb,
}
use mathlib.Core.List.{append_assoc, append-nil}
use snbmodules.IpFormat.Address.{
  IpFormat, until_nul, close, tokens, set_port, set_tokens, set_ip, make, copy, default_ip, ip_lt,
  get_ip_port,
}
use snbmodules.IpFormat.Valid.{Plain, IsToken, IsValid}

abbrev NoNul : Text → Type 0
NoNul = All (λ c. (c == 0) ≡ false)

until_nul-NoNul : (s : Text) → NoNul s → until_nul s ≡ s
unfolding until_nul
until_nul-NoNul [] h = refl
until_nul-NoNul (c ∷ s) h = rw h.0 (ap (λ t. c ∷ t) (until_nul-NoNul s h.1))

Plain-NoNul : (s : Text) → All Plain s → NoNul s
Plain-NoNul s = All-map s (λ c h. h.1)

IsToken-Plain : (t : Text) → IsToken t → All Plain t
IsToken-Plain [] h = absurd h
IsToken-Plain (c ∷ t) h = h

close-IsToken : (t : Text) (ts : List Text) → IsToken t → close t ts ≡ t ∷ ts
unfolding close
close-IsToken [] ts h = absurd h
close-IsToken (c ∷ t) ts h = refl

-- What stands before a colon goes into the token that is being read.
tokens-append :
    (cur a s : Text) → All Plain a → tokens cur (a ++ (58 ∷ s)) ≡ close (cur ++ a) (tokens [] s)
unfolding tokens
tokens-append cur [] s h = ap (λ c. close c (tokens [] s)) (sym (append-nil cur))
tokens-append cur (c ∷ a) s h = rw h.0.0 (
    tokens-append (cur ++ c ∷ []) a s h.1
    ∙ ap (λ k. close k (tokens [] s)) (append_assoc cur (c ∷ []) a))

tokens-Plain : (cur a : Text) → All Plain a → tokens cur a ≡ close (cur ++ a) []
unfolding tokens
tokens-Plain cur [] h = ap (λ c. close c []) (sym (append-nil cur))
tokens-Plain cur (c ∷ a) h =
    rw h.0.0
      (tokens-Plain (cur ++ c ∷ []) a h.1 ∙ ap (λ k. close k []) (append_assoc cur (c ∷ []) a))

digit-Plain : (c : ℕ) → is_digit c ≡ true → Plain c
digit-Plain c h = ground arith

digits-Plain : (s : Text) → IsDigits s → All Plain s
digits-Plain s = All-map s digit-Plain

-- The tokens of an address, a colon and a number.
tokens_printed :
    (a : Text) (n : ℕ) → IsToken a → tokens [] (a ++ (58 ∷ print_ℕ n)) ≡ a ∷ print_ℕ n ∷ []
tokens_printed a n h =
    let (d, s, e, digits) = print_ℕ-cons n in
    tokens-append [] a (print_ℕ n) (IsToken-Plain a h)
    ∙ close-IsToken a (tokens [] (print_ℕ n)) h
    ∙ ap (λ ts. a ∷ ts)
        (ap (tokens []) e
          ∙ tokens-Plain [] (d ∷ s) (digits-Plain (d ∷ s) digits)
          ∙ close-IsToken (d ∷ s) [] (digits-Plain (d ∷ s) digits)
          ∙ ap (λ t. t ∷ []) (sym e))

set_tokens_pair :
    (a b : Text) (n : ℕ) (f : IpFormat)
    → stoi b ≡ some (pos n)
    → n ≤ 65535
    → set_tokens (a ∷ b ∷ []) f ≡ some (record { ip = a; port = n })
unfolding set_tokens set_port
set_tokens_pair a b n f e h = rw (e, le→leb n 65535 h) refl

set_ip_cons :
    (s : Text) (f : IpFormat) (c : ℕ) (r : Text)
    → s ≡ c ∷ r
    → set_ip s f ≡ set_tokens (tokens [] (until_nul s)) f
unfolding set_ip
set_ip_cons s f c r e = rw e refl

printed_cons : (a b : Text) → IsToken a → (c : ℕ) × (r : Text) × (a ++ b ≡ c ∷ r)
printed_cons [] b h = absurd h
printed_cons (c ∷ a) b h = (c, a ++ b, refl)

set_ip_printed : (f g : IpFormat) → IsValid f → set_ip (get_ip_port f) g ≡ some f
unfolding get_ip_port
set_ip_printed f g v =
    let printed : Text = f.ip ++ (58 ∷ print_ℕ f.port) in
    let (c, r, e) = printed_cons f.ip (58 ∷ print_ℕ f.port) v.address in
    let plain : NoNul printed =
      All-append (λ k. (k == 0) ≡ false) f.ip (58 ∷ print_ℕ f.port)
        (Plain-NoNul f.ip (IsToken-Plain f.ip v.address))
        (
          refl,
          Plain-NoNul (print_ℕ f.port) (digits-Plain (print_ℕ f.port) (print_ℕ-IsDigits f.port)),
        ) in
    set_ip_cons printed g c r e
    ∙ ap (λ s. set_tokens (tokens [] s) g) (until_nul-NoNul printed plain)
    ∙ ap (λ ts. set_tokens ts g) (tokens_printed f.ip f.port v.address)
    ∙ set_tokens_pair f.ip (print_ℕ f.port) f.port g
        (stoi-print_ℕ f.port (omega (arith, v.port_range))) v.port_range

-- An IPFormat is read back from the text that get_ip_port gives.
pub make-get_ip_port : (f : IpFormat) → IsValid f → make (get_ip_port f) (pos 0) ≡ some f
unfolding make set_port
make-get_ip_port f v = set_ip_printed f default_ip v

set_ip_token : (a : Text) (g : IpFormat) → IsToken a → set_ip a g ≡ some (record g { ip = a })
unfolding set_tokens
set_ip_token [] g h = absurd h
set_ip_token (c ∷ a) g h =
    set_ip_cons (c ∷ a) g c a refl
    ∙ ap (λ s. set_tokens (tokens [] s) g) (until_nul-NoNul (c ∷ a) (Plain-NoNul (c ∷ a) h))
    ∙ ap (λ ts. set_tokens ts g) (tokens-Plain [] (c ∷ a) h ∙ close-IsToken (c ∷ a) [] h)

-- The copy constructor, which reads the address again, gives the same IPFormat.
pub copy_lem : (f : IpFormat) → IsValid f → copy f ≡ some f
unfolding copy set_port
copy_lem f v =
    rw (le→leb f.port 65535 v.port_range)
      (set_ip_token f.ip (record default_ip { port = f.port }) v.address)

ip_ne : (s t : Text) → s ≢ t → text_eq s t ≡ false
ip_ne s t h = elim (Bool-cases (text_eq s t)) [ inl e ↦ absurd (h (text_eq→eq s t e)) | inr e ↦ e ]

-- operator< is no order: of two addresses that differ each is less than the other.
pub ip_lt_both : (a b : IpFormat) → a.ip ≢ b.ip → (ip_lt a b ≡ true) × (ip_lt b a ≡ true)
unfolding ip_lt
ip_lt_both a b h = (rw (ip_ne a.ip b.ip h) refl, rw (ip_ne b.ip a.ip (λ e. h (sym e))) refl)
