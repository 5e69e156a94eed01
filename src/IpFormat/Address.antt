-- ===== src/IpFormat/Address.antt =====
-- IPFormat and its operations; `none` is std::invalid_argument or what std::stoi throws.
use snbmodules.Common.{
  ℕ, Bool, ◌&&◌, ◌||◌, not, Option, none, some, List, [], ◌∷◌, ◌++◌, Text, text, text_eq, ◌==◌, leb,
  ltb, if◌then◌else◌, ◌>>=◌, print_ℕ, stoi, ℤ, pos, negsuc,
}

pub record IpFormat : Type 0 where
  pub ip : Text
  pub port : ℕ

-- What strcpy of c_str() copies.
unfoldable pub until_nul : Text → Text
until_nul [] = []
until_nul (c ∷ s) = let rest = c ∷ until_nul s in if c == 0 then [] else rest

-- A token ends; strtok_r skips empty ones.
unfoldable pub close : Text → List Text → List Text
close [] ts = ts
close (c ∷ cur) ts = (c ∷ cur) ∷ ts

-- The tokens that strtok_r finds between colons; `cur` is the one being read.
unfoldable pub tokens : Text → Text → List Text
tokens cur [] = close cur []
tokens cur (c ∷ s) =
    let ended = close cur (tokens [] s) in
    let longer = tokens (cur ++ c ∷ []) s in if c == 58 then ended else longer

unfoldable pub set_port : ℤ → IpFormat → Option IpFormat
set_port (pos n) f = if leb n 65535 then some (record f { port = n }) else none
set_port (negsuc n) f = none

-- The end of set_ip: IP, or IP:PORT.
unfoldable pub set_tokens : List Text → IpFormat → Option IpFormat
set_tokens [] f = none
set_tokens (a ∷ []) f = some (record f { ip = a })
set_tokens (a ∷ b ∷ []) f = do n ← stoi b; f' ← set_port n f; some (record f' { ip = a })
set_tokens (a ∷ b ∷ c ∷ ts) f = none

unfoldable pub set_ip : Text → IpFormat → Option IpFormat
unfolding until_nul tokens set_tokens
set_ip [] f = none
set_ip (c ∷ s) f = set_tokens (tokens [] (until_nul (c ∷ s))) f

abbrev pub default_ip : IpFormat
default_ip = record { ip = text "0.0.0.0"; port = 0 }

-- IPFormat(ip, port).
unfoldable pub make : Text → ℤ → Option IpFormat
make ip port = do f ← set_port port default_ip; set_ip ip f

-- IPFormat(const IPFormat&).
unfoldable pub copy : IpFormat → Option IpFormat
copy o = do f ← set_port (pos o.port) default_ip; set_ip o.ip f

unfoldable pub ip_eq : IpFormat → IpFormat → Bool
ip_eq a b = text_eq a.ip b.ip && a.port == b.port

-- operator<, with `compare` read as a Boolean: true for any two addresses that differ.
unfoldable pub ip_lt : IpFormat → IpFormat → Bool
ip_lt a b = not (text_eq a.ip b.ip) || (text_eq a.ip b.ip && ltb a.port b.port)

unfoldable pub get_ip_port : IpFormat → Text
get_ip_port f = f.ip ++ (58 ∷ print_ℕ f.port)

unfoldable pub is_default : IpFormat → Bool
is_default f = text_eq f.ip (text "0.0.0.0") && f.port == 0
