-- ===== src/IpFormat/Examples.antt =====
-- The theorems on addresses at one address each, and test runs.
use snbmodules.Common.{
  ◌∷◌, ap, ℕ, Text, ◌≢◌, ◌≢◌, [], ◌∷◌, ap, ◌≡◌, refl, some, none, text, pos, arith, stoi,
  read_digits,
}
use snbmodules.IpFormat.Address.{IpFormat, close, make, set_ip, set_port, get_ip_port}
use snbmodules.IpFormat.Valid.{IsValid, make-IsValid}
use snbmodules.IpFormat.RoundTrip.{make-get_ip_port}

abbrev host : IpFormat
host = record { ip = text "10.0.0.1"; port = 5009 }

abbrev other : IpFormat
other = record { ip = text "localhost"; port = 80 }

host_run : make (text "10.0.0.1:5009") (pos 0) ≡ some host
unfolding make set_port set_ip close stoi read_digits
host_run = refl

too_many : make (text "10.0.0.1:5009:1") (pos 0) ≡ none
unfolding make set_port set_ip close
too_many = refl

host-IsValid : IsValid host
host-IsValid = make-IsValid (text "10.0.0.1:5009") (pos 0) host host_run

make-get_ip_port_example : make (get_ip_port host) (pos 0) ≡ some host
make-get_ip_port_example = make-get_ip_port host host-IsValid

abbrev first : Text → ℕ
first [] = 0
first (c ∷ s) = c

differ : host.ip ≢ other.ip
differ e = omega (arith, ap first e)
