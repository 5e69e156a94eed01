-- ===== src/Interfaces/Bittorrent/Ranges.antt =====
-- The numbers among the settings of src/common/transfer_interface_bittorrent.cpp, which are of type int.
use snbmodules.Common.{
  ℕ, ◌<◌, ◌≡◌, refl, Bool, true, false, ◌&&◌, [], ◌∷◌, All, Text, pos, negsuc, ltb, ltb→lt, lt→ltb,
  &&_split,
}
use snbmodules.Interfaces.Bittorrent.Settings.{Setting, flag, number, words, Settings, set_settings}

-- A number that an int holds.
abbrev pub FitsInt : Setting → Type 0
FitsInt (flag b) = Unit
FitsInt (number (pos n)) = n < 2147483648
FitsInt (number (negsuc n)) = n < 2147483648
FitsInt (words t) = Unit

fits_int : Setting → Bool
fits_int (flag b) = true
fits_int (number (pos n)) = ltb n 2147483648
fits_int (number (negsuc n)) = ltb n 2147483648
fits_int (words t) = true

all_fit : Settings → Bool
unfolding fits_int
all_fit [] = true
all_fit ((k, v) ∷ s) = fits_int v && all_fit s

fits_int-FitsInt : (v : Setting) → fits_int v ≡ true → FitsInt v
unfolding fits_int
fits_int-FitsInt (flag b) h = tt
fits_int-FitsInt (number (pos n)) h = ltb→lt n 2147483648 h
fits_int-FitsInt (number (negsuc n)) h = ltb→lt n 2147483648 h
fits_int-FitsInt (words t) h = tt

all_fit-All : (s : Settings) → all_fit s ≡ true → All (λ (k, v). FitsInt v) s
unfolding all_fit
all_fit-All [] h = tt
all_fit-All ((k, v) ∷ s) h =
    let (one, rest) = &&_split (fits_int v) (all_fit s) h in
    (fits_int-FitsInt v one, all_fit-All s rest)

-- Whatever the side and the address, each number that is set fits an int, when the mask of all alerts does.
pub set_settings-FitsInt :
    (is_client : Bool) (mask : ℕ) (ip listen_port : Text)
    → mask < 2147483648
    → All (λ (k, v). FitsInt v) (set_settings is_client (pos mask) ip listen_port)
unfolding set_settings all_fit
set_settings-FitsInt true mask ip port h =
    all_fit-All (set_settings true (pos mask) ip port) (rw (lt→ltb mask 2147483648 h) refl)
set_settings-FitsInt false mask ip port h =
    all_fit-All (set_settings false (pos mask) ip port) (rw (lt→ltb mask 2147483648 h) refl)
