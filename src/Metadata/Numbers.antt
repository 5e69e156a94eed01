-- ===== src/Metadata/Numbers.antt =====
-- Numbers in the ranges of their C++ types are read back as they are.
use snbmodules.Common.{ℕ, ◌<◌, ◌*◌, ◌≡◌, refl, ap, some, ℤ, pos, negsuc, arith, lt→ltb, >>=-some}
use native.Mathlib.Nat.{mod-eq_of_lt}
use snbmodules.Metadata.Transfer.{TransferMetadata}
use snbmodules.Metadata.Json.{to_signed, as_signed, as_unsigned, number, reading}

-- A value of a signed type.
abbrev pub Fits : ℕ → ℤ → Type 0
Fits half (pos n) = n < half
Fits half (negsuc n) = n < half

to_signed-Fits : (half : ℕ) (z : ℤ) → Fits half z → to_signed half z ≡ z
unfolding to_signed
to_signed-Fits half (pos n) h =
    rw (mod-eq_of_lt {n = n} {m = 2 * half} (omega arith), lt→ltb n half h) refl
to_signed-Fits half (negsuc n) h =
    rw (mod-eq_of_lt {n = n} {m = 2 * half} (omega arith), lt→ltb n half h) refl

as_signed-some : (half : ℕ) (z : ℤ) → Fits half z → as_signed half (number z) ≡ some z
unfolding as_signed
as_signed-some half z h = ap some (to_signed-Fits half z h)

as_unsigned-some : (n : ℕ) → n < 18446744073709551616 → as_unsigned (number (pos n)) ≡ some n
unfolding as_unsigned
as_unsigned-some n h = ap some (mod-eq_of_lt {n = n} {m = 18446744073709551616} h)

pub unsigned_read :
    (g : ℕ → TransferMetadata → TransferMetadata) (n : ℕ) (x : TransferMetadata)
    → n < 18446744073709551616
    → reading as_unsigned (λ i k. some (g i k)) (some (number (pos n))) x ≡ some (g n x)
unsigned_read g n x h = >>=-some (as_unsigned (number (pos n))) _ (as_unsigned-some n h) refl

pub signed_read :
    (half : ℕ) (g : ℤ → TransferMetadata → TransferMetadata) (z : ℤ) (x : TransferMetadata)
    → Fits half z
    → reading (as_signed half) (λ i k. some (g i k)) (some (number z)) x ≡ some (g z x)
signed_read half g z x h = >>=-some (as_signed half (number z)) _ (as_signed-some half z h) refl
