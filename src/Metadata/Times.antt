-- ===== src/Metadata/Times.antt =====
-- The times and the progress of a transfer: set_status, get_total_duration_ms, set_progress.
use snbmodules.Common.{
  ◌+◌, ◌-◌, ◌≤◌, ◌/◌, ◌%◌, ◌^◌, ◌*◌, ap, List, ◌≡◌, [], ◌∷◌, ◌+ℤ◌, ◌-ℤ◌, ◌<◌, ℕ, ℤ, pos, refl, some,
  arith, sym, zero, suc, ◌∙◌, Bool-cases, inl, inr, leb, leb→le,
}
use native.Mathlib.Nat.{
  div-le_of_le-mul, le-div_iff_mul-le, mod-eq_of_lt, mul_comm, mul-le-mul_right,
}
use native.Mathlib.Decide.{dec_le}
use mathlib.Core.Option.{some_inj}
use snbmodules.Enums.Status.{uploading, paused, finished, hashing, error}
use snbmodules.Metadata.Transfer.{
  TransferMetadata, set_status, get_total_duration_ms, set_progress, get_progress,
  set_bytes_transferred,
}

-- Uploads that are paused: each runs from its first time to its second.
abbrev pub upload_legs : List (ℤ × ℤ) → TransferMetadata → TransferMetadata
upload_legs [] m = m
upload_legs ((a, b) ∷ legs) m = upload_legs legs (set_status b paused (set_status a uploading m))

-- The sum of the legs, added to `d`.
abbrev pub add_legs : List (ℤ × ℤ) → ℤ → ℤ
add_legs [] d = d
add_legs ((a, b) ∷ legs) d = add_legs legs (d +ℤ (b -ℤ a))

duration-upload_legs :
    (legs : List (ℤ × ℤ)) (m : TransferMetadata)
    → (upload_legs legs m).duration ≡ add_legs legs m.duration
unfolding set_status
duration-upload_legs [] m = refl
duration-upload_legs ((a, b) ∷ legs) m =
    duration-upload_legs legs (set_status b paused (set_status a uploading m))

-- However often an upload is paused, at its end the duration has grown by the sum of its legs,
-- the pauses left out.
pub duration-finished :
    (legs : List (ℤ × ℤ)) (a b : ℤ) (m : TransferMetadata)
    → (set_status b finished (set_status a uploading (upload_legs legs m))).duration
      ≡ add_legs legs m.duration +ℤ (b -ℤ a)
unfolding set_status
duration-finished legs a b m = ap (λ d. d +ℤ (b -ℤ a)) (duration-upload_legs legs m)

-- The total that is reported at the end is the last leg alone, whatever legs came before a
-- pause, when the last leg's times are not 0.
pub get_total_duration_ms-finished :
    (legs : List (ℤ × ℤ)) (now : ℤ) (a b : ℕ) (m : TransferMetadata)
    → 0 < a
    → 0 < b
    → get_total_duration_ms now
        (set_status (pos b) finished (set_status (pos a) uploading (upload_legs legs m)))
      ≡ pos b -ℤ pos a
unfolding set_status get_total_duration_ms
get_total_duration_ms-finished legs now a b m p q = ground arith

-- An error while the finished file is hashed counts the time since the upload began again: the
-- leg from the start is added twice.
pub duration-hashing_error :
    (a b c d : ℤ) (m : TransferMetadata)
    → (set_status d error
        (set_status c hashing (set_status b finished (set_status a uploading m)))).duration
      ≡ m.duration +ℤ (b -ℤ a) +ℤ (d -ℤ a)
unfolding set_status
duration-hashing_error a b c d m = refl

pred_mul : (p s : ℕ) → 0 < p → (p - 1) * s + s ≡ p * s
pred_mul zero s h = absurd (omega arith)
pred_mul (suc p) s h = grind arith

-- A percentage of a size, through two integer divisions.
percent_kept-le : (p s : ℕ) → p * s / 100 * 100 / s ≤ p
percent_kept-le p s = div-le_of_le-mul s (omega (arith, mul_comm p s))

le-percent_kept : (p s : ℕ) → 100 ≤ s → p ≤ p * s / 100 * 100 / s + 1
le-percent_kept p s big = elim (dec_le p 0) [
  | yes z ↦ omega arith
  | no nz ↦
      let down =
        (le-div_iff_mul-le {k = s} {x = p - 1} {y = p * s / 100 * 100} (omega arith)).1
          (omega (arith, pred_mul p s (omega arith))) in
      omega arith
]

get_progress-percent :
    (p : ℕ) (m : TransferMetadata)
    → p ≤ 100
    → 100 ≤ m.size
    → m.size * 100 < 2 ^ 64
    → get_progress (set_bytes_transferred (p * m.size % 2 ^ 64 / 100) m)
      ≡ p * m.size / 100 * 100 / m.size
unfolding get_progress set_bytes_transferred
get_progress-percent p m small big fits =
    let room : p * m.size ≤ 100 * m.size = mul-le-mul_right m.size small in
    let kept = percent_kept-le p m.size in
    rw (mod-eq_of_lt {n = p * m.size} {m = 18446744073709551616} (omega arith)) (
      rw (mod-eq_of_lt {n = p * m.size / 100 * 100} {m = 18446744073709551616} (omega arith)) (
        ground (
          arith,
          mod-eq_of_lt {n = p * m.size / 100 * 100 / m.size} {m = 4294967296} (omega arith),
        )))

-- A progress that is set is read back as it was or one less, when the size is 100 or more and a
-- hundred times the size fits in 64 bits.
pub get_progress-set_progress :
    (percent : ℕ) (m m' : TransferMetadata)
    → 100 ≤ m.size
    → m.size * 100 < 2 ^ 64
    → set_progress (pos percent) m ≡ some m'
    → (get_progress m' ≤ percent) × (percent ≤ get_progress m' + 1)
unfolding set_progress
get_progress-set_progress percent m m' big fits e = elim (Bool-cases (leb percent 100)) [
  | inr off ↦ absurd (ground arith)
  | inl ok ↦
      let same = some_inj.0 (sym (rw (ok, set_progress) refl) ∙ e) in
      let read =
        sym (ap get_progress same)
        ∙ get_progress-percent percent m (leb→le percent 100 ok) big fits in
      (rw read (percent_kept-le percent m.size), rw read (le-percent_kept percent m.size big))
]
