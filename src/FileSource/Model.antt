-- ===== src/FileSource/Model.antt =====
-- The state and the operations of FileSourceModel. Opening a file is a parameter: its elements, or
-- nothing when the reader throws. The sender is set, and what it is given is logged.
use snbmodules.Common.{
  ℕ, zero, suc, ◌+◌, ◌%◌, Bool, true, false, Option, none, some, List, [], ◌∷◌, ◌++◌, Text,
  if◌then◌else◌, ◌>>=◌,
}

-- `reader` holds the elements that are left of the open file.
pub record FileSource (E : Type 0) : Type 0 where
  pub is_configured : Bool
  pub files_left : List Text
  pub reader : Option (List E)
  pub packet_count : ℕ
  pub packet_count_tot : ℕ
  pub sent : List E

module _ {E : Type 0} where
  -- scrap.
  unfoldable pub scrap : FileSource E → FileSource E
  scrap s = record s { reader = none; is_configured = false }

  -- start, before the producer thread runs.
  unfoldable pub start : FileSource E → FileSource E
  start s = record s { packet_count_tot = 0 }

  abbrev opened : List Text → Option (List E) → FileSource E → Option (FileSource E)
  opened fs none s = none
  opened fs (some es) s = some (record s { reader = some es; files_left = fs })

module _ {E : Type 0} (open_file : Text → Option (List E)) where
  -- `none` is the exception of a file that does not open.
  open_from : List Text → FileSource E → Option (FileSource E)
  open_from [] s = some (record s { files_left = []; reader = none; is_configured = false })
  open_from (f ∷ fs) s = opened fs (open_file f) s

  unfoldable pub open_next_file : FileSource E → Option (FileSource E)
  unfolding open_from
  open_next_file s = open_from s.files_left s

  unfoldable pub conf : List Text → FileSource E → Option (FileSource E)
  unfolding open_next_file
  conf names s =
      let fresh = open_next_file (record s { files_left = names }) >>= λ t.
      some (record t { is_configured = true }) in
      if s.is_configured then some s else fresh

  -- One round of the loop of run_produce: whether it goes on. `none` is also the use of a reader
  -- that is not there.
  round_with : Option (List E) → FileSource E → Option (Bool × FileSource E)
  unfolding open_next_file
  round_with none s = none
  round_with (some []) s = open_next_file s >>= λ t. some (t.is_configured, t)
  round_with (some (e ∷ es)) s = some (
    true,
    record s {
      reader = some es;
      sent = s.sent ++ e ∷ [];
      packet_count = (s.packet_count + 1) % 4294967296;
      packet_count_tot = (s.packet_count_tot + 1) % 4294967296;
    },
  )

  unfoldable pub round : FileSource E → Option (Bool × FileSource E)
  unfolding round_with
  round s = round_with s.reader s

  -- The loop, for as many rounds as the run marker stays set.
  unfoldable pub run_produce : ℕ → FileSource E → Option (FileSource E)
  unfolding round
  run_produce zero s = some s
  run_produce (suc n) s =
      let go_on = λ (r : Bool × FileSource E).
        let rest = run_produce n r.1 in if r.0 then rest else some r.1 in
      round s >>= go_on
