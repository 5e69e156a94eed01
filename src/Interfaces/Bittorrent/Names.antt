-- ===== src/Interfaces/Bittorrent/Names.antt =====
-- branch_path and file_filter of src/common/transfer_interface_bittorrent.cpp.
use snbmodules.Common.{
  ℕ, suc, ◌-◌, Bool, false, not, ◌||◌, Option, none, some, [], ◌∷◌, Text, text, ◌==◌, text_eq,
  length, take, if◌then◌else◌,
}

abbrev pub is_separator : ℕ → Bool
is_separator c = (c == 47) || (c == 92)

-- f[i]: of a std::string, behind its end stands 0.
unfoldable pub char_at : Text → ℕ → ℕ
char_at [] i = 0
char_at (c ∷ s) ℕ.zero = c
char_at (c ∷ s) (suc i) = char_at s i

-- `while (len > 0) { --len; if (separator) break; }`.
unfoldable pub back_to_separator : Text → ℕ → ℕ
back_to_separator f ℕ.zero = 0
back_to_separator f (suc len) =
    let rest = back_to_separator f len in if is_separator (char_at f len) then len else rest

-- A separator at the end is not looked at.
unfoldable pub without_last : Text → ℕ → ℕ
without_last f len = if is_separator (char_at f (len - 1)) then len - 1 else len

unfoldable pub branch_length : Text → ℕ
unfolding back_to_separator without_last char_at
branch_length f =
    let len = back_to_separator f (without_last f (length f)) in
    if is_separator (char_at f len) then suc len else len

unfoldable pub branch_path : Text → Text
unfolding branch_length
branch_path [] = []
branch_path (c ∷ f) =
    if text_eq (c ∷ f) (text "/") then [] else take (branch_length (c ∷ f)) (c ∷ f)

-- The first that is there.
unfoldable pub or_else : Option Text → Option Text → Option Text
or_else (some t) o = some t
or_else none o = o

-- strrchr(first, '/'): what stands behind the last slash.
unfoldable pub behind_last_slash : Text → Option Text
unfolding or_else
behind_last_slash [] = none
behind_last_slash (c ∷ s) = or_else (behind_last_slash s) (if c == 47 then some s else none)

-- The name, or the whole path where there is no slash.
unfoldable pub name_or : Text → Option Text → Text
name_or whole none = whole
name_or whole (some t) = t

-- sep[0] == '.'.
unfoldable pub begins_with_dot : Text → Bool
begins_with_dot [] = false
begins_with_dot (c ∷ s) = c == 46

unfoldable pub file_filter : Text → Bool
unfolding behind_last_slash begins_with_dot name_or
file_filter [] = false
file_filter (c ∷ f) = not (begins_with_dot (name_or (c ∷ f) (behind_last_slash (c ∷ f))))
