-- ===== src/Metadata/Codec.antt =====
-- A concrete dump and parse of the JSON objects of metadata, which shows that texts can be read
-- back: a tag, and for a string its length, before each value.
use mathlib.Core.Path.{fun_ext}
use snbmodules.Common.{
  ℕ, zero, suc, ◌≡◌, refl, ap, Option, none, some, List, [], ◌∷◌, ◌++◌, map, Text, pos, negsuc,
  length, ◌>>=◌, >>=-some,
}
use snbmodules.Metadata.Json.{
  Key, Value, Object, string, number, key_file_path, key_source, key_destination, key_group_id,
  key_hash, key_size, key_transfered, key_speed, key_status, key_magnet_link, key_error_code,
  key_start_t, key_end_t, key_duration,
}

abbrev split_at : ℕ → Text → Text × Text
split_at zero s = ([], s)
split_at (suc n) [] = ([], [])
split_at (suc n) (c ∷ s) = let (t, rest) = split_at n s in (c ∷ t, rest)

split_at-append : (t s : Text) → split_at (length t) (t ++ s) ≡ (t, s)
split_at-append [] s = refl
split_at-append (c ∷ t) s = ap (λ p. (c ∷ p.0, p.1)) (split_at-append t s)

abbrev encode : Option Value → Text → Text
encode none s = 0 ∷ s
encode (some (string t)) s = 1 ∷ length t ∷ (t ++ s)
encode (some (number (pos n))) s = 2 ∷ n ∷ s
encode (some (number (negsuc n))) s = 3 ∷ n ∷ s

abbrev of_string : Text × Text → Option (Option Value × Text)
of_string (t, rest) = some (some (string t), rest)

abbrev decode_at : ℕ → ℕ → Text → Option (Option Value × Text)
decode_at zero n s = of_string (split_at n s)
decode_at (suc zero) n s = some (some (number (pos n)), s)
decode_at (suc (suc k)) n s = some (some (number (negsuc n)), s)

abbrev decode : Text → Option (Option Value × Text)
decode [] = none
decode (zero ∷ s) = some (none, s)
decode (suc k ∷ []) = none
decode (suc k ∷ n ∷ s) = decode_at k n s

decode-encode : (v : Option Value) (s : Text) → decode (encode v s) ≡ some (v, s)
decode-encode none s = refl
decode-encode (some (string t)) s = ap of_string (split_at-append t s)
decode-encode (some (number (pos n))) s = refl
decode-encode (some (number (negsuc n))) s = refl

abbrev encode_all : List (Option Value) → Text
encode_all [] = []
encode_all (v ∷ vs) = encode v (encode_all vs)

abbrev decode_all : ℕ → Text → Option (List (Option Value))
decode_all zero s = some []
decode_all (suc n) s = do r ← decode s; vs ← decode_all n r.1; some (r.0 ∷ vs)

decode_all-encode_all :
    (vs : List (Option Value)) → decode_all (length vs) (encode_all vs) ≡ some vs
decode_all-encode_all [] = refl
decode_all-encode_all (v ∷ vs) =
    >>=-some _ _ (decode-encode v (encode_all vs)) (>>=-some _ _ (decode_all-encode_all vs) refl)

abbrev keys : List Key
keys =
    key_file_path ∷ key_source ∷ key_destination ∷ key_group_id ∷ key_hash ∷ key_size
    ∷ key_transfered ∷ key_speed ∷ key_status ∷ key_magnet_link ∷ key_error_code ∷ key_start_t
    ∷ key_end_t ∷ key_duration ∷ []

abbrev place : Key → ℕ
place key_file_path = 0
place key_source = 1
place key_destination = 2
place key_group_id = 3
place key_hash = 4
place key_size = 5
place key_transfered = 6
place key_speed = 7
place key_status = 8
place key_magnet_link = 9
place key_error_code = 10
place key_start_t = 11
place key_end_t = 12
place key_duration = 13

abbrev nth : ℕ → List (Option Value) → Option Value
nth n [] = none
nth zero (v ∷ vs) = v
nth (suc n) (v ∷ vs) = nth n vs

abbrev pub dump : Object → Text
dump o = encode_all (map o keys)

abbrev pub parse : Text → Option Object
parse s = do vs ← decode_all 14 s; some (λ k. nth (place k) vs)

nth-place : (o : Object) (k : Key) → nth (place k) (map o keys) ≡ o k
nth-place o key_file_path = refl
nth-place o key_source = refl
nth-place o key_destination = refl
nth-place o key_group_id = refl
nth-place o key_hash = refl
nth-place o key_size = refl
nth-place o key_transfered = refl
nth-place o key_speed = refl
nth-place o key_status = refl
nth-place o key_magnet_link = refl
nth-place o key_error_code = refl
nth-place o key_start_t = refl
nth-place o key_end_t = refl
nth-place o key_duration = refl

pub parse-dump : (o : Object) → parse (dump o) ≡ some o
parse-dump o = >>=-some _ _ (decode_all-encode_all (map o keys)) (ap some (fun_ext (nth-place o)))
