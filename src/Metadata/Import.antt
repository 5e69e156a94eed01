-- ===== src/Metadata/Import.antt =====
-- The constructor of TransferMetadata from a text (include/snbmodules/transfer_metadata.hpp), and
-- the group id of what is read.
use snbmodules.Common.{
  ◌>>=◌, refl, none, some, Bool-cases, inl, inr, arith, ◌∙◌, >>=-eq-some, sym, ap, some, ◌≡◌, false,
  Option, [], Text, ℤ, pos,
}
use snbmodules.Enums.Status.{waiting}
use snbmodules.IpFormat.Address.{default_ip}
use snbmodules.Metadata.Transfer.{
  TransferMetadata, set_file_path, set_src, set_dest, set_group_id, set_hash, set_size,
  set_bytes_transferred, set_magnet_link, set_error_code, set_transmission_speed, set_duration,
  set_start_time, set_end_time, set_status,
}
use snbmodules.FilePath.Path.{normalise}
use mathlib.Core.Option.{some_inj}
use snbmodules.Enums.Status.{Status, string_to_status}
use snbmodules.IpFormat.Address.{make, ip_eq}
use snbmodules.Metadata.Json.{
  key_destination, key_end_t, key_error_code, key_hash, key_magnet_link, key_size, key_source,
  key_speed, key_start_t, key_status, key_transfered, Object, Value, string, number, key_group_id,
  key_duration, key_file_path, from_string, from_object, reading, as_text, as_unsigned, as_signed,
  int32_half, int64_half, set_src_text, set_dest_text, set_status_text,
}

-- The default members.
abbrev pub blank_metadata : TransferMetadata
blank_metadata = record {
  file_path = [];
  hash = [];
  size = 0;
  bytes_transferred = 0;
  transmission_speed = pos 0;
  status = waiting;
  src = default_ip;
  dest = default_ip;
  magnet_link = [];
  group_id = [];
  error_code = [];
  start_time = pos 0;
  end_time = pos 0;
  duration = pos 0;
  modified_fields = λ f. false;
}

module _ (parse : Text → Option Object) where
  unfoldable pub load_metadata : Text → ℤ → Text → Option TransferMetadata
  load_metadata cwd now s = from_string parse cwd now s blank_metadata

-- The group id that an object sets, on top of the one that was there.
abbrev pub named_group : Option Value → Text → Text
named_group none old = old
named_group (some (string t)) old = t
named_group (some (number n)) old = old

-- A setter that leaves the group id as it is.
abbrev SameGroup {ℓ} : {A : Type ℓ} → (A → TransferMetadata → Option TransferMetadata) → Type ℓ
SameGroup {A = A} set =
    (a : A) (m m' : TransferMetadata) → set a m ≡ some m' → m'.group_id ≡ m.group_id

reading-group_id {ℓ} :
    {A : Type ℓ} (get : Value → Option A) (set : A → TransferMetadata → Option TransferMetadata)
    (v : Option Value) (m m' : TransferMetadata)
    → SameGroup set
    → reading get set v m ≡ some m'
    → m'.group_id ≡ m.group_id
reading-group_id get set none m m' h e = ap (λ k. k.group_id) (sym (some_inj.0 e))
reading-group_id get set (some v) m m' h e =
    let (a, _, r) = >>=-eq-some (get v) (λ a. set a m) e in h a m m' r

plain-SameGroup {ℓ} :
    {A : Type ℓ} (set : A → TransferMetadata → TransferMetadata)
    → ((a : A) (m : TransferMetadata) → (set a m).group_id ≡ m.group_id)
    → SameGroup (λ a m. some (set a m))
plain-SameGroup set h a m m' e = ap (λ k. k.group_id) (sym (some_inj.0 e)) ∙ h a m

set_file_path-SameGroup : (cwd : Text) → SameGroup (set_file_path cwd)
unfolding set_file_path
set_file_path-SameGroup cwd p m m' =
    elim (normalise cwd p)
      as (λ x.
        (elim x [ none ↦ none | some q ↦ some (record m { file_path = q }) ]) ≡ some m'
        → m'.group_id ≡ m.group_id) [
          | none ↦ λ e. cc
          | some q ↦ λ e. ap (λ k. k.group_id) (sym (some_inj.0 e))
        ]

set_src_text-SameGroup : SameGroup set_src_text
unfolding set_src_text set_src
set_src_text-SameGroup t m m' e =
    let (ip, _, r) = >>=-eq-some (make t (pos 0)) (λ ip. set_src ip m) e in
    elim (Bool-cases (ip_eq ip m.dest)) [
      | inl k ↦ absurd (ground (arith, r))
      | inr k ↦ ground (arith, r)
    ]

set_dest_text-SameGroup : SameGroup set_dest_text
unfolding set_dest_text set_dest
set_dest_text-SameGroup t m m' e =
    let (ip, _, r) = >>=-eq-some (make t (pos 0)) (λ ip. set_dest ip m) e in
    elim (Bool-cases (ip_eq ip m.src)) [
      | inl k ↦ absurd (ground (arith, r))
      | inr k ↦ ground (arith, r)
    ]

set_status_text-group_id :
    (now : ℤ) (t : Text) (m : TransferMetadata) → (set_status_text now t m).group_id ≡ m.group_id
unfolding set_status_text set_status
set_status_text-group_id now t m =
    elim (string_to_status t)
      as (λ (x : Option Status).
        (elim x as (λ y. TransferMetadata) [ none ↦ m | some s ↦ set_status now s m ]).group_id
        ≡ m.group_id) [ none ↦ refl | some s ↦ ground arith ]

as_text-named :
    (v : Option Value) (m m' : TransferMetadata)
    → reading as_text (λ t k. some (set_group_id t k)) v m ≡ some m'
    → m'.group_id ≡ named_group v m.group_id
unfolding as_text set_group_id
as_text-named none m m' e = ap (λ k. k.group_id) (sym (some_inj.0 e))
as_text-named (some (string t)) m m' e = ap (λ k. k.group_id) (sym (some_inj.0 e))
as_text-named (some (number n)) m m' e = cc

-- A chain whose first step leaves the group id as it is.
keeping {ℓ} :
    {A : Type ℓ} {set : A → TransferMetadata → Option TransferMetadata} (get : Value → Option A)
    (u v : Option Value) (f : TransferMetadata → Option TransferMetadata) (m m' : TransferMetadata)
    → SameGroup set
    → ((a : TransferMetadata) → f a ≡ some m' → m'.group_id ≡ named_group v a.group_id)
    → (reading get set u m >>= f) ≡ some m'
    → m'.group_id ≡ named_group v m.group_id
keeping {set = set} get u v f m m' h k e =
    let (a, p, r) = >>=-eq-some (reading get set u m) f e in
    k a r ∙ ap (named_group v) (reading-group_id get set u m a h p)

-- The step that reads the group id.
naming :
    (u : Option Value) (f : TransferMetadata → Option TransferMetadata) (m m' : TransferMetadata)
    → ((a : TransferMetadata) → f a ≡ some m' → m'.group_id ≡ a.group_id)
    → (reading as_text (λ t k. some (set_group_id t k)) u m >>= f) ≡ some m'
    → m'.group_id ≡ named_group u m.group_id
naming u f m m' k e =
    let (a, p, r) = >>=-eq-some (reading as_text (λ t k. some (set_group_id t k)) u m) f e in
    k a r ∙ as_text-named u m a p

-- What is read bears the group id of the object, or else the one that was there.
pub from_object-group_id :
    (cwd : Text) (now : ℤ) (j : Object) (m m' : TransferMetadata)
    → from_object cwd now j m ≡ some m'
    → m'.group_id ≡ named_group (j key_group_id) m.group_id
unfolding from_object set_hash set_size set_bytes_transferred set_magnet_link set_error_code
    set_transmission_speed set_duration set_start_time set_end_time
from_object-group_id cwd now j m m' =
    let v = j key_group_id in
    let i64 = as_signed int64_half in
    keeping as_text (j key_file_path) v _ m m' (set_file_path-SameGroup cwd) (λ m1.
      keeping as_text (j key_hash) v _ m1 m' (plain-SameGroup set_hash (λ t k. refl)) (λ m2.
        keeping as_unsigned (j key_size) v _ m2 m' (plain-SameGroup set_size (λ t k. refl)) (λ m3.
          keeping as_unsigned (j key_transfered) v _ m3 m'
            (plain-SameGroup set_bytes_transferred (λ t k. refl))
            (λ m4.
              keeping (as_signed int32_half) (j key_speed) v _ m4 m'
                (plain-SameGroup set_transmission_speed (λ t k. refl))
                (λ m5. keeping as_text (j key_source) v _ m5 m' set_src_text-SameGroup (λ m6.
                  keeping as_text (j key_destination) v _ m6 m' set_dest_text-SameGroup (λ m7.
                    keeping as_text (j key_status) v _ m7 m'
                      (plain-SameGroup (set_status_text now) (set_status_text-group_id now))
                      (λ m8.
                        keeping as_text (j key_magnet_link) v _ m8 m'
                          (plain-SameGroup set_magnet_link (λ t k. refl))
                          (λ m9. naming v _ m9 m' (λ m10.
                            keeping as_text (j key_error_code) none _ m10 m'
                              (plain-SameGroup set_error_code (λ t k. refl))
                              (λ m11.
                                keeping i64 (j key_start_t) none _ m11 m'
                                  (plain-SameGroup set_start_time (λ t k. refl))
                                  (λ m12.
                                    keeping i64 (j key_end_t) none _ m12 m'
                                      (plain-SameGroup set_end_time (λ t k. refl))
                                      (λ m13.
                                        reading-group_id i64 _ (j key_duration) m13 m'
                                          (plain-SameGroup set_duration (λ t k. refl)))))))))))))))
