-- ===== src/Group/Loading.antt =====
-- A group that is read from a text holds no file (src/common/group_metadata.cpp).
use snbmodules.Common.{
  ℕ, set_insert, Option, none, some, List, [], ◌∷◌, Text, ◌≡◌, refl, sym, ap, ◌∙◌, ◌>>=◌,
  >>=-eq-some, pos,
}
use mathlib.Core.Option.{some_inj}
use snbmodules.Enums.Protocol.{string_to_protocols}
use snbmodules.IpFormat.Address.{make}
use snbmodules.FilePath.Path.{normalise}
use snbmodules.Group.Metadata.{GroupMetadata, add_expected_file}
use snbmodules.Group.Import.{
  GroupFields, GroupReader, given, set_source_ip, set_protocol, set_protocol_options,
  add_expected_files, from_fields, from_string, load_group, blank_group,
}

-- A setter that leaves the files as they are.
abbrev SameFiles {ℓ} : {A : Type ℓ} → (A → GroupMetadata → Option GroupMetadata) → Type ℓ
SameFiles {A = A} set =
    (a : A) (g h : GroupMetadata) → set a g ≡ some h → h.transfers_meta ≡ g.transfers_meta

abbrev files_of : GroupMetadata → List ℕ
files_of g = g.transfers_meta

given-SameFiles {ℓ} :
    {A : Type ℓ} (set : A → GroupMetadata → Option GroupMetadata) (u : Option A)
    (g h : GroupMetadata)
    → SameFiles set
    → given set u g ≡ some h
    → h.transfers_meta ≡ g.transfers_meta
given-SameFiles set none g h k e = ap files_of (sym (some_inj.0 e))
given-SameFiles set (some a) g h k e = k a g h e

bound-SameFiles {ℓ} :
    {B : Type ℓ} (m : Option B) (f : B → GroupMetadata) (g h : GroupMetadata)
    → ((b : B) → (f b).transfers_meta ≡ g.transfers_meta)
    → (m >>= λ b. some (f b)) ≡ some h
    → h.transfers_meta ≡ g.transfers_meta
bound-SameFiles m f g h k e =
    let (b, _, r) = >>=-eq-some m (λ b. some (f b)) e in ap files_of (sym (some_inj.0 r)) ∙ k b

add_expected_file-SameFiles : (cwd : Text) → SameFiles (add_expected_file cwd)
unfolding add_expected_file
add_expected_file-SameFiles cwd file g h =
    elim (normalise cwd file)
      as (λ x.
        (elim x [
          | none ↦ none
          | some p ↦ some (record g { expected_files = set_insert p g.expected_files })
        ])
          ≡ some h
        → h.transfers_meta ≡ g.transfers_meta) [
          | none ↦ λ e. cc
          | some p ↦ λ e. ap files_of (sym (some_inj.0 e))
        ]

add_expected_files-SameFiles : (cwd : Text) → SameFiles (add_expected_files cwd)
unfolding add_expected_files
add_expected_files-SameFiles cwd [] g h e = ap files_of (sym (some_inj.0 e))
add_expected_files-SameFiles cwd (file ∷ files) g h e =
    let (k, p, r) = >>=-eq-some (add_expected_file cwd file g) (add_expected_files cwd files) e in
    add_expected_files-SameFiles cwd files k h r ∙ add_expected_file-SameFiles cwd file g k p

then-SameFiles {ℓ} :
    {A : Type ℓ} (set : A → GroupMetadata → Option GroupMetadata) (u : Option A)
    (f : GroupMetadata → Option GroupMetadata) (g h : GroupMetadata)
    → SameFiles set
    → ((k : GroupMetadata) → f k ≡ some h → h.transfers_meta ≡ k.transfers_meta)
    → (given set u g >>= f) ≡ some h
    → h.transfers_meta ≡ g.transfers_meta
then-SameFiles set u f g h same go e =
    let (k, p, r) = >>=-eq-some (given set u g) f e in go k r ∙ given-SameFiles set u g k same p

module _ (r : GroupReader) where
  from_fields-SameFiles :
      (j : GroupFields) (g h : GroupMetadata)
      → from_fields r j g ≡ some h
      → h.transfers_meta ≡ g.transfers_meta
  unfolding from_fields set_source_ip set_protocol set_protocol_options
  from_fields-SameFiles j g h =
      then-SameFiles _ j.transfer_id _ g h (λ t x y e. ap files_of (sym (some_inj.0 e)))
        (λ g1.
          then-SameFiles _ j.source_id _ g1 h (λ t x y e. ap files_of (sym (some_inj.0 e)))
            (λ g2.
              then-SameFiles set_source_ip j.source_ip _ g2 h
                (λ t x y. bound-SameFiles (make t (pos 0)) _ x y (λ b. refl))
                (λ g3.
                  then-SameFiles set_protocol j.protocol _ g3 h
                    (λ t x y. bound-SameFiles (string_to_protocols t) _ x y (λ b. refl))
                    (λ g4.
                      then-SameFiles (set_protocol_options r.parse_options) j.protocol_options _ g4
                        h (λ t x y. bound-SameFiles (r.parse_options t) _ x y (λ b. refl))
                        (λ g5.
                          given-SameFiles (add_expected_files r.cwd) j.files g5 h
                            (add_expected_files-SameFiles r.cwd))))))

  pub load_group-empty :
      (t : Text) (g : GroupMetadata) → load_group r t ≡ some g → g.transfers_meta ≡ []
  unfolding load_group from_string
  load_group-empty t g e =
      let (j, _, p) = >>=-eq-some (r.parse_group t) (λ j. from_fields r j (blank_group r)) e in
      from_fields-SameFiles j (blank_group r) g p
