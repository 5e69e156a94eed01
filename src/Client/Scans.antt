-- ===== src/Client/Scans.antt =====
-- A scan of the client's directories leaves the files that were there to their moves
-- (src/client/transfer_client.cpp).
use snbmodules.Common.{
  length, print_ℕ, ◌++◌, set_insert, [], ℕ, suc, ◌≡◌, Bool, true, false, Option, none, some, Text,
  text, text_eq, Bool-cases, inl, inr, ◌>>=◌, >>=-eq-some, if◌then◌else◌, member, ◌||◌, ◌&&◌, not,
}
use mathlib.Core.Option.{some_inj}
use mathlib.Core.Path.{subst}
use snbmodules.IpFormat.Address.{default_ip}
use snbmodules.Metadata.Transfer.{TransferMetadata, get_file_name}
use snbmodules.Metadata.Import.{load_metadata}
use snbmodules.Group.Import.{load_group}
use snbmodules.Session.World.{uploader}
use snbmodules.Client.State.{
  ClientEnv, Client, Entries, nothing, regular, directory, generate_session_id,
}
use snbmodules.Client.Sessions.{at_session, session_add_file}
use snbmodules.Client.Sharing.{
  allocate, already_active, Scan, scan_group, scan_groups, scan_wanted, scan_file, scan_files,
  scan_available_files, find_wanting, path_append, extension,
}
use snbmodules.Client.Steps.{
  OpensQuietly, Advanced, Advanced-refl, Advanced-trans, at_session-Advanced, allocate-Advanced,
  session_add_file-Advanced, create_session-Advanced,
}

module _ {e : ClientEnv} (quiet : OpensQuietly e) where
  same-Advanced : (r q : Scan e) → some r ≡ some q → Advanced r.1 q.1
  same-Advanced r q h = subst (λ (x : Scan e). Advanced r.1 x.1) (some_inj.0 h) (Advanced-refl r.1)

  scan_group-Advanced : (path : Text) (c d : Client e) → scan_group path c ≡ some d → Advanced c d
  unfolding scan_group
  scan_group-Advanced path c d h =
      let (g, _, r) = >>=-eq-some (load_group e.reader (e.read_file path)) _ h in
      let name = generate_session_id g.group_id [] c in
      let dir = path_append c.listening_dir (text "ses" ++ print_ℕ (length c.sessions)) in
      elim (Bool-cases (already_active g c.sessions)) [
        | inl k ↦ subst (Advanced c) (some_inj.0 (rw k at r)) (Advanced-refl c)
        | inr k ↦
            subst (Advanced c) (some_inj.0 (rw k at r))
              (create_session-Advanced g uploader name dir default_ip [] c quiet)
      ]

  scan_groups-Advanced :
      (es : Entries) (r q : Scan e) → scan_groups es r ≡ some q → Advanced r.1 q.1
  unfolding scan_groups
  scan_groups-Advanced nothing r q = same-Advanced r q
  scan_groups-Advanced (directory path inner rest) r q = scan_groups-Advanced rest r q
  scan_groups-Advanced (regular path rest) (seen, c) q =
      elim (Bool-cases (text_eq (extension path) (text ".gmetadata") && not (member path seen))) [
        | inl k ↦ rw k (λ h.
            let (d, h1, h2) = >>=-eq-some (scan_group path c) _ h in
            Advanced-trans c d q.1 (scan_group-Advanced path c d h1)
              (scan_groups-Advanced rest (set_insert path seen, d) q h2))
        | inr k ↦ rw k (λ h. scan_groups-Advanced rest (seen, c) q h)
      ]

  scan_wanted-Advanced :
      (path : Text) (m : TransferMetadata) (x : Option ℕ) (r q : Scan e)
      → scan_wanted path m x r ≡ some q
      → Advanced r.1 q.1
  unfolding scan_wanted
  scan_wanted-Advanced path m none (seen, c) q h =
      subst (λ (x : Scan e). Advanced c x.1) (some_inj.0 h) (Advanced-refl c)
  scan_wanted-Advanced path m (some i) (seen, c) q h =
      let (d, h1, h2) = >>=-eq-some (at_session (session_add_file c.next) i (allocate m c)) _ h in
      subst (λ (x : Scan e). Advanced c x.1) (some_inj.0 h2)
        (Advanced-trans c (allocate m c) d (allocate-Advanced m c) (
          at_session-Advanced (session_add_file c.next) i (allocate m c) d
            (λ s r. session_add_file-Advanced c.next s (allocate m c) r) h1))

  scan_file-Advanced : (path : Text) (r q : Scan e) → scan_file path r ≡ some q → Advanced r.1 q.1
  unfolding scan_file
  scan_file-Advanced path (seen, c) q =
      elim (Bool-cases (text_eq (extension path) (text ".tmetadata"))) [
        | inl k ↦ rw k (λ h.
            let (m, _, h1) =
              >>=-eq-some
                (load_metadata e.parse e.reader.cwd (e.env.clock c.instant) (e.read_file path)) _
                h in
            scan_wanted-Advanced path m (find_wanting (get_file_name m) c.sessions)
              (set_insert path seen, record c { instant = suc c.instant }) q h1)
        | inr k ↦
            rw k (λ h. subst (λ (x : Scan e). Advanced c x.1) (some_inj.0 h) (Advanced-refl c))
      ]

  -- What a scan does with a directory, when the rest of it is known.
  inner-Advanced :
      (nested : Bool) (inner : Entries) (go : Scan e → Option (Scan e)) (r t : Scan e)
      → ((u : Scan e) → go u ≡ some t → Advanced u.1 t.1)
      → (if nested then scan_groups inner r >>= go else some r) ≡ some t
      → Advanced r.1 t.1
  inner-Advanced true inner go r t k h =
      let (u, i, j) = >>=-eq-some (scan_groups inner r) go h in
      Advanced-trans r.1 u.1 t.1 (scan_groups-Advanced inner r u i) (k u j)
  inner-Advanced false inner go r t k h = same-Advanced r t h

  scan_files-Advanced :
      (nested : Bool) (es : Entries) (r q : Scan e)
      → scan_files nested es r ≡ some q
      → Advanced r.1 q.1
  unfolding scan_files
  scan_files-Advanced nested nothing r q h = same-Advanced r q h
  scan_files-Advanced nested (regular path rest) r q h =
      let skip = text_eq (extension path) (text ".gmetadata") || member path r.0 in
      let (t, h1, h2) =
        >>=-eq-some (if skip then some r else scan_file path r) (scan_files nested rest) h in
      let first : Advanced r.1 t.1 = elim (Bool-cases skip) [
        | inl k ↦ same-Advanced r t (rw k at h1)
        | inr k ↦ scan_file-Advanced path r t (rw k at h1)
      ] in
      Advanced-trans r.1 t.1 q.1 first (scan_files-Advanced nested rest t q h2)
  scan_files-Advanced nested (directory path inner rest) r q h =
      let (t, h1, h2) =
        >>=-eq-some (if nested then scan_groups inner r >>= scan_files nested inner else some r)
          (scan_files nested rest) h in
      Advanced-trans r.1 t.1 q.1
        (inner-Advanced nested inner (scan_files nested inner) r t
          (λ u. scan_files-Advanced nested inner u t) h1)
        (scan_files-Advanced nested rest t q h2)

  pub scan_available_files-Advanced :
      (nested : Bool) (folder : Text) (r q : Scan e)
      → scan_available_files nested folder r ≡ some q
      → Advanced r.1 q.1
  unfolding scan_available_files
  scan_available_files-Advanced nested folder r q h =
      let (u, i, j) =
        >>=-eq-some (scan_groups (e.entries folder) r) (scan_files nested (e.entries folder)) h in
      Advanced-trans r.1 u.1 q.1 (scan_groups-Advanced (e.entries folder) r u i)
        (scan_files-Advanced nested (e.entries folder) u q j)
