-- ===== src/Client/Lookup.antt =====
-- Which session the client finds (src/client/transfer_client.cpp).
use snbmodules.Common.{
  ℕ, ◌≡◌, ◌≢◌, refl, sym, ap, ◌∙◌, true, false, ◌==◌, none, some, List, [], ◌∷◌, ◌++◌, Text, text,
  text_eq, text_eq→eq, text_eq_refl, contains_text, Bool-cases, inl, inr, >>=-eq-some, arith,
  get_elem?, length, length-append, All, All-append, member,
}
use mathlib.Core.Option.{some_inj}
use mathlib.Core.Path.{subst}
use mathlib.Core.List.{append_assoc, append-nil}
use snbmodules.FilePath.Path.{filename, name_after}
use snbmodules.Client.State.{ClientEnv, ClientSession, Client, generate_session_id}
use snbmodules.Client.Sessions.{
  find_session, session_name, get_session, remove_session, remove_found, erase_first,
}
use snbmodules.Client.Sharing.{find_wanting}

module _ {e : ClientEnv} where
  -- The place that is found has a session with the id.
  find_session-found :
      (id : Text) (ss : List (ClientSession e)) (i : ℕ)
      → find_session id ss ≡ some i
      → (s : ClientSession e) × (get_elem? ss i ≡ some s) × (s.session.session_id ≡ id)
  unfolding find_session
  find_session-found id [] i = λ h. cc
  find_session-found id (s ∷ ss) i = elim (Bool-cases (text_eq s.session.session_id id)) [
    | inl k ↦ rw k (λ h.
        subst
          (λ j.
            (t : ClientSession e) × (get_elem? (s ∷ ss) j ≡ some t) × (t.session.session_id ≡ id))
          (some_inj.0 h) (s, refl, text_eq→eq s.session.session_id id k))
    | inr k ↦ rw k (λ h.
        let (j, h1, h2) = >>=-eq-some (find_session id ss) _ h in
        subst
          (λ n.
            (t : ClientSession e) × (get_elem? (s ∷ ss) n ≡ some t) × (t.session.session_id ≡ id))
          (some_inj.0 h2) (find_session-found id ss j h1))
  ]

  generated-ne : (t : Text) (c : Client e) → generate_session_id t [] c ≢ t
  unfolding generate_session_id
  generated-ne t c h =
      let open_id : (c.client_id ++ text "_ses") ++ t ≡ t = h in
      omega (
        arith,
        ap length open_id,
        length-append (c.client_id ++ text "_ses") t,
        length-append c.client_id (text "_ses"),
      )

  -- A transfer whose id has "ses" in it is not found by that id: the session that get_session gives for
  -- it, if any, is another one than the client's own session of the transfer.
  pub get_session-ses :
      (transfer_id : Text) (c : Client e) (i : ℕ)
      → contains_text (text "ses") transfer_id ≡ true
      → get_session transfer_id c ≡ some i
      → (s : ClientSession e) × (get_elem? c.sessions i ≡ some s)
        × (s.session.session_id ≢ generate_session_id transfer_id [] c)
  unfolding get_session session_name
  get_session-ses transfer_id c i k = rw k (λ h.
      let (s, g, id) = find_session-found transfer_id c.sessions i h in
      (s, g, λ same. generated-ne transfer_id c (sym same ∙ id)))

  -- remove_session of a session that is not the first one removes the first one, and keeps the one that was
  -- to be removed.
  pub remove_session-first :
      (id : Text) (c : Client e) (s : ClientSession e) (ss : List (ClientSession e)) (i : ℕ)
      → contains_text (text "ses") id ≡ true
      → c.sessions ≡ s ∷ ss
      → text_eq s.session.session_id id ≡ false
      → find_session id ss ≡ some i
      → (remove_session id c).sessions ≡ ss
  unfolding remove_session remove_found get_session session_name find_session erase_first
  remove_session-first id c s ss i k all other found =
      let (t, g, same) = find_session-found id ss i found in
      let itself : text_eq t.session.session_id id ≡ true =
        ap (λ x. text_eq x id) same ∙ text_eq_refl id in
      rw (k, all, other, found, g, itself) refl

-- A text with no slash in front.
abbrev NoSlash : Text → Type 0
NoSlash = All (λ c. (c == 47) ≡ false)

name_after-NoSlash : (u s : Text) → NoSlash u → NoSlash (name_after (u ++ s) s)
unfolding name_after
name_after-NoSlash u [] h = subst NoSlash (sym (append-nil u)) h
name_after-NoSlash u (c ∷ s) h = elim (Bool-cases (c == 47)) [
  | inl k ↦ rw k (name_after-NoSlash [] s tt)
  | inr k ↦ rw k (
      subst (λ x. NoSlash (name_after x s)) (append_assoc u (c ∷ []) s)
        (name_after-NoSlash (u ++ c ∷ []) s (All-append _ u (c ∷ []) h (k, tt))))
]

filename-NoSlash : (p : Text) → NoSlash (filename p)
unfolding filename
filename-NoSlash p = name_after-NoSlash [] p tt

-- An absolute path.
abbrev pub Absolute : Text → Type 0
Absolute [] = ⊥
Absolute (c ∷ s) = c ≡ 47

absent : (name : Text) (ps : List Text) → NoSlash name → All Absolute ps → member name ps ≡ false
unfolding member
absent name [] h k = refl
absent name ([] ∷ ps) h k = absurd k.0
absent [] ((c ∷ p) ∷ ps) h k = absent [] ps h k.1
absent (d ∷ name) ((c ∷ p) ∷ ps) h k =
    let rest = absent (d ∷ name) ps h k.1 in ground (arith, rest, h.0, k.0)

module _ {e : ClientEnv} where
  -- No session wants a file that a scan finds by its metadata file: the sessions expect absolute paths, and
  -- the name of the file is looked up among them.
  pub find_wanting-none :
      (path : Text) (ss : List (ClientSession e))
      → All (λ s. All Absolute s.session.transfer_options.expected_files) ss
      → find_wanting (filename path) ss ≡ none
  unfolding find_wanting
  find_wanting-none path [] h = refl
  find_wanting-none path (s ∷ ss) h =
      rw
        (
          absent (filename path) s.session.transfer_options.expected_files (filename-NoSlash path)
              h.0,
          find_wanting-none path ss h.1,
        )
        refl
