-- ===== src/Auth/TeamSession/InSync.antt =====
-- The team's session in the store against the one in the storage.
use platform_rally_extension.Base.{
  String, ◌≡◌, ◌≢◌, ◌⊎◌, refl, sym, ap, ◌∙◌, Bool, true, false, ◌||◌, if◌then◌else◌, ◌==◌, Same-nat,
  Same-text, Option, none, some, get_or, arith, inl, inr, Bool-cases, Option-cases, not_same_of_ne,
}
use platform_rally_extension.Auth.Storage.{
  Storage, Codec, truthy, get_team_token, set_team_token, get_team_data, set_team_data,
  has_team_data, clear_team_auth, clear_all_auth, non_empty, team_data_of, remove_team_token,
  remove_team_data, remove_staff_token, team_token_key, team_data_key,
}
use platform_rally_extension.Auth.TeamSession.{
  TeamAuthState, World, Answer, unreachable, refused, renewed, signed_out, signed_in, clear_auth,
  user_logout, link_now, set_auth, hydrated, hydrate_team_auth_store, on_answer, refreshed,
  refresh_team_token, Step, sign_in, sign_out, hydrate, user_sign_out, linked, refresh, Reach, here,
  next,
}

-- The statuses that mean that the token itself is dead.
abbrev pub is_rejection : Answer → Bool
is_rejection (refused status) = (status == 401) || (status == 403)
is_rejection _ = false

abbrev pub new_token : Answer → Option String
new_token (renewed new) = new
new_token _ = none

abbrev pub token_after : String → Answer → Option String
token_after token unreachable = some token
token_after token (refused status) = if (status == 401) || (status == 403) then none else some token
token_after token (renewed new) = some (get_or new "undefined")

module _ {D : Type 0} (json : Codec D) where
  -- The codec writes team data as a text that is not empty and reads it back; a token is not empty.
  pub record IsCodec : Type 0 where
    pub reads : (d : D) → json.parse (json.stringify d) ≡ truthy d
    pub writes : (d : D) → json.stringify d ≢ ""

  -- The session that a storage holds: a token and readable data.
  abbrev pub session : Option String → Option D → TeamAuthState D
  session (some token) (some d) = signed_in d
  session (some token) none = signed_out
  session none d = signed_out

  unfoldable pub session_of : Storage → TeamAuthState D
  session_of s = session (non_empty (get_team_token s)) (get_team_data json s)

  unfoldable pub IsInSync : World D → Type 0
  IsInSync w = w.auth ≡ session_of w.storage

  hydrated-IsInSync :
      (t : Option String) (d : Option D) (w : World D)
      → non_empty (get_team_token w.storage) ≡ t
      → get_team_data json w.storage ≡ d
      → IsInSync (hydrated json t d w)
  unfolding IsInSync session_of get_team_token get_team_data clear_team_auth remove_team_token
      remove_team_data
  hydrated-IsInSync (some t) (some d) w et ed = rw (et, ed) refl
  hydrated-IsInSync (some t) none w et ed = elim (Bool-cases (has_team_data w.storage)) [
    | inl h ↦ rw h refl
    | inr h ↦ rw (h, et, ed) refl
  ]
  hydrated-IsInSync none d w et ed = rw et refl

  hydrate-IsInSync : (w : World D) → IsInSync (hydrate_team_auth_store json w)
  unfolding hydrate_team_auth_store
  hydrate-IsInSync w =
      hydrated-IsInSync (non_empty (get_team_token w.storage)) (get_team_data json w.storage) w refl
        refl

  clear_auth-IsInSync : (w : World D) → IsInSync (clear_auth w)
  unfolding IsInSync session_of clear_auth get_team_token get_team_data clear_team_auth
      remove_team_token remove_team_data
  clear_auth-IsInSync w = refl

  set_auth-IsInSync :
      IsCodec
      → (d : D) (token : String) (w : World D) → token ≢ ""
      → IsInSync (set_auth json d token w)
  unfolding IsInSync session_of set_auth get_team_token get_team_data set_team_token set_team_data
  set_auth-IsInSync c d token w ne =
      rw (not_same_of_ne token "" ne, not_same_of_ne (json.stringify d) "" (c.writes d), c.reads d)
        refl

  -- The store holds the session that the storage holds, or the storage has no token.
  abbrev pub IsCovered : World D → Type 0
  IsCovered w = IsInSync w ⊎ (get_team_token w.storage ≡ none)

  refreshed-IsCovered :
      (t : Option String) (answer : Answer) (w : World D)
      → IsCovered w
      → IsCovered (refreshed json t answer w).1
  refreshed-IsCovered none answer w s = s
  refreshed-IsCovered (some t) unreachable w s = s
  refreshed-IsCovered (some t) (refused status) w s =
      elim (Bool-cases ((status == 401) || (status == 403))) [
        | inl h ↦
            rw h (inl (clear_auth-IsInSync (record w { storage = clear_team_auth w.storage })))
        | inr h ↦ rw h s
      ]
  refreshed-IsCovered (some t) (renewed token) w s = inl (
      hydrate-IsInSync (record w { storage = set_team_token (get_or token "undefined") w.storage }))

  cleared_session : (w : World D) → get_team_token (user_logout w).storage ≡ none
  unfolding user_logout clear_all_auth get_team_token remove_team_token remove_team_data
      remove_staff_token
  cleared_session w = refl

  linked_session : (w : World D) → get_team_token (link_now w).storage ≡ none
  unfolding link_now clear_team_auth get_team_token remove_team_token remove_team_data
  linked_session w = refl

  Step-IsCovered : IsCodec → {w u : World D} → Step json w u → IsCovered w → IsCovered u
  unfolding refresh_team_token
  Step-IsCovered c (sign_in d token w ne) s = inl (set_auth-IsInSync c d token w ne)
  Step-IsCovered c (sign_out w) s = inl (clear_auth-IsInSync w)
  Step-IsCovered c (hydrate w) s = inl (hydrate-IsInSync w)
  Step-IsCovered c (user_sign_out w) s = inr (cleared_session w)
  Step-IsCovered c (linked w) s = inr (linked_session w)
  Step-IsCovered c (refresh answer start w) s =
      refreshed-IsCovered (non_empty (get_team_token start.storage)) answer w s

  -- With a JSON that reads back the team data it writes, and tokens that are not empty: from the
  -- hydration at load, through any sign-ins, sign-outs of the team or of the user, links of an account,
  -- hydrations and refreshes, whose answers may come at any later time: the store holds exactly the
  -- session that a reload would read from the storage, or the storage has no token left.
  pub Reach-IsCovered :
      IsCodec
      → (w : World D) {u : World D} → Reach json (hydrate_team_auth_store json w) u
      → IsInSync u ⊎ (get_team_token u.storage ≡ none)
  Reach-IsCovered c w here = inl (hydrate-IsInSync w)
  Reach-IsCovered c w (next r st) = Step-IsCovered c st (Reach-IsCovered c w r)

  clear_auth_lem :
      (w : World D)
      → ((clear_auth w).auth ≡ signed_out) × ((clear_auth w).storage team_token_key ≡ none)
  unfolding clear_auth clear_team_auth remove_team_token remove_team_data
  clear_auth_lem w = (refl, refl)

  raw_token : (o : Option String) (token : String) → non_empty o ≡ some token → o ≡ some token
  raw_token none token e = absurd (cc e)
  raw_token (some t) token e = elim (Bool-cases (t == "")) [
    | inl h ↦ absurd (ground arith)
    | inr h ↦ sym (rw h refl) ∙ e
  ]

  auth_of_renewal :
      (token new : String) (w : World D)
      → non_empty (get_team_token w.storage) ≡ some token
      → new ≢ ""
      → IsInSync w
      → w.auth.is_authenticated ≡ true
      → (hydrate_team_auth_store json (record w { storage = set_team_token new w.storage })).auth
          ≡ w.auth
        × ((hydrate_team_auth_store json
                (record w { storage = set_team_token new w.storage })).storage
              team_token_key
            ≡ some new)
  unfolding hydrate_team_auth_store get_team_data get_team_token set_team_token IsInSync session_of
  auth_of_renewal token new w e ne s on =
      elim (Option-cases (team_data_of json (non_empty (w.storage team_data_key)))) [
        | inl m ↦ absurd (cc (on, ap (λ a. a.is_authenticated) s, e, m))
        | inr (d, m) ↦ rw (not_same_of_ne new "" ne, m) (sym (s ∙ rw (e, m) refl), refl)
      ]

  refreshed_lem :
      (token : String) (answer : Answer) (w : World D)
      → non_empty (get_team_token w.storage) ≡ some token
      → answer ≢ renewed (some "")
      → IsInSync w
      → w.auth.is_authenticated ≡ true
      → ((on_answer json answer w).0 ≡ new_token answer)
        × ((on_answer json answer w).1.auth ≡ (if is_rejection answer then signed_out else w.auth))
        × (get_team_token (on_answer json answer w).1.storage ≡ token_after token answer)
  unfolding get_team_token
  refreshed_lem token unreachable w e ne s on = (refl, refl, raw_token _ token e)
  refreshed_lem token (refused status) w e ne s on =
      elim (Bool-cases ((status == 401) || (status == 403))) [
        | inl h ↦
            let (out, gone) = clear_auth_lem (record w { storage = clear_team_auth w.storage }) in
            rw h (refl, out, gone)
        | inr h ↦ rw h (refl, refl, raw_token _ token e)
      ]
  refreshed_lem token (renewed none) w e ne s on =
      let (kept, stored) = auth_of_renewal token "undefined" w e (λ q. cc q) s on in
      (refl, kept, stored)
  refreshed_lem token (renewed (some new)) w e ne s on =
      let (kept, stored) =
        auth_of_renewal token new w e (λ q. ne (ap (λ t. renewed (some t)) q)) s on in
      (refl, kept, stored)

  -- For a refresh that was started with a token, whose answer meets a session that is signed in, in sync
  -- with the storage and has a token, which may be another than the one that was sent, and an answer
  -- whose token is not empty: the refresh ends the session just when the server answers 401 or 403, and
  -- then the token is gone too. No answer, or another status, keeps the session and its token. A new
  -- token is returned and takes the stored one's place, and the team stays signed in as it was; if the
  -- answer has no token, none is returned and the text "undefined" takes its place.
  pub refresh_team_token_lem :
      (sent token : String) (answer : Answer) (start w : World D)
      → non_empty (get_team_token start.storage) ≡ some sent
      → non_empty (get_team_token w.storage) ≡ some token
      → answer ≢ renewed (some "")
      → IsInSync w
      → w.auth.is_authenticated ≡ true
      → ((refresh_team_token json answer start w).0 ≡ new_token answer)
        × ((refresh_team_token json answer start w).1.auth
            ≡ (if is_rejection answer then signed_out else w.auth))
        × (get_team_token (refresh_team_token json answer start w).1.storage
            ≡ token_after token answer)
  unfolding refresh_team_token
  refresh_team_token_lem sent token answer start w es e ne s on =
      rw es (refreshed_lem token answer w e ne s on)

  auth_of_sign_in :
      IsCodec
      → (d : D) (token new : String) (w : World D) → new ≢ ""
      → ((hydrate_team_auth_store json (record (set_auth json d token w) {
        storage = set_team_token new (set_auth json d token w).storage;
      })).auth
          ≡ signed_in d)
        × ((hydrate_team_auth_store json (record (set_auth json d token w) {
          storage = set_team_token new (set_auth json d token w).storage;
        })).storage
              team_token_key
            ≡ some new)
  unfolding hydrate_team_auth_store get_team_data get_team_token set_auth set_team_token
      set_team_data
  auth_of_sign_in c d token new w ne =
      rw (not_same_of_ne new "" ne, not_same_of_ne (json.stringify d) "" (c.writes d), c.reads d)
        (refl, refl)

  -- A refresh whose answer comes after another team signed in: with a JSON that reads back the team
  -- data it writes, a new token takes the place of that team's token, so that the store shows the one
  -- team and the storage holds the token of the other; and a 401 signs that team out.
  pub refresh-mixes_teams :
      IsCodec
      → (sent token new : String) (d : D) (start w : World D)
      → non_empty (get_team_token start.storage) ≡ some sent
      → new ≢ ""
      → let w' = set_auth json d token w in
        let late = (refresh_team_token json (renewed (some new)) start w').1 in
        (late.auth ≡ signed_in d)
        × (get_team_token late.storage ≡ some new)
        × ((refresh_team_token json (refused 401) start w').1.auth ≡ signed_out)
  unfolding refresh_team_token get_team_token
  refresh-mixes_teams c sent token new d start w es ne =
      let (shown, stored) = auth_of_sign_in c d token new w ne in
      let (out, gone) = clear_auth_lem (record (set_auth json d token w) {
        storage = clear_team_auth (set_auth json d token w).storage;
      }) in
      rw es (shown, stored, out)

  -- When a team is signed in, the logout of the user store leaves the team's store signed in with
  -- no token in the storage, so that the two do not agree.
  pub user_logout-out_of_sync :
      (w : World D)
      → w.auth.is_authenticated ≡ true
      → ((user_logout w).auth.is_authenticated ≡ true)
        × (get_team_token (user_logout w).storage ≡ none)
        × ¬ IsInSync (user_logout w)
  unfolding user_logout clear_all_auth get_team_token remove_team_token remove_team_data
      remove_staff_token IsInSync session_of
  user_logout-out_of_sync w h = (h, refl, λ e. cc (sym h ∙ ap (λ a. a.is_authenticated) e))
