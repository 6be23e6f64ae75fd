-- ===== src/Auth/Tests.antt =====
-- The sessions at concrete values.
use platform_rally_extension.Base.{
  ◌⊎◌, ◌≤◌, ◌≡◌, refl, if◌then◌else◌, ◌==◌, Same-nat, Same-text, none, some, arith,
}
use platform_rally_extension.Auth.Storage
use platform_rally_extension.Auth.Storage.{
  Storage, Codec, truthy, malformed, remove_item, set_item, get_team_token, get_team_data,
  non_empty,
}
use platform_rally_extension.Auth.TeamSession
use platform_rally_extension.Auth.TeamSession.{
  World, refused, renewed, signed_out, set_auth, hydrate_team_auth_store, refresh_team_token,
  user_logout, sign_in, user_sign_out, signed_in, refresh,
}
use platform_rally_extension.Auth.TeamSession.InSync.{
  IsCodec, IsInSync, session_of, Reach-IsCovered, refresh-mixes_teams, refresh_team_token_lem,
}
use platform_rally_extension.Auth.Resume.{Json, stored_entry}
use platform_rally_extension.Auth.Staff.{initial_user}
use platform_rally_extension.Auth.Bridge
use platform_rally_extension.Auth.Bridge.{
  User, Auth, Bridge, mounted, handle_unauthorized, redirect, unauthorized, cancelled, sync_session,
}
use platform_rally_extension.Auth.Bridge.Redirect.{Reach-IsSingle}

-- One team, whose data is the text "{}".
abbrev one_team : Codec (Unit {0})
one_team = record { parse = λ s. if s == "{}" then truthy tt else malformed; stringify = λ d. "{}" }

one_team-IsCodec : IsCodec one_team
one_team-IsCodec = record { reads = λ d. refl; writes = λ d e. cc e }

abbrev no_session : World (Unit {0})
no_session = record { storage = λ k. none; auth = signed_out }

abbrev signed : World (Unit {0})
signed = set_auth one_team tt "t" no_session

signed-Reach :
    TeamSession.Reach one_team
      (hydrate_team_auth_store one_team no_session)
      (set_auth one_team tt "t" (hydrate_team_auth_store one_team no_session))
signed-Reach =
    TeamSession.next TeamSession.here
      (sign_in tt "t" (hydrate_team_auth_store one_team no_session) (λ e. cc e))

-- The team signs in, a refresh starts, the user signs out, and the refresh is refused.
Reach-IsCovered_example :
    let w = set_auth one_team tt "t" (hydrate_team_auth_store one_team no_session) in
    let u = (refresh_team_token one_team (refused 500) w (user_logout w)).1 in
    IsInSync one_team u ⊎ (get_team_token u.storage ≡ none)
Reach-IsCovered_example =
    Reach-IsCovered one_team one_team-IsCodec no_session (
      TeamSession.next (TeamSession.next signed-Reach (user_sign_out _))
        (refresh (refused 500) _ _))

signed-IsInSync : IsInSync one_team signed
unfolding IsInSync session_of set_auth get_team_token get_team_data Storage.set_team_token
    Storage.set_team_data
signed-IsInSync = refl

refresh_example :
    ((refresh_team_token one_team (refused 403) signed signed).0 ≡ none)
    × ((refresh_team_token one_team (refused 403) signed signed).1.auth ≡ signed_out)
    × (get_team_token (refresh_team_token one_team (refused 403) signed signed).1.storage ≡ none)
unfolding get_team_token set_auth Storage.set_team_token Storage.set_team_data
refresh_example =
    refresh_team_token_lem one_team "t" "t" (refused 403) signed signed refl refl (λ e. cc e)
      signed-IsInSync refl

refresh-mixes_teams_example :
    let w' = set_auth one_team tt "t2" no_session in
    let late = (refresh_team_token one_team (renewed (some "t1'")) signed w').1 in
    (late.auth ≡ signed_in tt)
    × (get_team_token late.storage ≡ some "t1'")
    × ((refresh_team_token one_team (refused 401) signed w').1.auth ≡ signed_out)
unfolding get_team_token set_auth Storage.set_team_token Storage.set_team_data
refresh-mixes_teams_example =
    refresh-mixes_teams one_team one_team-IsCodec "t" "t2" "t1'" tt signed no_session refl
      (λ e. cc e)

-- The only text that this JSON reads is the entry for one page.
abbrev one_entry : Json
one_entry = record {
  parse = λ s. if s == "{…}" then some (stored_entry "/admin" 905) else none;
  stringify = λ v. "{…}";
}

abbrev start_page : Bridge
start_page = mounted initial_user (λ k. none)

two_401s :
    Bridge.Reach one_entry start_page
      (redirect one_entry 5 "/admin" 0 (handle_unauthorized (handle_unauthorized start_page)))
unfolding handle_unauthorized
two_401s =
    Bridge.next
      (Bridge.next (Bridge.next Bridge.here (unauthorized start_page))
        (unauthorized (handle_unauthorized start_page)))
      (cancelled 5 "/admin" 0 (handle_unauthorized (handle_unauthorized start_page)) (omega arith))

redirect_example :
    ((redirect one_entry 5 "/admin" 0
        (handle_unauthorized (handle_unauthorized start_page))).redirects
      ≤ 1)
    × ((redirect one_entry 5 "/admin" 0
          (handle_unauthorized (handle_unauthorized start_page))).cleared
        ≡ (redirect one_entry 5 "/admin" 0
            (handle_unauthorized (handle_unauthorized start_page))).redirects)
redirect_example = Reach-IsSingle initial_user (λ k. none) two_401s
