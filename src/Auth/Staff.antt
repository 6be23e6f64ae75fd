-- ===== src/Auth/Staff.antt =====
-- The staff's session and its roles: auth/identity.ts, stores/useUserStore.ts, auth/useAuthSync.ts,
-- hooks/useNavAudience.ts, hooks/useGuideAccess.ts, hooks/useUser.ts, stores/useViewModeStore.ts and
-- the request header of services/apiClient.ts, below web-rally/src.
pub mod Roles
use platform_rally_extension.Base.{
  ℕ, String, Bool, true, false, ◌&&◌, ◌||◌, not, if◌then◌else◌, ◌==◌, Same-text, Option, none, some,
  get_or, List, [], ◌∷◌, ◌++◌, any,
}
use platform_rally_extension.Auth.Storage.{Storage, set_item, get_team_token, is_there}

-- The groups' names, from the configuration.
pub record Config : Type 0 where
  pub oidc_admin_group : String
  pub oidc_manager_group : String
  pub oidc_staff_group : String
  pub oidc_guide_group : String

-- `Array.prototype.includes`
abbrev pub includes : List String → String → Bool
includes xs x = any (λ y. y == x) xs

abbrev pub push_if : Bool → String → List String → List String
push_if b scope scopes = if b then scopes ++ scope ∷ [] else scopes

unfoldable pub map_groups_to_scopes : Config → Option (List String) → List String
map_groups_to_scopes config none = []
map_groups_to_scopes config (some groups) =
    push_if (includes groups config.oidc_guide_group) "rally-guide" (
      push_if (includes groups config.oidc_staff_group) "rally-staff" (
        push_if (includes groups config.oidc_manager_group) "manager-rally"
          (push_if (includes groups config.oidc_admin_group) "admin" [])))

-- The profile's claims that are read.
pub record Profile : Type 0 where
  pub sub : Option String
  pub email : Option String
  pub name : Option String
  pub preferred_username : Option String
  pub picture : Option String
  pub groups : Option (List String)

pub record TokenPayload : Type 0 where
  pub image : Option String
  pub sub : Option String
  pub email : Option String
  pub name : Option String
  pub scopes : Option (List String)

abbrev pub or_else : Option String → Option String → Option String
or_else none o = o
or_else (some s) o = some s

unfoldable pub profile_to_user : Config → Profile → TokenPayload
profile_to_user config p = record {
  image = p.picture;
  sub = p.sub;
  email = p.email;
  name = or_else p.name p.preferred_username;
  scopes = some (map_groups_to_scopes config p.groups);
}

pub record UserState : Type 0 where
  pub identity : TokenPayload
  pub token : Option String
  pub session_loading : Bool
  pub is_authenticated : Bool

abbrev pub empty_identity : TokenPayload
empty_identity = record { image = none; sub = none; email = none; name = none; scopes = none }

abbrev pub initial_user : UserState
initial_user = record {
  identity = empty_identity;
  token = none;
  session_loading = true;
  is_authenticated = false;
}

abbrev pub truthy_text : Option String → Bool
truthy_text none = false
truthy_text (some s) = not (s == "")

-- The payload is one of `profileToUser`, which has every field.
unfoldable pub set_session : String → TokenPayload → UserState → UserState
set_session token user state = record {
  identity = user;
  token = some token;
  session_loading = false;
  is_authenticated = truthy_text user.sub;
}

unfoldable pub clear_session : UserState → UserState
clear_session state = record {
  identity = empty_identity;
  token = none;
  session_loading = false;
  is_authenticated = false;
}

pub record RoleFlags : Type 0 where
  pub is_admin_or_manager : Bool
  pub is_staff : Bool
  pub is_guide : Bool
  pub is_privileged : Bool

abbrev pub includes_scope : Option (List String) → String → Bool
includes_scope none s = false
includes_scope (some scopes) s = includes scopes s

unfoldable pub derive_role_flags : Option (List String) → RoleFlags
derive_role_flags scopes =
    let admin =
      includes_scope scopes "admin"
      || includes_scope scopes "manager-rally"
      || includes_scope scopes "rally:admin" in
    let staff = includes_scope scopes "rally-staff" in
    let guide = includes_scope scopes "rally-guide" in
    record {
      is_admin_or_manager = admin;
      is_staff = staff;
      is_guide = guide;
      is_privileged = admin || staff || guide;
    }

-- `isRallyAdmin` of `useUser`.
unfoldable pub is_rally_admin : Option (List String) → Bool
is_rally_admin scopes =
    includes_scope scopes "admin"
    || includes_scope scopes "manager-rally"
    || includes_scope scopes "rally:admin"

abbrev pub guide_role_scopes : List String
guide_role_scopes = "rally-guide" ∷ "rally-staff" ∷ "admin" ∷ "manager-rally" ∷ "rally:admin" ∷ []

unfoldable pub has_guide_role : Option (List String) → Bool
has_guide_role none = false
has_guide_role (some scopes) = any (λ scope. includes scopes scope) guide_role_scopes

-- The settings that are read.
pub record Settings : Type 0 where
  pub guide_mode_enabled : Option Bool
  pub guide_mode_active : Option Bool
  pub event_type : Option String

abbrev pub is_true : Option Bool → Bool
is_true none = false
is_true (some b) = b

abbrev pub is_text : String → Option String → Bool
is_text s none = false
is_text s (some t) = t == s

unfoldable pub show_guide_feature : Option Settings → Bool
show_guide_feature none = false
show_guide_feature (some s) =
    (is_true s.guide_mode_enabled && is_true s.guide_mode_active)
    || is_text "peddy_paper" s.event_type

unfoldable pub is_allowed : Option (List String) → Option Settings → Bool
is_allowed scopes settings = has_guide_role scopes && show_guide_feature settings

pub data ViewMode : Type 0 where
  team staff : ViewMode

abbrev pub in_team_view : ViewMode → Bool
in_team_view team = true
in_team_view staff = false

unfoldable pub is_dual_role : Option (List String) → Bool → Bool
is_dual_role scopes team_authenticated =
    (derive_role_flags scopes).is_privileged && team_authenticated

unfoldable pub show_team_view : Option (List String) → Bool → ViewMode → Bool
show_team_view scopes team_authenticated mode =
    team_authenticated
    && (not (derive_role_flags scopes).is_privileged
        || (is_dual_role scopes team_authenticated && in_team_view mode))

abbrev pub view_mode_key : String
view_mode_key = "rally_view_mode"

abbrev pub mode_text : ViewMode → String
mode_text team = "team"
mode_text staff = "staff"

-- `toggle` of the view mode's store: the mode, and the storage.
unfoldable pub toggle : ViewMode × Storage → ViewMode × Storage
toggle (staff, s) = (team, set_item view_mode_key (mode_text team) s)
toggle (team, s) = (staff, set_item view_mode_key (mode_text staff) s)

-- `readInitial` in a browser: a text that is neither is cast to a mode that is not "staff" and, for
-- what `toggle` and the navigation ask, not "team"; such a text is nothing here.
abbrev pub mode_of : Option String → Option ViewMode
mode_of none = some staff
mode_of (some t) = if t == "team" then some team else if t == "staff" then some staff else none

unfoldable pub read_initial : Storage → Option ViewMode
read_initial s = mode_of (s view_mode_key)

-- The token that the request interceptor sends.
abbrev pub authorization : Option String → Option String
authorization none = none
authorization (some t) = if t == "" then none else some t

unfoldable pub request_token : UserState → Storage → Option String
request_token user s = authorization (or_else user.token (get_team_token s))
