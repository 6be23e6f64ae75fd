-- ===== src/Auth/Staff/Roles.antt =====
-- The different tests of a user's roles, side by side.
use platform_rally_extension.Base.{
  String, ◌≡◌, refl, Bool, true, false, ◌||◌, not, if◌then◌else◌, Same-text, Option, none, some,
  List, [], arith, inl, inr, Bool-cases,
}
use platform_rally_extension.Auth.Storage.{Storage}
use platform_rally_extension.Auth.Staff.{
  Config, includes, push_if, map_groups_to_scopes, derive_role_flags, is_rally_admin,
  has_guide_role, ViewMode, team, staff, is_dual_role, show_team_view, toggle, read_initial,
  in_team_view,
}

-- The three places that decide from the scopes agree: the guide's surface is for exactly the
-- privileged users of the navigation, and both tests for an admin are the same one.
pub derive_role_flags_lem :
    (scopes : Option (List String))
    → (has_guide_role scopes ≡ (derive_role_flags scopes).is_privileged)
      × (is_rally_admin scopes ≡ (derive_role_flags scopes).is_admin_or_manager)
unfolding has_guide_role derive_role_flags is_rally_admin
derive_role_flags_lem none = (refl, refl)
derive_role_flags_lem (some scopes) = ground arith

scope_cases :
    (a m s g : Bool)
    → let scopes =
        push_if g "rally-guide"
          (push_if s "rally-staff" (push_if m "manager-rally" (push_if a "admin" []))) in
      ((derive_role_flags (some scopes)).is_privileged ≡ (a || m || s || g))
      × (is_rally_admin (some scopes) ≡ (a || m))
unfolding derive_role_flags is_rally_admin
scope_cases true true true true = (refl, refl)
scope_cases true true true false = (refl, refl)
scope_cases true true false true = (refl, refl)
scope_cases true true false false = (refl, refl)
scope_cases true false true true = (refl, refl)
scope_cases true false true false = (refl, refl)
scope_cases true false false true = (refl, refl)
scope_cases true false false false = (refl, refl)
scope_cases false true true true = (refl, refl)
scope_cases false true true false = (refl, refl)
scope_cases false true false true = (refl, refl)
scope_cases false true false false = (refl, refl)
scope_cases false false true true = (refl, refl)
scope_cases false false true false = (refl, refl)
scope_cases false false false true = (refl, refl)
scope_cases false false false false = (refl, refl)

-- Of the groups of a user, exactly those of the configuration decide: the user is privileged just
-- when in one of the four, and an admin or manager just when in one of those two.
pub map_groups_to_scopes_lem :
    (config : Config) (groups : List String)
    → ((derive_role_flags (some (map_groups_to_scopes config (some groups)))).is_privileged ≡ (
        includes groups config.oidc_admin_group
        || includes groups config.oidc_manager_group
        || includes groups config.oidc_staff_group
        || includes groups config.oidc_guide_group))
      × (is_rally_admin (some (map_groups_to_scopes config (some groups)))
          ≡ (includes groups config.oidc_admin_group || includes groups config.oidc_manager_group))
unfolding map_groups_to_scopes
map_groups_to_scopes_lem config groups =
    scope_cases (includes groups config.oidc_admin_group)
      (includes groups config.oidc_manager_group) (includes groups config.oidc_staff_group)
      (includes groups config.oidc_guide_group)

-- Someone signed in as a team sees the team's navigation, unless privileged: then the view mode
-- decides, each toggle of it changes what is seen, and the mode it leaves is what a reload reads.
pub show_team_view-toggle :
    (scopes : Option (List String)) (mode : ViewMode) (s : Storage)
    → (show_team_view scopes true mode
        ≡ (if (derive_role_flags scopes).is_privileged then in_team_view mode else true))
      × (show_team_view scopes true (toggle (mode, s)).0
          ≡ (if is_dual_role scopes true then not (show_team_view scopes true mode) else true))
      × (show_team_view scopes false mode ≡ false)
      × (read_initial (toggle (mode, s)).1 ≡ some (toggle (mode, s)).0)
unfolding show_team_view is_dual_role read_initial toggle
show_team_view-toggle scopes team s = elim (Bool-cases (derive_role_flags scopes).is_privileged) [
  | inl h ↦ rw h (refl, refl, refl, refl)
  | inr h ↦ rw h (refl, refl, refl, refl)
]
show_team_view-toggle scopes staff s = elim (Bool-cases (derive_role_flags scopes).is_privileged) [
  | inl h ↦ rw h (refl, refl, refl, refl)
  | inr h ↦ rw h (refl, refl, refl, refl)
]
