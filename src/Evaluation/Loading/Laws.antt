-- ===== src/Evaluation/Loading/Laws.antt =====
-- Which activities the evaluation screen lists, and when it warns.
use mathlib.Core.Path.{subst}
use platform_rally_extension.Base.{
  ℕ, ◌≡◌, ◌↔◌, refl, Bool, true, false, ◌==◌, Same-nat, Option, none, some, List, [], ◌∷◌, map,
  filter, find, any, get_or, All, Bool-cases, inl, inr, arith, ◌||◌, if◌then◌else◌, eq_of_same,
}
use platform_rally_extension.Evaluation.Loading.{
  Activity, TeamActivity, ExistingResult, completed, matches, with_result, load_general_activities,
  Team, Checkpoint, Responses, TeamActivitiesResponse, is_from_different, load_team_activities,
  try_load_staff_activities, summary_of, has_incomplete_of,
}

-- An activity of the checkpoint, shown as evaluated exactly if the team has a result for it.
pub record IsListed (checkpoint_id team_id : ℕ) (results : List ExistingResult) (a : TeamActivity)
    : Type 0 where
  pub here : a.checkpoint_id ≡ checkpoint_id
  pub shown : (a.evaluation_status ≡ some completed) ↔ (any (matches team_id a.id) results ≡ true)

find_iff :
    (p : ExistingResult → Bool) (results : List ExistingResult)
    → (find p results ≡ none) ↔ (any p results ≡ false)
find_iff p [] = (λ e. refl, λ e. refl)
find_iff p (r ∷ rs) = ground (arith, find_iff p rs)

with_result-IsListed :
    (team_id : ℕ) (results : List ExistingResult) (a : Activity)
    → IsListed a.checkpoint_id team_id results (with_result results team_id a)
with_result-IsListed team_id results a = record {
  here = refl;
  shown = ground (arith, find_iff (matches team_id a.id) results);
}

listed :
    (checkpoint_id team_id : ℕ) (results : List ExistingResult) (activities : List Activity)
    → All (IsListed checkpoint_id team_id results) (
        map
          (with_result results team_id)
          (filter (λ a. a.checkpoint_id == checkpoint_id) activities))
listed c t results [] = tt
listed c t results (a ∷ rest) = elim (Bool-cases (a.checkpoint_id == c)) [
  | inl same ↦ rw same (
    subst (λ k. IsListed k t results (with_result results t a)) (eq_of_same a.checkpoint_id c same)
        (with_result-IsListed t results a),
    listed c t results rest,
  )
  | inr other ↦ rw other (listed c t results rest)
]

general-IsListed :
    (checkpoint_id team_id : ℕ) (activities : Option (Option (List Activity)))
    (results : Option (List ExistingResult)) (l : List TeamActivity)
    → load_general_activities checkpoint_id team_id activities results ≡ some l
    → All (IsListed checkpoint_id team_id (get_or results [])) l
unfolding load_general_activities
general-IsListed c t none results l e = cc
general-IsListed c t (some activities) results l e =
    let shown : List TeamActivity =
      map (with_result (get_or results []) t)
        (filter (λ a. a.checkpoint_id == c) (get_or activities [])) in
    let p : shown ≡ l = cc in
    subst (All (IsListed c t (get_or results []))) p
      (listed c t (get_or results []) (get_or activities []))

staff-different :
    {R : Type 0} (no_rate : R) (response : Option (TeamActivitiesResponse R)) (last order : ℕ)
    → (try_load_staff_activities no_rate response true last order).0 ≡ none
unfolding try_load_staff_activities
staff-different no_rate none last order = refl
staff-different no_rate (some d) last order = refl

abbrev pub is_some : {A : Type 0} → Option A → Bool
is_some none = false
is_some (some a) = true

-- The warning of the staff's endpoint: an answer that has incomplete activities, or any answer for a
-- team that comes from elsewhere.
abbrev pub staff_warns : {R : Type 0} → R → Option (TeamActivitiesResponse R) → Bool → Bool
staff_warns no_rate none different = false
staff_warns no_rate (some d) different = has_incomplete_of (summary_of no_rate d) || different

module _ {R : Type 0} (no_rate : R) (is_rally_admin : Bool) (team : Team) (checkpoint : Checkpoint)
    (r : Responses R) where
  -- For an admin, and for a team that does not come from the previous checkpoint, the screen lists
  -- only activities of the checkpoint, each shown as evaluated exactly if the team has a result for
  -- it among those that the server sent (none, if that request fails).
  pub load_team_activities-IsListed :
      (l : List TeamActivity)
      → (is_rally_admin || is_from_different team checkpoint) ≡ true
      → (load_team_activities no_rate is_rally_admin team checkpoint r).0 ≡ some l
      → All (IsListed checkpoint.id team.id (get_or r.results [])) l
  unfolding load_team_activities
  load_team_activities-IsListed l h e =
      general-IsListed checkpoint.id team.id r.activities r.results l (
        ground (
          arith,
          staff-different no_rate r.staff (get_or team.last_checkpoint_number 0) checkpoint.order,
        ))

  -- The warning dialog opens for an admin exactly if the team comes from elsewhere, and for other
  -- staff exactly if their endpoint answers and either says that activities are incomplete or the
  -- team comes from elsewhere.
  pub load_team_activities-warns :
      is_some (load_team_activities no_rate is_rally_admin team checkpoint r).1 ≡ (
        if is_rally_admin
        then is_from_different team checkpoint
        else staff_warns no_rate r.staff (is_from_different team checkpoint))
  unfolding load_team_activities try_load_staff_activities
  load_team_activities-warns = ground arith
