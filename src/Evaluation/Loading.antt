-- ===== src/Evaluation/Loading.antt =====
-- checkpointEvaluation.types.ts and the query of useCheckpointEvaluation.ts that loads a team's
-- activities. A response is `none` where its request rejects.
pub mod Laws
use platform_rally_extension.Base.{
  ℕ, ◌-◌, ◌+◌, String, Bool, true, false, not, ◌&&◌, ◌||◌, ◌==◌, Same-nat, if◌then◌else◌, get_or,
  Option, none, some, List, [], ◌∷◌, map, filter, find,
}

-- `completion_rate` is a fraction, of type `R`.
pub record EvaluationSummary (R : Type 0) : Type 0 where
  pub total_activities : ℕ
  pub completed_activities : ℕ
  pub pending_activities : ℕ
  pub completion_rate : R
  pub has_incomplete : Bool
  pub missing_activities : List String
  pub checkpoint_mismatch : Option Bool
  pub team_checkpoint : Option ℕ
  pub current_checkpoint : Option ℕ

-- `Partial<EvaluationSummary>`
pub record PartialSummary (R : Type 0) : Type 0 where
  pub total_activities : Option ℕ
  pub completed_activities : Option ℕ
  pub pending_activities : Option ℕ
  pub completion_rate : Option R
  pub has_incomplete : Option Bool
  pub missing_activities : Option (List String)
  pub checkpoint_mismatch : Option Bool
  pub team_checkpoint : Option ℕ
  pub current_checkpoint : Option ℕ

pub data EvaluationStatus : Type 0 where
  completed pending : EvaluationStatus

-- The fields of an `ActivityResponse` and of a result that the code reads.
pub record Activity : Type 0 where
  pub id : ℕ
  pub checkpoint_id : ℕ

pub record ExistingResult : Type 0 where
  pub activity_id : ℕ
  pub team_id : ℕ

-- `TeamActivityWithStatus`
pub record TeamActivity : Type 0 where
  pub id : ℕ
  pub checkpoint_id : ℕ
  pub evaluation_status : Option EvaluationStatus
  pub existing_result : Option ExistingResult

-- `TeamActivitiesResponse`; `activities` is `none` unless it is an array.
pub record TeamActivitiesResponse (R : Type 0) : Type 0 where
  pub activities : Option (List TeamActivity)
  pub evaluation_summary : Option (PartialSummary R)

module _ {R : Type 0} where
  abbrev pub no_fields : PartialSummary R
  no_fields = record {
    total_activities = none;
    completed_activities = none;
    pending_activities = none;
    completion_rate = none;
    has_incomplete = none;
    missing_activities = none;
    checkpoint_mismatch = none;
    team_checkpoint = none;
    current_checkpoint = none;
  }

  -- `{ ...summary }`
  abbrev pub spread : Option (EvaluationSummary R) → PartialSummary R
  spread none = no_fields
  spread (some s) = record {
    total_activities = some s.total_activities;
    completed_activities = some s.completed_activities;
    pending_activities = some s.pending_activities;
    completion_rate = some s.completion_rate;
    has_incomplete = some s.has_incomplete;
    missing_activities = some s.missing_activities;
    checkpoint_mismatch = s.checkpoint_mismatch;
    team_checkpoint = s.team_checkpoint;
    current_checkpoint = s.current_checkpoint;
  }

  abbrev pub has_incomplete_of : Option (EvaluationSummary R) → Bool
  has_incomplete_of none = false
  has_incomplete_of (some s) = s.has_incomplete

module _ {R : Type 0} (no_rate : R) where
  unfoldable pub to_evaluation_summary : PartialSummary R → EvaluationSummary R
  to_evaluation_summary p = record {
    total_activities = get_or p.total_activities 0;
    completed_activities = get_or p.completed_activities 0;
    pending_activities = get_or p.pending_activities 0;
    completion_rate = get_or p.completion_rate no_rate;
    has_incomplete = get_or p.has_incomplete false;
    missing_activities = get_or p.missing_activities [];
    checkpoint_mismatch = p.checkpoint_mismatch;
    team_checkpoint = p.team_checkpoint;
    current_checkpoint = p.current_checkpoint;
  }

  abbrev pub summary_of : TeamActivitiesResponse R → Option (EvaluationSummary R)
  summary_of data' = elim data'.evaluation_summary [
    | none ↦ none
    | some p ↦ some (to_evaluation_summary p)
  ]

  -- The argument of `onShowWarning`: what the summary says, and else the page's own numbers.
  abbrev pub warning_of : Option (EvaluationSummary R) → Bool → ℕ → ℕ → EvaluationSummary R
  warning_of summary different last order =
      let p = spread summary in
      to_evaluation_summary (record p {
        checkpoint_mismatch = some (get_or p.checkpoint_mismatch different);
        team_checkpoint = some (get_or p.team_checkpoint last);
        current_checkpoint = some (get_or p.current_checkpoint order);
      })

  -- `tryLoadStaffActivities`: the activities, or `none` for the general endpoint, and the summary
  -- that `onShowWarning` is called with.
  unfoldable pub try_load_staff_activities :
      Option (TeamActivitiesResponse R)
      → Bool
      → ℕ
      → ℕ
      → Option (List TeamActivity) × Option (EvaluationSummary R)
  try_load_staff_activities none different last order = (none, none)
  try_load_staff_activities (some data') different last order =
      let summary = summary_of data' in
      (
        if different then none else some (get_or data'.activities []),
        if has_incomplete_of summary || different
            then some (warning_of summary different last order)
            else none,
      )

  -- The two calls for an admin whose team comes from elsewhere.
  abbrev pub admin_warning : ℕ → ℕ → EvaluationSummary R
  admin_warning last order = to_evaluation_summary (record (no_fields {R = R}) {
    checkpoint_mismatch = some true;
    team_checkpoint = some last;
    current_checkpoint = some order;
  })

abbrev pub matches : ℕ → ℕ → ExistingResult → Bool
matches team_id activity_id result = result.activity_id == activity_id && result.team_id == team_id

abbrev pub with_result : List ExistingResult → ℕ → Activity → TeamActivity
with_result results team_id a =
    let existing = find (matches team_id a.id) results in
    record {
      id = a.id;
      checkpoint_id = a.checkpoint_id;
      evaluation_status = some (elim existing [ some r ↦ completed | none ↦ pending ]);
      existing_result = existing;
    }

-- `loadGeneralActivities`; `none` where the first request rejects.
unfoldable pub load_general_activities :
    ℕ
    → ℕ
    → Option (Option (List Activity))
    → Option (List ExistingResult)
    → Option (List TeamActivity)
load_general_activities checkpoint_id team_id none results = none
load_general_activities checkpoint_id team_id (some activities) results = some (
    map (with_result (get_or results []) team_id)
      (filter (λ a. a.checkpoint_id == checkpoint_id) (get_or activities [])))

pub record Checkpoint : Type 0 where
  pub id : ℕ
  pub order : ℕ

pub record Team : Type 0 where
  pub id : ℕ
  pub last_checkpoint_number : Option ℕ

-- What the server answers.
pub record Responses (R : Type 0) : Type 0 where
  pub staff : Option (TeamActivitiesResponse R)
  pub activities : Option (Option (List Activity))
  pub results : Option (List ExistingResult)

-- `isFromDifferentCheckpoint`
unfoldable pub is_from_different : Team → Checkpoint → Bool
is_from_different team checkpoint =
    let last = get_or team.last_checkpoint_number 0 in
    let expected = if checkpoint.order == 0 then 0 else checkpoint.order - 1 in
    not (last == expected)

module _ {R : Type 0} (no_rate : R) (is_rally_admin : Bool) (team : Team) (checkpoint : Checkpoint)
    (r : Responses R) where
  abbrev pub staff_result : Option (List TeamActivity) × Option (EvaluationSummary R)
  staff_result =
      if is_rally_admin
      then (none, none)
      else try_load_staff_activities no_rate r.staff (is_from_different team checkpoint)
          (get_or team.last_checkpoint_number 0) checkpoint.order

  -- The query function: the activities (`none` if it throws), and the summary of the warning dialog
  -- if it opens one.
  unfoldable pub load_team_activities : Option (List TeamActivity) × Option (EvaluationSummary R)
  load_team_activities =
      let general = load_general_activities checkpoint.id team.id r.activities r.results in
      elim staff_result.0 [
        | some activities ↦ (some activities, staff_result.1)
        | none ↦ (
          general,
          if is_rally_admin && is_from_different team checkpoint
              then some
                  (admin_warning no_rate (get_or team.last_checkpoint_number 0) checkpoint.order)
              else staff_result.1,
        )
      ]
