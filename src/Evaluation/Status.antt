-- ===== src/Evaluation/Status.antt =====
-- `computeTeamEvaluationStatus` of useCheckpointEvaluation.ts: which teams are through with a
-- checkpoint. Teams, activities and results are reduced to the fields that the code reads.
pub mod Complete
use platform_rally_extension.Base.{
  ℕ, Bool, true, false, ltb, ◌&&◌, ◌==◌, Same-nat, if◌then◌else◌, Option, none, some, List, [], ◌∷◌,
  filter, any, length, ◌≡◌,
}

pub record Activity : Type 0 where
  pub id : ℕ
  pub checkpoint_id : ℕ

-- `is_completed` may be missing: the code compares with `true`.
pub record ActivityResult : Type 0 where
  pub team_id : ℕ
  pub activity_id : ℕ
  pub is_completed : Option Bool

abbrev pub is_true : Option Bool → Bool
is_true none = false
is_true (some b) = b

-- `Record<number, boolean>`, and an assignment to it.
abbrev pub StatusMap : Type 0
StatusMap = List (ℕ × Bool)

abbrev pub assign : ℕ → Bool → StatusMap → StatusMap
assign k v [] = (k, v) ∷ []
assign k v ((j, w) ∷ m) = if j == k then (k, v) ∷ m else (j, w) ∷ assign k v m

abbrev pub status_of : ℕ → StatusMap → Option Bool
status_of k [] = none
status_of k ((j, w) ∷ m) = if j == k then some w else status_of k m

module _ (activities : List Activity) (results : List ActivityResult) where
  -- The test of `results.filter`.
  abbrev pub counts_for : ℕ → ActivityResult → Bool
  counts_for team result =
      result.team_id == team
      && (is_true result.is_completed && any (λ a. a.id == result.activity_id) activities)

  unfoldable pub is_team_done : ℕ → Bool
  is_team_done team =
      ltb 0 (length activities) && length (filter (counts_for team) results) == length activities

  -- The loop over the teams.
  unfoldable pub status_from : List ℕ → StatusMap → StatusMap
  status_from [] m = m
  status_from (team ∷ teams) m = status_from teams (assign team (is_team_done team) m)

-- Teams are given by their ids.
unfoldable pub compute_team_evaluation_status :
    List ℕ → List Activity → List ActivityResult → StatusMap
compute_team_evaluation_status teams activities results = status_from activities results teams []

-- What the query shows if one of its requests fails: no team is through.
unfoldable pub failed_status : List ℕ → StatusMap → StatusMap
failed_status [] m = m
failed_status (team ∷ teams) m = failed_status teams (assign team false m)
