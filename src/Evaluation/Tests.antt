-- ===== src/Evaluation/Tests.antt =====
-- The evaluation page at concrete values.
use platform_rally_extension.Auth.Storage.{is_there}
use platform_rally_extension.Base.{
  ℕ, String, ◌≡◌, ◌↔◌, ◌≤◌, refl, true, false, ◌==◌, Same-nat, Same-text, none, some, List, [], ◌∷◌,
  arith, any, All, length,
}
use platform_rally_extension.Base.Keyed.{lookup}
use platform_rally_extension.Offline.EvalQueue
use platform_rally_extension.Offline.EvalQueue.{granted, key_of, queued}
use platform_rally_extension.Evaluation.Payload.{FormData, EvaluatePayload}
use platform_rally_extension.Evaluation.Submit.{
  Outcome, api_error, rejected, thrown, offline_queued, mutation_fn, to_queue,
}
use platform_rally_extension.Evaluation.Submit.Laws.{offline_queued_iff}
use platform_rally_extension.Evaluation.Page.{
  Page, start, handle_evaluate_activity, select_team, Reach, here, next, evaluate, select,
}
use platform_rally_extension.Evaluation.Page.Invariant.{IsConsistent, Reach-IsConsistent}
use platform_rally_extension.Evaluation.Status
use platform_rally_extension.Evaluation.Status.{
  ActivityResult, compute_team_evaluation_status, status_of,
}
use platform_rally_extension.Evaluation.Status.Complete.{
  AllCompleted, compute_team_evaluation_status_lem,
}
use platform_rally_extension.Evaluation.Loading
use platform_rally_extension.Evaluation.Loading.{
  Team, Checkpoint, Responses, ExistingResult, TeamActivity, load_team_activities,
  is_from_different, with_result, completed, pending,
}
use platform_rally_extension.Evaluation.Loading.Laws.{IsListed, load_team_activities-IsListed}

abbrev no_queue : EvalQueue.Idb (FormData ℕ)
no_queue = record { queue = none; changes = 0; in_window = true; sync = granted; tags = [] }

abbrev form_payload : EvaluatePayload ℕ
form_payload = record { team_id = 1; activity_id = 2; result_data = none; idempotency_key = "a" }

-- The client's mark for no response.
abbrev no_response : Outcome ℕ ℕ
no_response = rejected (api_error 0 none "")

offline_queued_example :
    ((mutation_fn none 5 form_payload no_response no_queue).0 ≡ thrown offline_queued) ↔ (
      lookup key_of "a"
        (EvalQueue.read_all (mutation_fn none 5 form_payload no_response no_queue).1)
      ≡ some (queued 5 (to_queue form_payload)))
unfolding EvalQueue.read_all
offline_queued_example = offline_queued_iff none 5 form_payload no_response no_queue refl

abbrev name_of : ℕ → String
name_of n = "x"

abbrev mounted : Page ℕ ℕ ℕ ℕ
mounted = start no_queue

double_click : Reach name_of name_of mounted (
    handle_evaluate_activity name_of 1 2 none
      (handle_evaluate_activity name_of 1 2 none (select_team 1 mounted)))
double_click =
    next (next (next here (select 1 mounted)) (evaluate 1 2 none (select_team 1 mounted)))
      (evaluate 1 2 none (handle_evaluate_activity name_of 1 2 none (select_team 1 mounted)))

Reach-IsConsistent_example : IsConsistent (
    handle_evaluate_activity name_of 1 2 none
      (handle_evaluate_activity name_of 1 2 none (select_team 1 mounted)))
Reach-IsConsistent_example = Reach-IsConsistent no_queue double_click

abbrev two_activities : List Status.Activity
two_activities = record { id = 1; checkpoint_id = 3 } ∷ record { id = 2; checkpoint_id = 3 } ∷ []

abbrev result_for : ℕ → ℕ → ActivityResult
result_for team activity = record {
  team_id = team;
  activity_id = activity;
  is_completed = some true;
}

abbrev all_results : List ActivityResult
all_results = result_for 7 1 ∷ result_for 7 2 ∷ result_for 8 1 ∷ []

status_run :
    compute_team_evaluation_status (7 ∷ 8 ∷ []) two_activities all_results
    ≡ (7, true) ∷ (8, false) ∷ []
unfolding compute_team_evaluation_status Status.status_from Status.is_team_done
status_run = refl

compute_team_evaluation_status_example :
    (is_there (status_of 7 (compute_team_evaluation_status (7 ∷ 8 ∷ []) two_activities all_results))
      ≡ any {A = ℕ} (λ t. t == 7) (7 ∷ 8 ∷ []))
    × ((status_of 7 (compute_team_evaluation_status (7 ∷ 8 ∷ []) two_activities all_results)
          ≡ some true)
        ↔ ((any {A = ℕ} (λ t. t == 7) (7 ∷ 8 ∷ []) ≡ true)
            × (1 ≤ length two_activities)
            × AllCompleted 7 all_results two_activities))
compute_team_evaluation_status_example =
    compute_team_evaluation_status_lem (7 ∷ 8 ∷ []) two_activities all_results 7 (refl, (refl, tt))
      (omega arith, (omega arith, tt))

abbrev late_team : Team
late_team = record { id = 7; last_checkpoint_number = some 1 }

abbrev third : Checkpoint
third = record { id = 3; order = 3 }

abbrev answers : Responses ℕ
answers = record {
  staff = none;
  activities =
      some
        (some (record { id = 1; checkpoint_id = 3 } ∷ record { id = 2; checkpoint_id = 4 } ∷ []));
  results = some (record { activity_id = 1; team_id = 7 } ∷ []);
}

abbrev listed_activities : List TeamActivity
listed_activities =
    record {
      id = 1;
      checkpoint_id = 3;
      evaluation_status = some completed;
      existing_result = some (record { activity_id = 1; team_id = 7 });
    }
    ∷ []

load_team_activities-IsListed_example :
    All (IsListed 3 7 (record { activity_id = 1; team_id = 7 } ∷ [])) listed_activities
unfolding load_team_activities Loading.load_general_activities
load_team_activities-IsListed_example =
    load_team_activities-IsListed 0 true late_team third answers listed_activities refl refl
