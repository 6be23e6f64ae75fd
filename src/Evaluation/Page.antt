-- ===== src/Evaluation/Page.antt =====
-- useCheckpointEvaluation.ts: the state of the page, its handlers, and the guard against a second
-- submit while one is awaited. `uuid n` is the n-th value of `crypto.randomUUID()`.
pub mod Invariant
use platform_rally_extension.Base.{
  ℕ, suc, String, ◌≡◌, Bool, true, false, if◌then◌else◌, Option, none, some, List, [], ◌∷◌, ◌++◌,
}
use platform_rally_extension.Offline.EvalQueue.{Idb}
use platform_rally_extension.Evaluation.Payload.{FormData, EvaluatePayload}
use platform_rally_extension.Evaluation.Submit.{
  Navigator, Outcome, Thrown, offline_queued, body, detail, failure, Result, ok, thrown,
  mutation_fn,
}

-- What the page shows after a submit: the texts are the source's, an error by what was thrown.
pub data Toast (B : Type 0) : Type 0 where
  evaluated saved_offline : Toast B
  error : Thrown B → Toast B

-- `["teamActivities"]` and the like, `["team", 7]` and `["team", "7"]`.
pub data QueryKey : Type 0 where
  view : String → QueryKey
  team_number : ℕ → QueryKey
  team_text : String → QueryKey

-- The query keys that `onSuccess` invalidates; `to_text` is `Number.prototype.toString`.
abbrev pub invalidations : (ℕ → String) → ℕ → List QueryKey
invalidations to_text team_id =
    view "teamActivities"
    ∷ view "teamEvaluationStatus"
    ∷ view "checkpointTeams"
    ∷ view "allTeams"
    ∷ view "allEvaluations"
    ∷ team_number team_id
    ∷ team_text (to_text team_id)
    ∷ []

-- `onError`
abbrev pub on_error : {B : Type 0} → Thrown B → Toast B
on_error offline_queued = saved_offline
on_error e = error e

-- `T` is the type of teams and `S` that of evaluation summaries. `in_flight` holds the submits that
-- `mutateAsync` has been called for and that are not settled; `queue` is the offline queue.
pub record Page (T S B N : Type 0) : Type 0 where
  pub selected_team : Option T
  pub show_team_list : Bool
  pub evaluation_summary : Option S
  pub show_warning_dialog : Bool
  pub is_evaluating : Bool
  pub in_flight : List (EvaluatePayload N)
  pub minted : ℕ
  pub queue : Idb (FormData N)
  pub toasts : List (Toast B)
  pub invalidated : List QueryKey

module _ {T S B N : Type 0} where
  abbrev pub start : Idb (FormData N) → Page T S B N
  start queue = record {
    selected_team = none;
    show_team_list = true;
    evaluation_summary = none;
    show_warning_dialog = false;
    is_evaluating = false;
    in_flight = [];
    minted = 0;
    queue = queue;
    toasts = [];
    invalidated = [];
  }

  -- `handleEvaluateActivity`, up to its `await`.
  unfoldable pub handle_evaluate_activity :
      (ℕ → String) → ℕ → ℕ → FormData N → Page T S B N → Page T S B N
  handle_evaluate_activity uuid team_id activity_id result_data page =
      if page.is_evaluating then page else record page {
        is_evaluating = true;
        minted = suc page.minted;
        in_flight =
            record {
              team_id = team_id;
              activity_id = activity_id;
              result_data = result_data;
              idempotency_key = uuid page.minted;
            }
            ∷ page.in_flight;
      }

  -- `onSuccess` and `onError`, by what the mutation came to.
  unfoldable pub on_settled :
      {A : Type 0} → (ℕ → String) → EvaluatePayload N → Result A B → Page T S B N → Page T S B N
  on_settled to_text p (ok a) page = record page {
    toasts = page.toasts ++ evaluated ∷ [];
    invalidated = page.invalidated ++ invalidations to_text p.team_id;
  }
  on_settled to_text p (thrown e) page = record page { toasts = page.toasts ++ on_error e ∷ [] }

  -- What follows the `await` when the request of `p` is answered: the mutation's `catch`, its
  -- callbacks, and the `finally`; `others` are the submits that are still awaited.
  unfoldable pub finish_evaluation :
      {A : Type 0}
      → (ℕ → String)
      → Navigator
      → ℕ
      → EvaluatePayload N
      → List (EvaluatePayload N)
      → Outcome A B
      → Page T S B N
      → Page T S B N
  finish_evaluation to_text navigator now p others o page =
      let (result, queue) = mutation_fn navigator now p o page.queue in
      let page' = on_settled to_text p result (record page { queue = queue; in_flight = others }) in
      record page' { is_evaluating = false }

  unfoldable pub select_team : T → Page T S B N → Page T S B N
  select_team team page = record page { selected_team = some team; show_team_list = false }

  unfoldable pub back_to_teams : Page T S B N → Page T S B N
  back_to_teams page = record page { selected_team = none; show_team_list = true }

  -- `onShowWarning`, and the same two calls for an admin.
  unfoldable pub show_warning : S → Page T S B N → Page T S B N
  show_warning summary page = record page {
    evaluation_summary = some summary;
    show_warning_dialog = true;
  }

  unfoldable pub dismiss_warning : Page T S B N → Page T S B N
  dismiss_warning page = record page { show_warning_dialog = false; evaluation_summary = none }

-- What can happen on the page: the user acts at any time, and any awaited request can be answered.
pub data Step {T S B N : Type 0} (uuid to_text : ℕ → String)
    : Page T S B N → Page T S B N → Type 1 where
  evaluate :
      (team_id activity_id : ℕ) (d : FormData N) (page : Page T S B N)
      → Step uuid to_text page (handle_evaluate_activity uuid team_id activity_id d page)
  answer :
      {A : Type 0} (navigator : Navigator) (now : ℕ) (before after : List (EvaluatePayload N))
      (p : EvaluatePayload N) (o : Outcome A B) (page : Page T S B N)
      → page.in_flight ≡ before ++ p ∷ after
      → Step uuid to_text page (finish_evaluation to_text navigator now p (before ++ after) o page)
  select : (team : T) (page : Page T S B N) → Step uuid to_text page (select_team team page)
  back : (page : Page T S B N) → Step uuid to_text page (back_to_teams page)
  warn : (summary : S) (page : Page T S B N) → Step uuid to_text page (show_warning summary page)
  dismiss : (page : Page T S B N) → Step uuid to_text page (dismiss_warning page)

pub data Reach {T S B N : Type 0} (uuid to_text : ℕ → String) (s : Page T S B N)
    : Page T S B N → Type 1 where
  here : Reach uuid to_text s s
  next :
      {t u : Page T S B N} → Reach uuid to_text s t → Step uuid to_text t u → Reach uuid to_text s u
