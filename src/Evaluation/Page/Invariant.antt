-- ===== src/Evaluation/Page/Invariant.antt =====
-- What holds of the evaluation page whatever the user does and however requests are answered.
use platform_rally_extension.Base.{
  ℕ, ◌≡◌, String, refl, sym, ◌∙◌, ap, Bool, true, false, Option, none, some, List, ◌∷◌, ◌++◌,
  if◌then◌else◌, length, length-append, arith,
}
use platform_rally_extension.Offline.EvalQueue.{Idb}
use platform_rally_extension.Evaluation.Payload.{FormData, EvaluatePayload}
use platform_rally_extension.Evaluation.Submit.{Navigator, Outcome}
use platform_rally_extension.Evaluation.Page.{
  Page, start, handle_evaluate_activity, on_settled, finish_evaluation, select_team, back_to_teams,
  show_warning, dismiss_warning, Step, evaluate, answer, select, back, warn, dismiss, Reach, here,
  next,
}

abbrev pub is_some : {A : Type 0} → Option A → Bool
is_some none = false
is_some (some a) = true

abbrev pub is_none : {A : Type 0} → Option A → Bool
is_none none = true
is_none (some a) = false

module _ {N : Type 0} where
  none_left :
      (before after : List (EvaluatePayload N)) (p : EvaluatePayload N) (b : Bool)
      → length (before ++ p ∷ after) ≡ (if b then 1 else 0)
      → length (before ++ after) ≡ 0
  none_left before after p b e =
      ground (arith, length-append before (p ∷ after), length-append before after)

module _ {T S B N : Type 0} where
  -- The guard is up exactly while one submit is awaited, and there is never a second one; the team
  -- list shows exactly while no team is selected, the dialog exactly while there is a summary.
  pub record IsConsistent (page : Page T S B N) : Type 0 where
    pub awaited : length page.in_flight ≡ (if page.is_evaluating then 1 else 0)
    pub listed : page.show_team_list ≡ is_none page.selected_team
    pub warned : page.show_warning_dialog ≡ is_some page.evaluation_summary

  finish-same :
      {A : Type 0} (to_text : ℕ → String) (navigator : Navigator) (now : ℕ) (p : EvaluatePayload N)
      (others : List (EvaluatePayload N)) (o : Outcome A B) (page : Page T S B N)
      → ((finish_evaluation to_text navigator now p others o page).in_flight ≡ others)
        × ((finish_evaluation to_text navigator now p others o page).is_evaluating ≡ false)
        × ((finish_evaluation to_text navigator now p others o page).show_team_list
            ≡ page.show_team_list)
        × ((finish_evaluation to_text navigator now p others o page).selected_team
            ≡ page.selected_team)
        × ((finish_evaluation to_text navigator now p others o page).show_warning_dialog
            ≡ page.show_warning_dialog)
        × ((finish_evaluation to_text navigator now p others o page).evaluation_summary
            ≡ page.evaluation_summary)
  unfolding finish_evaluation on_settled
  finish-same to_text navigator now p others o page = ground arith

  evaluate-IsConsistent :
      (uuid : ℕ → String) (team_id activity_id : ℕ) (d : FormData N) (page : Page T S B N)
      → IsConsistent page
      → IsConsistent (handle_evaluate_activity uuid team_id activity_id d page)
  unfolding handle_evaluate_activity
  evaluate-IsConsistent uuid team_id activity_id d page c = ground arith

  Step-IsConsistent :
      {uuid to_text : ℕ → String} {s t : Page T S B N}
      → Step uuid to_text s t
      → IsConsistent s
      → IsConsistent t
  unfolding select_team back_to_teams show_warning dismiss_warning
  Step-IsConsistent {uuid} (evaluate team_id activity_id d page) c =
      evaluate-IsConsistent uuid team_id activity_id d page c
  Step-IsConsistent {to_text} (answer navigator now before after p o page e) c =
      let (flight, busy, list, team, dialog, summary) =
        finish-same to_text navigator now p (before ++ after) o page in
      record {
        awaited =
            ap length flight
            ∙ none_left before after p page.is_evaluating (ap length (sym e) ∙ c.awaited)
            ∙ ap (λ b. if b then 1 else 0) (sym busy);
        listed = list ∙ c.listed ∙ ap is_none (sym team);
        warned = dialog ∙ c.warned ∙ ap is_some (sym summary);
      }
  Step-IsConsistent (select team page) c = record {
    awaited = c.awaited;
    listed = refl;
    warned = c.warned;
  }
  Step-IsConsistent (back page) c = record { awaited = c.awaited; listed = refl; warned = c.warned }
  Step-IsConsistent (warn summary page) c = record {
    awaited = c.awaited;
    listed = c.listed;
    warned = refl;
  }
  Step-IsConsistent (dismiss page) c = record {
    awaited = c.awaited;
    listed = c.listed;
    warned = refl;
  }

  Reach-step :
      {uuid to_text : ℕ → String} {s t : Page T S B N}
      → IsConsistent s
      → Reach uuid to_text s t
      → IsConsistent t
  Reach-step c here = c
  Reach-step c (next r st) = Step-IsConsistent st (Reach-step c r)

  -- From the page as it is mounted, after any clicks and answers: at most one submit is awaited, and
  -- the guard is up exactly while one is; the list and the dialog show what the state says.
  pub Reach-IsConsistent :
      {uuid to_text : ℕ → String} (queue : Idb (FormData N)) {page : Page T S B N}
      → Reach uuid to_text (start queue) page
      → IsConsistent page
  Reach-IsConsistent queue r =
      Reach-step (record { awaited = refl; listed = refl; warned = refl }) r
