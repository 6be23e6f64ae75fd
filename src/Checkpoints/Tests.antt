-- ===== src/Checkpoints/Tests.antt =====
-- The checkpoints' manager at concrete values.
mod Tally
use mathlib.Core.List.{Perm}
use platform_rally_extension.Base.{
  ℕ, suc, ◌+◌, ◌<◌, ◌≢◌, String, ◌≡◌, refl, Bool, true, false, if◌then◌else◌, ◌==◌, Same-nat,
  Same-text, Option, none, some, List, [], ◌∷◌, ◌++◌, arith, All,
}
use platform_rally_extension.Base.Keyed.{Unique, has, without}
use platform_rally_extension.Base.Positions.{find_index}
use platform_rally_extension.Checkpoints.Form.{
  Browser, CheckpointForm, CheckPointCreate, Checkpoint, blank, to_request_body, edit_values,
}
use platform_rally_extension.Checkpoints.Form.Unedited.{
  IsStandard, IsSaved, IsSavedText, IsWindowEnd, own_values, to_request_body-edit_values,
}
use platform_rally_extension.Checkpoints.Tests.Tally.{small_browser, small_browser-IsStandard}
use platform_rally_extension.Checkpoints.Route.{
  id_of, next_order, sorted_checkpoints, moved, orders_from, drop_orders, read_order,
}
use platform_rally_extension.Checkpoints.Route.Sorted.{next_order-after}
use platform_rally_extension.Checkpoints.Route.Drop.{moved-Perm, drop_orders_lem}
use platform_rally_extension.Checkpoints.Manager
use platform_rally_extension.Checkpoints.Manager.{
  Manager, Request, create, update, delete, upload_clue_image, refetch, cancel_edit,
  on_draft_started, start_draft_checkpoint, on_finalized, handle_checkpoint_submit, on_deleted,
  delete_checkpoint, present,
}
use platform_rally_extension.Checkpoints.Manager.Draft.{
  cancel_edit_lem, draft_lem, deleted_draft-submits,
}

abbrev checkpoint : ℕ → ℕ → Checkpoint (Unit {0})
checkpoint id order = record {
  id = id;
  name = "A";
  description = none;
  latitude = some tt;
  longitude = none;
  arrival_radius_m = some 80;
  order = order;
  clue = some "c";
  clue_media_url = none;
  staff_script = none;
  challenge_brief = none;
  is_draft = some true;
  is_placeholder = none;
  stage_id = some 3;
  available_from = some "2026-05-09T10:00";
  available_until = none;
}

checkpoint-IsSaved : IsSaved small_browser (checkpoint 1 1)
unfolding IsSavedText IsWindowEnd
checkpoint-IsSaved = record {
  order = λ e. absurd (omega (arith, e));
  stage = λ e. cc e;
  clue = (refl, λ e. cc e);
  media = tt;
  script = tt;
  brief = tt;
  from = ((λ e. cc e), (tt, refl, (λ e. cc e), refl));
  until = tt;
}

to_request_body_example :
    to_request_body small_browser (edit_values small_browser (checkpoint 1 1))
    ≡ own_values small_browser (checkpoint 1 1)
to_request_body_example =
    to_request_body-edit_values small_browser small_browser-IsStandard (checkpoint 1 1)
      checkpoint-IsSaved

abbrev route : List (Checkpoint (Unit {0}))
route = checkpoint 3 2 ∷ checkpoint 1 1 ∷ checkpoint 2 3 ∷ []

drop_run :
    drop_orders (some (checkpoint 2 3)) (checkpoint 1 1) (some route)
    ≡ some ((2, 1) ∷ (1, 2) ∷ (3, 3) ∷ [])
unfolding drop_orders moved sorted_checkpoints orders_from
drop_run = refl

drop_orders_example :
    (r : List (Checkpoint (Unit {0}))) × (place : ℕ) × (drop_orders
        (some (checkpoint 2 3))
        (checkpoint 1 1)
        (some route)
      ≡ some (orders_from 0 r))
    × Perm r route
    × (find_index (λ c. c.id == 1) (sorted_checkpoints route) ≡ some place)
    × (read_order 2 (orders_from 0 r) ≡ some (place + 1))
    × (without id_of 2 r ≡ without id_of 2 (sorted_checkpoints route))
drop_orders_example =
    drop_orders_lem (checkpoint 2 3) (checkpoint 1 1) route (refl, (refl, (refl, tt))) refl refl
      (λ e. absurd (omega (arith, e)))

abbrev drafting : Manager (Unit {0}) ℕ
drafting = record {
  editing_checkpoint = none;
  dragged_checkpoint = none;
  selected_checkpoint_id = none;
  pending_draft_id = some 5;
  pending_clue_image = some 70;
  form = record blank { name = "A" };
  checkpoints = some route;
  requests = [];
  toasts = [];
}

abbrev first_body : CheckPointCreate (Unit {0})
first_body = to_request_body small_browser (record blank { name = "A" })

draft_example :
    let started = on_draft_started true (some 6) (start_draft_checkpoint small_browser drafting) in
    let finished = on_finalized (handle_checkpoint_submit small_browser blank started) in
    (finished.requests
      ≡ create first_body
        ∷ upload_clue_image 6 70
        ∷ refetch
        ∷ update 6 (to_request_body small_browser blank)
        ∷ refetch
        ∷ [])
    × (finished.pending_draft_id ≡ none)
    × (finished.pending_clue_image ≡ none)
draft_example = draft_lem small_browser true 6 blank drafting refl refl refl
