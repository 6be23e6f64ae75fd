-- ===== src/Checkpoints/Manager/Draft.antt =====
-- The life of a draft that was created in the background.
use mathlib.Core.List.{append-nil}
use platform_rally_extension.Base.{
  ℕ, ◌≡◌, refl, sym, ap, ◌∙◌, Bool, true, false, ◌==◌, Same-nat, Same-text, Option, none, some,
  List, [], ◌∷◌, ◌++◌, arith,
}
use platform_rally_extension.Checkpoints.Form.{Browser, CheckpointForm, blank, to_request_body}
use platform_rally_extension.Checkpoints.Route.{next_order}
use platform_rally_extension.Checkpoints.Manager.{
  Request, create, update, delete, upload_clue_image, refetch, success, Manager, present, send,
  toast, update_order_for_new_checkpoint, flush_image, flush_pending_clue_image, draft_started_as,
  on_draft_started, on_deleted, on_finalized, cancel_edit, handle_checkpoint_submit, submit_request,
  start_draft_checkpoint, delete_checkpoint,
}

module _ {F I : Type 0} where
  -- The requests for an image that waits for its checkpoint.
  abbrev pub uploads : ℕ → Option I → List (Request F I)
  uploads id none = []
  uploads id (some image) = upload_clue_image id image ∷ []

  flush_image_lem :
      (uploaded : Bool) (id : ℕ) (o : Option I) (m : Manager F I)
      → m.pending_clue_image ≡ o
      → ((flush_image uploaded id o m).requests ≡ m.requests ++ uploads id o)
        × ((flush_image uploaded id o m).pending_draft_id ≡ m.pending_draft_id)
        × ((flush_image uploaded id o m).pending_clue_image ≡ none)
        × ((flush_image uploaded id o m).editing_checkpoint ≡ m.editing_checkpoint)
  flush_image_lem uploaded id none m e = (sym (append-nil m.requests), refl, e, refl)
  flush_image_lem true id (some image) m e = (refl, refl, refl, refl)
  flush_image_lem false id (some image) m e = (refl, refl, refl, refl)

  on_draft_started_lem :
      (uploaded : Bool) (id : ℕ) (m : Manager F I)
      → present (some id) ≡ some id
      → let started = on_draft_started uploaded (some id) m in
        (started.requests ≡ (m.requests ++ uploads id m.pending_clue_image) ++ refetch ∷ [])
        × (started.pending_draft_id ≡ some id)
        × (started.pending_clue_image ≡ none)
        × (started.editing_checkpoint ≡ m.editing_checkpoint)
  unfolding on_draft_started flush_pending_clue_image
  on_draft_started_lem uploaded id m e =
      let base =
        toast (success "Rascunho gravado — continua a preencher.")
          (record m { pending_draft_id = some id; selected_checkpoint_id = some id }) in
      let (r, d, i, c) = flush_image_lem uploaded id m.pending_clue_image base refl in
      let split = ap (λ o. draft_started_as uploaded o m) e in
      (
        ap (λ t. t.requests) split ∙ ap (λ l. l ++ refetch ∷ []) r,
        ap (λ t. t.pending_draft_id) split ∙ d,
        ap (λ t. t.pending_clue_image) split ∙ i,
        ap (λ t. t.editing_checkpoint) split ∙ c,
      )

  on_finalized_lem :
      (m : Manager F I)
      → ((on_finalized m).requests ≡ m.requests ++ refetch ∷ [])
        × ((on_finalized m).pending_draft_id ≡ none)
        × ((on_finalized m).pending_clue_image ≡ m.pending_clue_image)
  unfolding on_finalized update_order_for_new_checkpoint
  on_finalized_lem m = ground arith

  -- Cancelling leaves nothing selected, staged or edited and a blank form with the next order, and
  -- deletes exactly the draft that was pending, if one was.
  pub cancel_edit_lem :
      (m : Manager F I)
      → ((cancel_edit m).editing_checkpoint ≡ none)
        × ((cancel_edit m).selected_checkpoint_id ≡ none)
        × ((cancel_edit m).pending_draft_id ≡ none)
        × ((cancel_edit m).pending_clue_image ≡ none)
        × ((cancel_edit m).form ≡ record blank { order = next_order m.checkpoints })
        × ((cancel_edit m).requests ≡ elim (present m.pending_draft_id) [
          | none ↦ m.requests
          | some id ↦ m.requests ++ delete id ∷ []
        ])
  unfolding cancel_edit update_order_for_new_checkpoint
  cancel_edit_lem m = ground arith

module _ {F T M I : Type 0} (js : Browser F T M) where
  start_draft_checkpoint_lem :
      (m : Manager F I)
      → (js.trim m.form.name == "") ≡ false
      → start_draft_checkpoint js m ≡ send (create (to_request_body js m.form)) m
  unfolding start_draft_checkpoint
  start_draft_checkpoint_lem m named = rw named refl

  handle_checkpoint_submit_lem :
      (form : CheckpointForm) (m : Manager F I) (id : ℕ)
      → m.editing_checkpoint ≡ none
      → present m.pending_draft_id ≡ some id
      → handle_checkpoint_submit js form m ≡ send (update id (to_request_body js form)) m
  unfolding handle_checkpoint_submit
  handle_checkpoint_submit_lem form m id idle pending =
      ap (λ c. send (submit_request js form c (present m.pending_draft_id)) m) idle
      ∙ ap (λ o. send (submit_request js form none o) m) pending

  -- From the first name to the finished checkpoint: with nothing edited, a name that is not blank
  -- and an answer with an id that is not 0, one creation is sent, then a staged image goes to the
  -- id it was answered with, and what is submitted later updates that id; at the end no draft is
  -- pending and no image staged.
  pub draft_lem :
      (uploaded : Bool) (id : ℕ) (final : CheckpointForm) (m : Manager F I)
      → (js.trim m.form.name == "") ≡ false
      → present (some id) ≡ some id
      → m.editing_checkpoint ≡ none
      → let started = on_draft_started uploaded (some id) (start_draft_checkpoint js m) in
        let finished = on_finalized (handle_checkpoint_submit js final started) in
        (finished.requests
          ≡ ((((m.requests ++ create (to_request_body js m.form) ∷ [])
                  ++ uploads id m.pending_clue_image)
                ++ refetch ∷ [])
              ++ update id (to_request_body js final) ∷ [])
            ++ refetch ∷ [])
        × (finished.pending_draft_id ≡ none)
        × (finished.pending_clue_image ≡ none)
  draft_lem uploaded id final m named nonzero idle =
      let first : start_draft_checkpoint js m ≡ send (create (to_request_body js m.form)) m =
        start_draft_checkpoint_lem m named in
      let (r, d, i, c) =
        on_draft_started_lem uploaded id (send (create (to_request_body js m.form)) m) nonzero in
      let started =
        on_draft_started uploaded (some id) (send (create (to_request_body js m.form)) m) in
      let sent =
        handle_checkpoint_submit_lem final started id (c ∙ idle) (ap present d ∙ nonzero) in
      let (r', d', i') = on_finalized_lem (handle_checkpoint_submit js final started) in
      rw first (
        r'
            ∙ ap (λ t. t.requests ++ refetch ∷ []) sent
            ∙ ap (λ l. (l ++ update id (to_request_body js final) ∷ []) ++ refetch ∷ []) r,
        d',
        i' ∙ ap (λ t. t.pending_clue_image) sent ∙ i,
      )

  -- Deleting the pending draft from the list does not end it: what is submitted next, with nothing
  -- edited, is an update of the id that the server has just deleted.
  pub deleted_draft-submits :
      (id : ℕ) (form : CheckpointForm) (m : Manager F I)
      → m.editing_checkpoint ≡ none
      → present m.pending_draft_id ≡ some id
      → (handle_checkpoint_submit js form (on_deleted id (delete_checkpoint id m))).requests
        ≡ ((m.requests ++ delete id ∷ []) ++ refetch ∷ [])
          ++ update id (to_request_body js form) ∷ []
  unfolding handle_checkpoint_submit on_deleted delete_checkpoint
  deleted_draft-submits id form m idle pending = rw (idle, pending) refl
