-- ===== src/Checkpoints/Manager.antt =====
-- useCheckpointManagement.ts: the manager's state, its mutations' callbacks and its handlers. A
-- request is recorded when it is made and answered by a later call; `I` is the type of image files.
pub mod Draft
use platform_rally_extension.Base.{
  ℕ, String, Bool, true, false, if◌then◌else◌, ◌==◌, Same-nat, Same-text, Option, none, some, List,
  [], ◌∷◌, ◌++◌,
}
use platform_rally_extension.Checkpoints.Form.{
  Browser, CheckpointForm, CheckPointCreate, Checkpoint, blank, to_request_body, edit_values,
}
use platform_rally_extension.Checkpoints.Route.{next_order, drop_orders}

pub data Request (F I : Type 0) : Type 0 where
  create : CheckPointCreate F → Request F I
  update : ℕ → CheckPointCreate F → Request F I
  delete : ℕ → Request F I
  reorder : List (ℕ × ℕ) → Request F I
  upload_clue_image : ℕ → I → Request F I
  refetch : Request F I

pub data Toast : Type 0 where
  success error : String → Toast

pub record Manager (F I : Type 0) : Type 0 where
  pub editing_checkpoint : Option (Checkpoint F)
  pub dragged_checkpoint : Option (Checkpoint F)
  pub selected_checkpoint_id : Option ℕ
  pub pending_draft_id : Option ℕ
  pub pending_clue_image : Option I
  pub form : CheckpointForm
  pub checkpoints : Option (List (Checkpoint F))
  pub requests : List (Request F I)
  pub toasts : List Toast

-- An id that is there and not 0, as `if (id)` tests it.
abbrev pub present : Option ℕ → Option ℕ
present none = none
present (some n) = if n == 0 then none else some n

abbrev pub unless_deleted : ℕ → Option ℕ → Option ℕ
unless_deleted id none = none
unless_deleted id (some current) = if current == id then none else some current

module _ {F I : Type 0} where
  abbrev pub send : Request F I → Manager F I → Manager F I
  send r m = record m { requests = m.requests ++ r ∷ [] }

  abbrev pub toast : Toast → Manager F I → Manager F I
  toast t m = record m { toasts = m.toasts ++ t ∷ [] }

  abbrev pub reset : Manager F I → Manager F I
  reset m = record m { form = blank }

  -- `updateOrderForNewCheckpoint`, which an effect also calls when what it reads has changed.
  unfoldable pub update_order_for_new_checkpoint : Manager F I → Manager F I
  update_order_for_new_checkpoint m = elim m.editing_checkpoint [
    | none ↦ record m { form = record (m.form) { order = next_order m.checkpoints } }
    | some c ↦ m
  ]

  -- `uploaded` tells whether the upload succeeds.
  abbrev pub flush_image : Bool → ℕ → Option I → Manager F I → Manager F I
  flush_image uploaded id none m = m
  flush_image uploaded id (some image) m =
      let sent = send (upload_clue_image id image) m in
      let told =
        if uploaded then sent else toast (error "Erro ao enviar a imagem do enigma") sent in
      record told { pending_clue_image = none }

  unfoldable pub flush_pending_clue_image : Bool → ℕ → Manager F I → Manager F I
  flush_pending_clue_image uploaded id m = flush_image uploaded id m.pending_clue_image m

  -- `onSuccess` of the creation, by the id in the answer.
  unfoldable pub on_created : Bool → Option ℕ → Manager F I → Manager F I
  on_created uploaded answer m = elim (present answer) [
    | none ↦ send refetch (toast (success "Checkpoint criado com sucesso!") (reset m))
    | some id ↦ send refetch (
        flush_pending_clue_image uploaded id (
          toast (success "Checkpoint criado com sucesso!")
            (record (reset m) { selected_checkpoint_id = some id })))
  ]

  abbrev pub draft_started_as : Bool → Option ℕ → Manager F I → Manager F I
  draft_started_as uploaded none m = m
  draft_started_as uploaded (some id) m = send refetch (
      flush_pending_clue_image uploaded id (
        toast (success "Rascunho gravado — continua a preencher.")
          (record m { pending_draft_id = some id; selected_checkpoint_id = some id })))

  -- `onSuccess` of the creation in the background.
  unfoldable pub on_draft_started : Bool → Option ℕ → Manager F I → Manager F I
  on_draft_started uploaded answer m = draft_started_as uploaded (present answer) m

  unfoldable pub on_updated : Manager F I → Manager F I
  on_updated m =
      toast (success "Checkpoint atualizado com sucesso!")
        (reset (record (send refetch m) { editing_checkpoint = none }))

  unfoldable pub on_deleted : ℕ → Manager F I → Manager F I
  on_deleted id m = toast (success "Checkpoint deletado com sucesso!") (record (send refetch m) {
    selected_checkpoint_id = unless_deleted id m.selected_checkpoint_id;
  })

  unfoldable pub on_reordered : Manager F I → Manager F I
  on_reordered m = toast (success "Ordem dos checkpoints atualizada com sucesso!") (send refetch m)

  unfoldable pub on_finalized : Manager F I → Manager F I
  on_finalized m = toast (success "Checkpoint criado com sucesso!") (
      update_order_for_new_checkpoint (reset (record (send refetch m) { pending_draft_id = none })))

  -- `onError` of each mutation, by its text when the server's says nothing.
  unfoldable pub on_failed : String → Manager F I → Manager F I
  on_failed message m = toast (error message) m

  -- The part of `cancelEdit` before it updates the order.
  abbrev pub cleared : Manager F I → Manager F I
  cleared m = record m {
    editing_checkpoint = none;
    pending_draft_id = none;
    selected_checkpoint_id = none;
    pending_clue_image = none;
    form = blank;
  }

  -- `cancelEdit`, and the effect that follows the render.
  unfoldable pub cancel_edit : Manager F I → Manager F I
  cancel_edit m = elim (present m.pending_draft_id) [
    | none ↦ update_order_for_new_checkpoint (cleared m)
    | some id ↦ update_order_for_new_checkpoint (cleared (send (delete id) m))
  ]

  unfoldable pub delete_checkpoint : ℕ → Manager F I → Manager F I
  delete_checkpoint id m = send (delete id) m

  unfoldable pub handle_drag_start : Checkpoint F → Manager F I → Manager F I
  handle_drag_start c m = record m { dragged_checkpoint = some c }

  unfoldable pub handle_drop : Checkpoint F → Manager F I → Manager F I
  handle_drop target m = elim (drop_orders m.dragged_checkpoint target m.checkpoints) [
    | none ↦ record m { dragged_checkpoint = none }
    | some orders ↦ record (send (reorder orders) m) { dragged_checkpoint = none }
  ]

  unfoldable pub handle_drag_end : Manager F I → Manager F I
  handle_drag_end m = record m { dragged_checkpoint = none }

module _ {F T M I : Type 0} (js : Browser F T M) where
  unfoldable pub start_edit_checkpoint : Checkpoint F → Manager F I → Manager F I
  start_edit_checkpoint c m = record m {
    editing_checkpoint = some c;
    selected_checkpoint_id = some c.id;
    form = edit_values js c;
  }

  -- The request that `handleCheckpointSubmit` makes.
  abbrev pub submit_request : CheckpointForm → Option (Checkpoint F) → Option ℕ → Request F I
  submit_request form (some c) draft = update c.id (to_request_body js form)
  submit_request form none (some id) = update id (to_request_body js form)
  submit_request form none none = create (to_request_body js form)

  unfoldable pub handle_checkpoint_submit : CheckpointForm → Manager F I → Manager F I
  handle_checkpoint_submit form m =
      send (submit_request form m.editing_checkpoint (present m.pending_draft_id)) m

  unfoldable pub start_draft_checkpoint : Manager F I → Manager F I
  start_draft_checkpoint m =
      if js.trim m.form.name == "" then m else send (create (to_request_body js m.form)) m
