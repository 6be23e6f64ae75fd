-- ===== src/Offline/EvalQueue.antt =====
-- web-rally/src/offline/evalQueue.ts: the queue of evaluation submits that survives a lost network.
-- An `await get(…)` or `await set(…)` is one step here and does not fail; the payload is `D`.
pub mod Entries
pub mod Drain
pub mod Quiet
pub mod Interleaving
pub mod Callers
pub mod Refinement
pub mod Retries
use platform_rally_extension.Base.{
  ℕ, String, ◌+◌, Bool, true, false, if◌then◌else◌, ◌==◌, Same-text, not, Option, none, some, List,
  [], ◌∷◌, ◌++◌, map, foldl, filter, any, get_or, suc,
}

pub data QueuedEvalStatus : Type 0 where
  pending synced failed : QueuedEvalStatus

pub record QueuedEval (D : Type 0) : Type 0 where
  pub idempotency_key : String
  pub team_id : ℕ
  pub activity_id : ℕ
  pub result_data : D
  pub status : QueuedEvalStatus
  pub created_at : ℕ

-- `Omit<QueuedEval, "status" | "createdAt">`
pub record Submit (D : Type 0) : Type 0 where
  pub idempotency_key : String
  pub team_id : ℕ
  pub activity_id : ℕ
  pub result_data : D

-- What a request for Background Sync meets in the browser.
pub data SyncSupport : Type 0 where
  no_service_worker not_ready no_sync_manager refused granted : SyncSupport

-- The object store with what the queue tells the rest of the page: the change events, and the tags
-- registered for Background Sync. `in_window` is `typeof window !== "undefined"`.
pub record Idb (D : Type 0) : Type 0 where
  pub queue : Option (List (QueuedEval D))
  pub changes : ℕ
  pub in_window : Bool
  pub sync : SyncSupport
  pub tags : List String

abbrev pub eval_sync_tag : String
eval_sync_tag = "rally-eval-queue"

module _ {D : Type 0} where
  abbrev pub key_of : QueuedEval D → String
  key_of i = i.idempotency_key

  unfoldable pub read_all : Idb D → List (QueuedEval D)
  read_all s = get_or s.queue []

  unfoldable pub write_all : List (QueuedEval D) → Idb D → Idb D
  write_all items s = record s {
    queue = some items;
    changes = if s.in_window then s.changes + 1 else s.changes;
  }

  -- The API may be absent, and a refusal is caught: only `granted` leaves a registration, which the
  -- browser keeps once for each tag.
  unfoldable pub request_background_sync : Idb D → Idb D
  request_background_sync s = elim s.sync [
    | granted ↦
        if any (λ tag. tag == eval_sync_tag) s.tags
        then s
        else record s { tags = s.tags ++ eval_sync_tag ∷ [] }
    | _ ↦ s
  ]

  abbrev pub queued : ℕ → Submit D → QueuedEval D
  queued now item = record {
    idempotency_key = item.idempotency_key;
    team_id = item.team_id;
    activity_id = item.activity_id;
    result_data = item.result_data;
    status = pending;
    created_at = now;
  }

  -- `now` is `Date.now()`.
  unfoldable pub enqueue : ℕ → Submit D → Idb D → Idb D
  enqueue now item s =
      if any (λ i. i.idempotency_key == item.idempotency_key) (read_all s)
      then s
      else request_background_sync (write_all (read_all s ++ queued now item ∷ []) s)

  unfoldable pub list : Idb D → List (QueuedEval D)
  list s = read_all s

  abbrev pub with_status : QueuedEvalStatus → QueuedEval D → QueuedEval D
  with_status status i = record i { status = status }

  unfoldable pub update_status : String → QueuedEvalStatus → Idb D → Idb D
  update_status key status s =
      write_all
        (map (λ i. if i.idempotency_key == key then with_status status i else i) (read_all s)) s

  unfoldable pub mark_synced : String → Idb D → Idb D
  mark_synced key s = write_all (filter (λ i. not (i.idempotency_key == key)) (read_all s)) s

  unfoldable pub mark_failed : String → Idb D → Idb D
  mark_failed key s = update_status key failed s

  -- The submits that other code enqueues, in order, with their times.
  unfoldable pub enqueue_all : List (ℕ × Submit D) → Idb D → Idb D
  enqueue_all [] s = s
  enqueue_all ((now, item) ∷ rest) s = enqueue_all rest (enqueue now item s)

-- What the awaited `replay` of an item brings: whether the promise is fulfilled, and the submits
-- that the page enqueues in the meantime, from their read to their write. A submit that is between
-- the two when an entry is marked is not among them: Interleaving and Callers have the two apart.
pub record Replay (D : Type 0) : Type 0 where
  pub accepted : QueuedEval D → Bool
  pub meanwhile : QueuedEval D → List (ℕ × Submit D)

module _ {D : Type 0} (replay : Replay D) where
  -- One round of the loop in `drain`.
  unfoldable pub drain_one : QueuedEval D → Idb D → Idb D
  drain_one item s =
      let s' = enqueue_all (replay.meanwhile item) s in
      if replay.accepted item
      then mark_synced item.idempotency_key s'
      else mark_failed item.idempotency_key s'

  unfoldable pub drain_items : List (QueuedEval D) → Idb D → Idb D
  drain_items [] s = s
  drain_items (item ∷ items) s = drain_items items (drain_one item s)

  -- The loop runs over the items read at the start.
  unfoldable pub drain : Idb D → Idb D
  drain s = drain_items (read_all s) s
