-- ===== src/Offline/Status.antt =====
-- web-rally/src/offline/useEvalQueueStatus.ts: the queue as the page's badges show it.
pub mod Counts
use platform_rally_extension.Base.{ℕ, Bool, true, false, List, length, filter}
use platform_rally_extension.Offline.EvalQueue.{
  QueuedEvalStatus, pending, synced, failed, QueuedEval, Idb, list,
}

abbrev pub is_pending : QueuedEvalStatus → Bool
is_pending pending = true
is_pending _ = false

abbrev pub is_failed : QueuedEvalStatus → Bool
is_failed failed = true
is_failed _ = false

pub record EvalQueueStatus (D : Type 0) : Type 0 where
  pub items : List (QueuedEval D)
  pub pending_count : ℕ
  pub failed_count : ℕ

module _ {D : Type 0} where
  -- What the hook returns after a `refresh`, whichever signal or timer asked for it.
  unfoldable pub eval_queue_status : Idb D → EvalQueueStatus D
  eval_queue_status s = record {
    items = list s;
    pending_count = length (filter (λ i. is_pending i.status) (list s));
    failed_count = length (filter (λ i. is_failed i.status) (list s));
  }
