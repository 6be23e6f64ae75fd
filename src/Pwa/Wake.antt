-- ===== src/Pwa/Wake.antt =====
-- Background Sync: the `sync` handler of web-rally/src/sw.ts, the listeners of
-- web-rally/src/offline/useOfflineSync.ts, and those of useArrivalSync.ts.
use platform_rally_extension.Base.{
  ℕ, zero, suc, String, Bool, true, false, if◌then◌else◌, ◌==◌, Same-text, Option, none, some, List,
  [],
}
use platform_rally_extension.Evaluation.Payload.{FormData, EvaluateRequest}
use platform_rally_extension.Evaluation.Submit.{Navigator}
use platform_rally_extension.Offline.EvalQueue.{Idb, Submit, QueuedEval}
use platform_rally_extension.Offline.Sync.{
  sync_now, ArrivalSync, ArriveRequest, refresh, sync_arrivals,
}
use platform_rally_extension.Pwa.Rotation.{messages}

-- The messages that the worker posts for a sync event with the tag, one to each of the windows.
abbrev pub on_sync_tag : String → ℕ → List String
on_sync_tag tag zero = []
on_sync_tag tag (suc n) =
    if tag == "rally-eval-queue" then messages (suc n) "DRAIN_EVAL_QUEUE" else []

unfoldable pub on_sync : Option String → ℕ → List String
on_sync none windows = []
on_sync (some tag) windows = on_sync_tag tag windows

-- What the hooks listen to: the mounting, `online`, `visibilitychange` and `pageshow` with whether
-- the page is visible then, a message of the worker with its `type`, and a change of the queue.
pub data Signal : Type 0 where
  mount online queue_changed : Signal
  visibility_change page_show : Bool → Signal
  sw_message : Option String → Signal

-- Whether `runSync` of useOfflineSync.ts is called.
unfoldable pub runs_sync : Signal → Bool
runs_sync mount = true
runs_sync online = true
runs_sync (visibility_change visible) = visible
runs_sync (page_show visible) = visible
runs_sync (sw_message none) = false
runs_sync (sw_message (some type)) = type == "DRAIN_EVAL_QUEUE"
runs_sync queue_changed = false

module _ {N : Type 0} (zero_shots : N) where
  unfoldable pub on_signal :
      Navigator
      → (EvaluateRequest N → Bool)
      → (QueuedEval (FormData N) → List (ℕ × Submit (FormData N)))
      → Signal
      → Idb (FormData N)
      → Idb (FormData N) × List String
  on_signal navigator server meanwhile signal s =
      if runs_sync signal then sync_now zero_shots navigator server meanwhile s else (s, [])

-- Whether `runSync` of useArrivalSync.ts is called; it has no listener for messages.
unfoldable pub runs_arrival_sync : Signal → Bool
runs_arrival_sync mount = true
runs_arrival_sync online = true
runs_arrival_sync (visibility_change visible) = visible
runs_arrival_sync (page_show visible) = visible
runs_arrival_sync (sw_message type) = false
runs_arrival_sync queue_changed = false

module _ {C : Type 0} where
  unfoldable pub on_arrival_signal :
      Navigator → (ArriveRequest C → Bool) → Signal → ArrivalSync C → ArrivalSync C × List String
  on_arrival_signal navigator server queue_changed h = (refresh h, [])
  on_arrival_signal navigator server signal h =
      if runs_arrival_sync signal then sync_arrivals navigator server h else (h, [])
