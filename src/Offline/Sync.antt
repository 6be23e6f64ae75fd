-- ===== src/Offline/Sync.antt =====
-- web-rally/src/offline/useOfflineSync.ts and useArrivalSync.ts: the replay of a queued item, and a
-- run of `syncNow`.
pub mod Laws
use platform_rally_extension.Base.{
  ℕ, ltb, String, Bool, true, false, if◌then◌else◌, Option, none, some, List, [], ◌∷◌,
}
use platform_rally_extension.Offline.EvalQueue.{QueuedEval, Submit, Idb, Replay, drain}
use platform_rally_extension.Offline.ArrivalQueue
use platform_rally_extension.Offline.ArrivalQueue.{QueuedArrival}
use platform_rally_extension.Evaluation.Payload.{FormData, EvaluateRequest, to_evaluation}
use platform_rally_extension.Evaluation.Submit.{Navigator, is_offline}

module _ {N : Type 0} (zero_shots : N) where
  -- The request that `replayOne` sends for a queued evaluation.
  unfoldable pub replay_one : QueuedEval (FormData N) → EvaluateRequest N
  replay_one item = record {
    team_id = item.team_id;
    activity_id = item.activity_id;
    body = to_evaluation zero_shots item.result_data;
    idempotency_key = item.idempotency_key;
  }

  -- The replays of a run: the server answers each request, while the page may enqueue submits.
  abbrev pub replaying :
      (EvaluateRequest N → Bool)
      → (QueuedEval (FormData N) → List (ℕ × Submit (FormData N)))
      → Replay (FormData N)
  replaying server meanwhile = record {
    accepted = λ i. server (replay_one i);
    meanwhile = meanwhile;
  }

  -- `syncNow` of useOfflineSync.ts, with the query keys that it invalidates.
  unfoldable pub sync_now :
      Navigator
      → (EvaluateRequest N → Bool)
      → (QueuedEval (FormData N) → List (ℕ × Submit (FormData N)))
      → Idb (FormData N)
      → Idb (FormData N) × List String
  sync_now navigator server meanwhile s = if is_offline navigator then (s, []) else (
    drain (replaying server meanwhile) s,
    "teamActivities" ∷ "allEvaluations" ∷ "checkpointTeams" ∷ [],
  )

-- The call `arriveAtCheckpoint({ path, body })`.
pub record ArriveRequest (C : Type 0) : Type 0 where
  pub checkpoint_id : ℕ
  pub latitude : C
  pub longitude : C

-- The state of the hook: the queue's store, and `queued`, the list that the page shows.
pub record ArrivalSync (C : Type 0) : Type 0 where
  pub store : ArrivalQueue.Idb C
  pub queued : List (QueuedArrival C)

module _ {C : Type 0} where
  unfoldable pub replay_arrival : QueuedArrival C → ArriveRequest C
  replay_arrival item = record {
    checkpoint_id = item.checkpoint_id;
    latitude = item.latitude;
    longitude = item.longitude;
  }

  unfoldable pub refresh : ArrivalSync C → ArrivalSync C
  refresh h = record h { queued = ArrivalQueue.list_arrivals h.store }

  -- `syncNow` of useArrivalSync.ts, with the query keys that it invalidates.
  unfoldable pub sync_arrivals :
      Navigator → (ArriveRequest C → Bool) → ArrivalSync C → ArrivalSync C × List String
  sync_arrivals navigator server h =
      if is_offline navigator
      then (refresh h, [])
      else let (synced, store) =
          ArrivalQueue.drain_arrivals (λ i. server (replay_arrival i)) h.store in
        (
          refresh (record h { store = store }),
          if ltb 0 synced then "team" ∷ "checkpoints" ∷ [] else [],
        )
