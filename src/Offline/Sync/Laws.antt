-- ===== src/Offline/Sync/Laws.antt =====
-- The whole way of a submit that meets a lost network, and what a run of `syncNow` shows.
use platform_rally_extension.Base.{
  ℕ, ◌≡◌, ◌↔◌, Bool, true, false, none, some, List, [], arith, if◌then◌else◌, Same-text,
}
use platform_rally_extension.Base.Keyed.{has, lookup}
use platform_rally_extension.Offline.EvalQueue.{
  Idb, Submit, QueuedEval, read_all, key_of, queued, enqueue, failed, with_status,
}
use platform_rally_extension.Offline.EvalQueue.Entries.{HasUniqueKeys, enqueue-HasUniqueKeys}
use platform_rally_extension.Offline.EvalQueue.Drain.{Spares, submits_during, drain-settles}
use platform_rally_extension.Offline.ArrivalQueue
use platform_rally_extension.Offline.ArrivalQueue.{QueuedArrival}
use platform_rally_extension.Offline.ArrivalQueue.Entries.{
  leftover, count_accepted, HasUniqueCheckpoints, drain_arrivals_lem,
}
use platform_rally_extension.Offline.Sync.{
  replay_one, replaying, sync_now, ArriveRequest, ArrivalSync, replay_arrival, refresh,
  sync_arrivals,
}
use platform_rally_extension.Evaluation.Payload.{
  FormData, EvaluateRequest, EvaluatePayload, request_of,
}
use platform_rally_extension.Evaluation.Submit.{
  Navigator, Failure, is_network_error, to_queue, rejected, mutation_fn, on_failure,
}
use platform_rally_extension.Evaluation.Submit.Laws.{lookup-enqueue_self}

module _ {B N : Type 0} (zero_shots : N) where
  -- A submit with a new key whose network was lost, in a queue without repeated keys, is later
  -- replayed as the very same request, key and all: when `syncNow` runs online and nothing is
  -- submitted under its key in the meantime, the entry is gone if the server accepts the original
  -- request, and else it is still queued with its data, marked failed.
  pub lost_submit-syncs :
      (navigator : Navigator) (now : ℕ) (p : EvaluatePayload N) (e : Failure B)
      (s : Idb (FormData N)) (server : EvaluateRequest N → Bool)
      (meanwhile : QueuedEval (FormData N) → List (ℕ × Submit (FormData N)))
      → is_network_error navigator e ≡ true
      → HasUniqueKeys s
      → has key_of p.idempotency_key (read_all s) ≡ false
      → Spares p.idempotency_key (
          submits_during
            (replaying zero_shots server meanwhile)
            (read_all (mutation_fn {A = Unit {0}} navigator now p (rejected e) s).1))
      → lookup key_of p.idempotency_key (
          read_all
            (sync_now zero_shots
              (some true)
              server
              meanwhile
              (mutation_fn {A = Unit {0}} navigator now p (rejected e) s).1).0)
        ≡ (if server (request_of zero_shots p)
            then none
            else some (with_status failed (queued now (to_queue p))))
  unfolding mutation_fn on_failure sync_now replay_one request_of
  lost_submit-syncs navigator now p e s server meanwhile lost u new spares = rw lost (
      drain-settles (replaying zero_shots server meanwhile) (enqueue now (to_queue p) s)
        p.idempotency_key (queued now (to_queue p)) (enqueue-HasUniqueKeys now (to_queue p) s u)
        (lookup-enqueue_self now p s new) (rw lost at spares))

module _ {C : Type 0} where
  -- From a queue with one entry for each checkpoint, a run of the arrivals' `syncNow` that is
  -- online shows exactly the arrivals that the server did not accept, in order and marked failed,
  -- and leaves the queries alone just when it accepted none.
  pub sync_arrivals_lem :
      (server : ArriveRequest C → Bool) (h : ArrivalSync C)
      → HasUniqueCheckpoints h.store
      → ((sync_arrivals (some true) server h).0.queued
          ≡ leftover (λ i. server (replay_arrival i)) (ArrivalQueue.read_all h.store))
        × (((sync_arrivals (some true) server h).1 ≡ [])
            ↔ (count_accepted (λ i. server (replay_arrival i)) (ArrivalQueue.read_all h.store) ≡ 0))
  unfolding sync_arrivals refresh ArrivalQueue.list_arrivals
  sync_arrivals_lem server h u =
      let (count, left) = drain_arrivals_lem (λ i. server (replay_arrival i)) h.store u in
      (left, ground (arith, count))
