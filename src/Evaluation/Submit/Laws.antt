-- ===== src/Evaluation/Submit/Laws.antt =====
-- What the mutation of useCheckpointEvaluation.ts promises of the queue.
use platform_rally_extension.Base.{
  ℕ, ◌≡◌, ◌↔◌, refl, ◌∙◌, false, none, some, Bool-cases, inl, inr, same_refl, Same-text,
}
use platform_rally_extension.Base.Keyed.{has, lookup, lookup_of_has}
use platform_rally_extension.Offline.EvalQueue.{Idb, read_all, key_of, queued, enqueue}
use platform_rally_extension.Offline.EvalQueue.Entries.{lookup-enqueue}
use platform_rally_extension.Evaluation.Payload.{FormData, EvaluatePayload}
use platform_rally_extension.Evaluation.Submit.{
  Navigator, Failure, api_error, Outcome, fulfilled, rejected, Result, thrown, offline_queued,
  is_network_error, rethrow, to_queue, on_failure, mutation_fn,
}

module _ {N : Type 0} where
  pub lookup-enqueue_self :
      (now : ℕ) (p : EvaluatePayload N) (s : Idb (FormData N))
      → has key_of p.idempotency_key (read_all s) ≡ false
      → lookup key_of p.idempotency_key (read_all (enqueue now (to_queue p) s))
        ≡ some (queued now (to_queue p))
  lookup-enqueue_self now p s h =
      let k = p.idempotency_key in
      lookup-enqueue k now (to_queue p) s
      ∙ rw (lookup_of_has key_of k (read_all s) h, same_refl k) refl

module _ {A B : Type 0} where
  rethrow-ne-offline :
      (e : Failure B) → ◌≡◌ {A = Result A B} (thrown (rethrow e)) (thrown offline_queued) → ⊥
  rethrow-ne-offline (api_error status (some b) message) h = cc
  rethrow-ne-offline (api_error status none message) h = cc
  rethrow-ne-offline _ h = cc

module _ {A B N : Type 0} (navigator : Navigator) (now : ℕ) (p : EvaluatePayload N) where
  -- For a submit with a new key, "saved and will be synchronised" is reported exactly when the queue
  -- then holds the submit, pending, under its own key.
  pub offline_queued_iff :
      (o : Outcome A B) (s : Idb (FormData N))
      → has key_of p.idempotency_key (read_all s) ≡ false
      → ((mutation_fn navigator now p o s).0 ≡ thrown offline_queued) ↔ (
          lookup key_of p.idempotency_key (read_all (mutation_fn navigator now p o s).1)
          ≡ some (queued now (to_queue p)))
  unfolding mutation_fn on_failure
  offline_queued_iff (fulfilled a) s h =
      (λ e. cc, λ e. cc (lookup_of_has key_of p.idempotency_key (read_all s) h))
  offline_queued_iff (rejected e) s h = elim (Bool-cases (is_network_error navigator e)) [
    | inl lost ↦ rw lost (λ _. lookup-enqueue_self now p s h, λ _. refl)
    | inr answered ↦ rw answered (
      λ r. absurd (rethrow-ne-offline e r),
      λ r. cc (lookup_of_has key_of p.idempotency_key (read_all s) h),
    )
  ]
