-- ===== src/Offline/Status/Counts.antt =====
-- What the badges show after a drain.
use platform_rally_extension.Base.{
  ◌≡◌, refl, ap, ◌∙◌, not, List, [], ◌∷◌, map, length, filter, arith,
}
use platform_rally_extension.Offline.EvalQueue.{
  QueuedEval, Idb, Replay, failed, read_all, list, with_status, drain,
}
use platform_rally_extension.Offline.EvalQueue.Entries.{HasUniqueKeys}
use platform_rally_extension.Offline.EvalQueue.Drain.{IsQuiet}
use platform_rally_extension.Offline.EvalQueue.Quiet.{drain-eq-leftover}
use platform_rally_extension.Offline.Status.{is_pending, is_failed, eval_queue_status}

module _ {D : Type 0} where
  all_failed :
      (xs : List (QueuedEval D))
      → (length (filter (λ i. is_pending i.status) (map (with_status failed) xs)) ≡ 0)
        × (length (filter (λ i. is_failed i.status) (map (with_status failed) xs)) ≡ length xs)
  all_failed [] = (refl, refl)
  all_failed (x ∷ xs) = let (p, f) = all_failed xs in (p, omega (arith, f))

module _ {D : Type 0} (replay : Replay D) where
  -- After a drain of a queue without repeated keys, with nothing else at work, the badges count no
  -- entry that waits, and as many failed ones as the drain had entries that were not accepted.
  pub eval_queue_status-drain :
      (s : Idb D)
      → HasUniqueKeys s
      → IsQuiet replay (read_all s)
      → ((eval_queue_status (drain replay s)).pending_count ≡ 0)
        × ((eval_queue_status (drain replay s)).failed_count
            ≡ length (filter (λ i. not (replay.accepted i)) (read_all s)))
  unfolding eval_queue_status list
  eval_queue_status-drain s u q =
      let e = drain-eq-leftover replay s u q in
      let (p, f) = all_failed (filter (λ i. not (replay.accepted i)) (read_all s)) in
      (
        ap (λ l. length (filter (λ i. is_pending i.status) l)) e ∙ p,
        ap (λ l. length (filter (λ i. is_failed i.status) l)) e ∙ f,
      )
