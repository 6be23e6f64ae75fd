-- ===== src/Offline/EvalQueue/Quiet.antt =====
-- `drain` of evalQueue.ts when nothing else touches the queue: the whole list that it leaves.
use mathlib.Core.List.{append_assoc}
use mathlib.Core.Path.{subst}
use platform_rally_extension.Base.{
  ◌≡◌, refl, sym, ◌∙◌, ap, true, false, Same-text, not, List, [], ◌∷◌, ◌++◌, map, filter,
  Bool-cases, inl, inr,
}
use platform_rally_extension.Base.Keyed.{
  Unique, without, update, without-middle, update-middle, Unique-without, Unique-update,
}
use platform_rally_extension.Offline.EvalQueue.{
  QueuedEval, Idb, failed, key_of, read_all, with_status, Replay, drain_one, drain_items, drain,
  enqueue_all,
}
use platform_rally_extension.Offline.EvalQueue.Entries.{
  HasUniqueKeys, read_all-mark_synced, read_all-mark_failed,
}
use platform_rally_extension.Offline.EvalQueue.Drain.{IsQuiet}

module _ {D : Type 0} (replay : Replay D) where
  -- What the replays leave of a list of entries: the rejected ones, in order, marked failed.
  abbrev pub leftover : List (QueuedEval D) → List (QueuedEval D)
  leftover items = map (with_status failed) (filter (λ i. not (replay.accepted i)) items)

  drain_one_accepted :
      (x : QueuedEval D) (s : Idb D)
      → replay.meanwhile x ≡ []
      → replay.accepted x ≡ true
      → read_all (drain_one replay x s) ≡ without key_of x.idempotency_key (read_all s)
  unfolding drain_one enqueue_all
  drain_one_accepted x s q h = rw (q, h) (read_all-mark_synced x.idempotency_key s)

  drain_one_rejected :
      (x : QueuedEval D) (s : Idb D)
      → replay.meanwhile x ≡ []
      → replay.accepted x ≡ false
      → read_all (drain_one replay x s)
        ≡ update key_of x.idempotency_key (with_status failed) (read_all s)
  unfolding drain_one enqueue_all
  drain_one_rejected x s q h = rw (q, h) (read_all-mark_failed x.idempotency_key s)

  drain_items_quiet :
      (ys items : List (QueuedEval D)) (s : Idb D)
      → IsQuiet replay items
      → Unique key_of (ys ++ items)
      → read_all s ≡ ys ++ items
      → read_all (drain_items replay items s) ≡ ys ++ leftover items
  unfolding drain_items
  drain_items_quiet ys [] s q u e = e
  drain_items_quiet ys (x ∷ items) s (q, qs) u e = elim (Bool-cases (replay.accepted x)) [
    | inl h ↦
        let mid = without-middle key_of ys x items u in
        rw h (
          drain_items_quiet ys items (drain_one replay x s) qs
            (subst (Unique key_of) mid (Unique-without key_of x.idempotency_key _ u))
            (drain_one_accepted x s q h ∙ ap (without key_of x.idempotency_key) e ∙ mid))
    | inr h ↦
        let y = with_status failed x in
        let mid = update-middle key_of (with_status failed) ys x items u in
        let shift : ys ++ y ∷ items ≡ (ys ++ y ∷ []) ++ items =
          sym (append_assoc ys (y ∷ []) items) in
        rw h (
          drain_items_quiet (ys ++ y ∷ []) items (drain_one replay x s) qs
            (subst (Unique key_of) (mid ∙ shift)
              (Unique-update key_of (with_status failed) (λ a. refl) x.idempotency_key _ u))
            (drain_one_rejected x s q h
              ∙ ap (update key_of x.idempotency_key (with_status failed)) e
              ∙ mid
              ∙ shift)
          ∙ append_assoc ys (y ∷ []) (leftover items))
  ]

  -- With nothing else at work, a drain of a queue without repeated keys leaves exactly the entries
  -- whose replay was rejected, in their order and marked failed.
  pub drain-eq-leftover :
      (s : Idb D)
      → HasUniqueKeys s
      → IsQuiet replay (read_all s)
      → read_all (drain replay s) ≡ leftover (read_all s)
  unfolding drain
  drain-eq-leftover s u q = drain_items_quiet [] (read_all s) s q u refl
