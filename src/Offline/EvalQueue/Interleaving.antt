-- ===== src/Offline/EvalQueue/Interleaving.antt =====
-- evalQueue.ts with the two halves of each operation apart: `readAll` and `writeAll` are separate
-- IndexedDB transactions, so other code of the page can run between them.
use platform_rally_extension.Base.{
  ℕ, String, ◌≡◌, refl, ◌∙◌, ap, false, if◌then◌else◌, ◌==◌, Same-text, not, none, some, List, [],
  ◌∷◌, ◌++◌, map, filter, arith, any, same_refl,
}
use platform_rally_extension.Base.Keyed.{
  lookup-append, lookup-without, lookup-update, has, lookup, lookup_of_has,
}
use platform_rally_extension.Offline.EvalQueue.{
  QueuedEval, Submit, Idb, failed, key_of, read_all, write_all, request_background_sync, queued,
  enqueue, with_status, update_status, mark_synced, mark_failed,
}
use platform_rally_extension.Offline.EvalQueue.Entries.{
  read_all-write_all, read_all-request, lookup-enqueue, lookup-mark_synced,
}

-- An operation of the queue that another caller can interrupt.
pub data Op (D : Type 0) : Type 0 where
  submit : ℕ → Submit D → Op D
  synced : String → Op D
  rejected : String → Op D

module _ {D : Type 0} where
  -- What follows the `readAll` of an operation, with the items that it returned.
  unfoldable pub finish : Op D → List (QueuedEval D) → Idb D → Idb D
  finish (submit now item) items s =
      if any (λ i. i.idempotency_key == item.idempotency_key) items
      then s
      else request_background_sync (write_all (items ++ queued now item ∷ []) s)
  finish (synced key) items s = write_all (filter (λ i. not (i.idempotency_key == key)) items) s
  finish (rejected key) items s =
      write_all (map (λ i. if i.idempotency_key == key then with_status failed i else i) items) s

  -- The operation with nothing between its two halves.
  unfoldable pub uninterrupted : Op D → Idb D → Idb D
  uninterrupted (submit now item) = enqueue now item
  uninterrupted (synced key) = mark_synced key
  uninterrupted (rejected key) = mark_failed key

  -- `inner` runs whole between the read and the write of `outer`.
  unfoldable pub interrupted : Op D → Op D → Idb D → Idb D
  interrupted outer inner s = finish outer (read_all s) (uninterrupted inner s)

  pub uninterrupted-eq-finish :
      (op : Op D) (s : Idb D) → uninterrupted op s ≡ finish op (read_all s) s
  unfolding uninterrupted finish enqueue mark_synced mark_failed update_status
  uninterrupted-eq-finish (submit now item) s = refl
  uninterrupted-eq-finish (synced key) s = refl
  uninterrupted-eq-finish (rejected key) s = refl

  -- The operations that `drain` runs for an item.
  abbrev pub IsMark : Op D → Type 0
  IsMark (submit now item) = ⊥
  IsMark (synced key) = Unit
  IsMark (rejected key) = Unit

  lookup-finish_mark :
      (op : Op D) (k : String) (items : List (QueuedEval D)) (s : Idb D)
      → IsMark op
      → has key_of k items ≡ false
      → lookup key_of k (read_all (finish op items s)) ≡ none
  unfolding finish
  lookup-finish_mark (submit now item) k items s m h = absurd m
  lookup-finish_mark (synced key) k items s m h =
      ap (lookup key_of k) (read_all-write_all _ s)
      ∙ lookup-without key_of k key items
      ∙ ground (arith, lookup_of_has key_of k items h)
  lookup-finish_mark (rejected key) k items s m h =
      ap (lookup key_of k) (read_all-write_all _ s)
      ∙ lookup-update key_of (with_status failed) (λ a. refl) k key items
      ∙ rw (lookup_of_has key_of k items h) (ground arith)

  -- A submit that runs between the two halves of a drain's mark is lost, whatever the queue: it is
  -- queued when the submit ends, and gone when the mark is written.
  pub submit_lost :
      (mark : Op D) (now : ℕ) (item : Submit D) (s : Idb D)
      → IsMark mark
      → has key_of item.idempotency_key (read_all s) ≡ false
      → (lookup key_of item.idempotency_key (read_all (enqueue now item s))
          ≡ some (queued now item))
        × (lookup key_of item.idempotency_key (read_all (interrupted mark (submit now item) s))
            ≡ none)
  unfolding interrupted
  submit_lost mark now item s m h = (
    lookup-enqueue item.idempotency_key now item s
        ∙ rw
            (
              lookup_of_has key_of item.idempotency_key (read_all s) h,
              same_refl item.idempotency_key,
            )
            refl,
    lookup-finish_mark mark item.idempotency_key (read_all s) _ m h,
  )

  -- A submit of a new key that reads the queue before the mark of an accepted entry and writes it after,
  -- puts that entry back, whatever the queue: the mark alone removes it, and then it is there as before.
  pub accepted-back :
      (k : String) (i : QueuedEval D) (now : ℕ) (item : Submit D) (s : Idb D)
      → lookup key_of k (read_all s) ≡ some i
      → has key_of item.idempotency_key (read_all s) ≡ false
      → (lookup key_of k (read_all (mark_synced k s)) ≡ none)
        × (lookup key_of k (read_all (interrupted (submit now item) (synced k) s)) ≡ some i)
  unfolding interrupted finish
  accepted-back k i now item s e new = (
    lookup-mark_synced k k s ∙ rw (same_refl k) refl,
    rw (new, read_all-request)
        (ap (lookup key_of k) (read_all-write_all _ _)
          ∙ lookup-append key_of k (read_all s) (queued now item ∷ [])
          ∙ rw e refl),
  )
