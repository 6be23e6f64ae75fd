-- ===== src/Offline/EvalQueue/Entries.antt =====
-- What the operations of evalQueue.ts do to the queue, seen through the entry under each key.
use mathlib.Core.Option
use platform_rally_extension.Base.{
  ℕ, String, ◌≡◌, refl, ◌∙◌, ap, if◌then◌else◌, ◌==◌, Same-text, Option, none, some, List, [], ◌∷◌,
  ◌++◌, arith, Bool-cases, inl, inr,
}
use platform_rally_extension.Base.Keyed.{
  has, lookup, without, update, Unique, lookup-without, lookup-update, Unique-update,
  Unique-without, add_new, or_new, lookup-add_new, Unique-add_new,
}
use platform_rally_extension.Offline.EvalQueue.{
  QueuedEval, Submit, Idb, failed, key_of, read_all, write_all, request_background_sync, queued,
  enqueue, with_status, update_status, mark_synced, mark_failed, enqueue_all,
}

module _ {D : Type 0} where
  pub read_all-write_all :
      (items : List (QueuedEval D)) (s : Idb D) → read_all (write_all items s) ≡ items
  unfolding read_all write_all
  read_all-write_all items s = refl

  pub read_all-request : (s : Idb D) → read_all (request_background_sync s) ≡ read_all s
  unfolding read_all request_background_sync
  read_all-request s = ground arith

  pub read_all-mark_synced :
      (k : String) (s : Idb D) → read_all (mark_synced k s) ≡ without key_of k (read_all s)
  unfolding mark_synced
  read_all-mark_synced k s = read_all-write_all _ s

  pub read_all-mark_failed :
      (k : String) (s : Idb D)
      → read_all (mark_failed k s) ≡ update key_of k (with_status failed) (read_all s)
  unfolding mark_failed update_status
  read_all-mark_failed k s = read_all-write_all _ s

  pub read_all-enqueue :
      (now : ℕ) (item : Submit D) (s : Idb D)
      → read_all (enqueue now item s) ≡ add_new key_of (queued now item) (read_all s)
  unfolding enqueue
  read_all-enqueue now item s = elim (Bool-cases (has key_of item.idempotency_key (read_all s))) [
    | inl old ↦ rw old
    | inr new ↦ rw (new, read_all-request) (read_all-write_all _ s)
  ]

  -- A submit whose key is queued changes nothing; any other one is added.
  pub lookup-enqueue :
      (k : String) (now : ℕ) (item : Submit D) (s : Idb D)
      → lookup key_of k (read_all (enqueue now item s))
        ≡ or_new key_of (queued now item) k (lookup key_of k (read_all s))
  lookup-enqueue k now item s =
      rw read_all-enqueue (lookup-add_new key_of k (queued now item) (read_all s))

  pub lookup-mark_synced :
      (j k : String) (s : Idb D)
      → lookup key_of j (read_all (mark_synced k s))
        ≡ (if k == j then none else lookup key_of j (read_all s))
  lookup-mark_synced j k s = rw read_all-mark_synced (lookup-without key_of j k (read_all s))

  pub lookup-mark_failed :
      (j k : String) (s : Idb D)
      → lookup key_of j (read_all (mark_failed k s)) ≡ (
          if k == j
          then Option.map (with_status failed) (lookup key_of j (read_all s))
          else lookup key_of j (read_all s))
  lookup-mark_failed j k s =
      rw read_all-mark_failed
        (lookup-update key_of (with_status failed) (λ a. refl) j k (read_all s))

  -- No two entries of the queue share an idempotency key.
  abbrev pub HasUniqueKeys : Idb D → Type 0
  HasUniqueKeys s = Unique key_of (read_all s)

  pub enqueue-HasUniqueKeys :
      (now : ℕ) (item : Submit D) (s : Idb D) → HasUniqueKeys s → HasUniqueKeys (enqueue now item s)
  enqueue-HasUniqueKeys now item s u =
      rw read_all-enqueue (Unique-add_new key_of (queued now item) (read_all s) u)

  pub mark_synced-HasUniqueKeys :
      (k : String) (s : Idb D) → HasUniqueKeys s → HasUniqueKeys (mark_synced k s)
  mark_synced-HasUniqueKeys k s u = rw read_all-mark_synced (Unique-without key_of k (read_all s) u)

  pub mark_failed-HasUniqueKeys :
      (k : String) (s : Idb D) → HasUniqueKeys s → HasUniqueKeys (mark_failed k s)
  mark_failed-HasUniqueKeys k s u =
      rw read_all-mark_failed
        (Unique-update key_of (with_status failed) (λ a. refl) k (read_all s) u)

  pub enqueue_all-HasUniqueKeys :
      (submits : List (ℕ × Submit D)) (s : Idb D)
      → HasUniqueKeys s
      → HasUniqueKeys (enqueue_all submits s)
  unfolding enqueue_all
  enqueue_all-HasUniqueKeys [] s u = u
  enqueue_all-HasUniqueKeys ((now, item) ∷ rest) s u =
      enqueue_all-HasUniqueKeys rest (enqueue now item s) (enqueue-HasUniqueKeys now item s u)

  -- The entry under `k` after some submits is a function of the entry before.
  unfoldable pub after_submits :
      String → List (ℕ × Submit D) → Option (QueuedEval D) → Option (QueuedEval D)
  after_submits k [] o = o
  after_submits k ((now, item) ∷ rest) o =
      after_submits k rest (or_new key_of (queued now item) k o)

  pub lookup-enqueue_all :
      (k : String) (submits : List (ℕ × Submit D)) (s : Idb D)
      → lookup key_of k (read_all (enqueue_all submits s))
        ≡ after_submits k submits (lookup key_of k (read_all s))
  unfolding enqueue_all after_submits
  lookup-enqueue_all k [] s = refl
  lookup-enqueue_all k ((now, item) ∷ rest) s =
      lookup-enqueue_all k rest (enqueue now item s)
      ∙ ap (after_submits k rest) (lookup-enqueue k now item s)

  -- What is queued under a key stays under it, whatever is submitted.
  pub after_submits-some :
      (k : String) (submits : List (ℕ × Submit D)) (i : QueuedEval D)
      → after_submits k submits (some i) ≡ some i
  unfolding after_submits
  after_submits-some k [] i = refl
  after_submits-some k ((now, item) ∷ rest) i = after_submits-some k rest i

  pub after_submits-append :
      (k : String) (xs ys : List (ℕ × Submit D)) (o : Option (QueuedEval D))
      → after_submits k (xs ++ ys) o ≡ after_submits k ys (after_submits k xs o)
  unfolding after_submits
  after_submits-append k [] ys o = refl
  after_submits-append k ((now, item) ∷ xs) ys o = after_submits-append k xs ys _
