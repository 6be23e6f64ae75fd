-- ===== src/Offline/ArrivalQueue/Entries.antt =====
-- What the operations of arrivalQueue.ts leave in the queue.
use mathlib.Core.List.{append_assoc}
use mathlib.Core.Path.{subst}
use platform_rally_extension.Base.{
  ℕ, ◌+◌, ◌≡◌, refl, sym, ◌∙◌, ap, Bool, Same-nat, not, ◌==◌, if◌then◌else◌, some, List, [], ◌∷◌,
  ◌++◌, map, filter, Bool-cases, inl, inr, arith, length, same_refl,
}
use platform_rally_extension.Base.Keyed.{
  lookup, Unique, without, update, lookup-append, lookup-without, has-without, without-middle,
  update-middle, Unique-without, Unique-update, Unique-append_one,
}
use platform_rally_extension.Offline.ArrivalQueue.{
  QueuedArrival, Arrival, Idb, checkpoint_of, read_all, write_all, queued, enqueue_arrival,
  remove_arrival, with_failed, mark_arrival_failed, drain_arrivals_from, drain_arrivals,
}

module _ {C : Type 0} where
  read_all-write_all :
      (items : List (QueuedArrival C)) (s : Idb C) → read_all (write_all items s) ≡ items
  unfolding read_all write_all
  read_all-write_all items s = refl

  read_all-remove :
      (c : ℕ) (s : Idb C) → read_all (remove_arrival c s) ≡ without checkpoint_of c (read_all s)
  unfolding remove_arrival
  read_all-remove c s = read_all-write_all _ s

  read_all-mark_failed :
      (c : ℕ) (s : Idb C)
      → read_all (mark_arrival_failed c s) ≡ update checkpoint_of c with_failed (read_all s)
  unfolding mark_arrival_failed
  read_all-mark_failed c s = read_all-write_all _ s

  read_all-enqueue :
      (now : ℕ) (item : Arrival C) (s : Idb C)
      → read_all (enqueue_arrival now item s)
        ≡ without checkpoint_of item.checkpoint_id (read_all s) ++ queued now item ∷ []
  unfolding enqueue_arrival
  read_all-enqueue now item s = read_all-write_all _ s

  -- No two entries of the queue are for one checkpoint.
  abbrev pub HasUniqueCheckpoints : Idb C → Type 0
  HasUniqueCheckpoints s = Unique checkpoint_of (read_all s)

  enqueue-HasUniqueCheckpoints :
      (now : ℕ) (item : Arrival C) (s : Idb C)
      → HasUniqueCheckpoints s
      → HasUniqueCheckpoints (enqueue_arrival now item s)
  enqueue-HasUniqueCheckpoints now item s u =
      let c = item.checkpoint_id in
      rw read_all-enqueue (
        Unique-append_one checkpoint_of (without checkpoint_of c (read_all s)) (queued now item)
          (Unique-without checkpoint_of c (read_all s) u)
          (has-without checkpoint_of c c (read_all s) ∙ rw (same_refl c) refl))

  lookup-enqueue :
      (c now : ℕ) (item : Arrival C) (s : Idb C)
      → lookup checkpoint_of c (read_all (enqueue_arrival now item s)) ≡ (
          if item.checkpoint_id == c
          then some (queued now item)
          else lookup checkpoint_of c (read_all s))
  lookup-enqueue c now item s =
      let rest = without checkpoint_of item.checkpoint_id (read_all s) in
      ap (lookup checkpoint_of c) (read_all-enqueue now item s)
      ∙ lookup-append checkpoint_of c rest (queued now item ∷ [])
      ∙ rw (lookup-without checkpoint_of c item.checkpoint_id (read_all s)) (ground arith)

  -- Queueing an arrival in a queue with one entry for each checkpoint leaves such a queue: the
  -- checkpoint's entry is the new one, pending and with the new coordinates, and the entry of any
  -- other checkpoint is the one it was.
  pub enqueue_arrival_lem :
      (now : ℕ) (item : Arrival C) (s : Idb C) (c : ℕ)
      → HasUniqueCheckpoints s
      → HasUniqueCheckpoints (enqueue_arrival now item s)
        × (lookup checkpoint_of c (read_all (enqueue_arrival now item s)) ≡ (
            if item.checkpoint_id == c
            then some (queued now item)
            else lookup checkpoint_of c (read_all s)))
  enqueue_arrival_lem now item s c u =
      (enqueue-HasUniqueCheckpoints now item s u, lookup-enqueue c now item s)

module _ {C : Type 0} (accepted : QueuedArrival C → Bool) where
  -- What the replays leave: the rejected entries, in order, marked failed.
  abbrev pub leftover : List (QueuedArrival C) → List (QueuedArrival C)
  leftover items = map with_failed (filter (λ i. not (accepted i)) items)

  abbrev pub count_accepted : List (QueuedArrival C) → ℕ
  count_accepted items = length (filter accepted items)

  drain_arrivals_from_lem :
      (ys items : List (QueuedArrival C)) (n : ℕ) (s : Idb C)
      → Unique checkpoint_of (ys ++ items)
      → read_all s ≡ ys ++ items
      → ((drain_arrivals_from accepted items n s).0 ≡ n + count_accepted items)
        × (read_all (drain_arrivals_from accepted items n s).1 ≡ ys ++ leftover items)
  unfolding drain_arrivals_from
  drain_arrivals_from_lem ys [] n s u e = (omega arith, e)
  drain_arrivals_from_lem ys (x ∷ items) n s u e = elim (Bool-cases (accepted x)) [
    | inl h ↦
        let c = x.checkpoint_id in
        let mid = without-middle checkpoint_of ys x items u in
        let (k, l) =
          drain_arrivals_from_lem ys items (n + 1) (remove_arrival c s)
            (subst (Unique checkpoint_of) mid (Unique-without checkpoint_of c _ u))
            (read_all-remove c s ∙ ap (without checkpoint_of c) e ∙ mid) in
        rw h (omega (arith, k), l)
    | inr h ↦
        let c = x.checkpoint_id in
        let mid = update-middle checkpoint_of with_failed ys x items u in
        let shift = sym (append_assoc ys (with_failed x ∷ []) items) in
        let (k, l) =
          drain_arrivals_from_lem (ys ++ with_failed x ∷ []) items n (mark_arrival_failed c s)
            (subst (Unique checkpoint_of) (mid ∙ shift)
              (Unique-update checkpoint_of with_failed (λ a. refl) c _ u))
            (read_all-mark_failed c s ∙ ap (update checkpoint_of c with_failed) e ∙ mid ∙ shift) in
        rw h (k, l ∙ append_assoc ys (with_failed x ∷ []) (leftover items))
  ]

  -- From a queue with one entry for each checkpoint, a drain returns the number of entries whose
  -- replay was accepted, and leaves exactly the others, in their order and marked failed.
  pub drain_arrivals_lem :
      (s : Idb C)
      → HasUniqueCheckpoints s
      → ((drain_arrivals accepted s).0 ≡ count_accepted (read_all s))
        × (read_all (drain_arrivals accepted s).1 ≡ leftover (read_all s))
  unfolding drain_arrivals
  drain_arrivals_lem s u =
      let (k, l) = drain_arrivals_from_lem [] (read_all s) 0 s u refl in (omega (arith, k), l)
