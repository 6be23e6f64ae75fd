-- ===== src/Offline/EvalQueue/Drain.antt =====
-- `drain` of evalQueue.ts: what a run leaves of the entries that it read, and of the others.
use mathlib.Core.Path.{subst, subst₂}
use platform_rally_extension.Base.{
  ℕ, String, ◌≡◌, refl, sym, ◌∙◌, ap, Bool, false, if◌then◌else◌, ◌||◌, ◌==◌, Same-text, Option,
  none, some, List, [], ◌∷◌, ◌++◌, arith, Bool-cases, inl, inr, All, eq_of_same, same_refl,
}
use platform_rally_extension.Base.Keyed.{has, lookup, Unique, has_of_lookup}
use platform_rally_extension.Offline.EvalQueue.{
  QueuedEval, Submit, Idb, failed, key_of, read_all, with_status, enqueue_all, Replay, drain_one,
  drain_items, drain,
}
use platform_rally_extension.Offline.EvalQueue.Entries.{
  after_submits, after_submits-some, after_submits-append, lookup-enqueue_all, lookup-mark_synced,
  lookup-mark_failed, HasUniqueKeys, enqueue_all-HasUniqueKeys, mark_synced-HasUniqueKeys,
  mark_failed-HasUniqueKeys,
}

none_of_or : {a b : Bool} → (a || b) ≡ false → (a ≡ false) × (b ≡ false)
none_of_or {a} {b} h = ground arith

module _ {D : Type 0} where
  -- No submit of the list has the key.
  abbrev pub Spares : String → List (ℕ × Submit D) → Type 0
  Spares k submits = All (λ n. (n.1.idempotency_key == k) ≡ false) submits

  after_submits-Spares :
      (k : String) (submits : List (ℕ × Submit D)) (o : Option (QueuedEval D))
      → Spares k submits
      → after_submits k submits o ≡ o
  unfolding after_submits
  after_submits-Spares k [] o h = refl
  after_submits-Spares k ((now, item) ∷ rest) none (h, hs) =
      rw h (after_submits-Spares k rest none hs)
  after_submits-Spares k ((now, item) ∷ rest) (some a) (h, hs) =
      after_submits-Spares k rest (some a) hs

  Spares-right : (k : String) (xs ys : List (ℕ × Submit D)) → Spares k (xs ++ ys) → Spares k ys
  Spares-right k [] ys h = h
  Spares-right k (x ∷ xs) ys (_, h) = Spares-right k xs ys h

module _ {D : Type 0} (replay : Replay D) where
  -- All that is submitted while the replays of some items are awaited.
  abbrev pub submits_during : List (QueuedEval D) → List (ℕ × Submit D)
  submits_during [] = []
  submits_during (item ∷ items) = replay.meanwhile item ++ submits_during items

  drain_one-HasUniqueKeys :
      (item : QueuedEval D) (s : Idb D) → HasUniqueKeys s → HasUniqueKeys (drain_one replay item s)
  unfolding drain_one
  drain_one-HasUniqueKeys item s u =
      let v = enqueue_all-HasUniqueKeys (replay.meanwhile item) s u in
      elim (Bool-cases (replay.accepted item)) [
        | inl h ↦ rw h (mark_synced-HasUniqueKeys _ _ v)
        | inr h ↦ rw h (mark_failed-HasUniqueKeys _ _ v)
      ]

  drain_items-HasUniqueKeys :
      (items : List (QueuedEval D)) (s : Idb D)
      → HasUniqueKeys s
      → HasUniqueKeys (drain_items replay items s)
  unfolding drain_items
  drain_items-HasUniqueKeys [] s u = u
  drain_items-HasUniqueKeys (item ∷ items) s u =
      drain_items-HasUniqueKeys items _ (drain_one-HasUniqueKeys item s u)

  -- A drain of a queue whose entries have different idempotency keys leaves such a queue, whatever is
  -- accepted and whatever is submitted in the meantime.
  pub drain-HasUniqueKeys : (s : Idb D) → HasUniqueKeys s → HasUniqueKeys (drain replay s)
  unfolding drain
  drain-HasUniqueKeys s u = drain_items-HasUniqueKeys (read_all s) s u

  lookup-drain_one_other :
      (k : String) (item : QueuedEval D) (s : Idb D)
      → (item.idempotency_key == k) ≡ false
      → lookup key_of k (read_all (drain_one replay item s))
        ≡ after_submits k (replay.meanwhile item) (lookup key_of k (read_all s))
  unfolding drain_one
  lookup-drain_one_other k item s ne =
      let s' = enqueue_all (replay.meanwhile item) s in
      elim (Bool-cases (replay.accepted item)) [
        | inl h ↦
            rw (h, lookup-mark_synced k item.idempotency_key s', ne) (lookup-enqueue_all k _ s)
        | inr h ↦
            rw (h, lookup-mark_failed k item.idempotency_key s', ne) (lookup-enqueue_all k _ s)
      ]

  -- An entry that `drain` did not read is what the submits alone would have left.
  lookup-drain_items_other :
      (k : String) (items : List (QueuedEval D)) (s : Idb D)
      → has key_of k items ≡ false
      → lookup key_of k (read_all (drain_items replay items s))
        ≡ after_submits k (submits_during items) (lookup key_of k (read_all s))
  unfolding drain_items
  lookup-drain_items_other k [] s h = unfold after_submits in refl
  lookup-drain_items_other k (item ∷ items) s h =
      let (ne, h') = none_of_or h in
      lookup-drain_items_other k items (drain_one replay item s) h'
      ∙ ap (after_submits k (submits_during items)) (lookup-drain_one_other k item s ne)
      ∙ sym (after_submits-append k (replay.meanwhile item) (submits_during items) _)

  -- The entry that a replay leaves.
  abbrev pub settled : QueuedEval D → Option (QueuedEval D)
  settled i = if replay.accepted i then none else some (with_status failed i)

  lookup-drain_one_self :
      (item : QueuedEval D) (s : Idb D)
      → lookup key_of item.idempotency_key (read_all s) ≡ some item
      → lookup key_of item.idempotency_key (read_all (drain_one replay item s)) ≡ settled item
  unfolding drain_one
  lookup-drain_one_self item s e =
      let k = item.idempotency_key in
      let s' = enqueue_all (replay.meanwhile item) s in
      let e' : lookup key_of k (read_all s') ≡ some item =
        lookup-enqueue_all k (replay.meanwhile item) s
        ∙ ap (after_submits k (replay.meanwhile item)) e
        ∙ after_submits-some k (replay.meanwhile item) item in
      elim (Bool-cases (replay.accepted item)) [
        | inl h ↦ rw (h, lookup-mark_synced k k s', same_refl k) refl
        | inr h ↦ rw (h, lookup-mark_failed k k s', same_refl k, e') refl
      ]

  lookup-drain_items_head :
      (x : QueuedEval D) (items : List (QueuedEval D)) (s : Idb D)
      → has key_of x.idempotency_key items ≡ false
      → lookup key_of x.idempotency_key (read_all s) ≡ some x
      → Spares x.idempotency_key (replay.meanwhile x ++ submits_during items)
      → lookup key_of x.idempotency_key (read_all (drain_items replay items (drain_one replay x s)))
        ≡ settled x
  lookup-drain_items_head x items s new d f =
      let k = x.idempotency_key in
      lookup-drain_items_other k items (drain_one replay x s) new
      ∙ ap (after_submits k (submits_during items)) (lookup-drain_one_self x s d)
      ∙ after_submits-Spares k (submits_during items) (settled x)
          (Spares-right k (replay.meanwhile x) (submits_during items) f)

  lookup-drain_items_self :
      (k : String) (i : QueuedEval D) (items : List (QueuedEval D)) (s : Idb D)
      → Unique key_of items
      → lookup key_of k items ≡ some i
      → lookup key_of k (read_all s) ≡ some i
      → Spares k (submits_during items)
      → lookup key_of k (read_all (drain_items replay items s)) ≡ settled i
  unfolding drain_items
  lookup-drain_items_self k i [] s u e d f = cc
  lookup-drain_items_self k i (x ∷ items) s (new, u) e d f =
      elim (Bool-cases (x.idempotency_key == k)) [
        | inl same ↦
            let p : x.idempotency_key ≡ k = eq_of_same x.idempotency_key k same in
            let e' : some x ≡ some i = rw same at e in
            let q : x ≡ i = cc e' in
            subst₂
              (λ j y.
                lookup key_of j (read_all (drain_items replay items (drain_one replay x s)))
                ≡ settled y)
              p q
              (lookup-drain_items_head x items s new
                (subst₂ (λ j y. lookup key_of j (read_all s) ≡ some y) (sym p) (sym q) d)
                (subst (λ j. Spares j (replay.meanwhile x ++ submits_during items)) (sym p) f))
        | inr other ↦
            lookup-drain_items_self k i items (drain_one replay x s) u (rw other at e)
              (lookup-drain_one_other k x s other
                ∙ ap (after_submits k (replay.meanwhile x)) d
                ∙ after_submits-some k (replay.meanwhile x) i)
              (Spares-right k (replay.meanwhile x) (submits_during items) f)
      ]

  -- For a drain in which every submit that is made meanwhile reads and writes the queue while a replay
  -- is awaited, so that none is between its read and its write when an entry is marked: in a queue
  -- without repeated keys, an entry under whose key nothing is submitted meanwhile is gone after the
  -- drain if its replay was accepted, and else is still queued, unchanged but marked failed.
  pub drain-settles :
      (s : Idb D) (k : String) (i : QueuedEval D)
      → HasUniqueKeys s
      → lookup key_of k (read_all s) ≡ some i
      → Spares k (submits_during (read_all s))
      → lookup key_of k (read_all (drain replay s)) ≡ settled i
  unfolding drain
  drain-settles s k i u e f = lookup-drain_items_self k i (read_all s) s u e e f

  -- Where every submit that is made meanwhile reads and writes the queue while a replay is awaited, a
  -- drain leaves under a key that it did not read what those submits would have left without it.
  pub drain-other :
      (s : Idb D) (k : String)
      → lookup key_of k (read_all s) ≡ none
      → lookup key_of k (read_all (drain replay s))
        ≡ lookup key_of k (read_all (enqueue_all (submits_during (read_all s)) s))
  unfolding drain
  drain-other s k e =
      lookup-drain_items_other k (read_all s) s (has_of_lookup key_of k (read_all s) e)
      ∙ sym (lookup-enqueue_all k (submits_during (read_all s)) s)

  -- Nothing is submitted while the replays of some items are awaited.
  abbrev pub IsQuiet : List (QueuedEval D) → Type 0
  IsQuiet items = All (λ i. replay.meanwhile i ≡ []) items
