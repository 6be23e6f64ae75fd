-- ===== src/Offline/EvalQueue/Callers.antt =====
-- evalQueue.ts with any number of callers at work, each between the `readAll` and the `writeAll` of its
-- operation: a page that submits, and the drains of this and of other tabs.
use mathlib.Core.Path.{subst}
use platform_rally_extension.Base.{
  ℕ, String, ◌≡◌, refl, sym, ◌∙◌, ap, Bool, false, if◌then◌else◌, ◌==◌, Same-text, some, none,
  same_refl, List, [], ◌∷◌, ◌++◌, any, arith, Bool-cases, inl, inr, All, All-middle, All-end,
}
use platform_rally_extension.Base.Keyed.{lookup, lookup-append, lookup-without, lookup-update}
use platform_rally_extension.Offline.EvalQueue.{
  QueuedEval, QueuedEvalStatus, Submit, Idb, failed, key_of, read_all, queued, with_status,
  enqueue_all, Replay, mark_synced, drain_one, drain_items, drain,
}
use platform_rally_extension.Offline.EvalQueue.Entries.{
  read_all-write_all, read_all-request, lookup-mark_synced,
}
use platform_rally_extension.Offline.EvalQueue.Interleaving.{
  Op, submit, synced, rejected, finish, uninterrupted, uninterrupted-eq-finish,
}

-- The store, and the operations that have read it and are still to write, each with what it read.
pub record Callers (D : Type 0) : Type 0 where
  pub store : Idb D
  pub waiting : List (Op D × List (QueuedEval D))

abbrev pub idle : {D : Type 0} → Idb D → Callers D
idle s = record { store = s; waiting = [] }

if_same : {A : Type 0} (b : Bool) (a : A) → (if b then a else a) ≡ a
if_same b a = ground arith

module _ {D : Type 0} where
  unfoldable pub begin : Op D → Callers D → Callers D
  begin op c = record c { waiting = c.waiting ++ (op, read_all c.store) ∷ [] }

  unfoldable pub complete :
      Op D → List (QueuedEval D) → List (Op D × List (QueuedEval D)) → Callers D → Callers D
  complete op items others c = record { store = finish op items c.store; waiting = others }

  -- An operation that `Allowed` admits reads, or one of those that have read writes.
  pub data Step (Allowed : Op D → Type 0) : Callers D → Callers D → Type 0 where
    begun : (op : Op D) (c : Callers D) → Allowed op → Step Allowed c (begin op c)
    completed :
        (xs : List (Op D × List (QueuedEval D))) (op : Op D) (items : List (QueuedEval D))
        (ys : List (Op D × List (QueuedEval D))) (c : Callers D)
        → c.waiting ≡ xs ++ (op, items) ∷ ys
        → Step Allowed c (complete op items (xs ++ ys) c)

  pub data Reach (Allowed : Op D → Type 0) (c : Callers D) : Callers D → Type 0 where
    here : Reach Allowed c c
    next : {d e : Callers D} → Reach Allowed c d → Step Allowed d e → Reach Allowed c e

  -- The operation is not the removal of the entry under the key.
  abbrev pub SparesEntry : String → Op D → Type 0
  SparesEntry k (submit now item) = Unit
  SparesEntry k (synced key) = (key == k) ≡ false
  SparesEntry k (rejected key) = Unit

  -- The items hold the entry under its key, in whatever status.
  abbrev pub Holds : String → QueuedEval D → List (QueuedEval D) → Type 0
  Holds k i items =
      (status : QueuedEvalStatus) × (lookup key_of k items ≡ some (with_status status i))

  finish-Holds :
      (k : String) (i : QueuedEval D) (op : Op D) (items : List (QueuedEval D)) (s : Idb D)
      → SparesEntry k op
      → Holds k i items
      → Holds k i (read_all s)
      → Holds k i (read_all (finish op items s))
  unfolding finish
  finish-Holds k i (submit now item) items s _ (st, e) (st', e') =
      elim (Bool-cases (any (λ j. j.idempotency_key == item.idempotency_key) items)) [
        | inl old ↦ (st', rw old e')
        | inr new ↦ (
          st,
          rw (new, read_all-request)
              (ap (lookup key_of k) (read_all-write_all _ s)
                ∙ lookup-append key_of k items (queued now item ∷ [])
                ∙ rw e refl),
        )
      ]
  finish-Holds k i (synced key) items s ne (st, e) _ = (
    st,
    ap (lookup key_of k) (read_all-write_all _ s)
        ∙ lookup-without key_of k key items
        ∙ rw (ne, e) refl,
  )
  finish-Holds k i (rejected key) items s _ (st, e) _ = elim (Bool-cases (key == k)) [
    | inl same ↦ (
      failed,
      ap (lookup key_of k) (read_all-write_all _ s)
          ∙ lookup-update key_of (with_status failed) (λ a. refl) k key items
          ∙ rw (same, e) refl,
    )
    | inr other ↦ (
      st,
      ap (lookup key_of k) (read_all-write_all _ s)
          ∙ lookup-update key_of (with_status failed) (λ a. refl) k key items
          ∙ rw (other, e) refl,
    )
  ]

  -- What each operation of the `Allowed` ones keeps of the stored items and of those that it read.
  module _ (Allowed : Op D → Type 0) (P : List (QueuedEval D) → Type 0)
      (keeps : (op : Op D) (items : List (QueuedEval D)) (s : Idb D)
        → Allowed op
        → P items
        → P (read_all s)
        → P (read_all (finish op items s))) where
    record IsKeeping (c : Callers D) : Type 0 where
      stored : P (read_all c.store)
      spared : All (λ w. Allowed w.0 × P w.1) c.waiting

    Step-IsKeeping : {c d : Callers D} → Step Allowed c d → IsKeeping c → IsKeeping d
    unfolding begin complete
    Step-IsKeeping (begun op c a) h = record {
      stored = h.stored;
      spared = All-end _ c.waiting (op, read_all c.store) h.spared (a, h.stored);
    }
    Step-IsKeeping (completed xs op items ys c e) h =
        let ((a, held), others) =
          All-middle _ xs (op, items) ys (subst (All (λ w. Allowed w.0 × P w.1)) e h.spared) in
        record { stored = keeps op items c.store a held h.stored; spared = others }

    kept :
        (s : Idb D) {c : Callers D}
        → P (read_all s)
        → Reach Allowed (idle s) c
        → P (read_all c.store)
    kept s p reach = (go reach).stored
      where
        go : {c : Callers D} → Reach Allowed (idle s) c → IsKeeping c
        go here = record { stored = p; spared = tt }
        go (next r step) = Step-IsKeeping step (go r)

  -- Whatever submits and drains of this and of other tabs are at work, with their reads and writes of
  -- the store in any order: an entry that is queued before they start, and that none of them marks as
  -- synced, stays queued under its key, with its team, its activity, its result and its time; only its
  -- status can change.
  pub Reach-IsQueued :
      (k : String) (i : QueuedEval D) (s : Idb D) {c : Callers D}
      → lookup key_of k (read_all s) ≡ some i
      → Reach (SparesEntry k) (idle s) c
      → (status : QueuedEvalStatus) × (lookup key_of k (read_all c.store)
          ≡ some (with_status status i))
  Reach-IsQueued k i s e reach =
      kept (SparesEntry k) (Holds k i) (finish-Holds k i) s (i.status, e) reach

  -- The operation does not submit under the key.
  abbrev pub SubmitsOther : String → Op D → Type 0
  SubmitsOther k (submit now item) = (item.idempotency_key == k) ≡ false
  SubmitsOther k (synced key) = Unit
  SubmitsOther k (rejected key) = Unit

  finish-none :
      (k : String) (op : Op D) (items : List (QueuedEval D)) (s : Idb D)
      → SubmitsOther k op
      → lookup key_of k items ≡ none
      → lookup key_of k (read_all s) ≡ none
      → lookup key_of k (read_all (finish op items s)) ≡ none
  unfolding finish
  finish-none k (submit now item) items s ne e e' =
      elim (Bool-cases (any (λ j. j.idempotency_key == item.idempotency_key) items)) [
        | inl old ↦ rw old e'
        | inr new ↦
            rw (new, read_all-request)
              (ap (lookup key_of k) (read_all-write_all _ s)
                ∙ lookup-append key_of k items (queued now item ∷ [])
                ∙ rw (e, ne) refl)
      ]
  finish-none k (synced key) items s _ e _ =
      ap (lookup key_of k) (read_all-write_all _ s)
      ∙ lookup-without key_of k key items
      ∙ rw e (if_same (key == k) none)
  finish-none k (rejected key) items s _ e _ =
      ap (lookup key_of k) (read_all-write_all _ s)
      ∙ lookup-update key_of (with_status failed) (λ a. refl) k key items
      ∙ rw e (if_same (key == k) none)

  -- An accepted entry that is marked while no other operation is between its read and its write is gone
  -- for good: whatever submits under other keys and drains follow, of this and of other tabs, with their
  -- reads and writes in any order, nothing stands under its key.
  pub Reach-mark_synced :
      (k : String) (s : Idb D) {c : Callers D}
      → Reach (SubmitsOther k) (idle (mark_synced k s)) c
      → lookup key_of k (read_all c.store) ≡ none
  Reach-mark_synced k s reach =
      kept (SubmitsOther k) (λ items. lookup key_of k items ≡ none) (finish-none k)
        (mark_synced k s) (lookup-mark_synced k k s ∙ rw (same_refl k) refl) reach

  alone :
      {s : Idb D} (op : Op D) (t : Idb D)
      → Reach (λ _. Unit) (idle s) (idle t)
      → Reach (λ _. Unit) (idle s) (idle (uninterrupted op t))
  unfolding begin complete
  alone {s} op t r =
      subst (λ u. Reach (λ _. Unit) (idle s) (idle u)) (sym (uninterrupted-eq-finish op t))
        (next (next r (begun op (idle t) tt)) (completed [] op (read_all t) [] _ refl))

  submits-Reach :
      {s : Idb D} (submits : List (ℕ × Submit D)) (t : Idb D)
      → Reach (λ _. Unit) (idle s) (idle t)
      → Reach (λ _. Unit) (idle s) (idle (enqueue_all submits t))
  unfolding enqueue_all uninterrupted
  submits-Reach [] t r = r
  submits-Reach ((now, item) ∷ rest) t r = submits-Reach rest _ (alone (submit now item) t r)

  drain_one-Reach :
      {s : Idb D} (replay : Replay D) (item : QueuedEval D) (t : Idb D)
      → Reach (λ _. Unit) (idle s) (idle t)
      → Reach (λ _. Unit) (idle s) (idle (drain_one replay item t))
  unfolding drain_one uninterrupted
  drain_one-Reach replay item t r =
      let u = enqueue_all (replay.meanwhile item) t in
      let before = submits-Reach (replay.meanwhile item) t r in
      elim (Bool-cases (replay.accepted item)) [
        | inl h ↦ rw h (alone (synced item.idempotency_key) u before)
        | inr h ↦ rw h (alone (rejected item.idempotency_key) u before)
      ]

  drain_items-Reach :
      {s : Idb D} (replay : Replay D) (items : List (QueuedEval D)) (t : Idb D)
      → Reach (λ _. Unit) (idle s) (idle t)
      → Reach (λ _. Unit) (idle s) (idle (drain_items replay items t))
  unfolding drain_items
  drain_items-Reach replay [] t r = r
  drain_items-Reach replay (item ∷ items) t r =
      drain_items-Reach replay items _ (drain_one-Reach replay item t r)

  -- A drain whose operations and submits run whole is one of the runs of these callers.
  pub drain-Reach :
      (replay : Replay D) (s : Idb D) → Reach (λ _. Unit) (idle s) (idle (drain replay s))
  unfolding drain
  drain-Reach replay s = drain_items-Reach replay (read_all s) s here
