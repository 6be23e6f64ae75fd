-- ===== src/Offline/EvalQueue/Refinement.antt =====
-- The contract of evalQueue.ts: a map from the idempotency keys to the entries. `Book` is that map,
-- and an `Op` is one call on the queue; while a drain runs, nothing else touches the queue.
use mathlib.Core.Option
use platform_rally_extension.Base.{
  ℕ, String, ◌≡◌, refl, ◌∙◌, ap, Bool, if◌then◌else◌, ◌==◌, Same-text, Option, none, some, List, [],
  ◌∷◌, Option-cases, inl, inr,
}
use platform_rally_extension.Base.Keyed.{lookup, or_new}
use platform_rally_extension.Offline.EvalQueue.{
  QueuedEval, Submit, Idb, failed, key_of, read_all, queued, enqueue, with_status, mark_synced,
  mark_failed, enqueue_all, Replay, drain,
}
use platform_rally_extension.Offline.EvalQueue.Entries.{
  HasUniqueKeys, lookup-enqueue, lookup-mark_synced, lookup-mark_failed, enqueue-HasUniqueKeys,
  mark_synced-HasUniqueKeys, mark_failed-HasUniqueKeys,
}
use platform_rally_extension.Offline.EvalQueue.Drain.{
  Spares, submits_during, drain-settles, drain-other, drain-HasUniqueKeys,
}

abbrev pub Book : Type 0 → Type 0
Book D = String → Option (QueuedEval D)

pub data Op (D : Type 0) : Type 0 where
  submitted : ℕ → Submit D → Op D
  synced_one failed_one : String → Op D
  drained : (QueuedEval D → Bool) → Op D

module _ {D : Type 0} where
  abbrev pub quiet : (QueuedEval D → Bool) → Replay D
  quiet accepted = record { accepted = accepted; meanwhile = λ i. [] }

  submits_during-quiet :
      (accepted : QueuedEval D → Bool) (items : List (QueuedEval D))
      → submits_during (quiet accepted) items ≡ []
  submits_during-quiet accepted [] = refl
  submits_during-quiet accepted (i ∷ items) = submits_during-quiet accepted items

  -- What a drain leaves of the entry under a key.
  abbrev pub after_drain : (QueuedEval D → Bool) → Option (QueuedEval D) → Option (QueuedEval D)
  after_drain accepted none = none
  after_drain accepted (some i) = if accepted i then none else some (with_status failed i)

  pub lookup-drain :
      (accepted : QueuedEval D → Bool) (k : String) (s : Idb D)
      → HasUniqueKeys s
      → lookup key_of k (read_all (drain (quiet accepted) s))
        ≡ after_drain accepted (lookup key_of k (read_all s))
  unfolding enqueue_all
  lookup-drain accepted k s u =
      let calm = submits_during-quiet accepted (read_all s) in
      elim (Option-cases (lookup key_of k (read_all s))) [
        | inl e ↦
            let d : lookup key_of k (read_all (drain (quiet accepted) s)) ≡ none =
              drain-other (quiet accepted) s k e
              ∙ ap (λ submits. lookup key_of k (read_all (enqueue_all submits s))) calm
              ∙ e in
            rw e d
        | inr (i, e) ↦
            let free : Spares k (submits_during (quiet accepted) (read_all s)) = rw calm tt in
            rw e (drain-settles (quiet accepted) s k i u e free)
      ]

  unfoldable pub call : Op D → Idb D → Idb D
  call (submitted now item) s = enqueue now item s
  call (synced_one k) s = mark_synced k s
  call (failed_one k) s = mark_failed k s
  call (drained accepted) s = drain (quiet accepted) s

  unfoldable pub calls : List (Op D) → Idb D → Idb D
  calls [] s = s
  calls (op ∷ ops) s = calls ops (call op s)

  -- The same call on the map: a key that is there keeps its entry on a submit, `synced` removes,
  -- `failed` marks, and a drain decides each key by its own entry alone.
  unfoldable pub noted : Op D → Book D → Book D
  noted (submitted now item) b k = or_new key_of (queued now item) k (b k)
  noted (synced_one j) b k = if j == k then none else b k
  noted (failed_one j) b k = if j == k then Option.map (with_status failed) (b k) else b k
  noted (drained accepted) b k = after_drain accepted (b k)

  unfoldable pub notes : List (Op D) → Book D → Book D
  notes [] b = b
  notes (op ∷ ops) b = notes ops (noted op b)

  -- The map that the stored list stands for.
  abbrev pub book_of : Idb D → Book D
  book_of s k = lookup key_of k (read_all s)

  call-HasUniqueKeys : (op : Op D) (s : Idb D) → HasUniqueKeys s → HasUniqueKeys (call op s)
  unfolding call
  call-HasUniqueKeys (submitted now item) s u = enqueue-HasUniqueKeys now item s u
  call-HasUniqueKeys (synced_one k) s u = mark_synced-HasUniqueKeys k s u
  call-HasUniqueKeys (failed_one k) s u = mark_failed-HasUniqueKeys k s u
  call-HasUniqueKeys (drained accepted) s u = drain-HasUniqueKeys (quiet accepted) s u

  book_of-call :
      (op : Op D) (s : Idb D)
      → HasUniqueKeys s
      → (k : String) → book_of (call op s) k ≡ noted op (book_of s) k
  unfolding call noted
  book_of-call (submitted now item) s u k = lookup-enqueue k now item s
  book_of-call (synced_one j) s u k = lookup-mark_synced k j s
  book_of-call (failed_one j) s u k = lookup-mark_failed k j s
  book_of-call (drained accepted) s u k = lookup-drain accepted k s u

  -- What an operation notes under a key depends on nothing but the entry under that key.
  noted_local : (op : Op D) (b c : Book D) (k : String) → b k ≡ c k → noted op b k ≡ noted op c k
  unfolding noted
  noted_local (submitted now item) b c k e = ap (or_new key_of (queued now item) k) e
  noted_local (synced_one j) b c k e = ap (λ o. if j == k then none else o) e
  noted_local (failed_one j) b c k e =
      ap (λ o. if j == k then Option.map (with_status failed) o else o) e
  noted_local (drained accepted) b c k e = ap (after_drain accepted) e

  notes_local :
      (ops : List (Op D)) (b c : Book D) (k : String) → b k ≡ c k → notes ops b k ≡ notes ops c k
  unfolding notes
  notes_local [] b c k e = e
  notes_local (op ∷ ops) b c k e =
      notes_local ops (noted op b) (noted op c) k (noted_local op b c k e)

  -- Whatever calls follow each other on a queue without repeated keys, it stands for the map that
  -- the same calls make of the map it stood for, and has no repeated keys.
  pub calls-refine :
      (ops : List (Op D)) (s : Idb D)
      → HasUniqueKeys s
      → HasUniqueKeys (calls ops s)
        × ((k : String) → book_of (calls ops s) k ≡ notes ops (book_of s) k)
  unfolding calls notes
  calls-refine [] s u = (u, λ k. refl)
  calls-refine (op ∷ ops) s u =
      let (v, h) = calls-refine ops (call op s) (call-HasUniqueKeys op s u) in
      (
        v,
        λ k.
            h k
            ∙ notes_local ops (book_of (call op s)) (noted op (book_of s)) k
                (book_of-call op s u k),
      )
