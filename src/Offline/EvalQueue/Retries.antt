-- ===== src/Offline/EvalQueue/Retries.antt =====
-- `drain` of evalQueue.ts, run again and again as the triggers of useOfflineSync.ts do.
use platform_rally_extension.Base.{
  String, ◌≡◌, refl, ◌∙◌, ap, Bool, true, ◌&&◌, Same-text, none, some, List, [], ◌∷◌, any, arith,
  Bool-cases, Option-cases, inl, inr, same_refl,
}
use platform_rally_extension.Base.Keyed.{lookup}
use platform_rally_extension.Offline.EvalQueue.{
  QueuedEval, Idb, failed, key_of, read_all, with_status, drain,
}
use platform_rally_extension.Offline.EvalQueue.Entries.{HasUniqueKeys}
use platform_rally_extension.Offline.EvalQueue.Drain.{drain-HasUniqueKeys}
use platform_rally_extension.Offline.EvalQueue.Refinement.{quiet, lookup-drain, after_drain}

module _ {D : Type 0} where
  -- One drain for each answering of the server.
  unfoldable pub drains : List (QueuedEval D → Bool) → Idb D → Idb D
  drains [] s = s
  drains (server ∷ servers) s = drains servers (drain (quiet server) s)

  -- The server takes the entry, whether or not it was marked failed before.
  abbrev pub takes : QueuedEval D → (QueuedEval D → Bool) → Bool
  takes i server = server i && server (with_status failed i)

  any-takes_again :
      (i : QueuedEval D) (servers : List (QueuedEval D → Bool))
      → any (takes i) servers ≡ true
      → any (takes (with_status failed i)) servers ≡ true
  any-takes_again i [] h = h
  any-takes_again i (server ∷ servers) h = ground (arith, any-takes_again i servers)

  lookup-drains-none :
      (servers : List (QueuedEval D → Bool)) (s : Idb D) (k : String)
      → HasUniqueKeys s
      → lookup key_of k (read_all s) ≡ none
      → lookup key_of k (read_all (drains servers s)) ≡ none
  unfolding drains
  lookup-drains-none [] s k u e = e
  lookup-drains-none (server ∷ servers) s k u e =
      lookup-drains-none servers (drain (quiet server) s) k (drain-HasUniqueKeys (quiet server) s u)
        (lookup-drain server k s u ∙ ap (after_drain server) e)

  lookup-drains_taken :
      (servers : List (QueuedEval D → Bool)) (s : Idb D) (k : String) (i : QueuedEval D)
      → HasUniqueKeys s
      → lookup key_of k (read_all s) ≡ some i
      → any (takes i) servers ≡ true
      → lookup key_of k (read_all (drains servers s)) ≡ none
  unfolding drains
  lookup-drains_taken [] s k i u e h = ground arith
  lookup-drains_taken (server ∷ servers) s k i u e h =
      let v = drain-HasUniqueKeys (quiet server) s u in
      let d = lookup-drain server k s u ∙ ap (after_drain server) e in
      elim (Bool-cases (server i)) [
        | inl taken ↦ lookup-drains-none servers (drain (quiet server) s) k v (rw taken at d)
        | inr refused ↦
            lookup-drains_taken servers (drain (quiet server) s) k (with_status failed i) v
              (rw refused at d) (any-takes_again i servers (rw refused at h))
      ]

  empty_of_lookup :
      (xs : List (QueuedEval D)) → ((k : String) → lookup key_of k xs ≡ none) → xs ≡ []
  empty_of_lookup [] h = refl
  empty_of_lookup (x ∷ xs) h =
      let e : lookup key_of x.idempotency_key (x ∷ xs) ≡ none = h x.idempotency_key in
      let d : some x ≡ none = rw (same_refl x.idempotency_key) at e in cc d

  -- A queue without repeated keys is empty after some drains, if for each of its entries one of the
  -- drains met a server that takes the entry, whether it was marked failed or not, and nothing else
  -- touched the queue.
  pub drains-empty :
      (servers : List (QueuedEval D → Bool)) (s : Idb D)
      → HasUniqueKeys s
      → ((k : String) (i : QueuedEval D)
          → lookup key_of k (read_all s) ≡ some i
          → any (takes i) servers ≡ true)
      → read_all (drains servers s) ≡ []
  drains-empty servers s u taken = empty_of_lookup (read_all (drains servers s)) (λ k.
      elim (Option-cases (lookup key_of k (read_all s))) [
        | inl e ↦ lookup-drains-none servers s k u e
        | inr (i, e) ↦ lookup-drains_taken servers s k i u e (taken k i e)
      ])
