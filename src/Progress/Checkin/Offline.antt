-- ===== src/Progress/Checkin/Offline.antt =====
-- A check-in without a network, and its replay.
use mathlib.Core.Path.{subst}
use platform_rally_extension.Base.{
  ℕ, ◌≡◌, refl, sym, ◌∙◌, ap, Bool, true, if◌then◌else◌, ◌==◌, Same-nat, Option, none, some, List,
  [], ◌∷◌, Bool-cases, inl, inr, same_refl, eq_of_same,
}
use platform_rally_extension.Base.Keyed.{has, lookup, Unique, lookup_of_has}
use platform_rally_extension.Evaluation.Submit.{Navigator}
use platform_rally_extension.Offline.ArrivalQueue.{
  QueuedArrival, checkpoint_of, read_all, with_failed, enqueue_arrival, list_arrivals,
}
use platform_rally_extension.Offline.ArrivalQueue
use platform_rally_extension.Offline.ArrivalQueue.Entries.{
  HasUniqueCheckpoints, leftover, enqueue_arrival_lem,
}
use platform_rally_extension.Offline.Sync.{ArriveRequest, replay_arrival, refresh, sync_arrivals}
use platform_rally_extension.Offline.Sync.Laws.{sync_arrivals_lem}
use platform_rally_extension.Progress.Checkin.{
  queued, error, CheckinError, is_offline_failure, Card, is_queued_here, arrival_at, on_error,
}

module _ {C : Type 0} (accepted : QueuedArrival C → Bool) where
  abbrev pub kept : Option (QueuedArrival C) → Option (QueuedArrival C)
  kept none = none
  kept (some i) = if accepted i then none else some (with_failed i)

  lookup-leftover :
      (c : ℕ) (items : List (QueuedArrival C))
      → Unique checkpoint_of items
      → lookup checkpoint_of c (leftover accepted items) ≡ kept (lookup checkpoint_of c items)
  lookup-leftover c [] u = refl
  lookup-leftover c (x ∷ items) (new, u) =
      let rest = lookup-leftover c items u in
      elim (Bool-cases (x.checkpoint_id == c)) [
        | inl same ↦
            let p : x.checkpoint_id ≡ c = eq_of_same x.checkpoint_id c same in
            let gone : lookup checkpoint_of c items ≡ none =
              subst (λ j. lookup checkpoint_of j items ≡ none) p
                (lookup_of_has checkpoint_of x.checkpoint_id items new) in
            elim (Bool-cases (accepted x)) [
              | inl taken ↦ rw (same, taken) (rest ∙ ap kept gone)
              | inr refused ↦ rw (same, refused, same) refl
            ]
        | inr other ↦ elim (Bool-cases (accepted x)) [
          | inl taken ↦ rw (other, taken) rest
          | inr refused ↦ rw (other, refused, other) rest
        ]
      ]

module _ {C : Type 0} where
  -- The request of a check-in that was made where the card's team stood.
  abbrev pub request_at : ℕ → C → C → ArriveRequest C
  request_at id lat lng = record { checkpoint_id = id; latitude = lat; longitude = lng }

  -- The card after a check-in without an answer.
  abbrev pub waiting : ℕ → C → C → Card C → Card C
  waiting now lat lng card = record card {
    gps_state = queued;
    sync = refresh (record card.sync {
      store = enqueue_arrival now (arrival_at card.checkpoint_id lat lng) card.sync.store;
    });
  }

  on_error-waiting :
      (navigator : Navigator) (now : ℕ) (e : CheckinError) (lat lng : C) (card : Card C)
      → is_offline_failure navigator e ≡ true
      → on_error navigator now e lat lng card ≡ waiting now lat lng card
  unfolding on_error
  on_error-waiting navigator now e lat lng card lost =
      ap (λ b. if b then waiting now lat lng card else record card { gps_state = error }) lost

  waiting_entry :
      (now : ℕ) (lat lng : C) (card : Card C)
      → HasUniqueCheckpoints card.sync.store
      → lookup checkpoint_of card.checkpoint_id (read_all (waiting now lat lng card).sync.store)
        ≡ some (ArrivalQueue.queued now (arrival_at card.checkpoint_id lat lng))
  unfolding refresh
  waiting_entry now lat lng card u =
      let id = card.checkpoint_id in
      (enqueue_arrival_lem now (arrival_at id lat lng) card.sync.store id u).1
      ∙ (rw (same_refl id) refl)

  is_queued_here-waiting :
      (now : ℕ) (lat lng : C) (card : Card C)
      → HasUniqueCheckpoints card.sync.store
      → is_queued_here (waiting now lat lng card) ≡ true
  unfolding is_queued_here refresh list_arrivals
  is_queued_here-waiting now lat lng card u =
      let id = card.checkpoint_id in
      let items = read_all (waiting now lat lng card).sync.store in
      elim (Bool-cases (has checkpoint_of id items)) [
        | inl there ↦ there
        | inr missing ↦
            let d : none ≡ some (ArrivalQueue.queued now (arrival_at id lat lng)) =
              sym (lookup_of_has checkpoint_of id items missing)
              ∙ waiting_entry now lat lng card u in
            absurd (cc d)
      ]

  waiting-syncs :
      (now : ℕ) (lat lng : C) (card : Card C) (server : ArriveRequest C → Bool)
      → HasUniqueCheckpoints card.sync.store
      → lookup checkpoint_of card.checkpoint_id
          (sync_arrivals (some true) server (waiting now lat lng card).sync).0.queued
        ≡ (if server (request_at card.checkpoint_id lat lng)
            then none
            else some
                (with_failed (ArrivalQueue.queued now (arrival_at card.checkpoint_id lat lng))))
  unfolding replay_arrival refresh
  waiting-syncs now lat lng card server u =
      let id = card.checkpoint_id in
      let accepted : QueuedArrival C → Bool = λ i. server (replay_arrival i) in
      let v = (enqueue_arrival_lem now (arrival_at id lat lng) card.sync.store id u).0 in
      ap (lookup checkpoint_of id) (sync_arrivals_lem server (waiting now lat lng card).sync v).0
      ∙ lookup-leftover accepted id _ v
      ∙ ap (kept accepted) (waiting_entry now lat lng card u)

  -- A check-in whose request got no answer, in a queue with one entry for each checkpoint: the card
  -- says that it is queued, and the page shows it in the queue. When the arrivals' `syncNow` runs
  -- online then, the request that is sent has the coordinates of the check-in; the entry is gone if
  -- the server accepts it, and else it is still queued, marked failed.
  pub on_error-syncs :
      (navigator : Navigator) (now : ℕ) (e : CheckinError) (lat lng : C) (card : Card C)
      (server : ArriveRequest C → Bool)
      → is_offline_failure navigator e ≡ true
      → HasUniqueCheckpoints card.sync.store
      → let card' = on_error navigator now e lat lng card in
        let entry = ArrivalQueue.queued now (arrival_at card.checkpoint_id lat lng) in
        (card'.gps_state ≡ queued)
        × (is_queued_here card' ≡ true)
        × (lookup checkpoint_of card.checkpoint_id
              (sync_arrivals (some true) server card'.sync).0.queued
            ≡ (if server (request_at card.checkpoint_id lat lng)
                then none
                else some (with_failed entry)))
  on_error-syncs navigator now e lat lng card server lost u =
      let q = on_error-waiting navigator now e lat lng card lost in
      (
        ap (λ c. c.gps_state) q,
        ap is_queued_here q ∙ is_queued_here-waiting now lat lng card u,
        ap
              (λ c.
                lookup checkpoint_of card.checkpoint_id
                  (sync_arrivals (some true) server c.sync).0.queued)
              q
            ∙ waiting-syncs now lat lng card server u,
      )
