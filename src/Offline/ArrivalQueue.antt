-- ===== src/Offline/ArrivalQueue.antt =====
-- web-rally/src/offline/arrivalQueue.ts: the queue of GPS arrivals, one for each checkpoint.
-- Coordinates are values of `C` that the queue only carries; storage steps do not fail.
pub mod Entries
use platform_rally_extension.Base.{
  ℕ, ◌+◌, Bool, if◌then◌else◌, ◌==◌, Same-nat, not, Option, some, List, [], ◌∷◌, ◌++◌, map, filter,
  get_or,
}

pub data QueuedArrivalStatus : Type 0 where
  pending failed : QueuedArrivalStatus

pub record QueuedArrival (C : Type 0) : Type 0 where
  pub checkpoint_id : ℕ
  pub latitude : C
  pub longitude : C
  pub status : QueuedArrivalStatus
  pub created_at : ℕ

-- `Omit<QueuedArrival, "status" | "createdAt">`
pub record Arrival (C : Type 0) : Type 0 where
  pub checkpoint_id : ℕ
  pub latitude : C
  pub longitude : C

pub record Idb (C : Type 0) : Type 0 where
  pub queue : Option (List (QueuedArrival C))
  pub changes : ℕ
  pub in_window : Bool

module _ {C : Type 0} where
  abbrev pub checkpoint_of : QueuedArrival C → ℕ
  checkpoint_of i = i.checkpoint_id

  unfoldable pub read_all : Idb C → List (QueuedArrival C)
  read_all s = get_or s.queue []

  unfoldable pub write_all : List (QueuedArrival C) → Idb C → Idb C
  write_all items s = record s {
    queue = some items;
    changes = if s.in_window then s.changes + 1 else s.changes;
  }

  abbrev pub queued : ℕ → Arrival C → QueuedArrival C
  queued now item = record {
    checkpoint_id = item.checkpoint_id;
    latitude = item.latitude;
    longitude = item.longitude;
    status = pending;
    created_at = now;
  }

  -- `now` is `Date.now()`.
  unfoldable pub enqueue_arrival : ℕ → Arrival C → Idb C → Idb C
  enqueue_arrival now item s =
      let rest = filter (λ i. not (i.checkpoint_id == item.checkpoint_id)) (read_all s) in
      write_all (rest ++ queued now item ∷ []) s

  unfoldable pub list_arrivals : Idb C → List (QueuedArrival C)
  list_arrivals s = read_all s

  unfoldable pub remove_arrival : ℕ → Idb C → Idb C
  remove_arrival checkpoint_id s =
      write_all (filter (λ i. not (i.checkpoint_id == checkpoint_id)) (read_all s)) s

  abbrev pub with_failed : QueuedArrival C → QueuedArrival C
  with_failed i = record i { status = failed }

  unfoldable pub mark_arrival_failed : ℕ → Idb C → Idb C
  mark_arrival_failed checkpoint_id s =
      write_all
        (map (λ i. if i.checkpoint_id == checkpoint_id then with_failed i else i) (read_all s)) s

-- Whether the awaited `replay` of an item is fulfilled.
module _ {C : Type 0} (accepted : QueuedArrival C → Bool) where
  -- The loop of `drainArrivals`, with its counter `synced`.
  unfoldable pub drain_arrivals_from : List (QueuedArrival C) → ℕ → Idb C → ℕ × Idb C
  drain_arrivals_from [] synced s = (synced, s)
  drain_arrivals_from (item ∷ items) synced s =
      let accept = drain_arrivals_from items (synced + 1) (remove_arrival item.checkpoint_id s) in
      let reject = drain_arrivals_from items synced (mark_arrival_failed item.checkpoint_id s) in
      if accepted item then accept else reject

  unfoldable pub drain_arrivals : Idb C → ℕ × Idb C
  drain_arrivals s = drain_arrivals_from (read_all s) 0 s
