-- ===== src/Checkpoints/Route.antt =====
-- useCheckpointManagement.ts: the next free order, the sorted list, and the orders that a drop sends.
-- `sort` is stable, so it is an insertion that keeps equal orders in place.
pub mod Sorted
pub mod Drop
use platform_rally_extension.Base.{
  ℕ, suc, ◌+◌, Bool, true, false, if◌then◌else◌, ◌==◌, Same-nat, leb, Option, none, some, List, [],
  ◌∷◌, length, get_or,
}
use platform_rally_extension.Base.Positions.{find_index, start_index, item_at, remove_at, insert_at}
use platform_rally_extension.Checkpoints.Form.{Checkpoint}

module _ {F : Type 0} where
  abbrev pub id_of : Checkpoint F → ℕ
  id_of c = c.id

  -- `Math.max(...)` of the orders; `cp.order || 0` is the order itself.
  abbrev pub max_order : List (Checkpoint F) → ℕ
  max_order [] = 0
  max_order (c ∷ cs) = let rest = max_order cs in if leb rest c.order then c.order else rest

  unfoldable pub next_order : Option (List (Checkpoint F)) → ℕ
  next_order none = 1
  next_order (some []) = 1
  next_order (some (c ∷ cs)) = max_order (c ∷ cs) + 1

  abbrev pub insert_by_order : Checkpoint F → List (Checkpoint F) → List (Checkpoint F)
  insert_by_order c [] = c ∷ []
  insert_by_order c (d ∷ ds) =
      let rest = insert_by_order c ds in if leb c.order d.order then c ∷ d ∷ ds else d ∷ rest

  unfoldable pub sorted_checkpoints : List (Checkpoint F) → List (Checkpoint F)
  sorted_checkpoints [] = []
  sorted_checkpoints (c ∷ cs) = insert_by_order c (sorted_checkpoints cs)

  -- `if (draggedItem)`, and its `splice`.
  abbrev pub put_back : Option (Checkpoint F) → ℕ → List (Checkpoint F) → List (Checkpoint F)
  put_back none to rest = rest
  put_back (some item) to rest = insert_at to item rest

  -- The two splices of `handleDrop`, by what `findIndex` gave.
  abbrev pub splices : ℕ → Option ℕ → List (Checkpoint F) → List (Checkpoint F)
  splices from target_index sorted =
      let rest = remove_at from sorted in
      put_back (item_at from sorted) (start_index target_index (length rest)) rest

  unfoldable pub moved : ℕ → ℕ → List (Checkpoint F) → List (Checkpoint F)
  moved dragged target sorted =
      splices (start_index (find_index (λ c. c.id == dragged) sorted) (length sorted))
        (find_index (λ c. c.id == target) sorted) sorted

  -- `checkpointOrders[cp.id] = index + 1`, in the order of the assignments.
  unfoldable pub orders_from : ℕ → List (Checkpoint F) → List (ℕ × ℕ)
  orders_from index [] = []
  orders_from index (c ∷ cs) = (c.id, index + 1) ∷ orders_from (suc index) cs

  -- What `handleDrop` sends, when it sends anything.
  unfoldable pub drop_orders :
      Option (Checkpoint F) → Checkpoint F → Option (List (Checkpoint F)) → Option (List (ℕ × ℕ))
  drop_orders none target checkpoints = none
  drop_orders (some dragged) target checkpoints =
      if dragged.id == target.id
      then none
      else some
          (orders_from 0 (moved dragged.id target.id (sorted_checkpoints (get_or checkpoints []))))

-- A record's value at a key: that of the last assignment to it.
abbrev pub or_earlier : Option ℕ → Option ℕ → Option ℕ
or_earlier none o = o
or_earlier (some later) o = some later

abbrev pub read_order : ℕ → List (ℕ × ℕ) → Option ℕ
read_order id [] = none
read_order id ((i, order) ∷ rest) =
    or_earlier (read_order id rest) (if i == id then some order else none)
