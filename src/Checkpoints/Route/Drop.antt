-- ===== src/Checkpoints/Route/Drop.antt =====
-- What a drop does to the route.
use mathlib.Core.List.{Perm}
use mathlib.Core.List.Perm
use mathlib.Core.Option
use mathlib.Core.Path.{subst}
use platform_rally_extension.Base.{
  ℕ, suc, ◌+◌, ◌≤◌, ◌≡◌, ◌≢◌, refl, sym, ap, ◌∙◌, true, false, ◌==◌, Same-nat, Option, none, some,
  List, [], ◌∷◌, length, arith, inl, inr, Bool-cases, Option-cases, not_same_of_ne, same_refl,
  eq_of_same,
}
use platform_rally_extension.Base.Keyed.{
  has, without, Unique, has-without, without_of_has, Unique-without,
}
use platform_rally_extension.Base.Positions.{
  find_index, start_index, item_at, remove_at, insert_at, insert_at-Perm, remove_at-Perm,
  find_index-bound, remove_at-length, find_index-insert_at, find_index_of_has,
  find_index_of_has_not, find_index-item_at, remove_at_of_none, without-insert_at, insert_at-Unique,
  remove_at-without,
}
use platform_rally_extension.Checkpoints.Form.{Checkpoint}
use platform_rally_extension.Checkpoints.Route.{
  id_of, put_back, splices, sorted_checkpoints, moved, orders_from, drop_orders, or_earlier,
  read_order,
}
use platform_rally_extension.Checkpoints.Route.Sorted.{
  sorted_checkpoints-Perm, has-sorted_checkpoints, sorted_checkpoints-Unique,
}

shift :
    (n : ℕ) (o : Option ℕ)
    → Option.map (λ i. suc n + i + 1) o ≡ Option.map (λ i. n + i + 1) (Option.map (λ i. suc i) o)
shift n none = refl
shift n (some i) = ap some (omega arith)

later_only : (f : ℕ → ℕ) (o : Option ℕ) → or_earlier (Option.map f o) none ≡ Option.map f o
later_only f none = refl
later_only f (some i) = refl

module _ {F : Type 0} where
  splices-Perm :
      (from : ℕ) (t : Option ℕ) (sorted : List (Checkpoint F)) → Perm (splices from t sorted) sorted
  splices-Perm from t sorted = elim (Option-cases (item_at from sorted)) [
    | inl e ↦ rw (e, remove_at_of_none from sorted e) (Perm.refl sorted)
    | inr (item, e) ↦ rw e (
        Perm.trans
          (insert_at-Perm (start_index t (length (remove_at from sorted))) item
            (remove_at from sorted))
          (remove_at-Perm from item sorted e))
  ]

  -- Whatever two ids a drop names, also ids that the route does not have, the list that its splices
  -- leave holds the same checkpoints.
  pub moved-Perm :
      (dragged target : ℕ) (sorted : List (Checkpoint F))
      → Perm (moved dragged target sorted) sorted
  unfolding moved
  moved-Perm dragged target sorted =
      splices-Perm (start_index (find_index (λ c. c.id == dragged) sorted) (length sorted))
        (find_index (λ c. c.id == target) sorted) sorted

  moved-inserted :
      (dragged target : ℕ) (sorted : List (Checkpoint F)) (i j : ℕ) (item : Checkpoint F)
      → find_index (λ c. c.id == dragged) sorted ≡ some i
      → find_index (λ c. c.id == target) sorted ≡ some j
      → item_at i sorted ≡ some item
      → moved dragged target sorted ≡ insert_at j item (remove_at i sorted)
  unfolding moved
  moved-inserted dragged target sorted i j item ei ej at =
      ap
        (λ o.
          splices (start_index o (length sorted)) (find_index (λ c. c.id == target) sorted) sorted)
        ei
      ∙ ap (λ o. splices i o sorted) ej
      ∙ ap (λ o. put_back o j (remove_at i sorted)) at

  pub moved-place :
      (dragged target : ℕ) (sorted : List (Checkpoint F)) (i j : ℕ)
      → Unique id_of sorted
      → find_index (λ c. c.id == dragged) sorted ≡ some i
      → find_index (λ c. c.id == target) sorted ≡ some j
      → (find_index (λ c. c.id == dragged) (moved dragged target sorted) ≡ some j)
        × (without id_of dragged (moved dragged target sorted) ≡ without id_of dragged sorted)
        × Unique id_of (moved dragged target sorted)
  moved-place dragged target sorted i j u ei ej =
      let (item, at, same) = find_index-item_at (λ c. c.id == dragged) sorted i ei in
      let rest : remove_at i sorted ≡ without id_of dragged sorted =
        remove_at-without id_of dragged sorted i u ei in
      let gone : has id_of dragged (without id_of dragged sorted) ≡ false =
        has-without id_of dragged dragged sorted ∙ rw (same_refl dragged) refl in
      let room : j ≤ length (without id_of dragged sorted) = omega (
        arith,
        ap length rest,
        remove_at-length i sorted (find_index-bound _ sorted i ei),
        find_index-bound _ sorted j ej,
      ) in
      let shape : moved dragged target sorted ≡ insert_at j item (without id_of dragged sorted) =
        moved-inserted dragged target sorted i j item ei ej at ∙ ap (insert_at j item) rest in
      (
        ap (find_index (λ c. c.id == dragged)) shape
            ∙ find_index-insert_at id_of dragged j item (without id_of dragged sorted) same gone
                room,
        ap (without id_of dragged) shape
            ∙ without-insert_at id_of dragged j item (without id_of dragged sorted) same
            ∙ without_of_has id_of dragged (without id_of dragged sorted) gone,
        subst (Unique id_of) (sym shape) (
            insert_at-Unique id_of j item (without id_of dragged sorted)
              (Unique-without id_of dragged sorted u)
              (subst (λ k. has id_of k (without id_of dragged sorted) ≡ false)
                (sym (eq_of_same item.id dragged same)) gone)),
      )

  -- In a route without repeated ids, the orders that are sent number the checkpoints by their places.
  pub read_order-orders_from :
      (k n : ℕ) (cs : List (Checkpoint F))
      → Unique id_of cs
      → read_order k (orders_from n cs)
        ≡ Option.map (λ i. n + i + 1) (find_index (λ c. c.id == k) cs)
  unfolding orders_from
  read_order-orders_from k n [] u = refl
  read_order-orders_from k n (c ∷ cs) (h, u) = elim (Bool-cases (c.id == k)) [
    | inl b ↦
        let absent : find_index (λ d. d.id == k) cs ≡ none =
          find_index_of_has_not id_of k cs
            (subst (λ j. has id_of j cs ≡ false) (eq_of_same c.id k b) h) in
        let unread : read_order k (orders_from (suc n) cs) ≡ none =
          read_order-orders_from k (suc n) cs u ∙ ap (Option.map (λ i. suc n + i + 1)) absent in
        rw (unread, b) (ap some (omega arith))
    | inr b ↦
        rw (b, read_order-orders_from k (suc n) cs u)
          (later_only (λ i. suc n + i + 1) (find_index (λ d. d.id == k) cs)
            ∙ shift n (find_index (λ d. d.id == k) cs))
  ]

  -- In a route without repeated ids, a drop of one of its checkpoints on another sends the orders
  -- of a list with the same checkpoints, in which the dragged one stands at the place that the
  -- target has in the sorted route and is given that order, counted from 1, and the others keep
  -- the order they had among them.
  pub drop_orders_lem :
      (dragged target : Checkpoint F) (checkpoints : List (Checkpoint F))
      → Unique id_of checkpoints
      → has id_of dragged.id checkpoints ≡ true
      → has id_of target.id checkpoints ≡ true
      → dragged.id ≢ target.id
      → (route : List (Checkpoint F)) × (place : ℕ) × (drop_orders
            (some dragged)
            target
            (some checkpoints)
          ≡ some (orders_from 0 route))
        × Perm route checkpoints
        × (find_index (λ c. c.id == target.id) (sorted_checkpoints checkpoints) ≡ some place)
        × (read_order dragged.id (orders_from 0 route) ≡ some (place + 1))
        × (without id_of dragged.id route
            ≡ without id_of dragged.id (sorted_checkpoints checkpoints))
  unfolding drop_orders
  drop_orders_lem dragged target checkpoints u hd ht ne =
      let sorted = sorted_checkpoints checkpoints in
      let route = moved dragged.id target.id sorted in
      let su = sorted_checkpoints-Unique checkpoints u in
      let (i, ei) =
        find_index_of_has id_of dragged.id sorted
          (has-sorted_checkpoints dragged.id checkpoints ∙ hd) in
      let (j, ej) =
        find_index_of_has id_of target.id sorted
          (has-sorted_checkpoints target.id checkpoints ∙ ht) in
      let (at, others, unique) = moved-place dragged.id target.id sorted i j su ei ej in
      (
        route,
        j,
        rw (not_same_of_ne dragged.id target.id ne) refl,
        Perm.trans (moved-Perm dragged.id target.id sorted) (sorted_checkpoints-Perm checkpoints),
        ej,
        read_order-orders_from dragged.id 0 route unique
            ∙ ap (Option.map (λ i. 0 + i + 1)) at
            ∙ ap (λ n. some (n + 1)) (omega arith),
        others,
      )
