-- ===== src/Checkpoints/Route/Sorted.antt =====
-- Sorting the route, and the next order.
use mathlib.Core.List.{Perm}
use mathlib.Core.List.Perm
use platform_rally_extension.Base.{
  ℕ, ◌+◌, ◌<◌, ◌≤◌, ◌≡◌, refl, ap, ◌∙◌, false, ◌||◌, ◌==◌, Same-nat, leb, some, List, [], ◌∷◌,
  arith, inl, inr, Bool-cases, All,
}
use platform_rally_extension.Base.Keyed.{has, Unique}
use platform_rally_extension.Checkpoints.Form.{Checkpoint}
use platform_rally_extension.Checkpoints.Route.{
  id_of, max_order, next_order, insert_by_order, sorted_checkpoints,
}

module _ {F : Type 0} where
  raise :
      (cs : List (Checkpoint F)) (m n : ℕ)
      → All (λ c. c.order ≤ m) cs
      → m ≤ n
      → All (λ c. c.order ≤ n) cs
  raise [] m n h le = tt
  raise (c ∷ cs) m n (h, hs) le = (omega (arith, h, le), raise cs m n hs le)

  below :
      (cs : List (Checkpoint F)) (m : ℕ) → All (λ c. c.order ≤ m) cs → All (λ c. c.order < m + 1) cs
  below [] m h = tt
  below (c ∷ cs) m (h, hs) = (omega (arith, h), below cs m hs)

  max_order-bound : (cs : List (Checkpoint F)) → All (λ c. c.order ≤ max_order cs) cs
  max_order-bound [] = tt
  max_order-bound (c ∷ cs) =
      let head : c.order ≤ max_order (c ∷ cs) = ground arith in
      let tail : max_order cs ≤ max_order (c ∷ cs) = ground arith in
      (head, raise cs (max_order cs) (max_order (c ∷ cs)) (max_order-bound cs) tail)

  -- The order that a new checkpoint is given comes after every order of the route.
  pub next_order-after : (cs : List (Checkpoint F)) → All (λ c. c.order < next_order (some cs)) cs
  unfolding next_order
  next_order-after [] = tt
  next_order-after (c ∷ cs) = below (c ∷ cs) (max_order (c ∷ cs)) (max_order-bound (c ∷ cs))

  insert_by_order-Perm :
      (c : Checkpoint F) (ds : List (Checkpoint F)) → Perm (insert_by_order c ds) (c ∷ ds)
  insert_by_order-Perm c [] = Perm.refl (c ∷ [])
  insert_by_order-Perm c (d ∷ ds) = elim (Bool-cases (leb c.order d.order)) [
    | inl h ↦ rw h (Perm.refl (c ∷ d ∷ ds))
    | inr h ↦ rw h (Perm.trans (Perm.cons d (insert_by_order-Perm c ds)) (Perm.swap c d ds))
  ]

  pub sorted_checkpoints-Perm : (cs : List (Checkpoint F)) → Perm (sorted_checkpoints cs) cs
  unfolding sorted_checkpoints
  sorted_checkpoints-Perm [] = Perm.refl []
  sorted_checkpoints-Perm (c ∷ cs) =
      Perm.trans (insert_by_order-Perm c (sorted_checkpoints cs))
        (Perm.cons c (sorted_checkpoints-Perm cs))

  has-insert_by_order :
      (k : ℕ) (c : Checkpoint F) (ds : List (Checkpoint F))
      → has id_of k (insert_by_order c ds) ≡ ((c.id == k) || has id_of k ds)
  has-insert_by_order k c [] = refl
  has-insert_by_order k c (d ∷ ds) = ground (arith, has-insert_by_order k c ds)

  pub has-sorted_checkpoints :
      (k : ℕ) (cs : List (Checkpoint F)) → has id_of k (sorted_checkpoints cs) ≡ has id_of k cs
  unfolding sorted_checkpoints
  has-sorted_checkpoints k [] = refl
  has-sorted_checkpoints k (c ∷ cs) =
      has-insert_by_order k c (sorted_checkpoints cs)
      ∙ ap (λ b. (c.id == k) || b) (has-sorted_checkpoints k cs)

  insert_by_order-Unique :
      (c : Checkpoint F) (ds : List (Checkpoint F))
      → Unique id_of ds
      → has id_of c.id ds ≡ false
      → Unique id_of (insert_by_order c ds)
  insert_by_order-Unique c [] u h = (refl, tt)
  insert_by_order-Unique c (d ∷ ds) (g, u) h =
      ground (arith, insert_by_order-Unique c ds u, has-insert_by_order d.id c ds)

  pub sorted_checkpoints-Unique :
      (cs : List (Checkpoint F)) → Unique id_of cs → Unique id_of (sorted_checkpoints cs)
  unfolding sorted_checkpoints
  sorted_checkpoints-Unique [] u = tt
  sorted_checkpoints-Unique (c ∷ cs) (h, u) =
      insert_by_order-Unique c (sorted_checkpoints cs) (sorted_checkpoints-Unique cs u)
        (has-sorted_checkpoints c.id cs ∙ h)
