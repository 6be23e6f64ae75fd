-- ===== src/Base/Positions.antt =====
-- Positions in a list: `findIndex`, whose -1 is nothing here, and the two uses of `splice` that move
-- an item. `splice(-1, …)` counts from the end.
use Prim.Native.Nat.{ℕ, zero, suc, ◌-◌, ◌≤◌, ◌<◌}
use mathlib.Core.Path.{◌≡◌, refl, sym, ap, ◌∙◌, subst}
use mathlib.Core.Logic.{inl, inr}
use mathlib.Core.Bool.{Bool, true, false, ◌||◌}
use mathlib.Core.Option
use mathlib.Core.Option.{Option, none, some}
use mathlib.Core.List.{List, [], ◌∷◌, Perm}
use mathlib.Core.List.Perm
use native.Mathlib.Omega.{arith}
use platform_rally_extension.Base.Tests.{
  if◌then◌else◌, ◌==◌, Same, Bool-cases, Option-cases, eq_of_same,
}
use platform_rally_extension.Base.Lists.{length}
use platform_rally_extension.Base.Keyed.{has, without, Unique, without_of_has, same_comm}

-- Where `splice` starts in a list of `n` items.
abbrev pub start_index : Option ℕ → ℕ → ℕ
start_index none n = n - 1
start_index (some i) n = i

module _ {A : Type 0} where
  -- `Array.prototype.findIndex`
  abbrev pub find_index : (A → Bool) → List A → Option ℕ
  find_index p [] = none
  find_index p (x ∷ xs) = if p x then some 0 else Option.map (λ n. suc n) (find_index p xs)

  abbrev pub item_at : ℕ → List A → Option A
  item_at n [] = none
  item_at zero (x ∷ xs) = some x
  item_at (suc n) (x ∷ xs) = item_at n xs

  -- `splice(n, 1)`: what is left.
  abbrev pub remove_at : ℕ → List A → List A
  remove_at n [] = []
  remove_at zero (x ∷ xs) = xs
  remove_at (suc n) (x ∷ xs) = x ∷ remove_at n xs

  -- `splice(n, 0, x)`
  abbrev pub insert_at : ℕ → A → List A → List A
  insert_at n x [] = x ∷ []
  insert_at zero x (y ∷ ys) = x ∷ y ∷ ys
  insert_at (suc n) x (y ∷ ys) = y ∷ insert_at n x ys

  pub insert_at-Perm : (n : ℕ) (x : A) (xs : List A) → Perm (insert_at n x xs) (x ∷ xs)
  insert_at-Perm n x [] = Perm.refl (x ∷ [])
  insert_at-Perm zero x (y ∷ ys) = Perm.refl (x ∷ y ∷ ys)
  insert_at-Perm (suc n) x (y ∷ ys) =
      Perm.trans (Perm.cons y (insert_at-Perm n x ys)) (Perm.swap x y ys)

  pub remove_at-Perm :
      (n : ℕ) (x : A) (xs : List A) → item_at n xs ≡ some x → Perm (x ∷ remove_at n xs) xs
  remove_at-Perm n x [] e = absurd (cc e)
  remove_at-Perm zero x (y ∷ ys) e =
      let e' : some y ≡ some x = e in
      let q : y ≡ x = cc e' in subst (λ z. Perm (z ∷ ys) (y ∷ ys)) q (Perm.refl (y ∷ ys))
  remove_at-Perm (suc n) x (y ∷ ys) e =
      Perm.trans (Perm.swap y x (remove_at n ys)) (Perm.cons y (remove_at-Perm n x ys e))

  pub remove_at_of_none : (n : ℕ) (xs : List A) → item_at n xs ≡ none → remove_at n xs ≡ xs
  remove_at_of_none n [] e = refl
  remove_at_of_none zero (x ∷ xs) e = absurd (cc e)
  remove_at_of_none (suc n) (x ∷ xs) e = ap (λ l. x ∷ l) (remove_at_of_none n xs e)

  pub find_index-item_at :
      (p : A → Bool) (xs : List A) (i : ℕ)
      → find_index p xs ≡ some i
      → (x : A) × (item_at i xs ≡ some x) × (p x ≡ true)
  find_index-item_at p [] i e = absurd (cc e)
  find_index-item_at p (x ∷ xs) i e = elim (Bool-cases (p x)) [
    | inl h ↦
        let e' : some 0 ≡ some i = sym (rw h refl) ∙ e in
        let q : 0 ≡ i = cc e' in (x, rw (sym q) refl, h)
    | inr h ↦ elim (Option-cases (find_index p xs)) [
      | inl m ↦ absurd (ground arith)
      | inr (j, m) ↦
          let e' : some (suc j) ≡ some i = sym (rw (h, m) refl) ∙ e in
          let q : suc j ≡ i = cc e' in
          let (y, at, hy) = find_index-item_at p xs j m in (y, rw (sym q) at, hy)
    ]
  ]

  pub find_index-bound :
      (p : A → Bool) (xs : List A) (i : ℕ) → find_index p xs ≡ some i → i < length xs
  find_index-bound p [] i e = absurd (cc e)
  find_index-bound p (x ∷ xs) i e = elim (Bool-cases (p x)) [
    | inl h ↦
        let e' : some 0 ≡ some i = sym (rw h refl) ∙ e in let q : 0 ≡ i = cc e' in omega (arith, q)
    | inr h ↦ elim (Option-cases (find_index p xs)) [
      | inl m ↦ absurd (ground arith)
      | inr (j, m) ↦
          let e' : some (suc j) ≡ some i = sym (rw (h, m) refl) ∙ e in
          let q : suc j ≡ i = cc e' in omega (arith, q, find_index-bound p xs j m)
    ]
  ]

  pub remove_at-length :
      (n : ℕ) (xs : List A) → n < length xs → suc (length (remove_at n xs)) ≡ length xs
  remove_at-length n [] h = absurd (omega (arith, h))
  remove_at-length zero (x ∷ xs) h = refl
  remove_at-length (suc n) (x ∷ xs) h = ap (λ k. suc k) (remove_at-length n xs (omega (arith, h)))

module _ {A K : Type 0} ⦃s : Same K⦄ (key : A → K) where
  pub find_index_of_has :
      (k : K) (xs : List A)
      → has key k xs ≡ true
      → (i : ℕ) × (find_index (λ x. key x == k) xs ≡ some i)
  find_index_of_has k [] h = absurd (cc h)
  find_index_of_has k (x ∷ xs) h = elim (Bool-cases (key x == k)) [
    | inl b ↦ (0, rw b refl)
    | inr b ↦ let (i, m) = find_index_of_has k xs (sym (rw b refl) ∙ h) in (suc i, rw (b, m) refl)
  ]

  pub find_index_of_has_not :
      (k : K) (xs : List A) → has key k xs ≡ false → find_index (λ x. key x == k) xs ≡ none
  find_index_of_has_not k [] h = refl
  find_index_of_has_not k (x ∷ xs) h = ground (arith, find_index_of_has_not k xs)

  pub find_index-insert_at :
      (k : K) (n : ℕ) (x : A) (xs : List A)
      → (key x == k) ≡ true
      → has key k xs ≡ false
      → n ≤ length xs
      → find_index (λ i. key i == k) (insert_at n x xs) ≡ some n
  find_index-insert_at k zero x [] e h b = ground arith
  find_index-insert_at k (suc n) x [] e h b = absurd (omega (arith, b))
  find_index-insert_at k zero x (y ∷ ys) e h b = ground arith
  find_index-insert_at k (suc n) x (y ∷ ys) e h b = ground (arith, find_index-insert_at k n x ys e)

  pub without-insert_at :
      (k : K) (n : ℕ) (x : A) (xs : List A)
      → (key x == k) ≡ true
      → without key k (insert_at n x xs) ≡ without key k xs
  without-insert_at k n x [] e = ground arith
  without-insert_at k zero x (y ∷ ys) e = ground arith
  without-insert_at k (suc n) x (y ∷ ys) e = ground (arith, without-insert_at k n x ys e)

  -- Removing what `findIndex` finds by a key that is unique is dropping all with that key.
  pub remove_at-without :
      (k : K) (xs : List A) (i : ℕ)
      → Unique key xs
      → find_index (λ x. key x == k) xs ≡ some i
      → remove_at i xs ≡ without key k xs
  remove_at-without k [] i u e = absurd (cc e)
  remove_at-without k (x ∷ xs) i (h, u) e = elim (Bool-cases (key x == k)) [
    | inl b ↦
        let e' : some 0 ≡ some i = sym (rw b refl) ∙ e in
        let q : 0 ≡ i = cc e' in
        rw (sym q, b)
          (sym (
            without_of_has key k xs (subst (λ j. has key j xs ≡ false) (eq_of_same (key x) k b) h)))
    | inr b ↦ elim (Option-cases (find_index (λ x. key x == k) xs)) [
      | inl m ↦ absurd (ground arith)
      | inr (j, m) ↦
          let e' : some (suc j) ≡ some i = sym (rw (b, m) refl) ∙ e in
          let q : suc j ≡ i = cc e' in
          rw (sym q, b) (ap (λ l. x ∷ l) (remove_at-without k xs j u m))
    ]
  ]

  has-insert_at :
      (k : K) (n : ℕ) (x : A) (xs : List A)
      → has key k (insert_at n x xs) ≡ ((key x == k) || has key k xs)
  has-insert_at k n x [] = refl
  has-insert_at k zero x (y ∷ ys) = refl
  has-insert_at k (suc n) x (y ∷ ys) = ground (arith, has-insert_at k n x ys)

  pub insert_at-Unique :
      (n : ℕ) (x : A) (xs : List A)
      → Unique key xs
      → has key (key x) xs ≡ false
      → Unique key (insert_at n x xs)
  insert_at-Unique n x [] u h = (refl, tt)
  insert_at-Unique zero x (y ∷ ys) u h = (h, u)
  insert_at-Unique (suc n) x (y ∷ ys) (g, u) h = ground (
    arith,
    insert_at-Unique n x ys u,
    has-insert_at (key y) n x ys,
    same_comm key (key x) (key y),
  )
