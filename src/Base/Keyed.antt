-- ===== src/Base/Keyed.antt =====
-- Lists whose items carry a key: the list operations of the two offline queues, and their laws.
use platform_rally_extension.Base.Tests.{
  if◌then◌else◌, ◌==◌, Same, same_refl, eq_of_same, Bool-cases,
}
use platform_rally_extension.Base.Lists.{filter, any, find}
use mathlib.Core.Path.{◌≡◌, refl, subst, ◌∙◌, ap}
use mathlib.Core.Logic.{inl, inr}
use mathlib.Core.Bool.{Bool, true, false, not, ◌||◌}
use mathlib.Core.Option
use mathlib.Core.Option.{Option, none, some}
use mathlib.Core.List.{List, [], ◌∷◌, ◌++◌, map}
use native.Mathlib.Omega.{arith}

module _ {A K : Type 0} ⦃s : Same K⦄ (key : A → K) where
  abbrev pub has : K → List A → Bool
  has k xs = any (λ i. key i == k) xs

  abbrev pub lookup : K → List A → Option A
  lookup k xs = find (λ i. key i == k) xs

  abbrev pub without : K → List A → List A
  without k xs = filter (λ i. not (key i == k)) xs

  abbrev pub update : K → (A → A) → List A → List A
  update k f xs = map (λ i. if key i == k then f i else i) xs

  -- No two items share a key.
  abbrev pub Unique : List A → Type 0
  Unique [] = Unit
  Unique (x ∷ xs) = (has (key x) xs ≡ false) × Unique xs

  pub same_both : (i j k : K) → (i == k) ≡ true → (i == j) ≡ (k == j)
  same_both i j k h = rw (eq_of_same i k h)

  same_right : (i j k : K) → (k == j) ≡ true → (i == j) ≡ (i == k)
  same_right i j k h = rw (eq_of_same k j h)

  pub same_comm : (i j : K) → (i == j) ≡ (j == i)
  same_comm i j = elim (Bool-cases (i == j)) [
    | inl e ↦ let p : i ≡ j = eq_of_same i j e in rw p
    | inr e ↦ elim (Bool-cases (j == i)) [
      | inl d ↦ let p : j ≡ i = eq_of_same j i d in rw p
      | inr d ↦ rw (e, d)
    ]
  ]

  pub has-append : (k : K) (xs ys : List A) → has k (xs ++ ys) ≡ (has k xs || has k ys)
  has-append k [] ys = refl
  has-append k (x ∷ xs) ys = ground (arith, has-append k xs ys)

  pub lookup-append :
      (k : K) (xs ys : List A)
      → lookup k (xs ++ ys) ≡ elim (lookup k xs) [ none ↦ lookup k ys | some a ↦ some a ]
  lookup-append k [] ys = refl
  lookup-append k (x ∷ xs) ys = ground (arith, lookup-append k xs ys)

  pub lookup_of_has : (k : K) (xs : List A) → has k xs ≡ false → lookup k xs ≡ none
  lookup_of_has k [] h = refl
  lookup_of_has k (x ∷ xs) h = ground (arith, lookup_of_has k xs)

  pub has_of_lookup : (k : K) (xs : List A) → lookup k xs ≡ none → has k xs ≡ false
  has_of_lookup k [] h = refl
  has_of_lookup k (x ∷ xs) h = ground (arith, has_of_lookup k xs)

  -- What a new item leaves under each key: an item that is there already stays.
  abbrev pub or_new : A → K → Option A → Option A
  or_new y k none = if key y == k then some y else none
  or_new y k (some a) = some a

  abbrev pub add_new : A → List A → List A
  add_new y xs = if has (key y) xs then xs else xs ++ y ∷ []

  lookup-or_new_old :
      (k : K) (y : A) (xs : List A) → has (key y) xs ≡ true → lookup k xs ≡ or_new y k (lookup k xs)
  lookup-or_new_old k y xs old = elim (Bool-cases (key y == k)) [
    | inl e ↦
        let p : has k xs ≡ true = subst (λ j. has j xs ≡ true) (eq_of_same (key y) k e) old in
        ground (arith, has_of_lookup k xs)
    | inr e ↦ ground arith
  ]

  lookup-or_new_one :
      (k : K) (y : A) (o : Option A)
      → (elim o [ none ↦ lookup k (y ∷ []) | some a ↦ some a ]) ≡ or_new y k o
  lookup-or_new_one k y none = refl
  lookup-or_new_one k y (some a) = refl

  pub lookup-add_new :
      (k : K) (y : A) (xs : List A) → lookup k (add_new y xs) ≡ or_new y k (lookup k xs)
  lookup-add_new k y xs = elim (Bool-cases (has (key y) xs)) [
    | inl old ↦ rw old (lookup-or_new_old k y xs old)
    | inr new ↦ rw new (lookup-append k xs (y ∷ []) ∙ lookup-or_new_one k y (lookup k xs))
  ]

  pub has-without :
      (j k : K) (xs : List A) → has j (without k xs) ≡ (if k == j then false else has j xs)
  has-without j k [] = ground arith
  has-without j k (x ∷ xs) =
      ground (arith, has-without j k xs, same_both (key x) j k, same_right (key x) j k)

  pub lookup-without :
      (j k : K) (xs : List A) → lookup j (without k xs) ≡ (if k == j then none else lookup j xs)
  lookup-without j k [] = ground arith
  lookup-without j k (x ∷ xs) =
      ground (arith, lookup-without j k xs, same_both (key x) j k, same_right (key x) j k)

  pub Unique-append_one :
      (xs : List A) (y : A) → Unique xs → has (key y) xs ≡ false → Unique (xs ++ y ∷ [])
  Unique-append_one [] y u h = (refl, tt)
  Unique-append_one (x ∷ xs) y (g, u) h =
      ground
        (arith, has-append (key x) xs (y ∷ []), same_comm (key x) (key y), Unique-append_one xs y u)

  pub Unique-add_new : (y : A) (xs : List A) → Unique xs → Unique (add_new y xs)
  Unique-add_new y xs u = elim (Bool-cases (has (key y) xs)) [
    | inl old ↦ rw old u
    | inr new ↦ rw new (Unique-append_one xs y u new)
  ]

  pub Unique-without : (k : K) (xs : List A) → Unique xs → Unique (without k xs)
  Unique-without k [] u = tt
  Unique-without k (x ∷ xs) (h, u) = ground (arith, Unique-without k xs u, has-without (key x) k xs)

  pub without_of_has : (k : K) (xs : List A) → has k xs ≡ false → without k xs ≡ xs
  without_of_has k [] h = refl
  without_of_has k (x ∷ xs) h = ground (arith, without_of_has k xs)

  pub without-middle :
      (xs : List A) (y : A) (ys : List A)
      → Unique (xs ++ y ∷ ys)
      → without (key y) (xs ++ y ∷ ys) ≡ xs ++ ys
  without-middle [] y ys (h, u) = rw (same_refl (key y)) (without_of_has (key y) ys h)
  without-middle (x ∷ xs) y ys (h, u) =
      ground
        (arith, has-append (key x) xs (y ∷ ys), same_comm (key x) (key y), without-middle xs y ys u)

  pub update_of_has : (k : K) (f : A → A) (xs : List A) → has k xs ≡ false → update k f xs ≡ xs
  update_of_has k f [] h = refl
  update_of_has k f (x ∷ xs) h = ground (arith, update_of_has k f xs)

  pub update-middle :
      (f : A → A) (xs : List A) (y : A) (ys : List A)
      → Unique (xs ++ y ∷ ys)
      → update (key y) f (xs ++ y ∷ ys) ≡ xs ++ f y ∷ ys
  update-middle f [] y ys (h, u) =
      rw (same_refl (key y)) (ap (λ l. f y ∷ l) (update_of_has (key y) f ys h))
  update-middle f (x ∷ xs) y ys (h, u) =
      ground (
        arith,
        has-append (key x) xs (y ∷ ys),
        same_comm (key x) (key y),
        update-middle f xs y ys u,
      )

  -- What does not change an item's key.
  module _ (f : A → A) (keeps : (a : A) → key (f a) ≡ key a) where
    pub has-update : (j k : K) (xs : List A) → has j (update k f xs) ≡ has j xs
    has-update j k [] = refl
    has-update j k (x ∷ xs) = ground (arith, has-update j k xs, keeps x)

    pub lookup-update :
        (j k : K) (xs : List A)
        → lookup j (update k f xs) ≡ (if k == j then Option.map f (lookup j xs) else lookup j xs)
    lookup-update j k [] = ground arith
    lookup-update j k (x ∷ xs) =
        ground (arith, lookup-update j k xs, keeps x, same_both (key x) j k, same_right (key x) j k)

    pub Unique-update : (k : K) (xs : List A) → Unique xs → Unique (update k f xs)
    Unique-update k [] u = tt
    Unique-update k (x ∷ xs) (h, u) =
        ground (
          arith,
          Unique-update k xs u,
          has-update (key x) k xs,
          keeps x,
          has-update (key (f x)) k xs,
        )
