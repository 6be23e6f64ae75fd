-- ===== src/Navigation/ActiveRoute.antt =====
-- web-rally/src/components/shared/navigation/activeRoute.ts. Paths are lists of UTF-16 units, as in
-- Auth.Url; 47 is the slash.
use mathlib.Core.Path.{subst}
use platform_rally_extension.Base.{
  ℕ, ◌≡◌, ◌↔◌, ◌⊎◌, inl, inr, refl, sym, ◌∙◌, ap, ◌&&◌, Bool, true, false, ◌||◌, if◌then◌else◌,
  Same-nat, List, [], ◌∷◌, ◌++◌, any, Bool-cases, eq_of_same, arith,
}
use platform_rally_extension.Auth.Url.{
  same_path, starts_with, slash, starts_with-slash, same_path_refl,
}

unfoldable pub matches_route : List ℕ → List ℕ → Bool
matches_route pathname candidate =
    if same_path candidate slash
    then same_path pathname slash
    else same_path pathname candidate || starts_with pathname (candidate ++ slash)

unfoldable pub is_nav_item_active : List ℕ → List ℕ → List (List ℕ) → Bool
is_nav_item_active pathname href aliases = any (matches_route pathname) (href ∷ aliases)

and_true : {a b : Bool} → (a && b) ≡ true → (a ≡ true) × (b ≡ true)
and_true h = ground arith

eq_of_same_path : (xs ys : List ℕ) → same_path xs ys ≡ true → xs ≡ ys
eq_of_same_path [] [] h = refl
eq_of_same_path [] (y ∷ ys) h = cc h
eq_of_same_path (x ∷ xs) [] h = cc h
eq_of_same_path (x ∷ xs) (y ∷ ys) h =
    let (e, es) = and_true h in
    let p : x ≡ y = eq_of_same x y e in let q : xs ≡ ys = eq_of_same_path xs ys es in cc

split_of_starts_with :
    (xs ys : List ℕ)
    → starts_with xs (ys ++ slash) ≡ true
    → (rest : List ℕ) × (xs ≡ ys ++ 47 ∷ rest)
split_of_starts_with [] [] h = cc h
split_of_starts_with [] (y ∷ ys) h = cc h
split_of_starts_with (x ∷ xs) [] h =
    let (e, _) = and_true h in let p : x ≡ 47 = eq_of_same x 47 e in (xs, ap (λ c. c ∷ xs) p)
split_of_starts_with (x ∷ xs) (y ∷ ys) h =
    let (e, es) = and_true h in
    let p : x ≡ y = eq_of_same x y e in let (rest, q) = split_of_starts_with xs ys es in (rest, cc)

-- The pathname is the candidate, or, unless that is the root, lies below it.
abbrev pub IsAtOrBelow : List ℕ → List ℕ → Type 0
IsAtOrBelow pathname candidate =
    (pathname ≡ candidate)
    ⊎ ((same_path candidate slash ≡ false)
        × ((rest : List ℕ) × (pathname ≡ candidate ++ 47 ∷ rest)))

or_cases : (a b : Bool) → (a || b) ≡ true → (a ≡ true) ⊎ (b ≡ true)
or_cases true b h = inl refl
or_cases false b h = inr h

matches_route-IsAtOrBelow :
    (pathname candidate : List ℕ)
    → matches_route pathname candidate ≡ true
    → IsAtOrBelow pathname candidate
unfolding matches_route
matches_route-IsAtOrBelow pathname candidate h = elim (Bool-cases (same_path candidate slash)) [
  | inl root ↦
      let c : candidate ≡ slash = eq_of_same_path candidate slash root in
      let p : pathname ≡ slash = eq_of_same_path pathname slash (rw root at h) in inl (p ∙ sym c)
  | inr deep ↦
      let either = or_cases (same_path pathname candidate) _ (rw deep at h) in
      elim either [
        | inl same ↦ inl (eq_of_same_path pathname candidate same)
        | inr below ↦ inr (deep, split_of_starts_with pathname candidate below)
      ]
]

IsAtOrBelow-matches_route :
    (pathname candidate : List ℕ)
    → IsAtOrBelow pathname candidate
    → matches_route pathname candidate ≡ true
unfolding matches_route
IsAtOrBelow-matches_route pathname candidate (inl p) =
    subst (λ l. matches_route l candidate ≡ true) (sym p) (itself candidate)
  where
    itself : (l : List ℕ) → matches_route l l ≡ true
    itself l = elim (Bool-cases (same_path l slash)) [
      | inl root ↦ rw root refl
      | inr deep ↦ rw (deep, same_path_refl l) refl
    ]
IsAtOrBelow-matches_route pathname candidate (inr (deep, (rest, p))) =
    rw (deep, p, starts_with-slash candidate rest) (or_true _)
  where
    or_true : (b : Bool) → (b || true) ≡ true
    or_true true = refl
    or_true false = refl

-- A candidate lights up for its own path and for the paths of the segments below it, and the root for
-- its own path only; for no other path.
pub matches_route_iff :
    (pathname candidate : List ℕ)
    → (matches_route pathname candidate ≡ true) ↔ IsAtOrBelow pathname candidate
matches_route_iff pathname candidate =
    (matches_route-IsAtOrBelow pathname candidate, IsAtOrBelow-matches_route pathname candidate)
