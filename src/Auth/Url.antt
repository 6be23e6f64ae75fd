-- ===== src/Auth/Url.antt =====
-- `toRouterPath` of web-rally/src/lib/url.ts. Paths are lists of UTF-16 units; 47 is the slash.
use platform_rally_extension.Base.{
  ℕ, zero, suc, ◌≡◌, refl, Bool, true, false, ◌&&◌, ◌||◌, not, if◌then◌else◌, ◌==◌, Same-nat, List,
  [], ◌∷◌, ◌++◌, length, same_refl,
}

abbrev pub same_path : List ℕ → List ℕ → Bool
same_path [] [] = true
same_path [] (y ∷ ys) = false
same_path (x ∷ xs) [] = false
same_path (x ∷ xs) (y ∷ ys) = (x == y) && same_path xs ys

-- `xs.startsWith(prefix)`
abbrev pub starts_with : List ℕ → List ℕ → Bool
starts_with xs [] = true
starts_with [] (p ∷ ps) = false
starts_with (x ∷ xs) (p ∷ ps) = (x == p) && starts_with xs ps

-- `xs.slice(n)`
abbrev pub slice : List ℕ → ℕ → List ℕ
slice xs zero = xs
slice [] (suc n) = []
slice (x ∷ xs) (suc n) = slice xs n

abbrev pub slash : List ℕ
slash = 47 ∷ []

abbrev pub is_root : List ℕ → Bool
is_root base = same_path base [] || same_path base slash

unfoldable pub to_router_path : List ℕ → List ℕ → List ℕ
to_router_path path base =
    if is_root base
    then path
    else if same_path path base
    then slash
    else if not (starts_with path (base ++ slash))
    then path
    else slice path (length base)

pub starts_with-slash : (xs ys : List ℕ) → starts_with (xs ++ 47 ∷ ys) (xs ++ slash) ≡ true
starts_with-slash [] ys = refl
starts_with-slash (x ∷ xs) ys = rw (same_refl x) (starts_with-slash xs ys)

same_path-longer : (xs : List ℕ) (y : ℕ) (ys : List ℕ) → same_path (xs ++ y ∷ ys) xs ≡ false
same_path-longer [] y ys = refl
same_path-longer (x ∷ xs) y ys = rw (same_refl x) (same_path-longer xs y ys)

slice-append : (xs ys : List ℕ) → slice (xs ++ ys) (length xs) ≡ ys
slice-append [] ys = refl
slice-append (x ∷ xs) ys = slice-append xs ys

pub same_path_refl : (xs : List ℕ) → same_path xs xs ≡ true
same_path_refl [] = refl
same_path_refl (x ∷ xs) = rw (same_refl x) (same_path_refl xs)

-- What the router prepends is taken off again: a path below the base is what follows the base, and
-- the base itself is the root.
pub to_router_path-append :
    (base rest : List ℕ)
    → is_root base ≡ false
    → (to_router_path (base ++ 47 ∷ rest) base ≡ 47 ∷ rest) × (to_router_path base base ≡ slash)
unfolding to_router_path
to_router_path-append base rest h = (
  rw (h, same_path-longer base 47 rest, starts_with-slash base rest)
      (slice-append base (47 ∷ rest)),
  rw (h, same_path_refl base) refl,
)
