-- ===== src/Base/Tests.antt =====
-- Boolean tests, the conditional, and equality tests by instances (JavaScript's `===` on numbers
-- and on strings).
use Prim.Native.Nat.{ℕ, compare, Ordering}
use Prim.Native.String.{String}
use mathlib.Core.Path.{◌≡◌, refl}
use mathlib.Core.Logic.{◌≢◌, ◌↔◌, ◌⊎◌, inl, inr}
use mathlib.Core.Bool.{Bool, true, false}
use mathlib.Core.Option.{Option, none, some}
use native.Mathlib.Omega.{arith}
use text.Mathlib.Text.{◌==◌ as text_eq}
use text.Mathlib.TextEquality.{eq_iff}

abbrev pub ltb : ℕ → ℕ → Bool
ltb a b = elim (compare a b) [ Ordering.lt ↦ true | _ ↦ false ]

abbrev pub leb : ℕ → ℕ → Bool
leb a b = elim (compare a b) [ Ordering.gt ↦ false | _ ↦ true ]

abbrev pub nat_eq : ℕ → ℕ → Bool
nat_eq a b = elim (compare a b) [ Ordering.eq ↦ true | _ ↦ false ]

infix 1 if◌then◌else◌
abbrev pub if◌then◌else◌ {ℓ} : {A : Type ℓ} → Bool → A → A → A
if true then x else y = x
if false then x else y = y

pub nat_eq_iff : (a b : ℕ) → (nat_eq a b ≡ true) ↔ (a ≡ b)
nat_eq_iff a b = ground arith

-- Types whose values the source compares by `===`.
pub record Same (A : Type 0) : Type 0 where
  pub same : A → A → Bool
  pub same_iff : (a b : A) → (same a b ≡ true) ↔ (a ≡ b)

infix 50 ◌==◌
abbrev pub ◌==◌ : {A : Type 0} ⦃s : Same A⦄ → A → A → Bool
◌==◌ ⦃s⦄ = s.same

instance abbrev pub Same-nat : Same ℕ
Same-nat = record { same = nat_eq; same_iff = nat_eq_iff }

instance abbrev pub Same-text : Same String
Same-text = record { same = text_eq; same_iff = eq_iff }

pub Bool-cases : (b : Bool) → (b ≡ true) ⊎ (b ≡ false)
Bool-cases true = inl refl
Bool-cases false = inr refl

pub Option-cases {ℓ} : {A : Type ℓ} (o : Option A) → (o ≡ none) ⊎ ((a : A) × (o ≡ some a))
Option-cases none = inl refl
Option-cases (some a) = inr (a, refl)

module _ {A : Type 0} ⦃s : Same A⦄ where
  pub same_refl : (a : A) → (a == a) ≡ true
  same_refl a = (s.same_iff a a).1 refl

  pub same_of_eq : {a b : A} → a ≡ b → (a == b) ≡ true
  same_of_eq {a} {b} e = (s.same_iff a b).1 e

  pub eq_of_same : (a b : A) → (a == b) ≡ true → a ≡ b
  eq_of_same a b h = (s.same_iff a b).0 h

  pub not_same_of_ne : (a b : A) → a ≢ b → (a == b) ≡ false
  not_same_of_ne a b h = elim (Bool-cases (a == b)) [
    | inl e ↦ absurd (h (eq_of_same a b e))
    | inr e ↦ e
  ]

  pub ne_of_not_same : (a b : A) → (a == b) ≡ false → a ≢ b
  ne_of_not_same a b h e = cc (same_of_eq e)
