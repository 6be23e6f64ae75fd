-- ===== src/Scoring/ExtraShots/Resubmit.antt =====
-- What an evaluation that is opened again and submitted untouched sends.
use mathlib.Core.Path.{subst}
use platform_rally_extension.Base.{
  String, ◌≡◌, refl, ap, ◌∙◌, true, false, if◌then◌else◌, ◌==◌, Same-text, Option, none, some, [],
  ◌∷◌, inl, inr, Bool-cases, arith, eq_of_same, ℕ,
}
use platform_rally_extension.Base.Keyed.{has, Unique}
use platform_rally_extension.Scoring.Penalties.{
  Numbers, Counts, key_of, get, rate_of, counts_to_points, count_of, points_to_counts,
}
use platform_rally_extension.Scoring.ExtraShots.{Form, on_existing_result, penalties_in_points}

module _ {N : Type 0} (num : Numbers N) where
  -- What some points become on their way through the count.
  abbrev pub stored_again : Counts N → String → N → Option N
  stored_again rates k total =
      if num.is_falsy (count_of num (get k rates) total)
      then none
      else some (num.mul (count_of num (get k rates) total) (rate_of num rates k))

  abbrev pub again : Counts N → String → Option N → Option N
  again rates k none = none
  again rates k (some total) = stored_again rates k total

  has-again :
      (k : String) (points rates : Counts N)
      → has key_of k points ≡ false
      → get k (counts_to_points num (points_to_counts num points rates) rates) ≡ none
  unfolding counts_to_points points_to_counts
  has-again k [] rates h = refl
  has-again k ((j, t) ∷ rest) rates h =
      let other : (j == k) ≡ false = ground arith in
      let none_left : has key_of k rest ≡ false = ground arith in
      elim (Bool-cases (num.is_falsy (count_of num (get j rates) t))) [
        | inl f ↦ rw f (has-again k rest rates none_left)
        | inr f ↦ rw (f, other) (has-again k rest rates none_left)
      ]

  get-again :
      (k : String) (points rates : Counts N)
      → Unique key_of points
      → get k (counts_to_points num (points_to_counts num points rates) rates)
        ≡ again rates k (get k points)
  unfolding counts_to_points points_to_counts
  get-again k [] rates u = refl
  get-again k ((j, t) ∷ rest) rates (h, u) = elim (Bool-cases (j == k)) [
    | inl b ↦
        let same : j ≡ k = eq_of_same j k b in
        let absent : has key_of k rest ≡ false = subst (λ i. has key_of i rest ≡ false) same h in
        elim (Bool-cases (num.is_falsy (count_of num (get j rates) t))) [
          | inl f ↦
              let f' : num.is_falsy (count_of num (get k rates) t) ≡ true =
                subst (λ i. num.is_falsy (count_of num (get i rates) t) ≡ true) same f in
              rw (f, b, f') (has-again k rest rates absent)
          | inr f ↦
              let f' : num.is_falsy (count_of num (get k rates) t) ≡ false =
                subst (λ i. num.is_falsy (count_of num (get i rates) t) ≡ false) same f in
              rw (f, b, f')
                (ap (λ i. some (num.mul (count_of num (get i rates) t) (rate_of num rates i))) same)
        ]
    | inr b ↦ elim (Bool-cases (num.is_falsy (count_of num (get j rates) t))) [
      | inl f ↦ rw (f, b) (get-again k rest rates u)
      | inr f ↦ rw (f, b) (get-again k rest rates u)
    ]
  ]

  -- In a stored evaluation without repeated keys, points that count and stand under a key without
  -- a rate, as of a counter that was deleted, are submitted untouched as their product with zero.
  pub unknown_rate-resubmits :
      (k : String) (total : N) (points rates : Counts N) (shots : Option ℕ) (form : Form N)
      → Unique key_of points
      → get k points ≡ some total
      → get k rates ≡ none
      → num.is_falsy total ≡ false
      → get k (
          penalties_in_points num rates (
            on_existing_result num rates
              (some (record { extra_shots = shots; penalties = some points }))
              form))
        ≡ some (num.mul total num.zero)
  unfolding penalties_in_points on_existing_result
  unknown_rate-resubmits k total points rates shots form u et er counted =
      get-again k points rates u ∙ rw (et, er, counted) refl
