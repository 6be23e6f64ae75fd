-- ===== src/Scoring/Penalties/RoundTrip.antt =====
-- Counts that are stored as points and read back, and the rates of the counters.
use mathlib.Core.Path.{subst}
use platform_rally_extension.Base.{
  String, ◌≡◌, refl, sym, ap, ◌∙◌, true, false, if◌then◌else◌, ◌==◌, Same-text, Option, none, some,
  List, [], ◌∷◌, inl, inr, Bool-cases, arith, eq_of_same, same_of_eq, not_same_of_ne,
  ne_of_not_same,
}
use platform_rally_extension.Base.Keyed.{has, Unique}
use platform_rally_extension.Scoring.Penalties.{
  Numbers, PenaltyCounterConfig, Counts, key_of, get, put, build_penalty_rates, rate_of,
  counts_to_points, count_of, points_to_counts,
}

module _ {N : Type 0} where
  get-put :
      (j k : String) (v : N) (entries : Counts N)
      → get j (put k v entries) ≡ (if k == j then some v else get j entries)
  get-put j k v [] = elim (Bool-cases (k == j)) [ inl b ↦ rw b refl | inr b ↦ rw b refl ]
  get-put j k v ((i, w) ∷ rest) = elim (Bool-cases (i == k)) [
    | inl b ↦ elim (Bool-cases (k == j)) [
      | inl d ↦
          let both : (i == j) ≡ true = same_of_eq (eq_of_same i k b ∙ eq_of_same k j d) in
          rw (b, d, both) refl
      | inr d ↦
          let both : (i == j) ≡ false = sym (ap (λ x. x == j) (sym (eq_of_same i k b))) ∙ d in
          rw (b, d, both) refl
    ]
    | inr b ↦ elim (Bool-cases (i == j)) [
      | inl d ↦
          let apart : (k == j) ≡ false =
            not_same_of_ne k j (λ e. ne_of_not_same i k b (eq_of_same i j d ∙ sym e)) in
          rw (b, apart, d) refl
      | inr d ↦ rw (b, d) (get-put j k v rest)
    ]
  ]

module _ {N : Type 0} (num : Numbers N) where
  -- What one count becomes on its way through the points.
  abbrev pub shown_again : Counts N → String → N → Option N
  shown_again rates k count =
      if num.is_falsy count
      then none
      else some (count_of num (get k rates) (num.mul count (rate_of num rates k)))

  abbrev pub through : Counts N → String → Option N → Option N
  through rates k none = none
  through rates k (some count) = shown_again rates k count

  has-round_trip :
      (k : String) (counts rates : Counts N)
      → has key_of k counts ≡ false
      → get k (points_to_counts num (counts_to_points num counts rates) rates) ≡ none
  unfolding counts_to_points points_to_counts
  has-round_trip k [] rates h = refl
  has-round_trip k ((j, c) ∷ rest) rates h =
      let other : (j == k) ≡ false = ground arith in
      let none_left : has key_of k rest ≡ false = ground arith in
      elim (Bool-cases (num.is_falsy c)) [
        | inl f ↦ rw f (has-round_trip k rest rates none_left)
        | inr f ↦ rw (f, other) (has-round_trip k rest rates none_left)
      ]

  round_trip :
      (k : String) (counts rates : Counts N)
      → Unique key_of counts
      → get k (points_to_counts num (counts_to_points num counts rates) rates)
        ≡ through rates k (get k counts)
  unfolding counts_to_points points_to_counts
  round_trip k [] rates u = refl
  round_trip k ((j, c) ∷ rest) rates (h, u) = elim (Bool-cases (j == k)) [
    | inl b ↦
        let absent : has key_of k rest ≡ false =
          subst (λ i. has key_of i rest ≡ false) (eq_of_same j k b) h in
        let same : j ≡ k = eq_of_same j k b in
        elim (Bool-cases (num.is_falsy c)) [
          | inl f ↦ rw (f, b, f) (has-round_trip k rest rates absent)
          | inr f ↦
              rw (f, b, f)
                (ap (λ i. some (count_of num (get i rates) (num.mul c (rate_of num rates i)))) same)
        ]
    | inr b ↦ elim (Bool-cases (num.is_falsy c)) [
      | inl f ↦ rw (f, b) (round_trip k rest rates u)
      | inr f ↦ rw (f, b) (round_trip k rest rates u)
    ]
  ]

  -- Among counts without repeated keys, a count that the arithmetic multiplies and divides back
  -- exactly by its counter's rate, which is not 0, is shown again as it was entered; a count of
  -- nothing is not stored.
  pub points_to_counts-counts_to_points :
      (k : String) (count rate : N) (counts rates : Counts N)
      → Unique key_of counts
      → get k counts ≡ some count
      → get k rates ≡ some rate
      → num.is_falsy rate ≡ false
      → num.div (num.mul count rate) rate ≡ count
      → get k (points_to_counts num (counts_to_points num counts rates) rates)
        ≡ (if num.is_falsy count then none else some count)
  points_to_counts-counts_to_points k count rate counts rates u ec er nz exact =
      round_trip k counts rates u ∙ rw (ec, er, nz, exact) refl

  -- The rate of the last counter with a key, if there is one.
  abbrev pub last_rate : String → List (PenaltyCounterConfig N) → Option N → Option N
  last_rate k [] o = o
  last_rate k (c ∷ cs) o = last_rate k cs (if c.key == k then some (num.abs c.points) else o)

  -- An activity's own counter takes the place of a built-in rate with its key, the last such counter
  -- wins, its points count without their sign, and every other rate stays.
  pub build_penalty_rates_lem :
      (k : String) (rates : Counts N) (custom : List (PenaltyCounterConfig N))
      → get k (build_penalty_rates num rates custom) ≡ last_rate k custom (get k rates)
  unfolding build_penalty_rates
  build_penalty_rates_lem k rates [] = refl
  build_penalty_rates_lem k rates (c ∷ cs) =
      build_penalty_rates_lem k (put c.key (num.abs c.points) rates) cs
      ∙ ap (last_rate k cs) (get-put k c.key (num.abs c.points) rates)
