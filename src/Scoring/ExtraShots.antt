-- ===== src/Scoring/ExtraShots.antt =====
-- web-rally/src/hooks/useExtraShotsAndPenalties.ts with `getTeamSize` of types/forms.ts and
-- `hasDrinkingMechanics` of lib/eventTerms.ts: the extra shots and penalties of an evaluation form.
-- What the settings say about shots and penalties is an input, `Rules`.
pub mod Resubmit
use platform_rally_extension.Base.{
  ℕ, ◌*◌, String, Bool, true, false, ◌&&◌, ◌||◌, not, if◌then◌else◌, ◌==◌, Same-text, ltb, Option,
  none, some, get_or, List, [], ◌∷◌, length,
}
use platform_rally_extension.Scoring.Penalties.{
  Numbers, PenaltyCounterConfig, Counts, build_penalty_rates, counts_to_points, points_to_counts,
}

-- `getExtraShotsConfig` and `getPenaltyValues` of the settings, and their `event_type`.
pub record Rules (N : Type 0) : Type 0 where
  pub per_member : ℕ
  pub vomit : N
  pub not_drinking : N
  pub event_type : Option String

-- A team as a list gives it, by its number of members, or with its members, or with neither.
pub data Team (M : Type 0) : Type 0 where
  listing : ℕ → Team M
  detailed : List M → Team M
  bare : Team M

unfoldable pub get_team_size : {M : Type 0} → Option (Team M) → ℕ
get_team_size none = 1
get_team_size (some (listing num_members)) = num_members
get_team_size (some (detailed members)) = length members
get_team_size (some bare) = 1

-- The fields of a stored result that are read.
pub record ExistingResult (N : Type 0) : Type 0 where
  pub extra_shots : Option ℕ
  pub penalties : Option (Counts N)

pub record Form (N : Type 0) : Type 0 where
  pub extra_shots : ℕ
  pub penalties : Counts N

unfoldable pub has_drinking_mechanics : Option String → Bool
has_drinking_mechanics none = true
has_drinking_mechanics (some t) = not (t == "peddy_paper")

module _ {N : Type 0} (num : Numbers N) where
  abbrev pub empty_form : Form N
  empty_form = record { extra_shots = 0; penalties = [] }

  unfoldable pub rates_of : Rules N → List (PenaltyCounterConfig N) → Counts N
  rates_of rules counters =
      build_penalty_rates num
        (("vomit", num.abs rules.vomit) ∷ ("not_drinking", num.abs rules.not_drinking) ∷ [])
        counters

  -- The effect that follows another result to edit; `n || 0` is the number itself here.
  unfoldable pub on_existing_result : Counts N → Option (ExistingResult N) → Form N → Form N
  on_existing_result rates none form = form
  on_existing_result rates (some r) form = record {
    extra_shots = get_or r.extra_shots 0;
    penalties = points_to_counts num (get_or r.penalties []) rates;
  }

  unfoldable pub penalties_in_points : Counts N → Form N → Counts N
  penalties_in_points rates form = counts_to_points num form.penalties rates

  unfoldable pub max_extra_shots : Rules N → ℕ → ℕ
  max_extra_shots rules team_size = team_size * rules.per_member

  unfoldable pub show_extra_shots : Rules N → ℕ → Bool
  show_extra_shots rules team_size =
      has_drinking_mechanics rules.event_type && ltb 0 (max_extra_shots rules team_size)

  -- `value !== 0`; `is_zero` is that test's negation.
  unfoldable pub show_penalties : (N → Bool) → Rules N → List (PenaltyCounterConfig N) → Bool
  show_penalties is_zero rules counters =
      let drinking = has_drinking_mechanics rules.event_type in
      drinking && not (is_zero rules.vomit)
      || drinking && not (is_zero rules.not_drinking)
      || ltb 0 (length counters)

  unfoldable pub validate_extra_shots : Rules N → ℕ → Form N → Bool
  validate_extra_shots rules team_size form =
      if ltb (max_extra_shots rules team_size) form.extra_shots then false else true
