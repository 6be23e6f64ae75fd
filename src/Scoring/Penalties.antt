-- ===== src/Scoring/Penalties.antt =====
-- web-rally/src/lib/penaltyCounters.ts: counts of penalties, the points that they cost, and the
-- counters of an activity's configuration. `N` is the type of numbers with the arithmetic that is
-- used; a JavaScript object is the list of its entries, whose keys differ.
pub mod RoundTrip
use platform_rally_extension.Base.{
  String, Bool, true, false, ◌&&◌, not, if◌then◌else◌, ◌==◌, Same-text, Option, none, some, get_or,
  List, [], ◌∷◌, ◌++◌, map, filter,
}
use platform_rally_extension.Base.Keyed.{has, lookup}
use platform_rally_extension.Base.Value.{Value, null, text, number, array, items, prop, is_object}

pub record Numbers (N : Type 0) : Type 0 where
  pub zero : N
  -- whether the number counts as false: 0 or NaN
  pub is_falsy : N → Bool
  pub abs : N → N
  pub mul : N → N → N
  pub div : N → N → N

pub record PenaltyCounterConfig (N : Type 0) : Type 0 where
  pub key : String
  pub label : String
  pub points : N

abbrev pub Counts : Type 0 → Type 0
Counts N = List (String × N)

module _ {N : Type 0} where
  abbrev pub key_of : String × N → String
  key_of e = e.0

  abbrev pub value_of : Option (String × N) → Option N
  value_of none = none
  value_of (some (k, v)) = some v

  -- `object[key]`
  abbrev pub get : String → Counts N → Option N
  get k entries = value_of (lookup key_of k entries)

  -- `object[key] = value`
  abbrev pub put : String → N → Counts N → Counts N
  put k v [] = (k, v) ∷ []
  put k v ((j, w) ∷ rest) =
      let rest' = put k v rest in if j == k then (j, v) ∷ rest else (j, w) ∷ rest'

module _ {N : Type 0} (num : Numbers N) where
  unfoldable pub build_penalty_rates : Counts N → List (PenaltyCounterConfig N) → Counts N
  build_penalty_rates rates [] = rates
  build_penalty_rates rates (c ∷ cs) = build_penalty_rates (put c.key (num.abs c.points) rates) cs

  -- `rates[key] ?? 0`
  abbrev pub rate_of : Counts N → String → N
  rate_of rates k = get_or (get k rates) num.zero

  unfoldable pub counts_to_points : Counts N → Counts N → Counts N
  counts_to_points [] rates = []
  counts_to_points ((k, count) ∷ rest) rates =
      let points = counts_to_points rest rates in
      if num.is_falsy count then points else (k, num.mul count (rate_of rates k)) ∷ points

  -- `rate ? total / rate : total`
  abbrev pub count_of : Option N → N → N
  count_of none total = total
  count_of (some rate) total = if num.is_falsy rate then total else num.div total rate

  unfoldable pub points_to_counts : Counts N → Counts N → Counts N
  points_to_counts points rates = map (λ e. (e.0, count_of (get e.0 rates) e.1)) points

module _ {N : Type 0} where
  abbrev pub is_text : Value N → Bool
  is_text (text s) = true
  is_text _ = false

  abbrev pub is_number : Value N → Bool
  is_number (number n) = true
  is_number _ = false

  abbrev pub text_of : Value N → String
  text_of (text s) = s
  text_of _ = ""

  abbrev pub list_of : Value N → List (Value N)
  list_of (array vs) = items vs
  list_of _ = []

  abbrev pub is_counter : Value N → Bool
  is_counter item =
      is_object item
      && is_text (prop "key" item)
      && not (text_of (prop "key" item) == "")
      && is_text (prop "label" item)
      && is_number (prop "points" item)

  -- The counters are the configuration's own objects.
  unfoldable pub parse_penalty_counters : Value N → List (Value N)
  parse_penalty_counters config =
      if is_object config then filter is_counter (list_of (prop "penalty_counters" config)) else []
