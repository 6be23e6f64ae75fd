-- ===== src/Timing/Timezone.antt =====
-- web-rally/src/utils/timezone.ts: the values of `datetime-local` inputs and the UTC texts of the API.
-- Texts are lists of UTF-16 units: 45 is "-", 84 "T", 58 ":", 47 "/", 32 the space and 48 "0". `N` is
-- the type of numbers and `T` that of valid dates; `Date` and the numerals are the record `Calendar`.
pub mod RoundTrip
mod Tests
use platform_rally_extension.Base.{
  ℕ, zero, suc, ◌+◌, ◌-◌, ltb, Bool, true, false, ◌&&◌, ◌||◌, not, if◌then◌else◌, ◌==◌, Same-nat,
  Option, none, some, List, [], ◌∷◌, ◌++◌, length, any,
}

-- `date` is `new Date(text)` and `make` is `new Date(year, month - 1, day, hours, minutes)`, with none
-- for an invalid date; `month` is `getMonth() + 1`; `number` is `Number`, with none for a NaN;
-- `includes_z` is `includes("Z")`, and `is_local` the test of the regular expression.
pub record Calendar (N T : Type 0) : Type 0 where
  pub date : List ℕ → Option T
  pub make : N → N → N → N → N → Option T
  pub to_iso_string : T → List ℕ
  pub year : T → N
  pub month : T → N
  pub day : T → N
  pub hours : T → N
  pub minutes : T → N
  pub digits : N → List ℕ
  pub number : List ℕ → Option N
  pub includes_z : List ℕ → Bool
  pub is_local : List ℕ → Bool

-- `text.split(separator)`, for one unit.
abbrev pub split_rest : ℕ → List ℕ → List ℕ × List (List ℕ)
split_rest separator [] = ([], [])
split_rest separator (c ∷ cs) =
    let (part, parts) = split_rest separator cs in
    if c == separator then ([], part ∷ parts) else (c ∷ part, parts)

abbrev pub split : ℕ → List ℕ → List (List ℕ)
split separator text = let (part, parts) = split_rest separator text in part ∷ parts

-- What a function returns, or that it throws.
pub data Returned (A : Type 0) : Type 0 where
  returned : A → Returned A
  thrown : Returned A

-- A text that is neither null nor empty.
abbrev pub given : Option (List ℕ) → Bool
given none = false
given (some []) = false
given (some (c ∷ cs)) = true

-- `padStart(2, "0")`
abbrev pub pad_start : List ℕ → List ℕ
pad_start [] = 48 ∷ 48 ∷ []
pad_start (c ∷ []) = 48 ∷ c ∷ []
pad_start (c ∷ d ∷ cs) = c ∷ d ∷ cs

module _ {N T : Type 0} (calendar : Calendar N T) where
  -- `localDate.toISOString()`, which throws for an invalid date.
  abbrev pub iso_of : Option T → Returned (Option (List ℕ))
  iso_of none = thrown
  iso_of (some t) = returned (some (calendar.to_iso_string t))

  -- `parts.map(Number)`, where a NaN is none.
  abbrev pub numbers : List (List ℕ) → List (Option N)
  numbers [] = []
  numbers (part ∷ parts) = calendar.number part ∷ numbers parts

  -- The checks of the two lists of numbers, their destructuring, and the date.
  abbrev pub from_numbers : List (Option N) → List (Option N) → Returned (Option (List ℕ))
  from_numbers (some year ∷ some month ∷ some day ∷ []) (some hours ∷ some minutes ∷ []) =
      iso_of (calendar.make year month day hours minutes)
  from_numbers _ _ = returned none

  abbrev pub from_parts : List (List ℕ) → Returned (Option (List ℕ))
  from_parts (date_part ∷ time_part ∷ rest) =
      if given (some date_part) && given (some time_part)
      then from_numbers (numbers (split 45 date_part)) (numbers (split 58 time_part))
      else returned none
  from_parts _ = returned none

  unfoldable pub local_datetime_local_to_utc_iso_string :
      Option (List ℕ) → Returned (Option (List ℕ))
  local_datetime_local_to_utc_iso_string none = returned none
  local_datetime_local_to_utc_iso_string (some value) =
      if given (some value) then from_parts (split 84 value) else returned none

  abbrev pub pad : N → List ℕ
  pad n = pad_start (calendar.digits n)

  -- `${year}-${month}-${day}T${hours}:${minutes}`
  abbrev pub local_text : T → List ℕ
  local_text d =
      (calendar.digits (calendar.year d)
        ++ 45 ∷ (pad (calendar.month d) ++ 45 ∷ pad (calendar.day d)))
      ++ 84 ∷ (pad (calendar.hours d) ++ 58 ∷ pad (calendar.minutes d))

  abbrev pub text_of : Option T → Option (List ℕ)
  text_of none = none
  text_of (some d) = some (local_text d)

  unfoldable pub utc_iso_string_to_local_datetime_local : Option (List ℕ) → Option (List ℕ)
  utc_iso_string_to_local_datetime_local none = none
  utc_iso_string_to_local_datetime_local (some utc) =
      if given (some utc) then text_of (calendar.date utc) else none

  -- `now` is `new Date()`.
  unfoldable pub get_current_utc_iso_string : T → List ℕ
  get_current_utc_iso_string now = calendar.to_iso_string now

  unfoldable pub get_current_local_datetime_local : T → List ℕ
  get_current_local_datetime_local now = local_text now

  abbrev pub is_date : Option T → Bool
  is_date none = false
  is_date (some d) = true

  unfoldable pub is_valid_utc_iso_string : List ℕ → Bool
  is_valid_utc_iso_string str = is_date (calendar.date str) && calendar.includes_z str

  unfoldable pub is_valid_datetime_local_string : List ℕ → Bool
  is_valid_datetime_local_string str = is_date (calendar.date str) && calendar.is_local str

  -- The text "N/A", and `${month}/${day}/${year} ${hours}:${minutes}`.
  abbrev pub display_of : Option T → List ℕ
  display_of none = 78 ∷ 47 ∷ 65 ∷ []
  display_of (some d) =
      pad (calendar.month d)
      ++ 47 ∷ pad (calendar.day d)
      ++ 47 ∷ calendar.digits (calendar.year d)
      ++ 32 ∷ pad (calendar.hours d)
      ++ 58 ∷ pad (calendar.minutes d)

  unfoldable pub format_datetime_for_display : Option (List ℕ) → List ℕ
  format_datetime_for_display none = display_of none
  format_datetime_for_display (some datetime) =
      if given (some datetime) then display_of (calendar.date datetime) else display_of none

  unfoldable pub parse_datetime_local : Option (List ℕ) → Option T
  parse_datetime_local none = none
  parse_datetime_local (some str) = if given (some str) then calendar.date str else none

  -- For a valid date.
  unfoldable pub format_datetime_local : Option T → Option (List ℕ)
  format_datetime_local date = text_of date
