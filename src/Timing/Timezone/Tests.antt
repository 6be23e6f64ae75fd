-- ===== src/Timing/Timezone/Tests.antt =====
-- One date, in a calendar whose numbers are digits.
use platform_rally_extension.Base.{
  ℕ, ◌+◌, ◌-◌, ◌≡◌, refl, true, if◌then◌else◌, ◌==◌, Same-nat, Option, none, some, List, [], ◌∷◌,
  any,
}
use platform_rally_extension.Timing.Timezone.{
  Calendar, returned, local_datetime_local_to_utc_iso_string,
  utc_iso_string_to_local_datetime_local,
}
use platform_rally_extension.Timing.Timezone.RoundTrip.{HasPlainFields, utc_iso_string_round_trip}

-- `Number` for texts of one digit, after zeros.
abbrev value : List ℕ → Option ℕ
value (c ∷ []) = some (c - 48)
value (z ∷ c ∷ []) = if z == 48 then some (c - 48) else none
value _ = none

-- A date is its day of the month, whose UTC text is the letter "Z" after the day.
abbrev days : Calendar ℕ ℕ
days = record {
  date = λ text. elim text [ [] ↦ none | c ∷ cs ↦ some (c - 48) ];
  make = λ y m d h i. some d;
  to_iso_string = λ t. (t + 48) ∷ 90 ∷ [];
  year = λ t. 6;
  month = λ t. 3;
  day = λ t. t;
  hours = λ t. 9;
  minutes = λ t. 5;
  digits = λ n. (n + 48) ∷ [];
  number = value;
  includes_z = any (λ c. c == 90);
  is_local = λ text. true;
}

fourth : HasPlainFields days 4
fourth = record {
  year = record {
    there = refl;
    no_dash = refl;
    no_t = refl;
    no_colon = refl;
    reads = refl;
    reads_padded = refl;
  };
  month = record {
    there = refl;
    no_dash = refl;
    no_t = refl;
    no_colon = refl;
    reads = refl;
    reads_padded = refl;
  };
  day = record {
    there = refl;
    no_dash = refl;
    no_t = refl;
    no_colon = refl;
    reads = refl;
    reads_padded = refl;
  };
  hours = record {
    there = refl;
    no_dash = refl;
    no_t = refl;
    no_colon = refl;
    reads = refl;
    reads_padded = refl;
  };
  minutes = record {
    there = refl;
    no_dash = refl;
    no_t = refl;
    no_colon = refl;
    reads = refl;
    reads_padded = refl;
  };
}

utc_iso_string_example :
    local_datetime_local_to_utc_iso_string days
      (utc_iso_string_to_local_datetime_local days (some (52 ∷ 90 ∷ [])))
    ≡ returned (some (52 ∷ 90 ∷ []))
utc_iso_string_example = utc_iso_string_round_trip days 4 fourth refl refl refl
