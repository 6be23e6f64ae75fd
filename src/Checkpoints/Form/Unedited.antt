-- ===== src/Checkpoints/Form/Unedited.antt =====
-- What saving a checkpoint sends when none of the form's fields was touched.
use platform_rally_extension.Base.{
  ℕ, String, ◌≡◌, ◌≢◌, refl, ap, false, Same-nat, Same-text, Option, none, some, get_or,
  not_same_of_ne,
}
use platform_rally_extension.Checkpoints.Form.{
  Browser, CheckPointCreate, Checkpoint, unless_empty, unless_zero, shown, optional_text, iso_of,
  optional_timestamp, to_local_input_value, to_request_body, edit_values,
}

module _ {F T M : Type 0} (js : Browser F T M) where
  -- What the conversions of ECMAScript promise: numbers are read back from their text, and a text
  -- of white space is the only one that is trimmed to nothing.
  pub record IsStandard : Type 0 where
    pub float_read : (x : F) → js.parse_float (js.show_float x) ≡ x
    pub float_shown : (x : F) → js.show_float x ≢ ""
    pub int_read : (n : ℕ) → js.parse_int (js.show_int n) ≡ n
    pub int_shown : (n : ℕ) → js.show_int n ≢ ""
    pub trim_empty : js.trim "" ≡ ""

  -- A text as this form saves one: missing, or trimmed already and not empty.
  unfoldable pub IsSavedText : Option String → Type 0
  IsSavedText none = Unit
  IsSavedText (some s) = (js.trim s ≡ s) × (s ≢ "")

  -- A window's end as this form saves one: missing, or an instant at a whole minute, whose local
  -- time is read back as that instant (so not one of an hour that a change of clocks repeats).
  unfoldable pub IsWindowEnd : Option String → Type 0
  IsWindowEnd none = Unit
  IsWindowEnd (some iso) =
      (iso ≢ "")
      × ((t : T) × (js.parse_date iso ≡ some t)
          × (js.trim (js.slice_16 (js.to_iso_string (js.minus t (js.offset_ms t)))) ≢ "")
          × (js.parse_date (js.slice_16 (js.to_iso_string (js.minus t (js.offset_ms t)))) ≡ some t))

  text-unedited :
      IsStandard → (o : Option String) → IsSavedText o → optional_text js (some (get_or o "")) ≡ o
  unfolding optional_text IsSavedText
  text-unedited std none h = rw (std.trim_empty) refl
  text-unedited std (some s) (t, ne) = rw (t, not_same_of_ne s "" ne) refl

  -- The instant of a timestamp as `toISOString` writes it.
  abbrev pub same_instant : Option String → Option String
  same_instant none = none
  same_instant (some iso) = iso_of js (js.parse_date iso)

  window-unedited :
      IsStandard
      → (o : Option String) → IsWindowEnd o
      → optional_timestamp js (some (to_local_input_value js o)) ≡ same_instant o
  unfolding optional_timestamp to_local_input_value IsWindowEnd
  window-unedited std none h = rw (std.trim_empty) refl
  window-unedited std (some iso) (ne, (t, p, ne', p')) =
      rw (not_same_of_ne iso "" ne, p, not_same_of_ne _ "" ne', p') refl

  number-unedited :
      IsStandard → (o : Option F) → unless_empty js.parse_float (some (shown js.show_float o)) ≡ o
  number-unedited std none = refl
  number-unedited std (some x) =
      rw (not_same_of_ne (js.show_float x) "" (std.float_shown x), std.float_read x) refl

  stage-unedited :
      IsStandard
      → (o : Option ℕ) → o ≢ some 0
      → unless_empty js.parse_int (some (unless_zero js.show_int o)) ≡ o
  stage-unedited std none ne = refl
  stage-unedited std (some n) ne =
      rw
        (
          not_same_of_ne n 0 (λ e. ne (ap some e)),
          not_same_of_ne (js.show_int n) "" (std.int_shown n),
          std.int_read n,
        )
        refl

  -- A checkpoint as a request of this form leaves it: ids and orders start at 1.
  pub record IsSaved (c : Checkpoint F) : Type 0 where
    pub order : c.order ≢ 0
    pub stage : c.stage_id ≢ some 0
    pub clue : IsSavedText c.clue
    pub media : IsSavedText c.clue_media_url
    pub script : IsSavedText c.staff_script
    pub brief : IsSavedText c.challenge_brief
    pub from : IsWindowEnd c.available_from
    pub until : IsWindowEnd c.available_until

  -- The checkpoint's own values; an empty description, a radius of 50 and false where they are missing,
  -- and the instants of the window as `toISOString` writes them.
  unfoldable pub own_values : Checkpoint F → CheckPointCreate F
  own_values c = record {
    name = c.name;
    description = some (get_or c.description "");
    latitude = c.latitude;
    longitude = c.longitude;
    arrival_radius_m = get_or c.arrival_radius_m 50;
    order = c.order;
    clue = c.clue;
    clue_media_url = c.clue_media_url;
    staff_script = c.staff_script;
    challenge_brief = c.challenge_brief;
    is_draft = get_or c.is_draft false;
    is_placeholder = get_or c.is_placeholder false;
    stage_id = c.stage_id;
    available_from = same_instant c.available_from;
    available_until = same_instant c.available_until;
  }

  -- In a browser whose numbers are read back from their texts, opening a checkpoint in the form
  -- and saving it untouched sends its own values and the instants of its window, with an empty
  -- description, a radius of 50 and false where the checkpoint has none: if its texts are trimmed and
  -- not empty, its order and its stage are not 0, and the ends of its window are read back from their
  -- local times.
  pub to_request_body-edit_values :
      IsStandard
      → (c : Checkpoint F) → IsSaved c
      → to_request_body js (edit_values js c) ≡ own_values c
  unfolding to_request_body edit_values own_values
  to_request_body-edit_values std c ok =
      rw
        (
          number-unedited std c.latitude,
          number-unedited std c.longitude,
          text-unedited std c.clue ok.clue,
          text-unedited std c.clue_media_url ok.media,
          text-unedited std c.staff_script ok.script,
          text-unedited std c.challenge_brief ok.brief,
          stage-unedited std c.stage_id ok.stage,
          window-unedited std c.available_from ok.from,
          window-unedited std c.available_until ok.until,
          not_same_of_ne c.order 0 ok.order,
        )
        refl
