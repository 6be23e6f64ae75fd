-- ===== src/Checkpoints/Form.antt =====
-- useCheckpointManagement.ts: the form's fields, the request they become, and the fields that
-- editing a checkpoint fills. The browser's conversions are a parameter, `Browser`.
pub mod Unedited
use platform_rally_extension.Base.{
  ℕ, String, Bool, true, false, ◌||◌, not, if◌then◌else◌, ◌==◌, Same-nat, Same-text, Option, none,
  some, get_or,
}

-- `F` is the type of numbers with a fraction, `T` that of instants, `M` that of time spans.
pub record Browser (F T M : Type 0) : Type 0 where
  pub trim : String → String
  -- `Number.parseFloat`, and `Number.prototype.toString`
  pub parse_float : String → F
  pub show_float : F → String
  -- `Number.parseInt(…, 10)`, and `String` of a whole number
  pub parse_int : String → ℕ
  pub show_int : ℕ → String
  -- `new Date(…)`, nothing where its `getTime()` is not a number
  pub parse_date : String → Option T
  pub to_iso_string : T → String
  -- `getTimezoneOffset() * 60_000`, and the instant that many milliseconds earlier
  pub offset_ms : T → M
  pub minus : T → M → T
  -- `.slice(0, 16)`
  pub slice_16 : String → String

pub record CheckpointForm : Type 0 where
  pub name : String
  pub description : Option String
  pub latitude : Option String
  pub longitude : Option String
  pub arrival_radius_m : ℕ
  pub order : ℕ
  pub clue : Option String
  pub clue_media_url : Option String
  pub staff_script : Option String
  pub challenge_brief : Option String
  pub is_draft : Bool
  pub is_placeholder : Bool
  pub stage_id : Option String
  pub available_from : Option String
  pub available_until : Option String

pub record CheckPointCreate (F : Type 0) : Type 0 where
  pub name : String
  pub description : Option String
  pub latitude : Option F
  pub longitude : Option F
  pub arrival_radius_m : ℕ
  pub order : ℕ
  pub clue : Option String
  pub clue_media_url : Option String
  pub staff_script : Option String
  pub challenge_brief : Option String
  pub is_draft : Bool
  pub is_placeholder : Bool
  pub stage_id : Option ℕ
  pub available_from : Option String
  pub available_until : Option String

-- The fields of `AdminCheckPoint` that the page reads; `null` and `undefined` are nothing.
pub record Checkpoint (F : Type 0) : Type 0 where
  pub id : ℕ
  pub name : String
  pub description : Option String
  pub latitude : Option F
  pub longitude : Option F
  pub arrival_radius_m : Option ℕ
  pub order : ℕ
  pub clue : Option String
  pub clue_media_url : Option String
  pub staff_script : Option String
  pub challenge_brief : Option String
  pub is_draft : Option Bool
  pub is_placeholder : Option Bool
  pub stage_id : Option ℕ
  pub available_from : Option String
  pub available_until : Option String

-- The form's `defaultValues`.
abbrev pub blank : CheckpointForm
blank = record {
  name = "";
  description = some "";
  latitude = some "";
  longitude = some "";
  arrival_radius_m = 50;
  order = 1;
  clue = some "";
  clue_media_url = some "";
  staff_script = some "";
  challenge_brief = some "";
  is_draft = false;
  is_placeholder = false;
  stage_id = some "";
  available_from = some "";
  available_until = some "";
}

-- `value ? f(value) : null` for a text that can be missing.
abbrev pub unless_empty {ℓ} : {A : Type ℓ} → (String → A) → Option String → Option A
unless_empty f none = none
unless_empty f (some s) = if s == "" then none else some (f s)

-- `n ? f(n) : ""` for a number that can be missing.
abbrev pub unless_zero : (ℕ → String) → Option ℕ → String
unless_zero f none = ""
unless_zero f (some n) = if n == 0 then "" else f n

-- `x?.toString() || ""`
abbrev pub shown : {A : Type 0} → (A → String) → Option A → String
shown f none = ""
shown f (some a) = f a

module _ {F T M : Type 0} (js : Browser F T M) where
  unfoldable pub optional_text : Option String → Option String
  optional_text none = none
  optional_text (some s) = if js.trim s == "" then none else some (js.trim s)

  abbrev pub iso_of : Option T → Option String
  iso_of none = none
  iso_of (some t) = some (js.to_iso_string t)

  abbrev pub wall_clock_of : Option T → String
  wall_clock_of none = ""
  wall_clock_of (some t) = js.slice_16 (js.to_iso_string (js.minus t (js.offset_ms t)))

  unfoldable pub optional_timestamp : Option String → Option String
  optional_timestamp none = none
  optional_timestamp (some s) = if js.trim s == "" then none else iso_of (js.parse_date s)

  unfoldable pub to_local_input_value : Option String → String
  to_local_input_value none = ""
  to_local_input_value (some iso) = if iso == "" then "" else wall_clock_of (js.parse_date iso)

  unfoldable pub to_request_body : CheckpointForm → CheckPointCreate F
  to_request_body form = record {
    name = form.name;
    description = form.description;
    latitude = unless_empty js.parse_float form.latitude;
    longitude = unless_empty js.parse_float form.longitude;
    arrival_radius_m = form.arrival_radius_m;
    order = form.order;
    clue = optional_text form.clue;
    clue_media_url = optional_text form.clue_media_url;
    staff_script = optional_text form.staff_script;
    challenge_brief = optional_text form.challenge_brief;
    is_draft = form.is_draft;
    is_placeholder = form.is_placeholder;
    stage_id = unless_empty js.parse_int form.stage_id;
    available_from = optional_timestamp form.available_from;
    available_until = optional_timestamp form.available_until;
  }

  -- The values that `startEditCheckpoint` sets.
  unfoldable pub edit_values : Checkpoint F → CheckpointForm
  edit_values c = record {
    name = c.name;
    description = some (get_or c.description "");
    latitude = some (shown js.show_float c.latitude);
    longitude = some (shown js.show_float c.longitude);
    arrival_radius_m = get_or c.arrival_radius_m 50;
    order = if c.order == 0 then 1 else c.order;
    clue = some (get_or c.clue "");
    clue_media_url = some (get_or c.clue_media_url "");
    staff_script = some (get_or c.staff_script "");
    challenge_brief = some (get_or c.challenge_brief "");
    is_draft = get_or c.is_draft false;
    is_placeholder = get_or c.is_placeholder false;
    stage_id = some (unless_zero js.show_int c.stage_id);
    available_from = some (to_local_input_value c.available_from);
    available_until = some (to_local_input_value c.available_until);
  }
