-- ===== src/Badges/Form.antt =====
-- web-rally/src/pages/admin/components/badges/BadgeForm.tsx: the form of a badge, the request it
-- becomes and its submission. The conversions of texts are a parameter, `Browser`; `N` is the type
-- of numbers, and a request is an argument, by what it brings.
pub mod Unedited
pub mod Outcome
use platform_rally_extension.Base.{
  ℕ, String, Bool, true, false, ◌&&◌, ◌||◌, not, if◌then◌else◌, ◌==◌, Same-text, Option, none, some,
  get_or, List, [], ◌∷◌,
}
use platform_rally_extension.Base.Value.{
  Value, undefined, null, number, text, Fields, end, field, get_field,
}
use platform_rally_extension.Badges.Triggers.{
  Param, activity, checkpoint, NumberParam, TriggerMeta, key_text, trigger_meta, fallback_color,
}

pub record Browser (N : Type 0) : Type 0 where
  pub trim : String → String
  pub to_lower_case : String → String
  -- `Number` of a text, and `String` of a number
  pub to_number : String → N
  pub show : N → String

-- The fields of `BadgeDefinitionResponse` that the form reads; `null` and `undefined` are nothing.
pub record BadgeDefinition (N : Type 0) : Type 0 where
  pub id : ℕ
  pub code : String
  pub name : String
  pub description : Option String
  pub color : Option String
  pub glyph : Option String
  pub is_auto : Option Bool
  pub trigger_type : Option String
  pub criteria : Option (Fields N)

pub record FormState : Type 0 where
  pub code : String
  pub name : String
  pub description : String
  pub color : String
  pub glyph : String
  pub is_auto : Bool
  pub trigger_type : String
  pub criteria_activity_id : String
  pub criteria_checkpoint_id : String
  pub criteria_number : String

pub record Payload (N : Type 0) : Type 0 where
  pub name : String
  pub description : Option String
  pub color : String
  pub glyph : Option String
  pub is_auto : Bool
  pub trigger_type : Option String
  pub criteria : Fields N

module _ {N : Type 0} where
  -- `v ?? w`
  abbrev pub nullish_or : Value N → Value N → Value N
  nullish_or undefined w = w
  nullish_or null w = w
  nullish_or v w = v

  -- `criteria[k] = v`
  abbrev pub set_field : String → Value N → Fields N → Fields N
  set_field k v end = field k v end
  set_field k v (field j w fs) =
      let rest = set_field k v fs in if j == k then field j v fs else field j w rest

-- `text || null`
abbrev pub or_null : String → Option String
or_null s = if s == "" then none else some s

module _ {N : Type 0} (js : Browser N) where
  abbrev pub stringify_criteria_id : Value N → String
  stringify_criteria_id (number n) = js.show n
  stringify_criteria_id (text s) = s
  stringify_criteria_id _ = ""

  abbrev pub number_value : Fields N → Value N
  number_value criteria =
      nullish_or (nullish_or (get_field "count" criteria) (get_field "min_score" criteria))
        (get_field "max_seconds" criteria)

  unfoldable pub initial_state : Option (BadgeDefinition N) → FormState
  initial_state none = record {
    code = "";
    name = "";
    description = "";
    color = fallback_color;
    glyph = "";
    is_auto = false;
    trigger_type = "";
    criteria_activity_id = "";
    criteria_checkpoint_id = "";
    criteria_number = "";
  }
  initial_state (some editing) =
      let criteria = get_or editing.criteria end in
      record {
        code = editing.code;
        name = editing.name;
        description = get_or editing.description "";
        color = get_or editing.color fallback_color;
        glyph = get_or editing.glyph "";
        is_auto = get_or editing.is_auto false;
        trigger_type = get_or editing.trigger_type "";
        criteria_activity_id = stringify_criteria_id (get_field "activity_id" criteria);
        criteria_checkpoint_id = stringify_criteria_id (get_field "checkpoint_id" criteria);
        criteria_number = stringify_criteria_id (number_value criteria);
      }

  abbrev pub with_activity : Option Param → String → Fields N → Fields N
  with_activity (some activity) id fs =
      if id == "" then fs else set_field "activity_id" (number (js.to_number id)) fs
  with_activity _ id fs = fs

  abbrev pub with_checkpoint : Option Param → String → Fields N → Fields N
  with_checkpoint (some checkpoint) id fs =
      if id == "" then fs else set_field "checkpoint_id" (number (js.to_number id)) fs
  with_checkpoint _ id fs = fs

  abbrev pub with_number : Option NumberParam → String → Fields N → Fields N
  with_number none n fs = fs
  with_number (some p) n fs =
      if js.trim n == "" then fs else set_field (key_text p.key) (number (js.to_number n)) fs

  -- `buildCriteria` of an automatic badge, by its selected trigger.
  abbrev pub criteria_of : Option TriggerMeta → FormState → Fields N
  criteria_of none form = end
  criteria_of (some t) form = with_number t.number_param form.criteria_number (
      with_checkpoint t.param form.criteria_checkpoint_id
        (with_activity t.param form.criteria_activity_id end))

  unfoldable pub build_criteria : FormState → Fields N
  build_criteria form =
      if form.is_auto then criteria_of (trigger_meta form.trigger_type) form else end

  abbrev pub has_number : Option TriggerMeta → FormState → Bool
  has_number none form = false
  has_number (some t) form = no_number t.number_param || not (js.trim form.criteria_number == "")
    where
      no_number : Option NumberParam → Bool
      no_number none = true
      no_number (some p) = false

  unfoldable pub auto_valid : FormState → Bool
  auto_valid form = not form.is_auto || has_number (trigger_meta form.trigger_type) form

  unfoldable pub can_submit : Bool → FormState → Bool
  can_submit is_edit form =
      not (js.trim form.name == "") && (is_edit || not (js.trim form.code == "")) && auto_valid form

  unfoldable pub payload_of : FormState → Payload N
  payload_of form = record {
    name = js.trim form.name;
    description = or_null (js.trim form.description);
    color = form.color;
    glyph = or_null (js.trim form.glyph);
    is_auto = form.is_auto;
    trigger_type = if form.is_auto then or_null form.trigger_type else none;
    criteria = build_criteria form;
  }

-- What the requests come to: whether an update and an upload are accepted; of a creation, nothing if
-- it throws, else the id of what it made, if it has one.
pub record Answers : Type 0 where
  pub update : Bool
  pub create : Option (Option ℕ)
  pub upload : Bool

pub data Request (N : Type 0) : Type 0 where
  update_badge : ℕ → Payload N → Request N
  create_badge : String → Payload N → Request N
  upload_icon : ℕ → Request N

-- The requests that a submission made, whether it called `onDone`, and `mutation.isError` after it.
pub record Submission (N : Type 0) : Type 0 where
  pub requests : List (Request N)
  pub is_done : Bool
  pub is_error : Bool

module _ {N : Type 0} (js : Browser N) where
  -- After the request `saved` is accepted: the icon of the badge with this id, if a file was chosen.
  abbrev pub with_icon : Bool → Bool → Option ℕ → Request N → Submission N
  with_icon true upload (some id) saved = record {
    requests = saved ∷ upload_icon id ∷ [];
    is_done = upload;
    is_error = false;
  }
  with_icon icon_file upload id saved = record {
    requests = saved ∷ [];
    is_done = true;
    is_error = false;
  }

  abbrev pub failed : Request N → Submission N
  failed request = record { requests = request ∷ []; is_done = false; is_error = true }

  abbrev pub created : Option (Option ℕ) → Bool → Bool → Request N → Submission N
  created none icon_file upload request = failed request
  created (some id) icon_file upload request = with_icon icon_file upload id request

  unfoldable pub handle_submit :
      Answers → Option (BadgeDefinition N) → Bool → FormState → Submission N
  handle_submit answers (some editing) icon_file form =
      let request = update_badge editing.id (payload_of js form) in
      if answers.update
      then with_icon icon_file answers.upload (some editing.id) request
      else failed request
  handle_submit answers none icon_file form =
      created answers.create icon_file answers.upload
        (create_badge (js.to_lower_case (js.trim form.code)) (payload_of js form))
