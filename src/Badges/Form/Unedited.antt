-- ===== src/Badges/Form/Unedited.antt =====
-- What saving a badge sends when none of the form's fields was touched.
use mathlib.Core.Path.{subst}
use platform_rally_extension.Base.{
  ℕ, String, ◌≡◌, ◌≢◌, refl, sym, ap, ◌∙◌, Bool, true, false, ◌==◌, if◌then◌else◌, Same-text,
  Option, none, some, inl, inr, get_or, not_same_of_ne, same_refl, eq_of_same, Bool-cases,
}
use platform_rally_extension.Base.Value.{Value, number, undefined, Fields, end, field, get_field}
use platform_rally_extension.Badges.Triggers.{
  Param, activity, checkpoint, NumberKey, count, min_score, max_seconds, NumberParam, TriggerMeta,
  key_text, trigger_meta,
}
use platform_rally_extension.Badges.Form.{
  Browser, set_field, BadgeDefinition, FormState, Payload, or_null, stringify_criteria_id,
  number_value, initial_state, with_activity, with_checkpoint, with_number, criteria_of,
  build_criteria, payload_of,
}

module _ {N : Type 0} (js : Browser N) where
  -- What the conversions of ECMAScript promise: trimming twice is trimming once, a number is read
  -- back from its text, which is not white space.
  pub record IsStandard : Type 0 where
    pub trim_trim : (s : String) → js.trim (js.trim s) ≡ js.trim s
    pub trim_empty : js.trim "" ≡ ""
    pub read : (n : N) → js.to_number (js.show n) ≡ n
    pub shown : (n : N) → js.trim (js.show n) ≢ ""

  -- A definition with the values of a payload, as the theorem assumes one.
  unfoldable pub kept : ℕ → String → Payload N → BadgeDefinition N
  kept id code p = record {
    id = id;
    code = code;
    name = p.name;
    description = p.description;
    color = some p.color;
    glyph = p.glyph;
    is_auto = some p.is_auto;
    trigger_type = p.trigger_type;
    criteria = some p.criteria;
  }

  text-again :
      IsStandard
      → (s : String) → or_null (js.trim (get_or (or_null (js.trim s)) "")) ≡ or_null (js.trim s)
  text-again std s = elim (Bool-cases (js.trim s == "")) [
    | inl e ↦ rw (e, std.trim_empty) refl
    | inr ne ↦ rw (ne, std.trim_trim s, ne) refl
  ]

  shown_ne : IsStandard → (n : N) → js.show n ≢ ""
  shown_ne std n e = std.shown n (ap js.trim e ∙ std.trim_empty)

  id_shown : IsStandard → (n : N) → (js.show n == "") ≡ false
  id_shown std n = not_same_of_ne (js.show n) "" (shown_ne std n)

  number_shown : IsStandard → (n : N) → (js.trim (js.show n) == "") ≡ false
  number_shown std n = not_same_of_ne (js.trim (js.show n)) "" (std.shown n)

  get-set_field : (k : String) (v : Value N) (fs : Fields N) → get_field k (set_field k v fs) ≡ v
  get-set_field k v end = rw (same_refl k) refl
  get-set_field k v (field j w fs) = elim (Bool-cases (j == k)) [
    | inl e ↦ rw (e, e) refl
    | inr e ↦ rw (e, e) (get-set_field k v fs)
  ]

  get-set_other :
      (k j : String) (v : Value N) (fs : Fields N)
      → (k == j) ≡ false
      → get_field j (set_field k v fs) ≡ get_field j fs
  get-set_other k j v end ne = rw ne refl
  get-set_other k j v (field i w fs) ne = elim (Bool-cases (i == k)) [
    | inl e ↦ rw (e, eq_of_same i k e, ne) refl
    | inr e ↦ rw (e) (ap (λ x. if i == j then w else x) (get-set_other k j v fs ne))
  ]

  -- Criteria in which no number stands.
  record IsPlain (fs : Fields N) : Type 0 where
    count : get_field "count" fs ≡ undefined
    min_score : get_field "min_score" fs ≡ undefined
    max_seconds : get_field "max_seconds" fs ≡ undefined

  number_value-set_field :
      (k : NumberKey) (n : N) (fs : Fields N)
      → IsPlain fs
      → number_value js (set_field (key_text k) (number n) fs) ≡ number n
  unfolding key_text
  number_value-set_field count n fs plain = rw (get-set_field "count" (number n) fs) refl
  number_value-set_field min_score n fs plain =
      rw
        (
          get-set_other "min_score" "count" (number n) fs refl,
          plain.count,
          get-set_field "min_score" (number n) fs,
        )
        refl
  number_value-set_field max_seconds n fs plain =
      rw
        (
          get-set_other "max_seconds" "count" (number n) fs refl,
          get-set_other "max_seconds" "min_score" (number n) fs refl,
          plain.count,
          plain.min_score,
          get-set_field "max_seconds" (number n) fs,
        )
        refl

  number_value-IsPlain : (fs : Fields N) → IsPlain fs → number_value js fs ≡ undefined
  number_value-IsPlain fs plain = rw (plain.count, plain.min_score, plain.max_seconds) refl

  number-again :
      IsStandard
      → (n : Option NumberParam) (m : String) (fs : Fields N) → IsPlain fs
      → with_number js n (stringify_criteria_id js (number_value js (with_number js n m fs))) fs
        ≡ with_number js n m fs
  number-again std none m fs plain = refl
  number-again std (some p) m fs plain = elim (Bool-cases (js.trim m == "")) [
    | inl e ↦ rw (e, number_value-IsPlain fs plain, std.trim_empty) refl
    | inr e ↦
        rw
          (
            e,
            number_value-set_field p.key (js.to_number m) fs plain,
            number_shown std (js.to_number m),
            std.read (js.to_number m),
          )
          refl
  ]

  ids-IsPlain :
      (p : Option Param) (a c : String)
      → IsPlain (with_checkpoint js p c (with_activity js p a end))
  ids-IsPlain none a c = record { count = refl; min_score = refl; max_seconds = refl }
  ids-IsPlain (some activity) a c = elim (Bool-cases (a == "")) [
    | inl e ↦ rw e (record { count = refl; min_score = refl; max_seconds = refl })
    | inr e ↦ rw e (record { count = refl; min_score = refl; max_seconds = refl })
  ]
  ids-IsPlain (some checkpoint) a c = elim (Bool-cases (c == "")) [
    | inl e ↦ rw e (record { count = refl; min_score = refl; max_seconds = refl })
    | inr e ↦ rw e (record { count = refl; min_score = refl; max_seconds = refl })
  ]

  -- A number among the criteria is no id.
  get-with_number :
      (n : Option NumberParam) (m : String) (j : String) (fs : Fields N)
      → ((k : NumberKey) → (key_text k == j) ≡ false)
      → get_field j (with_number js n m fs) ≡ get_field j fs
  get-with_number none m j fs h = refl
  get-with_number (some p) m j fs h = elim (Bool-cases (js.trim m == "")) [
    | inl e ↦ rw e refl
    | inr e ↦ rw e (get-set_other (key_text p.key) j (number (js.to_number m)) fs (h p.key))
  ]

  ids-again :
      IsStandard
      → (p : Option Param) (a c : String)
      → with_checkpoint js p
          (stringify_criteria_id js
            (get_field "checkpoint_id" (with_checkpoint js p c (with_activity js p a end))))
          (with_activity js p
            (stringify_criteria_id js
              (get_field "activity_id" (with_checkpoint js p c (with_activity js p a end))))
            end)
        ≡ with_checkpoint js p c (with_activity js p a end)
  ids-again std none a c = refl
  ids-again std (some activity) a c = elim (Bool-cases (a == "")) [
    | inl e ↦ rw e refl
    | inr e ↦ rw (e, id_shown std (js.to_number a), std.read (js.to_number a)) refl
  ]
  ids-again std (some checkpoint) a c = elim (Bool-cases (c == "")) [
    | inl e ↦ rw e refl
    | inr e ↦ rw (e, id_shown std (js.to_number c), std.read (js.to_number c)) refl
  ]

  number_is_no_id :
      (k : NumberKey)
      → ((key_text k == "activity_id") ≡ false) × ((key_text k == "checkpoint_id") ≡ false)
  unfolding key_text
  number_is_no_id count = (refl, refl)
  number_is_no_id min_score = (refl, refl)
  number_is_no_id max_seconds = (refl, refl)

  -- The form `form'` holds the criteria that `form` built.
  record IsReopened (form' : FormState) (fs : Fields N) : Type 0 where
    activity_id : form'.criteria_activity_id ≡ stringify_criteria_id js (get_field "activity_id" fs)
    checkpoint_id :
        form'.criteria_checkpoint_id ≡ stringify_criteria_id js (get_field "checkpoint_id" fs)
    number : form'.criteria_number ≡ stringify_criteria_id js (number_value js fs)

  criteria-again :
      IsStandard
      → (t : Option TriggerMeta) (form form' : FormState) → IsReopened form' (criteria_of js t form)
      → criteria_of js t form' ≡ criteria_of js t form
  criteria-again std none form form' h = refl
  criteria-again std (some t) form form' h =
      let ids =
        with_checkpoint js t.param form.criteria_checkpoint_id
          (with_activity js t.param form.criteria_activity_id end) in
      rw
        (
          h.activity_id,
          h.checkpoint_id,
          h.number,
          get-with_number t.number_param form.criteria_number "activity_id" ids
              (λ k. (number_is_no_id k).0),
          get-with_number t.number_param form.criteria_number "checkpoint_id" ids
              (λ k. (number_is_no_id k).1),
          ids-again std t.param form.criteria_activity_id form.criteria_checkpoint_id,
        )
        (number-again std t.number_param form.criteria_number ids
          (ids-IsPlain t.param form.criteria_activity_id form.criteria_checkpoint_id))

  build_of :
      (form : FormState) {b : Bool}
      → form.is_auto ≡ b
      → build_criteria js form
        ≡ (if b then criteria_of js (trigger_meta form.trigger_type) form else end)
  unfolding build_criteria
  build_of form e =
      ap (λ b. if b then criteria_of js (trigger_meta form.trigger_type) form else end) e

  type-again :
      (form : FormState)
      → form.is_auto ≡ true
      → get_or (if form.is_auto then or_null form.trigger_type else none) "" ≡ form.trigger_type
  type-again form e = elim (Bool-cases (form.trigger_type == "")) [
    | inl c ↦ rw (e, c) (sym (eq_of_same form.trigger_type "" c))
    | inr c ↦ rw (e, c) refl
  ]

  build-again :
      IsStandard
      → (id : ℕ) (code : String) (form : FormState)
      → build_criteria js (initial_state js (some (kept id code (payload_of js form))))
        ≡ build_criteria js form
  unfolding initial_state kept payload_of
  build-again std id code form =
      let form' = initial_state js (some (kept id code (payload_of js form))) in
      let meta = trigger_meta form.trigger_type in
      elim (Bool-cases form.is_auto) [
        | inl e ↦
            let again : IsReopened form' (criteria_of js meta form) =
              subst (IsReopened form') (build_of form e)
                (record { activity_id = refl; checkpoint_id = refl; number = refl }) in
            build_of form' e
            ∙ ap (λ t. criteria_of js (trigger_meta t) form') (type-again form e)
            ∙ criteria-again std meta form form' again
            ∙ sym (build_of form e)
        | inr e ↦ build_of form' e ∙ sym (build_of form e)
      ]

  type_saved-again :
      (form : FormState)
      → (if form.is_auto
          then or_null (get_or (if form.is_auto then or_null form.trigger_type else none) "")
          else none)
        ≡ (if form.is_auto then or_null form.trigger_type else none)
  type_saved-again form = elim (Bool-cases form.is_auto) [
    | inl e ↦ ap (λ t. if form.is_auto then or_null t else none) (type-again form e)
    | inr e ↦ rw e refl
  ]

  -- In a browser in which trimming twice is trimming once and numbers are read back from their texts,
  -- which are not white space: whatever a form was saved with, opening the badge that has the saved
  -- values and saving it untouched sends the same request again.
  pub payload_of-initial_state :
      IsStandard
      → (id : ℕ) (code : String) (form : FormState)
      → payload_of js (initial_state js (some (kept id code (payload_of js form))))
        ≡ payload_of js form
  unfolding payload_of initial_state kept
  payload_of-initial_state std id code form =
      rw
        (
          std.trim_trim form.name,
          text-again std form.description,
          text-again std form.glyph,
          type_saved-again form,
          build-again std id code form,
        )
        refl
