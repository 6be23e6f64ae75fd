-- ===== src/Badges/Form/Outcome.antt =====
-- What the page shows after a submission.
use platform_rally_extension.Base.{
  ℕ, ◌≡◌, refl, Bool, true, false, ◌&&◌, ◌||◌, not, if◌then◌else◌, Option, none, some, get_or,
}
use platform_rally_extension.Badges.Form.{
  Browser, BadgeDefinition, FormState, Answers, Submission, Request, update_badge, create_badge,
  payload_of, with_icon, failed, created, handle_submit,
}

abbrev pub is_some : {A : Type 0} → Option A → Bool
is_some none = false
is_some (some a) = true

-- Whether the badge's own request is accepted; and the id that is known of it then.
abbrev pub is_saved : {N : Type 0} → Answers → Option (BadgeDefinition N) → Bool
is_saved answers (some editing) = answers.update
is_saved answers none = is_some answers.create

abbrev pub known_id : {N : Type 0} → Answers → Option (BadgeDefinition N) → Option ℕ
known_id answers (some editing) = some editing.id
known_id answers none = get_or answers.create none

module _ {N : Type 0} (js : Browser N) where
  with_icon-is_done :
      (icon_file upload : Bool) (id : Option ℕ) (request : Request N)
      → (with_icon js icon_file upload id request).is_done
        ≡ (upload || not (icon_file && is_some id))
  with_icon-is_done true true (some id) request = refl
  with_icon-is_done true false (some id) request = refl
  with_icon-is_done true true none request = refl
  with_icon-is_done true false none request = refl
  with_icon-is_done false true id request = refl
  with_icon-is_done false false id request = refl

  with_icon-is_error :
      (icon_file upload : Bool) (id : Option ℕ) (request : Request N)
      → (with_icon js icon_file upload id request).is_error ≡ false
  with_icon-is_error true upload (some id) request = refl
  with_icon-is_error true upload none request = refl
  with_icon-is_error false upload id request = refl

  -- The form shows an error just when the badge's own request was refused; it closes just when that was
  -- accepted and so was the upload of the icon, if one was chosen and the badge has an id. So it
  -- stays, with no error, just when the badge is saved and the icon is refused.
  pub handle_submit_lem :
      (answers : Answers) (editing : Option (BadgeDefinition N)) (icon_file : Bool)
      (form : FormState)
      → ((handle_submit js answers editing icon_file form).is_error
          ≡ not (is_saved answers editing))
        × ((handle_submit js answers editing icon_file form).is_done ≡ (
            is_saved answers editing
            && (answers.upload || not (icon_file && is_some (known_id answers editing)))))
  unfolding handle_submit
  handle_submit_lem answers none icon_file form = created_lem answers.create
    where
      request : Request N
      request = create_badge (js.to_lower_case (js.trim form.code)) (payload_of js form)

      created_lem :
          (made : Option (Option ℕ))
          → ((created js made icon_file answers.upload request).is_error ≡ not (is_some made))
            × ((created js made icon_file answers.upload request).is_done ≡ (
                is_some made && (answers.upload || not (icon_file && is_some (get_or made none)))))
      created_lem none = (refl, refl)
      created_lem (some id) = (
        with_icon-is_error icon_file answers.upload id request,
        with_icon-is_done icon_file answers.upload id request,
      )
  handle_submit_lem answers (some editing) icon_file form = updated_lem answers.update
    where
      request : Request N
      request = update_badge editing.id (payload_of js form)

      after : Bool → Submission N
      after updated =
          if updated
          then with_icon js icon_file answers.upload (some editing.id) request
          else failed js request

      updated_lem :
          (updated : Bool)
          → ((after updated).is_error ≡ not updated)
            × ((after updated).is_done ≡ (updated && (answers.upload || not (icon_file && true))))
      updated_lem false = (refl, refl)
      updated_lem true = (
        with_icon-is_error icon_file answers.upload (some editing.id) request,
        with_icon-is_done icon_file answers.upload (some editing.id) request,
      )
