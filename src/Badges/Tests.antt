-- ===== src/Badges/Tests.antt =====
-- Runs of the badge form on concrete inputs: numbers are texts here, none of which has spaces around.
use platform_rally_extension.Base.{
  String, ◌≡◌, ◌≢◌, refl, true, false, if◌then◌else◌, ◌==◌, Same-text, none, some, Bool-cases, inl,
  inr,
}
use platform_rally_extension.Base.Value.{number, end, field}
use platform_rally_extension.Badges.Triggers.{key_text, trigger_meta}
use platform_rally_extension.Badges.Form.{
  Browser, FormState, Answers, initial_state, build_criteria, payload_of, handle_submit,
}
use platform_rally_extension.Badges.Form.Unedited.{IsStandard, kept, payload_of-initial_state}
use platform_rally_extension.Badges.Form.Outcome.{handle_submit_lem}

-- A browser whose numbers are a digit or none.
data Digit : Type 0 where
  zero one two : Digit

abbrev digit_of : String → Digit
digit_of s = if s == "1" then one else if s == "2" then two else zero

abbrev text_of_digit : Digit → String
text_of_digit zero = "0"
text_of_digit one = "1"
text_of_digit two = "2"

abbrev browser : Browser Digit
browser = record {
  trim = λ s. if s == " " then "" else s;
  to_lower_case = λ s. s;
  to_number = digit_of;
  show = text_of_digit;
}

abbrev fast : FormState
fast = record {
  code = "fast";
  name = "Fast";
  description = " ";
  color = "#fff";
  glyph = "F";
  is_auto = true;
  trigger_type = "fast_complete";
  criteria_activity_id = "2";
  criteria_checkpoint_id = "1";
  criteria_number = "1";
}

trim_twice : (s : String) → browser.trim (browser.trim s) ≡ browser.trim s
trim_twice s = elim (Bool-cases (s == " ")) [ inl e ↦ simp e | inr e ↦ simp e ]

digit_read : (n : Digit) → digit_of (text_of_digit n) ≡ n
digit_read zero = refl
digit_read one = refl
digit_read two = refl

digit_shown : (n : Digit) → browser.trim (text_of_digit n) ≢ ""
digit_shown zero e = cc e
digit_shown one e = cc e
digit_shown two e = cc e

browser-IsStandard : IsStandard browser
browser-IsStandard = record {
  trim_trim = trim_twice;
  trim_empty = refl;
  read = digit_read;
  shown = digit_shown;
}

-- The badge of the fastest team, limited to an activity, is opened again.
payload_of_example :
    payload_of browser
      (initial_state browser (some (kept browser 7 "fast" (payload_of browser fast))))
    ≡ payload_of browser fast
payload_of_example = payload_of-initial_state browser browser-IsStandard 7 "fast" fast

fast_criteria :
    build_criteria browser fast
    ≡ field "activity_id" (number two) (field "max_seconds" (number one) end)
unfolding build_criteria trigger_meta key_text
fast_criteria = refl

abbrev icon_refused : Answers
icon_refused = record { update = false; create = some (some 7); upload = false }

-- A new badge is saved, and its icon refused: no error, and the form stays.
handle_submit_example :
    ((handle_submit browser icon_refused none true fast).is_error ≡ false)
    × ((handle_submit browser icon_refused none true fast).is_done ≡ false)
handle_submit_example = handle_submit_lem browser icon_refused none true fast
