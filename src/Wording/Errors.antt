-- ===== src/Wording/Errors.antt =====
-- web-rally/src/utils/errorHandling.ts: the message of something that was thrown. A text, a number, a
-- function or nothing has none of its own.
use platform_rally_extension.Base.{
  String, if◌then◌else◌, ◌==◌, Same-text, Option, none, some, get_or,
}
use platform_rally_extension.Base.Value.{Value, text, prop, is_object}

-- A value, if it is a text.
abbrev pub as_text : {N : Type 0} → Value N → Option String
as_text (text s) = some s
as_text _ = none

abbrev pub non_empty : Option String → Option String
non_empty none = none
non_empty (some s) = if s == "" then none else some s

abbrev pub or_next : Option String → Option String → Option String
or_next none next = next
or_next (some s) next = some s

unfoldable pub get_error_message : {N : Type 0} → Value N → String → String
get_error_message error fallback =
    if is_object error
    then get_or
        (or_next (as_text (prop "detail" error)) (
          or_next (as_text (prop "detail" (prop "body" error))) (
            or_next (as_text (prop "detail" (prop "data" (prop "response" error))))
              (non_empty (as_text (prop "message" error))))))
        fallback
    else fallback
