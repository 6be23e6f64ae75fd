-- ===== src/Scoring/Quiz.antt =====
-- web-rally/src/lib/quizQuestions.ts: the questions of an activity's configuration and the count of
-- the right answers. `N` is the type of the configuration's numbers; counts are natural numbers.
use platform_rally_extension.Base.{
  ℕ, ◌+◌, String, Bool, ◌&&◌, not, if◌then◌else◌, ◌==◌, Same-text, Option, List, [], filter, foldl,
  get_or,
}
use platform_rally_extension.Base.Value.{Value, number, prop, is_object}
use platform_rally_extension.Scoring.Penalties.{is_text, text_of, list_of}

-- `Number(raw)` of what is no number, and `Number.isFinite(n) && n >= 1 ? Math.floor(n) : 1`.
pub record Numbers (N : Type 0) : Type 0 where
  pub to_number : Value N → N
  pub floor_or_one : N → ℕ

module _ {N : Type 0} where
  abbrev pub is_question : Value N → Bool
  is_question item =
      is_object item
      && is_text (prop "key" item)
      && not (text_of (prop "key" item) == "")
      && is_text (prop "text" item)

  unfoldable pub parse_quiz_questions : Value N → List (Value N)
  parse_quiz_questions config =
      if is_object config then filter is_question (list_of (prop "quiz_questions" config)) else []

  abbrev pub as_number : Numbers N → Value N → N
  as_number numbers (number n) = n
  as_number numbers raw = numbers.to_number raw

  unfoldable pub parse_answers_per_question : Numbers N → Value N → ℕ
  parse_answers_per_question numbers config =
      if is_object config
      then numbers.floor_or_one (as_number numbers (prop "quiz_answers_per_question" config))
      else 1

-- `Object.values(correct).reduce((sum, count) => sum + (count || 0), 0)`; a count is none where the
-- value is missing or not a number.
unfoldable pub count_correct : List (String × Option ℕ) → ℕ
count_correct correct = foldl (λ sum e. sum + get_or e.1 0) 0 correct
