-- ===== src/Wording/Tests.antt =====
-- The words at concrete values.
use platform_rally_extension.Base.{ℕ, ◌≡◌, refl, some}
use platform_rally_extension.Base.Value.{Value, text, null, object, field, end}
use platform_rally_extension.Wording.Errors.{get_error_message}
use platform_rally_extension.Wording.Terms.{get_event_terms, terms, peddy_paper, rally_tascas}

abbrev api_error : Value ℕ
api_error = object (
    field "message" (text "")
      (field "body" (object (field "detail" (text "Equipa cheia") end)) end))

message_of_api_error : get_error_message api_error "Erro" ≡ "Equipa cheia"
unfolding get_error_message
message_of_api_error = refl

abbrev broken_error : Value ℕ
broken_error = object (field "response" null (field "message" (text "") end))

message_of_broken_error : get_error_message broken_error "Erro" ≡ "Erro"
unfolding get_error_message
message_of_broken_error = refl

terms_of_peddy_paper : get_event_terms (some "peddy_paper") ≡ terms peddy_paper
unfolding get_event_terms
terms_of_peddy_paper = refl

terms_of_unknown : get_event_terms (some "chess") ≡ terms rally_tascas
unfolding get_event_terms
terms_of_unknown = refl
