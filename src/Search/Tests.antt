-- ===== src/Search/Tests.antt =====
-- The search at concrete inputs.
use platform_rally_extension.Base.{
  ◌≡◌, refl, if◌then◌else◌, ◌==◌, Same-text, Same-nat, some, [], ◌∷◌, map, arith,
}
use platform_rally_extension.Search.Query.{Text, search_admin, results}
use platform_rally_extension.Search.Scroll.{
  untouched, found, given_up, max_attempts, scroll_to_search_target,
}
use platform_rally_extension.Search.Scroll.Polling.{within, scroll_to_search_target-ends}

abbrev whole_labels : Text
whole_labels = record { normalize = λ s. s; includes = λ s q. s == q }

search_run :
    map (λ e. e.key) (results whole_labels "Bússola" (some "settings")) ≡ "compass_enabled" ∷ []
unfolding results search_admin
search_run = refl

scroll_example :
    scroll_to_search_target (some "ev-name") (λ n. n == 3) 10 untouched
    ≡ some (if within (λ n. n == 3) 0 max_attempts then found untouched else given_up untouched)
scroll_example =
    scroll_to_search_target-ends "ev-name" (λ n. n == 3) 10 untouched refl (omega arith)
