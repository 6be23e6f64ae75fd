-- ===== src/Scoring/Tests.antt =====
-- The penalties at concrete values, with whole numbers.
use platform_rally_extension.Scoring.Quiz.{count_correct}
use platform_rally_extension.Base.{
  ◌*◌, String, none, ℕ, ◌*◌, ◌/◌, ◌≡◌, refl, ◌==◌, Same-nat, some, Option, List, [], ◌∷◌,
}
use platform_rally_extension.Scoring.Penalties.{Numbers, Counts, counts_to_points}

abbrev whole : Numbers ℕ
whole = record {
  zero = 0;
  is_falsy = λ n. n == 0;
  abs = λ n. n;
  mul = λ a b. a * b;
  div = λ a b. a / b;
}

abbrev rates : Counts ℕ
rates = ("vomit", 20) ∷ ("drinks", 5) ∷ []

abbrev counts : Counts ℕ
counts = ("vomit", 2) ∷ ("drinks", 0) ∷ []

points_run : counts_to_points whole counts rates ≡ ("vomit", 40) ∷ []
unfolding counts_to_points
points_run = refl

abbrev answers : List (String × Option ℕ)
answers = ("q1", some 3) ∷ ("q2", none) ∷ ("q3", some 1) ∷ []

answers_run : count_correct answers ≡ 4
unfolding count_correct
answers_run = refl
