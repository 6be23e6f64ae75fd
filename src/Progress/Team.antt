-- ===== src/Progress/Team.antt =====
-- web-rally/src/pages/team-progress/useTeamProgress.ts: what the page shows of a team, its redirects
-- and the checkpoints that are expanded. A query that has no data yet is none.
use platform_rally_extension.Base.{
  ℕ, ◌+◌, ◌≡◌, refl, String, Bool, true, false, ◌&&◌, ◌||◌, not, if◌then◌else◌, ◌==◌, Same-nat,
  Same-text, Option, none, some, get_or, List, [], ◌∷◌, ◌++◌, any, filter, find, arith, Bool-cases,
  inl, inr, eq_of_same, ap, ◌∙◌,
}

pub record DetailedTeam : Type 0 where
  pub last_checkpoint_number : Option ℕ
  pub times : Option ℕ
  pub current_checkpoint_number : Option ℕ

pub record DetailedCheckPoint : Type 0 where
  pub id : ℕ
  pub order : ℕ

-- `a ?? b`
abbrev pub or_else : {A : Type 0} → Option A → Option A → Option A
or_else none b = b
or_else (some a) b = some a

abbrev pub last_number : Option DetailedTeam → Option ℕ
last_number none = none
last_number (some team) = team.last_checkpoint_number

-- `team?.times?.length`
abbrev pub times_length : Option DetailedTeam → Option ℕ
times_length none = none
times_length (some team) = team.times

abbrev pub current_number : Option DetailedTeam → Option ℕ
current_number none = none
current_number (some team) = team.current_checkpoint_number

unfoldable pub completed_checkpoints_count : Option DetailedTeam → ℕ
completed_checkpoints_count team = get_or (or_else (last_number team) (times_length team)) 0

unfoldable pub next_checkpoint_order : Option DetailedTeam → ℕ
next_checkpoint_order team = get_or (current_number team) (completed_checkpoints_count team + 1)

unfoldable pub next_checkpoint :
    Option DetailedTeam → Option (List DetailedCheckPoint) → Option DetailedCheckPoint
next_checkpoint team none = none
next_checkpoint team (some checkpoints) =
    find (λ cp. cp.order == next_checkpoint_order team) checkpoints

-- `expandedCheckpoints`, in the order of insertion.
abbrev pub is_expanded : ℕ → List ℕ → Bool
is_expanded index expanded = any (λ i. i == index) expanded

unfoldable pub toggle_checkpoint : ℕ → List ℕ → List ℕ
toggle_checkpoint index prev =
    if is_expanded index prev then filter (λ i. not (i == index)) prev else prev ++ index ∷ []

-- `mode` is `settings?.show_score_mode`.
abbrev pub is_mode : String → Option String → Bool
is_mode word none = false
is_mode word (some mode) = mode == word

unfoldable pub show_score : Option String → Bool
show_score mode = not (is_mode "hidden" mode)

unfoldable pub show_ranking : Option String → Bool
show_ranking mode = is_mode "competitive" mode

-- The two effects: where each navigates, if it does.
unfoldable pub to_login : Bool → Bool → Option String
to_login auth_loading is_authenticated =
    if not auth_loading && not is_authenticated then some "/team-login" else none

unfoldable pub to_scoreboard : Bool → Option Bool → Option String
to_scoreboard settings_loading none = none
to_scoreboard settings_loading (some participant_view_enabled) =
    if not settings_loading && not participant_view_enabled then some "/scoreboard" else none

any-append :
    (j : ℕ) (xs ys : List ℕ) → is_expanded j (xs ++ ys) ≡ (is_expanded j xs || is_expanded j ys)
any-append j [] ys = refl
any-append j (x ∷ xs) ys = ground (arith, any-append j xs ys)

any-removed :
    (index j : ℕ) (xs : List ℕ)
    → is_expanded j (filter (λ i. not (i == index)) xs)
      ≡ (if index == j then false else is_expanded j xs)
any-removed index j [] = ground arith
any-removed index j (x ∷ xs) = ground (arith, any-removed index j xs)

same_expanded :
    (index j : ℕ) (prev : List ℕ)
    → (index == j) ≡ true
    → is_expanded index prev ≡ is_expanded j prev
same_expanded index j prev h = ap (λ k. is_expanded k prev) (eq_of_same index j h)

expanded-toggle :
    (index j : ℕ) (prev : List ℕ)
    → is_expanded j (toggle_checkpoint index prev)
      ≡ (if index == j then not (is_expanded j prev) else is_expanded j prev)
unfolding toggle_checkpoint
expanded-toggle index j prev = elim (Bool-cases (is_expanded index prev)) [
  | inl old ↦ rw old (any-removed index j prev ∙ (ground (arith, same_expanded index j prev, old)))
  | inr new ↦
      rw new (any-append j prev (index ∷ []) ∙ (ground (arith, same_expanded index j prev, new)))
]

-- The click on a checkpoint opens it if it was closed and closes it if it was open, and leaves every
-- other one as it was; two clicks leave all of them as they were.
pub toggle_checkpoint_lem :
    (index j : ℕ) (prev : List ℕ)
    → (is_expanded j (toggle_checkpoint index prev)
        ≡ (if index == j then not (is_expanded j prev) else is_expanded j prev))
      × (is_expanded j (toggle_checkpoint index (toggle_checkpoint index prev))
          ≡ is_expanded j prev)
toggle_checkpoint_lem index j prev =
    let once = expanded-toggle index j prev in
    let twice = expanded-toggle index j (toggle_checkpoint index prev) in
    (once, ground (arith, once, twice))
