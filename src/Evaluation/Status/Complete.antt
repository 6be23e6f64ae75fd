-- ===== src/Evaluation/Status/Complete.antt =====
-- The count of `computeTeamEvaluationStatus` against what it means: each activity has its result.
use mathlib.Core.Path.{subst}
use platform_rally_extension.Base.{
  ℕ, ◌+◌, ◌≤◌, ◌≡◌, ◌↔◌, refl, sym, ◌∙◌, Bool, true, false, ◌&&◌, ◌==◌, Same-nat, if◌then◌else◌,
  some, none, ap, List, [], ◌∷◌, filter, any, length, arith, Bool-cases, inl, inr, All, eq_of_same,
}
use platform_rally_extension.Auth.Storage.{is_there}
use platform_rally_extension.Base.Keyed.{Unique, has}
use platform_rally_extension.Evaluation.Status.{
  Activity, ActivityResult, StatusMap, is_true, assign, status_of, counts_for, is_team_done,
  status_from, compute_team_evaluation_status,
}

-- A completed result of the team for one activity.
abbrev pub completes : ℕ → ℕ → ActivityResult → Bool
completes team activity result =
    result.team_id == team && (is_true result.is_completed && activity == result.activity_id)

abbrev pub id_of : Activity → ℕ
id_of a = a.id

module _ (team : ℕ) where
  abbrev pub count_for : List Activity → List ActivityResult → ℕ
  count_for activities results = length (filter (counts_for activities results team) results)

  abbrev pub count_one : ℕ → List ActivityResult → ℕ
  count_one activity results = length (filter (completes team activity) results)

  counts_lem :
      (a : Activity) (rest : List Activity) (r : ActivityResult)
      → has id_of a.id rest ≡ false
      → (any (λ b. b.id == r.activity_id) rest ≡ true)
      → (a.id == r.activity_id) ≡ false
  counts_lem a rest r h e = elim (Bool-cases (a.id == r.activity_id)) [
    | inl same ↦
        let p : a.id ≡ r.activity_id = eq_of_same a.id r.activity_id same in
        cc (h, subst (λ k. has id_of k rest ≡ true) (sym p) e)
    | inr other ↦ other
  ]

  count_for-nil : (results : List ActivityResult) → count_for [] results ≡ 0
  count_for-nil [] = refl
  count_for-nil (r ∷ rs) = ground (arith, count_for-nil rs)

  count_for-cons :
      (a : Activity) (rest : List Activity) (results : List ActivityResult)
      → has id_of a.id rest ≡ false
      → count_for (a ∷ rest) results ≡ count_one a.id results + count_for rest results
  count_for-cons a rest [] h = refl
  count_for-cons a rest (r ∷ rs) h =
      ground (arith, count_for-cons a rest rs h, counts_lem a rest r h)

  any_iff_count :
      (activity : ℕ) (results : List ActivityResult)
      → (any (completes team activity) results ≡ true) ↔ (1 ≤ count_one activity results)
  any_iff_count activity [] = ground arith
  any_iff_count activity (r ∷ rs) = ground (arith, any_iff_count activity rs)

  -- Every activity has a completed result of the team.
  abbrev pub AllCompleted : List ActivityResult → List Activity → Type 0
  AllCompleted results activities = All (λ a. any (completes team a.id) results ≡ true) activities

  -- The team has at most one completed result for an activity.
  abbrev pub AtMostOne : List ActivityResult → List Activity → Type 0
  AtMostOne results activities = All (λ a. count_one a.id results ≤ 1) activities

  count_for-le :
      (activities : List Activity) (results : List ActivityResult)
      → Unique id_of activities
      → AtMostOne results activities
      → count_for activities results ≤ length activities
  count_for-le [] results u b = omega (arith, count_for-nil results)
  count_for-le (a ∷ rest) results (h, u) (b, bs) =
      omega (arith, count_for-cons a rest results h, count_for-le rest results u bs)

  count_for_iff :
      (activities : List Activity) (results : List ActivityResult)
      → Unique id_of activities
      → AtMostOne results activities
      → (count_for activities results ≡ length activities) ↔ AllCompleted results activities
  count_for_iff [] results u b = (λ _. tt, λ _. count_for-nil results)
  count_for_iff (a ∷ rest) results (h, u) (b, bs) =
      let split = count_for-cons a rest results h in
      let low = count_for-le rest results u bs in
      let (to, from) = count_for_iff rest results u bs in
      let (some_one, of_one) = any_iff_count a.id results in
      (
        λ e. (of_one (omega (arith, split, low, e)), to (omega (arith, split, low, e))),
        λ (one, all). omega (arith, split, some_one one, from all),
      )

status_of-assign :
    (k j : ℕ) (v : Bool) (m : StatusMap)
    → status_of k (assign j v m) ≡ (if j == k then some v else status_of k m)
status_of-assign k j v [] = ground arith
status_of-assign k j v ((i, w) ∷ m) = ground (arith, status_of-assign k j v m)

status_of-status_from :
    (activities : List Activity) (results : List ActivityResult) (team : ℕ) (teams : List ℕ)
    (m : StatusMap)
    → status_of team (status_from activities results teams m) ≡ (
        if any (λ t. t == team) teams
        then some (is_team_done activities results team)
        else status_of team m)
unfolding status_from
status_of-status_from activities results team [] m = refl
status_of-status_from activities results team (t ∷ teams) m =
    status_of-status_from activities results team teams
      (assign t (is_team_done activities results t) m)
    ∙ ground (arith, status_of-assign team t (is_team_done activities results t) m)

there_if : (b done : Bool) → is_there (if b then some done else none) ≡ b
there_if true done = refl
there_if false done = refl

is_team_done_iff :
    (activities : List Activity) (results : List ActivityResult) (team : ℕ)
    → Unique id_of activities
    → AtMostOne team results activities
    → (is_team_done activities results team ≡ true)
      ↔ ((1 ≤ length activities) × AllCompleted team results activities)
unfolding is_team_done
is_team_done_iff activities results team u b =
    let (to, from) = count_for_iff team activities results u b in
    (λ e. (ground arith, to (ground arith)), λ (one, all). ground (arith, from all))

-- Where activities have different ids and a team has at most one completed result for each: the map has
-- an entry for the team exactly if the team is listed, and the entry is true exactly if moreover there
-- are activities and each of them has a completed result of the team.
pub compute_team_evaluation_status_lem :
    (teams : List ℕ) (activities : List Activity) (results : List ActivityResult) (team : ℕ)
    → Unique id_of activities
    → AtMostOne team results activities
    → (is_there (status_of team (compute_team_evaluation_status teams activities results))
        ≡ any (λ t. t == team) teams)
      × ((status_of team (compute_team_evaluation_status teams activities results) ≡ some true) ↔ (
          (any (λ t. t == team) teams ≡ true)
          × (1 ≤ length activities)
          × AllCompleted team results activities))
unfolding compute_team_evaluation_status
compute_team_evaluation_status_lem teams activities results team u b =
    let look = status_of-status_from activities results team teams [] in
    let (to, from) = is_team_done_iff activities results team u b in
    (
      ap is_there look
          ∙ there_if (any (λ t. t == team) teams) (is_team_done activities results team),
      (
        λ e. let (one, all) = to (ground (arith, look, e)) in (ground (arith, look, e), one, all),
        λ (listed, one, all). look ∙ rw (listed, from (one, all)) refl,
      ),
    )
