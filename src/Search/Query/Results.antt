-- ===== src/Search/Query/Results.antt =====
-- What the search of the settings page lists, and where it leads.
use platform_rally_extension.Base.{
  ℕ, zero, suc, ◌≤◌, ◌≡◌, refl, ◌∙◌, ap, String, Bool, true, false, not, ◌&&◌, if◌then◌else◌, ◌==◌,
  Same-text, Option, none, some, List, [], ◌∷◌, ◌++◌, filter, filter-append, all, All, arith,
  eq_of_same, Bool-cases, inl, inr,
}
use platform_rally_extension.Search.Index.{
  AdminSearchEntry, admin_search_index, tab_only_entries, settings_entries, tab_entries,
  equipas_fields, pontuacao_fields, jogo_fields, rota_fields, visualizacao_fields, inicio_fields,
  regras_fields, branding_fields, events_fields, teams_fields, checkpoints_fields, scoring_fields,
  badges_fields, notifications_fields,
}
use platform_rally_extension.Search.Query.{
  Text, take, is_match, search_admin, results, settings_key_to_section, section_or,
  follow_search_key,
}

abbrev pub in_settings : AdminSearchEntry → Bool
in_settings e = e.tab_id == "settings"

take-take : {A : Type 0} (m n : ℕ) (xs : List A) → m ≤ n → take m (take n xs) ≡ take m xs
take-take zero n xs h = refl
take-take (suc m) zero xs h = absurd (omega (arith, h))
take-take (suc m) (suc n) [] h = refl
take-take (suc m) (suc n) (x ∷ xs) h = ap (λ l. x ∷ l) (take-take m n xs (omega (arith, h)))

and_true : {a b : Bool} → (a && b) ≡ true → (a ≡ true) × (b ≡ true)
and_true h = ground arith

module _ {A : Type 0} (p : A → Bool) where
  filter-none : (n : ℕ) (xs : List A) → all (λ x. not (p x)) xs ≡ true → filter p (take n xs) ≡ []
  filter-none zero xs h = refl
  filter-none (suc n) [] h = refl
  filter-none (suc n) (x ∷ xs) h = ground (arith, filter-none n xs)

  -- Where the elements that pass come first, cutting the list before the filter cuts what passes.
  filter-take :
      (n : ℕ) (xs ys : List A)
      → all p xs ≡ true
      → all (λ y. not (p y)) ys ≡ true
      → filter p (take n (xs ++ ys)) ≡ take n xs
  filter-take zero xs ys h k = refl
  filter-take (suc n) [] ys h k = filter-none (suc n) ys k
  filter-take (suc n) (x ∷ xs) ys h k =
      let (px, pxs) = and_true {a = p x} h in rw px (ap (λ l. x ∷ l) (filter-take n xs ys pxs k))

  all-filter : (q : A → Bool) (xs : List A) → all p xs ≡ true → all p (filter q xs) ≡ true
  all-filter q [] h = refl
  all-filter q (x ∷ xs) h = ground (arith, all-filter q xs)

  all-of_All :
      (P : A → Type 0) → ((x : A) → p x ≡ true → P x) → (xs : List A) → all p xs ≡ true → All P xs
  all-of_All P f [] h = tt
  all-of_All P f (x ∷ xs) h =
      let (px, pxs) = and_true {a = p x} h in (f x px, all-of_All P f xs pxs)

abbrev settings_index : List AdminSearchEntry
settings_index =
    settings_entries "equipas" equipas_fields
    ++ settings_entries "pontuacao" pontuacao_fields
    ++ settings_entries "jogo" jogo_fields
    ++ settings_entries "rota" rota_fields
    ++ settings_entries "visualizacao" visualizacao_fields
    ++ settings_entries "inicio" inicio_fields
    ++ settings_entries "regras" regras_fields

abbrev other_index : List AdminSearchEntry
other_index =
    tab_entries "branding" branding_fields
    ++ tab_entries "events" events_fields
    ++ tab_entries "teams" teams_fields
    ++ tab_entries "checkpoints" checkpoints_fields
    ++ tab_entries "scoring" scoring_fields
    ++ tab_entries "badges" badges_fields
    ++ tab_entries "notifications" notifications_fields
    ++ tab_only_entries

admin_search_index-split : admin_search_index ≡ settings_index ++ other_index
admin_search_index-split = refl

filter-settings : filter in_settings admin_search_index ≡ settings_index
filter-settings = refl

first_eight :
    (m : AdminSearchEntry → Bool)
    → take 8 (filter in_settings (take 20 (filter m admin_search_index)))
      ≡ take 8 (filter m (filter in_settings admin_search_index))
first_eight m =
    ap (λ l. take 8 (filter in_settings (take 20 l))) (filter-append m settings_index other_index)
    ∙ ap (take 8) (
        filter-take in_settings 20 (filter m settings_index) (filter m other_index)
          (all-filter in_settings m settings_index refl)
          (all-filter (λ e. not (in_settings e)) m other_index refl))
    ∙ take-take 8 20 (filter m settings_index) (omega arith)

-- The search of the settings page lists the first eight entries of the settings that match, though
-- it asks for twenty matches of the whole area before it drops the other tabs; and nothing for a
-- query that is blank once it is normalised.
pub results_settings_lem :
    (strings : Text) (query : String)
    → results strings query (some "settings") ≡ (
        if strings.normalize query == ""
        then []
        else take 8 (
            filter
              (is_match strings (strings.normalize query))
              (filter in_settings admin_search_index)))
unfolding results search_admin
results_settings_lem strings query = elim (Bool-cases (strings.normalize query == "")) [
  | inl blank ↦ rw blank refl
  | inr some_query ↦ rw some_query (first_eight (is_match strings (strings.normalize query)))
]

abbrev same_section : Option String → Option String → Bool
same_section none none = true
same_section (some a) (some b) = a == b
same_section _ _ = false

eq_of_same_section : (a b : Option String) → same_section a b ≡ true → a ≡ b
eq_of_same_section none none h = refl
eq_of_same_section none (some b) h = cc h
eq_of_same_section (some a) none h = cc h
eq_of_same_section (some a) (some b) h = ap some (eq_of_same a b h)

leads_home : AdminSearchEntry → Bool
leads_home e =
    not (e.key == "") && same_section (settings_key_to_section e.key) e.settings_section_id

follow-home :
    (section_id : String) (e : AdminSearchEntry)
    → leads_home e ≡ true
    → follow_search_key (some e.key) section_id ≡ section_or e.settings_section_id section_id
unfolding follow_search_key leads_home
follow-home section_id e h =
    let (named, same) = and_true {a = not (e.key == "")} h in
    let n : (e.key == "") ≡ false = ground (arith, named) in
    rw n (
      ap (λ o. section_or o section_id)
        (eq_of_same_section (settings_key_to_section e.key) e.settings_section_id same))

all_home : all leads_home admin_search_index ≡ true
unfolding leads_home settings_key_to_section
all_home = refl

-- Whichever entry of the index is picked, the settings page turns to the entry's own section, and
-- stays where it was for an entry of another tab.
pub follow_search_key_lem :
    (section_id : String)
    → All
        (λ e.
          follow_search_key (some e.key) section_id ≡ section_or e.settings_section_id section_id)
        admin_search_index
follow_search_key_lem section_id =
    all-of_All leads_home _ (follow-home section_id) admin_search_index all_home
