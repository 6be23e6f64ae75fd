-- ===== src/Search/Query.antt =====
-- `searchAdmin` and `SETTINGS_KEY_TO_SECTION` of web-rally/src/lib/adminSearchIndex.ts, the results
-- that web-rally/src/pages/admin/components/AdminSearch.tsx lists, and the section that
-- web-rally/src/pages/settings/index.tsx turns to. `normalize` and `includes` of strings are the
-- record `Text`.
pub mod Results
use platform_rally_extension.Base.{
  ℕ, zero, suc, String, Bool, true, false, not, if◌then◌else◌, ◌==◌, Same-text, Option, none, some,
  List, [], ◌∷◌, filter, get_or, find,
}
use platform_rally_extension.Search.Index.{AdminSearchEntry, admin_search_index}

pub record Text : Type 0 where
  pub normalize : String → String
  pub includes : String → String → Bool

-- `slice(0, n)`
abbrev pub take : {A : Type 0} → ℕ → List A → List A
take zero xs = []
take (suc n) [] = []
take (suc n) (x ∷ xs) = x ∷ take n xs

abbrev pub has_section : AdminSearchEntry → Bool
has_section entry = elim entry.settings_section_id [
  | none ↦ false
  | some section ↦ not (section == "")
]

-- The value under a key of `Object.fromEntries`, where the last entry with the key counts.
abbrev pub section_in : String → List AdminSearchEntry → Option String
section_in key [] = none
section_in key (entry ∷ entries) = elim (section_in key entries) [
  | none ↦ if entry.key == key then entry.settings_section_id else none
  | some section ↦ some section
]

unfoldable pub settings_key_to_section : String → Option String
settings_key_to_section key = section_in key (filter has_section admin_search_index)

abbrev pub section_or : Option String → String → String
section_or none section = section
section_or (some target) section = target

-- The effect of the settings page that follows the key which is searched for.
unfoldable pub follow_search_key : Option String → String → String
follow_search_key none section_id = section_id
follow_search_key (some key) section_id =
    if key == "" then section_id else section_or (settings_key_to_section key) section_id

module _ (strings : Text) where
  abbrev pub is_match : String → AdminSearchEntry → Bool
  is_match q entry = strings.includes (strings.normalize entry.label) q

  unfoldable pub search_admin : String → ℕ → List AdminSearchEntry
  search_admin query limit =
      let q = strings.normalize query in
      if q == "" then [] else take limit (filter (is_match q) admin_search_index)

  -- The list under the input; `filter_tab_id` restricts it to one tab.
  unfoldable pub results : String → Option String → List AdminSearchEntry
  results query none = search_admin query 8
  results query (some tab_id) = take 8 (filter (λ e. e.tab_id == tab_id) (search_admin query 20))
