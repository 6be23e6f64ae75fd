-- ===== src/Auth/Storage.antt =====
-- web-rally/src/lib/auth/tokenStore.ts: the keys of the two sessions in `localStorage`. The storage
-- gives each key's value; its steps do not fail. `D` is the type of the parsed team data.
use platform_rally_extension.Base.{
  String, Bool, true, false, if◌then◌else◌, ◌==◌, Same-text, Option, none, some,
}

abbrev pub Storage : Type 0
Storage = String → Option String

abbrev pub set_item : String → String → Storage → Storage
set_item key value s k = if k == key then some value else s k

abbrev pub remove_item : String → Storage → Storage
remove_item key s k = if k == key then none else s k

abbrev pub staff_token_key : String
staff_token_key = "rally_token"

abbrev pub team_token_key : String
team_token_key = "rally_team_token"

abbrev pub team_data_key : String
team_data_key = "rally_team_data"

unfoldable pub get_staff_token : Storage → Option String
get_staff_token s = s staff_token_key

unfoldable pub set_staff_token : String → Storage → Storage
set_staff_token token s = set_item staff_token_key token s

unfoldable pub remove_staff_token : Storage → Storage
remove_staff_token s = remove_item staff_token_key s

unfoldable pub get_team_token : Storage → Option String
get_team_token s = s team_token_key

unfoldable pub set_team_token : String → Storage → Storage
set_team_token token s = set_item team_token_key token s

unfoldable pub remove_team_token : Storage → Storage
remove_team_token s = remove_item team_token_key s

abbrev pub is_there : {A : Type 0} → Option A → Bool
is_there none = false
is_there (some a) = true

unfoldable pub has_team_data : Storage → Bool
has_team_data s = is_there (s team_data_key)

-- What `JSON.parse` makes of a text: it throws, or gives a value that counts as false (like
-- `null`), or gives one that does not, which the source takes for team data.
pub data Parsed (D : Type 0) : Type 0 where
  malformed falsy : Parsed D
  truthy : D → Parsed D

pub record Codec (D : Type 0) : Type 0 where
  pub parse : String → Parsed D
  pub stringify : D → String

abbrev pub of_parsed : {D : Type 0} → Parsed D → Option D
of_parsed (truthy d) = some d
of_parsed _ = none

-- A text that is there and not empty, as `if (raw)` tests it.
abbrev pub non_empty : Option String → Option String
non_empty none = none
non_empty (some s) = if s == "" then none else some s

module _ {D : Type 0} (json : Codec D) where
  abbrev pub team_data_of : Option String → Option D
  team_data_of none = none
  team_data_of (some raw) = of_parsed (json.parse raw)

  unfoldable pub get_team_data : Storage → Option D
  get_team_data s = team_data_of (non_empty (s team_data_key))

  unfoldable pub set_team_data : D → Storage → Storage
  set_team_data d s = set_item team_data_key (json.stringify d) s

unfoldable pub remove_team_data : Storage → Storage
remove_team_data s = remove_item team_data_key s

unfoldable pub clear_team_auth : Storage → Storage
clear_team_auth s = remove_team_data (remove_team_token s)

unfoldable pub clear_all_auth : Storage → Storage
clear_all_auth s = remove_team_data (remove_team_token (remove_staff_token s))
