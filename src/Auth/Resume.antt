-- ===== src/Auth/Resume.antt =====
-- web-rally/src/lib/authResumeStore.ts: values that outlive the way to the identity provider, each
-- for a limited time. Numbers are milliseconds; the storage's own steps do not fail, so the `catch`
-- of the reader is reached where the text is not JSON.
pub mod Expiry
use platform_rally_extension.Base.{
  ℕ, ◌+◌, ◌*◌, String, Bool, true, false, ◌&&◌, ◌||◌, not, if◌then◌else◌, leb, Option, none, some,
}
use platform_rally_extension.Base.Value.{
  Value, text, number, object, Fields, field, end, prop, is_object,
}
use platform_rally_extension.Auth.Storage.{Storage, set_item, remove_item}

-- `JSON.parse`, nothing where it throws, and `JSON.stringify`.
pub record Json : Type 0 where
  pub parse : String → Option (Value ℕ)
  pub stringify : Value ℕ → String

abbrev pub default_ttl_ms : ℕ
default_ttl_ms = 15 * 60 * 1000

abbrev pub is_text : Value ℕ → Bool
is_text (text s) = true
is_text _ = false

abbrev pub is_number : Value ℕ → Bool
is_number (number n) = true
is_number _ = false

unfoldable pub is_stored_entry : Value ℕ → Bool
is_stored_entry v = is_object v && is_text (prop "value" v) && is_number (prop "expiresAt" v)

abbrev pub stored_entry : String → ℕ → Value ℕ
stored_entry value expires_at =
    object (field "value" (text value) (field "expiresAt" (number expires_at) end))

-- The two fields, of a value that is an entry.
abbrev pub value_of : Value ℕ → Option String
value_of (text s) = some s
value_of _ = none

abbrev pub expires_at_of : Value ℕ → ℕ
expires_at_of (number n) = n
expires_at_of _ = 0

module _ (json : Json) where
  -- `now` is `Date.now()`.
  unfoldable pub set_resume_value : ℕ → String → String → ℕ → Storage → Storage
  set_resume_value now key value ttl_ms s =
      set_item key (json.stringify (stored_entry value (now + ttl_ms))) s

  -- The reader, by what `JSON.parse` gave.
  abbrev pub read_entry : ℕ → String → Option (Value ℕ) → Storage → Option String × Storage
  read_entry now key none s = (none, remove_item key s)
  read_entry now key (some parsed) s =
      if not (is_stored_entry parsed) || leb (expires_at_of (prop "expiresAt" parsed)) now
      then (none, remove_item key s)
      else (value_of (prop "value" parsed), s)

  abbrev pub read_raw : ℕ → String → Option String → Storage → Option String × Storage
  read_raw now key none s = (none, s)
  read_raw now key (some raw) s = read_entry now key (json.parse raw) s

  unfoldable pub get_resume_value : ℕ → String → Storage → Option String × Storage
  get_resume_value now key s = read_raw now key (s key) s

unfoldable pub clear_resume_value : String → Storage → Storage
clear_resume_value key s = remove_item key s
