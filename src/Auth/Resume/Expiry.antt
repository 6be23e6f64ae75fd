-- ===== src/Auth/Resume/Expiry.antt =====
-- How long a stored value is there.
use platform_rally_extension.Base.{
  ℕ, ◌+◌, String, ◌≡◌, ◌≢◌, refl, sym, ◌∙◌, true, ◌||◌, not, if◌then◌else◌, Same-text, leb, Option,
  none, some, arith, inl, inr, Bool-cases, same_refl,
}
use platform_rally_extension.Base.Value.{
  Value, undefined, null, boolean, number, array, object, prop, text,
}
use platform_rally_extension.Auth.Storage.{Storage, remove_item}
use platform_rally_extension.Auth.Resume.{
  Json, stored_entry, is_text, is_stored_entry, expires_at_of, value_of, set_resume_value,
  read_entry, read_raw, get_resume_value,
}

text_there : (v : Value ℕ) → is_text v ≡ true → value_of v ≢ none
text_there (text s) t e = absurd (cc e)
text_there undefined t e = absurd (cc t)
text_there null t e = absurd (cc t)
text_there (boolean b) t e = absurd (cc t)
text_there (number n) t e = absurd (cc t)
text_there (array vs) t e = absurd (cc t)
text_there (object fs) t e = absurd (cc t)

module _ (json : Json) where
  removed : (key : String) (s : Storage) → remove_item key s key ≡ none
  removed key s = rw (same_refl key) refl

  -- If JSON reads back the entry that it wrote, a stored value is read back as it is
  -- until its time has passed, and the storage is left alone; from then on nothing is read and the
  -- key is deleted.
  pub get_resume_value-set_resume_value :
      (now later ttl_ms : ℕ) (key value : String) (s : Storage)
      → json.parse (json.stringify (stored_entry value (now + ttl_ms)))
        ≡ some (stored_entry value (now + ttl_ms))
      → let stored = set_resume_value json now key value ttl_ms s in
        get_resume_value json later key stored ≡ (
          if leb (now + ttl_ms) later then (none, remove_item key stored) else (some value, stored))
  unfolding set_resume_value get_resume_value is_stored_entry
  get_resume_value-set_resume_value now later ttl_ms key value s ok =
      rw (same_refl key, ok)
        (elim (Bool-cases (leb (now + ttl_ms) later)) [ inl h ↦ rw h refl | inr h ↦ rw h refl ])

  read_entry-clears :
      (now : ℕ) (key : String) (o : Option (Value ℕ)) (s : Storage)
      → (read_entry json now key o s).0 ≡ none
      → (read_entry json now key o s).1 key ≡ none
  unfolding is_stored_entry
  read_entry-clears now key none s e = removed key s
  read_entry-clears now key (some v) s e =
      elim (Bool-cases (not (is_stored_entry v) || leb (expires_at_of (prop "expiresAt" v)) now)) [
        | inl h ↦ rw h (removed key s)
        | inr h ↦
            let t : is_text (prop "value" v) ≡ true = ground (arith, h) in
            let n : value_of (prop "value" v) ≡ none = sym (rw h refl) ∙ e in
            absurd (text_there (prop "value" v) t n)
      ]

  read_raw-clears :
      (now : ℕ) (key : String) (o : Option String) (s : Storage)
      → s key ≡ o
      → (read_raw json now key o s).0 ≡ none
      → (read_raw json now key o s).1 key ≡ none
  read_raw-clears now key none s q e = q
  read_raw-clears now key (some raw) s q e = read_entry-clears now key (json.parse raw) s e

  -- Whenever nothing is read, whatever was stored and however broken, the key is gone afterwards.
  pub get_resume_value-clears :
      (now : ℕ) (key : String) (s : Storage)
      → (get_resume_value json now key s).0 ≡ none
      → (get_resume_value json now key s).1 key ≡ none
  unfolding get_resume_value
  get_resume_value-clears now key s e = read_raw-clears now key (s key) s refl e
